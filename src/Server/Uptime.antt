-- ===== src/Server/Uptime.antt =====
-- How long the server has run, as text: Server::uptimeStr (src/server.cpp). The difference of the
-- two clock times is taken not to be negative; its three readings are Boost's.
pub mod Reading
use zway_server.Base.{ℕ, ◌+◌, ◌*◌, ◌/◌, ◌%◌, ◌≡◌, ◌∙◌, List, [], ◌∷◌, ◌++◌, ltb, if◌then◌else◌}
use zway_server.Fcm.{codes, decimal}

pub record Duration : Type 0 where
  pub hours : ℕ
  pub minutes : ℕ
  pub seconds : ℕ

pub data Measure : Type 0 where
  day : Measure
  hour : Measure
  minute : Measure
  second : Measure

unfoldable pub label : Measure → List ℕ
label day = codes " day(s) "
label hour = codes " hour(s) "
label minute = codes " minute(s) "
label second = codes " second(s) "

-- One of the four conditional insertions into the stream.
add_part : ℕ → Measure → List (ℕ × Measure) → List (ℕ × Measure)
add_part n u rest = if ltb 0 n then (n, u) ∷ rest else rest

unfoldable pub parts : Duration → List (ℕ × Measure)
unfolding add_part
parts d =
    add_part (d.hours / 24) day
      (add_part (d.hours % 24) hour (add_part d.minutes minute (add_part d.seconds second [])))

unfoldable pub write_parts : List (ℕ × Measure) → List ℕ
unfolding decimal label
write_parts [] = []
write_parts ((n, u) ∷ ps) = decimal n ++ (label u ++ write_parts ps)

unfoldable pub uptime_str : Duration → List ℕ
unfolding parts write_parts
uptime_str d = write_parts (parts d)

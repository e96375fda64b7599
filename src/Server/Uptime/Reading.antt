-- ===== src/Server/Uptime/Reading.antt =====
-- What the text of the running time says (src/server.cpp, Server::uptimeStr), as somebody reads it.
use zway_server.Base.{
  ℕ, zero, suc, ◌+◌, ◌-◌, ◌*◌, ◌/◌, ◌%◌, ◌≤◌, ◌≡◌, refl, ap, ◌∙◌, ◌&&◌, List, [], ◌∷◌, ◌++◌, arith,
  ltb, leb, ◌==◌, if_cases, if◌then◌else◌,
}
use zway_server.Fcm.{decimal, digits_from, value_of, value_of-decimal}
use zway_server.Server.Uptime.{
  Duration, Measure, day, hour, minute, second, label, add_part, parts, write_parts, uptime_str,
}

-- The number that is being read, and the seconds read so far.
record Reading : Type 0 where
  number : ℕ
  total : ℕ

-- The unit by the letter behind the space.
abbrev scale_of : List ℕ → ℕ
scale_of [] = 0
scale_of (c ∷ cs) =
    if c == 100
    then 86400
    else (if c == 104 then 3600 else (if c == 109 then 60 else (if c == 115 then 1 else 0)))

take : ℕ → List ℕ → Reading → Reading
take c cs r =
    if leb 48 c && leb c 57
    then record r { number = r.number * 10 + (c - 48) }
    else (if c == 32 then record { number = 0; total = r.total + r.number * scale_of cs } else r)

read : List ℕ → Reading → Reading
unfolding take
read [] r = r
read (c ∷ cs) r = read cs (take c cs r)

-- The seconds that a text says.
unfoldable pub seconds_read : List ℕ → ℕ
unfolding read
seconds_read text = (read text (record { number = 0; total = 0 })).total

abbrev scale : Measure → ℕ
scale day = 86400
scale hour = 3600
scale minute = 60
scale second = 1

read-label :
    (u : Measure) (rest : List ℕ) (n t : ℕ)
    → read (label u ++ rest) (record { number = n; total = t })
      ≡ read rest (record { number = 0; total = t + n * scale u })
unfolding read take label
read-label day rest n t = ap (λ v. read rest (record { number = 0; total = v })) (omega arith)
read-label hour rest n t = ap (λ v. read rest (record { number = 0; total = v })) (omega arith)
read-label minute rest n t = ap (λ v. read rest (record { number = 0; total = v })) (omega arith)
read-label second rest n t = ap (λ v. read rest (record { number = 0; total = v })) (omega arith)

abbrev Digits : List ℕ → Type 0
Digits [] = Unit {0}
Digits (d ∷ ds) = (48 ≤ d) × (d ≤ 57) × Digits ds

digits_from-Digits : (f n : ℕ) (rest : List ℕ) → Digits rest → Digits (digits_from f n rest)
unfolding digits_from
digits_from-Digits zero n rest h = h
digits_from-Digits (suc f) n rest h =
    if_cases (λ l. Digits l) (ltb n 10) (λ e. (omega arith, ground arith, h))
      λ e. digits_from-Digits f (n / 10) ((48 + n % 10) ∷ rest) (omega arith, omega arith, h)

read-Digits :
    (ds rest : List ℕ) (n t : ℕ)
    → Digits ds
    → read (ds ++ rest) (record { number = n; total = t })
      ≡ read rest (record { number = value_of n ds; total = t })
unfolding read take value_of
read-Digits [] rest n t h = refl
read-Digits (d ∷ ds) rest n t h =
    ground (arith, h.0, h.1, read-Digits ds rest (n * 10 + (d - 48)) t h.2)

read_part :
    (n : ℕ) (u : Measure) (rest : List ℕ) (t : ℕ)
    → read (decimal n ++ (label u ++ rest)) (record { number = 0; total = t })
      ≡ read rest (record { number = 0; total = t + n * scale u })
unfolding decimal
read_part n u rest t =
    read-Digits (decimal n) (label u ++ rest) 0 t (digits_from-Digits (n + 1) n [] tt)
    ∙ ap (λ v. read (label u ++ rest) (record { number = v; total = t })) (value_of-decimal n)
    ∙ read-label u rest n t

abbrev sum_of : List (ℕ × Measure) → ℕ
sum_of [] = 0
sum_of ((n, u) ∷ ps) = n * scale u + sum_of ps

read-write_parts :
    (ps : List (ℕ × Measure)) (t : ℕ)
    → (read (write_parts ps) (record { number = 0; total = t })).total ≡ t + sum_of ps
unfolding write_parts read
read-write_parts [] t = omega arith
read-write_parts ((n, u) ∷ ps) t =
    ap (λ r. r.total) (read_part n u (write_parts ps) t)
    ∙ read-write_parts ps (t + n * scale u)
    ∙ omega arith

sum_of-add_part :
    (n : ℕ) (u : Measure) (ps : List (ℕ × Measure))
    → sum_of (add_part n u ps) ≡ n * scale u + sum_of ps
unfolding add_part
sum_of-add_part n u ps = ground arith

-- Whoever reads the text gets the running time back, to the second: a part that is left out is zero,
-- and the days and hours add up to the hours.
pub seconds_read-uptime_str :
    (d : Duration) → seconds_read (uptime_str d) ≡ d.hours * 3600 + d.minutes * 60 + d.seconds
unfolding seconds_read uptime_str parts
seconds_read-uptime_str d =
    let s = add_part d.seconds second [] in
    let m = add_part d.minutes minute s in
    let h = add_part (d.hours % 24) hour m in
    read-write_parts (parts d) 0
    ∙ omega (
      arith,
      sum_of-add_part d.seconds second [],
      sum_of-add_part d.minutes minute s,
      sum_of-add_part (d.hours % 24) hour m,
      sum_of-add_part (d.hours / 24) day h,
    )

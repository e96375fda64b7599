-- ===== src/Server/Info.antt =====
-- The text that the console's key i shows: Server::info (src/server.cpp). Texts are lists of
-- character codes; the addresses of the clients are a parameter.
use zway_server.Base.{
  ℕ, ◌≤◌, ◌≡◌, refl, ◌∙◌, ap, sym, ◌&&◌, Bool, true, List, [], ◌∷◌, ◌++◌, Option, none, some, arith,
  length, length-append, ltb,
}
use mathlib.Core.List.{append_assoc}
use zway_server.OrderedMap.{OrderedMap}
use zway_server.Value.{Elements, bson_obj, number_int}
use zway_server.World.{World, Platform}
use zway_server.Server.Uptime.{Duration, uptime_str}
use zway_server.Session.Lifecycle.{all_sessions}
use zway_server.Fcm.{codes, decimal}
use zway_server.Db

module _ {S E : Type 0} (p : Platform S E) (remote_host : ℕ → List ℕ) (w : World S E) where
  account_of : ℕ → Option Elements
  account_of id = Db.first (
      p.mongo.query w.store Db.accounts
        (Db.plain (bson_obj (("id", number_int id) ∷ [])) (bson_obj (("name", Db.one) ∷ [])) 0))

  account_name : Option Elements → List ℕ
  account_name none = codes "?"
  account_name (some account) = codes (p.bson.as_str (p.bson.get_elem account "name"))

  -- The address, a tab, the name, and the end of the line.
  unfoldable pub session_line : ℕ → List ℕ
  unfolding account_of account_name
  session_line q =
      remote_host q ++ (9 ∷ (account_name (account_of (w.sessions q).account_id) ++ 10 ∷ []))

  bucket_lines : List ℕ → List ℕ
  unfolding session_line
  bucket_lines [] = []
  bucket_lines (q ∷ qs) = session_line q ++ bucket_lines qs

  -- The loops over the map and over the sessions of each of its entries.
  unfoldable pub session_list : OrderedMap (List ℕ) → List ℕ
  unfolding bucket_lines
  session_list [] = []
  session_list ((k, qs) ∷ m) = bucket_lines qs ++ session_list m

  unfoldable pub info : Duration → ℕ → List ℕ
  unfolding session_list
  info duration num_buffers =
      codes "Status info:\nDuration: "
      ++ (uptime_str duration
          ++ (codes "\nStream buffers: "
              ++ (decimal num_buffers
                  ++ (codes "\nSessions: "
                      ++ (decimal (length w.registry) ++ (10 ∷ session_list w.registry))))))

  unfoldable pub lines_of : List ℕ → List ℕ
  lines_of [] = []
  lines_of (q ∷ qs) = session_line q ++ lines_of qs

  lines_of-append : (qs rs : List ℕ) → lines_of (qs ++ rs) ≡ bucket_lines qs ++ lines_of rs
  unfolding lines_of bucket_lines
  lines_of-append [] rs = refl
  lines_of-append (q ∷ qs) rs =
      ap (λ l. session_line q ++ l) (lines_of-append qs rs)
      ∙ sym (append_assoc (session_line q) (bucket_lines qs) (lines_of rs))

  -- The text has the line of each session that the server's map holds, in the map's order.
  pub session_list-lines : (m : OrderedMap (List ℕ)) → session_list m ≡ lines_of (all_sessions m)
  unfolding session_list all_sessions lines_of
  session_list-lines [] = refl
  session_list-lines ((k, qs) ∷ m) =
      ap (λ l. bucket_lines qs ++ l) (session_list-lines m)
      ∙ sym (lines_of-append qs (all_sessions m))

-- No entry of the map is empty.
abbrev pub filled : OrderedMap (List ℕ) → Bool
filled [] = true
filled ((k, qs) ∷ m) = ltb 0 (length qs) && filled m

-- The number that the text calls the sessions is not above the number of its lines.
pub entries_bounded :
    (m : OrderedMap (List ℕ)) → filled m ≡ true → length m ≤ length (all_sessions m)
unfolding all_sessions
entries_bounded [] full = omega arith
entries_bounded ((k, qs) ∷ m) full =
    ground (arith, length-append qs (all_sessions m), entries_bounded m)

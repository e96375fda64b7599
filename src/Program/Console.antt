-- ===== src/Program/Console.antt =====
-- The console of the program, and its way from the start of the server to its close, without the
-- option --daemon (src/main.cpp). Keys are
-- character codes; between two of them, other threads run the server's handlers.
use zway_server.Base.{
  ℕ, ◌≡◌, refl, ◌∙◌, Bool, true, false, not, ◌||◌, List, [], ◌∷◌, ◌++◌, Option, none, some, arith,
  ◌==◌, if◌then◌else◌,
}
use zway_server.Server.Lifecycle.{
  AcceptorApi, Lifecycle, Event, new, start, pause, resume, run, close,
}

-- What a key makes the console call or write.
pub data Notice : Type 0 where
  info : Notice
  sessions_removed : Notice
  resumed : Notice
  paused : Notice

pub record Console (A : Type 0) : Type 0 where
  pub server : Lifecycle A
  pub notices : List Notice

-- The program has returned -1, or has closed its server.
pub data Exit (A : Type 0) : Type 0 where
  refused : Exit A
  closed : Console A → Exit A

module _ {A : Type 0} (api : AcceptorApi A) where
  toggle : Lifecycle A → List Notice → Console A
  toggle s ns =
      if s.paused
      then record { server = (resume api s).1; notices = ns ++ resumed ∷ [] }
      else record { server = (pause api s).1; notices = ns ++ paused ∷ [] }

  note : Notice → Lifecycle A → List Notice → Console A
  note n s ns = record { server = s; notices = ns ++ n ∷ [] }

  -- The keys i, r and p; the others do nothing.
  unfoldable pub press : ℕ → Lifecycle A → List Notice → Console A
  unfolding toggle note
  press key s ns =
      if key == 105
      then note info s ns
      else (if key == 114
          then note sessions_removed s ns
          else (if key == 112 then toggle s ns else record { server = s; notices = ns }))

  -- The keys up to e, with what the other threads do before each. Where they end without one, the
  -- loop goes on for ever.
  unfoldable pub control : List (List Event × ℕ) → Console A → Option (Console A)
  unfolding press
  control [] c = none
  control ((es, key) ∷ ks) c =
      let s = run api es c.server in
      let rest = control ks (press key s c.notices) in
      if key == 101 then some (record c { server = s }) else rest

  ended : Option (Console A) → Option (Exit A)
  unfolding close
  ended none = none
  ended (some c) = some (closed (record c { server = close api c.server }))

  started : Bool × Lifecycle A → List (List Event × ℕ) → Option (Exit A)
  unfolding ended
  started (false, s) ks = some refused
  started (true, s) ks = ended (control ks (record { server = s; notices = [] }))

  -- From the start of the server; `none` is a program that does not return.
  unfoldable pub main : Bool → Bool → A → List (List Event × ℕ) → Option (Exit A)
  unfolding started start
  main database prepared a ks = started (start api database prepared (new a)) ks

abbrev pub returns {ℓ} : {A : Type ℓ} → Option A → Bool
returns none = false
returns (some a) = true

abbrev pub leaves : List (List Event × ℕ) → Bool
leaves [] = false
leaves ((es, key) ∷ ks) = key == 101 || leaves ks

module _ {A : Type 0} (api : AcceptorApi A) where
  pub returns-control :
      (ks : List (List Event × ℕ)) (c : Console A) → returns (control api ks c) ≡ leaves ks
  unfolding control
  returns-control [] c = refl
  returns-control ((es, key) ∷ ks) c =
      ground (arith, returns-control ks (press api key (run api es c.server) c.notices))

  returns-ended : (o : Option (Console A)) → returns (ended api o) ≡ returns o
  unfolding ended
  returns-ended none = refl
  returns-ended (some c) = refl

  returns-started :
      (r : Bool × Lifecycle A) (ks : List (List Event × ℕ))
      → returns (started api r ks) ≡ (not r.0 || leaves ks)
  unfolding started
  returns-started (false, s) ks = refl
  returns-started (true, s) ks =
      returns-ended (control api ks (record { server = s; notices = [] }))
      ∙ returns-control ks (record { server = s; notices = [] })

  -- The program comes to its end, or to closing its server, exactly if the server does not start or
  -- the console reads an e, whatever the
  -- other threads and the other keys do.
  pub returns-main :
      (database prepared : Bool) (a : A) (ks : List (List Event × ℕ))
      → returns (main api database prepared a ks)
        ≡ (not (start api database prepared (new a)).0 || leaves ks)
  unfolding main
  returns-main database prepared a ks = returns-started (start api database prepared (new a)) ks

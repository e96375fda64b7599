-- ===== src/Session/Examples/Runs.antt =====
-- Runs of the server at the small database.
use zway_server.Base.{ℕ, ◌<◌, ◌≡◌, refl, true, false, [], ◌∷◌, arith}
use zway_server.OrderedMap.{lookup}
use zway_server.World.{World, gets, pure, modify, ◌>>=◌}
use zway_server.Server.Sessions.{contains, get_sessions}
use zway_server.Session.Basics
use zway_server.Session.Incoming
use zway_server.Session.Account
use zway_server.Session.Lifecycle
use zway_server.Session.Kept.{incoming-login}
use zway_server.Session.Login.{login_enters}
use zway_server.Session.Registered.{Registered}
use zway_server.Session.Reachable.{Run-Registered, Run, here, next, started, requested}
use zway_server.Session.Reachable.Listed.Runs.{Run-Listed}
use zway_server.Session.Reachable.Proven.{Proven, Run-Proven}
use zway_server.Session.Examples.Setup.{Store, platform}
use zway_server.Session.Examples.Data.{ann, outside, login}

abbrev empty : World Store ℕ
empty = record outside { registry = [] }

absent : (k : ℕ) → contains 1 (get_sessions k empty.registry) ≡ false
unfolding contains get_sessions lookup
absent k = refl

-- A session starts and logs in.
abbrev session :
    Run platform empty
      (Incoming.process_incoming_request platform 1 login (Lifecycle.start platform 1 empty).1).1
session =
    next (next here (started 1 empty absent))
      (requested 1 login (Lifecycle.start platform 1 empty).1)

Run-Registered_example :
    Registered
      (Incoming.process_incoming_request platform 1 login (Lifecycle.start platform 1 empty).1).1
Run-Registered_example = Run-Registered platform empty refl session

nobody_in : (q : ℕ) → (empty.sessions q).status < 2
nobody_in q = omega arith

abbrev begun : World Store ℕ
begun = (Lifecycle.start platform 1 empty).1

still_out : (begun.sessions 1).status < 2
unfolding Lifecycle.start Basics.draw Basics.update_session Basics.register modify gets pure ◌>>=◌
still_out = ground arith

right_password : Account.verify_password platform ann (1 ∷ 2 ∷ []) ≡ true
unfolding Account.verify_password Account.digest_matches Account.bytes_eq
right_password = refl

logged_in : ((Incoming.process_incoming_request platform 1 login begun).1.sessions 1).status ≡ 2
unfolding Lifecycle.start Basics.draw Basics.update_session Basics.register modify gets pure ◌>>=◌
logged_in =
    rw (incoming-login platform 1 login begun refl)
      (login_enters platform 1 login begun ann (1 ∷ 2 ∷ []) still_out refl refl refl refl
        right_password).logged_in

Run-Listed_example :
    contains 1 (
      get_sessions
        ((Incoming.process_incoming_request platform 1 login begun).1.sessions 1).account_id
        (Incoming.process_incoming_request platform 1 login begun).1.registry)
    ≡ true
Run-Listed_example = Run-Listed platform empty nobody_in session 1 logged_in

Run-Proven_example :
    Proven platform empty (Incoming.process_incoming_request platform 1 login begun).1 1
Run-Proven_example = Run-Proven platform empty nobody_in session 1 logged_in

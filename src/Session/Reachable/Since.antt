-- ===== src/Session/Reachable/Since.antt =====
-- Steps after which a session that is logged in was so before, with the same account id
-- (src/session.cpp, src/server.cpp).
use zway_server.Base.{ℕ, ◌<◌, ◌≡◌, refl, Bool, true, false, [], arith}
use zway_server.World.{World, Platform, pure, gets, modify, ◌>>=◌}
use zway_server.World.Keeps.{Keeps, Keeps-modify, keeps_rules}
use zway_server.Server.Sessions.{get_sessions, contains}
use zway_server.Session.Basics
use zway_server.Session.Lifecycle
use zway_server.Session.Frame.{Frame}
use zway_server.Session.Registered.{Absent}

-- If the session is logged in now, it was so in `w`, with the same account id.
pub record Since {S E : Type 0} (q : ℕ) (w v : World S E) : Type 0 where
  pub since :
      (v.sessions q).status ≡ 2
      → ((w.sessions q).status ≡ 2) × ((v.sessions q).account_id ≡ (w.sessions q).account_id)

module _ {S E : Type 0} (q : ℕ) (w : World S E) where
  pub Since-refl : Since q w w
  Since-refl = record { since = λ inside. (inside, refl) }

  pub Since-Frame : (me : ℕ) → Frame {S = S} {E = E} me (Since q w)
  Since-Frame me = record {
    around = λ v s engines draws log h. record { since = h.since };
    own = λ v s account status h. record { since = λ inside. let k = h.since in ground arith };
  }

  out-Since : (me n : ℕ) → n < 2 → Keeps {S = S} {E = E} (Since q w) (Basics.set_status me n)
  unfolding Basics.set_status Basics.update_session
  out-Since me n low =
      Keeps-modify _ λ v h. record { since = λ inside. let k = h.since in ground arith }

  unregister-Since : (me : ℕ) → Keeps {S = S} {E = E} (Since q w) (Basics.unregister me)
  unfolding Basics.unregister
  unregister-Since me = Keeps-modify _ λ v h. record { since = h.since }

  down-Since :
      (me : ℕ) → Keeps {S = S} {E = E} (Since q w) (Basics.set_status me Basics.status_disconnected)
  down-Since me = out-Since me Basics.status_disconnected (omega arith)

  pub on-Since :
      (me : ℕ) → Keeps {S = S} {E = E} (Since q w) (Basics.set_status me Basics.status_connected)
  on-Since me = out-Since me Basics.status_connected (omega arith)

  pub close-Since :
      (me : ℕ) (remove : Bool) → Keeps {S = S} {E = E} (Since q w) (Lifecycle.close me remove)
  unfolding Lifecycle.close
  close-Since me remove = search (keeps_rules, down-Since, unregister-Since)

  pub handshake-Since :
      (me : ℕ) (fine : Bool)
      → Keeps {S = S} {E = E} (Since q w) (Lifecycle.handle_handshake me fine)
  unfolding Lifecycle.handle_handshake
  handshake-Since me fine = search (keeps_rules, on-Since, close-Since)

  close_kept-Since : (r : ℕ) → Keeps {S = S} {E = E} (Since q w) (Lifecycle.close_kept r)
  unfolding Lifecycle.close_kept
  close_kept-Since r = close-Since r false

  clear-Since : Keeps {S = S} {E = E} (Since q w) (modify (λ v. record v { registry = [] }))
  clear-Since = Keeps-modify _ λ v h. record { since = h.since }

  pub cleared-Since : Keeps {S = S} {E = E} (Since q w) Lifecycle.remove_sessions
  unfolding Lifecycle.remove_sessions
  cleared-Since = search (keeps_rules, close_kept-Since, clear-Since)

module _ {S E : Type 0} (p : Platform S E) where
  pub start-Since :
      (q me : ℕ) (u : World S E)
      → Absent me u
      → ((u.sessions q).status ≡ 2
          → contains q (get_sessions (u.sessions q).account_id u.registry) ≡ true)
      → Since q u (Lifecycle.start p me u).1
  unfolding Lifecycle.start Basics.draw Basics.update_session Basics.register modify gets pure ◌>>=◌
  start-Since q me u new listed = record {
    since = λ inside. let gone = new (u.sessions me).account_id in (ground arith, ground arith);
  }

-- ===== src/Session/Reachable.antt =====
-- The runs of the server: sessions start, shake hands, send requests and answers and are closed,
-- tasks run for users, and the map is cleared, in any order.
pub mod Since
pub mod Listed
pub mod Proven
use zway_server.Base.{ℕ, ◌≡◌, Bool, true, false, List, [], ◌∷◌, arith, ◌==◌, ==_self, if◌then◌else◌}
use zway_server.OrderedMap.{lookup}
use zway_server.Value.{Ubj}
use zway_server.World.{World, Platform, pure, gets, modify, ◌>>=◌}
use zway_server.World.Keeps.{Keeps, Keeps-modify, Keeps-bind, Keeps-pure, keeps_rules}
use zway_server.Server.Sessions
use zway_server.Server.Sessions.{
  get_sessions, contains, contains-append, contains-remove_all, get_sessions-append,
  get_sessions-remove,
}
use zway_server.Session.Basics
use zway_server.Session.Responses
use zway_server.Session.Incoming
use zway_server.Session.Lifecycle
use zway_server.Session.Kept.{incoming-Keeps, response-Keeps}
use zway_server.Session.Kept.Tasks.{user_requests-Keeps}
use zway_server.Session.Registered.{
  Registered, Absent, Registered-Frame, set_status-Registered, move_session-Registered,
}
use zway_server.Db

module _ {S E : Type 0} where
  unregister-Registered : (me : ℕ) → Keeps {S = S} {E = E} Registered (Basics.unregister me)
  unfolding Basics.unregister
  unregister-Registered me = Keeps-modify _ λ w h. record {
    placed = λ k q m. ground (
      arith,
      get_sessions-remove (w.sessions me).account_id k me w.registry,
      contains-remove_all q me (get_sessions (w.sessions me).account_id w.registry),
      h.placed k q,
    );
  }

  pub close-Registered :
      (me : ℕ) (remove : Bool) → Keeps {S = S} {E = E} Registered (Lifecycle.close me remove)
  unfolding Lifecycle.close
  close-Registered me remove = search (keeps_rules, set_status-Registered, unregister-Registered)

  handshake-Registered :
      (me : ℕ) (fine : Bool) → Keeps {S = S} {E = E} Registered (Lifecycle.handle_handshake me fine)
  unfolding Lifecycle.handle_handshake
  handshake-Registered me fine = search (keeps_rules, set_status-Registered, close-Registered)

  close_kept-Registered : (q : ℕ) → Keeps {S = S} {E = E} Registered (Lifecycle.close_kept q)
  unfolding Lifecycle.close_kept
  close_kept-Registered q = close-Registered q false

  clear-Registered : Keeps {S = S} {E = E} Registered (modify (λ w. record w { registry = [] }))
  unfolding get_sessions contains lookup
  clear-Registered = Keeps-modify _ λ w h. record { placed = λ k q m. cc }

  remove_sessions-Registered : Keeps {S = S} {E = E} Registered Lifecycle.remove_sessions
  unfolding Lifecycle.remove_sessions
  remove_sessions-Registered = search (keeps_rules, close_kept-Registered, clear-Registered)

module _ {S E : Type 0} (p : Platform S E) where
  started-placed :
      (me id k q : ℕ) (w : World S E)
      → Registered w
      → Absent me w
      → contains q (get_sessions k (Sessions.append_session id me w.registry)) ≡ true
      → (if me == q then id else (w.sessions q).account_id) ≡ k
  started-placed me id k q w h new m = ground (
    arith,
    get_sessions-append id k me w.registry,
    contains-append q me (get_sessions id w.registry),
    h.placed k q,
    new k,
  )

  pub start-Registered :
      (me : ℕ) (w : World S E) → Registered w → Absent me w → Registered (Lifecycle.start p me w).1
  unfolding Lifecycle.start Basics.draw Basics.update_session Basics.register modify gets pure ◌>>=◌
  start-Registered me w h new = record {
    placed = λ k q m.
        ground (arith, ==_self me, started-placed me (p.u32_of (p.rand w.draws 4)) k q w h new);
  }

  -- One step of a run, with what triggers it.
  pub data Step : World S E → World S E → Type 0 where
    started : (me : ℕ) (w : World S E) → Absent me w → Step w (Lifecycle.start p me w).1
    shaken :
        (me : ℕ) (fine : Bool) (w : World S E) → Step w (Lifecycle.handle_handshake me fine w).1
    requested :
        (me : ℕ) (head : Ubj) (w : World S E)
        → Step w (Incoming.process_incoming_request p me head w).1
    answered :
        (me type id : ℕ) (response : Ubj) (w : World S E)
        → Step w (Responses.process_response p me type id response w).1
    tasked : (id : ℕ) (w : World S E) → Step w (Incoming.process_user_requests p id w).1
    closed : (me : ℕ) (remove : Bool) (w : World S E) → Step w (Lifecycle.close me remove w).1
    cleared : (w : World S E) → Step w (Lifecycle.remove_sessions w).1

  Step-Registered : {w w' : World S E} → Step w w' → Registered w → Registered w'
  Step-Registered (started me w new) h = start-Registered me w h new
  Step-Registered (shaken me fine w) h = (handshake-Registered me fine).apply w h
  Step-Registered (requested me head w) h =
      (incoming-Keeps p (Registered-Frame me) (set_status-Registered me)
          (move_session-Registered me) head).apply
        w h
  Step-Registered (answered me type id response w) h =
      (response-Keeps p (Registered-Frame me) type id response).apply w h
  Step-Registered (tasked id w) h = (user_requests-Keeps p Registered-Frame id).apply w h
  Step-Registered (closed me remove w) h = (close-Registered me remove).apply w h
  Step-Registered (cleared w) h = remove_sessions-Registered.apply w h

  pub data Run (w : World S E) : World S E → Type 0 where
    here : Run w w
    next : {u v : World S E} → Run w u → Step u v → Run w v

  -- In every run of a server that begins without sessions, whatever the clients send and in
  -- whatever order sessions start (each while the map does not hold it), log in and out and end, a
  -- session that the server's map holds under an account has that account as its own account id.
  pub Run-Registered : (w : World S E) {v : World S E} → w.registry ≡ [] → Run w v → Registered v
  unfolding get_sessions contains lookup
  Run-Registered w empty here = record { placed = λ k q m. cc }
  Run-Registered w empty (next r s) = Step-Registered s (Run-Registered w empty r)

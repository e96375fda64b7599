-- ===== src/Session/Reachable/Listed/Runs.antt =====
-- In every run, a logged-in session stands in the server's map (src/session.cpp, src/server.cpp).
use zway_server.Base.{
  ℕ, ◌<◌, ◌≡◌, refl, Bool, true, false, ◌||◌, List, [], ◌∷◌, ◌++◌, arith, ◌==◌, ==_self, Bool-cases,
  inl, inr,
}
use zway_server.OrderedMap.{OrderedMap, lookup}
use zway_server.World.{World, Platform, go, pure, gets, modify, for_each, ◌>>=◌}
use zway_server.World.Keeps.{Keeps-bind}
use zway_server.Server.Sessions.{get_sessions, contains, contains-append, get_sessions-append}
use zway_server.Session.Basics
use zway_server.Session.Lifecycle
use zway_server.Session.Lifecycle.{all_sessions}
use zway_server.Session.Kept.{response-Keeps}
use zway_server.Session.Kept.Tasks.{user_requests-Keeps}
use zway_server.Session.Registered.{Absent}
use zway_server.Session.Reachable.{
  Step, Run, here, next, started, shaken, requested, answered, tasked, closed, cleared,
}
use zway_server.Session.Reachable.Listed.{
  Listed, Listed-Frame, out-Listed, status-Listed, unregister-Listed, but, except_it,
  requested-Listed,
}

contains-++ : (q : ℕ) (xs ys : List ℕ) → contains q (xs ++ ys) ≡ (contains q xs || contains q ys)
unfolding contains
contains-++ q [] ys = refl
contains-++ q (x ∷ xs) ys = ground (arith, contains-++ q xs ys)

-- Whoever stands under some account is among all sessions.
among_all :
    (q k : ℕ) (m : OrderedMap (List ℕ))
    → contains q (get_sessions k m) ≡ true
    → contains q (all_sessions m) ≡ true
unfolding get_sessions lookup all_sessions contains
among_all q k [] m = absurd (ground arith)
among_all q k ((j, qs) ∷ r) m = elim (Bool-cases (j == k)) [
  | inl this ↦ rw (contains-++ q qs (all_sessions r)) (ground (arith, rw this at m))
  | inr later ↦
      rw (contains-++ q qs (all_sessions r)) (ground (arith, among_all q k r (rw later at m)))
]

module _ {S E : Type 0} where
  close-Listed :
      (me : ℕ) (remove : Bool) (w : World S E) → Listed w → Listed (Lifecycle.close me remove w).1
  unfolding Lifecycle.close Basics.set_status Basics.update_session Basics.unregister modify pure
      ◌>>=◌
  close-Listed me false w h = (out-Listed (λ q. false) me 0 (omega arith)).apply w h
  close-Listed me true w h =
      but me (Lifecycle.close me true w).1
        ((Keeps-bind _ _ (status-Listed me 0) λ _. unregister-Listed me).apply w (except_it me w h))
        (λ inside. absurd (ground (arith, ==_self me)))

  handshake-Listed :
      (me : ℕ) (fine : Bool) (w : World S E)
      → Listed w
      → Listed (Lifecycle.handle_handshake me fine w).1
  unfolding Lifecycle.handle_handshake
  handshake-Listed me true w h = (out-Listed (λ q. false) me 1 (omega arith)).apply w h
  handshake-Listed me false w h = close-Listed me true w h

  closed_all :
      (qs : List ℕ) (w : World S E) (q : ℕ)
      → ((for_each qs Lifecycle.close_kept w).1.sessions q).status ≡ 2
      → (contains q qs ≡ false) × ((w.sessions q).status ≡ 2)
  unfolding for_each contains Lifecycle.close_kept Lifecycle.close Basics.set_status
      Basics.update_session modify pure ◌>>=◌
  closed_all [] w q inside = (refl, inside)
  closed_all (x ∷ qs) w q inside =
      let (gone, before) = closed_all qs (Lifecycle.close_kept x w).1 q inside in
      (ground (arith, before), ground (arith, before))

  closes :
      (qs : List ℕ) (w : World S E)
      → for_each qs Lifecycle.close_kept w ≡ (go tt, (for_each qs Lifecycle.close_kept w).1)
  unfolding for_each Lifecycle.close_kept Lifecycle.close Basics.set_status Basics.update_session
      modify pure ◌>>=◌
  closes [] w = refl
  closes (x ∷ qs) w = closes qs (Lifecycle.close_kept x w).1

  pub cleared-sessions :
      (w : World S E)
      → (Lifecycle.remove_sessions w).1.sessions
        ≡ (for_each (all_sessions w.registry) Lifecycle.close_kept w).1.sessions
  unfolding Lifecycle.remove_sessions gets modify ◌>>=◌
  cleared-sessions w = rw (closes (all_sessions w.registry) w) refl

  cleared-Listed : (w : World S E) → Listed w → Listed (Lifecycle.remove_sessions w).1
  cleared-Listed w h = record {
    held = λ q _ inside.
        let (gone, before) =
          closed_all (all_sessions w.registry) w q (rw (cleared-sessions w) at inside) in
        absurd (
          ground
            (arith, among_all q (w.sessions q).account_id w.registry (h.held q refl before), gone));
  }

module _ {S E : Type 0} (p : Platform S E) where
  start-Listed :
      (me : ℕ) (w : World S E) → Absent me w → Listed w → Listed (Lifecycle.start p me w).1
  unfolding Lifecycle.start Basics.draw Basics.update_session Basics.register modify gets pure ◌>>=◌
  start-Listed me w new h = record {
    held = λ q other inside. ground (
      arith,
      get_sessions-append (p.u32_of (p.rand w.draws 4)) (w.sessions q).account_id me w.registry,
      get_sessions-append (p.u32_of (p.rand w.draws 4)) (p.u32_of (p.rand w.draws 4)) me w.registry,
      contains-append q me (get_sessions (p.u32_of (p.rand w.draws 4)) w.registry),
      contains-append me me (get_sessions (p.u32_of (p.rand w.draws 4)) w.registry),
      ==_self me,
      h.held q other,
    );
  }

  pub Step-Listed : {w w' : World S E} → Step p w w' → Listed w → Listed w'
  Step-Listed (started me w new) h = start-Listed me w new h
  Step-Listed (shaken me fine w) h = handshake-Listed me fine w h
  Step-Listed (requested me head w) h = requested-Listed p me head w h
  Step-Listed (answered me type id response w) h =
      (response-Keeps p (Listed-Frame (λ q. false) me) type id response).apply w h
  Step-Listed (tasked id w) h = (user_requests-Keeps p (Listed-Frame (λ q. false)) id).apply w h
  Step-Listed (closed me remove w) h = close-Listed me remove w h
  Step-Listed (cleared w) h = cleared-Listed w h

  -- In every run of a server that begins without sessions in its map and without one that is logged
  -- in, whatever the clients send and in whatever order sessions start (each while the map does not
  -- hold it), log in and out and end: a session that is logged in stands in the server's map under
  -- its own account id.
  pub Run-Listed :
      (w : World S E) {v : World S E}
      → ((q : ℕ) → (w.sessions q).status < 2)
      → Run p w v
      → (q : ℕ) → (v.sessions q).status ≡ 2
      → contains q (get_sessions (v.sessions q).account_id v.registry) ≡ true
  Run-Listed w out r q inside = (run out r).held q refl inside
    where
      run : {v : World S E} → ((q : ℕ) → (w.sessions q).status < 2) → Run p w v → Listed v
      run out here = record { held = λ q _ inside. absurd (ground (arith, out q)) }
      run out (next r s) = Step-Listed s (run out r)

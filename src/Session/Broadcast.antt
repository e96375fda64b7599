-- ===== src/Session/Broadcast.antt =====
-- Who is told when a session's status changes: ClientSession::broadcastStatus (src/session.cpp).
use zway_server.Base.{ℕ, ◌≡◌, Bool, false, ◌&&◌, ◌||◌, List, [], ◌∷◌, ◌++◌, map, ◌==◌}
use zway_server.OrderedMap.{OrderedMap}
use zway_server.Value.{Ubj}
use zway_server.World.{World, Exit, Platform, Effect, go, notified}
use zway_server.Server.Sessions.{get_sessions, contains}
use zway_server.Session.Basics
use zway_server.Session.Basics.{status_notice}

-- A notice, by its receiver and its request id.
abbrev pub mentions : ℕ → List (ℕ × ℕ) → Bool
mentions q [] = false
mentions q ((r, b) ∷ es) = r == q || mentions q es

stamped : ℕ → List ℕ → List (ℕ × ℕ) → List (ℕ × ℕ)
stamped b [] acc = acc
stamped b (q ∷ qs) acc = stamped b qs ((q, b) ∷ acc)

module _ {S E : Type 0} (p : Platform S E) (w : World S E) where
  -- A contact that asks for the status, with the session among those of the contact's account.
  abbrev pub wanted_by : ℕ → OrderedMap Ubj → Bool
  wanted_by q [] = false
  wanted_by q ((id, contact) ∷ cs) =
      (p.ubj.to_bool (p.ubj.get contact "notifyStatus") && contains q (get_sessions id w.registry))
      || wanted_by q cs

module _ {S E : Type 0} (p : Platform S E) (me status : ℕ) (w : World S E) where
  abbrev notices : List (ℕ × ℕ) → List Effect
  notices es = map (λ e. notified e.0 e.1 (status_notice p (w.sessions me).account_id status)) es

  -- The world with the notices that were sent so far.
  abbrev pub having : ℕ → List (ℕ × ℕ) → World S E
  having draws told = record w { draws = draws; log = notices told ++ w.log }

  -- The notices that are sent are of the session's account and of the given status, and go to the
  -- sessions that satisfy the test; nothing else changes but the count of random draws.
  pub record Told (test : ℕ → Bool) (r : Exit (Unit {0}) × World S E) : Type 0 where
    pub draws : ℕ
    pub told : List (ℕ × ℕ)
    pub outcome : r ≡ (go tt, having draws told)
    pub who : (q : ℕ) → mentions q told ≡ test q

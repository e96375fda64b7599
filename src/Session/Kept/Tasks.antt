-- ===== src/Session/Kept/Tasks.antt =====
-- The task for an account, Server::processUserRequests (src/server.cpp), as an action that keeps the
-- properties that a Frame of every session describes.
use zway_server.Base.{ℕ, List, [], ◌∷◌}
use zway_server.World.{World, Platform}
use zway_server.World.Keeps.{Keeps, Keeps-bind, Keeps-pure, keeps_rules}
use zway_server.Session.Basics
use zway_server.Session.Incoming
use zway_server.Session.Frame.{Frame, Keeps-emit}
use zway_server.Session.Kept.{Keeps-process_requests}
use zway_server.Db

module _ {S E : Type 0} (p : Platform S E) {P : World S E → Type 0} (f : (q : ℕ) → Frame q P) where
  run_requests-Keeps : (q : ℕ) → Keeps P (Incoming.run_requests p q)
  unfolding Incoming.run_requests
  run_requests-Keeps q = Keeps-bind _ _ (Keeps-process_requests p (f q)) λ _. Keeps-pure tt

  serve_sessions-Keeps : (id : ℕ) (qs : List ℕ) → Keeps P (Incoming.serve_sessions p id qs)
  unfolding Incoming.serve_sessions Incoming.wake_user Incoming.notify_if Db.get_fcm_token
      Db.num_contact_requests Db.num_push_requests Db.num_requests
  serve_sessions-Keeps id [] = search (keeps_rules, Keeps-emit (f id)) depth 20
  serve_sessions-Keeps id (q ∷ qs) = search (keeps_rules, run_requests-Keeps)

  -- The task for an account, which may run every session.
  pub user_requests-Keeps : (id : ℕ) → Keeps P (Incoming.process_user_requests p id)
  unfolding Incoming.process_user_requests Basics.sessions_of
  user_requests-Keeps id = search (keeps_rules, serve_sessions-Keeps)

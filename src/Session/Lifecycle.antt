-- ===== src/Session/Lifecycle.antt =====
-- The beginning and the end of a session: ClientSession::start and close (src/session.cpp), without
-- the socket's own calls, and Server::removeSessions (src/server.cpp).
use zway_server.Base.{ℕ, Bool, true, false, List, [], ◌∷◌, ◌++◌, if◌then◌else◌}
use zway_server.OrderedMap.{OrderedMap}
use zway_server.World.{Act, Platform, pure, gets, modify, for_each, ◌>>=◌, ◌>>◌}
use zway_server.Session.Basics.{
  set_status, update_session, register, unregister, draw, status_disconnected, status_connected,
}

unfoldable pub all_sessions : OrderedMap (List ℕ) → List ℕ
all_sessions [] = []
all_sessions ((k, qs) ∷ m) = qs ++ all_sessions m

module _ {S E : Type 0} where
  unfoldable pub close : ℕ → Bool → Act S E (Unit {0})
  close me remove = do set_status me status_disconnected; if remove then unregister me else pure tt

  unfoldable pub close_kept : ℕ → Act S E (Unit {0})
  close_kept q = close q false

  -- Every session is closed where it stands, then the map is cleared.
  unfoldable pub remove_sessions : Act S E (Unit {0})
  remove_sessions = do
    qs ← gets (λ w. all_sessions w.registry)
    for_each qs close_kept
    modify (λ w. record w { registry = [] })

  -- The status after a handshake.
  unfoldable pub handle_handshake : ℕ → Bool → Act S E (Unit {0})
  handle_handshake me ok = if ok then set_status me status_connected else close me true

module _ {S E : Type 0} (p : Platform S E) where
  -- A new session stands in the map under an account id of four random bytes.
  unfoldable pub start : ℕ → Act S E (Unit {0})
  start me = do
    bytes ← draw p 4
    update_session me (λ s. record s { account_id = p.u32_of bytes })
    register me

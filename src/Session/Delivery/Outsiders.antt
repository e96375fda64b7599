-- ===== src/Session/Delivery/Outsiders.antt =====
-- Sessions that get an account's requests though they are not logged in: those whose temporary
-- account id is the account's, and those that have logged out (src/session.cpp, src/server.cpp).
use zway_server.Base.{ℕ, ◌<◌}
use zway_server.World.{World, Platform}
use zway_server.Session.Basics
use zway_server.Session.Account
use zway_server.Session.Incoming
use zway_server.Session.Lifecycle
use zway_server.Session.Registered.{Registered}
use zway_server.Session.Delivery.{AllHeld}
use zway_server.Db.Laws.{Engines, waiting}

module _ {S E : Type 0} (p : Platform S E) (engines : Engines p) where
  -- A session that is not logged in and holds what waits for the account.
  pub record Overheard (me account : ℕ) (before after : World S E) : Type 0 where
    pub outside : (before.sessions me).status < 2
    pub got : AllHeld p engines me (waiting p account before.store) after

-- ===== src/Transfer/Announced.antt =====
-- How the uploading session hears that its stream has come (src/session.cpp, the callback of
-- createStreamReceiver).
use zway_server.Base.{ℕ}
use zway_server.World.{World, Platform}
use zway_server.Session.Requests
use zway_server.Db
use zway_server.Db.Laws.{Documents, Engines}
use zway_server.Transfer.Upload.{dispatch_doc}

module _ {S E : Type 0} (p : Platform S E) (docs : Documents p) (engines : Engines p) where
  stored : ℕ → ℕ → World S E → World S E
  stored me id w = record w {
    store = (p.mongo.insert w.store Db.requests (dispatch_doc p id (w.sessions me).account_id)).1;
  }

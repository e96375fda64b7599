-- ===== src/Session/Examples/Outsiders.antt =====
-- Sessions that are not logged in and get requests, at the small database.
use zway_server.Base.{ℕ, List, [], ◌∷◌, ◌==◌, if◌then◌else◌}
use zway_server.Value.{Elements, number_int, bson_obj}
use zway_server.World.{World}
use zway_server.Session.Account
use zway_server.Session.Incoming
use zway_server.Session.Lifecycle
use zway_server.Session.Registered.{Registered}
use zway_server.Session.Examples.Setup.{Store}
use zway_server.Session.Examples.Data.{store, stranger}
use zway_server.Session.Examples.Posting

abbrev wish_for_them : Elements
wish_for_them = bson_obj (
    ("id", number_int 6)
    ∷ ("type", number_int 3100)
    ∷ ("src", number_int 8)
    ∷ ("dst", number_int 99)
    ∷ [])

-- A request waits for account 99; session 5 begins.
abbrev world : World Store (List (ℕ × ℕ))
world = record Posting.world {
  store = record store { requests = wish_for_them ∷ [] };
  sessions = λ q. if q == 5 then stranger else Posting.world.sessions q;
}

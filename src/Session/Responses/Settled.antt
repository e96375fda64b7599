-- ===== src/Session/Responses/Settled.antt =====
-- What is still waiting after a client's answer (src/session.cpp, src/request/).
use zway_server.Base.{ℕ, ◌≡◌, Bool, true, not, ◌&&◌, ◌||◌, [], ◌∷◌, ◌==◌, if◌then◌else◌}
use zway_server.Value.{Ubj, bson_obj, number_int}
use zway_server.World.{World, Act, Platform}
use zway_server.Session.Responses
use zway_server.Db

module _ {S E : Type 0} (p : Platform S E) where
  -- The types of requests that a good answer settles.
  abbrev pub settles : ℕ → Bool
  settles type =
      type == p.types.dispatch
      || not (type == p.types.add_contact)
        && (type == p.types.accept_contact
            || type == p.types.reject_contact
            || type == p.types.push)

  abbrev removed : ℕ → ℕ → World S E → Bool × S
  removed me id w =
      p.mongo.remove w.store Db.requests
        (bson_obj (("id", number_int id) ∷ ("dst", number_int (w.sessions me).account_id) ∷ []))
        true

  module _ (me type id : ℕ) (response : Ubj) (w : World S E) where
    abbrev good : Bool
    good = Responses.status_of p response == 1

    abbrev Leaves : Bool → Act S E (Unit {0}) → Type 0
    Leaves settled m = (m w).1.store ≡ (if settled then (removed me id w).1 else w.store)

-- ===== src/Db/Collection.antt =====
-- The collection of requests as a list in the order of insertion, and what the mongo driver's calls
-- do to it (src/db.cpp asks it by a request's id, by its receiver and by both).
use zway_server.Base.{
  ℕ, ◌≡◌, refl, Bool, true, false, ◌||◌, List, [], ◌∷◌, ◌++◌, some, arith, ◌==◌, Bool-cases, inl,
  inr, if◌then◌else◌,
}
use zway_server.Value.{Elements, bson_obj, number_int}
use zway_server.World.{Platform}
use zway_server.Db
use zway_server.Db.Laws.{waiting, dst_of, without_id}

module _ {S E : Type 0} (p : Platform S E) where
  abbrev id_of : Elements → ℕ
  id_of d = p.bson.as_int (p.bson.get_elem d "id")

  unfoldable pub addressed : ℕ → List Elements → List Elements
  addressed account [] = []
  addressed account (d ∷ ds) =
      let rest = addressed account ds in if dst_of p d == account then d ∷ rest else rest

  unfoldable pub has_id : ℕ → List Elements → Bool
  has_id id [] = false
  has_id id (d ∷ ds) = id_of d == id || has_id id ds

  -- A query by the receiver gives the requests addressed to it, in order; what a query by id and
  -- receiver gives is one with that id. An insertion that did not throw puts the request last, and a
  -- removal of one by its id takes the first that has it.
  pub record Collection : Type 0 where
    pub all : S → List Elements
    pub waiting_lem : (account : ℕ) (s : S) → waiting p account s ≡ addressed account (all s)
    pub found_lem :
        (s : S) (id account : ℕ) (d : Elements)
        → Db.first (
            p.mongo.query s Db.requests (
              Db.plain
                (bson_obj (("id", number_int id) ∷ ("dst", number_int account) ∷ []))
                (bson_obj [])
                0))
          ≡ some d
        → has_id id (all s) ≡ true
    pub inserted_lem :
        (s : S) (d : Elements)
        → (p.mongo.insert s Db.requests d).0 ≡ true
        → all (p.mongo.insert s Db.requests d).1 ≡ all s ++ d ∷ []
    pub removed_lem :
        (s : S) (id : ℕ)
        → (p.mongo.remove s Db.requests (bson_obj (("id", number_int id) ∷ [])) true).0 ≡ true
        → all (p.mongo.remove s Db.requests (bson_obj (("id", number_int id) ∷ [])) true).1
          ≡ without_id p id (all s)

  pub addressed-append :
      (account : ℕ) (ds : List Elements) (d : Elements)
      → addressed account (ds ++ d ∷ [])
        ≡ (if dst_of p d == account then addressed account ds ++ d ∷ [] else addressed account ds)
  unfolding addressed
  addressed-append account [] d = elim (Bool-cases (dst_of p d == account)) [
    | inl e ↦ rw e refl
    | inr e ↦ rw e refl
  ]
  addressed-append account (x ∷ ds) d = ground (arith, addressed-append account ds d)

  -- A removal does not come to what stands behind a request with the id.
  pub without_id-append :
      (id : ℕ) (ds : List Elements) (d : Elements)
      → has_id id ds ≡ true
      → without_id p id (ds ++ d ∷ []) ≡ without_id p id ds ++ d ∷ []
  unfolding without_id has_id
  without_id-append id [] d h = absurd (ground arith)
  without_id-append id (x ∷ ds) d h = ground (arith, without_id-append id ds d)

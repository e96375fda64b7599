-- ===== src/Db/Laws.antt =====
-- What the server relies on of the foreign libraries that it stores and posts messages with: the
-- mongo driver's documents and collections, and the engine's list of requests.
use zway_server.Base.{
  ℕ, ◌≡◌, String, true, ◌&&◌, ◌||◌, List, [], ◌∷◌, ◌++◌, ◌==◌, str_eq, if◌then◌else◌,
}
use zway_server.Value.{Ubj, Bson, Elements, bson_obj, number_int, bin_data, elem}
use zway_server.Stdio.{Bytes}
use zway_server.World.{Platform}
use zway_server.Db

module _ {S E : Type 0} (p : Platform S E) where
  -- The requests that wait for an account, as `getRequests` finds them.
  abbrev pub waiting : ℕ → S → List Elements
  waiting account s = Db.or_empty (
      p.mongo.query s Db.requests
        (Db.plain (bson_obj (("dst", number_int account) ∷ [])) (bson_obj []) 0))

  abbrev pub dst_of : Elements → ℕ
  dst_of d = p.bson.as_int (p.bson.get_elem d "dst")

  -- A member of a document is the first element with its name, and a number is read as it was
  -- written. An insertion that did not throw puts the document behind those that a query for its
  -- receiver finds, and behind no other's.
  pub record Documents : Type 0 where
    pub get_elem_lem :
        (j k : String) (v : Bson) (d : Elements)
        → p.bson.get_elem (elem j v d) k ≡ (if str_eq j k then v else p.bson.get_elem d k)
    pub as_int_lem : (n : ℕ) → p.bson.as_int (number_int n) ≡ n
    pub insert_lem :
        (s : S) (d : Elements) (account : ℕ)
        → (p.mongo.insert s Db.requests d).0 ≡ true
        → waiting account (p.mongo.insert s Db.requests d).1
          ≡ (if dst_of d == account then waiting account s ++ d ∷ [] else waiting account s)

  -- The engine waits for the answer to a request from the time it was posted.
  pub record Engines : Type 0 where
    pub post_lem :
        (e : E) (type id type' id' : ℕ) (content : Ubj)
        → p.pending (p.post e type id content) type' id'
          ≡ ((type == type' && id == id') || p.pending e type' id')

  -- The first document with the id is gone.
  unfoldable pub without_id : ℕ → List Elements → List Elements
  without_id id [] = []
  without_id id (d ∷ ds) =
      let rest = without_id id ds in
      if p.bson.as_int (p.bson.get_elem d "id") == id then ds else d ∷ rest

  -- The removal of one document by id and receiver takes the first such one, and none of another
  -- receiver; a removal that throws takes none.
  pub record Removals : Type 0 where
    pub remove_lem :
        (s : S) (id receiver account : ℕ)
        → waiting account
            (p.mongo.remove s Db.requests
              (bson_obj (("id", number_int id) ∷ ("dst", number_int receiver) ∷ []))
              true).1
          ≡ (if (p.mongo.remove s Db.requests
                  (bson_obj (("id", number_int id) ∷ ("dst", number_int receiver) ∷ []))
                  true).0
                && receiver == account
              then without_id id (waiting account s)
              else waiting account s)

  -- The contact requests that hold an add code, as `getRequest` finds them.
  abbrev pub coded : String → S → List Elements
  coded code s = Db.or_empty (
      p.mongo.query s Db.requests (
        Db.plain
          (bson_obj (("type", number_int p.types.add_contact) ∷ ("addCode", Bson.string code) ∷ []))
          (bson_obj []) 0))

  -- A text is read as it was written, and an insertion that did not throw puts the document behind
  -- those that a query for its add code finds, if it is a contact request.
  pub record Codes : Type 0 where
    pub as_str_lem : (t : String) → p.bson.as_str (Bson.string t) ≡ t
    pub code_lem :
        (s : S) (d : Elements) (code : String)
        → (p.mongo.insert s Db.requests d).0 ≡ true
        → coded code (p.mongo.insert s Db.requests d).1 ≡ (
            if p.bson.as_int (p.bson.get_elem d "type") == p.types.add_contact
              && str_eq (p.bson.as_str (p.bson.get_elem d "addCode")) code
            then coded code s ++ d ∷ []
            else coded code s)

  -- The hash and the salt of the accounts with an id, as processLogin asks for them.
  abbrev pub logins : ℕ → S → List Elements
  logins id s = Db.or_empty (
      p.mongo.query s Db.accounts (
        Db.plain (bson_obj (("id", number_int id) ∷ []))
          (bson_obj (("pass", Db.one) ∷ ("salt", Db.one) ∷ [])) 0))

  -- Binary data is read as it was written. A query that asks for the hash and the salt gives, of
  -- each document, a view that has these two as the document has them, and an insertion that did not
  -- throw puts the document's view behind those of the accounts with the same id.
  pub record Accounts : Type 0 where
    pub shown : Elements → Elements
    pub as_bin_lem : (b : Bytes) → p.bson.as_bin (bin_data b) ≡ b
    pub shown_pass_lem :
        (d : Elements) → p.bson.get_elem (shown d) "pass" ≡ p.bson.get_elem d "pass"
    pub shown_salt_lem :
        (d : Elements) → p.bson.get_elem (shown d) "salt" ≡ p.bson.get_elem d "salt"
    pub account_lem :
        (s : S) (d : Elements) (id : ℕ)
        → (p.mongo.insert s Db.accounts d).0 ≡ true
        → logins id (p.mongo.insert s Db.accounts d).1 ≡ (
            if p.bson.as_int (p.bson.get_elem d "id") == id
            then logins id s ++ shown d ∷ []
            else logins id s)

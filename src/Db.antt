-- ===== src/Db.antt =====
-- class DB (include/db.h, src/db.cpp): what the server asks of the database. Each method holds one
-- of the pooled connections while it runs; the pool is modelled on its own, and here a connection
-- is taken to be at hand.
pub mod Inbox
pub mod Laws
pub mod Collection
pub mod Phones
pub mod Examples
use zway_server.Base.{
  ℕ, ◌+◌, ◌-◌, ◌%◌, ◌^◌, String, Bool, true, false, List, [], ◌∷◌, ◌++◌, map, Option, none, some,
  ◌==◌, if◌then◌else◌,
}
use zway_server.Stdio.{Bytes}
use zway_server.Value.{Ubj, Bson, Elements, bson_obj, number_int, bin_data}
use zway_server.World.{Act, Platform, Query, pure, gets, modify, ◌>>=◌, ◌>>◌}
use Inbox.{group, inbox_of}

abbrev pub u32_mod : ℕ
u32_mod = 2 ^ 32

-- `uint32_t res = -1`.
abbrev pub u32_max : ℕ
u32_max = u32_mod - 1

abbrev pub accounts : String
accounts = "zway.accounts"

abbrev pub requests : String
requests = "zway.requests"

abbrev pub plain : Elements → Elements → ℕ → Query
plain q fields limit = record { filter = q; sort_down = none; limit = limit; fields = fields }

abbrev pub one : Bson
one = number_int 1

-- The first document of a cursor.
abbrev pub first : Option (List Elements) → Option Elements
first none = none
first (some []) = none
first (some (d ∷ r)) = some d

abbrev pub or_empty : Option (List Elements) → List Elements
or_empty none = []
or_empty (some l) = l

-- `BSONElement::String()` throws unless the element is a text, and the exception gives "".
abbrev pub text_or_empty : Bson → String
text_or_empty (Bson.string s) = s
text_or_empty _ = ""

module _ {S E : Type 0} (p : Platform S E) where
  open p use {bson, mongo}

  unfoldable pub next_id : Option (List Elements) → ℕ
  next_id none = 0
  next_id (some []) = 1
  next_id (some (d ∷ r)) = (bson.as_int (bson.get_elem d "id") + 1) % u32_mod

  unfoldable pub new_account_id : Act S E ℕ
  new_account_id = gets λ w. next_id (
      mongo.query w.store accounts (record {
        filter = bson_obj [];
        sort_down = some "id";
        limit = 1;
        fields = bson_obj (("id", one) ∷ []);
      }))

  unfoldable pub get_account : Elements → Elements → Act S E (Option Elements)
  get_account q fields = gets λ w. first (mongo.query w.store accounts (plain q fields 0))

  -- A call that writes: whether it did not throw.
  unfoldable pub write_store : (S → Bool × S) → Act S E Bool
  write_store f = do
    done ← gets (λ w. (f w.store).0)
    modify (λ w. record w { store = (f w.store).1 })
    pure done

  unfoldable pub set_fcm_token : ℕ → String → Act S E Bool
  set_fcm_token id token = write_store λ s.
      mongo.update s accounts (bson_obj (("id", number_int id) ∷ []))
        (bson_obj (("$set", Bson.object (bson_obj (("fcmToken", Bson.string token) ∷ []))) ∷ []))

  unfoldable pub token_of : Option Elements → String
  token_of none = ""
  token_of (some d) = text_or_empty (bson.get_elem d "fcmToken")

  unfoldable pub get_fcm_token : ℕ → Act S E String
  get_fcm_token id = gets λ w. token_of (
      first (
        mongo.query w.store accounts
          (plain (bson_obj (("id", number_int id) ∷ [])) (bson_obj (("fcmToken", one) ∷ [])) 0)))

  unfoldable pub count_or_max : Option ℕ → ℕ
  count_or_max none = u32_max
  count_or_max (some n) = n % u32_mod

  unfoldable pub num_requests : ℕ → ℕ → Act S E ℕ
  num_requests id type = gets λ w. count_or_max (
      mongo.count w.store requests
        (bson_obj (("dst", number_int id) ∷ ("type", number_int type) ∷ [])))

  unfoldable pub num_contact_requests : ℕ → Act S E ℕ
  num_contact_requests id = num_requests id 3100

  unfoldable pub num_push_requests : ℕ → Act S E ℕ
  num_push_requests id = num_requests id 4100

  unfoldable pub account_doc : ℕ → String → String → Bool → Bool → Bytes → Bytes → Elements
  account_doc id name phone by_name by_phone pass salt = bson_obj (
      ("id", number_int id)
      ∷ ("name", Bson.string name)
      ∷ ("phone", Bson.string phone)
      ∷ ("findByName", Bson.bool by_name)
      ∷ ("findByPhone", Bson.bool by_phone)
      ∷ ("pass", bin_data pass)
      ∷ ("salt", bin_data salt)
      ∷ [])

  unfoldable pub insert_account : ℕ → String → String → Bool → Bool → Bytes → Bytes → Act S E Bool
  insert_account id name phone by_name by_phone pass salt =
      write_store
        λ s. mongo.insert s accounts (account_doc id name phone by_name by_phone pass salt)

  -- The method returns true behind its handler, too.
  unfoldable pub add_request : Elements → Act S E Bool
  add_request doc = do
    done ← write_store (λ s. mongo.insert s requests doc)
    if done then pure true else pure true

  unfoldable pub delete_request : Elements → Act S E Bool
  delete_request q = write_store λ s. mongo.remove s requests q true

  unfoldable pub is_one : Option ℕ → Bool
  is_one none = false
  is_one (some n) = n == 1

  unfoldable pub request_pending : Elements → Act S E Bool
  request_pending q = gets λ w. is_one (mongo.count w.store requests q)

  unfoldable pub get_request : Elements → Act S E (Option Elements)
  get_request q = gets λ w. first (mongo.query w.store requests (plain q (bson_obj []) 0))

  unfoldable pub get_requests : Elements → Act S E (List Elements)
  get_requests q = gets λ w. or_empty (mongo.query w.store requests (plain q (bson_obj []) 0))

  unfoldable pub get_contacts : Elements → Elements → Act S E (List Elements)
  get_contacts q fields = gets λ w. or_empty (mongo.query w.store accounts (plain q fields 50))

  -- The senders and ids of the waiting messages; the caller's array stays empty if the query throws.
  unfoldable pub get_inbox : ℕ → Act S E Ubj
  get_inbox id = gets λ w. inbox_of (
      group (
        map_docs (
          or_empty (
            mongo.query w.store requests (
              plain (bson_obj (("dst", number_int id) ∷ ("type", number_int 4100) ∷ []))
                (bson_obj (("src", one) ∷ ("id", one) ∷ [])) 0)))))
    where
      map_docs : List Elements → List (ℕ × ℕ)
      map_docs = map λ d. (bson.as_int (bson.get_elem d "src"), bson.as_int (bson.get_elem d "id"))

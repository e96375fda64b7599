-- ===== src/Session/Adding.antt =====
-- What contact requests and add codes leave (src/session.cpp, processAddContactRequest and
-- processCreateAddCode, with src/db.cpp).
use zway_server.Base.{
  ℕ, ◌+◌, ◌≤◌, ◌≡◌, String, Bool, true, false, [], ◌∷◌, List, Option, some, arith, ge→ltb, str_eq,
  ◌==◌,
}
use zway_server.Value.{Ubj, Bson, Elements, bson_obj, ubj_obj, int32, number_int}
use zway_server.World.{
  World, Effect, go, Platform, success, user_task, pure, gets, modify, emit, require, or_else,
  ◌>>=◌,
}
use zway_server.Session.Basics.{self, refuse, reply, need_login, draw}
use zway_server.Session.Account.{request_id}
use zway_server.Session.Outcomes.{account, own}
use zway_server.Session.Contacts
use zway_server.Db

module _ {S E : Type 0} (p : Platform S E) (me : ℕ) (head : Ubj) (w : World S E) where
  abbrev pub code : String
  code = p.ubj.to_str (p.ubj.get head "addCode")

  abbrev pub label : String
  label = p.ubj.to_str (p.ubj.get head "name")

  -- The request that holds the add code, and the account that a query finds.
  abbrev pub coded : Option Elements
  coded = Db.first (
      p.mongo.query w.store Db.requests (
        Db.plain
          (bson_obj (("type", number_int p.types.add_contact) ∷ ("addCode", Bson.string code) ∷ []))
          (bson_obj []) 0))

  abbrev pub found_by : Elements → Option Elements
  found_by query = Db.first (
      p.mongo.query w.store Db.accounts
        (Db.plain query (bson_obj (("id", Db.one) ∷ ("name", Db.one) ∷ ("phone", Db.one) ∷ [])) 0))

  abbrev pub with_label : Elements
  with_label = bson_obj (("name", Bson.string label) ∷ ("findByName", Bson.bool true) ∷ [])

  abbrev pub id_of : Elements → ℕ
  id_of contact = p.bson.as_int (p.bson.get_elem contact "id")

  -- Whether exactly one contact request from this account to the other one waits.
  abbrev pub asked : ℕ → Bool
  asked id = Db.is_one p (
      p.mongo.count w.store Db.requests (
        bson_obj (
          ("type", number_int p.types.add_contact)
          ∷ ("src", number_int (account p me head w))
          ∷ ("dst", number_int id)
          ∷ [])))

  -- The database with the contact request.
  abbrev pub asking : Elements → Elements → S
  asking mine contact =
      (p.mongo.insert w.store Db.requests (
        Contacts.add_contact_doc p (request_id p head) (account p me head w) (id_of contact) mine
          (Contacts.public_key p head) code)).1

  abbrev pub answer_of : Elements → Ubj
  answer_of contact = ubj_obj (
      ("requestId", int32 (request_id p head))
      ∷ ("status", int32 1)
      ∷ ("addCode", Ubj.string code)
      ∷ ("name", Ubj.string (p.bson.as_str (p.bson.get_elem contact "name")))
      ∷ ("phone", Ubj.string (p.bson.as_str (p.bson.get_elem contact "phone")))
      ∷ [])

  abbrev pub told : Elements → List Effect
  told contact =
      user_task (id_of contact) ∷ success me (request_id p head) (answer_of contact) ∷ w.log

  -- A logged-in session, whose account is in the database, asks for a contact by an add code that a
  -- request in the database holds, with a public key. The sender of that request is an account
  -- other than its own, to which not exactly one contact request waits. Then the handler returns
  -- true, the contact request is inserted and one request with the add code is removed, whether or
  -- not the insertion threw, and the client's success and then the task for the contact go out.
  pub add_by_code_effects :
      (mine request contact : Elements)
      → 2 ≤ (w.sessions me).status
      → own p me head w ≡ some mine
      → str_eq code "" ≡ false
      → coded ≡ some request
      → found_by (bson_obj (("id", p.bson.get_elem request "src") ∷ [])) ≡ some contact
      → (id_of contact == account p me head w) ≡ false
      → asked (id_of contact) ≡ false
      → Contacts.has_public_key p head ≡ true
      → Contacts.process_add_contact_request p me head w ≡ (
        go true,
        record w {
          store =
              (p.mongo.remove
                (asking mine contact)
                Db.requests
                (bson_obj (("addCode", Bson.string code) ∷ []))
                true).1;
          log = told contact;
        },
      )
  unfolding Contacts.process_add_contact_request Contacts.ask_contact Contacts.contact_query
      Contacts.drop_code Contacts.own_account need_login self require refuse reply emit or_else
      Db.get_request Db.request_pending Db.get_account Db.add_request Db.delete_request
      Db.write_store gets modify pure ◌>>=◌
  add_by_code_effects mine request contact inside ours coded_now by there other new key =
      ground (arith, ge→ltb (w.sessions me).status 2 inside)

  -- A logged-in session, whose account is in the database, asks for a contact by a name, without an
  -- add code and with a public key. The account with that name may be found by it, is not the
  -- session's own, and not exactly one contact request to it waits. Then the handler returns true,
  -- the contact request is inserted and no other change is made to the database, and the client's
  -- success and then the task for the contact go out, whether or not the insertion threw.
  pub add_by_name_effects :
      (mine contact : Elements)
      → 2 ≤ (w.sessions me).status
      → own p me head w ≡ some mine
      → str_eq code "" ≡ true
      → str_eq label "" ≡ false
      → found_by with_label ≡ some contact
      → (id_of contact == account p me head w) ≡ false
      → asked (id_of contact) ≡ false
      → Contacts.has_public_key p head ≡ true
      → Contacts.process_add_contact_request p me head w
        ≡ (go true, record w { store = asking mine contact; log = told contact })
  unfolding Contacts.process_add_contact_request Contacts.ask_contact Contacts.contact_query
      Contacts.drop_code Contacts.own_account need_login self require refuse reply emit or_else
      Db.request_pending Db.get_account Db.add_request Db.write_store gets modify pure ◌>>=◌
  add_by_name_effects mine contact inside ours no_code named there other new key =
      ground (arith, ge→ltb (w.sessions me).status 2 inside)

  -- A logged-in session whose account is in the database asks for an add code and sends a public
  -- key. Then the handler returns true, a request for a contact that holds the newly drawn code, and
  -- no receiver, is inserted, and the client's success names the code, whether or not the insertion
  -- threw.
  pub create_add_code_effects :
      (mine : Elements)
      → 2 ≤ (w.sessions me).status
      → own p me head w ≡ some mine
      → Contacts.has_public_key p head ≡ true
      → Contacts.process_create_add_code p me head w ≡ (
        go true,
        record w {
          store =
              (p.mongo.insert w.store Db.requests (
                Contacts.add_code_doc p
                  (request_id p head)
                  (account p me head w)
                  mine
                  (Contacts.public_key p head)
                  (p.hex (p.rand w.draws 4)))).1;
          draws = w.draws + 1;
          log =
              success me (request_id p head) (
                ubj_obj (
                  ("requestId", int32 (request_id p head))
                  ∷ ("status", int32 1)
                  ∷ ("addCode", Ubj.string (p.hex (p.rand w.draws 4)))
                  ∷ []))
              ∷ w.log;
        },
      )
  unfolding Contacts.process_create_add_code Contacts.own_account need_login self require refuse
      reply emit or_else draw Db.get_account Db.add_request Db.write_store gets modify pure ◌>>=◌
  create_add_code_effects mine inside ours key =
      ground (arith, ge→ltb (w.sessions me).status 2 inside)

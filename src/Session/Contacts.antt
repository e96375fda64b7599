-- ===== src/Session/Contacts.antt =====
-- The handlers about contacts: status, search, adding, add codes
-- (src/session.cpp). `io_service()->post(processUserRequests, id)` is the effect `user_task id`.
use zway_server.Base.{ℕ, String, Bool, true, not, ◌&&◌, List, [], ◌∷◌, ◌==◌, str_eq, if◌then◌else◌}
use zway_server.Value.{Ubj, Bson, Elements, bson_obj, ubj_obj, ubj_array, int32, number_int}
use zway_server.Convert.{ubj_to_bson, obj_to_ubj}
use zway_server.World.{Act, Platform, user_task, pure, emit, require, or_else, ◌>>=◌, ◌>>◌}
use zway_server.Session.Basics.{self, refuse, reply, need_login, draw, contact_states}
use zway_server.Session.Account.{request_id}
use zway_server.Db
use zway_server.Value

-- The accounts' fields that the handlers ask for.
abbrev pub name_and_phone : Elements
name_and_phone = bson_obj (("name", Db.one) ∷ ("phone", Db.one) ∷ [])

abbrev pub to_items : List Elements → List Ubj
to_items [] = []
to_items (d ∷ ds) = Ubj.object (obj_to_ubj d Value.end) ∷ to_items ds

module _ {S E : Type 0} (p : Platform S E) where
  open p use {ubj, bson, types}

  unfoldable pub process_contact_status_request : ℕ → Ubj → Act S E Bool
  process_contact_status_request me head = do
    need_login me (request_id p head)
    states ← contact_states p me
    reply me (request_id p head) (ubj_obj (("contactStatus", states) ∷ []))
    pure true

  -- Accounts that may be found by name, without one's own.
  unfoldable pub by_subject : String → ℕ → Elements
  by_subject subject account = bson_obj (
      (
        "name",
        Bson.object
            (bson_obj (("$regex", Bson.string subject) ∷ ("$options", Bson.string "i") ∷ [])),
      )
      ∷ ("id", Bson.object (bson_obj (("$ne", number_int account) ∷ [])))
      ∷ ("findByName", Bson.bool true)
      ∷ [])

  unfoldable pub find_by_subject : ℕ → Ubj → Act S E (List Elements)
  find_by_subject me query = do
    s ← self me
    if ubj.has_field query "subject"
        then Db.get_contacts p (by_subject (ubj.to_str (ubj.get query "subject")) s.account_id)
            (bson_obj (("name", Db.one) ∷ []))
        else pure []

  unfoldable pub process_find_contact_request : ℕ → Ubj → Act S E Bool
  process_find_contact_request me head = do
    need_login me (request_id p head)
    require (ubj.has_field head "query") (refuse me (request_id p head) 0 "query missing")
    contacts ← find_by_subject me (ubj.get head "query")
    reply me (request_id p head) (ubj_obj (("result", ubj_array (to_items contacts)) ∷ []))
    pure true

  unfoldable pub has_public_key : Ubj → Bool
  has_public_key head = ubj.has_field head "publicKey" && p.convertible (ubj.get head "publicKey")

  unfoldable pub public_key : Ubj → Bson
  public_key head = Bson.object (ubj_to_bson (ubj.get head "publicKey"))

  -- The contact is found by the request that holds the add code, or by its name.
  unfoldable pub contact_query : ℕ → Ubj → String → Act S E Elements
  contact_query me head code =
      if not (str_eq code "")
      then (do
        found ←
            Db.get_request p (
              bson_obj
                (("type", number_int types.add_contact) ∷ ("addCode", Bson.string code) ∷ []))
        or_else found (refuse me (request_id p head) 0 "invalid add code")
            λ request. pure (bson_obj (("id", bson.get_elem request "src") ∷ [])))
      else (do
        require (not (str_eq (ubj.to_str (ubj.get head "name")) ""))
            (refuse me (request_id p head) 0 "no label")
        pure (
            bson_obj (
              ("name", Bson.string (ubj.to_str (ubj.get head "name")))
              ∷ ("findByName", Bson.bool true)
              ∷ [])))

  unfoldable pub add_contact_doc : ℕ → ℕ → ℕ → Elements → Bson → String → Elements
  add_contact_doc rid src dst account key code = bson_obj (
      ("id", number_int rid)
      ∷ ("type", number_int types.add_contact)
      ∷ ("time", number_int 0)
      ∷ ("ttl", number_int 0)
      ∷ ("src", number_int src)
      ∷ ("dst", number_int dst)
      ∷ ("name", bson.get_elem account "name")
      ∷ ("phone", bson.get_elem account "phone")
      ∷ ("publicKey", key)
      ∷ ("addCode", Bson.string code)
      ∷ [])

  unfoldable pub own_account : ℕ → ℕ → Act S E Elements
  own_account me rid = do
    s ← self me
    found ← Db.get_account p (bson_obj (("id", number_int s.account_id) ∷ [])) name_and_phone
    or_else found (refuse me rid 0 "Internal server error") pure

  unfoldable pub drop_code : String → Act S E (Unit {0})
  drop_code code =
      if str_eq code ""
      then pure tt
      else do done ← Db.delete_request p (bson_obj (("addCode", Bson.string code) ∷ [])); pure tt

  -- The second half of the handler, for a contact that was found.
  unfoldable pub ask_contact : ℕ → Ubj → Elements → String → Elements → Act S E Bool
  ask_contact me head account code contact = do
    s ← self me
    let id = bson.as_int (bson.get_elem contact "id")
    require (not (id == s.account_id)) (refuse me (request_id p head) 0 "invalid label 2")
    waiting ← Db.request_pending p (
        bson_obj (
          ("type", number_int types.add_contact)
          ∷ ("src", number_int s.account_id)
          ∷ ("dst", number_int id)
          ∷ []))
    require (not waiting) (refuse me (request_id p head) 0 "invalid data")
    require (has_public_key head) (refuse me (request_id p head) 0 "Invalid public key")
    done ←
        Db.add_request p
          (add_contact_doc (request_id p head) s.account_id id account (public_key head) code)
    require done (refuse me (request_id p head) 0 "Internal server error")
    drop_code code
    reply me (request_id p head) (
        ubj_obj (
          ("requestId", int32 (request_id p head))
          ∷ ("status", int32 1)
          ∷ ("addCode", Ubj.string code)
          ∷ ("name", Ubj.string (bson.as_str (bson.get_elem contact "name")))
          ∷ ("phone", Ubj.string (bson.as_str (bson.get_elem contact "phone")))
          ∷ []))
    emit (user_task id)
    pure true

  unfoldable pub process_add_contact_request : ℕ → Ubj → Act S E Bool
  process_add_contact_request me head = do
    need_login me (request_id p head)
    account ← own_account me (request_id p head)
    let code = ubj.to_str (ubj.get head "addCode")
    query ← contact_query me head code
    found ←
        Db.get_account p query
          (bson_obj (("id", Db.one) ∷ ("name", Db.one) ∷ ("phone", Db.one) ∷ []))
    or_else found (refuse me (request_id p head) 0 "invalid label 1")
        λ contact. ask_contact me head account code contact

  unfoldable pub add_code_doc : ℕ → ℕ → Elements → Bson → String → Elements
  add_code_doc rid src account key code = bson_obj (
      ("id", number_int rid)
      ∷ ("type", number_int types.add_contact)
      ∷ ("time", number_int 0)
      ∷ ("ttl", number_int 0)
      ∷ ("src", number_int src)
      ∷ ("name", bson.get_elem account "name")
      ∷ ("phone", bson.get_elem account "phone")
      ∷ ("publicKey", key)
      ∷ ("addCode", Bson.string code)
      ∷ [])

  unfoldable pub process_create_add_code : ℕ → Ubj → Act S E Bool
  process_create_add_code me head = do
    need_login me (request_id p head)
    require (has_public_key head) (refuse me (request_id p head) 0 "Invalid public key")
    account ← own_account me (request_id p head)
    code ← draw p 4
    s ← self me
    done ←
        Db.add_request p
          (add_code_doc (request_id p head) s.account_id account (public_key head) (p.hex code))
    require done (refuse me (request_id p head) 0 "Internal server error")
    reply me (request_id p head) (
        ubj_obj (
          ("requestId", int32 (request_id p head))
          ∷ ("status", int32 1)
          ∷ ("addCode", Ubj.string (p.hex code))
          ∷ []))
    pure true

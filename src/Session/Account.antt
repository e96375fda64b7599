-- ===== src/Session/Account.antt =====
-- The handlers about the account itself: dispatch, creation, login, logout, configuration
-- (src/session.cpp).
use zway_server.Base.{
  ℕ, String, Bool, true, false, not, ◌&&◌, [], ◌∷◌, ◌++◌, Option, none, some, ◌==◌, str_eq, take,
  length, if◌then◌else◌,
}
use zway_server.Stdio.{Bytes}
use zway_server.Value.{Ubj, Bson, Elements, bson_obj, ubj_obj, int32, number_int, elem, eoo}
use zway_server.World.{Act, Platform, pure, return, fault, require, or_else, ◌>>=◌, ◌>>◌}
use zway_server.Session.Basics.{
  self, set_status, update_session, refuse, reply, need_login, need_no_login, register, unregister,
  draw, contact_states, set_config, broadcast_status, status_connected, status_logged_in,
}
use zway_server.Session.Requests.{process_requests}
use zway_server.Db

abbrev pub nothing : Ubj
nothing = ubj_obj []

-- `memcmp(…) == 0`.
unfoldable pub bytes_eq : Bytes → Bytes → Bool
bytes_eq [] [] = true
bytes_eq [] (y ∷ ys) = false
bytes_eq (x ∷ xs) [] = false
bytes_eq (x ∷ xs) (y ∷ ys) = x == y && bytes_eq xs ys

module _ {S E : Type 0} where
  -- The session goes from the place of its old account id to that of the new one.
  unfoldable pub move_session : ℕ → ℕ → Act S E (Unit {0})
  move_session me id = do
    unregister me
    update_session me (λ s. record s { account_id = id })
    register me

module _ {S E : Type 0} (p : Platform S E) where
  open p use {ubj, bson}

  abbrev pub request_id : Ubj → ℕ
  request_id head = ubj.to_int (ubj.get head "requestId")

  unfoldable pub own_request : ℕ → ℕ → Elements
  own_request id account = bson_obj (
      ("id", number_int id)
      ∷ (
        "$or",
        Bson.array (
            elem "0" (Bson.object (bson_obj (("src", number_int account) ∷ [])))
              (elem "1" (Bson.object (bson_obj (("dst", number_int account) ∷ []))) eoo)),
      )
      ∷ [])

  unfoldable pub process_dispatch_request : ℕ → Ubj → Act S E Bool
  process_dispatch_request me head = do
    need_login me (request_id head)
    require (ubj.has_field head "dispatchId") (return false)
    s ← self me
    done ← Db.delete_request p (own_request (ubj.to_int (ubj.get head "dispatchId")) s.account_id)
    require done (refuse me (request_id head) 0 "invalid data")
    reply me (request_id head) nothing
    pure true

  unfoldable pub name_taken : String → Elements
  name_taken name = bson_obj (
      (
        "name",
        Bson.object (bson_obj (("$regex", Bson.string name) ∷ ("$options", Bson.string "i") ∷ [])),
      )
      ∷ [])

  -- A failing call of the hash is noticed once the salt is drawn, and returns without a reply.
  unfoldable pub process_create_account : ℕ → Ubj → Act S E Bool
  process_create_account me head = do
    need_no_login me (request_id head)
    require (ubj.has_field head "name" && not (str_eq (ubj.to_str (ubj.get head "name")) ""))
        (refuse me (request_id head) 0 "Missing field: name")
    require (ubj.has_field head "password" && ubj.buffer_size (ubj.get head "password") == 32)
        (refuse me (request_id head) 0 "Missing field: password")
    taken ←
        Db.get_account p (name_taken (ubj.to_str (ubj.get head "name")))
          (bson_obj (("id", Db.one) ∷ []))
    or_else taken (pure tt) (λ account. refuse me (request_id head) 0 "Invalid account name")
    id ← Db.new_account_id p
    or_else (ubj.buffer_of (ubj.get head "password")) fault λ password. do
      salt ← draw p 32
      or_else (p.sha256 (password ++ salt)) (return false) λ pass. do
        done ←
            Db.insert_account p id (ubj.to_str (ubj.get head "name"))
              (ubj.to_str (ubj.get head "phone")) (ubj.to_bool (ubj.get head "findByName"))
              (ubj.to_bool (ubj.get head "findByPhone")) pass salt
        require done (refuse me (request_id head) 0 "Failed to create account")
        reply me (request_id head) (ubj_obj (("accountId", int32 id) ∷ []))
        pure true

  unfoldable pub digest_matches : Option Bytes → Bytes → Bool
  digest_matches none pass = false
  digest_matches (some digest) pass = bytes_eq (take (length pass) digest) pass

  -- As many bytes are compared as the stored hash has.
  unfoldable pub verify_password : Elements → Bytes → Bool
  verify_password account password =
      digest_matches (p.sha256 (password ++ bson.as_bin (bson.get_elem account "salt")))
        (bson.as_bin (bson.get_elem account "pass"))

  -- The reply to a login, and what waits for the account.
  unfoldable pub after_move : ℕ → ℕ → Ubj → Act S E Bool
  after_move me id head = do
    if ubj.has_field head "config"
        then (do done ← set_config p me (ubj.get head "config"); pure tt)
        else pure tt
    states ← contact_states p me
    inbox ← Db.get_inbox p id
    reply me (request_id head) (ubj_obj (("contactStatus", states) ∷ ("inbox", inbox) ∷ []))
    done ← process_requests p me
    pure true

  -- What a login does once the password is right.
  unfoldable pub enter_account : ℕ → ℕ → Ubj → Act S E Bool
  enter_account me id head = do
    set_status me status_logged_in
    move_session me id
    after_move me id head

  unfoldable pub process_login : ℕ → Ubj → Act S E Bool
  process_login me head = do
    need_no_login me (request_id head)
    require (ubj.has_field head "account") (refuse me (request_id head) 0 "account missing")
    require (ubj.has_field head "password") (refuse me (request_id head) 0 "password missing")
    found ←
        Db.get_account p (bson_obj (("id", number_int (ubj.to_int (ubj.get head "account"))) ∷ []))
          (bson_obj (("pass", Db.one) ∷ ("salt", Db.one) ∷ []))
    or_else found (refuse me (request_id head) 0 "Invalid account id") λ account.
        or_else (ubj.buffer_of (ubj.get head "password")) fault λ password. do
          require (verify_password account password) (refuse me (request_id head) 0 "login failed")
          enter_account me (ubj.to_int (ubj.get head "account")) head

  -- The session stays in the server's map, and keeps its account id.
  unfoldable pub process_logout : ℕ → Ubj → Act S E Bool
  process_logout me head = do
    need_login me (request_id head)
    reply me (request_id head) nothing
    s ← self me
    done ← Db.set_fcm_token p s.account_id ""
    set_status me status_connected
    broadcast_status p me 0 true
    pure true

  unfoldable pub process_config_request : ℕ → Ubj → Act S E Bool
  process_config_request me head = do
    need_login me (request_id head)
    if ubj.has_field head "config"
        then (do
          done ← set_config p me (ubj.get head "config")
          require done (refuse me (request_id head) 0 "failure"))
        else pure tt
    reply me (request_id head) nothing
    pure true

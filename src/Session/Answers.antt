-- ===== src/Session/Answers.antt =====
-- The answers to contact requests: processAcceptContact and processRejectContact (src/session.cpp).
-- `io_service()->post(processUserRequests, id)` is the effect `user_task id`.
use zway_server.Base.{ℕ, Bool, true, [], ◌∷◌, Option}
use zway_server.Value.{Ubj, Bson, Elements, bson_obj, ubj_obj, int32, number_int}
use zway_server.Convert.{obj_to_ubj}
use zway_server.World.{Act, Platform, user_task, pure, emit, fault, require, or_else, ◌>>=◌, ◌>>◌}
use zway_server.Session.Basics.{self, refuse, reply, need_login, get_contact_status}
use zway_server.Session.Requests.{add_contact_entry}
use zway_server.Session.Account.{request_id, nothing}
use zway_server.Session.Contacts.{has_public_key, public_key, own_account}
use zway_server.Db
use zway_server.Value

module _ {S E : Type 0} (p : Platform S E) where
  open p use {ubj, bson, types}

  -- The request that the client refers to, if it was sent to this account.
  unfoldable pub request_to_me : ℕ → ℕ → Act S E (Option Elements)
  request_to_me me id = do
    s ← self me
    Db.get_request p (bson_obj (("id", number_int id) ∷ ("dst", number_int s.account_id) ∷ []))

  unfoldable pub accept_doc : ℕ → ℕ → ℕ → ℕ → Elements → Bson → Elements
  accept_doc rid contact_request src dst account key = bson_obj (
      ("id", number_int rid)
      ∷ ("contactRequestId", number_int contact_request)
      ∷ ("type", number_int types.accept_contact)
      ∷ ("src", number_int src)
      ∷ ("dst", number_int dst)
      ∷ ("name", bson.get_elem account "name")
      ∷ ("phone", bson.get_elem account "phone")
      ∷ ("publicKey", key)
      ∷ [])

  unfoldable pub accept_reply : ℕ → ℕ → ℕ → Elements → Ubj
  accept_reply rid src status request = ubj_obj (
      ("requestId", int32 rid)
      ∷ ("status", int32 1)
      ∷ ("contactId", int32 src)
      ∷ ("contactStatus", int32 status)
      ∷ ("name", Ubj.string (bson.as_str (bson.get_elem request "name")))
      ∷ ("phone", Ubj.string (bson.as_str (bson.get_elem request "phone")))
      ∷ (
        "publicKey",
        Ubj.object (obj_to_ubj (bson.as_obj (bson.get_elem request "publicKey")) Value.end),
      )
      ∷ [])

  -- `Obj()` throws where the waiting request has no public key, before anything is done, and nothing
  -- catches it.
  unfoldable pub accept_request : ℕ → Ubj → ℕ → Elements → Elements → Act S E Bool
  accept_request me head id request account = do
    let src = bson.as_int (bson.get_elem request "src")
    require (bson.is_obj (bson.get_elem request "publicKey")) fault
    require (has_public_key p head) (refuse me (request_id p head) 0 "Invalid public key")
    s ← self me
    done ←
        Db.add_request p
          (accept_doc (request_id p head) id s.account_id src account (public_key p head))
    require done (refuse me (request_id p head) 0 "Internal server error")
    status ← get_contact_status p src
    reply me (request_id p head) (accept_reply (request_id p head) src status request)
    removed ← Db.delete_request p (bson_obj (("id", number_int id) ∷ []))
    add_contact_entry p me src
    emit (user_task src)
    pure true

  unfoldable pub process_accept_contact : ℕ → Ubj → Act S E Bool
  process_accept_contact me head = do
    need_login me (request_id p head)
    let id = ubj.to_int (ubj.get head "contactRequestId")
    found ← request_to_me me id
    or_else found (refuse me (request_id p head) 1 "Invalid request") λ request. do
      account ← own_account p me (request_id p head)
      accept_request me head id request account

  unfoldable pub reject_doc : ℕ → ℕ → ℕ → ℕ → Elements
  reject_doc rid contact_request src dst = bson_obj (
      ("type", number_int types.reject_contact)
      ∷ ("id", number_int rid)
      ∷ ("contactRequestId", number_int contact_request)
      ∷ ("src", number_int src)
      ∷ ("dst", number_int dst)
      ∷ [])

  unfoldable pub reject_request : ℕ → Ubj → ℕ → Elements → Act S E Bool
  reject_request me head id request = do
    let src = bson.as_int (bson.get_elem request "src")
    s ← self me
    done ← Db.add_request p (reject_doc (request_id p head) id s.account_id src)
    require done (refuse me (request_id p head) 0 "Internal server error")
    reply me (request_id p head) nothing
    removed ← Db.delete_request p (bson_obj (("id", number_int id) ∷ []))
    emit (user_task src)
    pure true

  unfoldable pub process_reject_contact : ℕ → Ubj → Act S E Bool
  process_reject_contact me head = do
    need_login me (request_id p head)
    let id = ubj.to_int (ubj.get head "contactRequestId")
    found ← request_to_me me id
    or_else found (refuse me (request_id p head) 1 "Invalid request")
        λ request. reject_request me head id request

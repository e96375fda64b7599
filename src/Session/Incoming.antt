-- ===== src/Session/Incoming.antt =====
-- Messages, and the switch over the kinds of requests: processPushRequest, processIncomingRequest
-- (src/session.cpp), and Server::processUserRequests (src/server.cpp).
use zway_server.Base.{
  ℕ, String, Bool, true, false, List, [], ◌∷◌, map, ltb, ◌==◌, str_eq, if◌then◌else◌,
}
use zway_server.Value.{Ubj, Bson, Elements, bson_obj, ubj_obj, ubj_array, int32, number_int}
use zway_server.Convert.{ubj_to_bson}
use zway_server.World.{
  Act, Platform, Effect, user_task, fcm_message, pure, return, emit, for_each, ◌>>=◌, ◌>>◌,
}
use zway_server.Session.Basics.{self, reply, need_login, sessions_of}
use zway_server.Session.Requests.{process_requests}
use zway_server.Session.Account.{
  request_id, process_dispatch_request, process_create_account, process_login, process_logout,
  process_config_request,
}
use zway_server.Session.Contacts.{
  process_contact_status_request, process_find_contact_request, process_add_contact_request,
  process_create_add_code,
}
use zway_server.Session.Answers.{process_accept_contact, process_reject_contact}
use zway_server.Db

module _ {S E : Type 0} (p : Platform S E) where
  open p use {ubj, types}

  -- The request as it is forwarded, with the key of one receiver.
  unfoldable pub forward_of : ℕ → Ubj → Ubj → Ubj
  forward_of account head key = ubj_obj (
      ("requestId", int32 (request_id p head))
      ∷ ("requestType", ubj.get head "requestType")
      ∷ ("src", int32 account)
      ∷ ("resources", ubj.get head "resources")
      ∷ ("salt", ubj.get head "salt")
      ∷ ("meta", ubj.get head "meta")
      ∷ ("key", ubj.get key "key")
      ∷ [])

  unfoldable pub push_doc : ℕ → ℕ → Ubj → Ubj → Elements
  push_doc account dst head key = bson_obj (
      ("id", number_int (request_id p head))
      ∷ ("type", number_int types.push)
      ∷ ("time", number_int 0)
      ∷ ("ttl", number_int 0)
      ∷ ("src", number_int account)
      ∷ ("dst", number_int dst)
      ∷ ("data", Bson.object (ubj_to_bson (forward_of account head key)))
      ∷ [])

  -- One turn of the loop over the receivers; the sender's own account is left out.
  unfoldable pub push_to : ℕ → Ubj → Ubj → Act S E (Unit {0})
  push_to me head key = do
    s ← self me
    let dst = ubj.to_int (ubj.get key "dst")
    if dst == s.account_id then pure tt else do
      done ← Db.add_request p (push_doc s.account_id dst head key)
      if done
          then emit (user_task dst)
          else emit (Effect.failure me (request_id p head) 0 "Internal server error")

  unfoldable pub process_push_request : ℕ → Ubj → Act S E Bool
  process_push_request me head = do
    need_login me (request_id p head)
    for_each (ubj.to_array (ubj.get head "keys")) (push_to me head)
    reply me (request_id p head) (
        ubj_obj (
          (
            "resources",
            ubj_array (
                map (λ v. int32 (ubj.to_int (ubj.get v "id")))
                  (ubj.to_array (ubj.get head "resources"))),
          )
          ∷ []))
    pure true

  -- The switch; a request of another type is dropped without a reply.
  unfoldable pub process_incoming_request : ℕ → Ubj → Act S E Bool
  process_incoming_request me head =
      let type = ubj.to_int (ubj.get head "requestType") in
      if type == types.dispatch
      then process_dispatch_request p me head
      else if type == types.create_account
      then process_create_account p me head
      else if type == types.login
      then process_login p me head
      else if type == types.logout
      then process_logout p me head
      else if type == types.config
      then process_config_request p me head
      else if type == types.add_contact
      then process_add_contact_request p me head
      else if type == types.create_add_code
      then process_create_add_code p me head
      else if type == types.find_contact
      then process_find_contact_request p me head
      else if type == types.accept_contact
      then process_accept_contact p me head
      else if type == types.reject_contact
      then process_reject_contact p me head
      else if type == types.contact_status
      then process_contact_status_request p me head
      else if type == types.push
      then process_push_request me head
      else return false

  unfoldable pub notify_if : String → ℕ → ℕ → Act S E (Unit {0})
  notify_if token kind n = if ltb 0 n then emit (fcm_message token kind n) else pure tt

  -- Without a session the user is told by push messages of what waits.
  unfoldable pub wake_user : ℕ → Act S E (Unit {0})
  wake_user id = do
    token ← Db.get_fcm_token p id
    if str_eq token "" then pure tt else do
      n ← Db.num_contact_requests p id
      notify_if token 1000 n
      m ← Db.num_push_requests p id
      notify_if token 2000 m

  -- `s->processRequests();` for one session, whose result is not used.
  unfoldable pub run_requests : ℕ → Act S E (Unit {0})
  run_requests q = do done ← process_requests p q; pure tt

  unfoldable pub serve_sessions : ℕ → List ℕ → Act S E (Unit {0})
  serve_sessions id [] = wake_user id
  serve_sessions id (q ∷ qs) = for_each (q ∷ qs) run_requests

  unfoldable pub process_user_requests : ℕ → Act S E (Unit {0})
  process_user_requests id = do qs ← sessions_of id; serve_sessions id qs

-- ===== src/Session/Requests.antt =====
-- ClientSession::processRequests: what waits in the database for the session's account is posted to
-- the client (src/session.cpp).
use zway_server.Base.{ℕ, String, Bool, true, [], ◌∷◌, ◌==◌, if◌then◌else◌}
use zway_server.OrderedMap.{assign}
use zway_server.Value.{Ubj, Elements, bson_obj, ubj_obj, int32, number_int}
use zway_server.Convert.{bson_to_ubj}
use zway_server.World.{Act, Platform, posted, set_at, pure, gets, modify, for_each, ◌>>=◌, ◌>>◌}
use zway_server.Session.Basics.{self, update_session, get_contact_status, new_contact}
use zway_server.Db

module _ {S E : Type 0} (p : Platform S E) where
  open p use {ubj, bson, types}

  -- `Engine::postRequest`.
  unfoldable pub post_request : ℕ → ℕ → ℕ → Ubj → Act S E (Unit {0})
  post_request me type id content = modify λ w. record w {
    engines = set_at w.engines me (p.post (w.engines me) type id content);
    log = posted me type id content ∷ w.log;
  }

  unfoldable pub add_contact_entry : ℕ → ℕ → Act S E (Unit {0})
  add_contact_entry me id =
      update_session me λ s. record s { contacts = assign id (new_contact id) s.contacts }

  unfoldable pub num : Elements → String → ℕ
  num d k = bson.as_int (bson.get_elem d k)

  unfoldable pub text : Elements → String → Ubj
  text d k = Ubj.string (bson.as_str (bson.get_elem d k))

  unfoldable pub post_dispatch : ℕ → ℕ → ℕ → Elements → Act S E (Unit {0})
  post_dispatch me id type d = post_request me type id (
      ubj_obj (
        ("requestId", int32 id)
        ∷ ("requestType", int32 type)
        ∷ ("dispatchId", int32 id)
        ∷ ("dispatchType", int32 (num d "dispatchType"))
        ∷ []))

  unfoldable pub post_add_contact : ℕ → ℕ → ℕ → Elements → Act S E (Unit {0})
  post_add_contact me id type d = post_request me type id (
      ubj_obj (
        ("requestId", int32 id)
        ∷ ("requestType", int32 type)
        ∷ ("addCode", text d "addCode")
        ∷ ("name", text d "name")
        ∷ ("phone", text d "phone")
        ∷ []))

  -- The accepted contact is entered before the request is posted.
  unfoldable pub post_accept_contact : ℕ → ℕ → ℕ → Elements → Act S E (Unit {0})
  post_accept_contact me id type d = do
    status ← get_contact_status p (num d "src")
    add_contact_entry me (num d "src")
    post_request me type id (
        ubj_obj (
          ("requestId", int32 id)
          ∷ ("requestType", int32 type)
          ∷ ("contactRequestId", int32 (num d "contactRequestId"))
          ∷ ("contactId", int32 (num d "src"))
          ∷ ("contactStatus", int32 status)
          ∷ ("name", text d "name")
          ∷ ("phone", text d "phone")
          ∷ ("publicKey", bson_to_ubj (bson.get_elem d "publicKey"))
          ∷ []))

  unfoldable pub post_reject_contact : ℕ → ℕ → ℕ → Elements → Act S E (Unit {0})
  post_reject_contact me id type d = post_request me type id (
      ubj_obj (
        ("requestId", int32 id)
        ∷ ("requestType", int32 type)
        ∷ ("contactRequestId", int32 (num d "contactRequestId"))
        ∷ []))

  unfoldable pub post_push : ℕ → ℕ → ℕ → Elements → Act S E (Unit {0})
  post_push me id type d = post_request me type id (bson_to_ubj (bson.get_elem d "data"))

  -- The switch over the type of a waiting request; another type posts nothing.
  unfoldable pub post_by_type : ℕ → ℕ → ℕ → Elements → Act S E (Unit {0})
  post_by_type me id type d =
      if type == types.dispatch
      then post_dispatch me id type d
      else if type == types.add_contact
      then post_add_contact me id type d
      else if type == types.accept_contact
      then post_accept_contact me id type d
      else if type == types.reject_contact
      then post_reject_contact me id type d
      else if type == types.push
      then post_push me id type d
      else pure tt

  -- One turn of the loop: a request that the engine still waits for is skipped.
  unfoldable pub process_request : ℕ → Elements → Act S E (Unit {0})
  process_request me d = do
    e ← gets (λ w. w.engines me)
    if p.pending e (num d "type") (num d "id")
        then pure tt
        else post_by_type me (num d "id") (num d "type") d

  unfoldable pub process_requests : ℕ → Act S E Bool
  process_requests me = do
    s ← self me
    waiting ← Db.get_requests p (bson_obj (("dst", number_int s.account_id) ∷ []))
    for_each waiting (process_request me)
    pure true

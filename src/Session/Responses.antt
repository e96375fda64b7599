-- ===== src/Session/Responses.antt =====
-- What a client's answer to a posted request leads to: the callbacks in
-- ClientSession::processRequests (src/session.cpp), and the method processResponse of the classes of
-- requests, which calls them (src/request/).
pub mod Settled
use zway_server.Base.{ℕ, [], ◌∷◌, ◌==◌, if◌then◌else◌}
use zway_server.Value.{Ubj, bson_obj, number_int}
use zway_server.World.{Act, Platform, resource, pure, emit, for_each, ◌>>=◌, ◌>>◌}
use zway_server.Session.Basics.{self}
use zway_server.Db

-- A request's callback is always set.
abbrev pub Callback : Type 0 → Type 0 → Type 0
Callback S E = Ubj → Act S E (Unit {0})

module _ {S E : Type 0} (p : Platform S E) where
  open p use {ubj, types}

  unfoldable pub status_of : Ubj → ℕ
  status_of response = ubj.to_int (ubj.get response "status")

  unfoldable pub delete_answered : ℕ → ℕ → Act S E (Unit {0})
  delete_answered me id = do
    s ← self me
    done ←
        Db.delete_request p
          (bson_obj (("id", number_int id) ∷ ("dst", number_int s.account_id) ∷ []))
    pure tt

  -- The resources that a pushed message names: each gets a sender.
  unfoldable pub send_resource : ℕ → Ubj → Act S E (Unit {0})
  send_resource me v = if ubj.to_int v == 0 then pure tt else emit (resource me (ubj.to_int v))

  -- The callbacks, by the type that was posted.
  unfoldable pub dispatch_answered : ℕ → ℕ → Callback S E
  dispatch_answered me id response =
      if status_of response == 1 then delete_answered me id else pure tt

  unfoldable pub add_contact_answered : ℕ → ℕ → Callback S E
  add_contact_answered me id response = pure tt

  unfoldable pub accept_contact_answered : ℕ → ℕ → Callback S E
  accept_contact_answered me id response =
      if status_of response == 1 then delete_answered me id else pure tt

  unfoldable pub reject_contact_answered : ℕ → ℕ → Callback S E
  reject_contact_answered me id response =
      if status_of response == 1 then delete_answered me id else pure tt

  unfoldable pub push_answered : ℕ → ℕ → Callback S E
  push_answered me id response =
      if status_of response == 1
      then (do
        delete_answered me id
        for_each (ubj.to_array (ubj.get response "resources")) (send_resource me))
      else pure tt

  -- `processResponse` of each class.
  unfoldable pub dispatch_response : Callback S E → Ubj → Act S E (Unit {0})
  dispatch_response callback head = callback head

  unfoldable pub add_contact_response : Callback S E → Ubj → Act S E (Unit {0})
  add_contact_response callback head = callback head

  unfoldable pub accept_contact_response : Callback S E → Ubj → Act S E (Unit {0})
  accept_contact_response callback head = callback head

  unfoldable pub reject_contact_response : Callback S E → Ubj → Act S E (Unit {0})
  reject_contact_response callback head = callback head

  unfoldable pub push_response : Callback S E → Ubj → Act S E (Unit {0})
  push_response callback head = if status_of head == 1 then callback head else pure tt

  -- The answer to a request of a type and an id.
  unfoldable pub process_response : ℕ → ℕ → ℕ → Ubj → Act S E (Unit {0})
  process_response me type id response =
      if type == types.dispatch
      then dispatch_response (dispatch_answered me id) response
      else if type == types.add_contact
      then add_contact_response (add_contact_answered me id) response
      else if type == types.accept_contact
      then accept_contact_response (accept_contact_answered me id) response
      else if type == types.reject_contact
      then reject_contact_response (reject_contact_answered me id) response
      else if type == types.push
      then push_response (push_answered me id) response
      else pure tt

-- ===== src/Session/Basics.antt =====
-- What the request handlers share: the session's own fields, its replies, its configuration and
-- the status of its contacts.
use zway_server.Base.{
  ℕ, String, Bool, true, false, not, ◌&&◌, ◌||◌, ◌+◌, List, [], ◌∷◌, map, ltb, leb, if◌then◌else◌,
}
use zway_server.OrderedMap.{OrderedMap, assign}
use zway_server.Value.{Ubj, ubj_obj, ubj_array, int32}
use zway_server.World.{
  World, Session, Act, Platform, success, failure, notified, set_at, pure, return, gets, modify,
  emit, require, for_each, ◌>>=◌, ◌>>◌,
}
use zway_server.Server.Sessions
use zway_server.Db

abbrev pub status_disconnected : ℕ
status_disconnected = 0

abbrev pub status_connected : ℕ
status_connected = 1

abbrev pub status_logged_in : ℕ
status_logged_in = 2

-- An entry of `m_contacts` that the server makes itself, and one of a list of contact states.
abbrev pub new_contact : ℕ → Ubj
new_contact id = ubj_obj (("contactId", int32 id) ∷ ("notifyStatus", int32 1) ∷ [])

abbrev pub contact_state : ℕ × ℕ → Ubj
contact_state e = ubj_obj (("contactId", int32 e.0) ∷ ("status", int32 e.1) ∷ [])

abbrev pub bool_ne : Bool → Bool → Bool
bool_ne true b = not b
bool_ne false b = b

module _ {S E : Type 0} where
  -- Nothing is done for an empty list.
  unfoldable pub require_some : List ℕ → Act S E (Unit {0}) → Act S E (Unit {0})
  require_some [] m = pure tt
  require_some (x ∷ xs) m = m

  unfoldable pub update_session : ℕ → (Session → Session) → Act S E (Unit {0})
  update_session me f = modify λ w. record w { sessions = set_at w.sessions me (f (w.sessions me)) }

  unfoldable pub set_status : ℕ → ℕ → Act S E (Unit {0})
  set_status me n = update_session me λ s. record s { status = n }

  unfoldable pub set_contacts : ℕ → OrderedMap Ubj → Act S E (Unit {0})
  set_contacts me m = update_session me λ s. record s { contacts = m }

  unfoldable pub self : ℕ → Act S E Session
  self me = gets λ w. w.sessions me

  -- `postRequestFailure(…); return false;`
  unfoldable pub refuse : {A : Type 0} → ℕ → ℕ → ℕ → String → Act S E A
  refuse me rid code text = emit (failure me rid code text) >> return false

  -- `postRequestSuccess(…)`.
  unfoldable pub reply : ℕ → ℕ → Ubj → Act S E (Unit {0})
  reply me rid payload = emit (success me rid payload)

  -- The guard with which the handlers begin.
  unfoldable pub need_login : ℕ → ℕ → Act S E (Unit {0})
  need_login me rid = do
    s ← self me
    require (not (ltb s.status status_logged_in)) (refuse me rid 0 "Operation not permitted")

  unfoldable pub need_no_login : ℕ → ℕ → Act S E (Unit {0})
  need_no_login me rid = do
    s ← self me
    require (not (leb status_logged_in s.status)) (refuse me rid 0 "Operation not permitted")

  unfoldable pub register : ℕ → Act S E (Unit {0})
  register me =
      modify λ w. record w {
        registry = Sessions.append_session (w.sessions me).account_id me w.registry;
      }

  unfoldable pub unregister : ℕ → Act S E (Unit {0})
  unregister me =
      modify λ w. record w {
        registry = Sessions.remove_session (w.sessions me).account_id me w.registry;
      }

  unfoldable pub sessions_of : ℕ → Act S E (List ℕ)
  sessions_of id = gets λ w. Sessions.get_sessions id w.registry

module _ {S E : Type 0} (p : Platform S E) where
  open p use {ubj}

  -- The oldest first of `k` random bytes.
  unfoldable pub draw : ℕ → Act S E (List ℕ)
  draw k = do
    bytes ← gets (λ w. p.rand w.draws k)
    modify (λ w. record w { draws = w.draws + 1 })
    pure bytes

  unfoldable pub any_notifies : (ℕ → Session) → List ℕ → Bool
  any_notifies f [] = false
  any_notifies f (q ∷ qs) = ubj.to_bool (ubj.get (f q).config "notifyStatus") || any_notifies f qs

  unfoldable pub contact_status : World S E → ℕ → ℕ
  contact_status w id =
      if any_notifies w.sessions (Sessions.get_sessions id w.registry) then 1 else 0

  unfoldable pub get_contact_status : ℕ → Act S E ℕ
  get_contact_status id = gets λ w. contact_status w id

  -- The loop over `m_contacts` that the replies to a login and to a status request share.
  unfoldable pub contact_states : ℕ → Act S E Ubj
  contact_states me =
      gets λ w.
        ubj_array (map (λ e. contact_state (e.0, contact_status w e.0)) (w.sessions me).contacts)

  unfoldable pub status_notice : ℕ → ℕ → Ubj
  status_notice id status = ubj_obj (
      ("requestType", int32 p.types.contact_status)
      ∷ ("contactStatus", ubj_array (contact_state (id, status) ∷ []))
      ∷ [])

  unfoldable pub notify_contact : ℕ → ℕ → ℕ × Ubj → Act S E (Unit {0})
  notify_contact me status (id, contact) =
      if ubj.to_bool (ubj.get contact "notifyStatus")
      then (do
        them ← sessions_of id
        require_some them (do
          s ← self me
          bytes ← draw 4
          for_each them
              (λ q. emit (notified q (p.u32_of bytes) (status_notice s.account_id status)))))
      else pure tt

  unfoldable pub broadcast_status : ℕ → ℕ → Bool → Act S E (Unit {0})
  broadcast_status me status check = do
    s ← self me
    if check && not (ubj.to_bool (ubj.get s.config "notifyStatus"))
        then pure tt
        else for_each s.contacts (notify_contact me status)

  unfoldable pub contacts_of : List Ubj → OrderedMap Ubj → OrderedMap Ubj
  contacts_of [] m = m
  contacts_of (v ∷ vs) m = contacts_of vs (assign (ubj.to_int (ubj.get v "contactId")) v m)

  -- The method always returns true.
  unfoldable pub set_config : ℕ → Ubj → Act S E Bool
  set_config me config = do
    if ubj.has_field config "contacts"
        then set_contacts me (contacts_of (ubj.to_array (ubj.get config "contacts")) [])
        else pure tt
    s ← self me
    let new = ubj.to_bool (ubj.get config "notifyStatus")
    let current = ubj.to_bool (ubj.get s.config "notifyStatus")
    if ubj.has_field config "fcmToken"
        then (do
          done ← Db.set_fcm_token p s.account_id (ubj.to_str (ubj.get config "fcmToken"))
          pure tt)
        else pure tt
    update_session me (λ s. record s { config = config })
    if bool_ne new current then broadcast_status me (if new then 1 else 0) false else pure tt
    pure true

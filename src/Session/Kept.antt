-- ===== src/Session/Kept.antt =====
-- The handlers of a session (src/session.cpp), as actions that keep the properties that a Frame
-- describes.
pub mod Tasks
use zway_server.Base.{
  ℕ, ◌≡◌, ◌==◌, refl, String, Bool, true, false, not, ◌&&◌, arith, Bool-cases, inl, inr,
  if◌then◌else◌, List, [], ◌∷◌,
}
use zway_server.Value.{Ubj, Elements}
use zway_server.World.{World, Act, Platform}
use zway_server.World.Keeps.{Keeps, Keeps-bind, Keeps-pure, keeps_rules}
use zway_server.Session.Basics
use zway_server.Session.Basics.{self, update_session}
use zway_server.Session.Requests
use zway_server.Session.Responses
use zway_server.Session.Account
use zway_server.Session.Contacts
use zway_server.Session.Answers
use zway_server.Session.Incoming
use zway_server.Session.Frame.{Frame, Keeps-emit, Keeps-update, method_rules}
use zway_server.Db

module _ {S E : Type 0} {P : World S E → Type 0} where
  Keeps-require_some :
      (l : List ℕ) (m : Act S E (Unit {0})) → Keeps P m → Keeps P (Basics.require_some l m)
  unfolding Basics.require_some
  Keeps-require_some [] m k = Keeps-pure tt
  Keeps-require_some (x ∷ xs) m k = k

-- The switch over the kinds of requests takes the branch of a login.
abbrev pub is_login : {S E : Type 0} → Platform S E → Ubj → Bool
is_login p head =
    let type = p.ubj.to_int (p.ubj.get head "requestType") in
    not (type == p.types.dispatch)
    && (not (type == p.types.create_account) && type == p.types.login)

pub incoming-login :
    {S E : Type 0} (p : Platform S E) (me : ℕ) (head : Ubj) (w : World S E)
    → is_login p head ≡ true
    → Incoming.process_incoming_request p me head w ≡ Account.process_login p me head w
unfolding Incoming.process_incoming_request
incoming-login p me head w e = ground arith

module _ {S E A : Type 0} {P : World S E → Type 0} where
  Keeps-else : (m n : Act S E A) → Keeps P n → Keeps P (if false then m else n)
  Keeps-else m n k = k

module _ {S E : Type 0} (p : Platform S E) {me : ℕ} {P : World S E → Type 0} (f : Frame me P) where
  Keeps-notify_contact : (status : ℕ) (c : ℕ × Ubj) → Keeps P (Basics.notify_contact p me status c)
  unfolding Basics.notify_contact self Basics.sessions_of
  Keeps-notify_contact status (id, contact) = search (method_rules, Keeps-require_some) depth 12

  pub Keeps-broadcast_status :
      (status : ℕ) (check : Bool) → Keeps P (Basics.broadcast_status p me status check)
  unfolding Basics.broadcast_status self
  Keeps-broadcast_status status check = search (method_rules, Keeps-notify_contact) depth 12

  Keeps-update_config :
      (config : Ubj) → Keeps P (update_session me (λ s. record s { config = config }))
  Keeps-update_config config = Keeps-update f _ (λ s. refl) λ s. refl

  pub Keeps-set_config : (config : Ubj) → Keeps P (Basics.set_config p me config)
  unfolding Basics.set_config self
  Keeps-set_config config = Keeps-bind _ _ (search method_rules) λ _.
      Keeps-bind _ _ (search method_rules) λ s. Keeps-bind _ _ (search method_rules) λ _.
        Keeps-bind _ _ (Keeps-update_config config)
          λ _. search (method_rules, Keeps-broadcast_status)

  Keeps-process_request : (d : Elements) → Keeps P (Requests.process_request p me d)
  unfolding Requests.process_request Requests.post_by_type Requests.post_dispatch
      Requests.post_add_contact Requests.post_accept_contact Requests.post_reject_contact
      Requests.post_push Basics.get_contact_status
  Keeps-process_request d = search method_rules depth 20

  pub Keeps-process_requests : Keeps P (Requests.process_requests p me)
  unfolding Requests.process_requests self Db.get_requests
  Keeps-process_requests = search (method_rules, Keeps-process_request) depth 12

  dispatch-Keeps : (head : Ubj) → Keeps P (Account.process_dispatch_request p me head)
  unfolding Account.process_dispatch_request self
  dispatch-Keeps head = search method_rules depth 20

  create_account-Keeps : (head : Ubj) → Keeps P (Account.process_create_account p me head)
  unfolding Account.process_create_account Db.get_account Db.new_account_id
  create_account-Keeps head = search method_rules depth 30

  pub logout-Keeps :
      Keeps P (Basics.set_status me Basics.status_connected)
      → (head : Ubj) → Keeps P (Account.process_logout p me head)
  unfolding Account.process_logout self
  logout-Keeps status head = Keeps-bind _ _ (search method_rules) λ _.
      Keeps-bind _ _ (search method_rules) λ _. Keeps-bind _ _ (search method_rules) λ s.
        Keeps-bind _ _ (search method_rules) λ _.
          Keeps-bind _ _ status
            λ _. Keeps-bind _ _ (Keeps-broadcast_status 0 true) λ _. Keeps-pure true

  config-Keeps : (head : Ubj) → Keeps P (Account.process_config_request p me head)
  unfolding Account.process_config_request
  config-Keeps head = search (method_rules, Keeps-set_config) depth 20

  contact_status-Keeps : (head : Ubj) → Keeps P (Contacts.process_contact_status_request p me head)
  unfolding Contacts.process_contact_status_request Basics.contact_states
  contact_status-Keeps head = search method_rules depth 20

  find_contact-Keeps : (head : Ubj) → Keeps P (Contacts.process_find_contact_request p me head)
  unfolding Contacts.process_find_contact_request Contacts.find_by_subject self Db.get_contacts
  find_contact-Keeps head = search method_rules depth 20

  own_account-Keeps : (rid : ℕ) → Keeps P (Contacts.own_account p me rid)
  unfolding Contacts.own_account self Db.get_account
  own_account-Keeps rid = search method_rules depth 20

  contact_query-Keeps :
      (head : Ubj) (code : String) → Keeps P (Contacts.contact_query p me head code)
  unfolding Contacts.contact_query Db.get_request
  contact_query-Keeps head code = search method_rules depth 20

  ask_contact-Keeps :
      (head : Ubj) (account : Elements) (code : String) (contact : Elements)
      → Keeps P (Contacts.ask_contact p me head account code contact)
  unfolding Contacts.ask_contact self Db.request_pending Contacts.drop_code
  ask_contact-Keeps head account code contact = search method_rules depth 40

  add_contact-Keeps : (head : Ubj) → Keeps P (Contacts.process_add_contact_request p me head)
  unfolding Contacts.process_add_contact_request Db.get_account
  add_contact-Keeps head =
      search (method_rules, own_account-Keeps, contact_query-Keeps, ask_contact-Keeps) depth 20

  create_add_code-Keeps : (head : Ubj) → Keeps P (Contacts.process_create_add_code p me head)
  unfolding Contacts.process_create_add_code self
  create_add_code-Keeps head = search (method_rules, own_account-Keeps) depth 30

  pub accept_contact-Keeps : (head : Ubj) → Keeps P (Answers.process_accept_contact p me head)
  unfolding Answers.process_accept_contact Answers.request_to_me Answers.accept_request self
      Db.get_request Basics.get_contact_status
  accept_contact-Keeps head = search (method_rules, own_account-Keeps) depth 40

  reject_contact-Keeps : (head : Ubj) → Keeps P (Answers.process_reject_contact p me head)
  unfolding Answers.process_reject_contact Answers.request_to_me Answers.reject_request self
      Db.get_request
  reject_contact-Keeps head = search method_rules depth 40

  push-Keeps : (head : Ubj) → Keeps P (Incoming.process_push_request p me head)
  unfolding Incoming.process_push_request Incoming.push_to self
  push-Keeps head = search method_rules depth 20

  -- After the password was checked: the session's state and place change, and the rest follows.
  pub after_move-Keeps : (id : ℕ) (head : Ubj) → Keeps P (Account.after_move p me id head)
  unfolding Account.after_move Basics.contact_states Db.get_inbox
  after_move-Keeps id head =
      search (method_rules, Keeps-set_config, Keeps-process_requests) depth 20

  login-Keeps :
      ((n : ℕ) → Keeps P (Basics.set_status me n))
      → ((id : ℕ) → Keeps P (Account.move_session me id))
      → (head : Ubj) → Keeps P (Account.process_login p me head)
  unfolding Account.process_login Account.enter_account Db.get_account
  login-Keeps status move head = search (method_rules, after_move-Keeps, status, move) depth 30

  not_login-Keeps :
      Keeps P (Basics.set_status me Basics.status_connected)
      → (head : Ubj) → (p.ubj.to_int (p.ubj.get head "requestType") == p.types.login) ≡ false
      → Keeps P (Incoming.process_incoming_request p me head)
  unfolding Incoming.process_incoming_request
  not_login-Keeps status head other =
      let logout = logout-Keeps status in
      rw other (
        search
          (
            keeps_rules, Keeps-else, dispatch-Keeps, create_account-Keeps, logout, config-Keeps,
            add_contact-Keeps, create_add_code-Keeps, find_contact-Keeps, accept_contact-Keeps,
            reject_contact-Keeps, contact_status-Keeps, push-Keeps,
          )
          depth 20)

  -- Every request that is no login, for a property that a logout's change of the state keeps, too.
  pub other_request-Keeps :
      Keeps P (Basics.set_status me Basics.status_connected)
      → (head : Ubj) → is_login p head ≡ false
      → Keeps P (Incoming.process_incoming_request p me head)
  unfolding Incoming.process_incoming_request
  other_request-Keeps status head other =
      let type = p.ubj.to_int (p.ubj.get head "requestType") in
      elim (Bool-cases (type == p.types.dispatch)) [
        | inl first ↦ rw first (dispatch-Keeps head)
        | inr later ↦ elim (Bool-cases (type == p.types.create_account)) [
          | inl second ↦ rw (later, second) (create_account-Keeps head)
          | inr third ↦ not_login-Keeps status head (ground arith)
        ]
      ]

  -- Every request, for a property that a change of the session's state and place keeps, too.
  pub incoming-Keeps :
      ((n : ℕ) → Keeps P (Basics.set_status me n))
      → ((id : ℕ) → Keeps P (Account.move_session me id))
      → (head : Ubj) → Keeps P (Incoming.process_incoming_request p me head)
  unfolding Incoming.process_incoming_request
  incoming-Keeps status move head =
      let logout = logout-Keeps (status Basics.status_connected) in
      search
        (
          keeps_rules, dispatch-Keeps, create_account-Keeps, login-Keeps, logout, config-Keeps,
          add_contact-Keeps, create_add_code-Keeps, find_contact-Keeps, accept_contact-Keeps,
          reject_contact-Keeps, contact_status-Keeps, push-Keeps, status, move,
        )
        depth 20

  pub response-Keeps :
      (type id : ℕ) (response : Ubj) → Keeps P (Responses.process_response p me type id response)
  unfolding Responses.process_response Responses.dispatch_answered Responses.add_contact_answered
      Responses.accept_contact_answered Responses.reject_contact_answered Responses.push_answered
      Responses.dispatch_response Responses.add_contact_response Responses.accept_contact_response
      Responses.reject_contact_response Responses.push_response Responses.delete_answered
      Responses.send_resource self
  response-Keeps type id response = search method_rules depth 20

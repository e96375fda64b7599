-- ===== src/Session/Permission.antt =====
-- Who may do what: the guards of the request handlers (src/session.cpp).
use zway_server.Base.{
  ℕ, ◌<◌, ◌≤◌, ◌≡◌, ◌≢◌, refl, ◌⊎◌, inl, inr, Bool, false, ◌∷◌, ◌==◌, lt→ltb, le→leb, if_cases,
  ==→eq,
}
use zway_server.Value.{Ubj}
use zway_server.World.{World, Act, Exit, stop, Platform, failure, require, emit, return, ◌>>=◌}
use zway_server.Session.Basics.{self, refuse, need_login, need_no_login}
use zway_server.Session.Account.{
  request_id, process_dispatch_request, process_create_account, process_login, process_logout,
  process_config_request,
}
use zway_server.Session.Contacts.{
  process_contact_status_request, process_find_contact_request, process_add_contact_request,
  process_create_add_code,
}
use zway_server.Session.Answers.{process_accept_contact, process_reject_contact}
use zway_server.Session.Incoming.{process_push_request, process_incoming_request}

module _ {S E : Type 0} where
  -- The world with one more failure in the log.
  abbrev pub refused : ℕ → ℕ → World S E → World S E
  refused me rid w = record w { log = failure me rid 0 "Operation not permitted" ∷ w.log }

  need_login-refuses :
      {B : Type 0} (me rid : ℕ) (k : Unit {0} → Act S E B) (w : World S E)
      → (w.sessions me).status < 2
      → (need_login me rid >>= k) w ≡ (stop false, refused me rid w)
  unfolding need_login self refuse require emit ◌>>=◌
  need_login-refuses me rid k w h = rw (lt→ltb _ 2 h)

  need_no_login-refuses :
      {B : Type 0} (me rid : ℕ) (k : Unit {0} → Act S E B) (w : World S E)
      → 2 ≤ (w.sessions me).status
      → (need_no_login me rid >>= k) w ≡ (stop false, refused me rid w)
  unfolding need_no_login self refuse require emit ◌>>=◌
  need_no_login-refuses me rid k w h = rw (le→leb 2 _ h)

module _ {S E : Type 0} (p : Platform S E) (me : ℕ) (head : Ubj) (w : World S E) where
  abbrev pub kind : ℕ
  kind = p.ubj.to_int (p.ubj.get head "requestType")

  abbrev pub rid : ℕ
  rid = request_id p head

  module _ (outside : (w.sessions me).status < 2) where
    dispatch-refused : process_dispatch_request p me head w ≡ (stop false, refused me rid w)
    unfolding process_dispatch_request
    dispatch-refused = need_login-refuses me rid _ w outside

    logout-refused : process_logout p me head w ≡ (stop false, refused me rid w)
    unfolding process_logout
    logout-refused = need_login-refuses me rid _ w outside

    config-refused : process_config_request p me head w ≡ (stop false, refused me rid w)
    unfolding process_config_request
    config-refused = need_login-refuses me rid _ w outside

    add_contact-refused : process_add_contact_request p me head w ≡ (stop false, refused me rid w)
    unfolding process_add_contact_request
    add_contact-refused = need_login-refuses me rid _ w outside

    create_add_code-refused : process_create_add_code p me head w ≡ (stop false, refused me rid w)
    unfolding process_create_add_code
    create_add_code-refused = need_login-refuses me rid _ w outside

    find_contact-refused : process_find_contact_request p me head w ≡ (stop false, refused me rid w)
    unfolding process_find_contact_request
    find_contact-refused = need_login-refuses me rid _ w outside

    accept_contact-refused : process_accept_contact p me head w ≡ (stop false, refused me rid w)
    unfolding process_accept_contact
    accept_contact-refused = need_login-refuses me rid _ w outside

    reject_contact-refused : process_reject_contact p me head w ≡ (stop false, refused me rid w)
    unfolding process_reject_contact
    reject_contact-refused = need_login-refuses me rid _ w outside

    contact_status-refused :
        process_contact_status_request p me head w ≡ (stop false, refused me rid w)
    unfolding process_contact_status_request
    contact_status-refused = need_login-refuses me rid _ w outside

    push-refused : process_push_request p me head w ≡ (stop false, refused me rid w)
    unfolding process_push_request
    push-refused = need_login-refuses me rid _ w outside

    -- What a request comes to that is dropped, or refused with one failure.
    abbrev pub Rejected : Exit Bool × World S E → Type 0
    Rejected r = (r ≡ (stop false, w)) ⊎ (r ≡ (stop false, refused me rid w))

    -- In a session that is not logged in, every request but a login and the creation of an account
    -- returns false and changes nothing, but for at most one failure reply "Operation not
    -- permitted" to this request.
    pub outside_rejects :
        kind ≢ p.types.create_account
        → kind ≢ p.types.login
        → Rejected (process_incoming_request p me head w)
    unfolding process_incoming_request return
    outside_rejects no_create no_login =
        let P : Act S E Bool → Type 0 = λ m. Rejected (m w) in
        if_cases P (kind == p.types.dispatch) (λ e. inr dispatch-refused)
          λ _.
            if_cases P (kind == p.types.create_account) (λ e. absurd (no_create (==→eq _ _ e)))
              λ _.
                if_cases P (kind == p.types.login) (λ e. absurd (no_login (==→eq _ _ e)))
                  λ _.
                    if_cases P (kind == p.types.logout) (λ e. inr logout-refused)
                      λ _.
                        if_cases P (kind == p.types.config) (λ e. inr config-refused)
                          λ _.
                            if_cases P (kind == p.types.add_contact) (λ e. inr add_contact-refused)
                              λ _.
                                if_cases P (kind == p.types.create_add_code)
                                  (λ e. inr create_add_code-refused)
                                  λ _.
                                    if_cases P (kind == p.types.find_contact)
                                      (λ e. inr find_contact-refused)
                                      λ _.
                                        if_cases P (kind == p.types.accept_contact)
                                          (λ e. inr accept_contact-refused)
                                          λ _.
                                            if_cases P (kind == p.types.reject_contact)
                                              (λ e. inr reject_contact-refused)
                                              λ _.
                                                if_cases P (kind == p.types.contact_status)
                                                  (λ e. inr contact_status-refused)
                                                  λ _.
                                                    if_cases P (kind == p.types.push)
                                                      (λ e. inr push-refused) λ _. inl refl

  -- A session that is logged in can neither log in again nor create an account: both requests
  -- return false, and all that happens for either is one failure reply.
  pub inside_rejects :
      2 ≤ (w.sessions me).status
      → (process_login p me head w ≡ (stop false, refused me rid w))
        × (process_create_account p me head w ≡ (stop false, refused me rid w))
  unfolding process_login process_create_account
  inside_rejects inside =
      (need_no_login-refuses me rid _ w inside, need_no_login-refuses me rid _ w inside)

-- ===== src/Session/Frame.antt =====
-- Properties that survive the changes that most methods of a session make (src/session.cpp): those
-- of the database, the engines, the log, and the session's own contacts and configuration.
use zway_server.Base.{ℕ, ◌+◌, ◌≡◌, refl, String, Bool, List, ◌∷◌}
use zway_server.Stdio.{Bytes}
use zway_server.OrderedMap.{OrderedMap}
use zway_server.Value.{Ubj, Elements}
use zway_server.World.{World, Session, Platform, Effect, set_at, modify, emit}
use zway_server.World.Keeps.{Keeps, Keeps-modify, Keeps-bind, Keeps-gets, Keeps-pure, keeps_rules}
use zway_server.Session.Basics.{
  update_session, set_contacts, self, refuse, reply, need_login, need_no_login, draw,
}
use zway_server.Session.Requests
use zway_server.Db

pub record Frame {S E : Type 0} (me : ℕ) (P : World S E → Type 0) : Type 0 where
  pub around :
      (w : World S E) (s : S) (engines : ℕ → E) (draws : ℕ) (log : List Effect)
      → P w
      → P (record w { store = s; engines = engines; draws = draws; log = log })
  pub own :
      (w : World S E) (s : Session)
      → s.account_id ≡ (w.sessions me).account_id
      → s.status ≡ (w.sessions me).status
      → P w
      → P (record w { sessions = set_at w.sessions me s })

module _ {S E : Type 0} {me : ℕ} {P : World S E → Type 0} (f : Frame me P) where
  pub Keeps-emit : (e : Effect) → Keeps P (emit e)
  unfolding emit modify
  Keeps-emit e = record { apply = λ w h. f.around w w.store w.engines w.draws (e ∷ w.log) h }

  pub Keeps-update :
      (g : Session → Session)
      → ((s : Session) → (g s).account_id ≡ s.account_id)
      → ((s : Session) → (g s).status ≡ s.status)
      → Keeps P (update_session me g)
  unfolding update_session
  Keeps-update g account status =
      Keeps-modify _
        λ w h. f.own w (g (w.sessions me)) (account (w.sessions me)) (status (w.sessions me)) h

  pub Keeps-set_contacts : (m : OrderedMap Ubj) → Keeps P (set_contacts me m)
  unfolding set_contacts
  Keeps-set_contacts m = Keeps-update _ (λ s. refl) λ s. refl

  module _ (p : Platform S E) where
    pub Keeps-write_store : (g : S → Bool × S) → Keeps P (Db.write_store p g)
    unfolding Db.write_store
    Keeps-write_store g = Keeps-bind _ _ (Keeps-gets _) λ done.
        Keeps-bind _ _ (Keeps-modify _ λ w h. f.around w (g w.store).1 w.engines w.draws w.log h)
          λ _. Keeps-pure done

    pub Keeps-draw : (k : ℕ) → Keeps P (draw p k)
    unfolding draw
    Keeps-draw k = Keeps-bind _ _ (Keeps-gets _) λ bytes.
        Keeps-bind _ _ (Keeps-modify _ λ w h. f.around w w.store w.engines (w.draws + 1) w.log h)
          λ _. Keeps-pure bytes

    pub Keeps-post_request :
        (type id : ℕ) (content : Ubj) → Keeps P (Requests.post_request p me type id content)
    unfolding Requests.post_request
    Keeps-post_request type id content = Keeps-modify _ λ w h. f.around w w.store _ w.draws _ h

    pub Keeps-add_contact_entry : (id : ℕ) → Keeps P (Requests.add_contact_entry p me id)
    unfolding Requests.add_contact_entry
    Keeps-add_contact_entry id = Keeps-update _ (λ s. refl) λ s. refl

module _ {S E A : Type 0} {P : World S E → Type 0} where
  pub Keeps-refuse :
      {me : ℕ} (f : Frame me P) (rid code : ℕ) (text : String)
      → Keeps P (refuse {A = A} me rid code text)
  unfolding refuse
  Keeps-refuse f rid code text = search (keeps_rules, Keeps-emit)

pub ruleset frame_rules = (
  keeps_rules, Keeps-emit, Keeps-write_store, Keeps-set_contacts, Keeps-draw, Keeps-post_request,
  Keeps-add_contact_entry, Keeps-refuse,
)

module _ {S E : Type 0} (p : Platform S E) {me : ℕ} {P : World S E → Type 0} (f : Frame me P) where
  pub Keeps-self : Keeps P (self {S = S} {E = E} me)
  unfolding self
  Keeps-self = Keeps-gets _

  pub Keeps-reply : (rid : ℕ) (content : Ubj) → Keeps P (reply me rid content)
  unfolding reply
  Keeps-reply rid content = search frame_rules

  pub Keeps-need_login : (rid : ℕ) → Keeps P (need_login {S = S} {E = E} me rid)
  unfolding need_login self
  Keeps-need_login rid = search frame_rules

  pub Keeps-need_no_login : (rid : ℕ) → Keeps P (need_no_login {S = S} {E = E} me rid)
  unfolding need_no_login self
  Keeps-need_no_login rid = search frame_rules

  pub Keeps-set_fcm_token : (id : ℕ) (token : String) → Keeps P (Db.set_fcm_token p id token)
  unfolding Db.set_fcm_token
  Keeps-set_fcm_token id token = search frame_rules

  pub Keeps-add_request : (doc : Elements) → Keeps P (Db.add_request p doc)
  unfolding Db.add_request
  Keeps-add_request doc = search frame_rules

  pub Keeps-delete_request : (q : Elements) → Keeps P (Db.delete_request p q)
  unfolding Db.delete_request
  Keeps-delete_request q = search frame_rules

  pub Keeps-insert_account :
      (id : ℕ) (name phone : String) (by_name by_phone : Bool) (pass salt : Bytes)
      → Keeps P (Db.insert_account p id name phone by_name by_phone pass salt)
  unfolding Db.insert_account
  Keeps-insert_account id name phone by_name by_phone pass salt = search frame_rules

pub ruleset method_rules = (
  frame_rules, Keeps-reply, Keeps-need_login, Keeps-need_no_login, Keeps-set_fcm_token,
  Keeps-add_request, Keeps-delete_request, Keeps-insert_account,
)

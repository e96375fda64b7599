-- ===== src/Session/Delivery/Contents.antt =====
-- What the posting of a waiting request puts into the engine and sends: the switch of processRequests
-- (src/session.cpp), against a description of each type's content.
use zway_server.Base.{
  ℕ, String, ◌≡◌, refl, true, false, ◌&&◌, List, [], ◌∷◌, Option, none, some, arith, ◌==◌, ==→eq,
  if_cases, Bool-cases, inl, inr, if◌then◌else◌,
}
use zway_server.Value.{Ubj, Elements, ubj_obj, int32}
use zway_server.Convert.{bson_to_ubj}
use zway_server.World.{World, Act, Platform, posted, pure, gets, modify, ◌>>=◌}
use zway_server.Server.Sessions.{get_sessions}
use zway_server.Session.Basics
use zway_server.Session.Basics.{contact_status, any_notifies, update_session}
use zway_server.Session.Requests
use zway_server.Session.Delivery.Posting.{postable, type_of, id_of, Onward}
use zway_server.Db.Laws.{Engines}

module _ {S E : Type 0} (p : Platform S E) where
  -- The first of the requests with a type and an id.
  unfoldable pub first_with : ℕ → ℕ → List Elements → Option Elements
  first_with type id [] = none
  first_with type id (d ∷ ds) =
      let rest = first_with type id ds in
      if p.bson.as_int (p.bson.get_elem d "type") == type
        && p.bson.as_int (p.bson.get_elem d "id") == id
      then some d
      else rest

  abbrev number : Elements → String → Ubj
  number d k = int32 (p.bson.as_int (p.bson.get_elem d k))

  abbrev text : Elements → String → Ubj
  text d k = Ubj.string (p.bson.as_str (p.bson.get_elem d k))

  -- What a client is sent for a waiting request: its number and type, and what belongs to the type;
  -- for a message, the message.
  abbrev pub content_of : World S E → ℕ → ℕ → Elements → Ubj
  content_of w type id d =
      if type == p.types.dispatch
      then ubj_obj (
          ("requestId", int32 id)
          ∷ ("requestType", int32 type)
          ∷ ("dispatchId", int32 id)
          ∷ ("dispatchType", number d "dispatchType")
          ∷ [])
      else if type == p.types.add_contact
      then ubj_obj (
          ("requestId", int32 id)
          ∷ ("requestType", int32 type)
          ∷ ("addCode", text d "addCode")
          ∷ ("name", text d "name")
          ∷ ("phone", text d "phone")
          ∷ [])
      else if type == p.types.accept_contact
      then ubj_obj (
          ("requestId", int32 id)
          ∷ ("requestType", int32 type)
          ∷ ("contactRequestId", number d "contactRequestId")
          ∷ ("contactId", number d "src")
          ∷ ("contactStatus", int32 (contact_status p w (p.bson.as_int (p.bson.get_elem d "src"))))
          ∷ ("name", text d "name")
          ∷ ("phone", text d "phone")
          ∷ ("publicKey", bson_to_ubj (p.bson.get_elem d "publicKey"))
          ∷ [])
      else if type == p.types.reject_contact
      then ubj_obj (
          ("requestId", int32 id)
          ∷ ("requestType", int32 type)
          ∷ ("contactRequestId", number d "contactRequestId")
          ∷ [])
      else bson_to_ubj (p.bson.get_elem d "data")

  any_notifies-eq :
      (v w : World S E) (qs : List ℕ)
      → ((q : ℕ) → (v.sessions q).config ≡ (w.sessions q).config)
      → any_notifies p v.sessions qs ≡ any_notifies p w.sessions qs
  unfolding any_notifies
  any_notifies-eq v w [] same = refl
  any_notifies-eq v w (q ∷ qs) same = rw (same q, any_notifies-eq v w qs same) refl

  module _ (engines : Engines p) where
    -- The status of a contact does not change as requests are posted.
    pub contact_status-Onward :
        {w v : World S E} (id : ℕ)
        → Onward p engines w v
        → contact_status p v id ≡ contact_status p w id
    unfolding contact_status
    contact_status-Onward {w} {v} id o =
        rw (o.registry, any_notifies-eq v w (get_sessions id w.registry) o.configs) refl

    by_type-posts :
        (me id type : ℕ) (d : Elements) (w : World S E)
        → postable p engines type ≡ true
        → (Requests.post_by_type p me id type d w).1.log
          ≡ posted me type id (content_of w type id d) ∷ w.log
    unfolding Requests.post_by_type Requests.post_dispatch Requests.post_add_contact
        Requests.post_accept_contact Requests.post_reject_contact Requests.post_push
        Requests.post_request Requests.num Requests.text Basics.get_contact_status gets ◌>>=◌
        Requests.add_contact_entry update_session modify
    by_type-posts me id type d w can = elim (Bool-cases (type == p.types.dispatch)) [
      | inl e ↦ rw e refl
      | inr a ↦ rw a (elim (Bool-cases (type == p.types.add_contact)) [
        | inl e ↦ rw e refl
        | inr b ↦ rw b (elim (Bool-cases (type == p.types.accept_contact)) [
          | inl e ↦ rw e refl
          | inr c ↦ rw c (elim (Bool-cases (type == p.types.reject_contact)) [
            | inl e ↦ rw e refl
            | inr f ↦ rw f (elim (Bool-cases (type == p.types.push)) [
              | inl e ↦ rw e refl
              | inr g ↦ absurd (ground arith)
            ])
          ])
        ])
      ])
    ]

    pub request-posts :
        (me : ℕ) (d : Elements) (w : World S E)
        → postable p engines (type_of p engines d) ≡ true
        → p.pending (w.engines me) (type_of p engines d) (id_of p engines d) ≡ false
        → (Requests.process_request p me d w).1.log
          ≡ posted me
              (type_of p engines d)
              (id_of p engines d)
              (content_of w (type_of p engines d) (id_of p engines d) d)
            ∷ w.log
    unfolding Requests.process_request Requests.num gets ◌>>=◌
    request-posts me d w can new =
        rw new (by_type-posts me (id_of p engines d) (type_of p engines d) d w can)

    -- Another session's engine, and another request of the same one, are as they were.
    Spares : ℕ → ℕ → ℕ → World S E → World S E → Type 0
    Spares q type id w v = p.pending (v.engines q) type id ≡ p.pending (w.engines q) type id

    post-Spares :
        (me t i : ℕ) (content : Ubj) (w : World S E) (q type id : ℕ)
        → (me == q && (t == type && i == id)) ≡ false
        → Spares q type id w (Requests.post_request p me t i content w).1
    unfolding Spares Requests.post_request modify
    post-Spares me t i content w q type id other =
        ground (arith, engines.post_lem (w.engines me) t i type id content, ==→eq me q)

    by_type-Spares :
        (me i t : ℕ) (d : Elements) (w : World S E) (q type id : ℕ)
        → (me == q && (t == type && i == id)) ≡ false
        → Spares q type id w (Requests.post_by_type p me i t d w).1
    unfolding Requests.post_by_type Requests.post_dispatch Requests.post_add_contact
        Requests.post_accept_contact Requests.post_reject_contact Requests.post_push pure Spares
        Basics.get_contact_status gets ◌>>=◌ Requests.add_contact_entry update_session modify
    by_type-Spares me i t d w q type id other =
        let P : Act S E (Unit {0}) → Type 0 = λ m. Spares q type id w (m w).1 in
        if_cases P (t == p.types.dispatch) (λ e. post-Spares me t i _ w q type id other)
          λ _.
            if_cases P (t == p.types.add_contact) (λ e. post-Spares me t i _ w q type id other)
              λ _.
                if_cases P (t == p.types.accept_contact)
                  (λ e. post-Spares me t i _ _ q type id other)
                  λ _.
                    if_cases P (t == p.types.reject_contact)
                      (λ e. post-Spares me t i _ w q type id other)
                      λ _.
                        if_cases P (t == p.types.push) (λ e. post-Spares me t i _ w q type id other)
                          λ _. refl

    pub request-Spares :
        (me : ℕ) (d : Elements) (w : World S E) (q type id : ℕ)
        → (me == q && (type_of p engines d == type && id_of p engines d == id)) ≡ false
        → p.pending ((Requests.process_request p me d w).1.engines q) type id
          ≡ p.pending (w.engines q) type id
    unfolding Requests.process_request Requests.num pure gets ◌>>=◌ Spares
    request-Spares me d w q type id other =
        if_cases (λ (m : Act S E (Unit {0})). Spares q type id w (m w).1)
          (p.pending (w.engines me) (type_of p engines d) (id_of p engines d)) (λ old. refl)
          λ new. by_type-Spares me (id_of p engines d) (type_of p engines d) d w q type id other

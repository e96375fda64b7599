-- ===== src/Session/Message.antt =====
-- The way of a message from one client to another: processPushRequest, then the task
-- processUserRequests for the receiver (src/session.cpp, src/server.cpp).
use zway_server.Base.{
  ℕ, ◌≤◌, ◌≡◌, refl, sym, ap, ◌∙◌, Bool, true, false, List, [], ◌∷◌, ◌++◌, Option, none, some,
  arith, ◌==◌, ==_self, Bool-cases, inl, inr, if◌then◌else◌,
}
use mathlib.Core.Path.{subst}
use mathlib.Core.List.{Mem}
use mathlib.Core.Option.{some-injective}
use zway_server.Value.{Ubj, Bson, Elements, nil, ubj_obj, int32}
use zway_server.Convert.{ubj_to_bson, bson_to_ubj}
use zway_server.Convert.RoundTrip.{Storable, obj_to_ubj-ubj_to_bson}
use zway_server.World.{World, Exit, Platform, go, posted, set_at, gets, modify, ◌>>=◌}
use zway_server.Server.Sessions.{get_sessions, contains}
use zway_server.Session.Account.{request_id}
use zway_server.Session.Requests
use zway_server.Session.Incoming
use zway_server.Session.Registered.{Registered}
use zway_server.Session.Messages.{receiver, push_effects}
use zway_server.Session.Mailbox.{letters, push_mailboxes}
use zway_server.Session.Delivery.Posting.{postable}
use zway_server.Session.Delivery.Contents.{first_with, content_of}
use zway_server.Session.Delivery.Reaching.{requests_reach}
use zway_server.Db
use zway_server.Db.Laws.{Documents, Engines, waiting}

no_items : Storable (Ubj.array nil)
unfolding Storable
no_items = tt

module _ {S E : Type 0} (p : Platform S E) where
  posts_data :
      (w : World S E) (q : ℕ) (d : Elements) (id : ℕ) (v : Ubj)
      → p.bson.as_int (p.bson.get_elem d "id") ≡ id
      → p.bson.as_int (p.bson.get_elem d "type") ≡ p.types.push
      → bson_to_ubj (p.bson.get_elem d "data") ≡ v
      → (p.types.push == p.types.dispatch) ≡ false
      → (p.types.push == p.types.add_contact) ≡ false
      → (p.types.push == p.types.accept_contact) ≡ false
      → (p.types.push == p.types.reject_contact) ≡ false
      → p.pending (w.engines q) p.types.push id ≡ false
      → Requests.process_request p q d w ≡ (
        go tt,
        record w {
          engines = set_at w.engines q (p.post (w.engines q) p.types.push id v);
          log = posted q p.types.push id v ∷ w.log;
        },
      )
  unfolding Requests.process_request Requests.post_by_type Requests.post_push Requests.post_request
      Requests.num modify gets ◌>>=◌
  posts_data w q d id v ei et ev d1 d2 d3 d4 new =
      rw (ei, et, new, d1, d2, d3, d4, ==_self p.types.push, ev)

module _ {S E : Type 0} (p : Platform S E) (head : Ubj) (docs : Documents p) where
  push_doc-id :
      (sender dst : ℕ) (k : Ubj)
      → p.bson.as_int (p.bson.get_elem (Incoming.push_doc p sender dst head k) "id")
        ≡ request_id p head
  unfolding Incoming.push_doc
  push_doc-id sender dst k =
      ap p.bson.as_int (docs.get_elem_lem "id" "id" _ _) ∙ docs.as_int_lem (request_id p head)

  push_doc-type :
      (sender dst : ℕ) (k : Ubj)
      → p.bson.as_int (p.bson.get_elem (Incoming.push_doc p sender dst head k) "type")
        ≡ p.types.push
  unfolding Incoming.push_doc
  push_doc-type sender dst k =
      ap p.bson.as_int (docs.get_elem_lem "id" "type" _ _ ∙ docs.get_elem_lem "type" "type" _ _)
      ∙ docs.as_int_lem p.types.push

  push_doc-data :
      (sender dst : ℕ) (k : Ubj)
      → p.bson.get_elem (Incoming.push_doc p sender dst head k) "data"
        ≡ Bson.object (ubj_to_bson (Incoming.forward_of p sender head k))
  unfolding Incoming.push_doc
  push_doc-data sender dst k =
      docs.get_elem_lem "id" "data" _ _
      ∙ docs.get_elem_lem "type" "data" _ _
      ∙ docs.get_elem_lem "time" "data" _ _
      ∙ docs.get_elem_lem "ttl" "data" _ _
      ∙ docs.get_elem_lem "src" "data" _ _
      ∙ docs.get_elem_lem "dst" "data" _ _
      ∙ docs.get_elem_lem "data" "data" _ _

  unchanged :
      (sender : ℕ) (k : Ubj)
      → Storable (Incoming.forward_of p sender head k)
      → bson_to_ubj (Bson.object (ubj_to_bson (Incoming.forward_of p sender head k)))
        ≡ Incoming.forward_of p sender head k
  unfolding Incoming.forward_of bson_to_ubj
  unchanged sender k stored = (obj_to_ubj-ubj_to_bson _ nil stored no_items).0

  -- What is posted for a stored message is the message as its sender's server put it together for
  -- this receiver, unchanged by the two conversions: where the engine does not hold a request with
  -- that id yet, the session's turn for the document posts exactly that, once, and nothing else
  -- happens. The message can be held by BSON, documents are read as they are written, and the
  -- number of the type push is not one of the other types' that are posted.
  pub push_posted :
      (w : World S E) (q sender dst : ℕ) (k : Ubj)
      → Storable (Incoming.forward_of p sender head k)
      → (p.types.push == p.types.dispatch) ≡ false
      → (p.types.push == p.types.add_contact) ≡ false
      → (p.types.push == p.types.accept_contact) ≡ false
      → (p.types.push == p.types.reject_contact) ≡ false
      → p.pending (w.engines q) p.types.push (request_id p head) ≡ false
      → Requests.process_request p q (Incoming.push_doc p sender dst head k) w ≡ (
        go tt,
        record w {
          engines = set_at w.engines q (
              p.post
                (w.engines q)
                p.types.push
                (request_id p head)
                (Incoming.forward_of p sender head k));
          log =
              posted q p.types.push (request_id p head) (Incoming.forward_of p sender head k)
              ∷ w.log;
        },
      )
  push_posted w q sender dst k stored d1 d2 d3 d4 new =
      posts_data p w q (Incoming.push_doc p sender dst head k) (request_id p head)
        (Incoming.forward_of p sender head k) (push_doc-id sender dst k)
        (push_doc-type sender dst k)
        (ap bson_to_ubj (push_doc-data sender dst k) ∙ unchanged sender k stored) d1 d2 d3 d4 new

module _ {S E : Type 0} (p : Platform S E) where
  pub first_with-append :
      (type id : ℕ) (xs ys : List Elements)
      → first_with p type id xs ≡ none
      → first_with p type id (xs ++ ys) ≡ first_with p type id ys
  unfolding first_with
  first_with-append type id [] ys e = refl
  first_with-append type id (x ∷ xs) ys e = ground (arith, first_with-append type id xs ys)

  -- A message as the receiver is to see it: the sender's request with the sender's account as the
  -- source and with the receiver's own key.
  abbrev pub message_to : ℕ → Ubj → Ubj → Ubj
  message_to sender head key = ubj_obj (
      ("requestId", int32 (request_id p head))
      ∷ ("requestType", p.ubj.get head "requestType")
      ∷ ("src", int32 sender)
      ∷ ("resources", p.ubj.get head "resources")
      ∷ ("salt", p.ubj.get head "salt")
      ∷ ("meta", p.ubj.get head "meta")
      ∷ ("key", p.ubj.get key "key")
      ∷ [])

module _ {S E : Type 0} (p : Platform S E) (me : ℕ) (head : Ubj) where
  -- The first key of the message that names the account.
  unfoldable pub key_for : ℕ → List Ubj → Option Ubj
  key_for account [] = none
  key_for account (k ∷ ks) =
      let rest = key_for account ks in if receiver p me head k == account then some k else rest

  module _ (docs : Documents p) (engines : Engines p) where
    push_postable : postable p engines p.types.push ≡ true
    push_postable = ground (arith, ==_self p.types.push)

    first_with-letters :
        (sender account : ℕ) (k : Ubj) (ks : List Ubj)
        → key_for account ks ≡ some k
        → first_with p p.types.push (request_id p head) (letters p me head sender account ks)
          ≡ some (Incoming.push_doc p sender (receiver p me head k) head k)
    unfolding key_for letters first_with
    first_with-letters sender account k [] e = absurd (ground arith)
    first_with-letters sender account k (x ∷ ks) e =
        elim (Bool-cases (receiver p me head x == account)) [
          | inl hit ↦
              let same : x ≡ k = some-injective x k (rw hit at e) in
              rw hit (
                rw
                  (
                    push_doc-type p head docs sender (receiver p me head x) x,
                    push_doc-id p head docs sender (receiver p me head x) x,
                    ==_self p.types.push,
                    ==_self (request_id p head),
                  )
                  (ap (λ v. some (Incoming.push_doc p sender (receiver p me head v) head v)) same))
          | inr miss ↦ rw miss (first_with-letters sender account k ks (rw miss at e))
        ]

    -- What requests_reach says of a stored message.
    letter_posted :
        (v : World S E) (q account dst sender : ℕ) (k : Ubj)
        → Registered v
        → contains q (get_sessions account v.registry) ≡ true
        → Storable (Incoming.forward_of p sender head k)
        → (p.types.push == p.types.dispatch) ≡ false
        → (p.types.push == p.types.add_contact) ≡ false
        → (p.types.push == p.types.accept_contact) ≡ false
        → (p.types.push == p.types.reject_contact) ≡ false
        → p.pending (v.engines q) p.types.push (request_id p head) ≡ false
        → first_with p p.types.push (request_id p head) (waiting p account v.store)
          ≡ some (Incoming.push_doc p sender dst head k)
        → Mem
            (posted q p.types.push (request_id p head) (message_to p sender head k))
            (Incoming.process_user_requests p account v).1.log
    unfolding Incoming.forward_of
    letter_posted v q account dst sender k placed m stored d1 d2 d3 d4 new first =
        let doc = Incoming.push_doc p sender dst head k in
        let log = (Incoming.process_user_requests p account v).1.log in
        let type_is = push_doc-type p head docs sender dst k in
        let id_is = push_doc-id p head docs sender dst k in
        let reached =
          requests_reach p engines v q account doc placed m (rw type_is push_postable)
            (rw (type_is, id_is) new) (rw (type_is, id_is) first) in
        let shown =
          ap bson_to_ubj (push_doc-data p head docs sender dst k)
          ∙ unchanged p head docs sender k stored in
        let by_type : content_of p v p.types.push (request_id p head) doc
            ≡ bson_to_ubj (p.bson.get_elem doc "data") =
          rw (d1, d2, d3, d4) refl in
        subst (λ c. Mem (posted q p.types.push (request_id p head) c) log) (by_type ∙ shown)
          (rw (type_is, id_is) at reached)

    -- A message that names an account reaches every session of that account, as it was sent: after a
    -- logged-in session has sent it, and the task for the account has run, each session that the
    -- server's map holds under the account has posted to its client, under the message's id, the
    -- message with the sender's account and with the first key that names the account. The account
    -- is not the sender's own; no message with that id waits for the account already, and the
    -- session's engine waits for the answer to none (else this one is skipped); the map has each
    -- session under its own account, no insertion throws, the message can be held by BSON, documents
    -- are read as they are written, the engine holds what was posted, and the number of the type push
    -- is not one of the other types' that are posted.
    pub message_reaches :
        (w : World S E) (q account : ℕ) (k : Ubj)
        → ((s : S) (d : Elements) → (p.mongo.insert s Db.requests d).0 ≡ true)
        → Registered w
        → 2 ≤ (w.sessions me).status
        → (account == (w.sessions me).account_id) ≡ false
        → key_for account (p.ubj.to_array (p.ubj.get head "keys")) ≡ some k
        → contains q (get_sessions account w.registry) ≡ true
        → Storable (Incoming.forward_of p (w.sessions me).account_id head k)
        → (p.types.push == p.types.dispatch) ≡ false
        → (p.types.push == p.types.add_contact) ≡ false
        → (p.types.push == p.types.accept_contact) ≡ false
        → (p.types.push == p.types.reject_contact) ≡ false
        → p.pending (w.engines q) p.types.push (request_id p head) ≡ false
        → first_with p p.types.push (request_id p head) (waiting p account w.store) ≡ none
        → Mem
            (posted q p.types.push
              (request_id p head)
              (message_to p (w.sessions me).account_id head k))
            (Incoming.process_user_requests p account
              (Incoming.process_push_request p me head w).1).1.log
    message_reaches w q account k fine placed inside other named m stored d1 d2 d3 d4 new empty =
        let sender = (w.sessions me).account_id in
        let ks = p.ubj.to_array (p.ubj.get head "keys") in
        let sent = (Incoming.process_push_request p me head w).1 in
        let same = ap (λ (r : Exit Bool × World S E). r.1) (push_effects p me head w inside) in
        let mail = rw other at (push_mailboxes p me head docs fine w account inside) in
        letter_posted sent q account (receiver p me head k) sender k
          (subst (λ v. Registered v) (sym same) (record { placed = placed.placed }))
          (subst (λ v. contains q (get_sessions account v.registry) ≡ true) (sym same) m) stored d1
          d2 d3 d4
          (subst (λ v. p.pending (v.engines q) p.types.push (request_id p head) ≡ false) (sym same)
            new)
          (ap (first_with p p.types.push (request_id p head)) mail
            ∙ first_with-append p p.types.push (request_id p head) (waiting p account w.store)
                (letters p me head sender account ks) empty
            ∙ first_with-letters sender account k ks named)

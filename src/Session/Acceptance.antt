-- ===== src/Session/Acceptance.antt =====
-- The way of an acceptance to the client that asked for the contact: processAcceptContact, then the
-- task processUserRequests for the one who asked (src/session.cpp, src/server.cpp).
pub mod Fields
use mathlib.Core.Path.{subst}
use mathlib.Core.List.{Mem}
use zway_server.Base.{
  ℕ, ◌≤◌, ◌≡◌, refl, sym, ap, ◌∙◌, String, Bool, true, false, List, [], ◌∷◌, ◌++◌, none, some,
  arith, ◌==◌, ==_self, str_eq,
}
use zway_server.Value.{Ubj, Bson, Elements, bson_obj, number_int, ubj_obj, int32}
use zway_server.Convert.{bson_to_ubj}
use zway_server.World.{World, Exit, Platform, posted}
use zway_server.Server.Sessions.{get_sessions, contains}
use zway_server.Session.Incoming
use zway_server.Session.Answers
use zway_server.Session.Contacts
use zway_server.Session.Kept.{accept_contact-Keeps}
use zway_server.Session.Registered.{Registered, Registered-Frame}
use Fields.{
  accepted-id, accepted-type, accepted-dst, accepted-contact_request_id, accepted-src,
  accepted-name, accepted-phone, accepted-public_key, first_with-left,
}
use zway_server.Session.Outcomes
use zway_server.Session.Outcomes.{accept_effects, answered, exchanged, sender}
use zway_server.Session.Basics.{contact_status}
use zway_server.Session.Message.{first_with-append}
use zway_server.Session.Delivery.Contents.{first_with, content_of}
use zway_server.Session.Delivery.Reaching.{requests_reach}
use zway_server.Db
use zway_server.Db.Laws.{Documents, Engines, waiting, without_id}
use zway_server.Db.Collection.{Collection, addressed, addressed-append, without_id-append}

module _ {S E : Type 0} (p : Platform S E) (me : ℕ) (head : Ubj) (w : World S E) where
  -- The acceptance as it is stored.
  abbrev pub acceptance : Elements → Elements → Elements
  acceptance request mine =
      Answers.accept_doc p (Outcomes.rid p me head w) (answered p me head w)
        (Outcomes.account p me head w) (sender p me head w request) mine
        (Contacts.public_key p head)

  -- What the asking client is to be sent for it.
  abbrev pub acceptance_to : Elements → ℕ → Ubj
  acceptance_to mine status = ubj_obj (
      ("requestId", int32 (Outcomes.rid p me head w))
      ∷ ("requestType", int32 p.types.accept_contact)
      ∷ ("contactRequestId", int32 (answered p me head w))
      ∷ ("contactId", int32 (Outcomes.account p me head w))
      ∷ ("contactStatus", int32 status)
      ∷ ("name", Ubj.string (p.bson.as_str (p.bson.get_elem mine "name")))
      ∷ ("phone", Ubj.string (p.bson.as_str (p.bson.get_elem mine "phone")))
      ∷ ("publicKey", bson_to_ubj (Contacts.public_key p head))
      ∷ [])

  abbrev pub after : World S E
  after = (Answers.process_accept_contact p me head w).1

module _ {S E : Type 0} (p : Platform S E) (docs : Documents p) where
  module _ (requests : Collection p) (me : ℕ) (head : Ubj) (w : World S E)
      (request mine : Elements) where
    module _ (inside : 2 ≤ (w.sessions me).status)
        (found : Outcomes.waiting p me head w ≡ some request)
        (ours : Outcomes.own p me head w ≡ some mine) (key : Contacts.has_public_key p head ≡ true)
        (theirs : p.bson.is_obj (p.bson.get_elem request "publicKey") ≡ true)
        (stored : (p.mongo.insert w.store Db.requests (acceptance p me head w request mine)).0
          ≡ true)
        (taken : (p.mongo.remove
            (p.mongo.insert w.store Db.requests (acceptance p me head w request mine)).1
            Db.requests
            (bson_obj (("id", number_int (answered p me head w)) ∷ []))
            true).0
          ≡ true) where
      -- What the handler leaves of the requests: one with the answered id has gone, and the acceptance
      -- is the last.
      pub accept-all :
          requests.all (after p me head w).store
          ≡ without_id p (answered p me head w) (requests.all w.store)
            ++ (acceptance p me head w request mine) ∷ []
      accept-all =
          ap (λ (r : Exit Bool × World S E). requests.all r.1.store)
            (accept_effects p me head w request mine inside found ours key theirs)
          ∙ requests.removed_lem _ (answered p me head w) taken
          ∙ ap (without_id p (answered p me head w))
              (requests.inserted_lem w.store (acceptance p me head w request mine) stored)
          ∙ without_id-append p (answered p me head w) (requests.all w.store)
              (acceptance p me head w request mine)
              (requests.found_lem w.store (answered p me head w) (Outcomes.account p me head w)
                request found)

      accept-waiting :
          waiting p (sender p me head w request) (after p me head w).store
          ≡ addressed p
              (sender p me head w request)
              (without_id p (answered p me head w) (requests.all w.store))
            ++ (acceptance p me head w request mine) ∷ []
      accept-waiting =
          requests.waiting_lem (sender p me head w request) (after p me head w).store
          ∙ ap (addressed p (sender p me head w request)) accept-all
          ∙ addressed-append p (sender p me head w request) _ (acceptance p me head w request mine)
          ∙ rw (accepted-dst p docs _ _ _ _ _ _, ==_self (sender p me head w request)) refl

      -- What requests_reach says of the stored acceptance.
      acceptance_posted :
          (engines : Engines p) (v : World S E) (q : ℕ)
          → Registered v
          → contains q (get_sessions (sender p me head w request) v.registry) ≡ true
          → (p.types.accept_contact == p.types.dispatch) ≡ false
          → (p.types.accept_contact == p.types.add_contact) ≡ false
          → p.pending (v.engines q) p.types.accept_contact (Outcomes.rid p me head w) ≡ false
          → first_with p p.types.accept_contact
              (Outcomes.rid p me head w)
              (waiting p (sender p me head w request) v.store)
            ≡ some (acceptance p me head w request mine)
          → Mem
              (posted q p.types.accept_contact (Outcomes.rid p me head w) (
                acceptance_to p me head w mine (contact_status p v (Outcomes.account p me head w))))
              (Incoming.process_user_requests p (sender p me head w request) v).1.log
      acceptance_posted engines v q placed m d1 d2 new first =
          let rid = Outcomes.rid p me head w in
          let old = answered p me head w in
          let mine_is = Outcomes.account p me head w in
          let asker = sender p me head w request in
          let its_key = Contacts.public_key p head in
          let doc = acceptance p me head w request mine in
          let log = (Incoming.process_user_requests p asker v).1.log in
          let type_is = accepted-type p docs rid old mine_is asker mine its_key in
          let id_is = accepted-id p docs rid old mine_is asker mine its_key in
          let reached =
            requests_reach p engines v q asker doc placed m
              (rw type_is (ground (arith, ==_self p.types.accept_contact)))
              (rw (type_is, id_is) new) (rw (type_is, id_is) first) in
          let shown : content_of p v p.types.accept_contact rid doc
              ≡ acceptance_to p me head w mine (contact_status p v mine_is) =
            rw
              (
                d1,
                d2,
                ==_self p.types.accept_contact,
                accepted-contact_request_id p docs rid old mine_is asker mine its_key,
                accepted-src p docs rid old mine_is asker mine its_key,
                accepted-name p docs rid old mine_is asker mine its_key,
                accepted-phone p docs rid old mine_is asker mine its_key,
                accepted-public_key p docs rid old mine_is asker mine its_key,
              )
              refl in
          subst (λ c. Mem (posted q p.types.accept_contact rid c) log) shown
            (rw (type_is, id_is) at reached)

      -- An acceptance reaches every session of the one who asked: after a logged-in session, whose
      -- account is in the database, has accepted a contact request that was sent to its account and
      -- has a public key, with a public key, and the task for the asking account has run, each session
      -- that the server's map holds under the asking account has posted to its client, under the
      -- acceptance's id, the id of the request that is answered, the accepting account with its status,
      -- name and phone number from the database, and its public key. No acceptance with that id waits
      -- for the asking account already, and the session's engine waits for the answer to none; the map
      -- has each session under its own account, the insertion and the removal do not throw, documents
      -- are read as they are written, the collection is a list in the order of insertion, the engine
      -- holds what was posted, and the number of the type is not that of a dispatch or a contact
      -- request.
      pub acceptance_reaches :
          (engines : Engines p) (q : ℕ)
          → Registered w
          → contains q (get_sessions (sender p me head w request) w.registry) ≡ true
          → (p.types.accept_contact == p.types.dispatch) ≡ false
          → (p.types.accept_contact == p.types.add_contact) ≡ false
          → p.pending (w.engines q) p.types.accept_contact (Outcomes.rid p me head w) ≡ false
          → first_with p p.types.accept_contact
              (Outcomes.rid p me head w)
              (waiting p (sender p me head w request) w.store)
            ≡ none
          → Mem
              (posted q p.types.accept_contact (Outcomes.rid p me head w) (
                acceptance_to p me head w mine
                  (contact_status p (after p me head w) (Outcomes.account p me head w))))
              (Incoming.process_user_requests p
                (sender p me head w request)
                (after p me head w)).1.log
      unfolding first_with
      acceptance_reaches engines q placed m d1 d2 new empty =
          let rid = Outcomes.rid p me head w in
          let asker = sender p me head w request in
          let doc = acceptance p me head w request mine in
          let left = without_id p (answered p me head w) (requests.all w.store) in
          let effects = accept_effects p me head w request mine inside found ours key theirs in
          let same = ap (λ (r : Exit Bool × World S E). r.1.registry) effects in
          let same_engines = ap (λ (r : Exit Bool × World S E). r.1.engines) effects in
          let none_left =
            first_with-left p docs p.types.accept_contact rid (answered p me head w) asker
              (requests.all w.store)
              (ap (first_with p p.types.accept_contact rid)
                  (sym (requests.waiting_lem asker w.store))
                ∙ empty) in
          acceptance_posted engines (after p me head w) q
            ((accept_contact-Keeps p (Registered-Frame me) head).apply w placed)
            (subst (λ r. contains q (get_sessions asker r) ≡ true) (sym same) m) d1 d2
            (subst (λ e. p.pending (e q) p.types.accept_contact rid ≡ false) (sym same_engines) new)
            (ap (first_with p p.types.accept_contact rid) accept-waiting
              ∙ first_with-append p p.types.accept_contact rid (addressed p asker left) (doc ∷ [])
                  none_left
              ∙ rw
                  (
                    accepted-type p docs rid _ _ _ mine _,
                    accepted-id p docs rid _ _ _ mine _,
                    ==_self p.types.accept_contact,
                    ==_self rid,
                  )
                  refl)

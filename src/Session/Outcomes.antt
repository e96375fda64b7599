-- ===== src/Session/Outcomes.antt =====
-- What the contact handlers do to the database, step by step (src/session.cpp with src/db.cpp).
use zway_server.Base.{ℕ, ◌≤◌, ◌≡◌, true, [], ◌∷◌, Option, some, arith, ge→ltb}
use zway_server.OrderedMap.{assign}
use zway_server.Value.{Ubj, Elements, bson_obj, number_int}
use zway_server.World.{
  World, go, Platform, success, user_task, set_at, pure, gets, modify, emit, require, or_else,
  ◌>>=◌,
}
use zway_server.Session.Basics
use zway_server.Session.Basics.{self, refuse, reply, need_login, contact_status, new_contact}
use zway_server.Session.Requests
use zway_server.Session.Account.{request_id, nothing}
use zway_server.Session.Contacts
use zway_server.Session.Answers
use zway_server.Db

module _ {S E : Type 0} (p : Platform S E) (me : ℕ) (head : Ubj) (w : World S E) where
  abbrev pub account : ℕ
  account = (w.sessions me).account_id

  abbrev pub rid : ℕ
  rid = request_id p head

  -- The id of the contact request that the client answers, and that request in the database.
  abbrev pub answered : ℕ
  answered = p.ubj.to_int (p.ubj.get head "contactRequestId")

  abbrev pub waiting : Option Elements
  waiting = Db.first (
      p.mongo.query w.store Db.requests (
        Db.plain (bson_obj (("id", number_int answered) ∷ ("dst", number_int account) ∷ []))
          (bson_obj []) 0))

  abbrev pub own : Option Elements
  own = Db.first (
      p.mongo.query w.store Db.accounts
        (Db.plain (bson_obj (("id", number_int account) ∷ [])) Contacts.name_and_phone 0))

  -- The database after `doc` was inserted and the answered request removed.
  abbrev pub exchanged : Elements → S
  exchanged doc =
      (p.mongo.remove (p.mongo.insert w.store Db.requests doc).1 Db.requests
        (bson_obj (("id", number_int answered) ∷ [])) true).1

  abbrev pub sender : Elements → ℕ
  sender request = p.bson.as_int (p.bson.get_elem request "src")

  -- When a logged-in session, whose account is in the database, accepts a contact request that was
  -- sent to that account and has a public key, with a public key, then the handler returns true; the database has taken
  -- the acceptance for the request's sender and then lost one request with the answered id, whether
  -- or not the insertion threw; the sender is a contact; and the client's success and then the task
  -- for the sender went out.
  pub accept_effects :
      (request mine : Elements)
      → 2 ≤ (w.sessions me).status
      → waiting ≡ some request
      → own ≡ some mine
      → Contacts.has_public_key p head ≡ true
      → p.bson.is_obj (p.bson.get_elem request "publicKey") ≡ true
      → Answers.process_accept_contact p me head w ≡ (
        go true,
        record w {
          store = exchanged (
              Answers.accept_doc p rid answered account
                (sender request)
                mine
                (Contacts.public_key p head));
          sessions = set_at w.sessions me (record (w.sessions me) {
            contacts =
                assign (sender request) (new_contact (sender request)) (w.sessions me).contacts;
          });
          log =
              user_task (sender request)
              ∷ success me rid (
                  Answers.accept_reply p rid
                    (sender request)
                    (contact_status p w (sender request))
                    request)
              ∷ w.log;
        },
      )
  unfolding Answers.process_accept_contact Answers.accept_request Answers.request_to_me
      Contacts.own_account need_login self require refuse reply emit or_else Db.get_request
      Db.get_account Db.add_request Db.delete_request Db.write_store Basics.get_contact_status
      Basics.contact_status Requests.add_contact_entry Basics.update_session gets modify pure ◌>>=◌
  accept_effects request mine inside found mine_found key theirs =
      ground (arith, ge→ltb (w.sessions me).status 2 inside)

  -- When a logged-in session rejects a contact request that was sent to its account, the handler
  -- returns true; the database has taken the rejection for the request's sender and then lost one
  -- request with the answered id, whether or not the insertion threw; no contact is entered; and
  -- the client's success and then the task for the sender went out.
  pub reject_effects :
      (request : Elements)
      → 2 ≤ (w.sessions me).status
      → waiting ≡ some request
      → Answers.process_reject_contact p me head w ≡ (
        go true,
        record w {
          store = exchanged (Answers.reject_doc p rid answered account (sender request));
          log = user_task (sender request) ∷ success me rid nothing ∷ w.log;
        },
      )
  unfolding Answers.process_reject_contact Answers.reject_request Answers.request_to_me need_login
      self require refuse reply emit or_else Db.get_request Db.add_request Db.delete_request
      Db.write_store gets modify pure ◌>>=◌
  reject_effects request inside found = ground (arith, ge→ltb (w.sessions me).status 2 inside)

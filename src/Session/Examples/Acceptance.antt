-- ===== src/Session/Examples/Acceptance.antt =====
-- Acceptances at the small database.
use zway_server.Base.{ℕ, ◌≡◌, refl, true, none, some, List, [], ◌∷◌, arith, Bool-cases, inl, inr}
use zway_server.Value.{Elements, bson_obj, number_int}
use zway_server.World.{World, posted}
use mathlib.Core.List.{Mem}
use zway_server.Session.Incoming
use zway_server.Session.Contacts
use zway_server.Session.Acceptance.{acceptance_reaches, acceptance_to, after}
use zway_server.Session.Basics.{contact_status}
use zway_server.Session.Delivery.Contents.{first_with}
use zway_server.Db
use zway_server.Db.Laws.{without_id}
use zway_server.Db.Collection.{Collection, addressed, has_id}
use zway_server.Session.Examples.Setup.{Store, matches, matching, without_first}
use zway_server.Session.Examples.Data.{ann, wish, store, answer}
use zway_server.Session.Examples.Posting

matching-addressed :
    (account : ℕ) (ds : List Elements)
    → matching (bson_obj (("dst", number_int account) ∷ [])) ds
      ≡ addressed Posting.platform account ds
unfolding addressed
matching-addressed account [] = refl
matching-addressed account (d ∷ ds) = ground (arith, matching-addressed account ds)

matching-has_id :
    (id account : ℕ) (ds : List Elements) (d : Elements)
    → Db.first
        (some (matching (bson_obj (("id", number_int id) ∷ ("dst", number_int account) ∷ [])) ds))
      ≡ some d
    → has_id Posting.platform id ds ≡ true
unfolding has_id
matching-has_id id account [] d e = absurd (ground arith)
matching-has_id id account (x ∷ ds) d e =
    elim (Bool-cases
      (matches (bson_obj (("id", number_int id) ∷ ("dst", number_int account) ∷ [])) x)) [
        | inl hit ↦ ground arith
        | inr miss ↦ ground (arith, matching-has_id id account ds d (rw miss at e))
      ]

without-without_id :
    (id : ℕ) (ds : List Elements)
    → without_first (bson_obj (("id", number_int id) ∷ [])) ds ≡ without_id Posting.platform id ds
unfolding without_id
without-without_id id [] = refl
without-without_id id (d ∷ ds) = ground (arith, without-without_id id ds)

requests : Collection Posting.platform
requests = record {
  all = λ s. s.requests;
  waiting_lem = λ account s. matching-addressed account s.requests;
  found_lem = λ s id account d e. matching-has_id id account s.requests d e;
  inserted_lem = λ s d done. refl;
  removed_lem = λ s id done. without-without_id id s.requests;
}

key_there : Contacts.has_public_key Posting.platform (answer 8) ≡ true
unfolding Contacts.has_public_key
key_there = refl

none_waits : first_with Posting.platform 8 12 [] ≡ none
unfolding first_with
none_waits = refl

acceptance_reaches_example :
    Mem
      (posted 3 8 12 (
        acceptance_to Posting.platform 1
          (answer 8)
          Posting.world
          ann
          (contact_status Posting.platform (after Posting.platform 1 (answer 8) Posting.world) 7)))
      (Incoming.process_user_requests Posting.platform 8
        (after Posting.platform 1 (answer 8) Posting.world)).1.log
acceptance_reaches_example =
    acceptance_reaches Posting.platform Posting.docs requests 1 (answer 8) Posting.world wish ann
      (omega arith) refl refl key_there refl refl refl Posting.engines 3 Posting.world-Registered
      Posting.member_of_eight refl refl refl none_waits

-- A request to account 9 has the same id as the one to account 7, and is older.
abbrev theirs : Elements
theirs = bson_obj (
    ("id", number_int 5)
    ∷ ("type", number_int 3100)
    ∷ ("src", number_int 6)
    ∷ ("dst", number_int 9)
    ∷ [])

abbrev shared : World Store (List (ℕ × ℕ))
shared = record Posting.world { store = record store { requests = theirs ∷ wish ∷ [] } }

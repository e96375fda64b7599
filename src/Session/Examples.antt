-- ===== src/Session/Examples.antt =====
-- The sessions' theorems at a small database with two accounts and one contact request.
pub mod Setup
pub mod Data
pub mod Posting
pub mod Codes
pub mod Signup
pub mod Runs
pub mod Broadcast
pub mod Acceptance
pub mod Outsiders
use zway_server.Base.{
  ℕ, ◌+◌, ◌≡◌, refl, true, false, ◌&&◌, String, [], ◌∷◌, ◌++◌, arith, ◌==◌, if◌then◌else◌,
}
use zway_server.OrderedMap.{lookup, assign}
use zway_server.Value.{Bson, int32, bson_obj, ubj_obj, ubj_array}
use zway_server.World.{World, gets, go, success, user_task, set_at}
use zway_server.Server.Sessions.{contains, get_sessions}
use zway_server.Session.Account
use zway_server.Session.Account.{verify_password, process_login, process_create_account}
use zway_server.Session.Contacts
use zway_server.Session.Answers
use zway_server.Session.Incoming
use zway_server.Session.Basics.{contact_status, new_contact}
use zway_server.Session.Permission.{outside_rejects, Rejected}
use zway_server.Session.Login.{login_needs_password, login_enters, logout_stays, Authentic, Entered}
use zway_server.Session.Outcomes.{accept_effects, exchanged}
use zway_server.Session.Messages.{push_effects, others, stored_for, tasks_for}
use zway_server.Session.Creation.{create_effects, document}
use zway_server.Session.Adding.{add_by_code_effects, asked, asking, told}
use zway_server.Session.Isolation.{incoming_isolated}
use zway_server.Session.Registered.{Registered}
use zway_server.Session.Lifecycle
use zway_server.Session.Reachable.{Run-Registered, Run, here, next, started, requested}
use zway_server.Db
use zway_server.Session.Examples.Setup.{
  Store, without_first, bin_of, elem_of, inserted, member, platform, elements,
}
use zway_server.Session.Examples.Data.{
  question, bob, new_password, creation, unused, ann, wish, store, stranger, member_seven, outside,
  inside, login, answer, message,
}

outside_rejects_example :
    Rejected platform 1
      (answer 8)
      outside
      (omega arith)
      (Incoming.process_incoming_request platform 1 (answer 8) outside)
outside_rejects_example =
    outside_rejects platform 1 (answer 8) outside (omega arith) (omega arith) (omega arith)

right_password : verify_password platform ann (1 ∷ 2 ∷ []) ≡ true
unfolding verify_password Account.digest_matches Account.bytes_eq
right_password = refl

login_enters_example : Entered 1 7 (process_login platform 1 login outside).1
login_enters_example =
    login_enters platform 1 login outside ann (1 ∷ 2 ∷ []) (omega arith) refl refl refl refl
      right_password

incoming_isolated_example :
    (Incoming.process_incoming_request platform 1 login outside).1.sessions 2 ≡ stranger
incoming_isolated_example = incoming_isolated 1 outside platform login 2 refl

key_there : Contacts.has_public_key platform (answer 8) ≡ true
unfolding Contacts.has_public_key
key_there = refl

-- The message has one receiver, account 8.
one_receiver :
    others platform 1 message 7 (elements (member message "keys"))
    ≡ ubj_obj (("dst", int32 8) ∷ []) ∷ []
unfolding others
one_receiver = refl

first_id : Db.new_account_id platform unused ≡ (go 1, unused)
unfolding Db.new_account_id Db.next_id gets
first_id = refl

hash_read :
    bin_of (elem_of (document platform 1 creation unused 1 (new_password ++ 0 ∷ [])) "pass")
    ≡ new_password ++ 0 ∷ []
unfolding Db.account_doc
hash_read = refl

salt_read :
    bin_of (elem_of (document platform 1 creation unused 1 (new_password ++ 0 ∷ [])) "salt")
    ≡ 0 ∷ []
unfolding Db.account_doc
salt_read = refl

key_sent : (code name : String) → Contacts.has_public_key platform (question code name) ≡ true
unfolding Contacts.has_public_key
key_sent code name = refl

nobody_asked : asked platform 1 (question "" "bob") inside 8 ≡ false
unfolding Db.is_one
nobody_asked = refl

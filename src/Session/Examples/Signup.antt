-- ===== src/Session/Examples/Signup.antt =====
-- The way into a new account, at the small database.
use zway_server.Base.{◌≡◌, refl, [], ◌∷◌, ◌++◌, arith}
use zway_server.Value.{bson_obj, number_int}
use zway_server.World.{go, gets}
use zway_server.Session.Account.{process_create_account, process_login}
use zway_server.Session.Login.{Entered}
use zway_server.Session.Signup.{created_enters}
use zway_server.Db
use zway_server.Db.Laws.{Documents, Accounts}
use zway_server.Session.Examples.Data.{unused, creation, new_password, first_login}
use zway_server.Session.Examples.Setup.{platform}
use zway_server.Session.Examples.Posting.{matching-append}

docs : Documents platform
docs = record {
  get_elem_lem = λ j k v d. refl;
  as_int_lem = λ n. refl;
  insert_lem = λ s d account done.
      ground (arith, matching-append (bson_obj (("dst", number_int account) ∷ [])) d s.requests);
}

accounts : Accounts platform
accounts = record {
  shown = λ d. d;
  as_bin_lem = λ b. refl;
  shown_pass_lem = λ d. refl;
  shown_salt_lem = λ d. refl;
  account_lem = λ s d id done.
      ground (arith, matching-append (bson_obj (("id", number_int id) ∷ [])) d s.accounts);
}

first_id : Db.new_account_id platform unused ≡ (go 1, unused)
unfolding Db.new_account_id Db.next_id gets
first_id = refl

-- Session 1 creates the account, and session 2 logs into it.
created_enters_example :
    Entered 2 1
      (process_login platform 2 first_login (process_create_account platform 1 creation unused).1).1
created_enters_example =
    created_enters platform docs accounts 1 creation unused 1 (new_password ++ 0 ∷ []) new_password
      2 first_login (omega arith) refl refl refl refl refl first_id refl refl refl refl
      (omega arith) refl refl refl refl

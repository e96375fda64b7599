-- ===== src/Session/Signup.antt =====
-- The way into a new account: processCreateAccount, then processLogin with the same password, from
-- the same or another session (src/session.cpp, src/db.cpp).
use zway_server.Base.{
  sym, ℕ, ◌<◌, ◌≡◌, refl, ap, ◌∙◌, Bool, true, false, [], ◌∷◌, ◌++◌, none, some, ==_self, str_eq,
}
use mathlib.Core.Path.{subst}
use zway_server.Stdio.{Bytes}
use zway_server.Value.{Ubj, Elements}
use zway_server.World.{World, Exit, Platform, go}
use zway_server.Session.Account.{process_create_account, process_login, verify_password}
use zway_server.Session.Creation.{create_effects, document, salt, taken, inserted}
use zway_server.Session.Login.{Entered, login_enters}
use zway_server.Session.Codes.{head_of, first-or_empty}
use zway_server.Db
use zway_server.Db.Laws.{Documents, Accounts, logins}

module _ {S E : Type 0} (p : Platform S E) (docs : Documents p) (accounts : Accounts p) where
  shown-verify :
      (d : Elements) (password : Bytes)
      → verify_password p (accounts.shown d) password ≡ verify_password p d password
  unfolding verify_password
  shown-verify d password = rw (accounts.shown_pass_lem d, accounts.shown_salt_lem d) refl

  module _ (me : ℕ) (head : Ubj) (w : World S E) (id : ℕ) (pass : Bytes) where
    doc-id : p.bson.as_int (p.bson.get_elem (document p me head w id pass) "id") ≡ id
    unfolding Db.account_doc
    doc-id = ap p.bson.as_int (docs.get_elem_lem "id" "id" _ _) ∙ docs.as_int_lem id

    doc-pass : p.bson.as_bin (p.bson.get_elem (document p me head w id pass) "pass") ≡ pass
    unfolding Db.account_doc
    doc-pass =
        ap p.bson.as_bin (
          docs.get_elem_lem "id" "pass" _ _
          ∙ docs.get_elem_lem "name" "pass" _ _
          ∙ docs.get_elem_lem "phone" "pass" _ _
          ∙ docs.get_elem_lem "findByName" "pass" _ _
          ∙ docs.get_elem_lem "findByPhone" "pass" _ _
          ∙ docs.get_elem_lem "pass" "pass" _ _)
        ∙ accounts.as_bin_lem pass

    doc-salt :
        p.bson.as_bin (p.bson.get_elem (document p me head w id pass) "salt") ≡ salt p me head w
    unfolding Db.account_doc
    doc-salt =
        ap p.bson.as_bin (
          docs.get_elem_lem "id" "salt" _ _
          ∙ docs.get_elem_lem "name" "salt" _ _
          ∙ docs.get_elem_lem "phone" "salt" _ _
          ∙ docs.get_elem_lem "findByName" "salt" _ _
          ∙ docs.get_elem_lem "findByPhone" "salt" _ _
          ∙ docs.get_elem_lem "pass" "salt" _ _
          ∙ docs.get_elem_lem "salt" "salt" _ _)
        ∙ accounts.as_bin_lem (salt p me head w)

    found :
        (inserted p me head w (document p me head w id pass)).0 ≡ true
        → logins p id w.store ≡ []
        → logins p id (inserted p me head w (document p me head w id pass)).1
          ≡ accounts.shown (document p me head w id pass) ∷ []
    found fine new =
        accounts.account_lem w.store (document p me head w id pass) id fine
        ∙ rw (doc-id, ==_self id, new) refl

    -- Who creates an account can log into it: after a session that is not logged in has created an
    -- account, and the client was told its id, a login from any session that is not logged in, with
    -- that id and the same password, succeeds; the session is then logged in, has the account's id,
    -- and stands in the server's map under it. The creation meets what it asks for, its hash and its
    -- insertion succeed, no account had the id before, and documents and queries are as their laws
    -- say.
    pub created_enters :
        (password : Bytes) (other : ℕ) (login : Ubj)
        → (w.sessions me).status < 2
        → p.ubj.has_field head "name" ≡ true
        → str_eq (p.ubj.to_str (p.ubj.get head "name")) "" ≡ false
        → p.ubj.has_field head "password" ≡ true
        → p.ubj.buffer_size (p.ubj.get head "password") ≡ 32
        → taken p me head w ≡ none
        → Db.new_account_id p w ≡ (go id, w)
        → p.ubj.buffer_of (p.ubj.get head "password") ≡ some password
        → p.sha256 (password ++ salt p me head w) ≡ some pass
        → (inserted p me head w (document p me head w id pass)).0 ≡ true
        → logins p id w.store ≡ []
        → (w.sessions other).status < 2
        → p.ubj.has_field login "account" ≡ true
        → p.ubj.has_field login "password" ≡ true
        → p.ubj.to_int (p.ubj.get login "account") ≡ id
        → p.ubj.buffer_of (p.ubj.get login "password") ≡ some password
        → Entered other id (process_login p other login (process_create_account p me head w).1).1
    created_enters password other login outside n1 n2 p1 p2 free next given hashed fine new outside'
          f1 f2 same given' =
        let doc = document p me head w id pass in
        let made =
          create_effects p me head w id password pass outside n1 n2 p1 p2 free next given hashed
            fine doc-pass doc-salt in
        let after = (process_create_account p me head w).1 in
        let after_eq = ap (λ (r : Exit Bool × World S E). r.1) made.0 in
        let stored =
          ap (λ (i : ℕ). head_of (logins p i after.store)) same
          ∙ ap (λ (v : World S E). head_of (logins p id v.store)) after_eq
          ∙ ap head_of (found fine new) in
        subst (λ (i : ℕ). Entered other i (process_login p other login after).1) same
          (login_enters p other login after (accounts.shown doc) password
            (subst (λ (v : World S E). (v.sessions other).status < 2) (sym after_eq) outside') f1 f2
            (first-or_empty _ ∙ stored) given' (shown-verify doc password ∙ made.1))

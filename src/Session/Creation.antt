-- ===== src/Session/Creation.antt =====
-- What the creation of an account leaves (src/session.cpp with src/db.cpp).
use zway_server.Base.{
  ℕ, ◌+◌, ◌<◌, ◌≡◌, refl, Bool, true, false, [], ◌∷◌, ◌++◌, Option, none, some, arith, str_eq, take,
  length, ==_self,
}
use zway_server.Stdio.{Bytes}
use zway_server.Value.{Ubj, Elements, bson_obj, ubj_obj, int32}
use zway_server.World.{
  World, go, Platform, success, pure, return, gets, modify, emit, require, or_else, ◌>>=◌,
}
use zway_server.Session.Basics.{self, refuse, reply, need_no_login, draw}
use zway_server.Session.Account.{
  request_id, name_taken, process_create_account, verify_password, digest_matches, bytes_eq,
}
use zway_server.Db

bytes_eq_self : (l : Bytes) → bytes_eq (take (length l) l) l ≡ true
unfolding bytes_eq
bytes_eq_self [] = refl
bytes_eq_self (x ∷ l) = ground (arith, ==_self x, bytes_eq_self l)

module _ {S E : Type 0} (p : Platform S E) (me : ℕ) (head : Ubj) (w : World S E) where
  abbrev pub salt : Bytes
  salt = p.rand w.draws 32

  -- An account that has the name, in whatever case.
  abbrev pub taken : Option Elements
  taken = Db.first (
      p.mongo.query w.store Db.accounts (
        Db.plain (name_taken p (p.ubj.to_str (p.ubj.get head "name")))
          (bson_obj (("id", Db.one) ∷ [])) 0))

  -- The document of the account with the given id and hash.
  abbrev pub document : ℕ → Bytes → Elements
  document id pass =
      Db.account_doc p id (p.ubj.to_str (p.ubj.get head "name"))
        (p.ubj.to_str (p.ubj.get head "phone")) (p.ubj.to_bool (p.ubj.get head "findByName"))
        (p.ubj.to_bool (p.ubj.get head "findByPhone")) pass salt

  abbrev pub inserted : Elements → Bool × S
  inserted doc = p.mongo.insert w.store Db.accounts doc

  -- A session that is not logged in creates an account, with a name that is not empty and that no
  -- account has and a password of 32 bytes, where the hash and the insertion succeed: then the
  -- handler returns true, the account with the id that newAccountId gives is inserted, with the
  -- hash of the password and of a newly drawn salt, and the client's success names the id. The
  -- password verifies against the inserted document, where the hash and the salt are read from it
  -- as they were written.
  pub create_effects :
      (id : ℕ) (password pass : Bytes)
      → (w.sessions me).status < 2
      → p.ubj.has_field head "name" ≡ true
      → str_eq (p.ubj.to_str (p.ubj.get head "name")) "" ≡ false
      → p.ubj.has_field head "password" ≡ true
      → p.ubj.buffer_size (p.ubj.get head "password") ≡ 32
      → taken ≡ none
      → Db.new_account_id p w ≡ (go id, w)
      → p.ubj.buffer_of (p.ubj.get head "password") ≡ some password
      → p.sha256 (password ++ salt) ≡ some pass
      → (inserted (document id pass)).0 ≡ true
      → p.bson.as_bin (p.bson.get_elem (document id pass) "pass") ≡ pass
      → p.bson.as_bin (p.bson.get_elem (document id pass) "salt") ≡ salt
      → (process_create_account p me head w ≡ (
        go true,
        record w {
          store = (inserted (document id pass)).1;
          draws = w.draws + 1;
          log = success me (request_id p head) (ubj_obj (("accountId", int32 id) ∷ [])) ∷ w.log;
        },
      ))
        × (verify_password p (document id pass) password ≡ true)
  unfolding process_create_account need_no_login self require refuse reply emit or_else
      Db.get_account Db.insert_account Db.write_store draw return gets modify pure ◌>>=◌
      verify_password digest_matches Db.new_account_id
  create_effects id password pass outside n1 n2 p1 p2 free next given hashed stored rp rs =
      (ground arith, rw (rp, rs, hashed) (bytes_eq_self pass))

-- ===== src/Session/Login.antt =====
-- What a login needs and what it brings about; what a logout leaves (src/session.cpp).
use zway_server.Base.{
  ℕ, ◌<◌, ◌≤◌, ge→ltb, ◌≡◌, refl, true, List, [], ◌∷◌, Option, none, some, arith, ==_self,
  Bool-cases, inl, inr,
}
use zway_server.Stdio.{Bytes}
use zway_server.OrderedMap.{OrderedMap}
use zway_server.Value.{Ubj, Elements, bson_obj, number_int}
use zway_server.World.{World, Platform, pure, gets, modify, emit, require, or_else, fault, ◌>>=◌}
use zway_server.World.Keeps.{Keeps-bind, Keeps-pure}
use zway_server.Server.Sessions
use zway_server.Server.Sessions.{get_sessions, contains, contains-append, get_sessions-append}
use zway_server.Session.Basics
use zway_server.Session.Basics.{self, refuse, need_login, need_no_login}
use zway_server.Session.Account
use zway_server.Session.Account.{verify_password, process_login, enter_account}
use zway_server.Session.Frame.{Frame}
use zway_server.Session.Kept.{after_move-Keeps, Keeps-broadcast_status}
use zway_server.Db

module _ {S E : Type 0} (p : Platform S E) (me : ℕ) (head : Ubj) (w : World S E) where
  abbrev pub wanted : ℕ
  wanted = p.ubj.to_int (p.ubj.get head "account")

  -- The hash and the salt of the account that the login names.
  abbrev pub credentials : Option Elements
  credentials = Db.first (
      p.mongo.query w.store Db.accounts (
        Db.plain (bson_obj (("id", number_int wanted) ∷ []))
          (bson_obj (("pass", Db.one) ∷ ("salt", Db.one) ∷ [])) 0))

  -- The login's account was found, and the password it brings matches the stored hash.
  abbrev pub Authentic : Type 0
  Authentic =
      (account : Elements) × (password : Bytes) × (credentials ≡ some account)
      × (p.ubj.buffer_of (p.ubj.get head "password") ≡ some password)
      × (verify_password p account password ≡ true)

  checked :
      (a : Option Elements) (b : Option Bytes)
      → credentials ≡ a
      → p.ubj.buffer_of (p.ubj.get head "password") ≡ b
      → (w.sessions me).status < 2
      → ((process_login p me head w).1.sessions me).status ≡ 2
      → Authentic
  unfolding process_login need_no_login self refuse require or_else fault emit Db.get_account ◌>>=◌
  checked none b ea eb out h = absurd (ground arith)
  checked (some account) none ea eb out h = absurd (ground arith)
  checked (some account) (some password) ea eb out h =
      elim (Bool-cases (verify_password p account password)) [
        | inl right ↦ (account, password, ea, eb, right)
        | inr wrong ↦ absurd (ground arith)
      ]

  -- A session that is not logged in and is so after it asked for a login has given the right
  -- password: the account it asked for was found in the database, and the password in the request
  -- matches the hash and the salt of that account.
  pub login_needs_password :
      (w.sessions me).status < 2
      → ((process_login p me head w).1.sessions me).status ≡ 2
      → Authentic
  login_needs_password = checked _ _ refl refl

  login-eq-enter :
      (account : Elements) (password : Bytes)
      → (w.sessions me).status < 2
      → p.ubj.has_field head "account" ≡ true
      → p.ubj.has_field head "password" ≡ true
      → credentials ≡ some account
      → p.ubj.buffer_of (p.ubj.get head "password") ≡ some password
      → verify_password p account password ≡ true
      → process_login p me head w ≡ enter_account p me wanted head w
  unfolding process_login need_no_login self refuse require or_else fault emit Db.get_account ◌>>=◌
  login-eq-enter account password out fa fp ea eb right = ground arith

listed-append :
    (k id me : ℕ) (r : OrderedMap (List ℕ))
    → k ≡ id
    → contains me (get_sessions id (Sessions.append_session k me r)) ≡ true
listed-append k id me r e =
    ground (arith, get_sessions-append k id me r, contains-append me me (get_sessions k r))

-- The session is logged in, has the account id, and stands in the server's map under it.
pub record Entered {S E : Type 0} (me id : ℕ) (v : World S E) : Type 0 where
  pub logged_in : (v.sessions me).status ≡ 2
  pub identified : (v.sessions me).account_id ≡ id
  pub listed : contains me (get_sessions id v.registry) ≡ true

record LoggedOut {S E : Type 0} (me : ℕ) (r : OrderedMap (List ℕ)) (id : ℕ) (v : World S E)
    : Type 0 where
  same_map : v.registry ≡ r
  same_id : (v.sessions me).account_id ≡ id
  logged_out : (v.sessions me).status ≡ 1

module _ {S E : Type 0} where
  LoggedOut-Frame :
      (me : ℕ) (r : OrderedMap (List ℕ)) (id : ℕ) → Frame {S = S} {E = E} me (LoggedOut me r id)
  LoggedOut-Frame me r id = record {
    around = λ w s engines draws log h. record {
      same_map = h.same_map;
      same_id = h.same_id;
      logged_out = h.logged_out;
    };
    own = λ w s account status h. record {
      same_map = h.same_map;
      same_id = ground (arith, ==_self me, h.same_id);
      logged_out = ground (arith, ==_self me, h.logged_out);
    };
  }

  Entered-Frame : (me id : ℕ) → Frame {S = S} {E = E} me (Entered me id)
  Entered-Frame me id = record {
    around = λ w s engines draws log h. record {
      logged_in = h.logged_in;
      identified = h.identified;
      listed = h.listed;
    };
    own = λ w s account status h. record {
      logged_in = ground (arith, ==_self me, h.logged_in);
      identified = ground (arith, ==_self me, h.identified);
      listed = h.listed;
    };
  }

module _ {S E : Type 0} (p : Platform S E) (me : ℕ) (head : Ubj) (w : World S E) where
  entered : (id : ℕ) → Entered me id (enter_account p me id head w).1
  unfolding enter_account Account.move_session Basics.set_status Basics.unregister Basics.register
      Basics.update_session modify ◌>>=◌
  entered id = (after_move-Keeps p (Entered-Frame me id) id head).apply _ (record {
    logged_in = ground (arith, ==_self me);
    identified = ground (arith, ==_self me);
    listed = listed-append _ id me _ (ground (arith, ==_self me));
  })

  -- A login of a session that is not logged in, which names an account of the database and brings
  -- the right password for it, succeeds: afterwards the session is logged in, its account id is
  -- that of the account, and the server's map holds it under that id.
  pub login_enters :
      (account : Elements) (password : Bytes)
      → (w.sessions me).status < 2
      → p.ubj.has_field head "account" ≡ true
      → p.ubj.has_field head "password" ≡ true
      → credentials p me head w ≡ some account
      → p.ubj.buffer_of (p.ubj.get head "password") ≡ some password
      → verify_password p account password ≡ true
      → Entered me (wanted p me head w) (process_login p me head w).1
  login_enters account password out fa fp ea eb right =
      rw (login-eq-enter p me head w account password out fa fp ea eb right)
        (entered (wanted p me head w))

  named :
      (w.sessions me).status < 2
      → ((process_login p me head w).1.sessions me).status ≡ 2
      → (p.ubj.has_field head "account" ≡ true) × (p.ubj.has_field head "password" ≡ true)
  unfolding process_login need_no_login self refuse require or_else fault emit ◌>>=◌
  named out now = elim (Bool-cases (p.ubj.has_field head "account")) [
    | inl fa ↦ elim (Bool-cases (p.ubj.has_field head "password")) [
      | inl fp ↦ (fa, fp)
      | inr missing ↦ absurd (ground arith)
    ]
    | inr missing ↦ absurd (ground arith)
  ]

  -- What a login that succeeded has brought about.
  pub succeeded-Entered :
      (w.sessions me).status < 2
      → ((process_login p me head w).1.sessions me).status ≡ 2
      → Entered me (wanted p me head w) (process_login p me head w).1
  succeeded-Entered out now =
      let (account, password, ea, eb, right) = login_needs_password p me head w out now in
      let (fa, fp) = named out now in login_enters account password out fa fp ea eb right

  left :
      2 ≤ (w.sessions me).status
      → LoggedOut me w.registry (w.sessions me).account_id (Account.process_logout p me head w).1
  unfolding Account.process_logout need_login self require refuse Basics.reply emit Db.set_fcm_token
      Db.write_store Basics.set_status Basics.update_session gets modify pure ◌>>=◌
  left inside = rw (ge→ltb (w.sessions me).status 2 inside) (
      (Keeps-bind _ _
          (Keeps-broadcast_status p (LoggedOut-Frame me w.registry (w.sessions me).account_id) 0
            true)
          λ _. Keeps-pure true).apply
        _
        (record {
          same_map = refl;
          same_id = ground (arith, ==_self me);
          logged_out = ground (arith, ==_self me);
        }))

  -- A logged-in session that logs out keeps its place: it is no longer logged in, but the server's
  -- map is what it was, and the session's account id is, too.
  pub logout_stays :
      2 ≤ (w.sessions me).status
      → ((Account.process_logout p me head w).1.registry ≡ w.registry)
        × (((Account.process_logout p me head w).1.sessions me).account_id
            ≡ (w.sessions me).account_id)
        × (((Account.process_logout p me head w).1.sessions me).status ≡ 1)
  logout_stays inside = let l = left inside in (l.same_map, l.same_id, l.logged_out)

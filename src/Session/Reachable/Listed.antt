-- ===== src/Session/Reachable/Listed.antt =====
-- A logged-in session stands in the server's map (src/session.cpp, src/server.cpp).
pub mod Runs
use zway_server.Base.{
  ℕ, ◌<◌, ◌≤◌, ◌≡◌, refl, ◌⊎◌, Bool, true, false, ◌||◌, List, [], ◌∷◌, ◌++◌, arith, ◌==◌, ==_self,
  Bool-cases, ltb, inl, inr, if◌then◌else◌,
}
use zway_server.OrderedMap.{OrderedMap, lookup}
use zway_server.Value.{Ubj}
use zway_server.World.{World, Platform, pure, return, gets, modify, emit, require, for_each, ◌>>=◌}
use zway_server.World.Keeps.{Keeps, Keeps-modify, Keeps-bind}
use zway_server.Server.Sessions
use zway_server.Server.Sessions.{
  get_sessions, contains, contains-append, contains-remove_all, get_sessions-append,
  get_sessions-remove,
}
use zway_server.Session.Basics
use zway_server.Session.Account
use zway_server.Session.Incoming
use zway_server.Session.Lifecycle
use zway_server.Session.Login.{succeeded-Entered}
use zway_server.Session.Frame.{Frame}
use zway_server.Session.Kept.{
  is_login, incoming-login, incoming-Keeps, other_request-Keeps, response-Keeps,
}
use zway_server.Session.Kept.Tasks.{user_requests-Keeps}
use zway_server.Session.Registered.{Absent}
use zway_server.Session.Reachable.{
  Step, Run, here, next, started, shaken, requested, answered, tasked, closed, cleared,
}

-- Every logged-in session of the given ones stands in the map under its own account id.
pub record ListedOf {S E : Type 0} (except : ℕ → Bool) (w : World S E) : Type 0 where
  pub held :
      (q : ℕ)
      → except q ≡ false
      → (w.sessions q).status ≡ 2
      → contains q (get_sessions (w.sessions q).account_id w.registry) ≡ true

abbrev pub Listed : {S E : Type 0} → World S E → Type 0
Listed w = ListedOf (λ q. false) w

module _ {S E : Type 0} (except : ℕ → Bool) where
  pub Listed-Frame : (me : ℕ) → Frame {S = S} {E = E} me (ListedOf except)
  Listed-Frame me = record {
    around = λ w s engines draws log h. record { held = h.held };
    own = λ w s account status h. record {
      held = λ q other inside. let k = h.held q other in ground arith;
    };
  }

  pub out-Listed :
      (me n : ℕ) → n < 2 → Keeps {S = S} {E = E} (ListedOf except) (Basics.set_status me n)
  unfolding Basics.set_status Basics.update_session
  out-Listed me n low =
      Keeps-modify _
        λ w h. record { held = λ q other inside. let k = h.held q other in ground arith }

-- The session itself may be under way.
module _ {S E : Type 0} (me : ℕ) where
  pub status-Listed :
      (n : ℕ) → Keeps {S = S} {E = E} (ListedOf (λ q. me == q)) (Basics.set_status me n)
  unfolding Basics.set_status Basics.update_session
  status-Listed n =
      Keeps-modify _
        λ w h. record { held = λ q other inside. let k = h.held q other in ground arith }

  pub unregister-Listed : Keeps {S = S} {E = E} (ListedOf (λ q. me == q)) (Basics.unregister me)
  unfolding Basics.unregister
  unregister-Listed = Keeps-modify _ λ w h. record {
    held = λ q other inside. ground (
      arith,
      get_sessions-remove (w.sessions me).account_id (w.sessions q).account_id me w.registry,
      contains-remove_all q me (get_sessions (w.sessions me).account_id w.registry),
      h.held q other inside,
    );
  }

  register-Listed : Keeps {S = S} {E = E} (ListedOf (λ q. me == q)) (Basics.register me)
  unfolding Basics.register
  register-Listed = Keeps-modify _ λ w h. record {
    held = λ q other inside. ground (
      arith,
      get_sessions-append (w.sessions me).account_id (w.sessions q).account_id me w.registry,
      contains-append q me (get_sessions (w.sessions me).account_id w.registry),
      h.held q other inside,
    );
  }

  account-Listed :
      (id : ℕ)
      → Keeps {S = S} {E = E}
          (ListedOf (λ q. me == q))
          (Basics.update_session me (λ s. record s { account_id = id }))
  unfolding Basics.update_session
  account-Listed id =
      Keeps-modify _
        λ w h. record { held = λ q other inside. let k = h.held q other in ground arith }

  move-Listed :
      (id : ℕ) → Keeps {S = S} {E = E} (ListedOf (λ q. me == q)) (Account.move_session me id)
  unfolding Account.move_session
  move-Listed id =
      Keeps-bind _ _ unregister-Listed λ _. Keeps-bind _ _ (account-Listed id) λ _. register-Listed

  -- The others, and the session itself.
  pub but :
      (w : World S E)
      → ListedOf (λ q. me == q) w
      → ((w.sessions me).status ≡ 2
          → contains me (get_sessions (w.sessions me).account_id w.registry) ≡ true)
      → Listed w
  but w h own = record {
    held = λ q _ inside. elim (Bool-cases (me == q)) [
      | inl same ↦ ground (arith, own)
      | inr other ↦ h.held q other inside
    ];
  }

  pub except_it : (w : World S E) → Listed w → ListedOf (λ q. me == q) w
  except_it w h = record { held = λ q other inside. h.held q refl inside }

module _ {S E : Type 0} (p : Platform S E) where
  -- A login of a session that is logged in already is refused.
  pub login_again :
      (me : ℕ) (head : Ubj) (w : World S E)
      → 2 ≤ (w.sessions me).status
      → ((Account.process_login p me head w).1.sessions ≡ w.sessions)
        × ((Account.process_login p me head w).1.registry ≡ w.registry)
  unfolding Account.process_login Basics.need_no_login Basics.self Basics.refuse require emit gets
      modify return pure ◌>>=◌
  login_again me head w inside = (ground arith, ground arith)

  login_own :
      (me : ℕ) (head : Ubj) (w : World S E)
      → Listed w
      → ((Account.process_login p me head w).1.sessions me).status ≡ 2
      → contains me (
          get_sessions
            ((Account.process_login p me head w).1.sessions me).account_id
            (Account.process_login p me head w).1.registry)
        ≡ true
  login_own me head w h now = elim (Bool-cases (ltb (w.sessions me).status 2)) [
    | inl out ↦ let e = succeeded-Entered p me head w (ground arith) now in rw e.identified e.listed
    | inr inside ↦
        let a = login_again me head w (ground arith) in
        rw (a.0, a.1) (h.held me refl (rw a.0 at now))
  ]

  pub requested-Listed :
      (me : ℕ) (head : Ubj) (w : World S E)
      → Listed w
      → Listed (Incoming.process_incoming_request p me head w).1
  requested-Listed me head w h = elim (Bool-cases (is_login p head)) [
    | inl login ↦
        but me (Incoming.process_incoming_request p me head w).1
          ((incoming-Keeps p (Listed-Frame (λ q. me == q) me) (status-Listed me) (move-Listed me)
              head).apply
            w (except_it me w h))
          (rw (incoming-login p me head w login) (login_own me head w h))
    | inr other ↦
        (other_request-Keeps p (Listed-Frame (λ q. false) me)
            (out-Listed (λ q. false) me 1 (omega arith)) head other).apply
          w h
  ]

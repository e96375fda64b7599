-- ===== src/Session/Reachable/Proven.antt =====
-- Who is logged in has proved it: over whole runs of the server (src/session.cpp, src/server.cpp).
use zway_server.Base.{
  ℕ, ◌<◌, ◌≡◌, refl, ◌∙◌, sym, ◌≤◌, true, arith, ◌==◌, ltb, ==→eq, Bool-cases, inl, inr,
}
use mathlib.Core.Path.{subst}
use zway_server.Value.{Ubj}
use zway_server.World.{World, Platform}
use zway_server.Server.Sessions.{get_sessions, contains}
use zway_server.Session.Incoming
use zway_server.Session.Kept.{is_login, incoming-login, other_request-Keeps, response-Keeps}
use zway_server.Session.Kept.Tasks.{user_requests-Keeps}
use zway_server.Session.Login.{Authentic, wanted, login_needs_password, succeeded-Entered}
use zway_server.Session.Isolation.{incoming_isolated}
use zway_server.Session.Reachable.{
  Step, Run, here, next, started, shaken, requested, answered, tasked, closed, cleared,
}
use zway_server.Session.Reachable.Since.{
  Since, Since-refl, Since-Frame, on-Since, close-Since, handshake-Since, cleared-Since,
  start-Since,
}
use zway_server.Session.Reachable.Listed.{login_again}
use zway_server.Session.Reachable.Listed.Runs.{Run-Listed}

module _ {S E : Type 0} (p : Platform S E) where
  -- A login request of the session, which it sent while it was not logged in, in a run from `w` to
  -- `v`: it named the account that the session now has, and brought its password.
  pub record Proven (w v : World S E) (q : ℕ) : Type 0 where
    pub moment : World S E
    pub head : Ubj
    pub before : Run p w moment
    pub after : Run p (Incoming.process_incoming_request p q head moment).1 v
    pub login : is_login p head ≡ true
    pub outside : (moment.sessions q).status < 2
    pub authentic : Authentic p q head moment
    pub same : wanted p q head moment ≡ (v.sessions q).account_id

  extended :
      (w : World S E) {u v : World S E} (q : ℕ)
      → Step p u v
      → Since q u v
      → ((u.sessions q).status ≡ 2 → Proven w u q)
      → (v.sessions q).status ≡ 2
      → Proven w v q
  extended w q s h earlier inside =
      let (was, kept) = h.since inside in
      let old = earlier was in
      record {
        moment = old.moment;
        head = old.head;
        before = old.before;
        after = next old.after s;
        login = old.login;
        outside = old.outside;
        authentic = old.authentic;
        same = old.same ∙ sym kept;
      }

  login_again-Since :
      (q : ℕ) (head : Ubj) (u : World S E)
      → is_login p head ≡ true
      → 2 ≤ (u.sessions q).status
      → Since q u (Incoming.process_incoming_request p q head u).1
  login_again-Since q head u login inside = record {
    since = rw (incoming-login p q head u login, (login_again p q head u inside).0) λ h. (h, refl);
  }

  fresh :
      (w : World S E) {u : World S E} (q : ℕ) (head : Ubj)
      → Run p w u
      → is_login p head ≡ true
      → (u.sessions q).status < 2
      → ((Incoming.process_incoming_request p q head u).1.sessions q).status ≡ 2
      → Proven w (Incoming.process_incoming_request p q head u).1 q
  fresh w {u = u} q head r login out inside =
      let now = rw (incoming-login p q head u login) at inside in
      record {
        moment = u;
        head = head;
        before = r;
        after = here;
        login = login;
        outside = out;
        authentic = login_needs_password p q head u out now;
        same =
            rw (incoming-login p q head u login)
              (sym (succeeded-Entered p q head u out now).identified);
      }

  own_request :
      (w : World S E) {u : World S E} (q : ℕ) (head : Ubj)
      → Run p w u
      → ((u.sessions q).status ≡ 2 → Proven w u q)
      → ((Incoming.process_incoming_request p q head u).1.sessions q).status ≡ 2
      → Proven w (Incoming.process_incoming_request p q head u).1 q
  own_request w {u = u} q head r earlier inside = elim (Bool-cases (is_login p head)) [
    | inl login ↦ elim (Bool-cases (ltb (u.sessions q).status 2)) [
      | inl out ↦ fresh w q head r login (ground arith) inside
      | inr in_already ↦
          extended w q (requested q head u) (login_again-Since q head u login (ground arith))
            earlier inside
    ]
    | inr other ↦
        extended w q (requested q head u)
          ((other_request-Keeps p (Since-Frame q u q) (on-Since q u q) head other).apply u
            (Since-refl q u))
          earlier inside
  ]

  any_request :
      (w : World S E) {u : World S E} (q me : ℕ) (head : Ubj)
      → Run p w u
      → ((u.sessions q).status ≡ 2 → Proven w u q)
      → ((Incoming.process_incoming_request p me head u).1.sessions q).status ≡ 2
      → Proven w (Incoming.process_incoming_request p me head u).1 q
  any_request w {u = u} q me head r earlier inside = elim (Bool-cases (me == q)) [
    | inl same ↦
        subst
          (λ m.
            ((Incoming.process_incoming_request p m head u).1.sessions q).status ≡ 2
            → Proven w (Incoming.process_incoming_request p m head u).1 q)
          (sym (==→eq me q same)) (own_request w q head r earlier) inside
    | inr other ↦
        extended w q (requested me head u)
          (record { since = rw (incoming_isolated me u p head q other) λ h. (h, refl) }) earlier
          inside
  ]

  step :
      (w : World S E) {u v : World S E} (q : ℕ)
      → Run p w u
      → Step p u v
      → ((u.sessions q).status ≡ 2
          → contains q (get_sessions (u.sessions q).account_id u.registry) ≡ true)
      → ((u.sessions q).status ≡ 2 → Proven w u q)
      → (v.sessions q).status ≡ 2
      → Proven w v q
  step w q r (started me u new) listed earlier inside =
      extended w q (started me u new) (start-Since p q me u new listed) earlier inside
  step w q r (shaken me fine u) listed earlier inside =
      extended w q (shaken me fine u) ((handshake-Since q u me fine).apply u (Since-refl q u))
        earlier inside
  step w q r (requested me head u) listed earlier inside = any_request w q me head r earlier inside
  step w q r (answered me type id response u) listed earlier inside =
      extended w q (answered me type id response u)
        ((response-Keeps p (Since-Frame q u me) type id response).apply u (Since-refl q u)) earlier
        inside
  step w q r (tasked id u) listed earlier inside =
      extended w q (tasked id u)
        ((user_requests-Keeps p (Since-Frame q u) id).apply u (Since-refl q u)) earlier inside
  step w q r (closed me remove u) listed earlier inside =
      extended w q (closed me remove u) ((close-Since q u me remove).apply u (Since-refl q u))
        earlier inside
  step w q r (cleared u) listed earlier inside =
      extended w q (cleared u) ((cleared-Since q u).apply u (Since-refl q u)) earlier inside

  -- Nobody is logged in without a password: in every run of a server that begins without a session
  -- that is logged in, whatever the clients send and in whatever order sessions start (each while
  -- the map does not hold it), log in and out and end, a session that is logged in has, earlier in
  -- the run and while it was not logged in, sent a login request itself, which named the account
  -- that the session now has, and brought a password that matches the hash and the salt that the
  -- database held for this account then.
  pub Run-Proven :
      (w : World S E) {v : World S E}
      → ((q : ℕ) → (w.sessions q).status < 2)
      → Run p w v
      → (q : ℕ) → (v.sessions q).status ≡ 2
      → Proven w v q
  Run-Proven w out here q inside = absurd (ground (arith, out q))
  Run-Proven w out (next r s) q inside =
      step w q r s (Run-Listed p w out r q) (Run-Proven w out r q) inside

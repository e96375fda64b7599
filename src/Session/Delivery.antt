-- ===== src/Session/Delivery.antt =====
-- How waiting requests come to the client: processUserRequests (src/server.cpp) and processRequests
-- (src/session.cpp).
pub mod Posting
pub mod Contents
pub mod Reaching
pub mod Once
pub mod Outsiders
use mathlib.Core.Path.{subst}
use zway_server.Base.{
  ℕ, Bool, ◌≡◌, refl, ap, ◌∙◌, true, ◌||◌, List, [], ◌∷◌, ◌++◌, arith, ◌==◌, ==→eq, Bool-cases, inl,
  inr,
}
use zway_server.Value.{Elements}
use zway_server.World.{World, Exit, Platform, go, pure, gets, for_each, ◌>>=◌}
use zway_server.Session.Basics
use zway_server.Session.Basics.{self}
use zway_server.Session.Requests
use zway_server.Session.Incoming
use zway_server.Server.Sessions.{get_sessions, contains}
use zway_server.Session.Registered.{Registered}
use zway_server.Db
use zway_server.Db.Laws.{Engines, waiting}
use Posting.{
  postable, type_of, id_of, Held, Onward, Onward-trans, Runs, pure-Runs, request-Runs, request-Held,
}

module _ {S E : Type 0} (p : Platform S E) (engines : Engines p) where
  -- For every request of the list that can be posted, the session's engine holds one of its type and
  -- id.
  abbrev pub AllHeld : ℕ → List Elements → World S E → Type 0
  AllHeld me [] w = Unit {0}
  AllHeld me (d ∷ ds) w =
      (postable p engines (type_of p engines d) ≡ true → Held p engines me d w) × AllHeld me ds w

  AllHeld-Onward :
      (me : ℕ) (ds : List Elements) {v w : World S E}
      → Onward p engines v w
      → AllHeld me ds v
      → AllHeld me ds w
  AllHeld-Onward me [] o h = tt
  AllHeld-Onward me (d ∷ ds) o h = (
    λ can. o.held me (type_of p engines d) (id_of p engines d) (h.0 can),
    AllHeld-Onward me ds o h.1,
  )

  pub AllHeld-append :
      (q : ℕ) (xs ys : List Elements) (w : World S E) → AllHeld q (xs ++ ys) w → AllHeld q ys w
  AllHeld-append q [] ys w h = h
  AllHeld-append q (x ∷ xs) ys w h = AllHeld-append q xs ys w h.1

  pub record Served (me : ℕ) (ds : List Elements) (w : World S E) (r : Exit (Unit {0}) × World S E)
      : Type 0 where
    pub runs : Runs p engines w r
    pub all : AllHeld me ds r.1

  pub loop-Served :
      (me : ℕ) (ds : List Elements) (w : World S E)
      → Served me ds w (for_each ds (Requests.process_request p me) w)
  unfolding for_each ◌>>=◌
  loop-Served me [] w = record { runs = pure-Runs p engines w; all = tt }
  loop-Served me (d ∷ ds) w =
      let one = request-Runs p engines me d w in
      let rest = loop-Served me ds (Requests.process_request p me d w).1 in
      rw one.ends (record {
        runs = record {
          ends = rest.runs.ends;
          onward = Onward-trans p engines one.onward rest.runs.onward;
        };
        all = (
          λ can.
              rest.runs.onward.held me (type_of p engines d) (id_of p engines d)
                (request-Held p engines me d w can),
          rest.all,
        );
      })

  pub run-Served :
      (q : ℕ) (w : World S E)
      → Served q (waiting p (w.sessions q).account_id w.store) w (Incoming.run_requests p q w)
  unfolding Incoming.run_requests Requests.process_requests self Db.get_requests pure gets ◌>>=◌
  run-Served q w =
      let served = loop-Served q (waiting p (w.sessions q).account_id w.store) w in
      rw served.runs.ends
        (record { runs = record { ends = refl; onward = served.runs.onward }; all = served.all })

  -- A session's turn runs to its end, leads onward, and leaves the types and ids of what waits for
  -- its account with its engine.
  pub record Turned (q : ℕ) (w : World S E) (r : Exit Bool × World S E) : Type 0 where
    pub ends : r.0 ≡ go true
    pub onward : Onward p engines w r.1
    pub all : AllHeld q (waiting p (w.sessions q).account_id w.store) r.1

  pub process_requests-Turned :
      (q : ℕ) (w : World S E) → Turned q w (Requests.process_requests p q w)
  unfolding Requests.process_requests self Db.get_requests pure gets ◌>>=◌
  process_requests-Turned q w =
      let served = loop-Served q (waiting p (w.sessions q).account_id w.store) w in
      rw served.runs.ends (record { ends = refl; onward = served.runs.onward; all = served.all })

  pub turns-Runs :
      (qs : List ℕ) (w : World S E) → Runs p engines w (for_each qs (Incoming.run_requests p) w)
  unfolding for_each ◌>>=◌
  turns-Runs [] w = pure-Runs p engines w
  turns-Runs (q ∷ qs) w =
      let one = (run-Served q w).runs in
      let rest = turns-Runs qs (Incoming.run_requests p q w).1 in
      rw one.ends
        (record { ends = rest.ends; onward = Onward-trans p engines one.onward rest.onward })

  turns-AllHeld :
      (qs : List ℕ) (q id : ℕ) (w : World S E)
      → contains q qs ≡ true
      → (w.sessions q).account_id ≡ id
      → AllHeld q (waiting p id w.store) (for_each qs (Incoming.run_requests p) w).1
  unfolding for_each contains ◌>>=◌
  turns-AllHeld [] q id w m e = cc
  turns-AllHeld (x ∷ qs) q id w m e =
      let one = run-Served x w in
      let after = (Incoming.run_requests p x w).1 in
      rw one.runs.ends (elim (Bool-cases (x == q)) [
        | inl hit ↦ AllHeld-Onward q (waiting p id w.store) (turns-Runs qs after).onward (
            rw (← ==→eq x q hit) (
              subst (λ k. AllHeld x (waiting p k w.store) after)
                (ap (λ k. (w.sessions k).account_id) (==→eq x q hit) ∙ e) one.all))
        | inr miss ↦
            subst (λ s. AllHeld q (waiting p id s) (for_each qs (Incoming.run_requests p) after).1)
              one.runs.onward.store
              (turns-AllHeld qs q id after (ground (arith)) (one.runs.onward.accounts q ∙ e))
      ])

  -- After a task for a user, in a server whose map has each session under its own account: for every
  -- session that the map holds under the account, and for every waiting request of a type that the
  -- server posts, the session's engine waits for the answer to a request of that type and id.
  pub requests_held :
      (w : World S E) (q id : ℕ)
      → Registered w
      → contains q (get_sessions id w.registry) ≡ true
      → AllHeld q (waiting p id w.store) (Incoming.process_user_requests p id w).1
  unfolding Incoming.process_user_requests Incoming.serve_sessions Basics.sessions_of contains gets
      ◌>>=◌
  requests_held w q id placed m = by_list (get_sessions id w.registry) m (placed.placed id q m)
    where
      by_list :
          (qs : List ℕ)
          → contains q qs ≡ true
          → (w.sessions q).account_id ≡ id
          → AllHeld q (waiting p id w.store) (Incoming.serve_sessions p id qs w).1
      by_list [] n e = cc
      by_list (x ∷ qs) n e = turns-AllHeld (x ∷ qs) q id w n e

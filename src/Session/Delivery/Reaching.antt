-- ===== src/Session/Delivery/Reaching.antt =====
-- What a task for a user posts: processUserRequests (src/server.cpp) over the turns of the user's
-- sessions (src/session.cpp, processRequests).
use mathlib.Core.Path.{subst}
use mathlib.Core.List.{Mem, mem-cons_self}
use mathlib.Core.Option.{some-injective}
use zway_server.Base.{
  ℕ, ◌≡◌, refl, sym, ap, ◌∙◌, true, false, ◌&&◌, List, [], ◌∷◌, some, arith, ◌==◌, ==→eq,
  Bool-cases, inl, inr,
}
use zway_server.Value.{Ubj, Elements}
use zway_server.World.{World, Platform, posted, pure, gets, for_each, ◌>>=◌}
use zway_server.Server.Sessions.{get_sessions, contains}
use zway_server.Session.Basics
use zway_server.Session.Basics.{self}
use zway_server.Session.Requests
use zway_server.Session.Incoming
use zway_server.Session.Registered.{Registered}
use zway_server.Session.Delivery.{loop-Served, run-Served, turns-Runs}
use zway_server.Session.Delivery.Posting.{postable, type_of, id_of, Onward, request-Runs}
use zway_server.Session.Delivery.Contents.{
  content_of, first_with, contact_status-Onward, request-posts, request-Spares,
}
use zway_server.Db
use zway_server.Db.Laws.{Engines, waiting}

module _ {S E : Type 0} (p : Platform S E) (engines : Engines p) where
  abbrev content : World S E → Elements → Ubj
  content w d = content_of p w (type_of p engines d) (id_of p engines d) d

  -- The session's engine waits for no answer to a request with the document's type and id.
  abbrev pub Fresh : ℕ → Elements → World S E → Type 0
  Fresh q d w = p.pending (w.engines q) (type_of p engines d) (id_of p engines d) ≡ false

  -- The document was posted by the session, with its content in the world w.
  abbrev Posted : ℕ → Elements → World S E → World S E → Type 0
  Posted q d w v = Mem (posted q (type_of p engines d) (id_of p engines d) (content w d)) v.log

  content-Onward :
      {w v : World S E} (d : Elements) → Onward p engines w v → content v d ≡ content w d
  content-Onward d o = rw (contact_status-Onward p engines _ o) refl

  Posted-Onward :
      (q : ℕ) (d : Elements) (v : World S E) {u w : World S E}
      → Onward p engines u w
      → Posted q d w v
      → Posted q d u v
  Posted-Onward q d v {u} {w} o m =
      subst (λ c. Mem (posted q (type_of p engines d) (id_of p engines d) c) v.log)
        (content-Onward d o) m

  loop-posts :
      (me : ℕ) (ds : List Elements) (w : World S E) (d : Elements)
      → postable p engines (type_of p engines d) ≡ true
      → Fresh me d w
      → first_with p (type_of p engines d) (id_of p engines d) ds ≡ some d
      → Posted me d w (for_each ds (Requests.process_request p me) w).1
  unfolding for_each first_with ◌>>=◌
  loop-posts me [] w d can new e = absurd (ground arith)
  loop-posts me (x ∷ ds) w d can new e =
      let one = request-Runs p engines me x w in
      let after = (Requests.process_request p me x w).1 in
      let rest = loop-Served p engines me ds after in
      rw one.ends
        (elim (Bool-cases
          (type_of p engines x == type_of p engines d && id_of p engines x == id_of p engines d)) [
            | inl hit ↦
                let same : x ≡ d = some-injective x d (rw hit at e) in
                rest.runs.onward.logged _ (
                  subst
                    (λ y.
                      Mem (posted me (type_of p engines d) (id_of p engines d) (content w d))
                        (Requests.process_request p me y w).1.log)
                    (sym same) (rw (request-posts p engines me d w can new) mem-cons_self))
            | inr miss ↦
                Posted-Onward me d (for_each ds (Requests.process_request p me) after).1 one.onward
                  (loop-posts me ds after d can
                    (request-Spares p engines me x w me (type_of p engines d) (id_of p engines d)
                        (rw miss (ground arith))
                      ∙ new)
                    (rw miss at e))
          ])

  loop-Spares :
      (me : ℕ) (ds : List Elements) (w : World S E) (q : ℕ) (d : Elements)
      → (me == q) ≡ false
      → Fresh q d w
      → Fresh q d (for_each ds (Requests.process_request p me) w).1
  unfolding for_each pure ◌>>=◌
  loop-Spares me [] w q d other new = new
  loop-Spares me (x ∷ ds) w q d other new =
      let one = request-Runs p engines me x w in
      rw one.ends (
        loop-Spares me ds (Requests.process_request p me x w).1 q d other (
          request-Spares p engines me x w q (type_of p engines d) (id_of p engines d)
            (rw other refl)
          ∙ new))

  run-posts :
      (q : ℕ) (w : World S E) (d : Elements)
      → postable p engines (type_of p engines d) ≡ true
      → Fresh q d w
      → first_with p
          (type_of p engines d)
          (id_of p engines d)
          (waiting p (w.sessions q).account_id w.store)
        ≡ some d
      → Posted q d w (Incoming.run_requests p q w).1
  unfolding Incoming.run_requests Requests.process_requests self Db.get_requests pure gets ◌>>=◌
  run-posts q w d can new e =
      let ds = waiting p (w.sessions q).account_id w.store in
      rw (loop-Served p engines q ds w).runs.ends (loop-posts q ds w d can new e)

  run-Spares :
      (x : ℕ) (w : World S E) (q : ℕ) (d : Elements)
      → (x == q) ≡ false
      → Fresh q d w
      → Fresh q d (Incoming.run_requests p x w).1
  unfolding Incoming.run_requests Requests.process_requests self Db.get_requests pure gets ◌>>=◌
  run-Spares x w q d other new =
      let ds = waiting p (w.sessions x).account_id w.store in
      rw (loop-Served p engines x ds w).runs.ends (loop-Spares x ds w q d other new)

  turns-posts :
      (qs : List ℕ) (q id : ℕ) (w : World S E) (d : Elements)
      → contains q qs ≡ true
      → (w.sessions q).account_id ≡ id
      → postable p engines (type_of p engines d) ≡ true
      → Fresh q d w
      → first_with p (type_of p engines d) (id_of p engines d) (waiting p id w.store) ≡ some d
      → Posted q d w (for_each qs (Incoming.run_requests p) w).1
  unfolding for_each contains ◌>>=◌
  turns-posts [] q id w d m e can new first = cc
  turns-posts (x ∷ qs) q id w d m e can new first =
      let one = (run-Served p engines x w).runs in
      let after = (Incoming.run_requests p x w).1 in
      rw one.ends (elim (Bool-cases (x == q)) [
        | inl hit ↦
            let same = ==→eq x q hit in
            (turns-Runs p engines qs after).onward.logged _ (
              subst
                (λ y.
                  Mem (posted q (type_of p engines d) (id_of p engines d) (content w d))
                    (Incoming.run_requests p y w).1.log)
                (sym same)
                (run-posts q w d can new (
                  subst
                    (λ i.
                      first_with p (type_of p engines d) (id_of p engines d) (waiting p i w.store)
                      ≡ some d)
                    (sym e) first)))
        | inr miss ↦ Posted-Onward q d (for_each qs (Incoming.run_requests p) after).1 one.onward (
            turns-posts qs q id after d (ground arith) (one.onward.accounts q ∙ e) can
              (run-Spares x w q d miss new)
              (ap (λ s. first_with p (type_of p engines d) (id_of p engines d) (waiting p id s))
                  one.onward.store
                ∙ first))
      ])

  -- What a task for a user brings to the user's sessions: in a server whose map has each session
  -- under its own account, each session that the map holds under the account has posted a waiting
  -- request to its client, with the content that the request's type has, where the server posts that
  -- type, the request is the first of those that wait for the account with its type and id (a later
  -- one with the same type and id is skipped, whoever sent it), and the session's engine did not wait
  -- for the answer to one of that type and id before. What is posted stands in the log. The engine
  -- holds what was posted.
  pub requests_reach :
      (w : World S E) (q id : ℕ) (d : Elements)
      → Registered w
      → contains q (get_sessions id w.registry) ≡ true
      → postable p engines (type_of p engines d) ≡ true
      → Fresh q d w
      → first_with p (type_of p engines d) (id_of p engines d) (waiting p id w.store) ≡ some d
      → Mem
          (posted q
            (type_of p engines d)
            (id_of p engines d)
            (content_of p w (type_of p engines d) (id_of p engines d) d))
          (Incoming.process_user_requests p id w).1.log
  unfolding Incoming.process_user_requests Incoming.serve_sessions Basics.sessions_of contains gets
      ◌>>=◌
  requests_reach w q id d placed m can new first =
      by_list (get_sessions id w.registry) m (placed.placed id q m)
    where
      by_list :
          (qs : List ℕ)
          → contains q qs ≡ true
          → (w.sessions q).account_id ≡ id
          → Posted q d w (Incoming.serve_sessions p id qs w).1
      by_list [] n e = cc
      by_list (x ∷ qs) n e = turns-posts (x ∷ qs) q id w d n e can new first

-- ===== src/Session/Delivery/Once.antt =====
-- That waiting requests are posted once (src/session.cpp, processRequests).
use mathlib.Core.Path.{subst}
use zway_server.Base.{ℕ, ◌≡◌, refl, sym, true, false, List, [], ◌∷◌, arith, Bool-cases, inl, inr}
use zway_server.Value.{Elements}
use zway_server.World.{World, Platform, go, pure, gets, for_each, ◌>>=◌}
use zway_server.Session.Basics.{self}
use zway_server.Session.Requests
use zway_server.Session.Delivery.{AllHeld, process_requests-Turned}
use zway_server.Session.Delivery.Posting.{postable, type_of, id_of, Held}
use zway_server.Db
use zway_server.Db.Laws.{Engines, waiting}

module _ {S E : Type 0} (p : Platform S E) (engines : Engines p) where
  unpostable :
      (me id type : ℕ) (d : Elements) (w : World S E)
      → postable p engines type ≡ false
      → Requests.post_by_type p me id type d w ≡ (go tt, w)
  unfolding Requests.post_by_type pure
  unpostable me id type d w no_type = ground arith

  skipped :
      (me : ℕ) (d : Elements) (w : World S E)
      → (postable p engines (type_of p engines d) ≡ true → Held p engines me d w)
      → Requests.process_request p me d w ≡ (go tt, w)
  unfolding Requests.process_request Requests.num gets pure ◌>>=◌
  skipped me d w held =
      elim (Bool-cases (p.pending (w.engines me) (type_of p engines d) (id_of p engines d))) [
        | inl old ↦ rw old refl
        | inr new ↦ elim (Bool-cases (postable p engines (type_of p engines d))) [
          | inl can ↦ absurd (ground (arith, held can))
          | inr no_type ↦
              rw new (unpostable me (id_of p engines d) (type_of p engines d) d w no_type)
        ]
      ]

  all_skipped :
      (me : ℕ) (ds : List Elements) (w : World S E)
      → AllHeld p engines me ds w
      → for_each ds (Requests.process_request p me) w ≡ (go tt, w)
  unfolding for_each pure ◌>>=◌
  all_skipped me [] w h = refl
  all_skipped me (d ∷ ds) w h = rw (skipped me d w h.0) (all_skipped me ds w h.1)

  by_waiting :
      (me : ℕ) (w : World S E)
      → AllHeld p engines me (waiting p (w.sessions me).account_id w.store) w
      → Requests.process_requests p me w ≡ (go true, w)
  unfolding Requests.process_requests self Db.get_requests gets pure ◌>>=◌
  by_waiting me w h = rw (all_skipped me (waiting p (w.sessions me).account_id w.store) w h) refl

  -- A session's turn posts nothing twice: a second turn right after the first, with no answer in
  -- between, returns true and changes nothing, neither an engine nor the log, the contacts or the
  -- database. The engine holds what was posted.
  pub second_turn :
      (me : ℕ) (w : World S E)
      → Requests.process_requests p me (Requests.process_requests p me w).1
        ≡ (go true, (Requests.process_requests p me w).1)
  second_turn me w =
      let first = process_requests-Turned p engines me w in
      let after = (Requests.process_requests p me w).1 in
      by_waiting me after (
        subst (λ id. AllHeld p engines me (waiting p id after.store) after)
          (sym (first.onward.accounts me))
          (subst (λ s. AllHeld p engines me (waiting p (w.sessions me).account_id s) after)
            (sym first.onward.store) first.all))

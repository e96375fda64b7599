-- ===== src/Server/Lifecycle/Stuck.antt =====
-- Where the server stops accepting connections for good (src/server.cpp, handleSession and resume).
use mathlib.Core.Path.{subst}
use zway_server.Base.{
  ℕ, zero, suc, ◌≡◌, refl, sym, ap, ◌∙◌, Bool, true, false, List, [], ◌∷◌, arith, if◌then◌else◌,
}
use zway_server.Server.Lifecycle.{
  AcceptorApi, Completion, connected, failed, aborted, Lifecycle, Event, client, trouble, handle,
  press_pause, press_resume, accept, pause, listening, bound, opened, resume, handle_session,
  take_ready, end_accept, step, run,
}

-- A socket that was opened stays open through `bind` and `listen`, whether or not these throw, and
-- an open acceptor cannot be opened again, which leaves it as it is.
pub record OpenLaws {A : Type 0} (api : AcceptorApi A) : Type 0 where
  pub open_lem :
      (a : A) → (api.open_acceptor a).0 ≡ true → api.is_open (api.open_acceptor a).1 ≡ true
  pub again_lem : (a : A) → api.is_open a ≡ true → api.open_acceptor a ≡ (false, a)
  pub bind_lem : (a : A) → api.is_open a ≡ true → api.is_open (api.bind a).1 ≡ true
  pub listen_lem : (a : A) → api.is_open a ≡ true → api.is_open (api.listen a).1 ≡ true

-- The events that are neither a pause nor a resumption.
abbrev pub Untouched : List Event → Type 0
Untouched [] = Unit {0}
Untouched (press_pause ∷ es) = ⊥
Untouched (press_resume ∷ es) = ⊥
Untouched (client ∷ es) = Untouched es
Untouched (trouble ∷ es) = Untouched es
Untouched (handle ∷ es) = Untouched es

module _ {A : Type 0} (api : AcceptorApi A) where
  idle_client : (c : Completion) (s : Lifecycle A) → s.pending ≡ 0 → end_accept c s.pending s ≡ s
  unfolding end_accept
  idle_client c s p = rw (p, end_accept) refl

  idle_run :
      (es : List Event) (s : Lifecycle A)
      → s.pending ≡ 0
      → s.ready ≡ []
      → Untouched es
      → run api es s ≡ s
  unfolding run step
  idle_run [] s p r u = refl
  idle_run (client ∷ es) s p r u = ap (run api es) (idle_client connected s p) ∙ idle_run es s p r u
  idle_run (trouble ∷ es) s p r u = ap (run api es) (idle_client failed s p) ∙ idle_run es s p r u
  idle_run (handle ∷ es) s p r u =
      ap (run api es) (ap (λ cs. take_ready api cs s) r) ∙ idle_run es s p r u
  idle_run (press_pause ∷ es) s p r u = absurd u
  idle_run (press_resume ∷ es) s p r u = absurd u

  -- One failed accept ends the accepting: where a single accept waits and it fails, then after its
  -- handler nothing changes any more, whoever connects and whatever handlers run, until the server
  -- is paused or resumed; the server is then still not paused, if it was not.
  pub failed_accept_stops :
      (es : List Event) (s : Lifecycle A)
      → s.pending ≡ 1
      → s.ready ≡ []
      → Untouched es
      → run api (trouble ∷ handle ∷ es) s ≡ record s { pending = 0; ready = [] }
  unfolding run step end_accept take_ready handle_session
  failed_accept_stops es s p r u =
      rw (p, r, end_accept, take_ready)
        (idle_run es (record s { pending = 0; ready = [] }) refl refl u)

  module _ (laws : OpenLaws api) where
    -- Paused, over an acceptor that is already open.
    record Jammed (s : Lifecycle A) : Type 0 where
      still : s.paused ≡ true
      taken : api.is_open s.acceptor ≡ true

    handle-Jammed :
        (cs : List Completion) (s : Lifecycle A) → Jammed s → Jammed (take_ready api cs s)
    unfolding take_ready handle_session accept
    handle-Jammed [] s h = h
    handle-Jammed (connected ∷ cs) s h = ground arith
    handle-Jammed (failed ∷ cs) s h = ground arith
    handle-Jammed (aborted ∷ cs) s h = ground arith

    end-Jammed : (c : Completion) (n : ℕ) (s : Lifecycle A) → Jammed s → Jammed (end_accept c n s)
    unfolding end_accept
    end-Jammed c zero s h = h
    end-Jammed c (suc n) s h = ground arith

    pause-Jammed : (s : Lifecycle A) → Jammed s → pause api s ≡ (false, s)
    unfolding pause
    pause-Jammed s h = ground (arith, h.still)

    resume-Jammed : (s : Lifecycle A) → Jammed s → resume api s ≡ (false, s)
    unfolding resume opened
    resume-Jammed s h = rw (h.still, laws.again_lem s.acceptor h.taken)

    step-Jammed : (e : Event) (s : Lifecycle A) → Jammed s → Jammed (step api e s)
    unfolding step
    step-Jammed client s h = end-Jammed connected s.pending s h
    step-Jammed trouble s h = end-Jammed failed s.pending s h
    step-Jammed handle s h = handle-Jammed s.ready s h
    step-Jammed press_pause s h =
        subst (λ (r : Bool × Lifecycle A). Jammed r.1) (sym (pause-Jammed s h)) h
    step-Jammed press_resume s h =
        subst (λ (r : Bool × Lifecycle A). Jammed r.1) (sym (resume-Jammed s h)) h

    run-Jammed : (es : List Event) (s : Lifecycle A) → Jammed s → Jammed (run api es s)
    unfolding run
    run-Jammed [] s h = h
    run-Jammed (e ∷ es) s h = run-Jammed es (step api e s) (step-Jammed e s h)

    listening_failed :
        (r : Bool × A) (s : Lifecycle A)
        → api.is_open r.1 ≡ true
        → s.paused ≡ true
        → (listening api false r s).0 ≡ false
        → Jammed (listening api false r s).1
    unfolding listening
    listening_failed (true, a) s o h bad = cc
    listening_failed (false, a) s o h bad = record { still = h; taken = o }

    bound_failed :
        (r : Bool × A) (s : Lifecycle A)
        → api.is_open r.1 ≡ true
        → s.paused ≡ true
        → (bound api false r s).0 ≡ false
        → Jammed (bound api false r s).1
    unfolding bound
    bound_failed (true, a) s o h bad = listening_failed (api.listen a) s (laws.listen_lem a o) h bad
    bound_failed (false, a) s o h bad = record { still = h; taken = o }

    opened_failed :
        (r : Bool × A) (s : Lifecycle A)
        → r.0 ≡ true
        → api.is_open r.1 ≡ true
        → s.paused ≡ true
        → (opened api r s).0 ≡ false
        → Jammed (opened api r s).1
    unfolding opened
    opened_failed (true, a) s e o h bad = bound_failed (api.bind a) s (laws.bind_lem a o) h bad
    opened_failed (false, a) s e o h bad = cc

    resume_failed :
        (s : Lifecycle A)
        → s.paused ≡ true
        → (api.open_acceptor s.acceptor).0 ≡ true
        → (resume api s).0 ≡ false
        → Jammed (resume api s).1
    unfolding resume
    resume_failed s h fine bad =
        let e = ap (λ b. if b then opened api (api.open_acceptor s.acceptor) s else (false, s)) h in
        subst (λ (r : Bool × Lifecycle A). Jammed r.1) (sym e)
          (opened_failed (api.open_acceptor s.acceptor) s fine (laws.open_lem s.acceptor fine) h
            (sym (ap (λ (r : Bool × Lifecycle A). r.0) e) ∙ bad))

    -- A resumption that fails once its acceptor is open again, because the address is still in use
    -- or the system does not let it listen, fails for good: whatever happens later, the server stays
    -- paused, and every further resumption and every pause returns false and changes nothing.
    pub resume_jams :
        (s : Lifecycle A) (es : List Event)
        → s.paused ≡ true
        → (api.open_acceptor s.acceptor).0 ≡ true
        → (resume api s).0 ≡ false
        → ((run api es (resume api s).1).paused ≡ true)
          × (resume api (run api es (resume api s).1) ≡ (false, run api es (resume api s).1))
          × (pause api (run api es (resume api s).1) ≡ (false, run api es (resume api s).1))
    resume_jams s es h fine bad =
        let jammed = run-Jammed es (resume api s).1 (resume_failed s h fine bad) in
        let last = run api es (resume api s).1 in
        (jammed.still, resume-Jammed last jammed, pause-Jammed last jammed)

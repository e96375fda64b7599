-- ===== src/Server/Lifecycle/Accepting.antt =====
-- Whether the server goes on accepting connections (src/server.cpp).
use zway_server.Base.{
  ℕ, zero, suc, ◌+◌, ◌<◌, ◌≡◌, refl, ap, Bool, true, false, List, [], ◌∷◌, ◌++◌, arith, if_cases,
  Bool-cases, inl, inr,
}
use zway_server.Server.Lifecycle.{
  AcceptorApi, Completion, connected, failed, aborted, Lifecycle, Event, client, trouble, handle,
  press_pause, press_resume, accept, closed_by, pause, listening, bound, opened, resume,
  handle_session, optioned, first_opened, start, take_ready, end_accept, step, run, new,
}

-- An acceptor that listens without an exception can accept.
pub record Laws {A : Type 0} (api : AcceptorApi A) : Type 0 where
  pub listen_lem : (a : A) → (api.listen a).0 ≡ true → api.can_accept (api.listen a).1 ≡ true

-- The clients whose handler has not run yet.
abbrev pub clients : List Completion → ℕ
clients [] = 0
clients (connected ∷ cs) = suc (clients cs)
clients (failed ∷ cs) = clients cs
clients (aborted ∷ cs) = clients cs

-- No accept fails while it waits.
abbrev pub Untroubled : List Event → Type 0
Untroubled [] = Unit {0}
Untroubled (trouble ∷ es) = ⊥
Untroubled (client ∷ es) = Untroubled es
Untroubled (handle ∷ es) = Untroubled es
Untroubled (press_pause ∷ es) = Untroubled es
Untroubled (press_resume ∷ es) = Untroubled es

clients-append : (xs ys : List Completion) → clients (xs ++ ys) ≡ clients xs + clients ys
clients-append [] ys = omega arith
clients-append (connected ∷ xs) ys = omega (arith, clients-append xs ys)
clients-append (failed ∷ xs) ys = clients-append xs ys
clients-append (aborted ∷ xs) ys = clients-append xs ys

module _ {A : Type 0} (api : AcceptorApi A) where
  -- A server that is not paused can accept, and an accept waits or a client's handler is to run.
  pub record Accepting (s : Lifecycle A) : Type 0 where
    pub able : s.paused ≡ false → api.can_accept s.acceptor ≡ true
    pub waits : s.paused ≡ false → 0 < s.pending + clients s.ready

  -- No pause on the way fails: whenever one is tried, closing the acceptor does not throw.
  abbrev pub Smooth : List Event → Lifecycle A → Type 0
  Smooth [] s = Unit {0}
  Smooth (client ∷ es) s = Smooth es (step api client s)
  Smooth (trouble ∷ es) s = Smooth es (step api trouble s)
  Smooth (handle ∷ es) s = Smooth es (step api handle s)
  Smooth (press_pause ∷ es) s =
      (s.paused ≡ false → (api.close_acceptor s.acceptor).0 ≡ true)
      × Smooth es (step api press_pause s)
  Smooth (press_resume ∷ es) s = Smooth es (step api press_resume s)

  module _ (laws : Laws api) where
    close-Accepting :
        (r : Bool × A) (s : Lifecycle A) → r.0 ≡ true → Accepting (closed_by api r s).1
    unfolding closed_by
    close-Accepting (true, a) s e = record { able = λ h. cc; waits = λ h. absurd (ground arith) }
    close-Accepting (false, a) s e = cc

    pause-Accepting :
        (s : Lifecycle A)
        → (s.paused ≡ false → (api.close_acceptor s.acceptor).0 ≡ true)
        → Accepting s
        → Accepting (pause api s).1
    unfolding pause
    pause-Accepting s fine h =
        if_cases (λ (r : Bool × Lifecycle A). Accepting r.1) s.paused (λ _. h)
          λ unpaused. close-Accepting (api.close_acceptor s.acceptor) s (fine unpaused)

    listened :
        (later : Bool) (a : A) (s : Lifecycle A)
        → api.can_accept a ≡ true
        → Accepting (record (accept api (record s { acceptor = a })) { paused = later })
    unfolding accept
    listened later a s can = record { able = λ h. rw can can; waits = λ h. rw can (omega arith) }

    -- A resumption, from each of its calls on.
    listening-Accepting :
        (later : Bool) (r : Bool × A) (s : Lifecycle A)
        → (r.0 ≡ true → api.can_accept r.1 ≡ true)
        → s.paused ≡ true
        → Accepting (listening api later r s).1
    unfolding listening
    listening-Accepting later (true, a) s l h = listened later a s (l refl)
    listening-Accepting later (false, a) s l h = record {
      able = λ k. cc;
      waits = λ k. absurd (ground arith);
    }

    bound-Accepting :
        (later : Bool) (r : Bool × A) (s : Lifecycle A)
        → s.paused ≡ true
        → Accepting (bound api later r s).1
    unfolding bound
    bound-Accepting later (true, a) s h =
        listening-Accepting later (api.listen a) s (laws.listen_lem a) h
    bound-Accepting later (false, a) s h = record {
      able = λ k. cc;
      waits = λ k. absurd (ground arith);
    }

    opened-Accepting :
        (r : Bool × A) (s : Lifecycle A) → s.paused ≡ true → Accepting (opened api r s).1
    unfolding opened
    opened-Accepting (true, a) s h = bound-Accepting false (api.bind a) s h
    opened-Accepting (false, a) s h = record { able = λ k. cc; waits = λ k. absurd (ground arith) }

    resume-Accepting : (s : Lifecycle A) → Accepting s → Accepting (resume api s).1
    unfolding resume
    resume-Accepting s h =
        if_cases (λ (r : Bool × Lifecycle A). Accepting r.1) s.paused
          (λ e. opened-Accepting (api.open_acceptor s.acceptor) s e) λ _. h

    -- A start that succeeds, from each of its calls on.
    listening_started :
        (later : Bool) (r : Bool × A) (s : Lifecycle A)
        → (r.0 ≡ true → api.can_accept r.1 ≡ true)
        → (listening api later r s).0 ≡ true
        → Accepting (listening api later r s).1
    unfolding listening
    listening_started later (true, a) s l h = listened later a s (l refl)
    listening_started later (false, a) s l h = cc

    bound_started :
        (later : Bool) (r : Bool × A) (s : Lifecycle A)
        → (bound api later r s).0 ≡ true
        → Accepting (bound api later r s).1
    unfolding bound
    bound_started later (true, a) s h =
        listening_started later (api.listen a) s (laws.listen_lem a) h
    bound_started later (false, a) s h = cc

    optioned_started :
        (r : Bool × A) (s : Lifecycle A)
        → (optioned api r s).0 ≡ true
        → Accepting (optioned api r s).1
    unfolding optioned
    optioned_started (true, a) s h = bound_started s.paused (api.bind a) s h
    optioned_started (false, a) s h = cc

    opened_started :
        (r : Bool × A) (s : Lifecycle A)
        → (first_opened api r s).0 ≡ true
        → Accepting (first_opened api r s).1
    unfolding first_opened
    opened_started (true, a) s h = optioned_started (api.reuse_address a) s h
    opened_started (false, a) s h = cc

    start-Accepting :
        (database prepared : Bool) (s : Lifecycle A)
        → (start api database prepared s).0 ≡ true
        → Accepting (start api database prepared s).1
    unfolding start
    start-Accepting true true s h = opened_started (api.open_acceptor s.acceptor) s h
    start-Accepting true false s h = cc
    start-Accepting false prepared s h = cc

    handle-Accepting :
        (cs : List Completion) (s : Lifecycle A)
        → s.ready ≡ cs
        → Accepting s
        → Accepting (take_ready api cs s)
    unfolding take_ready handle_session accept
    handle-Accepting [] s e h = h
    handle-Accepting (connected ∷ cs) s e h = elim (Bool-cases (api.can_accept s.acceptor)) [
      | inl can ↦ rw can (record { able = λ k. can; waits = λ k. omega arith })
      | inr shut ↦ rw shut (record { able = λ k. h.able k; waits = λ k. cc (h.able k) })
    ]
    handle-Accepting (failed ∷ cs) s e h = record {
      able = h.able;
      waits = λ k. omega (arith, h.waits k, ap clients e);
    }
    handle-Accepting (aborted ∷ cs) s e h = record {
      able = h.able;
      waits = λ k. omega (arith, h.waits k, ap clients e);
    }

    client-Accepting :
        (n : ℕ) (s : Lifecycle A)
        → s.pending ≡ n
        → Accepting s
        → Accepting (end_accept connected n s)
    unfolding end_accept
    client-Accepting zero s e h = h
    client-Accepting (suc n) s e h = record {
      able = h.able;
      waits = λ k. omega (arith, clients-append s.ready (connected ∷ []));
    }

    run-Accepting :
        (es : List Event) (s : Lifecycle A)
        → Untroubled es
        → Smooth es s
        → Accepting s
        → Accepting (run api es s)
    unfolding run step
    run-Accepting [] s u m h = h
    run-Accepting (client ∷ es) s u m h =
        run-Accepting es (step api client s) u m (client-Accepting s.pending s refl h)
    run-Accepting (trouble ∷ es) s u m h = absurd u
    run-Accepting (handle ∷ es) s u m h =
        run-Accepting es (step api handle s) u m (handle-Accepting s.ready s refl h)
    run-Accepting (press_pause ∷ es) s u m h =
        run-Accepting es (step api press_pause s) u m.1 (pause-Accepting s m.0 h)
    run-Accepting (press_resume ∷ es) s u m h =
        run-Accepting es (step api press_resume s) u m (resume-Accepting s h)

    -- After a successful start, and however clients come, handlers run, the server is paused, and it
    -- is resumed, with or without success: as long as no waiting accept fails and no pause fails,
    -- that is, closing the acceptor throws in none, a server that is not paused goes on accepting; its acceptor can accept, and an accept waits or the handler of a
    -- client, which will start the next one, is still to run.
    pub run-start-Accepting :
        (database prepared : Bool) (a : A) (es : List Event)
        → (start api database prepared (new a)).0 ≡ true
        → Untroubled es
        → Smooth es (start api database prepared (new a)).1
        → Accepting (run api es (start api database prepared (new a)).1)
    run-start-Accepting database prepared a es h u m =
        run-Accepting es (start api database prepared (new a)).1 u m
          (start-Accepting database prepared (new a) h)

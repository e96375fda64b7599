-- ===== src/Server/Lifecycle/Closing.antt =====
-- What is left to do once the server is closed (src/server.cpp, Server::close and handleSession).
use zway_server.Base.{
  ℕ, zero, suc, ◌+◌, ◌≤◌, ◌≡◌, refl, ap, Bool, false, List, [], ◌∷◌, ◌++◌, arith,
}
use zway_server.Server.Lifecycle.{
  AcceptorApi, Completion, connected, failed, aborted, Lifecycle, Event, handle, aborts, accept,
  closed, close, handle_session, take_ready, step, run,
}

-- Closing leaves an acceptor that cannot accept, whether or not it reports an error.
pub record CloseLaws {A : Type 0} (api : AcceptorApi A) : Type 0 where
  pub shut_lem : (a : A) → api.can_accept (api.close_acceptor a).1 ≡ false

-- The handlers that will have run when all the ended accepts are handled: a client's starts one
-- more accept, whose handler runs too.
abbrev pub work : List Completion → ℕ
work [] = 0
work (connected ∷ cs) = 2 + work cs
work (failed ∷ cs) = 1 + work cs
work (aborted ∷ cs) = 1 + work cs

-- The connections whose handler has not run yet.
abbrev pub arrivals : List Completion → ℕ
arrivals [] = 0
arrivals (connected ∷ cs) = suc (arrivals cs)
arrivals (failed ∷ cs) = arrivals cs
arrivals (aborted ∷ cs) = arrivals cs

abbrev pub handles : ℕ → List Event
handles zero = []
handles (suc n) = handle ∷ handles n

work-append : (xs ys : List Completion) → work (xs ++ ys) ≡ work xs + work ys
work-append [] ys = omega arith
work-append (connected ∷ xs) ys = omega (arith, work-append xs ys)
work-append (failed ∷ xs) ys = omega (arith, work-append xs ys)
work-append (aborted ∷ xs) ys = omega (arith, work-append xs ys)

arrivals-append : (xs ys : List Completion) → arrivals (xs ++ ys) ≡ arrivals xs + arrivals ys
arrivals-append [] ys = omega arith
arrivals-append (connected ∷ xs) ys = omega (arith, arrivals-append xs ys)
arrivals-append (failed ∷ xs) ys = arrivals-append xs ys
arrivals-append (aborted ∷ xs) ys = arrivals-append xs ys

arrivals-aborts : (n : ℕ) → arrivals (aborts n) ≡ 0
arrivals-aborts zero = refl
arrivals-aborts (suc n) = arrivals-aborts n

work-aborts : (n : ℕ) → work (aborts n) ≡ n
work-aborts zero = refl
work-aborts (suc n) = omega (arith, work-aborts n)

module _ {A : Type 0} (api : AcceptorApi A) where
  -- Nothing waits, the acceptor is closed, and in the end `total` sessions will have been started.
  record Closing (n total : ℕ) (s : Lifecycle A) : Type 0 where
    shut : api.can_accept s.acceptor ≡ false
    quiet : s.pending ≡ 0
    left : work s.ready ≤ n
    starts : s.started + arrivals s.ready ≡ total

  take-Closing :
      (n total : ℕ) (cs : List Completion) (s : Lifecycle A)
      → s.ready ≡ cs
      → Closing (suc n) total s
      → Closing n total (take_ready api cs s)
  unfolding take_ready handle_session accept
  take-Closing n total [] s e h = record {
    shut = h.shut;
    quiet = h.quiet;
    left = omega (arith, ap work e);
    starts = h.starts;
  }
  take-Closing n total (connected ∷ cs) s e h = rw h.shut (record {
    shut = h.shut;
    quiet = h.quiet;
    left = omega (arith, h.left, ap work e, work-append cs (failed ∷ []));
    starts = omega (arith, h.starts, ap arrivals e, arrivals-append cs (failed ∷ []));
  })
  take-Closing n total (failed ∷ cs) s e h = record {
    shut = h.shut;
    quiet = h.quiet;
    left = omega (arith, h.left, ap work e);
    starts = omega (arith, h.starts, ap arrivals e);
  }
  take-Closing n total (aborted ∷ cs) s e h = record {
    shut = h.shut;
    quiet = h.quiet;
    left = omega (arith, h.left, ap work e);
    starts = omega (arith, h.starts, ap arrivals e);
  }

  no_work : (cs : List Completion) → work cs ≤ 0 → cs ≡ []
  no_work [] h = refl
  no_work (connected ∷ cs) h = absurd (omega arith)
  no_work (failed ∷ cs) h = absurd (omega arith)
  no_work (aborted ∷ cs) h = absurd (omega arith)

  handles-Closing :
      (n total : ℕ) (s : Lifecycle A)
      → Closing n total s
      → ((run api (handles n) s).pending ≡ 0)
        × ((run api (handles n) s).ready ≡ [])
        × ((run api (handles n) s).started ≡ total)
  unfolding run step
  handles-Closing zero total s h =
      let none_left = no_work s.ready h.left in
      (h.quiet, none_left, omega (arith, h.starts, ap arrivals none_left))
  handles-Closing (suc n) total s h =
      handles-Closing n total (step api handle s) (take-Closing n total s.ready s refl h)

  closed-Closing :
      (r : Bool × A) (s : Lifecycle A)
      → api.can_accept r.1 ≡ false
      → Closing (work s.ready + s.pending) (s.started + arrivals s.ready) (closed api r s)
  unfolding closed
  closed-Closing r s shut = record {
    shut = shut;
    quiet = refl;
    left = omega (arith, work-append s.ready (aborts s.pending), work-aborts s.pending);
    starts = omega (arith, arrivals-append s.ready (aborts s.pending), arrivals-aborts s.pending);
  }

  module _ (laws : CloseLaws api) where
    -- The accepts of a server that was closed, whether or not closing its acceptor reports an error,
    -- run out: none waits, and after the handlers of those that had ended or were aborted, those of
    -- connections twice as many, since each starts an accept that fails, no accept's handler is left.
    -- The session of each connection whose handler had not run before the close is started all the
    -- same, and no other. Whether an acceptor is closed by a close that reports an error is Asio's
    -- promise.
    pub close-drains :
        (s : Lifecycle A)
        → ((run api (handles (work s.ready + s.pending)) (close api s)).pending ≡ 0)
          × ((run api (handles (work s.ready + s.pending)) (close api s)).ready ≡ [])
          × ((run api (handles (work s.ready + s.pending)) (close api s)).started
              ≡ s.started + arrivals s.ready)
    unfolding close
    close-drains s =
        handles-Closing (work s.ready + s.pending) (s.started + arrivals s.ready)
          (closed api (api.close_acceptor s.acceptor) s)
          (closed-Closing (api.close_acceptor s.acceptor) s (laws.shut_lem s.acceptor))

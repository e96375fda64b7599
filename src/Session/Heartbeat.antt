-- ===== src/Session/Heartbeat.antt =====
-- The heartbeat timer of a session: ClientSession::resetTimer, pauseTimer and onTimer
-- (src/session.cpp). Boost's deadline timer is its waits and the handlers that are ready to run;
-- setting or cancelling it aborts the waits. The body of onTimer is commented out.
use mathlib.Core.Path.{subst}
use zway_server.Base.{
  refl, ap, ◌∙◌, ℕ, zero, suc, ◌+◌, ◌≤◌, ◌≡◌, Bool, true, false, List, [], ◌∷◌, ◌++◌, arith, length,
  length-append,
}

-- Milliseconds.
abbrev pub heartbeat_timeout : ℕ
heartbeat_timeout = 40000

-- `ready` tells of each handler whether it is called with an error; `handled` counts those that ran.
pub record Timer : Type 0 where
  pub deadline : ℕ
  pub waits : ℕ
  pub ready : List Bool
  pub handled : ℕ

pub data Event : Type 0 where
  reset : ℕ → Event
  pause : Event
  expire : Event
  handle : Event

abbrev aborted : ℕ → List Bool
aborted zero = []
aborted (suc n) = true ∷ aborted n

unfoldable pub pause_timer : Timer → Timer
pause_timer t = record t { waits = 0; ready = t.ready ++ aborted t.waits }

-- `now` is the time of the call.
unfoldable pub reset_timer : ℕ → Timer → Timer
unfolding pause_timer
reset_timer now t = record (pause_timer t) {
  deadline = now + heartbeat_timeout;
  waits = (pause_timer t).waits + 1;
}

expired : ℕ → Timer → Timer
expired zero t = t
expired (suc n) t = record t { waits = n; ready = t.ready ++ false ∷ [] }

-- Nothing is done, with or without an error.
handled : List Bool → Timer → Timer
handled [] t = t
handled (error ∷ rest) t = record t { ready = rest; handled = t.handled + 1 }

unfoldable pub step : Event → Timer → Timer
unfolding reset_timer expired handled
step (reset now) t = reset_timer now t
step pause t = pause_timer t
step expire t = expired t.waits t
step handle t = handled t.ready t

unfoldable pub run : List Event → Timer → Timer
unfolding step
run [] t = t
run (e ∷ es) t = run es (step e t)

unfoldable pub new : Timer
new = record { deadline = 0; waits = 0; ready = []; handled = 0 }

-- The times that the timer was set.
abbrev pub resets : List Event → ℕ
resets [] = 0
resets (reset now ∷ es) = resets es + 1
resets (pause ∷ es) = resets es
resets (expire ∷ es) = resets es
resets (handle ∷ es) = resets es

length-aborted : (n : ℕ) → length (aborted n) ≡ n
length-aborted zero = omega arith
length-aborted (suc n) = omega (arith, length-aborted n)

-- The handlers of a timer: waiting, ready or done.
abbrev owed : Timer → ℕ
owed t = t.waits + length t.ready + t.handled

record Tidy (n : ℕ) (t : Timer) : Type 0 where
  single : t.waits ≤ 1
  accounted : owed t ≡ n

paused-owed : (t : Timer) → owed (pause_timer t) ≡ owed t
unfolding pause_timer
paused-owed t = omega (arith, length-append t.ready (aborted t.waits), length-aborted t.waits)

expired-Tidy : (n w : ℕ) (t : Timer) → t.waits ≡ w → Tidy n t → Tidy n (expired w t)
unfolding expired
expired-Tidy n zero t e h = h
expired-Tidy n (suc w) t e h = record {
  single = omega (arith, e, h.single);
  accounted = omega (arith, e, h.accounted, length-append t.ready (false ∷ []));
}

handled-Tidy : (n : ℕ) (l : List Bool) (t : Timer) → t.ready ≡ l → Tidy n t → Tidy n (handled l t)
unfolding handled
handled-Tidy n [] t e h = h
handled-Tidy n (error ∷ rest) t e h = record {
  single = h.single;
  accounted =
      let l : length t.ready ≡ length (error ∷ rest) = ap length e in omega (arith, l, h.accounted);
}

paused-Tidy : (n : ℕ) (t : Timer) → Tidy n t → Tidy n (pause_timer t)
unfolding pause_timer
paused-Tidy n t h = record { single = omega arith; accounted = paused-owed t ∙ h.accounted }

reset-Tidy : (now n : ℕ) (t : Timer) → Tidy n t → Tidy (n + 1) (reset_timer now t)
unfolding reset_timer pause_timer
reset-Tidy now n t h = record {
  single = omega arith;
  accounted = omega (arith, paused-owed t, h.accounted);
}

run-Tidy : (es : List Event) (n : ℕ) (t : Timer) → Tidy n t → Tidy (n + resets es) (run es t)
unfolding run step
run-Tidy [] n t h = record { single = h.single; accounted = omega (arith, h.accounted) }
run-Tidy (reset now ∷ es) n t h =
    let k : n + 1 + resets es ≡ n + (resets es + 1) = omega arith in
    subst (λ k. Tidy k (run es (reset_timer now t))) k
      (run-Tidy es (n + 1) (reset_timer now t) (reset-Tidy now n t h))
run-Tidy (pause ∷ es) n t h = run-Tidy es n (pause_timer t) (paused-Tidy n t h)
run-Tidy (expire ∷ es) n t h = run-Tidy es n (expired t.waits t) (expired-Tidy n t.waits t refl h)
run-Tidy (handle ∷ es) n t h = run-Tidy es n (handled t.ready t) (handled-Tidy n t.ready t refl h)

-- However the timer of a session is set, paused and runs out: at most one wait is pending, and each
-- setting has led to one wait, whose handler is pending, ready or has run.
pub run-new-waits :
    (es : List Event)
    → ((run es new).waits ≤ 1)
      × ((run es new).waits + length (run es new).ready + (run es new).handled ≡ resets es)
unfolding new
run-new-waits es =
    let t = run-Tidy es 0 new (record { single = omega arith; accounted = omega arith }) in
    (t.single, t.accounted ∙ omega arith)

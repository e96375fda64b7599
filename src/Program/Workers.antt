-- ===== src/Program/Workers.antt =====
-- The worker threads (src/main.cpp) and the database connections they share (src/server.cpp,
-- Server::start; src/db.cpp, DB::acquire).
use zway_server.Base.{
  ℕ, zero, suc, ◌+◌, ◌%◌, ◌^◌, ◌≤◌, ◌<◌, ◌≡◌, ap, ◌&&◌, Option, none, some, arith, ltb, if_cases,
  if◌then◌else◌,
}
use zway_server.Pool.{Pool, startup, run}
use zway_server.Pool.Exhaustion.{HasBroken, rush, run-startup-HasBroken}

-- The loop that creates the workers, `i` of which run; it stops with `none` where the rounds end
-- first. `num_workers` is the option as `uint32_t`, to which the comparison converts it.
unfoldable pub create_workers : ℕ → ℕ → ℕ → Option ℕ
create_workers zero i num_workers = none
create_workers (suc rounds) i num_workers =
    let rest = create_workers rounds ((i + 1) % 2 ^ 32) num_workers in
    if ltb i num_workers && ltb i 50 then rest else some i

abbrev pub least : ℕ → ℕ → ℕ
least a b = if ltb a b then a else b

-- `DB::startup("127.0.0.1", 25)` with the given number of workers and the main thread, which runs
-- handlers as a daemon and the server's `info` at the console.
unfoldable pub crew : ℕ → Pool
crew workers = startup 25 (workers + 1)

create_workers-from :
    (rounds i num_workers : ℕ)
    → i ≤ least num_workers 50
    → 50 < rounds + i
    → create_workers rounds i num_workers ≡ some (least num_workers 50)
unfolding create_workers
create_workers-from zero i n h r = absurd (ground arith)
create_workers-from (suc rounds) i n h r =
    if_cases (λ o. o ≡ some (least n 50)) (ltb i n && ltb i 50)
      (λ e.
        let small : i < 50 = ground arith in
        let next : (i + 1) % 2 ^ 32 ≡ i + 1 = omega arith in
        rw next (create_workers-from rounds (i + 1) n (ground arith) (omega arith)))
      λ e. ap some (ground arith)

-- The loop ends within 51 rounds, and creates as many workers as the option says, at most 50.
pub create_workers-least :
    (num_workers : ℕ) → create_workers 51 0 num_workers ≡ some (least num_workers 50)
create_workers-least n = create_workers-from 51 0 n (ground arith) (omega arith)

-- With 25 workers or more, whatever the number the option gives, there is a schedule in which a
-- thread is given a null lock: the pool has 25 connections.
pub crew-HasBroken :
    (num_workers workers : ℕ)
    → create_workers 51 0 num_workers ≡ some workers
    → 25 ≤ num_workers
    → HasBroken (run (rush 25) (crew workers)).threads
unfolding crew
crew-HasBroken n workers e h =
    let all = create_workers-least n in
    let made : workers ≡ least n 50 = cc in
    run-startup-HasBroken 25 (workers + 1) (ground (arith, made))

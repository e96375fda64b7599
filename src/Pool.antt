-- ===== src/Pool.antt =====
-- The pool of database connections: DB::startup, acquire, getConnection and Connection::Lock
-- (include/db.h, src/db.cpp). The queue is `m_connections`; a thread is where it stands in
-- `acquire` and in the use of its lock. Each access to the queue is atomic under its mutex.
pub mod Conservation
pub mod Exhaustion
pub mod Opening
pub mod Examples
use zway_server.Base.{
  ℕ, zero, suc, ◌+◌, ◌≡◌, List, [], ◌∷◌, ◌++◌, Option, none, some, ◌==◌, if◌then◌else◌,
}

-- `broken`: `acquire` has returned a null lock, which its callers use.
pub data Thread : Type 0 where
  idle : Thread
  waiting : Thread
  holding : ℕ → Thread
  broken : Thread

pub record Pool : Type 0 where
  pub connections : List ℕ
  pub threads : List Thread

-- `getConnection`: the first of the queue, and the rest.
unfoldable pub get_connection : List ℕ → Option ℕ × List ℕ
get_connection [] = (none, [])
get_connection (c ∷ cs) = (some c, cs)

-- `Lock::unlock`.
unfoldable pub unlock : List ℕ → ℕ → List ℕ
unlock cs c = cs ++ c ∷ []

got : Thread → Option ℕ × List ℕ → Thread × List ℕ
got otherwise (none, cs) = (otherwise, cs)
got otherwise (some c, cs) = (holding c, cs)

-- The next step of a thread: from `acquire`'s first attempt to the wait for 10 seconds, from there
-- by the second attempt, and from a lock back to the queue. What wakes a waiting thread, the
-- condition or the time, is not told apart.
unfoldable pub advance : Thread → List ℕ → Thread × List ℕ
unfolding get_connection unlock got
advance idle cs = got waiting (get_connection cs)
advance waiting cs = got broken (get_connection cs)
advance (holding c) cs = (idle, unlock cs c)
advance broken cs = (broken, cs)

put_first : Thread × List ℕ → List Thread → Pool
put_first (t, cs) ts = record { connections = cs; threads = t ∷ ts }

keep_first : Thread → Pool → Pool
keep_first t p = record p { threads = t ∷ p.threads }

-- One step of the thread with the given number; a number that no thread has does nothing.
unfoldable pub step : ℕ → List Thread → List ℕ → Pool
unfolding put_first keep_first advance
step i [] cs = record { connections = cs; threads = [] }
step zero (t ∷ ts) cs = put_first (advance t cs) ts
step (suc i) (t ∷ ts) cs = keep_first t (step i ts cs)

-- A schedule: which thread goes next.
unfoldable pub run : List ℕ → Pool → Pool
unfolding step
run [] p = p
run (i ∷ is) p = run is (step i p.threads p.connections)

unfoldable pub all_idle : ℕ → List Thread
all_idle zero = []
all_idle (suc n) = idle ∷ all_idle n

unfoldable pub up_to : ℕ → List ℕ
up_to zero = []
up_to (suc n) = up_to n ++ n ∷ []

-- `startup` with n connections, numbered, before the first request of one of the threads.
unfoldable pub startup : ℕ → ℕ → Pool
unfolding all_idle up_to
startup connections threads = record { connections = up_to connections; threads = all_idle threads }

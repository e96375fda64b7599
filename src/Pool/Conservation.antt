-- ===== src/Pool/Conservation.antt =====
-- Where the connections are in the schedules of the threads (src/db.cpp).
use zway_server.Base.{
  ℕ, zero, suc, ◌+◌, ◌≤◌, ◌≡◌, refl, ◌∙◌, List, [], ◌∷◌, ◌++◌, arith, ltb, ◌==◌, length,
  length-append, if◌then◌else◌,
}
use zway_server.Pool.{
  Thread, idle, waiting, holding, broken, Pool, advance, step, run, all_idle, up_to, startup,
}

-- How often a connection is in the queue, and how many threads hold it.
unfoldable pub queued : ℕ → List ℕ → ℕ
queued c [] = 0
queued c (x ∷ xs) = if x == c then suc (queued c xs) else queued c xs

unfoldable pub holds : ℕ → Thread → ℕ
holds c (holding x) = if x == c then 1 else 0
holds c idle = 0
holds c waiting = 0
holds c broken = 0

unfoldable pub held : ℕ → List Thread → ℕ
unfolding holds
held c [] = 0
held c (t ∷ ts) = holds c t + held c ts

-- The threads that have a lock.
abbrev is_holder : Thread → ℕ
is_holder (holding x) = 1
is_holder _ = 0

unfoldable pub holders : List Thread → ℕ
holders [] = 0
holders (t ∷ ts) = is_holder t + holders ts

queued-append : (c : ℕ) (xs ys : List ℕ) → queued c (xs ++ ys) ≡ queued c xs + queued c ys
unfolding queued
queued-append c [] ys = omega arith
queued-append c (x ∷ xs) ys = ground (arith, queued-append c xs ys)

advance-total :
    (c : ℕ) (t : Thread) (cs : List ℕ)
    → queued c (advance t cs).1 + holds c (advance t cs).0 ≡ queued c cs + holds c t
unfolding advance queued holds
advance-total c idle [] = refl
advance-total c idle (x ∷ cs) = ground arith
advance-total c waiting [] = refl
advance-total c waiting (x ∷ cs) = ground arith
advance-total c (holding x) cs = ground (arith, queued-append c cs (x ∷ []))
advance-total c broken cs = refl

step-total :
    (c i : ℕ) (ts : List Thread) (cs : List ℕ)
    → queued c (step i ts cs).connections + held c (step i ts cs).threads ≡ queued c cs + held c ts
unfolding step held
step-total c i [] cs = refl
step-total c zero (t ∷ ts) cs = omega (arith, advance-total c t cs)
step-total c (suc i) (t ∷ ts) cs = omega (arith, step-total c i ts cs)

-- In every schedule a connection is, counted over the queue and over all threads' locks, there as
-- often as at the start.
pub run-total :
    (c : ℕ) (is : List ℕ) (p : Pool)
    → queued c (run is p).connections + held c (run is p).threads
      ≡ queued c p.connections + held c p.threads
unfolding run
run-total c [] p = refl
run-total c (i ∷ is) p =
    run-total c is (step i p.threads p.connections) ∙ step-total c i p.threads p.connections

queued-up_to : (c n : ℕ) → queued c (up_to n) ≡ (if ltb c n then 1 else 0)
unfolding up_to queued
queued-up_to c zero = ground arith
queued-up_to c (suc n) = ground (arith, queued-append c (up_to n) (n ∷ []), queued-up_to c n)

held-all_idle : (c n : ℕ) → held c (all_idle n) ≡ 0
unfolding all_idle held
held-all_idle c zero = refl
held-all_idle c (suc n) = omega (arith, held-all_idle c n)

-- In every schedule from the startup with n connections, each number below n is one connection
-- that is either in the queue once or held by one thread, and no other connection appears.
pub run-startup-total :
    (c n threads : ℕ) (is : List ℕ)
    → queued c (run is (startup n threads)).connections
        + held c (run is (startup n threads)).threads
      ≡ (if ltb c n then 1 else 0)
unfolding startup
run-startup-total c n threads is =
    omega (arith, run-total c is (startup n threads), queued-up_to c n, held-all_idle c threads)

-- The thread neither waits for a connection nor was refused one.
abbrev pub Served : Thread → Type 0
Served idle = Unit {0}
Served (holding c) = Unit {0}
Served waiting = ⊥
Served broken = ⊥

abbrev pub AllServed : List Thread → Type 0
AllServed [] = Unit {0}
AllServed (t ∷ ts) = Served t × AllServed ts

holders-le : (ts : List Thread) → holders ts ≤ length ts
unfolding holders
holders-le [] = omega arith
holders-le (idle ∷ ts) = omega (arith, holders-le ts)
holders-le (waiting ∷ ts) = omega (arith, holders-le ts)
holders-le (holding c ∷ ts) = omega (arith, holders-le ts)
holders-le (broken ∷ ts) = omega (arith, holders-le ts)

advance-count :
    (t : Thread) (cs : List ℕ)
    → length (advance t cs).1 + is_holder (advance t cs).0 ≡ length cs + is_holder t
unfolding advance
advance-count idle [] = refl
advance-count idle (x ∷ cs) = omega arith
advance-count waiting [] = refl
advance-count waiting (x ∷ cs) = omega arith
advance-count (holding x) cs = omega (arith, length-append cs (x ∷ []))
advance-count broken cs = refl

step-count :
    (i : ℕ) (ts : List Thread) (cs : List ℕ)
    → (length (step i ts cs).connections + holders (step i ts cs).threads ≡ length cs + holders ts)
      × (length (step i ts cs).threads ≡ length ts)
unfolding step holders
step-count i [] cs = (refl, refl)
step-count zero (t ∷ ts) cs = (omega (arith, advance-count t cs), refl)
step-count (suc i) (t ∷ ts) cs =
    (omega (arith, step-count i ts cs), omega (arith, step-count i ts cs))

step-AllServed :
    (i : ℕ) (ts : List Thread) (cs : List ℕ)
    → AllServed ts
    → length ts ≤ length cs + holders ts
    → AllServed (step i ts cs).threads
unfolding step holders advance
step-AllServed i [] cs s h = tt
step-AllServed zero (idle ∷ ts) [] s h = absurd (omega (arith, holders-le ts))
step-AllServed zero (idle ∷ ts) (x ∷ cs) s h = (tt, s.1)
step-AllServed zero (waiting ∷ ts) cs s h = absurd s.0
step-AllServed zero (holding x ∷ ts) cs s h = (tt, s.1)
step-AllServed zero (broken ∷ ts) cs s h = absurd s.0
step-AllServed (suc i) (idle ∷ ts) cs s h = (tt, step-AllServed i ts cs s.1 (omega arith))
step-AllServed (suc i) (waiting ∷ ts) cs s h = absurd s.0
step-AllServed (suc i) (holding x ∷ ts) cs s h = (tt, step-AllServed i ts cs s.1 (omega arith))
step-AllServed (suc i) (broken ∷ ts) cs s h = absurd s.0

run-AllServed :
    (is : List ℕ) (p : Pool)
    → AllServed p.threads
    → length p.threads ≤ length p.connections + holders p.threads
    → AllServed (run is p).threads
unfolding run
run-AllServed [] p s h = s
run-AllServed (i ∷ is) p s h =
    let count = step-count i p.threads p.connections in
    run-AllServed is (step i p.threads p.connections) (step-AllServed i p.threads p.connections s h)
      (omega arith)

all_idle-AllServed : (n : ℕ) → AllServed (all_idle n)
unfolding all_idle
all_idle-AllServed zero = tt
all_idle-AllServed (suc n) = (tt, all_idle-AllServed n)

length-all_idle : (n : ℕ) → length (all_idle n) ≡ n
unfolding all_idle
length-all_idle zero = refl
length-all_idle (suc n) = omega (arith, length-all_idle n)

pub length-up_to : (n : ℕ) → length (up_to n) ≡ n
unfolding up_to
length-up_to zero = refl
length-up_to (suc n) = omega (arith, length-append (up_to n) (n ∷ []), length-up_to n)

-- With no more threads than connections, in every schedule, no thread ever waits for a connection,
-- and `acquire` never returns a null lock.
pub run-startup-AllServed :
    (n threads : ℕ) (is : List ℕ) → threads ≤ n → AllServed (run is (startup n threads)).threads
unfolding startup
run-startup-AllServed n threads is h =
    run-AllServed is (startup n threads) (all_idle-AllServed threads)
      (omega (arith, length-all_idle threads, length-up_to n))

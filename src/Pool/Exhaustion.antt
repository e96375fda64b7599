-- ===== src/Pool/Exhaustion.antt =====
-- More threads than connections (src/db.cpp, DB::acquire).
use zway_server.Base.{ℕ, zero, suc, ◌<◌, ◌≡◌, refl, List, [], ◌∷◌, map, arith, length}
use zway_server.Pool.{
  Thread, idle, waiting, holding, broken, keep_first, step, run, all_idle, up_to, startup,
}
use zway_server.Pool.Conservation.{length-up_to}

-- Some thread was given a null lock.
abbrev pub HasBroken : List Thread → Type 0
HasBroken [] = ⊥
HasBroken (broken ∷ ts) = Unit {0}
HasBroken (idle ∷ ts) = HasBroken ts
HasBroken (waiting ∷ ts) = HasBroken ts
HasBroken (holding c ∷ ts) = HasBroken ts

-- Each thread in turn takes a connection, until one finds none and comes back after its wait.
abbrev pub rush : ℕ → List ℕ
rush zero = 0 ∷ 0 ∷ []
rush (suc n) = 0 ∷ map suc (rush n)

run-map-suc :
    (is : List ℕ) (t : Thread) (ts : List Thread) (cs : List ℕ)
    → run (map suc is) (record { connections = cs; threads = t ∷ ts })
      ≡ keep_first t (run is (record { connections = cs; threads = ts }))
unfolding run
run-map-suc [] t ts cs = refl
run-map-suc (i ∷ is) t ts cs = run-map-suc is t (step i ts cs).threads (step i ts cs).connections

rush-HasBroken :
    (cs : List ℕ) (n : ℕ)
    → length cs < n
    → HasBroken (run (rush (length cs)) (record { connections = cs; threads = all_idle n })).threads
unfolding run all_idle
rush-HasBroken cs zero h = absurd (omega arith)
rush-HasBroken [] (suc n) h = tt
rush-HasBroken (c ∷ cs) (suc n) h =
    rw (run-map-suc (rush (length cs)) (holding c) (all_idle n) cs)
      (rush-HasBroken cs n (omega arith))

-- With more threads than connections there is a schedule in which `acquire` returns a null lock:
-- as many threads as there are connections take one each, and one more finds none, waits, and finds
-- none again.
pub run-startup-HasBroken :
    (n threads : ℕ) → n < threads → HasBroken (run (rush n) (startup n threads)).threads
unfolding startup
run-startup-HasBroken n threads h =
    rw (length-up_to n) at (rush-HasBroken (up_to n) threads (omega (arith, length-up_to n)))

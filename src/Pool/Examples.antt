-- ===== src/Pool/Examples.antt =====
-- Runs of the connection pool.
use zway_server.Base.{[], ◌∷◌, arith}
use zway_server.Pool.{run, startup}
use zway_server.Pool.Conservation.{AllServed, run-startup-AllServed}

run-startup-AllServed_example : AllServed (run (0 ∷ 1 ∷ 2 ∷ 0 ∷ 2 ∷ []) (startup 3 3)).threads
run-startup-AllServed_example = run-startup-AllServed 3 3 (0 ∷ 1 ∷ 2 ∷ 0 ∷ 2 ∷ []) (omega arith)

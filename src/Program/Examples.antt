-- ===== src/Program/Examples.antt =====
-- Runs of the program.
use zway_server.Base.{none, some, ◌&&◌, ◌≡◌, Bool, true, false, not, List, [], ◌∷◌, ℕ, arith}
use zway_server.Pool.{run}
use zway_server.Pool.Exhaustion.{HasBroken, rush}
use zway_server.Server.Lifecycle.{AcceptorApi, Event, client, handle, new, start}
use zway_server.Program.Workers.{crew, create_workers-least, crew-HasBroken}
use zway_server.Program.Launch.{Options, System, child, main}
use zway_server.Program.Launch.Exits.{zero_of, runs_server, ends, main_returns_zero}

crew-HasBroken_example : HasBroken (run (rush 25) (crew 30)).threads
crew-HasBroken_example = crew-HasBroken 30 30 (create_workers-least 30) (omega arith)

-- An acceptor that only knows whether it is open.
abbrev api : AcceptorApi Bool
api = record {
  open_acceptor = λ a. (not a, true);
  reuse_address = λ a. (true, a);
  bind = λ a. (true, a);
  listen = λ a. (true, a);
  close_acceptor = λ a. (true, false);
  can_accept = λ a. a;
  is_open = λ a. a;
}

-- Pausing, a key without a meaning, and e.
abbrev keys : List (List Event × ℕ)
keys = (client ∷ [], 112) ∷ (handle ∷ [], 10) ∷ ([], 101) ∷ ([], 105) ∷ []

-- A command line for a daemon, and what the system answers its process.
abbrev wanted : Options
wanted = record {
  help = false;
  address = some "10.0.0.1";
  port = 5557;
  num_workers = 4;
  daemon = true;
}

abbrev system : System
system = record { fork = child; setsid = some 12; chdir = true }

main_returns_zero_example :
    zero_of (main api system (some wanted) true true false [] (some (client ∷ handle ∷ [])) none)
    ≡ (runs_server system (some wanted)
        && ((start api true true (new false)).0
            && ends (some wanted) [] (some (client ∷ handle ∷ [])) none))
main_returns_zero_example =
    main_returns_zero api system (some wanted) true true false [] (some (client ∷ handle ∷ [])) none

-- ===== src/Program/Launch.antt =====
-- The program from its command line to its exit code (src/main.cpp). The parser of the command line
-- is Boost's, and what it gives is a parameter, as are the results of the system's calls.
pub mod Exits
use zway_server.Base.{
  ℕ, zero, suc, String, Bool, true, false, not, ◌||◌, List, [], ◌∷◌, ◌++◌, Option, none, some,
  if◌then◌else◌,
}
use zway_server.Server.Lifecycle.{AcceptorApi, Lifecycle, Event, new, start, run, close}
use zway_server.Program.Workers.{create_workers}
use zway_server.Program.Console

-- The variables of `po::variables_map`, with the defaults of the options.
pub record Options : Type 0 where
  pub help : Bool
  pub address : Option String
  pub port : ℕ
  pub num_workers : ℕ
  pub daemon : Bool

-- `fork`: negative, or the parent's process, or the child's.
pub data Fork : Type 0 where
  failed : Fork
  parent : Fork
  child : Fork

-- `setsid` gives no number where its result is negative.
pub record System : Type 0 where
  pub fork : Fork
  pub setsid : Option ℕ
  pub chdir : Bool

pub data Act : Type 0 where
  complained : Act
  usage_printed : Act
  mask_cleared : Act
  pid_written : ℕ → Act
  descriptors_closed : Act
  handler_set : Act
  file_log_added : Act
  console_log_added : Act
  attributes_added : Act
  worker_created : Act
  curl_started : Act
  server_closed : Act
  work_reset : Act
  workers_joined : Act
  curl_cleaned : Act
  said_bye : Act

-- The exit code: -1, EXIT_FAILURE, EXIT_SUCCESS and 0.
pub data Status : Type 0 where
  returned_minus_one : Status
  exit_failure : Status
  exit_success : Status
  returned_zero : Status

-- What was done, and how the program ended if it did.
abbrev pub Part : Type 0
Part = List Act × Option Status

in_new_session : Option ℕ → Bool → Part
in_new_session none moved = (mask_cleared ∷ [], some exit_failure)
in_new_session (some sid) false = (mask_cleared ∷ pid_written sid ∷ [], some exit_failure)
in_new_session (some sid) true =
    (mask_cleared ∷ pid_written sid ∷ descriptors_closed ∷ handler_set ∷ file_log_added ∷ [], none)

forked : Fork → System → Part
unfolding in_new_session
forked failed system = ([], some exit_failure)
forked parent system = ([], some exit_success)
forked child system = in_new_session system.setsid system.chdir

-- The branch on the option --daemon.
unfoldable pub detach : System → Bool → Part
unfolding forked
detach system true = forked system.fork system
detach system false = (console_log_added ∷ [], none)

abbrev pub is_given : Option String → Bool
is_given none = false
is_given (some address) = true

-- The help and a missing address end the program, too.
unfoldable pub prepare : System → Options → Part
unfolding detach
prepare system options =
    if options.help || not (is_given options.address)
    then (usage_printed ∷ [], some returned_minus_one)
    else detach system options.daemon

created : ℕ → List Act
created zero = []
created (suc n) = worker_created ∷ created n

-- A program that has ended.
pub record Ran (A : Type 0) : Type 0 where
  pub acts : List Act
  pub status : Status
  pub server : Lifecycle A

module _ {A : Type 0} (api : AcceptorApi A) where
  -- `workers.join_all()` of n workers: `last` is what they still handle until the io_service has no
  -- work left, which may never be; without workers there is nothing to wait for.
  joined : ℕ → Option (List Event) → Lifecycle A → Option (Lifecycle A)
  joined zero last s = some s
  joined (suc n) none s = none
  joined (suc n) (some es) s = some (run api es s)

  after_join : List Act → Option (Lifecycle A) → Option (Ran A)
  after_join acts none = none
  after_join acts (some s) = some (record {
    acts = acts ++ server_closed ∷ work_reset ∷ workers_joined ∷ curl_cleaned ∷ said_bye ∷ [];
    status = returned_zero;
    server = s;
  })

  -- The end of `main`; `none` is a loop, or a join of the workers, that does not end.
  finish : ℕ → Option (List Event) → List Act → Option (Console.Console A) → Option (Ran A)
  unfolding joined after_join close
  finish n last acts none = none
  finish n last acts (some c) = after_join acts (joined n last (close api c.server))

  -- `io_service->run()`, which returns when a signal stops the service.
  until_signal : Lifecycle A → Option (List Event) → Option (Console.Console A)
  until_signal s none = none
  until_signal s (some es) = some (record { server = run api es s; notices = [] })

  -- A signal stops the service, and the workers of the daemon with it, which handle nothing more.
  serve :
      Bool
      → ℕ
      → List Act
      → Bool × Lifecycle A
      → List (List Event × ℕ)
      → Option (List Event)
      → Option (List Event)
      → Option (Ran A)
  unfolding finish until_signal
  serve daemon n acts (false, s) keys signal last =
      some (record { acts = acts; status = returned_minus_one; server = s })
  serve true n acts (true, s) keys signal last = finish n (some []) acts (until_signal s signal)
  serve false n acts (true, s) keys signal last =
      finish n last acts (Console.control api keys (record { server = s; notices = [] }))

  -- The workers; `none` is a loop that goes on beyond its rounds.
  employ :
      Bool
      → List Act
      → Option ℕ
      → Bool × Lifecycle A
      → List (List Event × ℕ)
      → Option (List Event)
      → Option (List Event)
      → Option (Ran A)
  unfolding created serve
  employ daemon acts none started keys signal last = none
  employ daemon acts (some n) started keys signal last =
      serve daemon n (acts ++ attributes_added ∷ created n ++ curl_started ∷ []) started keys signal
        last

  go_on :
      Part
      → Options
      → Bool × Lifecycle A
      → A
      → List (List Event × ℕ)
      → Option (List Event)
      → Option (List Event)
      → Option (Ran A)
  unfolding employ
  go_on (acts, some status) options started a keys signal last =
      some (record { acts = acts; status = status; server = new a })
  go_on (acts, none) options started a keys signal last =
      employ options.daemon acts (create_workers 51 0 options.num_workers) started keys signal last

  -- A command line that does not parse ends the program. `keys` are what the console reads, `signal`
  -- what the daemon does until a signal stops it, `last` what the workers do after the close.
  unfoldable pub main :
      System
      → Option Options
      → Bool
      → Bool
      → A
      → List (List Event × ℕ)
      → Option (List Event)
      → Option (List Event)
      → Option (Ran A)
  unfolding go_on prepare start
  main system none database prepared a keys signal last = some (record {
    acts = complained ∷ usage_printed ∷ [];
    status = returned_minus_one;
    server = new a;
  })
  main system (some options) database prepared a keys signal last =
      go_on (prepare system options) options (start api database prepared (new a)) a keys signal
        last

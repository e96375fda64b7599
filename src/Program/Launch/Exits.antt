-- ===== src/Program/Launch/Exits.antt =====
-- How the program ends (src/main.cpp).
use zway_server.Base.{
  ℕ, zero, suc, ◌≡◌, refl, ◌∙◌, ap, Bool, true, false, not, ◌&&◌, ◌||◌, List, [], Option, none,
  some, arith, if◌then◌else◌, Bool-cases, inl, inr,
}
use zway_server.Server.Lifecycle.{AcceptorApi, Lifecycle, Event, new, start, close}
use zway_server.Program.Workers.{least, create_workers-least}
use zway_server.Program.Console
use zway_server.Program.Console.{returns, leaves, returns-control}
use zway_server.Program.Launch
use zway_server.Program.Launch.{
  Options, System, Fork, failed, parent, child, Act, Status, returned_zero, returned_minus_one,
  exit_failure, exit_success, Part, Ran, main, is_given,
}

-- The command line asks for a server.
abbrev pub usable : Options → Bool
usable options = not options.help && is_given options.address

abbrev is_child : Fork → Bool
is_child failed = false
is_child parent = false
is_child child = true

-- This process is the one that runs the server.
abbrev pub serves : System → Options → Bool
serves system options =
    not options.daemon || (is_child system.fork && (returns system.setsid && system.chdir))

-- Whether the workers can be joined: there are none, or they run out of work.
abbrev pub joins : ℕ → Option (List Event) → Bool
joins zero last = true
joins (suc n) last = returns last

-- What makes the program come to its end: a signal, or the key e and workers that can be joined.
abbrev pub ending :
    Bool → ℕ → List (List Event × ℕ) → Option (List Event) → Option (List Event) → Bool
ending daemon n keys signal last = if daemon then returns signal else (leaves keys && joins n last)

-- As many workers as were asked for are created, up to 50.
abbrev pub stopped :
    Options → List (List Event × ℕ) → Option (List Event) → Option (List Event) → Bool
stopped options keys signal last =
    ending options.daemon (least options.num_workers 50) keys signal last

abbrev pub is_zero : Status → Bool
is_zero returned_zero = true
is_zero returned_minus_one = false
is_zero exit_failure = false
is_zero exit_success = false

-- The program has returned 0.
abbrev pub zero_of : {A : Type 0} → Option (Ran A) → Bool
zero_of none = false
zero_of (some r) = is_zero r.status

module _ {A : Type 0} (api : AcceptorApi A) where
  returns-joined :
      (n : ℕ) (last : Option (List Event)) (s : Lifecycle A)
      → returns (Launch.joined api n last s) ≡ joins n last
  unfolding Launch.joined
  returns-joined zero last s = refl
  returns-joined (suc n) none s = refl
  returns-joined (suc n) (some es) s = refl

  after_join_lem :
      (acts : List Act) (o : Option (Lifecycle A))
      → (zero_of (Launch.after_join api acts o) ≡ returns o)
        × (returns (Launch.after_join api acts o) ≡ returns o)
  unfolding Launch.after_join
  after_join_lem acts none = (refl, refl)
  after_join_lem acts (some s) = (refl, refl)

  finish_lem :
      (n : ℕ) (last : Option (List Event)) (acts : List Act) (c : Option (Console.Console A))
      → (zero_of (Launch.finish api n last acts c) ≡ (returns c && joins n last))
        × (returns (Launch.finish api n last acts c) ≡ (returns c && joins n last))
  unfolding Launch.finish
  finish_lem n last acts none = (refl, refl)
  finish_lem n last acts (some c) =
      let s = close api c.server in
      let after = after_join_lem acts (Launch.joined api n last s) in
      (after.0 ∙ returns-joined n last s, after.1 ∙ returns-joined n last s)

  joins_nothing : (n : ℕ) → joins n (some []) ≡ true
  joins_nothing zero = refl
  joins_nothing (suc n) = refl

  returns-until_signal :
      (s : Lifecycle A) (signal : Option (List Event))
      → returns (Launch.until_signal api s signal) ≡ returns signal
  unfolding Launch.until_signal
  returns-until_signal s none = refl
  returns-until_signal s (some es) = refl

  serve_lem :
      (daemon : Bool) (n : ℕ) (acts : List Act) (r : Bool × Lifecycle A)
      (keys : List (List Event × ℕ)) (signal last : Option (List Event))
      → (zero_of (Launch.serve api daemon n acts r keys signal last)
          ≡ (r.0 && ending daemon n keys signal last))
        × (returns (Launch.serve api daemon n acts r keys signal last)
            ≡ (not r.0 || ending daemon n keys signal last))
  unfolding Launch.serve
  serve_lem daemon n acts (false, s) keys signal last = (refl, refl)
  serve_lem true n acts (true, s) keys signal last =
      let done = finish_lem n (some []) acts (Launch.until_signal api s signal) in
      let signalled = returns-until_signal s signal in
      (
        done.0 ∙ ground (arith, signalled, joins_nothing n),
        done.1 ∙ ground (arith, signalled, joins_nothing n),
      )
  serve_lem false n acts (true, s) keys signal last =
      let c : Console.Console A = record { server = s; notices = [] } in
      let done = finish_lem n last acts (Console.control api keys c) in
      (
        done.0 ∙ ap (λ b. b && joins n last) (returns-control api keys c),
        done.1 ∙ ap (λ b. b && joins n last) (returns-control api keys c),
      )

-- Whether a part of the program goes on.
abbrev continues : Part → Bool
continues (acts, none) = true
continues (acts, some status) = false

-- A part that ends the program does not return 0.
abbrev sound : Part → Bool
sound (acts, none) = true
sound (acts, some status) = not (is_zero status)

in_new_session_lem :
    (sid : Option ℕ) (moved : Bool)
    → (continues (Launch.in_new_session sid moved) ≡ (returns sid && moved))
      × (sound (Launch.in_new_session sid moved) ≡ true)
unfolding Launch.in_new_session
in_new_session_lem none moved = (refl, refl)
in_new_session_lem (some sid) false = (refl, refl)
in_new_session_lem (some sid) true = (refl, refl)

forked_lem :
    (fork : Fork) (system : System)
    → (continues (Launch.forked fork system)
        ≡ (is_child fork && (returns system.setsid && system.chdir)))
      × (sound (Launch.forked fork system) ≡ true)
unfolding Launch.forked
forked_lem failed system = (refl, refl)
forked_lem parent system = (refl, refl)
forked_lem child system = in_new_session_lem system.setsid system.chdir

detach_lem :
    (system : System) (daemon : Bool)
    → (continues (Launch.detach system daemon)
        ≡ (not daemon || (is_child system.fork && (returns system.setsid && system.chdir))))
      × (sound (Launch.detach system daemon) ≡ true)
unfolding Launch.detach
detach_lem system true = forked_lem system.fork system
detach_lem system false = (refl, refl)

prepare_lem :
    (system : System) (options : Options)
    → (continues (Launch.prepare system options) ≡ (usable options && serves system options))
      × (sound (Launch.prepare system options) ≡ true)
unfolding Launch.prepare
prepare_lem system options =
    let d = detach_lem system options.daemon in
    elim (Bool-cases (options.help || not (is_given options.address))) [
      | inl ends ↦ rw ends (ground arith, refl)
      | inr goes ↦ rw goes (d.0 ∙ ground arith, d.1)
    ]

-- What this process wants of the server, as the command line and the system have it.
abbrev pub runs_server : System → Option Options → Bool
runs_server system none = false
runs_server system (some options) = usable options && serves system options

abbrev pub ends :
    Option Options → List (List Event × ℕ) → Option (List Event) → Option (List Event) → Bool
ends none keys signal last = true
ends (some options) keys signal last = stopped options keys signal last

module _ {A : Type 0} (api : AcceptorApi A) where
  go_on_lem :
      (part : Part) (options : Options) (r : Bool × Lifecycle A) (a : A)
      (keys : List (List Event × ℕ)) (signal last : Option (List Event))
      → sound part ≡ true
      → (zero_of (Launch.go_on api part options r a keys signal last)
          ≡ (continues part && (r.0 && stopped options keys signal last)))
        × (returns (Launch.go_on api part options r a keys signal last)
            ≡ (not (continues part && r.0) || stopped options keys signal last))
  unfolding Launch.go_on Launch.employ
  go_on_lem (acts, some status) options r a keys signal last fine = (ground arith, refl)
  go_on_lem (acts, none) options r a keys signal last fine =
      rw (create_workers-least options.num_workers)
        (serve_lem api options.daemon (least options.num_workers 50) _ r keys signal last)

  -- The program returns 0 exactly if the command line parses, asks for no help and gives an
  -- address, this process is the one that serves (as a daemon: the child, with a session of its own
  -- and the root as its directory), the server starts, and, as a daemon, a signal stops the service,
  -- or else the console reads an e and the workers can be joined: none was created, or after the
  -- close they run out of work. No handler's crash ends the process before.
  pub main_returns_zero :
      (system : System) (parsed : Option Options) (database prepared : Bool) (a : A)
      (keys : List (List Event × ℕ)) (signal last : Option (List Event))
      → zero_of (main api system parsed database prepared a keys signal last) ≡ (
          runs_server system parsed
          && ((start api database prepared (new a)).0 && ends parsed keys signal last))
  unfolding main
  main_returns_zero system none database prepared a keys signal last = refl
  main_returns_zero system (some options) database prepared a keys signal last =
      let prep = prepare_lem system options in
      (go_on_lem (Launch.prepare system options) options (start api database prepared (new a)) a
        keys signal last prep.1).0
      ∙ ap (λ b. b && ((start api database prepared (new a)).0 && stopped options keys signal last))
          prep.0

  -- The program ends, with whatever code, exactly if it does not come to run the server, or the
  -- server does not start, or it is made to end: as a daemon by a signal, or else by an e at the
  -- console, and then only if no worker was created or the workers run out of work after the close.
  pub main_ends :
      (system : System) (parsed : Option Options) (database prepared : Bool) (a : A)
      (keys : List (List Event × ℕ)) (signal last : Option (List Event))
      → returns (main api system parsed database prepared a keys signal last) ≡ (
          not (runs_server system parsed && (start api database prepared (new a)).0)
          || ends parsed keys signal last)
  unfolding main
  main_ends system none database prepared a keys signal last = refl
  main_ends system (some options) database prepared a keys signal last =
      let prep = prepare_lem system options in
      (go_on_lem (Launch.prepare system options) options (start api database prepared (new a)) a
        keys signal last prep.1).1
      ∙ ap
          (λ b.
            not (b && (start api database prepared (new a)).0) || stopped options keys signal last)
          prep.0

-- ===== src/Server/Lifecycle/Examples.antt =====
-- Runs of the server's accepting, over a small acceptor.
use zway_server.Base.{◌≡◌, refl, Bool, true, false, List, [], ◌∷◌}
use zway_server.Server.Lifecycle.{
  AcceptorApi, Lifecycle, Event, client, handle, press_pause, press_resume, connected, start, pause,
  resume, close, run, new,
}
use zway_server.Server.Lifecycle.Accepting.{Laws, Accepting, run-start-Accepting}
use zway_server.Server.Lifecycle.Closing.{CloseLaws, handles, close-drains}
use zway_server.Server.Lifecycle.Stuck.{OpenLaws, resume_jams}

data Socket : Type 0 where
  shut : Socket
  open_socket : Socket
  listens : Socket

abbrev is_open : Socket → Bool
is_open shut = false
is_open open_socket = true
is_open listens = true

abbrev can_accept : Socket → Bool
can_accept shut = false
can_accept open_socket = false
can_accept listens = true

abbrev open_it : Socket → Bool × Socket
open_it shut = (true, open_socket)
open_it open_socket = (false, open_socket)
open_it listens = (false, listens)

-- An address that is free, or in use.
abbrev api : Bool → AcceptorApi Socket
api free = record {
  open_acceptor = open_it;
  reuse_address = λ a. (true, a);
  bind = λ a. (free, a);
  listen = λ a. (true, listens);
  close_acceptor = λ a. (true, shut);
  can_accept = can_accept;
  is_open = is_open;
}

laws : Laws (api true)
laws = record { listen_lem = λ a h. refl }

close_laws : CloseLaws (api true)
close_laws = record { shut_lem = λ a. refl }

opens : (a : Socket) → (open_it a).0 ≡ true → is_open (open_it a).1 ≡ true
opens shut h = refl
opens open_socket h = refl
opens listens h = refl

opens_once : (a : Socket) → is_open a ≡ true → open_it a ≡ (false, a)
opens_once shut h = cc
opens_once open_socket h = refl
opens_once listens h = refl

open_laws : OpenLaws (api false)
open_laws = record {
  open_lem = opens;
  again_lem = opens_once;
  bind_lem = λ a h. h;
  listen_lem = λ a h. refl;
}

abbrev events : List Event
events = client ∷ press_pause ∷ handle ∷ press_resume ∷ handle ∷ client ∷ []

starts : (start (api true) true true (new shut)).0 ≡ true
unfolding start new
starts = refl

run-start-Accepting_example :
    Accepting (api true) (run (api true) events (start (api true) true true (new shut)).1)
run-start-Accepting_example =
    run-start-Accepting (api true) laws true true shut events starts tt (λ _. refl, tt)

-- One accept waits.
abbrev serving : Lifecycle Socket
serving = record {
  acceptor = listens;
  paused = false;
  num_sessions = 0;
  started = 0;
  pending = 1;
  ready = [];
}

-- Paused.
abbrev resting : Lifecycle Socket
resting = record {
  acceptor = shut;
  paused = true;
  num_sessions = 0;
  started = 0;
  pending = 0;
  ready = [];
}

in_use : (resume (api false) resting).0 ≡ false
unfolding resume
in_use = refl

abbrev stuck : Lifecycle Socket
stuck = run (api false) events (resume (api false) resting).1

resume_jams_example :
    (stuck.paused ≡ true)
    × (resume (api false) stuck ≡ (false, stuck))
    × (pause (api false) stuck ≡ (false, stuck))
resume_jams_example = resume_jams (api false) open_laws resting events refl refl in_use

-- One accept waits, and a client has connected whose handler has not run.
abbrev busy : Lifecycle Socket
busy = record serving { ready = connected ∷ [] }

close-drains_example :
    ((run (api true) (handles 3) (close (api true) busy)).pending ≡ 0)
    × ((run (api true) (handles 3) (close (api true) busy)).ready ≡ [])
    × ((run (api true) (handles 3) (close (api true) busy)).started ≡ 1)
close-drains_example = close-drains (api true) close_laws busy

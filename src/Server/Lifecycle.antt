-- ===== src/Server/Lifecycle.antt =====
-- Starting, pausing and resuming the server, and the accepting of connections: Server::start, close,
-- pause, resume, paused, accept and handleSession (src/server.cpp). Boost.Asio's acceptor is a
-- parameter; what io_service does with a pending accept is an event.
pub mod Accepting
pub mod Closing
pub mod Examples
pub mod Stuck
use zway_server.Base.{
  ℕ, zero, suc, ◌+◌, ◌%◌, ◌^◌, Bool, true, false, List, [], ◌∷◌, ◌++◌, if◌then◌else◌,
}

-- The calls that throw give false where they do; `can_accept` tells whether `async_accept` waits
-- for a client or fails at once, `is_open` whether the acceptor has a socket.
pub record AcceptorApi (A : Type 0) : Type 0 where
  pub open_acceptor : A → Bool × A
  pub reuse_address : A → Bool × A
  pub bind : A → Bool × A
  pub listen : A → Bool × A
  pub close_acceptor : A → Bool × A
  pub can_accept : A → Bool
  pub is_open : A → Bool

-- How an accept ended.
pub data Completion : Type 0 where
  connected : Completion
  failed : Completion
  aborted : Completion

-- `pending` accepts wait for a client; `ready` are the ended ones whose handler has not run yet.
-- `num_sessions` is the server's counter of started sessions; `started` are the calls of
-- `session->start()`, each for the session of an accepted connection, which then stands in the
-- server's map and shakes hands (Session/Lifecycle.antt).
pub record Lifecycle (A : Type 0) : Type 0 where
  pub acceptor : A
  pub paused : Bool
  pub num_sessions : ℕ
  pub started : ℕ
  pub pending : ℕ
  pub ready : List Completion

pub data Event : Type 0 where
  client : Event
  trouble : Event
  handle : Event
  press_pause : Event
  press_resume : Event

abbrev pub aborts : ℕ → List Completion
aborts zero = []
aborts (suc n) = aborted ∷ aborts n

module _ {A : Type 0} where
  end_accept : Completion → ℕ → Lifecycle A → Lifecycle A
  end_accept c zero s = s
  end_accept c (suc n) s = record s { pending = n; ready = s.ready ++ c ∷ [] }

module _ {A : Type 0} (api : AcceptorApi A) where
  open api use {open_acceptor, reuse_address, bind, listen, close_acceptor, can_accept}

  unfoldable pub accept : Lifecycle A → Lifecycle A
  accept s =
      if can_accept s.acceptor
      then record s { pending = s.pending + 1 }
      else record s { ready = s.ready ++ failed ∷ [] }

  closed_by : Bool × A → Lifecycle A → Bool × Lifecycle A
  closed_by (true, a) s = (
    true,
    record s { acceptor = a; paused = true; pending = 0; ready = s.ready ++ aborts s.pending },
  )
  closed_by (false, a) s =
      (false, record s { acceptor = a; pending = 0; ready = s.ready ++ aborts s.pending })

  -- Closing the acceptor aborts the accepts that wait, and closes it, even where it reports an error,
  -- which here is an exception.
  unfoldable pub pause : Lifecycle A → Bool × Lifecycle A
  unfolding closed_by
  pause s = if s.paused then (false, s) else closed_by (close_acceptor s.acceptor) s

  closed : Bool × A → Lifecycle A → Lifecycle A
  closed (done, a) s = record s { acceptor = a; pending = 0; ready = s.ready ++ aborts s.pending }

  -- `Server::close`, as far as the acceptor goes: the error of closing it is ignored.
  unfoldable pub close : Lifecycle A → Lifecycle A
  unfolding closed
  close s = closed (close_acceptor s.acceptor) s

  -- `later` is the flag `m_paused` after a success.
  listening : Bool → Bool × A → Lifecycle A → Bool × Lifecycle A
  listening later (false, a) s = (false, record s { acceptor = a })
  listening later (true, a) s =
      (true, record (accept (record s { acceptor = a })) { paused = later })

  bound : Bool → Bool × A → Lifecycle A → Bool × Lifecycle A
  bound later (false, a) s = (false, record s { acceptor = a })
  bound later (true, a) s = listening later (listen a) s

  opened : Bool × A → Lifecycle A → Bool × Lifecycle A
  opened (false, a) s = (false, record s { acceptor = a })
  opened (true, a) s = bound false (bind a) s

  -- Whatever throws leaves the acceptor where it is.
  unfoldable pub resume : Lifecycle A → Bool × Lifecycle A
  unfolding opened bound listening accept
  resume s = if s.paused then opened (open_acceptor s.acceptor) s else (false, s)

  -- The handler of an ended accept.
  unfoldable pub handle_session : Completion → Lifecycle A → Lifecycle A
  unfolding accept
  handle_session connected s =
      accept (record s { started = s.started + 1; num_sessions = (s.num_sessions + 1) % 2 ^ 32 })
  handle_session aborted s = s
  handle_session failed s = s

  optioned : Bool × A → Lifecycle A → Bool × Lifecycle A
  optioned (false, a) s = (false, record s { acceptor = a })
  optioned (true, a) s = bound s.paused (bind a) s

  first_opened : Bool × A → Lifecycle A → Bool × Lifecycle A
  first_opened (false, a) s = (false, record s { acceptor = a })
  first_opened (true, a) s = optioned (reuse_address a) s

  -- `database` is the result of DB::startup, `prepared` tells whether the certificates, the key and
  -- the address could be read.
  unfoldable pub start : Bool → Bool → Lifecycle A → Bool × Lifecycle A
  unfolding first_opened optioned bound listening accept
  start database prepared s =
      if database
      then (if prepared then first_opened (open_acceptor s.acceptor) s else (false, s))
      else (false, s)

  take_ready : List Completion → Lifecycle A → Lifecycle A
  take_ready [] s = s
  take_ready (c ∷ cs) s = handle_session c (record s { ready = cs })

  unfoldable pub step : Event → Lifecycle A → Lifecycle A
  unfolding take_ready end_accept handle_session pause resume
  step client s = end_accept connected s.pending s
  step trouble s = end_accept failed s.pending s
  step handle s = take_ready s.ready s
  step press_pause s = (pause s).1
  step press_resume s = (resume s).1

  unfoldable pub run : List Event → Lifecycle A → Lifecycle A
  unfolding step
  run [] s = s
  run (e ∷ es) s = run es (step e s)

-- The constructor.
unfoldable pub new : {A : Type 0} → A → Lifecycle A
new a = record {
  acceptor = a;
  paused = false;
  num_sessions = 0;
  started = 0;
  pending = 0;
  ready = [];
}

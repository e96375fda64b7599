-- ===== src/Pool/Opening.antt =====
-- How the pool comes to its connections, and how it ends: DB::startup, cleanup, Connection::create
-- and init (src/db.cpp). What the mongo driver does is given: whether the client initializes, and
-- for each connection whether connecting does not throw and whether the log-in is accepted.
use zway_server.Base.{
  ℕ, zero, suc, ◌+◌, ◌≡◌, ap, ◌∙◌, Bool, true, false, List, [], ◌∷◌, ◌++◌, arith, if◌then◌else◌,
}
use zway_server.Pool.{startup, up_to}

-- `init`: the result of `auth` is not looked at.
unfoldable pub init_connection : (ℕ → Bool) → (ℕ → Bool) → ℕ → Bool
init_connection connects accepted c = connects c

-- The loop from the c-th connection on; one that fails ends it, and the others stay in the queue.
unfoldable pub push_connections : (ℕ → Bool) → (ℕ → Bool) → ℕ → ℕ → List ℕ → Bool × List ℕ
unfolding init_connection
push_connections connects accepted zero c queue = (true, queue)
push_connections connects accepted (suc n) c queue =
    let rest = push_connections connects accepted n (suc c) (queue ++ c ∷ []) in
    if init_connection connects accepted c then rest else (false, queue)

unfoldable pub start_up : Bool → (ℕ → Bool) → (ℕ → Bool) → ℕ → Bool × List ℕ
unfolding push_connections
start_up initialized connects accepted n =
    if initialized then push_connections connects accepted n 0 [] else (false, [])

unfoldable pub clean_up : List ℕ → List ℕ
clean_up queue = []

pushed :
    (connects accepted : ℕ → Bool) (n c : ℕ)
    → ((i : ℕ) → connects i ≡ true)
    → push_connections connects accepted n c (up_to c) ≡ (true, up_to (c + n))
unfolding push_connections init_connection up_to
pushed connects accepted zero c all =
    let same : c ≡ c + 0 = omega arith in ap (λ k. (true, up_to k)) same
pushed connects accepted (suc n) c all =
    let same : suc c + n ≡ c + suc n = omega arith in
    rw (all c) (pushed connects accepted n (suc c) all) ∙ ap (λ k. (true, up_to k)) same

-- Where the client initializes and every connection connects, whether or not the log-ins are
-- accepted, the pool has the connections that its runs begin with.
pub start_up-startup :
    (connects accepted : ℕ → Bool) (n threads : ℕ)
    → ((i : ℕ) → connects i ≡ true)
    → start_up true connects accepted n ≡ (true, (startup n threads).connections)
unfolding start_up startup up_to
start_up-startup connects accepted n threads all =
    let same : 0 + n ≡ n = omega arith in
    pushed connects accepted n 0 all ∙ ap (λ k. (true, up_to k)) same

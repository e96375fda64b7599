-- ===== src/Wire/Racing/Total.antt =====
-- What becomes of the packets while several threads send (src/session.cpp, sendPacket).
use zway_server.Base.{
  ℕ, zero, suc, ◌+◌, ◌≡◌, refl, ap, List, [], ◌∷◌, ◌++◌, arith, ◌==◌, if◌then◌else◌,
}
use zway_server.Wire.Racing.{
  Pc, outside, calling, unblocked, taken, marked, Line, fill_empty, pop, take_packet, advance, Turn,
  go, post, done, Wire, end_write, go_on, turn, run, all_outside, new,
}

unfoldable pub count : ℕ → List ℕ → ℕ
count x [] = 0
count x (y ∷ ys) = let rest = count x ys in if y == x then suc rest else rest

unfoldable pub carries : ℕ → Pc → ℕ
carries x (taken y) = if y == x then 1 else 0
carries x (marked y) = if y == x then 1 else 0
carries x outside = 0
carries x calling = 0
carries x unblocked = 0

unfoldable pub carried : ℕ → List Pc → ℕ
unfolding carries
carried x [] = 0
carried x (t ∷ ts) = carries x t + carried x ts

-- How often a packet is in the queue, in a running write or sent.
unfoldable pub placed : ℕ → Line → ℕ
unfolding count
placed x s = count x s.queue + count x s.writing + count x s.sent

count-append : (x : ℕ) (xs ys : List ℕ) → count x (xs ++ ys) ≡ count x xs + count x ys
unfolding count
count-append x [] ys = omega arith
count-append x (y ∷ xs) ys = ground (arith, count-append x xs ys)

-- The packets in their places and with the threads grow as the accepted ones do.
abbrev Kept : ℕ → ℕ → Line → ℕ → Line → Type 0
Kept x c s c' s' = placed x s' + c' + count x s.accepted ≡ placed x s + c + count x s'.accepted

module _ (fill : ℕ → List ℕ) where
  fill_empty-Kept :
      (x c : ℕ) (q : List ℕ) (s : Line) → s.queue ≡ q → Kept x c s c (fill_empty fill q s)
  unfolding fill_empty placed count
  fill_empty-Kept x c [] s e =
      ground (arith, count-append x s.accepted (fill s.fills), ap (count x) e)
  fill_empty-Kept x c (y ∷ ys) s e = refl

  pop-Kept :
      (x : ℕ) (q : List ℕ) (s : Line)
      → s.queue ≡ q
      → Kept x 0 s (carries x (pop fill q s).0) (pop fill q s).1
  unfolding pop placed carries count
  pop-Kept x [] s e = refl
  pop-Kept x (y ∷ ys) s e = ground (arith, ap (count x) e)

  take_packet-Kept :
      (x : ℕ) (s : Line) → Kept x 0 s (carries x (take_packet fill s).0) (take_packet fill s).1
  unfolding take_packet
  take_packet-Kept x s =
      let filled = fill_empty fill s.queue s in
      omega (arith, fill_empty-Kept x 0 s.queue s refl, pop-Kept x filled.queue filled refl)

  advance-Kept :
      (x : ℕ) (t : Pc) (s : Line)
      → Kept x (carries x t) s (carries x (advance fill t s).0) (advance fill t s).1
  unfolding advance carries placed count
  advance-Kept x outside s = refl
  advance-Kept x calling s = ground arith
  advance-Kept x unblocked s = take_packet-Kept x s
  advance-Kept x (taken y) s = refl
  advance-Kept x (marked y) s = ground (arith, count-append x s.writing (y ∷ []))

  go_on-Kept :
      (x i : ℕ) (ts : List Pc) (s : Line)
      → Kept x (carried x ts) s (carried x (go_on fill i ts s).threads) (go_on fill i ts s).line
  unfolding go_on carried
  go_on-Kept x i [] s = refl
  go_on-Kept x zero (t ∷ ts) s = omega (arith, advance-Kept x t s)
  go_on-Kept x (suc i) (t ∷ ts) s = omega (arith, go_on-Kept x i ts s)

  end_write-Kept : (x c : ℕ) (q : List ℕ) (s : Line) → s.writing ≡ q → Kept x c s c (end_write q s)
  unfolding end_write placed count
  end_write-Kept x c [] s e = refl
  end_write-Kept x c (y ∷ ys) s e = ground (arith, count-append x s.sent (y ∷ []), ap (count x) e)

  turn-Kept :
      (x : ℕ) (e : Turn) (w : Wire)
      → Kept x (carried x w.threads) w.line (carried x (turn fill e w).threads) (turn fill e w).line
  unfolding turn placed
  turn-Kept x (go i) w = go_on-Kept x i w.threads w.line
  turn-Kept x (post y) w =
      ground (arith, count-append x w.line.queue (y ∷ []), count-append x w.line.accepted (y ∷ []))
  turn-Kept x done w = end_write-Kept x (carried x w.threads) w.line.writing w.line refl

  run-Kept :
      (x : ℕ) (es : List Turn) (w : Wire)
      → Kept x (carried x w.threads) w.line (carried x (run fill es w).threads) (run fill es w).line
  unfolding run
  run-Kept x [] w = refl
  run-Kept x (e ∷ es) w = omega (arith, turn-Kept x e w, run-Kept x es (turn fill e w))

  carried-all_outside : (x n : ℕ) → carried x (all_outside n) ≡ 0
  unfolding carried all_outside
  carried-all_outside x zero = refl
  carried-all_outside x (suc n) = omega (arith, carried-all_outside x n)

  -- However the steps of the threads mix, no packet is lost and none is written twice: each packet
  -- is, counted over the queue, the threads, the running writes and the ended ones, there as often as
  -- it came into the queue.
  pub run-new-total :
      (x n : ℕ) (es : List Turn)
      → placed x (run fill es (new n)).line + carried x (run fill es (new n)).threads
        ≡ count x (run fill es (new n)).line.accepted
  unfolding new placed count
  run-new-total x n es = omega (arith, run-Kept x es (new n), carried-all_outside x n)

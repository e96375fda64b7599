-- ===== src/Server/Buffers/Ageing.antt =====
-- What a turn of the timer leaves (src/server.cpp, onTimer).
use zway_server.Base.{
  ℕ, suc, ◌-◌, ◌≤◌, ◌<◌, ◌≡◌, refl, Bool, false, List, [], ◌∷◌, Option, none, some, arith, ltb, leb,
  ◌==◌, ==_self, ==→eq, Bool-cases, inl, inr, if◌then◌else◌,
}
use zway_server.OrderedMap.{OrderedMap, lookup, erase, lookup-erase}
use zway_server.Server.Sessions.{remove_all, contains, contains-remove_all}
use zway_server.Server.Buffers.{
  is_stale, stale_ids, erase_all, drop_stale, completed_senders, remove_each, drop_completed,
  Streams, on_timer,
}
use zway_server.Stream.StreamBuffer.{StreamBuffer, u64}

-- The keys rise from `n` on, and each buffer stands under its own stream id.
abbrev pub Keyed : {M : Type 0} → ℕ → OrderedMap (StreamBuffer M) → Type 0
Keyed n [] = Unit {0}
Keyed n ((k, b) ∷ m) = (n ≤ k) × (b.stream_id ≡ k) × Keyed (suc k) m

-- A buffer that the timer finds fresh.
abbrev pub fresh : {M : Type 0} → ℕ → Option (StreamBuffer M) → Option (StreamBuffer M)
fresh now none = none
fresh now (some b) = if is_stale now b then none else some b

module _ {M : Type 0} where
  lookup-below : (j n : ℕ) (m : OrderedMap (StreamBuffer M)) → Keyed n m → j < n → lookup j m ≡ none
  unfolding lookup
  lookup-below j n [] h lt = refl
  lookup-below j n ((k, b) ∷ m) h lt = ground (arith, lookup-below j (suc k) m h.2)

  stale_entry : ℕ → Option (StreamBuffer M) → Bool
  stale_entry now none = false
  stale_entry now (some b) = is_stale now b

  contains-stale_ids :
      (now j n : ℕ) (m : OrderedMap (StreamBuffer M))
      → Keyed n m
      → contains j (stale_ids now m) ≡ stale_entry now (lookup j m)
  unfolding contains stale_ids stale_entry lookup
  contains-stale_ids now j n [] h = refl
  contains-stale_ids now j n ((k, b) ∷ m) h =
      ground (arith, contains-stale_ids now j (suc k) m h.2, lookup-below j (suc k) m h.2)

  lookup-erase_all :
      (j : ℕ) (ids : List ℕ) (m : OrderedMap (StreamBuffer M))
      → lookup j (erase_all ids m) ≡ (if contains j ids then none else lookup j m)
  unfolding erase_all contains
  lookup-erase_all j [] m = refl
  lookup-erase_all j (id ∷ ids) m =
      ground (arith, lookup-erase_all j ids (erase id m), lookup-erase id j m)

  lookup-drop_stale :
      (now j n : ℕ) (m : OrderedMap (StreamBuffer M))
      → Keyed n m
      → lookup j (drop_stale now m) ≡ fresh now (lookup j m)
  unfolding drop_stale stale_entry
  lookup-drop_stale now j n m h =
      ground (arith, lookup-erase_all j (stale_ids now m) m, contains-stale_ids now j n m h)

pub contains-completed_senders :
    (completed : ℕ → Bool) (q : ℕ) (qs : List ℕ)
    → contains q (completed_senders completed qs) ≡ (if completed q then contains q qs else false)
unfolding contains completed_senders
contains-completed_senders completed q [] = ground arith
contains-completed_senders completed q (x ∷ qs) = elim (Bool-cases (x == q)) [
  | inl same ↦
      rw (← ==→eq x q same) (ground (arith, ==_self x, contains-completed_senders completed x qs))
  | inr other ↦ ground (arith, contains-completed_senders completed q qs)
]

contains-remove_each :
    (q : ℕ) (rs qs : List ℕ)
    → contains q (remove_each rs qs) ≡ (if contains q rs then false else contains q qs)
unfolding contains remove_each
contains-remove_each q [] qs = refl
contains-remove_each q (r ∷ rs) qs =
    ground (arith, contains-remove_each q rs (remove_all r qs), contains-remove_all q r qs)

-- After a turn of the timer, of a server whose buffers stand under their ids: a buffer is there
-- exactly if it was there and is not stale, and it is the same one; a sender is there exactly if it
-- was there and is not completed.
pub on_timer_lem :
    {M : Type 0} (completed : ℕ → Bool) (session : ℕ → ℕ) (now id q : ℕ) (s : Streams M)
    → Keyed 0 s.buffers
    → (lookup id (on_timer completed session now s).1.buffers ≡ fresh now (lookup id s.buffers))
      × (contains q (on_timer completed session now s).1.senders
          ≡ (if completed q then false else contains q s.senders))
unfolding on_timer drop_completed
on_timer_lem completed session now id q s h = (
  lookup-drop_stale now id 0 s.buffers h,
  ground (
    arith,
    contains-remove_each q (completed_senders completed s.senders) s.senders,
    contains-completed_senders completed q s.senders,
  ),
)

-- When a buffer is stale, for times of 64 bits: if its last activity is not after the timer's
-- reading of the clock, more than 60 seconds must have passed; if it is after it, however little,
-- the difference wraps, and the buffer is stale unless it lies 2^64 - 60 seconds or more ahead.
pub is_stale_iff :
    {M : Type 0} (now : ℕ) (b : StreamBuffer M)
    → now < u64
    → b.last_activity < u64
    → is_stale now b ≡ (
        if leb b.last_activity now
        then ltb 60 (now - b.last_activity)
        else ltb 60 (u64 - (b.last_activity - now)))
unfolding is_stale
is_stale_iff now b h k = ground arith

-- ===== src/Server/Buffers/Reference.antt =====
-- The timer's two-pass removals (src/server.cpp, onTimer) beside one pass that keeps what is left.
use zway_server.Base.{
  ℕ, suc, ◌≤◌, ◌<◌, ◌≡◌, refl, ap, sym, ◌∙◌, Bool, true, List, [], ◌∷◌, map, arith, ==_self,
  Bool-cases, inl, inr, if◌then◌else◌,
}
use zway_server.OrderedMap.{OrderedMap, erase}
use zway_server.Server.Sessions.{remove_all, contains}
use zway_server.Server.Buffers.{
  is_stale, stale_ids, erase_all, drop_stale, completed_senders, remove_each, drop_completed,
  sessions_to_send, Streams, on_timer,
}
use zway_server.Server.Buffers.Ageing.{Keyed, contains-completed_senders}
use zway_server.Stream.StreamBuffer.{StreamBuffer}

-- What is left, in one pass.
unfoldable pub keep_fresh :
    {M : Type 0} → ℕ → OrderedMap (StreamBuffer M) → OrderedMap (StreamBuffer M)
keep_fresh now [] = []
keep_fresh now ((k, b) ∷ m) =
    let rest = keep_fresh now m in if is_stale now b then rest else (k, b) ∷ rest

unfoldable pub keep_busy : (ℕ → Bool) → List ℕ → List ℕ
keep_busy completed [] = []
keep_busy completed (q ∷ qs) =
    let rest = keep_busy completed qs in if completed q then rest else q ∷ rest

-- Ids that stand above a key.
abbrev Above : ℕ → List ℕ → Type 0
Above k [] = Unit {0}
Above k (i ∷ is) = (k < i) × Above k is

Above-mono : (k j : ℕ) (is : List ℕ) → k ≤ j → Above j is → Above k is
Above-mono k j [] h a = tt
Above-mono k j (i ∷ is) h a = (omega arith, Above-mono k j is h a.1)

module _ {M : Type 0} where
  stale_ids-Above :
      (now k : ℕ) (m : OrderedMap (StreamBuffer M)) → Keyed (suc k) m → Above k (stale_ids now m)
  unfolding stale_ids
  stale_ids-Above now k [] h = tt
  stale_ids-Above now k ((j, b) ∷ m) h =
      let rest = Above-mono k j (stale_ids now m) (omega arith) (stale_ids-Above now j m h.2) in
      elim (Bool-cases (is_stale now b)) [
        | inl stale ↦ rw stale (ground arith, rest)
        | inr new ↦ rw new rest
      ]

  erase-below :
      (k : ℕ) (m : OrderedMap (StreamBuffer M)) {n : ℕ} → k < n → Keyed n m → erase k m ≡ m
  unfolding erase
  erase-below k [] lt h = refl
  erase-below k ((j, b) ∷ m) lt h = ground (arith, erase-below k m {n = suc j} (omega arith) h.2)

  erase_all-cons :
      (k : ℕ) (b : StreamBuffer M) (is : List ℕ) (m : OrderedMap (StreamBuffer M))
      → Above k is
      → erase_all is ((k, b) ∷ m) ≡ (k, b) ∷ erase_all is m
  unfolding erase_all erase
  erase_all-cons k b [] m a = refl
  erase_all-cons k b (i ∷ is) m a = ground (arith, erase_all-cons k b is (erase i m) a.1)

  drop_stale-keep :
      (now n : ℕ) (m : OrderedMap (StreamBuffer M))
      → Keyed n m
      → drop_stale now m ≡ keep_fresh now m
  unfolding drop_stale stale_ids erase_all erase keep_fresh
  drop_stale-keep now n [] h = refl
  drop_stale-keep now n ((k, b) ∷ m) h = ground (
    arith,
    drop_stale-keep now (suc k) m h.2,
    erase_all-cons k b (stale_ids now m) m (stale_ids-Above now k m h.2),
    erase-below k m {n = suc k} (omega arith) h.2,
    ==_self k,
  )

-- What is left after each of the ids was removed.
without : List ℕ → List ℕ → List ℕ
without rs [] = []
without rs (q ∷ qs) = let rest = without rs qs in if contains q rs then rest else q ∷ rest

without-remove_all : (r : ℕ) (rs qs : List ℕ) → without rs (remove_all r qs) ≡ without (r ∷ rs) qs
unfolding without remove_all contains
without-remove_all r rs [] = refl
without-remove_all r rs (q ∷ qs) = ground (arith, without-remove_all r rs qs)

without-nil : (qs : List ℕ) → without [] qs ≡ qs
unfolding without contains
without-nil [] = refl
without-nil (q ∷ qs) = ap (λ (l : List ℕ). q ∷ l) (without-nil qs)

remove_each-without : (rs qs : List ℕ) → remove_each rs qs ≡ without rs qs
unfolding remove_each
remove_each-without [] qs = sym (without-nil qs)
remove_each-without (r ∷ rs) qs =
    remove_each-without rs (remove_all r qs) ∙ without-remove_all r rs qs

-- The list begins with some senders and goes on with the given ones.
without-completed :
    (completed : ℕ → Bool) (all qs : List ℕ)
    → ((q : ℕ) → contains q qs ≡ true → contains q all ≡ true)
    → without (completed_senders completed all) qs ≡ keep_busy completed qs
unfolding without keep_busy contains
without-completed completed all [] h = refl
without-completed completed all (q ∷ qs) h = ground (
  arith,
  contains-completed_senders completed q all,
  h q (ground (arith, ==_self q)),
  without-completed completed all qs (λ x m. h x (ground arith)),
)

sessions_to_send-keep :
    (completed : ℕ → Bool) (session : ℕ → ℕ) (qs : List ℕ)
    → sessions_to_send completed session qs ≡ map session (keep_busy completed qs)
unfolding sessions_to_send keep_busy
sessions_to_send-keep completed session [] = refl
sessions_to_send-keep completed session (q ∷ qs) =
    ground (arith, sessions_to_send-keep completed session qs)

-- The timer's turn is the same as one pass over each list, in a server whose buffers stand under
-- their ids in rising order: the buffers that are not stale stay, in order; the senders that are not
-- completed stay, in order, as often as they were there; and the sessions of exactly these senders
-- are told to send, in the same order.
pub on_timer-eq-keep :
    {M : Type 0} (completed : ℕ → Bool) (session : ℕ → ℕ) (now : ℕ) (s : Streams M)
    → Keyed 0 s.buffers
    → on_timer completed session now s ≡ (
      map session (keep_busy completed s.senders),
      record { buffers = keep_fresh now s.buffers; senders = keep_busy completed s.senders },
    )
unfolding on_timer drop_completed
on_timer-eq-keep completed session now s h = rw (
  sessions_to_send-keep completed session s.senders,
  drop_stale-keep now 0 s.buffers h,
  remove_each-without (completed_senders completed s.senders) s.senders,
  without-completed completed s.senders s.senders (λ q m. m),
)

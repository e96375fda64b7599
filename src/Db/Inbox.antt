-- ===== src/Db/Inbox.antt =====
-- The grouping loop of DB::getInbox (src/db.cpp).
use mathlib.Core.List.{append-nil, append_assoc}
use zway_server.Base.{
  ℕ, ◌≡◌, refl, List, [], ◌∷◌, ◌++◌, map, Option, none, some, arith, ◌∙◌, Bool-cases, inl, inr,
  ◌==◌, if◌then◌else◌,
}
use zway_server.OrderedMap.{OrderedMap, lookup, assign, lookup-assign}
use zway_server.Value.{Ubj, ubj_obj, ubj_array, int32}

abbrev or_new : Option (List ℕ) → ℕ → List ℕ
or_new none id = id ∷ []
or_new (some ids) id = ids ++ id ∷ []

-- One turn of the loop, on a document's sender and id.
unfoldable pub put_request : OrderedMap (List ℕ) → ℕ × ℕ → OrderedMap (List ℕ)
put_request m (src, id) = assign src (or_new (lookup src m) id) m

unfoldable pub group_from : OrderedMap (List ℕ) → List (ℕ × ℕ) → OrderedMap (List ℕ)
group_from m [] = m
group_from m (d ∷ ds) = group_from (put_request m d) ds

unfoldable pub group : List (ℕ × ℕ) → OrderedMap (List ℕ)
unfolding group_from put_request lookup assign
group ds = group_from [] ds

unfoldable pub inbox_of : OrderedMap (List ℕ) → Ubj
inbox_of m = ubj_array (
    map (λ e. ubj_obj (("contactId", int32 e.0) ∷ ("requestIds", ubj_array (map int32 e.1)) ∷ []))
      m)

-- The ids of one sender, in order.
unfoldable pub ids_of : ℕ → List (ℕ × ℕ) → List ℕ
ids_of k [] = []
ids_of k ((src, id) ∷ ds) = let rest = ids_of k ds in if src == k then id ∷ rest else rest

-- A sender without messages has no entry.
abbrev pub as_entry : List ℕ → Option (List ℕ)
as_entry [] = none
as_entry (id ∷ ids) = some (id ∷ ids)

or_new-as_entry : (l : List ℕ) (id : ℕ) → some (or_new (as_entry l) id) ≡ as_entry (l ++ id ∷ [])
or_new-as_entry [] id = refl
or_new-as_entry (x ∷ l) id = refl

lookup-put_request :
    (k : ℕ) (m : OrderedMap (List ℕ)) (l : List ℕ) (src id : ℕ)
    → lookup k m ≡ as_entry l
    → lookup k (put_request m (src, id))
      ≡ (if src == k then as_entry (l ++ id ∷ []) else as_entry l)
unfolding put_request
lookup-put_request k m l src id h =
    ground (arith, lookup-assign src k (or_new (lookup src m) id) m, or_new-as_entry l id)

group_from-lookup :
    (k : ℕ) (m : OrderedMap (List ℕ)) (l : List ℕ) (ds : List (ℕ × ℕ))
    → lookup k m ≡ as_entry l
    → lookup k (group_from m ds) ≡ as_entry (l ++ ids_of k ds)
unfolding group_from ids_of
group_from-lookup k m l [] h = rw append-nil h
group_from-lookup k m l ((src, id) ∷ ds) h = elim (Bool-cases (src == k)) [
  | inl hit ↦
      rw (hit, ← append_assoc l (id ∷ []) (ids_of k ds))
        (group_from-lookup k (put_request m (src, id)) (l ++ id ∷ []) ds
          (lookup-put_request k m l src id h ∙ rw hit))
  | inr miss ↦ rw miss (
      group_from-lookup k (put_request m (src, id)) l ds
        (lookup-put_request k m l src id h ∙ rw miss))
]

-- The inbox has an entry for exactly the senders of the waiting messages, and each sender's entry
-- holds the ids of that sender's messages in the order of the query's result.
pub lookup-group : (k : ℕ) (ds : List (ℕ × ℕ)) → lookup k (group ds) ≡ as_entry (ids_of k ds)
unfolding group lookup
lookup-group k ds = group_from-lookup k [] [] ds refl

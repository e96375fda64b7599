-- ===== src/Server/Sessions.antt =====
-- The map of sessions by account: Server::appendSession, removeSession, getSessions and
-- getSessionCount (src/server.cpp). A session is its pointer, a number.
use zway_server.Base.{
  ℕ, ◌≡◌, refl, Bool, true, false, ◌||◌, List, [], ◌∷◌, ◌++◌, Option, none, some, arith, ◌==◌,
  length, if◌then◌else◌,
}
use zway_server.OrderedMap.{OrderedMap, lookup, assign, erase, lookup-assign, lookup-erase}

abbrev pub or_nil : Option (List ℕ) → List ℕ
or_nil none = []
or_nil (some l) = l

-- `list::remove`: every entry of that pointer goes.
unfoldable pub remove_all : ℕ → List ℕ → List ℕ
remove_all q [] = []
remove_all q (x ∷ xs) = let rest = remove_all q xs in if x == q then rest else x ∷ rest

unfoldable pub append_session : ℕ → ℕ → OrderedMap (List ℕ) → OrderedMap (List ℕ)
append_session account q m = assign account (or_nil (lookup account m) ++ q ∷ []) m

-- A bucket that is emptied goes.
put_or_erase : ℕ → List ℕ → OrderedMap (List ℕ) → OrderedMap (List ℕ)
put_or_erase account [] m = erase account m
put_or_erase account (x ∷ xs) m = assign account (x ∷ xs) m

remove_found : ℕ → ℕ → Option (List ℕ) → OrderedMap (List ℕ) → OrderedMap (List ℕ)
unfolding put_or_erase remove_all
remove_found account q none m = m
remove_found account q (some l) m = put_or_erase account (remove_all q l) m

unfoldable pub remove_session : ℕ → ℕ → OrderedMap (List ℕ) → OrderedMap (List ℕ)
unfolding remove_found
remove_session account q m = remove_found account q (lookup account m) m

unfoldable pub get_sessions : ℕ → OrderedMap (List ℕ) → List ℕ
get_sessions account m = or_nil (lookup account m)

-- The number of accounts with a session.
unfoldable pub get_session_count : OrderedMap (List ℕ) → ℕ
get_session_count m = length m

unfoldable pub contains : ℕ → List ℕ → Bool
contains q [] = false
contains q (x ∷ xs) = x == q || contains q xs

pub contains-append :
    (q x : ℕ) (xs : List ℕ) → contains q (xs ++ x ∷ []) ≡ (x == q || contains q xs)
unfolding contains
contains-append q x [] = refl
contains-append q x (y ∷ xs) = ground (arith, contains-append q x xs)

pub contains-remove_all :
    (q x : ℕ) (xs : List ℕ)
    → contains q (remove_all x xs) ≡ (if x == q then false else contains q xs)
unfolding contains remove_all
contains-remove_all q x [] = ground arith
contains-remove_all q x (y ∷ xs) = ground (arith, contains-remove_all q x xs)

pub get_sessions-append :
    (k j q : ℕ) (m : OrderedMap (List ℕ))
    → get_sessions j (append_session k q m)
      ≡ (if k == j then get_sessions k m ++ q ∷ [] else get_sessions j m)
unfolding get_sessions append_session
get_sessions-append k j q m = ground (arith, lookup-assign k j (or_nil (lookup k m) ++ q ∷ []) m)

lookup-put_or_erase :
    (k j : ℕ) (l : List ℕ) (m : OrderedMap (List ℕ))
    → or_nil (lookup j (put_or_erase k l m)) ≡ (if k == j then l else or_nil (lookup j m))
unfolding put_or_erase
lookup-put_or_erase k j [] m = ground (arith, lookup-erase k j m)
lookup-put_or_erase k j (x ∷ xs) m = ground (arith, lookup-assign k j (x ∷ xs) m)

get_sessions-remove_found :
    (k j q : ℕ) (o : Option (List ℕ)) (m : OrderedMap (List ℕ))
    → lookup k m ≡ o
    → get_sessions j (remove_found k q o m)
      ≡ (if k == j then remove_all q (get_sessions k m) else get_sessions j m)
unfolding get_sessions remove_found remove_all
get_sessions-remove_found k j q none m h = ground arith
get_sessions-remove_found k j q (some l) m h =
    ground (arith, lookup-put_or_erase k j (remove_all q l) m)

pub get_sessions-remove :
    (k j q : ℕ) (m : OrderedMap (List ℕ))
    → get_sessions j (remove_session k q m)
      ≡ (if k == j then remove_all q (get_sessions k m) else get_sessions j m)
unfolding remove_session
get_sessions-remove k j q m = get_sessions-remove_found k j q (lookup k m) m refl

-- The map with the session moved from `a` to `b`.
abbrev pub moved : ℕ → ℕ → ℕ → OrderedMap (List ℕ) → OrderedMap (List ℕ)
moved a b me r = append_session b me (remove_session a me r)

pub contains-moved :
    (a b me k q : ℕ) (r : OrderedMap (List ℕ))
    → contains q (get_sessions k (moved a b me r)) ≡ true
    → (me == q) ≡ false
    → contains q (get_sessions k r) ≡ true
contains-moved a b me k q r m other = ground (
  arith,
  get_sessions-append b k me (remove_session a me r),
  contains-append q me (get_sessions b (remove_session a me r)),
  get_sessions-remove a k me r,
  get_sessions-remove a b me r,
  contains-remove_all q me (get_sessions a r),
)

-- ===== src/Db/Phones.antt =====
-- DB::comparePhone and deleteAccount (src/db.cpp), which nothing calls. Texts are lists of character
-- codes; `contains_text` is `std::string::find` beside `npos`.
use zway_server.Base.{
  ℕ, ◌≡◌, refl, Bool, true, false, ◌&&◌, ◌||◌, List, [], ◌∷◌, arith, ◌==◌, if◌then◌else◌,
}
use zway_server.Value.{Elements}

unfoldable pub begins_with : List ℕ → List ℕ → Bool
begins_with [] text = true
begins_with (c ∷ cs) [] = false
begins_with (c ∷ cs) (t ∷ ts) = c == t && begins_with cs ts

unfoldable pub contains_text : List ℕ → List ℕ → Bool
unfolding begins_with
contains_text part [] = begins_with part []
contains_text part (t ∷ ts) = begins_with part (t ∷ ts) || contains_text part ts

unfoldable pub is_empty : List ℕ → Bool
is_empty [] = true
is_empty (c ∷ cs) = false

unfoldable pub compare_phone : List ℕ → List ℕ → Bool
unfolding is_empty contains_text
compare_phone p1 p2 =
    if is_empty p1 || is_empty p2 then false else contains_text p2 p1 || contains_text p1 p2

-- The body is commented out.
unfoldable pub delete_account : Elements → Bool
delete_account info = false

begins_with_refl : (p : List ℕ) → begins_with p p ≡ true
unfolding begins_with
begins_with_refl [] = refl
begins_with_refl (c ∷ cs) = ground (arith, begins_with_refl cs)

-- The comparison does not depend on the order of its numbers, and a number that is not empty compares
-- with itself.
pub compare_phone_lem :
    (p1 p2 : List ℕ)
    → (compare_phone p1 p2 ≡ compare_phone p2 p1)
      × ((c : ℕ) → compare_phone (c ∷ p1) (c ∷ p1) ≡ true)
unfolding compare_phone contains_text is_empty begins_with
compare_phone_lem p1 p2 = (ground arith, λ c. ground (arith, begins_with_refl p1))

-- ===== src/World/Keeps.antt =====
-- Properties of the world that actions keep, with a rule for each way to build an action.
use zway_server.Base.{Bool, true, false, List, [], ◌∷◌, Option, none, some, if◌then◌else◌}
use zway_server.World.{
  World, Act, Exit, go, stop, crash, pure, return, fault, gets, modify, require, resume, or_else,
  for_each, ◌>>=◌,
}

-- However `m` ends, `P` holds afterwards if it held before.
pub record Keeps {S E A : Type 0} (P : World S E → Type 0) (m : Act S E A) : Type 0 where
  pub apply : (w : World S E) → P w → P (m w).1

module _ {S E A : Type 0} {P : World S E → Type 0} where
  pub Keeps-pure : (a : A) → Keeps P (pure a)
  unfolding pure
  Keeps-pure a = record { apply = λ w h. h }

  pub Keeps-return : (b : Bool) → Keeps P (return {A = A} b)
  unfolding return
  Keeps-return b = record { apply = λ w h. h }

  pub Keeps-fault : Keeps P (fault {A = A})
  unfolding fault
  Keeps-fault = record { apply = λ w h. h }

  pub Keeps-gets : (f : World S E → A) → Keeps P (gets f)
  unfolding gets
  Keeps-gets f = record { apply = λ w h. h }

  pub Keeps-if : (b : Bool) (m n : Act S E A) → Keeps P m → Keeps P n → Keeps P (if b then m else n)
  Keeps-if true m n km kn = km
  Keeps-if false m n km kn = kn

module _ {S E A B : Type 0} {P : World S E → Type 0} where
  Keeps-resume :
      (r : Exit A) (f : A → Act S E B)
      → ((a : A) → Keeps P (f a))
      → (w : World S E) → P w
      → P (resume r f w).1
  Keeps-resume (go a) f kf w h = (kf a).apply w h
  Keeps-resume (stop b) f kf w h = h
  Keeps-resume crash f kf w h = h

  pub Keeps-bind :
      (m : Act S E A) (f : A → Act S E B)
      → Keeps P m
      → ((a : A) → Keeps P (f a))
      → Keeps P (m >>= f)
  unfolding ◌>>=◌
  Keeps-bind m f km kf = record {
    apply = λ w h. let (r, w') = m w in Keeps-resume r f kf w' (km.apply w h);
  }

  pub Keeps-option :
      (o : Option A) (m : Act S E B) (f : A → Act S E B)
      → Keeps P m
      → ((a : A) → Keeps P (f a))
      → Keeps P (or_else o m f)
  unfolding or_else
  Keeps-option none m f km kf = km
  Keeps-option (some a) m f km kf = kf a

module _ {S E : Type 0} {P : World S E → Type 0} where
  pub Keeps-require : (b : Bool) (m : Act S E (Unit {0})) → Keeps P m → Keeps P (require b m)
  unfolding require
  Keeps-require true m k = Keeps-pure tt
  Keeps-require false m k = k

  pub Keeps-for_each :
      {A : Type 0} (xs : List A) (body : A → Act S E (Unit {0}))
      → ((a : A) → Keeps P (body a))
      → Keeps P (for_each xs body)
  unfolding for_each
  Keeps-for_each [] body k = Keeps-pure tt
  Keeps-for_each (x ∷ xs) body k = Keeps-bind (body x) _ (k x) λ _. Keeps-for_each xs body k

  pub Keeps-modify :
      (f : World S E → World S E) → ((w : World S E) → P w → P (f w)) → Keeps P (modify f)
  unfolding modify
  Keeps-modify f k = record { apply = k }

pub ruleset keeps_rules = (
  Keeps-pure, Keeps-return, Keeps-fault, Keeps-gets, Keeps-if, Keeps-bind, Keeps-option,
  Keeps-require, Keeps-for_each,
)

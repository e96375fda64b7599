-- ===== src/World.antt =====
-- The state that one request handler works on: the database, the sessions and the server's map of
-- them, the engines, the random source, and the log of what was sent. The actions that the methods
-- of include/session.h and include/server.h are written in.
pub mod Keeps
use zway_server.Base.{
  ℕ, ◌+◌, String, Bool, true, false, List, [], ◌∷◌, Option, none, some, ◌==◌, if◌then◌else◌,
}
use zway_server.Stdio.{Bytes}
use zway_server.Value.{Ubj, UbjApi, Elements, BsonApi}
use zway_server.OrderedMap.{OrderedMap}

-- A query of the mongo driver: filter, descending sort key, limit (0 for none), fields to return.
pub record Query : Type 0 where
  pub filter : Elements
  pub sort_down : Option String
  pub limit : ℕ
  pub fields : Elements

-- The mongo client over a database state `S`; `none` where the call throws. A call that writes and
-- throws may still have changed the database.
pub record Mongo (S : Type 0) : Type 0 where
  pub query : S → String → Query → Option (List Elements)
  pub count : S → String → Elements → Option ℕ
  pub insert : S → String → Elements → Bool × S
  pub remove : S → String → Elements → Bool → Bool × S
  pub update : S → String → Elements → Elements → Bool × S

-- The numbers of Zway::Request::Type.
pub record RequestTypes : Type 0 where
  pub dispatch : ℕ
  pub create_account : ℕ
  pub login : ℕ
  pub logout : ℕ
  pub config : ℕ
  pub add_contact : ℕ
  pub create_add_code : ℕ
  pub find_contact : ℕ
  pub accept_contact : ℕ
  pub reject_contact : ℕ
  pub contact_status : ℕ
  pub push : ℕ

-- All that the server calls and does not implement. `E` is the state of a session's Zway::Engine;
-- `pending` is its `requestPending`, `post` its `postRequest`. `rand n k` are the k bytes of draw n;
-- `sha256` gives no digest where one of OpenSSL's calls fails; `convertible` tells the values whose
-- conversion to BSON does not throw.
pub record Platform (S E : Type 0) : Type 0 where
  pub ubj : UbjApi
  pub bson : BsonApi
  pub mongo : Mongo S
  pub types : RequestTypes
  pub convertible : Ubj → Bool
  pub sha256 : Bytes → Option Bytes
  pub rand : ℕ → ℕ → Bytes
  pub u32_of : Bytes → ℕ
  pub hex : Bytes → String
  pub pending : E → ℕ → ℕ → Bool
  pub post : E → ℕ → ℕ → Ubj → E

-- class ClientSession, without its socket.
pub record Session : Type 0 where
  pub status : ℕ
  pub account_id : ℕ
  pub contacts : OrderedMap Ubj
  pub config : Ubj

-- What leaves a session or the server, by the session that it leaves.
pub data Effect : Type 0 where
  success : ℕ → ℕ → Ubj → Effect
  failure : ℕ → ℕ → ℕ → String → Effect
  notified : ℕ → ℕ → Ubj → Effect
  posted : ℕ → ℕ → ℕ → Ubj → Effect
  user_task : ℕ → Effect
  fcm_message : String → ℕ → ℕ → Effect
  resource : ℕ → ℕ → Effect

-- `sessions` are the session objects by pointer, `registry` is Server::m_sessions, `log` is newest
-- first.
pub record World (S E : Type 0) : Type 0 where
  pub store : S
  pub registry : OrderedMap (List ℕ)
  pub sessions : ℕ → Session
  pub engines : ℕ → E
  pub draws : ℕ
  pub log : List Effect

-- How an action ends: it goes on with a value, or the method returns a Boolean early, or the
-- program uses a null pointer or leaves the handler by an exception that nothing catches.
pub data Exit (A : Type 0) : Type 0 where
  go : A → Exit A
  stop : Bool → Exit A
  crash : Exit A

abbrev pub Act : Type 0 → Type 0 → Type 0 → Type 0
Act S E A = World S E → Exit A × World S E

abbrev pub set_at {ℓ} : {A : Type ℓ} → (ℕ → A) → ℕ → A → ℕ → A
set_at f p a q = if p == q then a else f q

module _ {S E A : Type 0} where
  unfoldable pub pure : A → Act S E A
  pure a w = (go a, w)

  -- `return b;`
  unfoldable pub return : Bool → Act S E A
  return b w = (stop b, w)

  unfoldable pub fault : Act S E A
  fault w = (crash, w)

  unfoldable pub gets : (World S E → A) → Act S E A
  gets f w = (go (f w), w)

module _ {S E A B : Type 0} where
  abbrev pub resume : Exit A → (A → Act S E B) → Act S E B
  resume (go a) f w = f a w
  resume (stop b) f w = (stop b, w)
  resume crash f w = (crash, w)

  infixl 10 ◌>>=◌ ◌>>◌
  unfoldable pub ◌>>=◌ : Act S E A → (A → Act S E B) → Act S E B
  unfolding pure return fault gets
  ◌>>=◌ m f w = let (r, w') = m w in resume r f w'

  abbrev pub ◌>>◌ : Act S E A → Act S E B → Act S E B
  m >> n = m >>= λ _. n

  unfoldable pub or_else : Option A → Act S E B → (A → Act S E B) → Act S E B
  or_else none m f = m
  or_else (some a) m f = f a

module _ {S E : Type 0} where
  unfoldable pub modify : (World S E → World S E) → Act S E (Unit {0})
  modify f w = (go tt, f w)

  unfoldable pub emit : Effect → Act S E (Unit {0})
  unfolding modify
  emit e = modify (λ w. record w { log = e ∷ w.log })

  -- Goes on only if the test holds.
  unfoldable pub require : Bool → Act S E (Unit {0}) → Act S E (Unit {0})
  unfolding pure
  require true otherwise = pure tt
  require false otherwise = otherwise

  -- `for (auto &x : xs) body`, where the body may return from the method.
  unfoldable pub for_each : {A : Type 0} → List A → (A → Act S E (Unit {0})) → Act S E (Unit {0})
  unfolding ◌>>=◌
  for_each [] body = pure tt
  for_each (x ∷ xs) body = body x >> for_each xs body

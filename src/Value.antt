-- ===== src/Value.antt =====
-- The documents that the server moves: messages in UBJSON (Zway::UBJ) and records in BSON (mongo).
-- Both libraries are foreign. The data types have the type tags that src/session.cpp tells apart;
-- how a value is read as a number, a text or a member is a parameter. Numbers are the patterns of
-- their bits.
use zway_server.Base.{ℕ, String, Bool, List, [], ◌∷◌, Option}
use zway_server.Stdio.{Bytes}

-- `buffer` is UBJ's array of bytes; `other` stands for every tag that the source does not name.
mutual
  pub data Ubj : Type 0 where
    object : Fields → Ubj
    array : Items → Ubj
    buffer : Bytes → Ubj
    string : String → Ubj
    int32 : ℕ → Ubj
    int64 : ℕ → Ubj
    float : ℕ → Ubj
    bool : Bool → Ubj
    other : ℕ → Ubj

  pub data Fields : Type 0 where
    end : Fields
    field : String → Ubj → Fields → Fields

  pub data Items : Type 0 where
    nil : Items
    cons : Ubj → Items → Items

-- An object and an array are both a sequence of named elements.
mutual
  pub data Bson : Type 0 where
    object : Elements → Bson
    array : Elements → Bson
    string : String → Bson
    number_int : ℕ → Bson
    number_long : ℕ → Bson
    number_double : ℕ → Bson
    bool : Bool → Bson
    bin_data : Bytes → Bson
    other : ℕ → Bson

  pub data Elements : Type 0 where
    eoo : Elements
    elem : String → Bson → Elements → Elements

-- `UBJ_OBJ("a" << x << …)` and `BSON("a" << x << …)`.
abbrev pub ubj_fields : List (String × Ubj) → Fields
ubj_fields [] = Fields.end
ubj_fields ((k, v) ∷ r) = field k v (ubj_fields r)

abbrev pub ubj_obj : List (String × Ubj) → Ubj
ubj_obj l = Ubj.object (ubj_fields l)

abbrev pub bson_obj : List (String × Bson) → Elements
bson_obj [] = eoo
bson_obj ((k, v) ∷ r) = elem k v (bson_obj r)

abbrev pub items : List Ubj → Items
items [] = nil
items (v ∷ r) = cons v (items r)

abbrev pub ubj_array : List Ubj → Ubj
ubj_array l = Ubj.array (items l)

-- The readers of Zway::UBJ::Value. `to_int` is taken as the uint32_t that the server stores.
pub record UbjApi : Type 0 where
  pub has_field : Ubj → String → Bool
  pub get : Ubj → String → Ubj
  pub to_int : Ubj → ℕ
  pub to_str : Ubj → String
  pub to_bool : Ubj → Bool
  pub to_array : Ubj → List Ubj
  pub buffer_of : Ubj → Option Bytes
  pub buffer_size : Ubj → ℕ

-- The readers of mongo::BSONObj and mongo::BSONElement. `is_obj` tells the elements whose `Obj()` does
-- not throw.
pub record BsonApi : Type 0 where
  pub get_elem : Elements → String → Bson
  pub as_int : Bson → ℕ
  pub as_str : Bson → String
  pub is_obj : Bson → Bool
  pub as_obj : Bson → Elements
  pub as_bin : Bson → Bytes

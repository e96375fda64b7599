-- ===== src/Convert.antt =====
-- ClientSession's conversions between the two kinds of documents (src/session.cpp).
pub mod RoundTrip
pub mod Examples
use zway_server.Base.{String, [], ◌∷◌, ◌++◌, str_eq, if◌then◌else◌}
use zway_server.Value.{
  Ubj, Fields, Items, Bson, Elements, buffer, int32, int64, float, field, end, nil, cons,
  number_int, number_long, number_double, bin_data, eoo, elem,
}

-- `ob.append(key, …)`: the builder of a BSON object keeps what is appended in order. A tag that is
-- not in the switch appends nothing; an array of bytes that is empty counts as an array.
unfoldable mutual
  pub ubj_val_to_bson : String → Ubj → Elements → Elements
  ubj_val_to_bson key (Ubj.object fs) rest = elem key (Bson.object (fields_to_bson fs)) rest
  ubj_val_to_bson key (Ubj.array xs) rest = elem key (Bson.array (items_to_bson xs)) rest
  ubj_val_to_bson key (buffer []) rest = elem key (Bson.array eoo) rest
  ubj_val_to_bson key (buffer (x ∷ xs)) rest = elem key (bin_data (x ∷ xs)) rest
  ubj_val_to_bson key (Ubj.string s) rest = elem key (Bson.string s) rest
  ubj_val_to_bson key (int32 n) rest = elem key (number_int n) rest
  ubj_val_to_bson key (int64 n) rest = elem key (number_long n) rest
  ubj_val_to_bson key (Ubj.bool b) rest = elem key (Bson.bool b) rest
  ubj_val_to_bson key (float x) rest = rest
  ubj_val_to_bson key (Ubj.other t) rest = rest

  pub fields_to_bson : Fields → Elements
  fields_to_bson end = eoo
  fields_to_bson (field k v fs) = ubj_val_to_bson k v (fields_to_bson fs)

  pub items_to_bson : Items → Elements
  items_to_bson nil = eoo
  items_to_bson (cons v xs) = ubj_val_to_bson "" v (items_to_bson xs)

-- A value that is neither an object nor an array gives the empty object.
unfoldable pub ubj_to_bson : Ubj → Elements
unfolding fields_to_bson
ubj_to_bson (Ubj.object fs) = fields_to_bson fs
ubj_to_bson (Ubj.array xs) = items_to_bson xs
ubj_to_bson (buffer bytes) = eoo
ubj_to_bson (Ubj.string s) = eoo
ubj_to_bson (int32 n) = eoo
ubj_to_bson (int64 n) = eoo
ubj_to_bson (float x) = eoo
ubj_to_bson (Ubj.bool b) = eoo
ubj_to_bson (Ubj.other t) = eoo

-- `res[k] = v` on the fields of an object that iterates in the order of insertion.
unfoldable pub put_field : String → Ubj → Fields → Fields
put_field k v end = field k v end
put_field k v (field j u fs) =
    let rest = put_field k v fs in if str_eq j k then field j v fs else field j u rest

-- The loops over the elements carry the result so far, as the source's do.
unfoldable mutual
  pub bson_to_ubj : Bson → Ubj
  bson_to_ubj (Bson.object es) = Ubj.object (obj_to_ubj es end)
  bson_to_ubj (Bson.array es) = Ubj.array (arr_to_ubj es)
  bson_to_ubj (Bson.string s) = Ubj.string s
  bson_to_ubj (number_int n) = int32 n
  bson_to_ubj (number_long n) = int64 n
  bson_to_ubj (number_double x) = float x
  bson_to_ubj (Bson.bool b) = Ubj.bool b
  bson_to_ubj (bin_data []) = Ubj.other 0
  bson_to_ubj (bin_data (x ∷ xs)) = buffer (x ∷ xs)
  bson_to_ubj (Bson.other t) = Ubj.other 0

  pub obj_to_ubj : Elements → Fields → Fields
  obj_to_ubj eoo res = res
  obj_to_ubj (elem k v es) res = obj_to_ubj es (put_field k (bson_to_ubj v) res)

  pub arr_to_ubj : Elements → Items
  arr_to_ubj eoo = nil
  arr_to_ubj (elem k v es) = cons (bson_to_ubj v) (arr_to_ubj es)

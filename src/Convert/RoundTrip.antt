-- ===== src/Convert/RoundTrip.antt =====
-- What comes back of a document that was stored (src/session.cpp, ubjToBson and bsonToUbj).
use zway_server.Base.{◌≡◌, refl, sym, ap, ◌∙◌, String, false, [], ◌∷◌, str_eq}
use zway_server.Value.{
  Ubj, Fields, Items, Elements, buffer, int32, int64, float, field, end, nil, cons,
}
use zway_server.Convert.{
  ubj_val_to_bson, fields_to_bson, items_to_bson, ubj_to_bson, put_field, bson_to_ubj, obj_to_ubj,
  arr_to_ubj,
}

-- No field has the name, and no name stands twice.
abbrev pub Lacks : String → Fields → Type 0
Lacks k end = Unit {0}
Lacks k (field j v fs) = (str_eq k j ≡ false) × Lacks k fs

abbrev pub Distinct : Fields → Type 0
Distinct end = Unit {0}
Distinct (field k v fs) = Lacks k fs × Distinct fs

-- The values that BSON can hold: no floating-point number, no value of another tag, no empty array
-- of bytes, and no object with a name twice.
unfoldable mutual
  pub Storable : Ubj → Type 0
  Storable (Ubj.object fs) = Distinct fs × StorableFields fs
  Storable (Ubj.array xs) = StorableItems xs
  Storable (buffer []) = ⊥
  Storable (buffer (x ∷ xs)) = Unit {0}
  Storable (Ubj.string s) = Unit {0}
  Storable (int32 n) = Unit {0}
  Storable (int64 n) = Unit {0}
  Storable (float x) = ⊥
  Storable (Ubj.bool b) = Unit {0}
  Storable (Ubj.other t) = ⊥

  pub StorableFields : Fields → Type 0
  StorableFields end = Unit {0}
  StorableFields (field k v fs) = Storable v × StorableFields fs

  pub StorableItems : Items → Type 0
  StorableItems nil = Unit {0}
  StorableItems (cons v xs) = Storable v × StorableItems xs

append : Fields → Fields → Fields
append end gs = gs
append (field k v fs) gs = field k v (append fs gs)

put_all : Fields → Fields → Fields
put_all end res = res
put_all (field k v fs) res = put_all fs (put_field k v res)

append-end : (fs : Fields) → append fs end ≡ fs
unfolding append
append-end end = refl
append-end (field k v fs) = ap (field k v) (append-end fs)

append_step :
    (acc : Fields) (k : String) (v : Ubj) (fs : Fields)
    → append (append acc (field k v end)) fs ≡ append acc (field k v fs)
unfolding append
append_step end k v fs = refl
append_step (field j u acc) k v fs = ap (field j u) (append_step acc k v fs)

Lacks-later :
    (j k : String) (v : Ubj) (acc fs : Fields)
    → Lacks j (append acc (field k v fs))
    → str_eq j k ≡ false
unfolding append
Lacks-later j k v end fs h = h.0
Lacks-later j k v (field i u acc) fs h = Lacks-later j k v acc fs h.1

put_field-append :
    (k : String) (v : Ubj) (acc fs : Fields)
    → Distinct (append acc (field k v fs))
    → put_field k v acc ≡ append acc (field k v end)
unfolding append put_field
put_field-append k v end fs h = refl
put_field-append k v (field j u acc) fs h =
    rw (Lacks-later j k v acc fs h.0) (ap (field j u) (put_field-append k v acc fs h.1))

put_all-append : (fs acc : Fields) → Distinct (append acc fs) → put_all fs acc ≡ append acc fs
unfolding put_all
put_all-append end acc h = sym (append-end acc)
put_all-append (field k v fs) acc h =
    ap (put_all fs) (put_field-append k v acc fs h)
    ∙ put_all-append fs (append acc (field k v end)) (rw append_step h)
    ∙ append_step acc k v fs

put_all-end : (fs : Fields) → Distinct fs → put_all fs end ≡ fs
unfolding append
put_all-end fs h = put_all-append fs end h

mutual
  unfolding Storable ubj_val_to_bson bson_to_ubj put_all

  from_obj :
      (v : Ubj) (k : String) (rest : Elements) (res : Fields)
      → Storable v
      → obj_to_ubj (ubj_val_to_bson k v rest) res ≡ obj_to_ubj rest (put_field k v res)
  from_obj (Ubj.object fs) k rest res h =
      ap (λ gs. obj_to_ubj rest (put_field k (Ubj.object gs) res))
        (from_fields fs end h.1 ∙ put_all-end fs h.0)
  from_obj (Ubj.array xs) k rest res h =
      ap (λ ys. obj_to_ubj rest (put_field k (Ubj.array ys) res)) (from_items xs h)
  from_obj (buffer []) k rest res h = absurd h
  from_obj (buffer (x ∷ xs)) k rest res h = refl
  from_obj (Ubj.string s) k rest res h = refl
  from_obj (int32 n) k rest res h = refl
  from_obj (int64 n) k rest res h = refl
  from_obj (float x) k rest res h = absurd h
  from_obj (Ubj.bool b) k rest res h = refl
  from_obj (Ubj.other t) k rest res h = absurd h

  from_arr :
      (v : Ubj) (rest : Elements)
      → Storable v
      → arr_to_ubj (ubj_val_to_bson "" v rest) ≡ cons v (arr_to_ubj rest)
  from_arr (Ubj.object fs) rest h =
      ap (λ gs. cons (Ubj.object gs) (arr_to_ubj rest))
        (from_fields fs end h.1 ∙ put_all-end fs h.0)
  from_arr (Ubj.array xs) rest h =
      ap (λ ys. cons (Ubj.array ys) (arr_to_ubj rest)) (from_items xs h)
  from_arr (buffer []) rest h = absurd h
  from_arr (buffer (x ∷ xs)) rest h = refl
  from_arr (Ubj.string s) rest h = refl
  from_arr (int32 n) rest h = refl
  from_arr (int64 n) rest h = refl
  from_arr (float x) rest h = absurd h
  from_arr (Ubj.bool b) rest h = refl
  from_arr (Ubj.other t) rest h = absurd h

  from_fields :
      (fs res : Fields) → StorableFields fs → obj_to_ubj (fields_to_bson fs) res ≡ put_all fs res
  from_fields end res h = refl
  from_fields (field k v fs) res h =
      from_obj v k (fields_to_bson fs) res h.0 ∙ from_fields fs (put_field k v res) h.1

  from_items : (xs : Items) → StorableItems xs → arr_to_ubj (items_to_bson xs) ≡ xs
  from_items nil h = refl
  from_items (cons v xs) h = from_arr v (items_to_bson xs) h.0 ∙ ap (cons v) (from_items xs h.1)

-- A UBJ object comes back unchanged from its conversion to BSON, and so does an array, if at any
-- depth no object has a name twice and there is no floating-point number, no empty array of bytes
-- and no value of a type that the code does not name.
pub obj_to_ubj-ubj_to_bson :
    (fs : Fields) (xs : Items)
    → Storable (Ubj.object fs)
    → Storable (Ubj.array xs)
    → (Ubj.object (obj_to_ubj (ubj_to_bson (Ubj.object fs)) end) ≡ Ubj.object fs)
      × (Ubj.array (arr_to_ubj (ubj_to_bson (Ubj.array xs))) ≡ Ubj.array xs)
unfolding ubj_to_bson Storable
obj_to_ubj-ubj_to_bson fs xs h k =
    (ap Ubj.object (from_fields fs end h.1 ∙ put_all-end fs h.0), ap Ubj.array (from_items xs k))

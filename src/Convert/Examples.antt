-- ===== src/Convert/Examples.antt =====
-- A run of the conversions.
use zway_server.Base.{◌≡◌, refl, [], ◌∷◌}
use zway_server.Value.{Ubj, Fields, Items, buffer, int32, field, end, nil, cons}
use zway_server.Convert.{ubj_to_bson, obj_to_ubj, arr_to_ubj}
use zway_server.Convert.RoundTrip.{Storable, obj_to_ubj-ubj_to_bson}

abbrev list : Items
list = cons (int32 4) (cons (buffer (1 ∷ 2 ∷ [])) nil)

abbrev document : Fields
document = field "name" (Ubj.string "ann") (field "list" (Ubj.array list) end)

document-Storable : Storable (Ubj.object document)
unfolding Storable
document-Storable = (((refl, tt), (tt, tt)), (tt, ((tt, (tt, tt)), tt)))

list-Storable : Storable (Ubj.array list)
unfolding Storable
list-Storable = (tt, (tt, tt))

obj_to_ubj-ubj_to_bson_example :
    (Ubj.object (obj_to_ubj (ubj_to_bson (Ubj.object document)) end) ≡ Ubj.object document)
    × (Ubj.array (arr_to_ubj (ubj_to_bson (Ubj.array list))) ≡ Ubj.array list)
obj_to_ubj-ubj_to_bson_example =
    obj_to_ubj-ubj_to_bson document list document-Storable list-Storable

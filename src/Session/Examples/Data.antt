-- ===== src/Session/Examples/Data.antt =====
-- Two accounts, one contact request, sessions and what they ask.
use zway_server.Base.{ℕ, String, [], ◌∷◌}
use zway_server.Stdio.{Bytes}
use zway_server.Value.{
  Ubj, Bson, Elements, int32, buffer, number_int, bin_data, bson_obj, ubj_obj, ubj_array,
}
use zway_server.World.{World, Session}
use zway_server.Session.Examples.Setup.{Store}

abbrev pub ann : Elements
ann =
    bson_obj (
      ("id", number_int 7) ∷ ("pass", bin_data (1 ∷ 2 ∷ 9 ∷ [])) ∷ ("salt", bin_data (9 ∷ [])) ∷ [])

abbrev pub wish : Elements
wish = bson_obj (
    ("id", number_int 5)
    ∷ ("type", number_int 3100)
    ∷ ("src", number_int 8)
    ∷ ("dst", number_int 7)
    ∷ ("addCode", Bson.string "AB")
    ∷ ("publicKey", Bson.object (bson_obj []))
    ∷ [])

abbrev pub bob : Elements
bob = bson_obj (("id", number_int 8) ∷ ("name", Bson.string "bob") ∷ [])

abbrev pub store : Store
store = record { accounts = ann ∷ bob ∷ []; requests = wish ∷ [] }

abbrev pub stranger : Session
stranger = record { status = 1; account_id = 99; contacts = []; config = Ubj.other 0 }

abbrev pub member_seven : Session
member_seven = record { status = 2; account_id = 7; contacts = []; config = Ubj.other 0 }

-- Session 1 before and after its login.
abbrev pub outside : World Store ℕ
outside = record {
  store = store;
  registry = (99, 1 ∷ []) ∷ [];
  sessions = λ q. stranger;
  engines = λ q. 0;
  draws = 0;
  log = [];
}

abbrev pub inside : World Store ℕ
inside = record outside { registry = (7, 1 ∷ []) ∷ []; sessions = λ q. member_seven }

abbrev pub login : Ubj
login =
    ubj_obj
      (("requestType", int32 3) ∷ ("account", int32 7) ∷ ("password", buffer (1 ∷ 2 ∷ [])) ∷ [])

abbrev pub answer : ℕ → Ubj
answer type = ubj_obj (
    ("requestId", int32 12)
    ∷ ("requestType", int32 type)
    ∷ ("contactRequestId", int32 5)
    ∷ ("publicKey", ubj_obj [])
    ∷ [])

abbrev pub message : Ubj
message = ubj_obj (
    ("requestType", int32 4100)
    ∷ ("keys", ubj_array (ubj_obj (("dst", int32 7) ∷ []) ∷ ubj_obj (("dst", int32 8) ∷ []) ∷ []))
    ∷ [])

abbrev pub new_password : Bytes
new_password =
    1 ∷ 2 ∷ 3 ∷ 4 ∷ 5 ∷ 6 ∷ 7 ∷ 8 ∷ 1 ∷ 2 ∷ 3 ∷ 4 ∷ 5 ∷ 6 ∷ 7 ∷ 8 ∷ 1 ∷ 2 ∷ 3 ∷ 4 ∷ 5 ∷ 6 ∷ 7 ∷ 8
    ∷ 1 ∷ 2 ∷ 3 ∷ 4 ∷ 5 ∷ 6 ∷ 7 ∷ 8 ∷ []

abbrev pub creation : Ubj
creation = ubj_obj (
    ("requestId", int32 3)
    ∷ ("name", Ubj.string "eve")
    ∷ ("phone", Ubj.string "")
    ∷ ("password", buffer new_password)
    ∷ [])

-- A server without accounts.
abbrev pub unused : World Store ℕ
unused = record outside { store = record { accounts = []; requests = [] } }

abbrev pub question : String → String → Ubj
question code name = ubj_obj (
    ("requestId", int32 4)
    ∷ ("addCode", Ubj.string code)
    ∷ ("name", Ubj.string name)
    ∷ ("publicKey", ubj_obj [])
    ∷ [])

abbrev pub first_login : Ubj
first_login = ubj_obj (("account", int32 1) ∷ ("password", buffer new_password) ∷ [])

-- ===== src/Session/Examples/Setup.antt =====
-- A small database and the libraries over it.
use zway_server.Base.{
  ℕ, ◌+◌, Bool, true, false, ◌&&◌, String, List, [], ◌∷◌, ◌++◌, Option, none, some, ◌==◌, str_eq,
  length, if◌then◌else◌,
}
use zway_server.Stdio.{Bytes}
use zway_server.Value.{
  Ubj, Fields, Items, Bson, Elements, field, end, nil, cons, elem, eoo, int32, buffer, number_int,
  bin_data,
}
use zway_server.World.{Platform, Mongo}

-- A database is its accounts and its requests.
pub record Store : Type 0 where
  pub accounts : List Elements
  pub requests : List Elements

abbrev pub elem_of : Elements → String → Bson
elem_of eoo k = Bson.other 0
elem_of (elem j v d) k = if str_eq j k then v else elem_of d k

abbrev pub int_of : Bson → ℕ
int_of (number_int n) = n
int_of _ = 0

abbrev pub str_of : Bson → String
str_of (Bson.string s) = s
str_of _ = ""

abbrev pub obj_of : Bson → Elements
obj_of (Bson.object d) = d
obj_of _ = eoo

abbrev pub is_obj_of : Bson → Bool
is_obj_of (Bson.object d) = true
is_obj_of _ = false

abbrev pub bin_of : Bson → Bytes
bin_of (bin_data b) = b
bin_of _ = []

-- A filter asks for the numbers and texts that it has.
abbrev pub agrees : Bson → Bson → Bool
agrees (number_int n) v = n == int_of v
agrees (Bson.string t) v = str_eq (str_of v) t
agrees _ v = true

abbrev pub matches : Elements → Elements → Bool
matches eoo d = true
matches (elem k v f) d = agrees v (elem_of d k) && matches f d

abbrev pub matching : Elements → List Elements → List Elements
matching f [] = []
matching f (d ∷ ds) = if matches f d then d ∷ matching f ds else matching f ds

abbrev pub without_first : Elements → List Elements → List Elements
without_first f [] = []
without_first f (d ∷ ds) = if matches f d then ds else d ∷ without_first f ds

abbrev pub collection : Store → String → List Elements
collection s name = if str_eq name "zway.accounts" then s.accounts else s.requests

abbrev pub inserted : Store → String → Elements → Store
inserted s name d =
    if str_eq name "zway.accounts"
    then record s { accounts = s.accounts ++ d ∷ [] }
    else record s { requests = s.requests ++ d ∷ [] }

abbrev pub mongo : Mongo Store
mongo = record {
  query = λ s name q. some (matching q.filter (collection s name));
  count = λ s name f. some (length (matching f (collection s name)));
  insert = λ s name d. (true, inserted s name d);
  remove = λ s name f one. (true, record s { requests = without_first f s.requests });
  update = λ s name f change. (true, s);
}

abbrev pub field_of : Fields → String → Ubj
field_of end k = Ubj.other 0
field_of (field j v fs) k = if str_eq j k then v else field_of fs k

abbrev pub member : Ubj → String → Ubj
member (Ubj.object fs) k = field_of fs k
member _ k = Ubj.other 0

abbrev pub is_there : Ubj → Bool
is_there (Ubj.other n) = false
is_there _ = true

abbrev pub number : Ubj → ℕ
number (int32 n) = n
number _ = 0

abbrev pub text : Ubj → String
text (Ubj.string s) = s
text _ = ""

abbrev pub truth : Ubj → Bool
truth (Ubj.bool b) = b
truth _ = false

abbrev pub list_of : Items → List Ubj
list_of nil = []
list_of (cons v xs) = v ∷ list_of xs

abbrev pub elements : Ubj → List Ubj
elements (Ubj.array xs) = list_of xs
elements _ = []

abbrev pub bytes_of : Ubj → Option Bytes
bytes_of (buffer b) = some b
bytes_of _ = none

abbrev pub size_of : Option Bytes → ℕ
size_of none = 0
size_of (some b) = length b

-- The digest of a text is the text itself, and all random bytes are zero.
abbrev pub platform : Platform Store ℕ
platform = record {
  ubj = record {
    has_field = λ v k. is_there (member v k);
    get = member;
    to_int = number;
    to_str = text;
    to_bool = truth;
    to_array = elements;
    buffer_of = bytes_of;
    buffer_size = λ v. size_of (bytes_of v);
  };
  bson = record {
    get_elem = elem_of;
    as_int = int_of;
    as_str = str_of;
    is_obj = is_obj_of;
    as_obj = obj_of;
    as_bin = bin_of;
  };
  mongo = mongo;
  types = record {
    dispatch = 1;
    create_account = 2;
    login = 3;
    logout = 4;
    config = 5;
    add_contact = 3100;
    create_add_code = 6;
    find_contact = 7;
    accept_contact = 8;
    reject_contact = 9;
    contact_status = 10;
    push = 4100;
  };
  convertible = λ v. true;
  sha256 = λ b. some b;
  rand = λ n k. 0 ∷ [];
  u32_of = λ b. 99;
  hex = λ b. "00";
  pending = λ e type id. false;
  post = λ e type id v. e + 1;
}

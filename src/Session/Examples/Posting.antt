-- ===== src/Session/Examples/Posting.antt =====
-- The theorems on messages, at the small database and an engine that lists what was posted.
use zway_server.Base.{
  ℕ, ◌≡◌, refl, Bool, true, false, ◌&&◌, ◌||◌, List, [], ◌∷◌, ◌++◌, none, some, arith, ◌==◌,
  Bool-cases, inl, inr, if◌then◌else◌,
}
use mathlib.Core.List.{Mem}
use zway_server.Value.{Ubj, Elements, int32, buffer, number_int, bson_obj, ubj_obj, ubj_array}
use zway_server.World.{World, Platform, go, posted, set_at}
use zway_server.Convert.RoundTrip.{Storable}
use zway_server.Server.Sessions.{contains, get_sessions}
use zway_server.OrderedMap.{lookup}
use zway_server.Session.Incoming
use zway_server.Session.Requests
use zway_server.Session.Responses
use zway_server.Session.Registered.{Registered}
use zway_server.Session.Delivery.Contents.{content_of, first_with}
use zway_server.Session.Delivery.Reaching.{requests_reach}
use zway_server.Session.Delivery.Once.{second_turn}
use zway_server.Session.Message.{key_for, message_to, push_posted, message_reaches}
use zway_server.Db.Laws.{Documents, Engines}
use zway_server.Session.Examples.Setup.{Store, matches, matching}
use zway_server.Session.Examples.Data.{wish, store, member_seven}
use zway_server.Session.Examples.Setup

abbrev pub holds : List (ℕ × ℕ) → ℕ → ℕ → Bool
holds [] type id = false
holds ((t, i) ∷ e) type id = (t == type && i == id) || holds e type id

abbrev pub platform : Platform Store (List (ℕ × ℕ))
platform = record {
  ubj = Setup.platform.ubj;
  bson = Setup.platform.bson;
  mongo = Setup.mongo;
  types = Setup.platform.types;
  convertible = λ v. true;
  sha256 = Setup.platform.sha256;
  rand = Setup.platform.rand;
  u32_of = Setup.platform.u32_of;
  hex = Setup.platform.hex;
  pending = holds;
  post = λ e type id v. (type, id) ∷ e;
}

pub matching-append :
    (f d : Elements) (ds : List Elements)
    → matching f (ds ++ d ∷ []) ≡ (if matches f d then matching f ds ++ d ∷ [] else matching f ds)
matching-append f d [] = elim (Bool-cases (matches f d)) [ inl e ↦ rw e refl | inr e ↦ rw e refl ]
matching-append f d (x ∷ ds) = ground (arith, matching-append f d ds)

pub docs : Documents platform
docs = record {
  get_elem_lem = λ j k v d. refl;
  as_int_lem = λ n. refl;
  insert_lem = λ s d account done.
      ground (arith, matching-append (bson_obj (("dst", number_int account) ∷ [])) d s.requests);
}

pub engines : Engines platform
engines = record { post_lem = λ e t i t' i' v. refl }

-- Account 7 has a session, account 8 has two.
abbrev pub world : World Store (List (ℕ × ℕ))
world = record {
  store = store;
  registry = (7, 1 ∷ []) ∷ (8, 2 ∷ 3 ∷ []) ∷ [];
  sessions = λ q. if q == 1 then member_seven else record member_seven { account_id = 8 };
  engines = λ q. [];
  draws = 0;
  log = [];
}

abbrev pub key : Ubj
key = ubj_obj (("dst", int32 8) ∷ ("key", buffer (4 ∷ [])) ∷ [])

abbrev pub letter : Ubj
letter = ubj_obj (
    ("requestId", int32 30)
    ∷ ("requestType", int32 4100)
    ∷ ("resources", ubj_array [])
    ∷ ("salt", buffer (3 ∷ []))
    ∷ ("meta", buffer (5 ∷ []))
    ∷ ("keys", ubj_array (key ∷ []))
    ∷ [])

fine : (s : Store) (d : Elements) → (platform.mongo.insert s "zway.requests" d).0 ≡ true
fine s d = refl

pub world-Registered : Registered world
unfolding get_sessions contains lookup
world-Registered = record { placed = λ k q m. ground arith }

pub one_of_seven : contains 1 (get_sessions 7 world.registry) ≡ true
unfolding contains get_sessions lookup
one_of_seven = refl

pub member_of_eight : contains 3 (get_sessions 8 world.registry) ≡ true
unfolding contains get_sessions lookup
member_of_eight = refl

named : key_for platform 1 letter 8 (key ∷ []) ≡ some key
unfolding key_for
named = refl

wish_first : first_with platform 3100 5 (wish ∷ []) ≡ some wish
unfolding first_with
wish_first = refl

requests_reach_example :
    Mem
      (posted 1 3100 5 (content_of platform world 3100 5 wish))
      (Incoming.process_user_requests platform 7 world).1.log
requests_reach_example =
    requests_reach platform engines world 1 7 wish world-Registered one_of_seven refl refl
      wish_first

letter_stored : Storable (Incoming.forward_of platform 7 letter key)
unfolding Storable Incoming.forward_of
letter_stored = (
  (
    (refl, (refl, (refl, (refl, (refl, (refl, tt)))))),
    (
      (refl, (refl, (refl, (refl, (refl, tt))))),
      (
        (refl, (refl, (refl, (refl, tt)))),
        ((refl, (refl, (refl, tt))), ((refl, (refl, tt)), ((refl, tt), (tt, tt)))),
      ),
    ),
  ),
  (tt, (tt, (tt, (tt, (tt, (tt, (tt, tt))))))),
)

none_waits : first_with platform 4100 30 [] ≡ none
unfolding first_with
none_waits = refl

message_reaches_example :
    Mem
      (posted 3 4100 30 (message_to platform 7 letter key))
      (Incoming.process_user_requests platform 8
        (Incoming.process_push_request platform 1 letter world).1).1.log
message_reaches_example =
    message_reaches platform 1 letter docs engines world 3 8 key fine world-Registered (omega arith)
      refl named member_of_eight letter_stored refl refl refl refl refl none_waits

second_turn_example :
    Requests.process_requests platform 1 (Requests.process_requests platform 1 world).1
    ≡ (go true, (Requests.process_requests platform 1 world).1)
second_turn_example = second_turn platform engines 1 world

push_posted_example :
    Requests.process_request platform 3 (Incoming.push_doc platform 7 8 letter key) world ≡ (
      go tt,
      record world {
        engines = set_at world.engines 3 ((4100, 30) ∷ []);
        log = posted 3 4100 30 (Incoming.forward_of platform 7 letter key) ∷ [];
      },
    )
push_posted_example =
    push_posted platform letter docs world 3 7 8 key letter_stored refl refl refl refl refl

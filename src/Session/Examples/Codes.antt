-- ===== src/Session/Examples/Codes.antt =====
-- The way of an add code, at the small database.
use zway_server.Base.{◌≡◌, refl, true, [], ◌∷◌, arith}
use zway_server.Value.{Bson, bson_obj, number_int}
use zway_server.World.{go}
use zway_server.Session.Contacts
use zway_server.Session.Codes.{code_found}
use zway_server.Db.Laws.{Codes}
use zway_server.Session.Examples.Data.{ann, question}
use zway_server.Session.Examples.Posting
use zway_server.Session.Examples.Posting.{matching-append}

codes : Codes Posting.platform
codes = record {
  as_str_lem = λ t. refl;
  code_lem = λ s d code done. ground (
    arith,
    matching-append (bson_obj (("type", number_int 3100) ∷ ("addCode", Bson.string code) ∷ [])) d
        s.requests,
  );
}

has_key : Contacts.has_public_key Posting.platform (question "" "") ≡ true
unfolding Contacts.has_public_key
has_key = refl

-- Session 1 asks for a code, and session 2 uses it.
code_found_example :
    Contacts.contact_query Posting.platform 2
      (question "00" "")
      "00"
      (Contacts.process_create_add_code Posting.platform 1 (question "" "") Posting.world).1
    ≡ (
      go (bson_obj (("id", number_int 7) ∷ [])),
      (Contacts.process_create_add_code Posting.platform 1 (question "" "") Posting.world).1,
    )
code_found_example =
    code_found Posting.platform Posting.docs codes 1 2 (question "" "") (question "00" "") ann
      Posting.world (omega arith) refl has_key refl refl refl

-- ===== src/Session/Codes.antt =====
-- The way of an add code: processCreateAddCode for the one, then the query by which
-- processAddContactRequest looks for the contact of another (src/session.cpp).
use text.Mathlib.TextPositions.{eq_refl}
use zway_server.Base.{
  ℕ, ◌≤◌, ◌≡◌, refl, ap, ◌∙◌, String, Bool, true, false, Option, none, some, List, [], ◌∷◌, ==_self,
  str_eq,
}
use zway_server.Value.{Ubj, Bson, Elements, bson_obj, number_int}
use zway_server.World.{World, Platform, Exit, go, pure, gets, or_else, ◌>>=◌}
use zway_server.Session.Account.{request_id}
use zway_server.Session.Outcomes.{own}
use zway_server.Session.Contacts
use zway_server.Session.Adding.{create_add_code_effects}
use zway_server.Db
use zway_server.Db.Laws.{Documents, Codes, coded}

abbrev pub head_of : List Elements → Option Elements
head_of [] = none
head_of (d ∷ ds) = some d

pub first-or_empty : (o : Option (List Elements)) → Db.first o ≡ head_of (Db.or_empty o)
first-or_empty none = refl
first-or_empty (some []) = refl
first-or_empty (some (d ∷ ds)) = refl

module _ {S E : Type 0} (p : Platform S E) (docs : Documents p) (codes : Codes p) where
  module _ (rid src : ℕ) (mine : Elements) (key : Bson) (code : String) where
    abbrev doc : Elements
    doc = Contacts.add_code_doc p rid src mine key code

    doc-type : p.bson.as_int (p.bson.get_elem doc "type") ≡ p.types.add_contact
    unfolding Contacts.add_code_doc
    doc-type =
        ap p.bson.as_int (docs.get_elem_lem "id" "type" _ _ ∙ docs.get_elem_lem "type" "type" _ _)
        ∙ docs.as_int_lem p.types.add_contact

    doc-src : p.bson.get_elem doc "src" ≡ number_int src
    unfolding Contacts.add_code_doc
    doc-src =
        docs.get_elem_lem "id" "src" _ _
        ∙ docs.get_elem_lem "type" "src" _ _
        ∙ docs.get_elem_lem "time" "src" _ _
        ∙ docs.get_elem_lem "ttl" "src" _ _
        ∙ docs.get_elem_lem "src" "src" _ _

    doc-code : p.bson.as_str (p.bson.get_elem doc "addCode") ≡ code
    unfolding Contacts.add_code_doc
    doc-code =
        ap p.bson.as_str (
          docs.get_elem_lem "id" "addCode" _ _
          ∙ docs.get_elem_lem "type" "addCode" _ _
          ∙ docs.get_elem_lem "time" "addCode" _ _
          ∙ docs.get_elem_lem "ttl" "addCode" _ _
          ∙ docs.get_elem_lem "src" "addCode" _ _
          ∙ docs.get_elem_lem "name" "addCode" _ _
          ∙ docs.get_elem_lem "phone" "addCode" _ _
          ∙ docs.get_elem_lem "publicKey" "addCode" _ _
          ∙ docs.get_elem_lem "addCode" "addCode" _ _)
        ∙ codes.as_str_lem code

    stored_first :
        (s : S)
        → (p.mongo.insert s Db.requests doc).0 ≡ true
        → coded p code s ≡ []
        → coded p code (p.mongo.insert s Db.requests doc).1 ≡ doc ∷ []
    stored_first s fine new =
        codes.code_lem s doc code fine
        ∙ rw (doc-type, doc-code, ==_self p.types.add_contact, eq_refl code, new) refl

  by_code :
      (me : ℕ) (head : Ubj) (code : String) (request : Elements) (w : World S E)
      → str_eq code "" ≡ false
      → coded p code w.store ≡ request ∷ []
      → Contacts.contact_query p me head code w
        ≡ (go (bson_obj (("id", p.bson.get_elem request "src") ∷ [])), w)
  unfolding Contacts.contact_query Db.get_request or_else gets pure ◌>>=◌
  by_code me head code request w some_code one =
      rw
        (
          some_code,
          first-or_empty (
              p.mongo.query w.store Db.requests (
                Db.plain
                  (bson_obj
                    (("type", number_int p.types.add_contact) ∷ ("addCode", Bson.string code) ∷ []))
                  (bson_obj []) 0)),
          one,
        )
        refl

  -- The code that a session draws, and the database after its request for one.
  abbrev pub drawn : World S E → String
  drawn w = p.hex (p.rand w.draws 4)

  abbrev pub coded_doc : ℕ → Ubj → Elements → World S E → Elements
  coded_doc me head mine w =
      Contacts.add_code_doc p (request_id p head) (w.sessions me).account_id mine
        (Contacts.public_key p head) (drawn w)

  -- A new add code leads back to its maker: after a logged-in session whose account is in the database
  -- has asked for a code, with a public key, the next query for a contact by the drawn code, in the
  -- state that the request left and by whatever session, asks for the account with that session's
  -- account id, and changes nothing. The code is not empty, no contact request held it before, the
  -- insertion did not throw, and documents and queries are as their laws say.
  pub code_found :
      (me other : ℕ) (head asking : Ubj) (mine : Elements) (w : World S E)
      → 2 ≤ (w.sessions me).status
      → own p me head w ≡ some mine
      → Contacts.has_public_key p head ≡ true
      → (p.mongo.insert w.store Db.requests (coded_doc me head mine w)).0 ≡ true
      → coded p (drawn w) w.store ≡ []
      → str_eq (drawn w) "" ≡ false
      → Contacts.contact_query p other asking
          (drawn w)
          (Contacts.process_create_add_code p me head w).1
        ≡ (
          go (bson_obj (("id", number_int (w.sessions me).account_id) ∷ [])),
          (Contacts.process_create_add_code p me head w).1,
        )
  code_found me other head asking mine w inside ours key fine new some_code =
      let account = (w.sessions me).account_id in
      let rid = request_id p head in
      let public_key = Contacts.public_key p head in
      let after = (Contacts.process_create_add_code p me head w).1 in
      let left =
        ap (λ (r : Exit Bool × World S E). coded p (drawn w) r.1.store)
          (create_add_code_effects p me head w mine inside ours key)
        ∙ stored_first rid account mine public_key (drawn w) w.store fine new in
      by_code other asking (drawn w) (coded_doc me head mine w) after some_code left
      ∙ ap (λ v. (go (bson_obj (("id", v) ∷ [])), after))
          (doc-src rid account mine public_key (drawn w))

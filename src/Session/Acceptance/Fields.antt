-- ===== src/Session/Acceptance/Fields.antt =====
-- The elements of the document of an acceptance (src/session.cpp, processAcceptContact), as they are
-- read again, and the requests that a removal leaves.
use zway_server.Base.{ℕ, ◌≡◌, refl, ap, ◌∙◌, String, false, List, [], ◌∷◌, none, arith, str_eq}
use zway_server.Value.{Bson, Elements, bson_obj}
use zway_server.World.{Platform}
use zway_server.Session.Answers
use zway_server.Session.Delivery.Contents.{first_with}
use zway_server.Db.Laws.{Documents, dst_of, without_id}
use zway_server.Db.Collection.{addressed}

module _ {S E : Type 0} (p : Platform S E) (docs : Documents p) where
  module _ (rid old src dst : ℕ) (mine : Elements) (key : Bson) where
    abbrev accepted : Elements
    accepted = Answers.accept_doc p rid old src dst mine key

    pub accepted-id : p.bson.as_int (p.bson.get_elem accepted "id") ≡ rid
    unfolding Answers.accept_doc
    accepted-id = ap p.bson.as_int (docs.get_elem_lem "id" "id" _ _) ∙ docs.as_int_lem rid

    pub accepted-type : p.bson.as_int (p.bson.get_elem accepted "type") ≡ p.types.accept_contact
    unfolding Answers.accept_doc
    accepted-type =
        ap p.bson.as_int (
          docs.get_elem_lem "id" "type" _ _
          ∙ docs.get_elem_lem "contactRequestId" "type" _ _
          ∙ docs.get_elem_lem "type" "type" _ _)
        ∙ docs.as_int_lem p.types.accept_contact

    pub accepted-dst : dst_of p accepted ≡ dst
    unfolding Answers.accept_doc
    accepted-dst =
        ap p.bson.as_int (
          docs.get_elem_lem "id" "dst" _ _
          ∙ docs.get_elem_lem "contactRequestId" "dst" _ _
          ∙ docs.get_elem_lem "type" "dst" _ _
          ∙ docs.get_elem_lem "src" "dst" _ _
          ∙ docs.get_elem_lem "dst" "dst" _ _)
        ∙ docs.as_int_lem dst

    pub accepted-contact_request_id :
        p.bson.as_int (p.bson.get_elem accepted "contactRequestId") ≡ old
    unfolding Answers.accept_doc
    accepted-contact_request_id =
        ap p.bson.as_int (
          docs.get_elem_lem "id" "contactRequestId" _ _
          ∙ docs.get_elem_lem "contactRequestId" "contactRequestId" _ _)
        ∙ docs.as_int_lem old

    pub accepted-src : p.bson.as_int (p.bson.get_elem accepted "src") ≡ src
    unfolding Answers.accept_doc
    accepted-src =
        ap p.bson.as_int (
          docs.get_elem_lem "id" "src" _ _
          ∙ docs.get_elem_lem "contactRequestId" "src" _ _
          ∙ docs.get_elem_lem "type" "src" _ _
          ∙ docs.get_elem_lem "src" "src" _ _)
        ∙ docs.as_int_lem src

    -- A name that stands behind the first five is looked for in what follows them.
    accepted-tail :
        (k : String)
        → str_eq "id" k ≡ false
        → str_eq "contactRequestId" k ≡ false
        → str_eq "type" k ≡ false
        → str_eq "src" k ≡ false
        → str_eq "dst" k ≡ false
        → p.bson.get_elem accepted k
          ≡ p.bson.get_elem
              (bson_obj (
                ("name", p.bson.get_elem mine "name")
                ∷ ("phone", p.bson.get_elem mine "phone")
                ∷ ("publicKey", key)
                ∷ []))
              k
    unfolding Answers.accept_doc
    accepted-tail k e1 e2 e3 e4 e5 =
        rw
          (
            docs.get_elem_lem "id" k,
            e1,
            docs.get_elem_lem "contactRequestId" k,
            e2,
            docs.get_elem_lem "type" k,
            e3,
            docs.get_elem_lem "src" k,
            e4,
            docs.get_elem_lem "dst" k,
            e5,
          )
          refl

    pub accepted-name : p.bson.get_elem accepted "name" ≡ p.bson.get_elem mine "name"
    accepted-name =
        accepted-tail "name" refl refl refl refl refl ∙ docs.get_elem_lem "name" "name" _ _

    pub accepted-phone : p.bson.get_elem accepted "phone" ≡ p.bson.get_elem mine "phone"
    accepted-phone =
        accepted-tail "phone" refl refl refl refl refl
        ∙ docs.get_elem_lem "name" "phone" _ _
        ∙ docs.get_elem_lem "phone" "phone" _ _

    pub accepted-public_key : p.bson.get_elem accepted "publicKey" ≡ key
    accepted-public_key =
        accepted-tail "publicKey" refl refl refl refl refl
        ∙ docs.get_elem_lem "name" "publicKey" _ _
        ∙ docs.get_elem_lem "phone" "publicKey" _ _
        ∙ docs.get_elem_lem "publicKey" "publicKey" _ _

  -- A removal brings no request with a type and an id where there was none.
  pub first_with-left :
      (type id gone account : ℕ) (ds : List Elements)
      → first_with p type id (addressed p account ds) ≡ none
      → first_with p type id (addressed p account (without_id p gone ds)) ≡ none
  unfolding first_with addressed without_id
  first_with-left type id gone account [] e = refl
  first_with-left type id gone account (d ∷ ds) e =
      ground (arith, first_with-left type id gone account ds)

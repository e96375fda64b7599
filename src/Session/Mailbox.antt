-- ===== src/Session/Mailbox.antt =====
-- The mailboxes behind the messages: what processPushRequest (src/session.cpp) does, seen as the
-- requests that wait for each account.
use mathlib.Core.List.{append-nil, append_assoc}
use zway_server.Base.{
  ℕ, ◌≤◌, ◌≡◌, sym, ◌∙◌, ap, true, List, [], ◌∷◌, ◌++◌, arith, ◌==◌, if◌then◌else◌,
}
use zway_server.Value.{Ubj, Elements}
use zway_server.World.{World, Platform}
use zway_server.Session.Incoming
use zway_server.Session.Messages.{receiver, others, stored_for, push_effects}
use zway_server.Db
use zway_server.Db.Laws.{Documents, waiting, dst_of}

module _ {S E : Type 0} (p : Platform S E) (me : ℕ) (head : Ubj) where
  -- The messages to one account, in the order of the keys.
  unfoldable pub letters : ℕ → ℕ → List Ubj → List Elements
  letters sender account [] = []
  letters sender account (k ∷ ks) =
      let rest = letters sender account ks in
      if receiver p me head k == account
      then Incoming.push_doc p sender (receiver p me head k) head k ∷ rest
      else rest

  module _ (docs : Documents p) where
    push_doc-dst :
        (sender dst : ℕ) (k : Ubj) → dst_of p (Incoming.push_doc p sender dst head k) ≡ dst
    unfolding Incoming.push_doc
    push_doc-dst sender dst k =
        ap p.bson.as_int (
          docs.get_elem_lem "id" "dst" _ _
          ∙ docs.get_elem_lem "type" "dst" _ _
          ∙ docs.get_elem_lem "time" "dst" _ _
          ∙ docs.get_elem_lem "ttl" "dst" _ _
          ∙ docs.get_elem_lem "src" "dst" _ _
          ∙ docs.get_elem_lem "dst" "dst" _ _)
        ∙ docs.as_int_lem dst

    module _ (fine : (s : S) (d : Elements) → (p.mongo.insert s Db.requests d).0 ≡ true) where
      waiting-push_doc :
          (sender account : ℕ) (k : Ubj) (s : S)
          → waiting p account
              (p.mongo.insert s Db.requests
                (Incoming.push_doc p sender (receiver p me head k) head k)).1
            ≡ waiting p account s ++ letters sender account (k ∷ [])
      unfolding letters
      waiting-push_doc sender account k s = ground (
        arith,
        docs.insert_lem s (Incoming.push_doc p sender (receiver p me head k) head k) account
            (fine s (Incoming.push_doc p sender (receiver p me head k) head k)),
        push_doc-dst sender (receiver p me head k) k,
        append-nil (waiting p account s),
      )

      stored_for-waiting :
          (sender account : ℕ) (ks : List Ubj) (s : S)
          → waiting p account (stored_for p me head sender ks s)
            ≡ waiting p account s ++ letters sender account ks
      unfolding stored_for letters
      stored_for-waiting sender account [] s = sym (append-nil (waiting p account s))
      stored_for-waiting sender account (k ∷ ks) s =
          let doc = Incoming.push_doc p sender (receiver p me head k) head k in
          ground (
            arith,
            stored_for-waiting sender account ks (p.mongo.insert s Db.requests doc).1,
            waiting-push_doc sender account k s,
            append_assoc (waiting p account s) (letters sender account (k ∷ []))
                (letters sender account ks),
          )

      letters-others :
          (sender account : ℕ) (ks : List Ubj)
          → letters sender account (others p me head sender ks)
            ≡ (if account == sender then [] else letters sender account ks)
      unfolding letters others
      letters-others sender account [] = ground arith
      letters-others sender account (k ∷ ks) = ground (arith, letters-others sender account ks)

      -- A message of a logged-in session, seen as the mailboxes of all accounts, where no insertion
      -- throws and documents are read as they are written: each account other than the sender's
      -- gets, behind what waits for it already, one document for each key that names it, in the
      -- order of the keys; and the sender's own mailbox stays as it is.
      pub push_mailboxes :
          (w : World S E) (account : ℕ)
          → 2 ≤ (w.sessions me).status
          → waiting p account (Incoming.process_push_request p me head w).1.store
            ≡ waiting p account w.store
              ++ (if account == (w.sessions me).account_id
                  then []
                  else letters
                      (w.sessions me).account_id
                      account
                      (p.ubj.to_array (p.ubj.get head "keys")))
      push_mailboxes w account inside = ground (
        arith,
        push_effects p me head w inside,
        stored_for-waiting (w.sessions me).account_id account
            (others p me head (w.sessions me).account_id (p.ubj.to_array (p.ubj.get head "keys")))
            w.store,
        letters-others (w.sessions me).account_id account (p.ubj.to_array (p.ubj.get head "keys")),
      )

-- ===== src/Session/Messages.antt =====
-- What becomes of a message: processPushRequest (src/session.cpp).
use zway_server.Base.{
  ℕ, ◌≤◌, ◌≡◌, refl, true, List, [], ◌∷◌, map, arith, ◌==◌, ge→ltb, if◌then◌else◌,
}
use zway_server.Value.{Ubj, Elements, ubj_obj, ubj_array, int32}
use zway_server.World.{
  World, go, Platform, Effect, success, user_task, pure, gets, modify, emit, require, for_each,
  ◌>>=◌,
}
use zway_server.Session.Basics.{self, refuse, reply, need_login}
use zway_server.Session.Account.{request_id}
use zway_server.Session.Incoming
use zway_server.Db

module _ {S E : Type 0} (p : Platform S E) where
  -- `DB::addRequest` returns true in every state of the database and for every document, also when
  -- the insertion throws; the database is what the insertion left.
  pub add_request_lem :
      (doc : Elements) (w : World S E)
      → Db.add_request p doc w
        ≡ (go true, record w { store = (p.mongo.insert w.store Db.requests doc).1 })
  unfolding Db.add_request Db.write_store gets modify pure ◌>>=◌
  add_request_lem doc w = ground arith

  module _ (me : ℕ) (head : Ubj) where
    abbrev pub receiver : Ubj → ℕ
    receiver key = p.ubj.to_int (p.ubj.get key "dst")

    -- The keys for other accounts than the sender's.
    unfoldable pub others : ℕ → List Ubj → List Ubj
    others account [] = []
    others account (k ∷ ks) =
        let rest = others account ks in if receiver k == account then rest else k ∷ rest

    -- One request is stored for each receiver, in order.
    unfoldable pub stored_for : ℕ → List Ubj → S → S
    stored_for account [] s = s
    stored_for account (k ∷ ks) s =
        stored_for account ks
          (p.mongo.insert s Db.requests (Incoming.push_doc p account (receiver k) head k)).1

    -- One task is posted for each receiver, in order; the log is newest first.
    unfoldable pub tasks_for : List Ubj → List Effect → List Effect
    tasks_for [] l = l
    tasks_for (k ∷ ks) l = tasks_for ks (user_task (receiver k) ∷ l)

    push_to-eq :
        (k : Ubj) (w : World S E)
        → Incoming.push_to p me head k w ≡ (
          go tt,
          record w {
            store =
                stored_for
                  (w.sessions me).account_id
                  (others (w.sessions me).account_id (k ∷ []))
                  w.store;
            log = tasks_for (others (w.sessions me).account_id (k ∷ [])) w.log;
          },
        )
    unfolding Incoming.push_to self emit Db.add_request Db.write_store gets modify pure others
        stored_for tasks_for ◌>>=◌
    push_to-eq k w = ground arith

    pushed :
        (ks : List Ubj) (w : World S E)
        → for_each ks (Incoming.push_to p me head) w ≡ (
          go tt,
          record w {
            store =
                stored_for
                  (w.sessions me).account_id
                  (others (w.sessions me).account_id ks)
                  w.store;
            log = tasks_for (others (w.sessions me).account_id ks) w.log;
          },
        )
    unfolding for_each pure others stored_for tasks_for ◌>>=◌
    pushed [] w = refl
    pushed (k ∷ ks) w =
        let a = (w.sessions me).account_id in
        let w' : World S E = record w {
          store = stored_for a (others a (k ∷ [])) w.store;
          log = tasks_for (others a (k ∷ [])) w.log;
        } in
        ground (arith, push_to-eq k w, pushed ks w')

    -- A message of a logged-in session is stored once for each receiver that it has a key for, in
    -- the order of the keys and without the sender's own account, and for each a task is posted;
    -- then the sender gets one success that names the message's resources. The handler returns
    -- true and changes nothing else, whether or not the insertions threw.
    pub push_effects :
        (w : World S E)
        → 2 ≤ (w.sessions me).status
        → Incoming.process_push_request p me head w ≡ (
          go true,
          record w {
            store =
                stored_for
                  (w.sessions me).account_id
                  (others (w.sessions me).account_id (p.ubj.to_array (p.ubj.get head "keys")))
                  w.store;
            log =
                success me (request_id p head) (
                  ubj_obj (
                    (
                      "resources",
                      ubj_array (
                          map
                            (λ v. int32 (p.ubj.to_int (p.ubj.get v "id")))
                            (p.ubj.to_array (p.ubj.get head "resources"))),
                    )
                    ∷ []))
                ∷ tasks_for
                    (others (w.sessions me).account_id (p.ubj.to_array (p.ubj.get head "keys")))
                    w.log;
          },
        )
    unfolding Incoming.process_push_request need_login self require refuse reply emit gets modify
        pure ◌>>=◌
    push_effects w inside = ground (
      arith,
      ge→ltb (w.sessions me).status 2 inside,
      pushed (p.ubj.to_array (p.ubj.get head "keys")) w,
    )

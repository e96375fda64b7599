-- ===== src/Session/Delivery/Posting.antt =====
-- One waiting request, posted by a session: what processRequests (src/session.cpp) keeps of the
-- server, and what it leaves in the session's engine.
use zway_server.Base.{ℕ, ◌≡◌, refl, ◌∙◌, Bool, true, ◌||◌, arith, ◌==◌, ==→eq, ==_self, if_cases}
use zway_server.Value.{Ubj, Elements}
use mathlib.Core.List.{Mem, mem-cons_of_mem}
use zway_server.World.{World, Exit, Act, Effect, Platform, go, pure, gets, modify, ◌>>=◌}
use zway_server.Session.Basics
use zway_server.Session.Basics.{update_session}
use zway_server.Session.Requests
use zway_server.Db.Laws.{Engines}

module _ {S E : Type 0} (p : Platform S E) (engines : Engines p) where
  -- The types of requests that the server posts to clients.
  abbrev pub postable : ℕ → Bool
  postable type =
      type == p.types.dispatch
      || type == p.types.add_contact
      || type == p.types.accept_contact
      || type == p.types.reject_contact
      || type == p.types.push

  abbrev pub type_of : Elements → ℕ
  type_of d = p.bson.as_int (p.bson.get_elem d "type")

  abbrev pub id_of : Elements → ℕ
  id_of d = p.bson.as_int (p.bson.get_elem d "id")

  -- The engine of the session holds a request of the same type and id.
  abbrev pub Held : ℕ → Elements → World S E → Type 0
  Held me d w = p.pending (w.engines me) (type_of d) (id_of d) ≡ true

  -- What a session's turn leaves: the database, the map, the account ids, the configurations, every
  -- request that an engine holds, and all that was sent before.
  pub record Onward (w v : World S E) : Type 0 where
    pub store : v.store ≡ w.store
    pub registry : v.registry ≡ w.registry
    pub accounts : (q : ℕ) → (v.sessions q).account_id ≡ (w.sessions q).account_id
    pub configs : (q : ℕ) → (v.sessions q).config ≡ (w.sessions q).config
    pub logged : (x : Effect) → Mem x w.log → Mem x v.log
    pub held :
        (q type id : ℕ)
        → p.pending (w.engines q) type id ≡ true
        → p.pending (v.engines q) type id ≡ true

  pub Onward-refl : (w : World S E) → Onward w w
  Onward-refl w = record {
    store = refl;
    registry = refl;
    accounts = λ q. refl;
    configs = λ q. refl;
    logged = λ x m. m;
    held = λ q type id h. h;
  }

  pub Onward-trans : {u v w : World S E} → Onward u v → Onward v w → Onward u w
  Onward-trans h k = record {
    store = k.store ∙ h.store;
    registry = k.registry ∙ h.registry;
    accounts = λ q. k.accounts q ∙ h.accounts q;
    configs = λ q. k.configs q ∙ h.configs q;
    logged = λ x m. k.logged x (h.logged x m);
    held = λ q type id r. k.held q type id (h.held q type id r);
  }

  -- An action that runs to its end and leads onward.
  pub record Runs (w : World S E) (r : Exit (Unit {0}) × World S E) : Type 0 where
    pub ends : r.0 ≡ go tt
    pub onward : Onward w r.1

  post-held :
      (me type id : ℕ) (content : Ubj) (w : World S E) (q type' id' : ℕ)
      → p.pending (w.engines q) type' id' ≡ true
      → p.pending ((Requests.post_request p me type id content w).1.engines q) type' id' ≡ true
  unfolding Requests.post_request modify
  post-held me type id content w q type' id' h =
      ground (arith, engines.post_lem (w.engines me) type id type' id' content, ==→eq me q)

  post-Runs :
      (me type id : ℕ) (content : Ubj) (w : World S E)
      → Runs w (Requests.post_request p me type id content w)
  unfolding Requests.post_request modify
  post-Runs me type id content w = record {
    ends = refl;
    onward = record {
      store = refl;
      registry = refl;
      accounts = λ q. refl;
      configs = λ q. refl;
      logged = λ x m. mem-cons_of_mem _ m;
      held = post-held me type id content w;
    };
  }

  post-Held :
      (me type id : ℕ) (content : Ubj) (w : World S E)
      → p.pending ((Requests.post_request p me type id content w).1.engines me) type id ≡ true
  unfolding Requests.post_request modify
  post-Held me type id content w = ground (
    arith,
    engines.post_lem (w.engines me) type id type id content,
    ==_self me,
    ==_self type,
    ==_self id,
  )

  pub pure-Runs : (w : World S E) → Runs w (pure tt w)
  unfolding pure
  pure-Runs w = record { ends = refl; onward = Onward-refl w }

  entry-Runs : (me id : ℕ) (w : World S E) → Runs w (Requests.add_contact_entry p me id w)
  unfolding Requests.add_contact_entry update_session modify
  entry-Runs me id w = record {
    ends = refl;
    onward = record {
      store = refl;
      registry = refl;
      accounts = λ q. ground (arith, ==→eq me q);
      configs = λ q. ground (arith, ==→eq me q);
      logged = λ x m. m;
      held = λ q type id h. h;
    };
  }

  accept-Runs :
      (me id type : ℕ) (d : Elements) (w : World S E)
      → Runs w (Requests.post_accept_contact p me id type d w)
  unfolding Requests.post_accept_contact Basics.get_contact_status gets ◌>>=◌
      Requests.add_contact_entry update_session modify
  accept-Runs me id type d w = record {
    ends = (post-Runs me type id _ _).ends;
    onward =
        Onward-trans (entry-Runs me (Requests.num p d "src") w).onward
          (post-Runs me type id _ _).onward;
  }

  by_type-Runs :
      (me id type : ℕ) (d : Elements) (w : World S E)
      → Runs w (Requests.post_by_type p me id type d w)
  unfolding Requests.post_by_type Requests.post_dispatch Requests.post_add_contact
      Requests.post_reject_contact Requests.post_push
  by_type-Runs me id type d w =
      let P : Act S E (Unit {0}) → Type 0 = λ m. Runs w (m w) in
      if_cases P (type == p.types.dispatch) (λ e. post-Runs me type id _ w)
        λ _.
          if_cases P (type == p.types.add_contact) (λ e. post-Runs me type id _ w)
            λ _.
              if_cases P (type == p.types.accept_contact) (λ e. accept-Runs me id type d w)
                λ _.
                  if_cases P (type == p.types.reject_contact) (λ e. post-Runs me type id _ w)
                    λ _.
                      if_cases P (type == p.types.push) (λ e. post-Runs me type id _ w)
                        λ _. pure-Runs w

  by_type-Held :
      (me id type : ℕ) (d : Elements) (w : World S E)
      → postable type ≡ true
      → p.pending ((Requests.post_by_type p me id type d w).1.engines me) type id ≡ true
  unfolding Requests.post_by_type Requests.post_dispatch Requests.post_add_contact
      Requests.post_accept_contact Requests.post_reject_contact Requests.post_push
      Basics.get_contact_status gets ◌>>=◌ Requests.add_contact_entry update_session modify
  by_type-Held me id type d w can =
      let P : Act S E (Unit {0}) → Type 0 = λ m. p.pending ((m w).1.engines me) type id ≡ true in
      if_cases P (type == p.types.dispatch) (λ e. post-Held me type id _ w)
        λ a.
          if_cases P (type == p.types.add_contact) (λ e. post-Held me type id _ w)
            λ b.
              if_cases P (type == p.types.accept_contact) (λ e. post-Held me type id _ _)
                λ c.
                  if_cases P (type == p.types.reject_contact) (λ e. post-Held me type id _ w)
                    λ f.
                      if_cases P (type == p.types.push) (λ e. post-Held me type id _ w)
                        λ g. absurd (ground arith)

  pub request-Runs :
      (me : ℕ) (d : Elements) (w : World S E) → Runs w (Requests.process_request p me d w)
  unfolding Requests.process_request Requests.num gets ◌>>=◌
  request-Runs me d w =
      if_cases (λ (m : Act S E (Unit {0})). Runs w (m w))
        (p.pending (w.engines me) (type_of d) (id_of d)) (λ old. pure-Runs w)
        λ new. by_type-Runs me (id_of d) (type_of d) d w

  pub request-Held :
      (me : ℕ) (d : Elements) (w : World S E)
      → postable (type_of d) ≡ true
      → Held me d (Requests.process_request p me d w).1
  unfolding Requests.process_request Requests.num pure gets ◌>>=◌
  request-Held me d w can =
      if_cases (λ (m : Act S E (Unit {0})). Held me d (m w).1)
        (p.pending (w.engines me) (type_of d) (id_of d)) (λ old. old)
        λ new. by_type-Held me (id_of d) (type_of d) d w can

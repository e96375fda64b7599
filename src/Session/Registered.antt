-- ===== src/Session/Registered.antt =====
-- Where sessions stand in the server's map (src/session.cpp, src/server.cpp), and the actions of a
-- session that change it.
use zway_server.Base.{ℕ, ◌≡◌, true, false, arith, ◌==◌, ==_self, Bool-cases, inl, inr}
use zway_server.World.{World, modify, ◌>>=◌}
use zway_server.World.Keeps.{Keeps, Keeps-modify}
use zway_server.Server.Sessions
use zway_server.Server.Sessions.{
  moved, contains-moved, get_sessions, contains, contains-remove_all, get_sessions-append,
  get_sessions-remove,
}
use zway_server.Session.Basics
use zway_server.Session.Account
use zway_server.Session.Frame.{Frame}

pub record Registered {S E : Type 0} (w : World S E) : Type 0 where
  pub placed :
      (k q : ℕ) → contains q (get_sessions k w.registry) ≡ true → (w.sessions q).account_id ≡ k

-- The session is in no bucket.
abbrev pub Absent : {S E : Type 0} → ℕ → World S E → Type 0
Absent q w = (k : ℕ) → contains q (get_sessions k w.registry) ≡ false

module _ {S E : Type 0} where
  pub Registered-Frame : (me : ℕ) → Frame {S = S} {E = E} me Registered
  Registered-Frame me = record {
    around = λ w s engines draws log h. record { placed = h.placed };
    own =
        λ w s account status h. record { placed = λ k q m. let e = h.placed k q m in ground arith };
  }

  pub set_status-Registered : (me n : ℕ) → Keeps {S = S} {E = E} Registered (Basics.set_status me n)
  unfolding Basics.set_status Basics.update_session
  set_status-Registered me n =
      Keeps-modify _ λ w h. record { placed = λ k q m. let e = h.placed k q m in ground arith }

  -- After `unregister` the map is right, and the session is in no bucket.
  unregistered :
      (me : ℕ) (w : World S E)
      → Registered w
      → (k : ℕ)
      → contains me
          (get_sessions k (Sessions.remove_session (w.sessions me).account_id me w.registry))
        ≡ false
  unregistered me w h k =
      let a = (w.sessions me).account_id in
      elim (Bool-cases (contains me (get_sessions k w.registry))) [
        | inl here ↦ ground (
          arith,
          h.placed k me here,
          get_sessions-remove a k me w.registry,
          contains-remove_all me me (get_sessions a w.registry),
        )
        | inr gone ↦ ground (
          arith,
          get_sessions-remove a k me w.registry,
          contains-remove_all me me (get_sessions a w.registry),
        )
      ]

  moved_self :
      (me id k : ℕ) (w : World S E)
      → Registered w
      → contains me (get_sessions k (moved (w.sessions me).account_id id me w.registry)) ≡ true
      → id ≡ k
  moved_self me id k w h m =
      let r = Sessions.remove_session (w.sessions me).account_id me w.registry in
      ground (arith, get_sessions-append id k me r, unregistered me w h k)

  pub move_session-Registered :
      (me id : ℕ) → Keeps {S = S} {E = E} Registered (Account.move_session me id)
  unfolding Account.move_session Basics.unregister Basics.register Basics.update_session modify
      ◌>>=◌
  move_session-Registered me id = record {
    apply = λ w h. record {
      placed = λ k q m. elim (Bool-cases (me == q)) [
        | inl same ↦ ground (arith, ==_self me, moved_self me id k w h)
        | inr other ↦ ground (
          arith,
          ==_self me,
          contains-moved (w.sessions me).account_id id me k q w.registry,
          h.placed k q,
        )
      ];
    };
  }

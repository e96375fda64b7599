-- ===== src/Session/Isolation.antt =====
-- What a request does to the sessions that it did not come through (src/session.cpp).
use zway_server.Base.{ℕ, ◌≡◌, refl, false, ◌==◌}
use zway_server.Value.{Ubj}
use zway_server.World.{World, Session, Platform}
use zway_server.World.Keeps.{Keeps, Keeps-modify, Keeps-bind}
use zway_server.Session.Basics
use zway_server.Session.Account
use zway_server.Session.Incoming
use zway_server.Session.Frame.{Frame}
use zway_server.Session.Kept.{incoming-Keeps}

-- The other sessions are as in `w`.
record OthersSame {S E : Type 0} (me : ℕ) (w v : World S E) : Type 0 where
  same : (q : ℕ) → (me == q) ≡ false → v.sessions q ≡ w.sessions q

module _ {S E : Type 0} (me : ℕ) (w : World S E) where
  OthersSame-Frame : Frame {S = S} {E = E} me (OthersSame me w)
  OthersSame-Frame = record {
    around = λ v s engines draws log h. record { same = h.same };
    own = λ v s account status h. record { same = λ q other. rw other (h.same q other) };
  }

  Keeps-update_session :
      (g : Session → Session) → Keeps (OthersSame me w) (Basics.update_session me g)
  unfolding Basics.update_session
  Keeps-update_session g =
      Keeps-modify _ λ v h. record { same = λ q other. rw other (h.same q other) }

  Keeps-set_status : (n : ℕ) → Keeps (OthersSame me w) (Basics.set_status me n)
  unfolding Basics.set_status
  Keeps-set_status n = Keeps-update_session _

  Keeps-register : Keeps (OthersSame me w) (Basics.register me)
  unfolding Basics.register
  Keeps-register = Keeps-modify _ λ v h. record { same = h.same }

  Keeps-unregister : Keeps (OthersSame me w) (Basics.unregister me)
  unfolding Basics.unregister
  Keeps-unregister = Keeps-modify _ λ v h. record { same = h.same }

  Keeps-move_session : (id : ℕ) → Keeps (OthersSame me w) (Account.move_session me id)
  unfolding Account.move_session
  Keeps-move_session id =
      Keeps-bind _ _ Keeps-unregister
        λ _. Keeps-bind _ _ (Keeps-update_session _) λ _. Keeps-register

  -- No request, whatever it is and however it ends, changes the status, the account id, the
  -- contacts or the configuration of another session than the one it came through.
  pub incoming_isolated :
      (p : Platform S E) (head : Ubj) (q : ℕ)
      → (me == q) ≡ false
      → (Incoming.process_incoming_request p me head w).1.sessions q ≡ w.sessions q
  incoming_isolated p head q other =
      ((incoming-Keeps p OthersSame-Frame Keeps-set_status Keeps-move_session head).apply w
          (record { same = λ r e. refl })).same
        q other

-- ===== src/Session/Examples/Broadcast.antt =====
-- A broadcast of a status at the small database.
use zway_server.Base.{ℕ, true, List, [], ◌∷◌, ◌==◌, if◌then◌else◌}
use zway_server.Value.{Ubj, ubj_obj}
use zway_server.World.{World}
use zway_server.Session.Examples.Setup.{Store}
use zway_server.Session.Examples.Data.{member_seven}
use zway_server.Session.Examples.Posting

abbrev visible : Ubj
visible = ubj_obj (("notifyStatus", Ubj.bool true) ∷ [])

-- Session 1 may be seen, and its contact, account 8, asks for its status.
abbrev world : World Store (List (ℕ × ℕ))
world = record Posting.world {
  sessions = λ q.
      if q == 1
      then record member_seven { contacts = (8, visible) ∷ []; config = visible }
      else Posting.world.sessions q;
}

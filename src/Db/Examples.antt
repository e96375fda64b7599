-- ===== src/Db/Examples.antt =====
-- A run of the inbox's grouping.
use zway_server.Base.{◌≡◌, [], ◌∷◌}
use zway_server.OrderedMap.{lookup}
use zway_server.Db.Inbox.{group, as_entry, ids_of, lookup-group}

lookup-group_example :
    lookup 7 (group ((7, 1) ∷ (9, 2) ∷ (7, 3) ∷ []))
    ≡ as_entry (ids_of 7 ((7, 1) ∷ (9, 2) ∷ (7, 3) ∷ []))
lookup-group_example = lookup-group 7 ((7, 1) ∷ (9, 2) ∷ (7, 3) ∷ [])

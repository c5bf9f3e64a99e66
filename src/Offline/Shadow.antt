-- ===== src/Offline/Shadow.antt =====
-- What an answer leaves alone in the replica of a client: the rows with a write that waits in the
-- queue (`syncOnce`, templates/next/src/lib/sync/client.ts).
use evo_platform.Base.{Bool, true, not, ◌&&◌, String, Option, List, ◌==◌, string_eq, not_set}
use evo_platform.Base.Rows.{find}
use evo_platform.Sync.Server.{Mutation, Project}
use evo_platform.Offline.Outbox.{has_pending}
use evo_platform.Offline.Local.{LocalTask, Replica, is_task_row}

unfoldable pub task_in : String → Replica → Option LocalTask
task_in id r = find (is_task_row id) r.tasks

-- A project of a page whose tombstone the client takes.
abbrev pub is_buried : List Mutation → String → Project → Bool
is_buried outbox id p =
    p.id == id && (not (not_set p.deleted_at) && not (has_pending true p.id outbox))

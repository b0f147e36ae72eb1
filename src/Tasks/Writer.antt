-- ===== src/Tasks/Writer.antt =====
-- packages/tasks/src/task-writer.ts: the creation of a task inside another service's transaction.
-- `survives` says whether the database goes on with a transaction in which a statement failed; the
-- last component says whether the transaction still goes on.
use wbme.Common.{ℕ, Bool, true, false, [], ◌∷◌, ◌++◌, if◌then◌else◌, str_eq, any}
use wbme.Tasks.Types.{CreatePendingTaskInput}
use wbme.Tasks.Ops.{Table, pending_task}

-- Returns `created`; a conflict on the uuid is not an error.
abbrev pub create_pending : Bool → CreatePendingTaskInput → ℕ → ℕ → Table → Table × Bool × Bool
create_pending survives input now created rows =
    if any (λ r. str_eq r.task_uuid input.task_uuid) rows
    then (rows, false, survives)
    else (rows ++ pending_task input now created ∷ [], true, true)

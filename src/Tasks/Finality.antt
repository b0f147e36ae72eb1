-- ===== src/Tasks/Finality.antt =====
-- The status of a task under the operations of the table, terminal tasks first.
use wbme.Common.{
  Bool, true, false, some, List, [], ◌∷◌, String, ◌≡◌, refl, ap, ◌∙◌, inl, inr, arith, Distinct,
  Bool-cases,
}
use wbme.Tasks.Types.{
  TaskStatus, pending_enqueue, queued, running, succeeded, failed, cancelled, Task,
}
use wbme.Tasks.Ops.{Table, load_task_by_uuid, is_terminal_task_status, is_candidate}
use wbme.Tasks.Rows.{
  Op, queue, claim, renew, succeed, time_out, fail, cancel, release, claim_batch, insert, apply,
  run, op_test, op_row, row_after, load-apply, apply-Distinct, listed-is_candidate,
}

-- A row that an operation changes is not terminal.
changed-not_terminal :
    (op : Op) (uuid : String) (t : Table) (r : Task)
    → Distinct (λ s. s.task_uuid) t
    → load_task_by_uuid uuid t ≡ some r
    → op_test op t r ≡ true
    → is_terminal_task_status r.status ≡ false
unfolding is_terminal_task_status is_candidate
changed-not_terminal (claim_batch locked owner replayable now batch_size) uuid t r d e h =
    ground (arith, listed-is_candidate locked replayable now batch_size uuid t r d e h)
changed-not_terminal (queue u owner) uuid t r d e h = ground arith
changed-not_terminal op uuid t r d e h = ground arith

row_after_terminal :
    (op : Op) (uuid : String) (t : Table) (r : Task)
    → Distinct (λ s. s.task_uuid) t
    → load_task_by_uuid uuid t ≡ some r
    → is_terminal_task_status r.status ≡ true
    → row_after op t r ≡ r
row_after_terminal op uuid t r d e h = elim (Bool-cases (op_test op t r)) [
  | inl k ↦ absurd (cc (changed-not_terminal op uuid t r d e k))
  | inr k ↦ rw k refl
]

-- Once a task has succeeded, failed or been cancelled, no sequence of operations by any processes
-- changes its row in any column, in a table with distinct uuids.
pub run-terminal :
    (ops : List Op) (uuid : String) (t : Table) (r : Task)
    → Distinct (λ s. s.task_uuid) t
    → load_task_by_uuid uuid t ≡ some r
    → is_terminal_task_status r.status ≡ true
    → load_task_by_uuid uuid (run ops t) ≡ some r
unfolding run
run-terminal [] uuid t r d e h = e
run-terminal (op ∷ ops) uuid t r d e h =
    run-terminal ops uuid (apply op t) r (apply-Distinct op t d)
      (load-apply op uuid t r e ∙ ap some (row_after_terminal op uuid t r d e h)) h

-- The status machine of a task, a stay included.
pub data Moves : TaskStatus → TaskStatus → Type 0 where
  stays : {s : TaskStatus} → Moves s s
  enqueues : Moves pending_enqueue queued
  starts : Moves queued running
  requeues : Moves running queued
  succeeds : Moves running succeeded
  fails : Moves running failed
  drops : {s : TaskStatus} → is_terminal_task_status s ≡ false → Moves s cancelled

abbrev is_open : TaskStatus → Bool
is_open pending_enqueue = true
is_open queued = true
is_open running = true
is_open _ = false

abbrev can_start : TaskStatus → Bool
can_start queued = true
can_start running = true
can_start _ = false

abbrev is_held : TaskStatus → Bool
is_held running = true
is_held _ = false

queue-Moves : (s : TaskStatus) → is_open s ≡ true → Moves s queued
queue-Moves pending_enqueue e = enqueues
queue-Moves queued e = stays
queue-Moves running e = requeues
queue-Moves _ e = absurd (cc)

claim-Moves : (s : TaskStatus) → can_start s ≡ true → Moves s running
claim-Moves queued e = starts
claim-Moves running e = stays
claim-Moves _ e = absurd (cc)

succeed-Moves : (s : TaskStatus) → is_held s ≡ true → Moves s succeeded
succeed-Moves running e = succeeds
succeed-Moves _ e = absurd (cc)

fail-Moves : (s : TaskStatus) → is_held s ≡ true → Moves s failed
fail-Moves running e = fails
fail-Moves _ e = absurd (cc)

op_row-Moves :
    (op : Op) (t : Table) (r : Task) → op_test op t r ≡ true → Moves r.status (op_row op r).status
unfolding is_terminal_task_status
op_row-Moves (queue uuid owner) t r e = queue-Moves r.status (ground arith)
op_row-Moves (claim uuid owner now) t r e = claim-Moves r.status (ground arith)
op_row-Moves (renew uuid owner now) t r e = stays
op_row-Moves (succeed uuid owner now) t r e = succeed-Moves r.status (ground arith)
op_row-Moves (time_out now) t r e = fail-Moves r.status (ground arith)
op_row-Moves (fail uuid owner last_error now) t r e = fail-Moves r.status (ground arith)
op_row-Moves (cancel uuid owner now) t r e = drops (ground arith)
op_row-Moves (release uuid owner attempts last_error now) t r e = stays
op_row-Moves (claim_batch locked owner replayable now batch_size) t r e = stays
op_row-Moves (insert input now created) t r e = stays

-- Every operation keeps every task and moves its status along the status machine, if at all.
pub apply-Moves :
    (op : Op) (uuid : String) (t : Table) (r : Task)
    → load_task_by_uuid uuid t ≡ some r
    → (s : Task) × (load_task_by_uuid uuid (apply op t) ≡ some s) × Moves r.status s.status
apply-Moves op uuid t r e = (row_after op t r, load-apply op uuid t r e, moved)
  where
    moved : Moves r.status (row_after op t r).status
    moved = elim (Bool-cases (op_test op t r)) [
      | inl k ↦ rw k (op_row-Moves op t r k)
      | inr k ↦ rw k stays
    ]

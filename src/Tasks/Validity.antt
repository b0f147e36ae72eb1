-- ===== src/Tasks/Validity.antt =====
-- The well-formedness of task rows under the operations of the table.
use wbme.Common.{
  ℕ, Bool, true, false, Option, none, some, List, [], ◌∷◌, String, ◌≡◌, refl, sym, subst, inl, inr,
  arith, Distinct, Bool-cases,
}
use wbme.Tasks.Types.{TaskStatus, pending_enqueue, queued, running, Task, CreatePendingTaskInput}
use wbme.Tasks.Ops.{Table, load_task_by_uuid, is_terminal_task_status, is_candidate, pending_task}
use wbme.Tasks.Rows.{
  Op, queue, claim_batch, apply, run, op_test, op_row, row_after, apply-Distinct,
  listed-is_candidate, load-apply_inv,
}

abbrev pub is_set {ℓ} : {A : Type ℓ} → Option A → Bool
is_set none = false
is_set (some a) = true

-- What each status promises of the other columns.
abbrev pub Columns : TaskStatus → Task → Type 0
Columns pending_enqueue r = is_set r.finished_at ≡ false
Columns queued r = is_set r.finished_at ≡ false
Columns running r =
    (is_set r.finished_at ≡ false)
    × (is_set r.started_at ≡ true)
    × (is_set r.timeout_at ≡ true)
    × (is_set r.lease_owner ≡ true)
Columns _ r = (is_set r.finished_at ≡ true) × (is_set r.lease_owner ≡ false)

-- An owner is named exactly while a lease runs; a running task has started, has a time limit and is
-- leased; a terminal one has an end and no lease, any other no end.
pub record IsValid (r : Task) : Type 0 where
  pub leased : is_set r.lease_owner ≡ is_set r.lease_expires_at
  pub columns : Columns r.status r

abbrev pub IsValidTable : Table → Type 0
IsValidTable t =
    Distinct (λ r. r.task_uuid) t
    × ((uuid : String) (r : Task) → load_task_by_uuid uuid t ≡ some r → IsValid r)

op_row-IsValid :
    (op : Op) (uuid : String) (t : Table) (r : Task)
    → Distinct (λ s. s.task_uuid) t
    → load_task_by_uuid uuid t ≡ some r
    → op_test op t r ≡ true
    → IsValid r
    → IsValid (op_row op r)
unfolding is_candidate is_terminal_task_status
op_row-IsValid (claim_batch locked owner replayable now n) uuid t r d e h v =
    ground (arith, listed-is_candidate locked replayable now n uuid t r d e h)
op_row-IsValid (queue u owner) uuid t r d e h v = ground arith
op_row-IsValid op uuid t r d e h v = ground arith

row_after-IsValid :
    (op : Op) (uuid : String) (t : Table) (r : Task)
    → Distinct (λ s. s.task_uuid) t
    → load_task_by_uuid uuid t ≡ some r
    → IsValid r
    → IsValid (row_after op t r)
row_after-IsValid op uuid t r d e v = elim (Bool-cases (op_test op t r)) [
  | inl k ↦ rw k (op_row-IsValid op uuid t r d e k v)
  | inr k ↦ rw k v
]

pending_task-IsValid :
    (input : CreatePendingTaskInput) (now created : ℕ) → IsValid (pending_task input now created)
pending_task-IsValid input now created = record { leased = refl; columns = refl }

pub apply-IsValidTable : (op : Op) (t : Table) → IsValidTable t → IsValidTable (apply op t)
apply-IsValidTable op t (d, v) = (apply-Distinct op t d, valid)
  where
    valid : (uuid : String) (s : Task) → load_task_by_uuid uuid (apply op t) ≡ some s → IsValid s
    valid uuid s h = elim (load-apply_inv op uuid t s h) [
      | inl (r, e, same) ↦ subst IsValid (sym same) (row_after-IsValid op uuid t r d e (v uuid r e))
      | inr (input, now, created, same) ↦
          subst IsValid (sym same) (pending_task-IsValid input now created)
    ]

-- From a table where this holds, after any sequence of operations by any processes, uuids are
-- distinct and every row is well formed: an owner is named exactly while a lease is set; a running
-- task is leased, has started and has a time limit; a terminal one has an end and no lease; no other
-- has an end.
pub run-IsValidTable : (ops : List Op) (t : Table) → IsValidTable t → IsValidTable (run ops t)
unfolding run
run-IsValidTable [] t v = v
run-IsValidTable (op ∷ ops) t v = run-IsValidTable ops (apply op t) (apply-IsValidTable op t v)

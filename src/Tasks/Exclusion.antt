-- ===== src/Tasks/Exclusion.antt =====
-- Execution leases: a held task under the calls of other processes.
use wbme.Common.{
  ℕ, false, Option, none, some, List, [], ◌∷◌, String, ◌≡◌, refl, ap, ◌∙◌, ◌<◌, ◌≢◌, inl, inr,
  arith, Distinct, Bool-cases, eq_iff, All, if◌then◌else◌,
}
use wbme.Tasks.Types.{running, Task}
use wbme.Tasks.Ops.{Table, load_task_by_uuid, is_terminal_task_status, is_candidate, is_owner}
use wbme.Tasks.Rows.{
  Op, queue, claim, renew, succeed, time_out, fail, cancel, release, claim_batch, insert, apply,
  run, op_test, op_row, load-apply, apply-Distinct, listed-is_candidate, load-uuid,
}

-- The task runs under the lease of `owner` until `expires`, and times out at `deadline`.
pub record IsHeld (owner : String) (expires deadline : ℕ) (r : Task) : Type 0 where
  pub status : r.status ≡ running
  pub owned : r.lease_owner ≡ some owner
  pub until : r.lease_expires_at ≡ some expires
  pub timeout : r.timeout_at ≡ some deadline

-- A call by somebody else than `owner`, made while the lease and the task's time limit last. A
-- cancellation that names no owner is the one call that needs no lease: it must be for another task.
abbrev pub IsForeign : String → String → ℕ → ℕ → Op → Type 0
IsForeign uuid owner expires deadline (queue u other) = other ≢ owner
IsForeign uuid owner expires deadline (claim u other now) = (other ≢ owner) × (now < expires)
IsForeign uuid owner expires deadline (renew u other now) = other ≢ owner
IsForeign uuid owner expires deadline (succeed u other now) = other ≢ owner
IsForeign uuid owner expires deadline (time_out now) = now < deadline
IsForeign uuid owner expires deadline (fail u other text now) = other ≢ owner
IsForeign uuid owner expires deadline (cancel u none now) = u ≢ uuid
IsForeign uuid owner expires deadline (cancel u (some other) now) = other ≢ owner
IsForeign uuid owner expires deadline (release u other attempts text now) = Unit
IsForeign uuid owner expires deadline (claim_batch locked other replayable now n) = now < expires
IsForeign uuid owner expires deadline (insert input now created) = Unit

not_owner :
    (other owner : String) (o : Option String)
    → o ≡ some owner
    → other ≢ owner
    → is_owner other o ≡ false
not_owner other owner o e d = ground (arith, eq_iff owner other)

module _ (uuid owner : String) (expires deadline : ℕ) where
  foreign_misses :
      (op : Op) (t : Table) (r : Task)
      → IsForeign uuid owner expires deadline op
      → Distinct (λ s. s.task_uuid) t
      → load_task_by_uuid uuid t ≡ some r
      → IsHeld owner expires deadline r
      → op_test op t r ≡ false
  unfolding is_candidate is_terminal_task_status
  foreign_misses (queue u other) t r f d e h =
      ground (arith, not_owner other owner r.lease_owner h.owned f)
  foreign_misses (claim u other now) t r f d e h =
      ground (arith, not_owner other owner r.lease_owner h.owned f.0)
  foreign_misses (renew u other now) t r f d e h =
      ground (arith, not_owner other owner r.lease_owner h.owned f)
  foreign_misses (succeed u other now) t r f d e h =
      ground (arith, not_owner other owner r.lease_owner h.owned f)
  foreign_misses (time_out now) t r f d e h = ground arith
  foreign_misses (fail u other text now) t r f d e h =
      ground (arith, not_owner other owner r.lease_owner h.owned f)
  foreign_misses (cancel u none now) t r f d e h =
      ground (arith, load-uuid uuid t r e, eq_iff r.task_uuid u)
  foreign_misses (cancel u (some other) now) t r f d e h =
      ground (arith, not_owner other owner r.lease_owner h.owned f)
  foreign_misses (release u other attempts text now) t r f d e h = ground arith
  foreign_misses (claim_batch locked other replayable now n) t r f d e h =
      elim (Bool-cases (op_test (claim_batch locked other replayable now n) t r)) [
        | inl k ↦
            absurd (ground (arith, listed-is_candidate locked replayable now n uuid t r d e k))
        | inr k ↦ k
      ]
  foreign_misses (insert input now created) t r f d e h = refl

  -- While the execution lease and the time limit of a running task last, no sequence of calls by
  -- other processes changes its row in any column, in a table with distinct uuids. Cancellations of
  -- this very task that name no owner are excepted.
  pub run-IsForeign :
      (ops : List Op) (t : Table) (r : Task)
      → All (IsForeign uuid owner expires deadline) ops
      → Distinct (λ s. s.task_uuid) t
      → load_task_by_uuid uuid t ≡ some r
      → IsHeld owner expires deadline r
      → load_task_by_uuid uuid (run ops t) ≡ some r
  unfolding run
  run-IsForeign [] t r f d e h = e
  run-IsForeign (op ∷ ops) t r f d e h =
      run-IsForeign ops (apply op t) r f.1 (apply-Distinct op t d)
        (load-apply op uuid t r e
          ∙ ap some (ap (λ b. if b then op_row op r else r) (foreign_misses op t r f.0 d e h)))
        h

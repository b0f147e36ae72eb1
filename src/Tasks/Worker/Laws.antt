-- ===== src/Tasks/Worker/Laws.antt =====
-- How a delivered job ends.
use wbme.Common.{
  Result, none, take, refl, sym, ℕ, Bool, true, false, some, List, [], ◌∷◌, ◌++◌, String, ok, err,
  if◌then◌else◌, ◌≡◌, ap, ◌∙◌, ◌≢◌, arith, eq_iff, count_if, ltb,
}
use wbme.Tasks.Types.{Task, succeeded, failed}
use wbme.Tasks.Ops.{
  Table, load_task_by_uuid, is_terminal_task_status, claim_running, claim_test, mark_succeeded,
  mark_failed, succeed_row, fail_row, held_test,
}
use wbme.Tasks.Rows.{load-apply, succeed, fail, apply}
use wbme.Tasks.Worker.{
  JobError, ErrorEntry, Job, World, Processor, failed_with, missing_uuid, handle_job, is_final,
  error_entry, finish, claimed, loaded, with_uuid, is_empty, uuid_of,
}

-- A delivery that meets a claimable task comes to its processor.
abbrev pub IsClaimable : String → ℕ → World → String → Task → Type 0
IsClaimable owner now w uuid task =
    (load_task_by_uuid uuid w.table ≡ some task) × (claim_test uuid owner now task ≡ true)

count_of_load :
    (p : Task → Bool) (uuid : String) (t : Table) (r : Task)
    → load_task_by_uuid uuid t ≡ some r
    → p r ≡ true
    → ltb 0 (count_if p t) ≡ true
unfolding load_task_by_uuid
count_of_load p uuid [] r e h = absurd (cc)
count_of_load p uuid (s ∷ t) r e h = ground (arith, count_of_load p uuid t r)

-- What `handle_job` throws on.
abbrev pub thrown_on : Result (List ℕ) (Unit {0}) → Result JobError (Unit {0})
thrown_on (ok u) = ok tt
thrown_on (err message) = err (failed_with message)

-- A row when its job has ended: progress 100 and no error, or the first 2000 units of the error.
abbrev pub ended : ℕ → Result (List ℕ) (Unit {0}) → Task → Task
ended at (ok u) r = record r {
  status = succeeded;
  progress = 100;
  finished_at = some at;
  lease_owner = none;
  lease_expires_at = none;
  last_error = none;
}
ended at (err message) r = record r {
  status = failed;
  finished_at = some at;
  lease_owner = none;
  lease_expires_at = none;
  last_error = some (take 2000 message);
}

ended-terminal :
    (at : ℕ) (x : Result (List ℕ) (Unit {0})) (r : Task)
    → is_terminal_task_status (ended at x r).status ≡ true
unfolding is_terminal_task_status
ended-terminal at (ok u) r = refl
ended-terminal at (err message) r = refl

-- What is added to the error log.
abbrev pub logged : Task → Result (List ℕ) (Unit {0}) → List ErrorEntry
logged task (ok u) = []
logged task (err message) =
    record {
      service = task.module_name;
      source = task.task_type;
      request_id = task.task_uuid;
      sample = message;
    }
    ∷ []

-- No attempt follows: the processor succeeds, or throws at the last attempt.
abbrev pub IsLast : Job → Result (List ℕ) (Unit {0}) → Type 0
IsLast job (ok u) = Unit
IsLast job (err message) = is_final job ≡ true

-- A delivery of a task that has ended does nothing.
ended_ignored :
    (process : Processor) (job : Job) (uuid owner : String) (now later : ℕ) (w : World) (r : Task)
    → uuid_of job ≡ some uuid
    → uuid ≢ ""
    → load_task_by_uuid uuid w.table ≡ some r
    → is_terminal_task_status r.status ≡ true
    → handle_job process job owner now later w ≡ (w, ok tt)
unfolding handle_job
ended_ignored process job uuid owner now later w r named nonempty found over =
    let not_empty : is_empty uuid ≡ false = ground (arith, eq_iff uuid "") in
    rw (named, not_empty, found, over) refl

append_nil {ℓ} : {A : Type ℓ} (xs : List A) → xs ++ [] ≡ xs
append_nil [] = refl
append_nil (x ∷ xs) = ap (◌∷◌ x) (append_nil xs)

module _ (process : Processor) (job : Job) (uuid owner : String) (now later : ℕ) (w : World)
    (task : Task) where
  -- The table that the processor starts from.
  abbrev pub started : Table
  started = (claim_running uuid owner now w.table).0

  reaches_processor :
      uuid_of job ≡ some uuid
      → uuid ≢ ""
      → IsClaimable owner now w uuid task
      → handle_job process job owner now later w
        ≡ finish job owner uuid later task w.errors (process task started)
  unfolding handle_job claim_running is_terminal_task_status
  reaches_processor named nonempty (found, free) =
      ap (with_uuid process job owner now later w) named
      ∙ ap
          (λ b.
            if b
            then (w, err missing_uuid)
            else loaded process job owner uuid now later w (load_task_by_uuid uuid w.table))
          not_empty
      ∙ ap (loaded process job owner uuid now later w) found
      ∙ ap
          (λ b.
            if b
            then (w, ok tt)
            else claimed process job owner uuid later task w (claim_running uuid owner now w.table))
          not_terminal
      ∙ ap (λ b. claimed process job owner uuid later task w (started, b))
          (count_of_load (claim_test uuid owner now) uuid w.table task found free)
    where
      not_empty : is_empty uuid ≡ false
      not_empty = ground (arith, eq_iff uuid "")

      not_terminal : is_terminal_task_status task.status ≡ false
      not_terminal = ground arith

  -- The end after a success.
  handle_job_success :
      (t : Table) (s : Task)
      → uuid_of job ≡ some uuid
      → uuid ≢ ""
      → IsClaimable owner now w uuid task
      → process task started ≡ (t, ok tt)
      → load_task_by_uuid uuid t ≡ some s
      → held_test uuid owner s ≡ true
      → ((handle_job process job owner now later w).1 ≡ ok tt)
        × (load_task_by_uuid uuid (handle_job process job owner now later w).0.table
            ≡ some (ended later (ok tt) s))
        × ((handle_job process job owner now later w).0.errors ≡ w.errors)
  unfolding apply mark_succeeded
  handle_job_success t s named nonempty free done found held =
      let e =
        reaches_processor named nonempty free
        ∙ ap (finish job owner uuid later task w.errors) done in
      (
        ap (λ x. x.1) e,
        ap (λ x. load_task_by_uuid uuid x.0.table) e
            ∙ load-apply (succeed uuid owner later) uuid t s found
            ∙ ap (λ b. some (if b then succeed_row later s else s)) held,
        ap (λ x. x.0.errors) e,
      )

  -- The end after an error at the last attempt.
  handle_job_final_failure :
      (t : Table) (s : Task) (message : List ℕ)
      → uuid_of job ≡ some uuid
      → uuid ≢ ""
      → IsClaimable owner now w uuid task
      → process task started ≡ (t, err message)
      → load_task_by_uuid uuid t ≡ some s
      → held_test uuid owner s ≡ true
      → is_final job ≡ true
      → let after = handle_job process job owner now later w in
        (after.1 ≡ err (failed_with message))
        × (load_task_by_uuid uuid after.0.table ≡ some (ended later (err message) s))
        × (after.0.errors ≡ w.errors ++ logged task (err message))
  unfolding apply mark_failed
  handle_job_final_failure t s message named nonempty free thrown found held final =
      let e =
        reaches_processor named nonempty free
        ∙ ap (finish job owner uuid later task w.errors) thrown
        ∙ ap (λ b. (if b then last else again, err (failed_with message))) final in
      (
        ap (λ x. x.1) e,
        ap (λ x. load_task_by_uuid uuid x.0.table) e
            ∙ load-apply (fail uuid owner message later) uuid t s found
            ∙ ap (λ b. some (if b then fail_row message later s else s)) held,
        ap (λ x. x.0.errors) e,
      )
    where
      last : World
      last = record {
        table = (mark_failed uuid owner message later t).0;
        errors = w.errors ++ error_entry task message ∷ [];
      }

      again : World
      again = record { table = t; errors = w.errors }

  handle_job_end :
      (t : Table) (s : Task) (x : Result (List ℕ) (Unit {0}))
      → uuid_of job ≡ some uuid
      → uuid ≢ ""
      → IsClaimable owner now w uuid task
      → process task started ≡ (t, x)
      → load_task_by_uuid uuid t ≡ some s
      → held_test uuid owner s ≡ true
      → IsLast job x
      → let after = handle_job process job owner now later w in
        (after.1 ≡ thrown_on x)
        × (load_task_by_uuid uuid after.0.table ≡ some (ended later x s))
        × (after.0.errors ≡ w.errors ++ logged task x)
  handle_job_end t s (ok u) named nonempty free done found held last =
      let (a, b, c) = handle_job_success t s named nonempty free done found held in
      (a, b, c ∙ sym (append_nil w.errors))
  handle_job_end t s (err message) named nonempty free done found held last =
      handle_job_final_failure t s message named nonempty free done found held last

  -- If a delivery with a uuid meets a claimable task, the processor succeeds, or throws at the last
  -- attempt, and the task is left running under this worker's lease, the task ends: SUCCEEDED with
  -- progress 100 and no error, or FAILED with the first 2000 units of the message, in both cases
  -- without a lease. An error is thrown on and logged once, with the task's module, type and uuid.
  -- Whatever is delivered for this task later, to any worker, at any time and with any processor,
  -- does nothing.
  pub handle_job_ends :
      (t : Table) (s : Task) (x : Result (List ℕ) (Unit {0})) (process' : Processor) (job' : Job)
      (owner' : String) (now' later' : ℕ)
      → uuid_of job ≡ some uuid
      → uuid ≢ ""
      → IsClaimable owner now w uuid task
      → process task started ≡ (t, x)
      → load_task_by_uuid uuid t ≡ some s
      → held_test uuid owner s ≡ true
      → IsLast job x
      → uuid_of job' ≡ some uuid
      → let after = handle_job process job owner now later w in
        (after.1 ≡ thrown_on x)
        × (load_task_by_uuid uuid after.0.table ≡ some (ended later x s))
        × (after.0.errors ≡ w.errors ++ logged task x)
        × (handle_job process' job' owner' now' later' after.0 ≡ (after.0, ok tt))
  unfolding is_terminal_task_status
  handle_job_ends t s x process' job' owner' now' later' named nonempty free done found held last
        named' =
      let (a, b, c) = handle_job_end t s x named nonempty free done found held last in
      let over : is_terminal_task_status (ended later x s).status ≡ true =
        ended-terminal later x s in
      (
        a,
        b,
        c,
        ended_ignored process' job' uuid owner' now' later'
            (handle_job process job owner now later w).0 (ended later x s) named' nonempty b over,
      )

  -- If a delivery with a uuid meets a claimable task, and the processor throws with attempts left
  -- and leaves the task running under this worker's lease, the error is thrown on, the table and
  -- the error log stay as the processor left them, and the same worker can claim the task again at
  -- any time.
  pub handle_job_retry :
      (t : Table) (s : Task) (message : List ℕ) (retry : ℕ)
      → uuid_of job ≡ some uuid
      → uuid ≢ ""
      → IsClaimable owner now w uuid task
      → process task started ≡ (t, err message)
      → load_task_by_uuid uuid t ≡ some s
      → held_test uuid owner s ≡ true
      → is_final job ≡ false
      → let after = handle_job process job owner now later w in
        (after ≡ (record { table = t; errors = w.errors }, err (failed_with message)))
        × IsClaimable owner retry after.0 uuid s
  handle_job_retry t s message retry named nonempty free thrown found held more =
      let e =
        reaches_processor named nonempty free
        ∙ ap (finish job owner uuid later task w.errors) thrown
        ∙ ap (λ b. (if b then last else again, err (failed_with message))) more in
      (e, (ap (λ x. load_task_by_uuid uuid x.0.table) e ∙ found, ground arith))
    where
      last : World
      last = record {
        table = (mark_failed uuid owner message later t).0;
        errors = w.errors ++ error_entry task message ∷ [];
      }

      again : World
      again = record { table = t; errors = w.errors }

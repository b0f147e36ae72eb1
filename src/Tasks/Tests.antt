-- ===== src/Tasks/Tests.antt =====
-- The task theorems at concrete tables, histories and jobs.
use wbme.Common.{
  true, ◌/◌, ℕ, Bool, false, none, some, List, [], ◌∷◌, ◌++◌, String, ok, err, ◌≡◌, ◌≢◌, refl, All,
  Distinct, str_eq, eq_iff, order_by, arith,
}
use wbme.Tasks.Types.{
  pending_enqueue, queued, account_lifecycle, scheduled_backup, scheduler, Task,
  CreatePendingTaskInput, is_safely_replayable,
}
use wbme.Tasks.Ops.{
  lease_row, Table, load_task_by_uuid, is_terminal_task_status, is_candidate, claim_outbox_batch,
  claim_row, succeed_row, claim_running,
}
use wbme.Tasks.Rows.{
  Op, queue, claim, renew, succeed, time_out, fail, cancel, release, claim_batch, insert, apply,
  run,
}
use wbme.Tasks.Finality.{Moves, run-terminal, apply-Moves}
use wbme.Tasks.Validity.{IsValidTable, run-IsValidTable}
use wbme.Tasks.Exclusion.{IsHeld, IsForeign, run-IsForeign}
use wbme.Tasks.Batch.{holds, KeepsLease, claim_outbox_batch_disjoint}
use wbme.Tasks.Worker.{Job, World, Processor, failed_with, handle_job}
use wbme.Tasks.Worker.Laws.{IsClaimable, ended, logged, handle_job_ends, handle_job_retry}
use wbme.Tasks.Scheduler.{
  Calendar, Memory, QueueCalls, deliver, daily_task, ensure_daily_scheduled_backup,
}
use wbme.Tasks.Scheduler.Laws.{delivered, deliver-delivered}
use wbme.Tasks.Scheduler.Daily.{has_task, ensure_daily_scheduled_backup_once}

abbrev input : CreatePendingTaskInput
input = record {
  task_uuid = "t1";
  task_type = account_lifecycle;
  module_name = "backstage";
  initiator_id = none;
  initiator_type = scheduler;
  ref = none;
}

abbrev fresh : Task
fresh = record {
  task_uuid = "t1";
  task_type = account_lifecycle;
  module_name = "backstage";
  initiator_id = none;
  initiator_type = scheduler;
  ref = none;
  status = pending_enqueue;
  progress = 0;
  attempts = 0;
  created_at = 10;
  started_at = none;
  finished_at = none;
  timeout_at = none;
  next_retry_at = some 10;
  lease_owner = none;
  lease_expires_at = none;
  last_error = none;
}

abbrev waiting : Task
waiting = record fresh { status = queued; next_retry_at = none }

abbrev held : Task
held = claim_row "w1" 100 waiting

abbrev done : Task
done = succeed_row 200 held

abbrev other : Task
other = record fresh { task_uuid = "t2" }

-- A life of the task, with a second worker that comes too late.
abbrev history : List Op
history =
    insert input 10 10
    ∷ claim_batch (λ u. false) "s1" is_safely_replayable 20 10
    ∷ queue "t1" "s1"
    ∷ claim "t1" "w1" 100
    ∷ claim "t1" "w2" 110
    ∷ renew "t1" "w1" 150
    ∷ succeed "t1" "w1" 200
    ∷ []

abbrev stray : List Op
stray = claim "t1" "w2" 300 ∷ fail "t1" "w2" [] 310 ∷ cancel "t1" none 320 ∷ []

abbrev foreign : List Op
foreign = claim "t1" "w2" 110 ∷ queue "t1" "s1" ∷ time_out 120 ∷ succeed "t1" "w2" 130 ∷ []

differ : (u v : String) → str_eq u v ≡ false → u ≢ v
differ u v e = λ same. absurd (ground (arith, (eq_iff u v).1 same))

two-Distinct : Distinct (λ r. r.task_uuid) (done ∷ other ∷ [])
two-Distinct = ((differ "t2" "t1" refl, tt), (tt, tt))

run-terminal_example : load_task_by_uuid "t1" (run stray (done ∷ other ∷ [])) ≡ some done
unfolding load_task_by_uuid is_terminal_task_status
run-terminal_example = run-terminal stray "t1" (done ∷ other ∷ []) done two-Distinct refl refl

apply-Moves_example :
    (s : Task) × (load_task_by_uuid "t1" (apply (claim "t1" "w1" 100) (waiting ∷ other ∷ []))
      ≡ some s)
    × Moves queued s.status
unfolding load_task_by_uuid
apply-Moves_example = apply-Moves (claim "t1" "w1" 100) "t1" (waiting ∷ other ∷ []) waiting refl

empty-IsValidTable : IsValidTable []
unfolding load_task_by_uuid
empty-IsValidTable = (tt, λ uuid r e. absurd (cc))

run-IsValidTable_example : IsValidTable (run history [])
run-IsValidTable_example = run-IsValidTable history [] empty-IsValidTable

held-Distinct : Distinct (λ r. r.task_uuid) (held ∷ other ∷ [])
held-Distinct = ((differ "t2" "t1" refl, tt), (tt, tt))

held-IsHeld : IsHeld "w1" 600100 1200100 held
held-IsHeld = record { status = refl; owned = refl; until = refl; timeout = refl }

foreign-IsForeign : All (IsForeign "t1" "w1" 600100 1200100) foreign
foreign-IsForeign = (
  (differ "w2" "w1" refl, omega arith),
  (differ "s1" "w1" refl, (omega arith, (differ "w2" "w1" refl, tt))),
)

run-IsForeign_example : load_task_by_uuid "t1" (run foreign (held ∷ other ∷ [])) ≡ some held
unfolding load_task_by_uuid
run-IsForeign_example =
    run-IsForeign "t1" "w1" 600100 1200100 foreign (held ∷ other ∷ []) held foreign-IsForeign
      held-Distinct refl held-IsHeld

abbrev unlocked : String → Bool
unlocked u = false

abbrev outbox : Table
outbox = fresh ∷ other ∷ []

outbox-Distinct : Distinct (λ r. r.task_uuid) outbox
outbox-Distinct = ((differ "t2" "t1" refl, tt), (tt, tt))

-- The first scheduler fails to queue another task, and a worker claims in vain.
abbrev between : List Op
between = release "t2" "s1" 0 [] 21 ∷ claim "t1" "w1" 22 ∷ []

between-KeepsLease : All (KeepsLease "t1" 20 120020) between
between-KeepsLease = (differ "t2" "t1" refl, (omega arith, tt))

claim_outbox_batch_disjoint_example :
    holds "t1"
      (claim_outbox_batch unlocked "s2" is_safely_replayable 120019 10
        (run between (claim_outbox_batch unlocked "s1" is_safely_replayable 20 10 outbox).0)).1
    ≡ false
unfolding claim_outbox_batch is_candidate order_by
claim_outbox_batch_disjoint_example =
    claim_outbox_batch_disjoint unlocked unlocked "s1" "s2" is_safely_replayable
      is_safely_replayable 20 120019 120020 10 10 between outbox "t1" outbox-Distinct (omega arith)
      (omega arith) between-KeepsLease refl

abbrev job : ℕ → Job
job made = record {
  data_task_uuid = some "t1";
  id = none;
  attempts_made = made;
  max_attempts = some 3;
}

abbrev world : World
world = record { table = waiting ∷ other ∷ []; errors = [] }

abbrev succeeds : Processor
succeeds task t = (t, ok tt)

abbrev throws : Processor
throws task t = (t, err (b'x' ∷ []))

world-IsClaimable : IsClaimable "w1" 100 world "t1" waiting
unfolding load_task_by_uuid
world-IsClaimable = (refl, refl)

abbrev running_table : Table
running_table = held ∷ other ∷ []

-- The last attempt fails; the job is delivered once more.
handle_job_ends_example :
    let after = handle_job throws (job 2) "w1" 100 200 world in
    (after.1 ≡ err (failed_with (b'x' ∷ [])))
    × (load_task_by_uuid "t1" after.0.table ≡ some (ended 200 (err (b'x' ∷ [])) held))
    × (after.0.errors ≡ [] ++ logged waiting (err (b'x' ∷ [])))
    × (handle_job succeeds (job 3) "w2" 900 950 after.0 ≡ (after.0, ok tt))
unfolding load_task_by_uuid claim_running
handle_job_ends_example =
    handle_job_ends throws (job 2) "t1" "w1" 100 200 world waiting running_table held
      (err (b'x' ∷ [])) succeeds (job 3) "w2" 900 950 refl (differ "t1" "" refl) world-IsClaimable
      refl refl refl refl refl

handle_job_retry_example :
    let after = handle_job throws (job 0) "w1" 100 200 world in
    (after ≡ (record { table = running_table; errors = [] }, err (failed_with (b'x' ∷ []))))
    × IsClaimable "w1" 300 after.0 "t1" held
unfolding load_task_by_uuid claim_running
handle_job_retry_example =
    handle_job_retry throws (job 0) "t1" "w1" 100 200 world waiting running_table held (b'x' ∷ [])
      300 refl (differ "t1" "" refl) world-IsClaimable refl refl refl refl

-- A queue that takes every job and remembers the uuids.
abbrev calls : QueueCalls (List String)
calls = record {
  remove = λ uuid q. (q, ok 1);
  add = λ type uuid options q. (uuid ∷ q, ok tt);
  still_locked = λ uuid. [];
}

abbrev calendar : Calendar
calendar = record {
  beijing_hour = λ now. now / 3600000;
  beijing_date_string = λ now. "2024-01-01";
  stable_task_uuid = λ type cycle. cycle;
  cycle_date_ref = λ date. date;
  cycle_id_text = λ id. "0";
  cycle_id_ref = λ id. "0";
}

abbrev forgetful : Memory
forgetful = record {
  last_scheduled_backup_cycle_date = none;
  last_image_cleanup_cycle_date = none;
  last_approval_timeout_cycle_date = none;
  last_log_cleanup_cycle_id = none;
}

abbrev leased : Task
leased = lease_row "s1" 20 fresh

-- A queue that refuses the second job.
abbrev full_after_one : QueueCalls (List String)
full_after_one = record {
  remove = λ uuid q. (q, ok 1);
  add = λ type uuid options q. elim q [
    | [] ↦ (uuid ∷ [], ok tt)
    | v ∷ vs ↦ (v ∷ vs, err (b'x' ∷ []))
  ];
  still_locked = λ uuid. [];
}

abbrev leased_two : Task
leased_two = lease_row "s1" 20 other

deliver-delivered_example :
    load_task_by_uuid "t2"
      (deliver full_after_one "s1" 20 (leased ∷ leased_two ∷ []) [] (leased ∷ leased_two ∷ [])).1
    ≡ some (delivered 20 (err (b'x' ∷ [])) leased_two)
unfolding load_task_by_uuid
deliver-delivered_example =
    deliver-delivered full_after_one "s1" 20 (leased ∷ []) [] leased_two []
      (leased ∷ leased_two ∷ []) leased_two ((differ "t2" "t1" refl, tt), (tt, tt)) refl refl

ensure_daily_scheduled_backup_once_example :
    let u = (ensure_daily_scheduled_backup calendar 7200000 7200000 false forgetful []).1 in
    (has_task (daily_task calendar 7200000 7200000 scheduled_backup).task_uuid u ≡ true)
    × ((ensure_daily_scheduled_backup calendar 9000000 9000000 true forgetful u).1 ≡ u)
ensure_daily_scheduled_backup_once_example =
    ensure_daily_scheduled_backup_once calendar 7200000 7200000 9000000 9000000 true forgetful
      forgetful [] (omega arith) refl refl

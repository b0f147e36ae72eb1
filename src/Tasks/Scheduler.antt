-- ===== src/Tasks/Scheduler.antt =====
-- apps/worker/src/outbox-scheduler.ts: the daily tasks and one tick of the outbox. The queue, the
-- calendar of Beijing, hashing, JSON texts and the wording of an error are parameters; failures of
-- the database are left out. A setting is a whole number of hours or no number.
pub mod Laws
pub mod Daily
pub mod Tick
use wbme.Common.{
  ℕ, zero, suc, ◌*◌, ◌/◌, Bool, true, false, not, Option, none, some, List, [], ◌∷◌, String, Result,
  ok, err, if◌then◌else◌, ltb, leb, ◌==◌, str_eq,
}
use wbme.Tasks.Types.{
  TaskType, account_lifecycle, scheduled_backup, immediate_backup, restore_delivery,
  emergency_backup, unassociated_image_cleanup, approval_timeout_scan, log_retention_cleanup,
  scheduler, Task, CreatePendingTaskInput, is_safely_replayable,
}
use wbme.Tasks.Ops.{
  Table, is_pending_enqueue, mark_queued, release_enqueue_lease, fail_timed_out_tasks,
  claim_outbox_batch, insert_pending_task_sql,
}

-- What the scheduler remembers between ticks of one process.
pub record Memory : Type 0 where
  pub last_scheduled_backup_cycle_date : Option String
  pub last_image_cleanup_cycle_date : Option String
  pub last_approval_timeout_cycle_date : Option String
  pub last_log_cleanup_cycle_id : Option ℕ

-- `stable_task_uuid` takes the type and the cycle of a task.
pub record Calendar : Type 0 where
  pub beijing_hour : ℕ → ℕ
  pub beijing_date_string : ℕ → String
  pub stable_task_uuid : TaskType → String → String
  pub cycle_date_ref : String → String
  pub cycle_id_text : ℕ → String
  pub cycle_id_ref : ℕ → String

abbrev pub remembers : Option String → String → Bool
remembers none date = false
remembers (some last) date = str_eq last date

abbrev remembers_id : Option ℕ → ℕ → Bool
remembers_id none id = false
remembers_id (some last) id = last == id

abbrev scheduled_task : TaskType → String → String → CreatePendingTaskInput
scheduled_task type uuid ref = record {
  task_uuid = uuid;
  task_type = type;
  module_name = "backstage";
  initiator_id = none;
  initiator_type = scheduler;
  ref = some ref;
}

pub data Hours : Type 0 where
  not_finite : Hours
  negative : ℕ → Hours
  whole : ℕ → Hours

-- `rows[0] ? Number(rows[0].value) : 24`, and the test on it: `none` if cleaning is off.
abbrev interval_hours : Option Hours → Option ℕ
interval_hours none = some 24
interval_hours (some not_finite) = none
interval_hours (some (negative n)) = none
interval_hours (some (whole n)) = if ltb 0 n then some n else none

module _ (calendar : Calendar) (now created : ℕ) where
  -- `beijingHour(date) >= 2`
  abbrev pub is_past_scheduled_backup_boundary : Bool
  is_past_scheduled_backup_boundary = leb 2 (calendar.beijing_hour now)

  abbrev pub daily_task : TaskType → CreatePendingTaskInput
  daily_task type =
      let date = calendar.beijing_date_string now in
      scheduled_task type (calendar.stable_task_uuid type date) (calendar.cycle_date_ref date)

  abbrev pub inserted : CreatePendingTaskInput → Table → Table
  inserted input t = (insert_pending_task_sql input now created t).0

  -- `critical` says whether the disk is at its critical threshold.
  unfoldable pub ensure_daily_scheduled_backup : Bool → Memory → Table → Memory × Table
  ensure_daily_scheduled_backup critical m t =
      let date = calendar.beijing_date_string now in
      if not is_past_scheduled_backup_boundary
      then (m, t)
      else if remembers m.last_scheduled_backup_cycle_date date
      then (m, t)
      else if critical
      then (m, t)
      else (
        record m { last_scheduled_backup_cycle_date = some date },
        inserted (daily_task scheduled_backup) t,
      )

  unfoldable pub ensure_daily_image_cleanup : Memory → Table → Memory × Table
  ensure_daily_image_cleanup m t =
      let date = calendar.beijing_date_string now in
      if ltb (calendar.beijing_hour now) 3
      then (m, t)
      else if remembers m.last_image_cleanup_cycle_date date
      then (m, t)
      else (
        record m { last_image_cleanup_cycle_date = some date },
        inserted (daily_task unassociated_image_cleanup) t,
      )

  unfoldable pub ensure_daily_approval_timeout_scan : Memory → Table → Memory × Table
  ensure_daily_approval_timeout_scan m t =
      let date = calendar.beijing_date_string now in
      if ltb (calendar.beijing_hour now) 4
      then (m, t)
      else if remembers m.last_approval_timeout_cycle_date date
      then (m, t)
      else (
        record m { last_approval_timeout_cycle_date = some date },
        inserted (daily_task approval_timeout_scan) t,
      )

  abbrev pub cleanup_task : ℕ → CreatePendingTaskInput
  cleanup_task id =
      scheduled_task log_retention_cleanup
        (calendar.stable_task_uuid log_retention_cleanup (calendar.cycle_id_text id))
        (calendar.cycle_id_ref id)

  abbrev clean_every : Option ℕ → Memory → Table → Memory × Table
  clean_every none m t = (m, t)
  clean_every (some hours) m t =
      let id = now / (hours * 60 * 60 * 1000) in
      if remembers_id m.last_log_cleanup_cycle_id id
      then (m, t)
      else (record m { last_log_cleanup_cycle_id = some id }, inserted (cleanup_task id) t)

  unfoldable pub ensure_periodic_log_cleanup : Option Hours → Memory → Table → Memory × Table
  ensure_periodic_log_cleanup setting m t = clean_every (interval_hours setting) m t

pub data JobOptions : Type 0 where
  default_job_options restore_delivery_job_options : JobOptions

-- The queue's calls that the scheduler makes; an error is its message.
pub record QueueCalls (Q : Type 0) : Type 0 where
  pub remove : String → Q → Q × Result (List ℕ) ℕ
  pub add : TaskType → String → JobOptions → Q → Q × Result (List ℕ) (Unit {0})
  pub still_locked : String → List ℕ

abbrev options_of : TaskType → JobOptions
options_of restore_delivery = restore_delivery_job_options
options_of _ = default_job_options

module _ {Q : Type 0} (calls : QueueCalls Q) (owner : String) (now : ℕ) where
  abbrev add_row : Task → Q → Q × Result (List ℕ) (Unit {0})
  add_row row q = calls.add row.task_type row.task_uuid (options_of row.task_type) q

  -- `removed === 0`: the old job is still locked.
  abbrev after_remove : Task → Q × Result (List ℕ) ℕ → Q × Result (List ℕ) (Unit {0})
  after_remove row (q, ok zero) = (q, err (calls.still_locked row.task_uuid))
  after_remove row (q, ok (suc n)) = add_row row q
  after_remove row (q, err message) = (q, err message)

  abbrev pub enqueue : Task → Q → Q × Result (List ℕ) (Unit {0})
  enqueue row q =
      if not (is_pending_enqueue row.status)
      then after_remove row (calls.remove row.task_uuid q)
      else add_row row q

  abbrev pub settle : Task → Table → Q × Result (List ℕ) (Unit {0}) → Q × Table
  settle row t (q, ok u) = (q, (mark_queued row.task_uuid owner t).0)
  settle row t (q, err message) = (q, (release_enqueue_lease row.task_uuid owner 0 message now t).0)

  -- The loop over the claimed rows.
  unfoldable pub deliver : List Task → Q → Table → Q × Table
  deliver [] q t = (q, t)
  deliver (row ∷ rows) q t = let (q', t') = settle row t (enqueue row q) in deliver rows q' t'

-- What a tick reads from outside: an unreadable maintenance state is `none`.
pub record Readings : Type 0 where
  pub maintenance : Option Bool
  pub critical : Bool
  pub setting : Option Hours
  pub locked : String → Bool
  pub now : ℕ
  pub created : ℕ

abbrev should_pause_for_maintenance : Option Bool → Bool
should_pause_for_maintenance none = true
should_pause_for_maintenance (some active) = active

pub record SchedulerState (Q : Type 0) : Type 0 where
  pub running : Bool
  pub memory : Memory
  pub queue : Q
  pub table : Table

abbrev pub task_enqueue_batch_size : ℕ
task_enqueue_batch_size = 50

module _ {Q : Type 0} (calendar : Calendar) (calls : QueueCalls Q) (owner : String)
    (r : Readings) where
  -- The four calls that create the scheduled tasks.
  unfoldable pub ensure_all : Memory → Table → Memory × Table
  unfolding ensure_daily_scheduled_backup ensure_daily_image_cleanup
      ensure_daily_approval_timeout_scan ensure_periodic_log_cleanup
  ensure_all m t =
      let (m1, t1) = ensure_daily_scheduled_backup calendar r.now r.created r.critical m t in
      let (m2, t2) = ensure_daily_image_cleanup calendar r.now r.created m1 t1 in
      let (m3, t3) = ensure_daily_approval_timeout_scan calendar r.now r.created m2 t2 in
      ensure_periodic_log_cleanup calendar r.now r.created r.setting m3 t3

  abbrev claimed_batch : Table → Table × List Task
  claimed_batch t =
      claim_outbox_batch r.locked owner is_safely_replayable r.now task_enqueue_batch_size
        (fail_timed_out_tasks r.now t).0

  abbrev pub work : SchedulerState Q → SchedulerState Q
  work s =
      let (m, t) = ensure_all s.memory s.table in
      let (q, u) = deliver calls owner r.now (claimed_batch t).1 s.queue (claimed_batch t).0 in
      record { running = false; memory = m; queue = q; table = u }

  unfoldable pub tick : SchedulerState Q → SchedulerState Q
  unfolding ensure_all deliver
  tick s = if s.running then s else if should_pause_for_maintenance r.maintenance then s else work s

-- ===== src/Tasks/Scheduler/Tick.antt =====
-- The table under a tick: its well-formedness.
use wbme.Common.{
  ℕ, Bool, Option, none, some, List, [], ◌∷◌, String, Result, ok, err, inl, inr, Bool-cases, leb,
  ltb, ◌*◌, ◌/◌,
}
use wbme.Tasks.Types.{
  Task, CreatePendingTaskInput, scheduled_backup, unassociated_image_cleanup, approval_timeout_scan,
  is_safely_replayable,
}
use wbme.Tasks.Ops.{Table, fail_timed_out_tasks}
use wbme.Tasks.Rows.{queue, time_out, release, claim_batch, insert, apply}
use wbme.Tasks.Validity.{IsValidTable, apply-IsValidTable}
use wbme.Tasks.Scheduler.{
  Memory, Calendar, QueueCalls, Readings, SchedulerState, remembers, remembers_id, interval_hours,
  clean_every, daily_task, cleanup_task, inserted, ensure_daily_scheduled_backup,
  ensure_daily_image_cleanup, ensure_daily_approval_timeout_scan, ensure_periodic_log_cleanup,
  enqueue, settle, deliver, ensure_all, work, tick, claimed_batch, should_pause_for_maintenance,
  task_enqueue_batch_size,
}

-- What a scheduler does to the table keeps every row well formed.
module _ (calendar : Calendar) (now created : ℕ) where
  inserted-IsValidTable :
      (input : CreatePendingTaskInput) (t : Table)
      → IsValidTable t
      → IsValidTable (inserted calendar now created input t)
  unfolding apply
  inserted-IsValidTable input t v = apply-IsValidTable (insert input now created) t v

  backup-IsValidTable :
      (critical : Bool) (m : Memory) (t : Table)
      → IsValidTable t
      → IsValidTable (ensure_daily_scheduled_backup calendar now created critical m t).1
  unfolding ensure_daily_scheduled_backup
  backup-IsValidTable critical m t v = elim (Bool-cases (leb 2 (calendar.beijing_hour now))) [
    | inr e ↦ rw e v
    | inl e ↦
        elim (Bool-cases
          (remembers m.last_scheduled_backup_cycle_date (calendar.beijing_date_string now))) [
            | inl f ↦ rw (e, f) v
            | inr f ↦ elim (Bool-cases critical) [
              | inl g ↦ rw (e, f, g) v
              | inr g ↦
                  rw (e, f, g)
                    (inserted-IsValidTable (daily_task calendar now created scheduled_backup) t v)
            ]
          ]
  ]

  image-IsValidTable :
      (m : Memory) (t : Table)
      → IsValidTable t
      → IsValidTable (ensure_daily_image_cleanup calendar now created m t).1
  unfolding ensure_daily_image_cleanup
  image-IsValidTable m t v = elim (Bool-cases (ltb (calendar.beijing_hour now) 3)) [
    | inl e ↦ rw e v
    | inr e ↦
        elim (Bool-cases
          (remembers m.last_image_cleanup_cycle_date (calendar.beijing_date_string now))) [
            | inl f ↦ rw (e, f) v
            | inr f ↦
                rw (e, f)
                  (inserted-IsValidTable
                    (daily_task calendar now created unassociated_image_cleanup) t v)
          ]
  ]

  approval-IsValidTable :
      (m : Memory) (t : Table)
      → IsValidTable t
      → IsValidTable (ensure_daily_approval_timeout_scan calendar now created m t).1
  unfolding ensure_daily_approval_timeout_scan
  approval-IsValidTable m t v = elim (Bool-cases (ltb (calendar.beijing_hour now) 4)) [
    | inl e ↦ rw e v
    | inr e ↦
        elim (Bool-cases
          (remembers m.last_approval_timeout_cycle_date (calendar.beijing_date_string now))) [
            | inl f ↦ rw (e, f) v
            | inr f ↦
                rw (e, f)
                  (inserted-IsValidTable (daily_task calendar now created approval_timeout_scan) t
                    v)
          ]
  ]

  clean-IsValidTable :
      (hours : Option ℕ) (m : Memory) (t : Table)
      → IsValidTable t
      → IsValidTable (clean_every calendar now created hours m t).1
  clean-IsValidTable none m t v = v
  clean-IsValidTable (some hours) m t v =
      let id = now / (hours * 60 * 60 * 1000) in
      elim (Bool-cases (remembers_id m.last_log_cleanup_cycle_id id)) [
        | inl e ↦ rw e v
        | inr e ↦ rw e (inserted-IsValidTable (cleanup_task calendar now created id) t v)
      ]

module _ {Q : Type 0} (calls : QueueCalls Q) (owner : String) (now : ℕ) where
  settle-IsValidTable :
      (row : Task) (t : Table) (x : Q × Result (List ℕ) (Unit {0}))
      → IsValidTable t
      → IsValidTable (settle calls owner now row t x).1
  unfolding apply
  settle-IsValidTable row t (q, ok u) v = apply-IsValidTable (queue row.task_uuid owner) t v
  settle-IsValidTable row t (q, err message) v =
      apply-IsValidTable (release row.task_uuid owner 0 message now) t v

  deliver-IsValidTable :
      (rows : List Task) (q : Q) (t : Table)
      → IsValidTable t
      → IsValidTable (deliver calls owner now rows q t).1
  unfolding deliver
  deliver-IsValidTable [] q t v = v
  deliver-IsValidTable (row ∷ rows) q t v =
      let x = settle calls owner now row t (enqueue calls owner now row q) in
      deliver-IsValidTable rows x.0 x.1
        (settle-IsValidTable row t (enqueue calls owner now row q) v)

module _ {Q : Type 0} (calendar : Calendar) (calls : QueueCalls Q) (owner : String)
    (r : Readings) where
  ensure_all-IsValidTable :
      (m : Memory) (t : Table)
      → IsValidTable t
      → IsValidTable (ensure_all calendar calls owner r m t).1
  unfolding ensure_all ensure_periodic_log_cleanup
  ensure_all-IsValidTable m t v =
      let a = ensure_daily_scheduled_backup calendar r.now r.created r.critical m t in
      let b = ensure_daily_image_cleanup calendar r.now r.created a.0 a.1 in
      let c = ensure_daily_approval_timeout_scan calendar r.now r.created b.0 b.1 in
      clean-IsValidTable calendar r.now r.created (interval_hours r.setting) c.0 c.1 (
        approval-IsValidTable calendar r.now r.created b.0 b.1 (
          image-IsValidTable calendar r.now r.created a.0 a.1
            (backup-IsValidTable calendar r.now r.created r.critical m t v)))

  work-IsValidTable :
      (s : SchedulerState Q)
      → IsValidTable s.table
      → IsValidTable (work calendar calls owner r s).table
  unfolding apply
  work-IsValidTable s v =
      let e = ensure_all calendar calls owner r s.memory s.table in
      let b = claimed_batch calendar calls owner r e.1 in
      deliver-IsValidTable calls owner r.now b.1 s.queue b.0 (
        apply-IsValidTable
          (claim_batch r.locked owner is_safely_replayable r.now task_enqueue_batch_size)
          (fail_timed_out_tasks r.now e.1).0
          (apply-IsValidTable (time_out r.now) e.1 (ensure_all-IsValidTable s.memory s.table v)))

  -- A tick keeps the table well formed, whatever the queue, the calendar and the settings are.
  tick-IsValidTable :
      (s : SchedulerState Q)
      → IsValidTable s.table
      → IsValidTable (tick calendar calls owner r s).table
  unfolding tick
  tick-IsValidTable s v = elim (Bool-cases s.running) [
    | inl e ↦ rw e v
    | inr e ↦ elim (Bool-cases (should_pause_for_maintenance r.maintenance)) [
      | inl f ↦ rw (e, f) v
      | inr f ↦ rw (e, f) (work-IsValidTable s v)
    ]
  ]

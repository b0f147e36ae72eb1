-- ===== src/Tasks/Scheduler/Daily.antt =====
-- `ensureDailyScheduledBackup`, asked for again and again.
use wbme.Common.{
  ℕ, ◌≤◌, Bool, true, false, [], ◌∷◌, ◌++◌, String, ◌≡◌, refl, ap, ◌∙◌, inl, inr, arith, Bool-cases,
  str_eq, eq_refl, any, leb,
}
use wbme.Tasks.Types.{Task, CreatePendingTaskInput, scheduled_backup}
use wbme.Tasks.Ops.{Table, insert_pending_task_sql, pending_task}
use wbme.Tasks.Scheduler.{
  Memory, Calendar, remembers, daily_task, inserted, ensure_daily_scheduled_backup,
}

abbrev pub has_task : String → Table → Bool
has_task uuid t = any (λ r. str_eq r.task_uuid uuid) t

has_task-append :
    (uuid : String) (t : Table) (new : Task)
    → str_eq new.task_uuid uuid ≡ true
    → has_task uuid (t ++ new ∷ []) ≡ true
has_task-append uuid [] new e = rw e refl
has_task-append uuid (r ∷ t) new e = ground (arith, has_task-append uuid t new e)

insert-has_task :
    (input : CreatePendingTaskInput) (now created : ℕ) (t : Table)
    → has_task input.task_uuid (insert_pending_task_sql input now created t).0 ≡ true
unfolding insert_pending_task_sql
insert-has_task input now created t =
    elim (Bool-cases (any (λ r. str_eq r.task_uuid input.task_uuid) t)) [
      | inl e ↦ rw e e
      | inr e ↦ rw e (
          has_task-append input.task_uuid t (pending_task input now created)
            (eq_refl input.task_uuid))
    ]

insert_again :
    (input : CreatePendingTaskInput) (now created : ℕ) (t : Table)
    → has_task input.task_uuid t ≡ true
    → (insert_pending_task_sql input now created t).0 ≡ t
unfolding insert_pending_task_sql
insert_again input now created t e = rw e refl

module _ (calendar : Calendar) (now created : ℕ) where
  ensured :
      (m : Memory) (t : Table)
      → 2 ≤ calendar.beijing_hour now
      → remembers m.last_scheduled_backup_cycle_date (calendar.beijing_date_string now) ≡ false
      → (ensure_daily_scheduled_backup calendar now created false m t).1
        ≡ inserted calendar now created (daily_task calendar now created scheduled_backup) t
  unfolding ensure_daily_scheduled_backup
  ensured m t hour fresh =
      let late : leb 2 (calendar.beijing_hour now) ≡ true = ground arith in rw (late, fresh) refl

  ensured_again :
      (critical : Bool) (m : Memory) (t : Table)
      → has_task (daily_task calendar now created scheduled_backup).task_uuid t ≡ true
      → (ensure_daily_scheduled_backup calendar now created critical m t).1 ≡ t
  unfolding ensure_daily_scheduled_backup
  ensured_again critical m t h = elim (Bool-cases (leb 2 (calendar.beijing_hour now))) [
    | inr e ↦ rw e refl
    | inl e ↦
        elim (Bool-cases
          (remembers m.last_scheduled_backup_cycle_date (calendar.beijing_date_string now))) [
            | inl f ↦ rw (e, f) refl
            | inr f ↦ elim (Bool-cases critical) [
              | inl g ↦ rw (e, f, g) refl
              | inr g ↦
                  rw (e, f, g)
                    (insert_again (daily_task calendar now created scheduled_backup) now created t
                      h)
            ]
          ]
  ]

-- When a scheduler that does not remember the day asks for its backup from two o'clock on and with
-- disk to spare, the task of the day is in the table afterwards, and whoever asks again on that day,
-- also after a restart, leaves the table as it is.
pub ensure_daily_scheduled_backup_once :
    (calendar : Calendar) (now created later created' : ℕ) (critical : Bool) (m m' : Memory)
    (t : Table)
    → 2 ≤ calendar.beijing_hour now
    → remembers m.last_scheduled_backup_cycle_date (calendar.beijing_date_string now) ≡ false
    → calendar.beijing_date_string later ≡ calendar.beijing_date_string now
    → let u = (ensure_daily_scheduled_backup calendar now created false m t).1 in
      (has_task (daily_task calendar now created scheduled_backup).task_uuid u ≡ true)
      × ((ensure_daily_scheduled_backup calendar later created' critical m' u).1 ≡ u)
ensure_daily_scheduled_backup_once calendar now created later created' critical m m' t hour fresh
      day =
    let input = daily_task calendar now created scheduled_backup in
    let there =
      ap (has_task input.task_uuid) (ensured calendar now created m t hour fresh)
      ∙ insert-has_task input now created t in
    let u = (ensure_daily_scheduled_backup calendar now created false m t).1 in
    (
      there,
      ensured_again calendar later created' critical m' u
          (ap (λ d. has_task (calendar.stable_task_uuid scheduled_backup d) u) day ∙ there),
    )

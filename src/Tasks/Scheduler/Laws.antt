-- ===== src/Tasks/Scheduler/Laws.antt =====
-- How the deliveries of a tick end.
use wbme.Common.{
  refl, ◌+◌, ◌++◌, none, take, ℕ, true, false, some, List, [], ◌∷◌, String, Result, ok, err, ◌≡◌,
  sym, ap, ◌∙◌, ◌≢◌, arith, Distinct, All, str_eq, eq_iff, if◌then◌else◌,
}
use wbme.Tasks.Types.{Task, queued}
use wbme.Tasks.Ops.{
  Table, load_task_by_uuid, queue_test, compute_enqueue_backoff_seconds, queue_row, enqueue_test,
  release_row,
}
use wbme.Tasks.Rows.{queue, release, apply, load-apply, load-uuid}
use wbme.Tasks.Scheduler.{QueueCalls, enqueue, settle, deliver}

-- A row after its delivery. The queue took the job: QUEUED without a lease, a retry or an error. It
-- did not: without a lease, with one more attempt, a retry 30 seconds later and the queue's error.
abbrev pub delivered : (now : ℕ) → Result (List ℕ) (Unit {0}) → Task → Task
delivered now (ok u) r = record r {
  status = queued;
  lease_owner = none;
  lease_expires_at = none;
  next_retry_at = none;
  last_error = none;
}
delivered now (err message) r = record r {
  attempts = r.attempts + 1;
  lease_owner = none;
  lease_expires_at = none;
  next_retry_at = some (now + 30000);
  last_error = some (take 2000 message);
}

All-at {ℓ κ} :
    {A : Type ℓ} (P : A → Type κ) (xs : List A) (y : A) (ys : List A) → All P (xs ++ y ∷ ys) → P y
All-at P [] y ys h = h.0
All-at P (x ∷ xs) y ys h = All-at P xs y ys h.1

module _ {Q : Type 0} (calls : QueueCalls Q) (owner : String) (now : ℕ) where
  -- The queue when the first rows have been delivered.
  abbrev pub queue_after : List Task → Q → Q
  queue_after [] q = q
  queue_after (row ∷ rows) q = queue_after rows (enqueue calls owner now row q).0

  enqueue_test-queue_test :
      (uuid : String) (r : Task) → enqueue_test uuid owner r ≡ true → queue_test uuid owner r ≡ true
  enqueue_test-queue_test uuid r h = ground arith

  settled :
      (row r : Task) (t : Table) (x : Q × Result (List ℕ) (Unit {0}))
      → load_task_by_uuid row.task_uuid t ≡ some r
      → enqueue_test row.task_uuid owner r ≡ true
      → load_task_by_uuid row.task_uuid (settle calls owner now row t x).1
        ≡ some (delivered now x.1 r)
  unfolding apply compute_enqueue_backoff_seconds
  settled row r t (q, ok u) e h =
      load-apply (queue row.task_uuid owner) row.task_uuid t r e
      ∙ ap some (ap (λ b. if b then queue_row r else r) (enqueue_test-queue_test row.task_uuid r h))
  settled row r t (q, err message) e h =
      load-apply (release row.task_uuid owner 0 message now) row.task_uuid t r e
      ∙ ap some (ap (λ b. if b then release_row 0 message now r else r) h)

  settle-queue :
      (row : Task) (t : Table) (x : Q × Result (List ℕ) (Unit {0}))
      → (settle calls owner now row t x).0 ≡ x.0
  settle-queue row t (q, ok u) = refl
  settle-queue row t (q, err message) = refl

  not_queued :
      (uuid : String) (r : Task) → str_eq r.task_uuid uuid ≡ false → queue_test uuid owner r ≡ false
  not_queued uuid r h = ground arith

  not_released :
      (uuid : String) (r : Task)
      → str_eq r.task_uuid uuid ≡ false
      → enqueue_test uuid owner r ≡ false
  not_released uuid r h = ground arith

  unsettled :
      (row r : Task) (uuid : String) (t : Table) (x : Q × Result (List ℕ) (Unit {0}))
      → load_task_by_uuid uuid t ≡ some r
      → str_eq r.task_uuid row.task_uuid ≡ false
      → load_task_by_uuid uuid (settle calls owner now row t x).1 ≡ some r
  unfolding apply
  unsettled row r uuid t (q, ok u) e h =
      load-apply (queue row.task_uuid owner) uuid t r e
      ∙ ap some (ap (λ b. if b then queue_row r else r) (not_queued row.task_uuid r h))
  unsettled row r uuid t (q, err message) e h =
      load-apply (release row.task_uuid owner 0 message now) uuid t r e
      ∙ ap some
          (ap (λ b. if b then release_row 0 message now r else r) (not_released row.task_uuid r h))

  differ : (u v : String) → u ≢ v → str_eq v u ≡ false
  differ u v h = ground (arith, eq_iff v u)

  other_row :
      (row r : Task) (uuid : String) (t : Table)
      → load_task_by_uuid uuid t ≡ some r
      → row.task_uuid ≢ uuid
      → str_eq r.task_uuid row.task_uuid ≡ false
  other_row row r uuid t e h =
      ap (λ u. str_eq u row.task_uuid) (load-uuid uuid t r e) ∙ differ row.task_uuid uuid h

  -- A task that is not in the batch keeps its row.
  deliver_other :
      (rows : List Task) (q : Q) (t : Table) (uuid : String)
      → All (λ row. row.task_uuid ≢ uuid) rows
      → (r : Task) → load_task_by_uuid uuid t ≡ some r
      → load_task_by_uuid uuid (deliver calls owner now rows q t).1 ≡ some r
  unfolding deliver
  deliver_other [] q t uuid a r e = e
  deliver_other (row ∷ rows) q t uuid a r e =
      let x = settle calls owner now row t (enqueue calls owner now row q) in
      deliver_other rows x.0 x.1 uuid a.1 r
        (unsettled row r uuid t (enqueue calls owner now row q) e (other_row row r uuid t e a.0))

  -- In a batch that names a task once, every task that the scheduler has leased for its first
  -- delivery ends as the queue answers when its turn comes: if the queue takes the job, QUEUED
  -- without a lease, a retry or an error; if not, still PENDING_ENQUEUE without a lease, with one
  -- more attempt, a retry 30 seconds later and the first 2000 units of the queue's error.
  pub deliver-delivered :
      (sent rest : List Task) (row : Task) (q : Q) (t : Table) (r : Task)
      → Distinct (λ c. c.task_uuid) (sent ++ row ∷ rest)
      → load_task_by_uuid row.task_uuid t ≡ some r
      → enqueue_test row.task_uuid owner r ≡ true
      → load_task_by_uuid row.task_uuid (deliver calls owner now (sent ++ row ∷ rest) q t).1
        ≡ some (delivered now (enqueue calls owner now row (queue_after sent q)).1 r)
  unfolding deliver
  deliver-delivered [] rest row q t r d e h =
      let y = enqueue calls owner now row q in
      let x = settle calls owner now row t y in
      deliver_other rest x.0 x.1 row.task_uuid d.0 (delivered now y.1 r) (settled row r t y e h)
  deliver-delivered (b ∷ sent) rest row q t r d e h =
      let y = enqueue calls owner now b q in
      let x = settle calls owner now b t y in
      let apart : row.task_uuid ≢ b.task_uuid =
        All-at (λ c. c.task_uuid ≢ b.task_uuid) sent row rest d.0 in
      let kept =
        unsettled b r row.task_uuid t y e
          (other_row b r row.task_uuid t e (λ same. apart (sym same))) in
      deliver-delivered sent rest row x.0 x.1 r d.1 kept h
      ∙ ap (λ p. some (delivered now (enqueue calls owner now row (queue_after sent p)).1 r))
          (settle-queue b t y)

-- ===== src/Tasks/Ops.antt =====
-- packages/tasks/src/status-transitions.ts and outbox.ts: each statement as a function of the table.
-- A conditional UPDATE gives the new rows and whether its row count is positive. Rows that another
-- transaction has locked are a parameter of the claim (SKIP LOCKED).
use wbme.Common.{
  ℕ, ◌+◌, ◌*◌, ◌^◌, min, Bool, true, false, not, ◌&&◌, ◌||◌, Option, none, some, List, [], ◌∷◌,
  ◌++◌, String, if◌then◌else◌, ltb, leb, str_eq, any, count_if, keep_if, order_by, take,
  update_where,
}
use wbme.Tasks.Types.{
  TaskStatus, pending_enqueue, queued, running, succeeded, failed, cancelled, TaskType, Task,
  CreatePendingTaskInput, task_enqueue_lease_seconds, task_running_lease_seconds,
  task_enqueue_backoff_base_seconds, stalled_queued_requeue_minutes,
}

abbrev pub is_pending_enqueue : TaskStatus → Bool
is_pending_enqueue pending_enqueue = true
is_pending_enqueue _ = false

abbrev pub is_queued : TaskStatus → Bool
is_queued queued = true
is_queued _ = false

abbrev pub is_running : TaskStatus → Bool
is_running running = true
is_running _ = false

unfoldable pub is_terminal_task_status : TaskStatus → Bool
is_terminal_task_status succeeded = true
is_terminal_task_status failed = true
is_terminal_task_status cancelled = true
is_terminal_task_status _ = false

-- lease_owner = $2, which NULL does not satisfy.
abbrev pub is_owner : String → Option String → Bool
is_owner owner none = false
is_owner owner (some o) = str_eq o owner

-- IS NULL OR … <= now
abbrev pub null_or_past : ℕ → Option ℕ → Bool
null_or_past now none = true
null_or_past now (some t) = leb t now

-- IS NOT NULL AND … <= now
abbrev pub past : ℕ → Option ℕ → Bool
past now none = false
past now (some t) = leb t now

abbrev pub is_null : Option ℕ → Bool
is_null none = true
is_null (some t) = false

-- COALESCE(column, now)
abbrev pub coalesce : Option ℕ → ℕ → Option ℕ
coalesce none now = some now
coalesce (some t) now = some t

-- `lastError.slice(0, 2_000)`
abbrev pub error_summary : List ℕ → List ℕ
error_summary text = take 2000 text

abbrev pub Table : Type 0
Table = List Task

abbrev pub update : (Task → Bool) → (Task → Task) → Table → Table × Bool
update p f rows = (update_where p f rows, ltb 0 (count_if p rows))

unfoldable pub compute_enqueue_backoff_seconds : ℕ → ℕ
compute_enqueue_backoff_seconds attempts = task_enqueue_backoff_base_seconds * 2 ^ min attempts 8

unfoldable pub load_task_by_uuid : String → Table → Option Task
load_task_by_uuid uuid [] = none
load_task_by_uuid uuid (r ∷ rows) =
    if str_eq r.task_uuid uuid then some r else load_task_by_uuid uuid rows

abbrev pub queue_test : String → String → Task → Bool
queue_test uuid owner r =
    str_eq r.task_uuid uuid
    && (is_pending_enqueue r.status || is_queued r.status || is_running r.status)
    && is_owner owner r.lease_owner

abbrev pub queue_row : Task → Task
queue_row r = record r {
  status = queued;
  lease_owner = none;
  lease_expires_at = none;
  next_retry_at = none;
  last_error = none;
}

unfoldable pub mark_queued : String → String → Table → Table × Bool
mark_queued uuid owner = update (queue_test uuid owner) queue_row

abbrev pub claim_test : String → String → ℕ → Task → Bool
claim_test uuid owner now r =
    str_eq r.task_uuid uuid
    && (is_queued r.status || is_running r.status)
    && (is_queued r.status || null_or_past now r.lease_expires_at || is_owner owner r.lease_owner)

abbrev pub lease_end : ℕ → ℕ
lease_end now = now + task_running_lease_seconds * 1000

abbrev pub timeout_end : ℕ → ℕ
timeout_end now = now + task_running_lease_seconds * 2 * 1000

abbrev pub claim_row : String → ℕ → Task → Task
claim_row owner now r = record r {
  status = running;
  lease_owner = some owner;
  lease_expires_at = some (lease_end now);
  started_at = coalesce r.started_at now;
  attempts = if is_queued r.status then r.attempts + 1 else r.attempts;
  timeout_at = some (timeout_end now);
}

unfoldable pub claim_running : String → String → ℕ → Table → Table × Bool
claim_running uuid owner now = update (claim_test uuid owner now) (claim_row owner now)

-- uuid AND status = 'RUNNING' AND lease_owner
abbrev pub held_test : String → String → Task → Bool
held_test uuid owner r =
    str_eq r.task_uuid uuid && is_running r.status && is_owner owner r.lease_owner

abbrev pub renew_row : ℕ → Task → Task
renew_row now r = record r {
  lease_expires_at = some (lease_end now);
  timeout_at = some (timeout_end now);
}

unfoldable pub renew_running_lease : String → String → ℕ → Table → Table × Bool
renew_running_lease uuid owner now = update (held_test uuid owner) (renew_row now)

abbrev pub timed_out_test : ℕ → Task → Bool
timed_out_test now r = is_running r.status && past now r.timeout_at

-- The code points of the message that the timeout writes.
abbrev pub timeout_message : List ℕ
timeout_message =
    0x4efb ∷ 0x52a1 ∷ 0x6267 ∷ 0x884c ∷ 0x8d85 ∷ 0x65f6 ∷ 0xff08 ∷ b't' ∷ b'i' ∷ b'm' ∷ b'e' ∷ b'o'
    ∷ b'u' ∷ b't' ∷ b'_' ∷ b'a' ∷ b't' ∷ 0xff09 ∷ []

abbrev pub time_out_row : ℕ → Task → Task
time_out_row now r = record r {
  status = failed;
  finished_at = some now;
  last_error = some timeout_message;
  lease_owner = none;
  lease_expires_at = none;
}

-- Returns the row count.
unfoldable pub fail_timed_out_tasks : ℕ → Table → Table × ℕ
fail_timed_out_tasks now rows =
    (update_where (timed_out_test now) (time_out_row now) rows, count_if (timed_out_test now) rows)

abbrev pub succeed_row : ℕ → Task → Task
succeed_row now r = record r {
  status = succeeded;
  finished_at = some now;
  progress = 100;
  lease_owner = none;
  lease_expires_at = none;
  last_error = none;
}

unfoldable pub mark_succeeded : String → String → ℕ → Table → Table × Bool
mark_succeeded uuid owner now = update (held_test uuid owner) (succeed_row now)

abbrev pub fail_row : List ℕ → ℕ → Task → Task
fail_row last_error now r = record r {
  status = failed;
  finished_at = some now;
  lease_owner = none;
  lease_expires_at = none;
  last_error = some (error_summary last_error);
}

unfoldable pub mark_failed : String → String → List ℕ → ℕ → Table → Table × Bool
mark_failed uuid owner last_error now = update (held_test uuid owner) (fail_row last_error now)

-- $2 IS NULL OR lease_owner = $2
abbrev pub owner_if_given : Option String → Option String → Bool
owner_if_given none o = true
owner_if_given (some owner) o = is_owner owner o

abbrev pub cancel_test : String → Option String → Task → Bool
cancel_test uuid owner r =
    str_eq r.task_uuid uuid
    && not (is_terminal_task_status r.status)
    && owner_if_given owner r.lease_owner

abbrev pub cancel_row : ℕ → Task → Task
cancel_row now r = record r {
  status = cancelled;
  finished_at = some now;
  lease_owner = none;
  lease_expires_at = none;
}

unfoldable pub mark_cancelled : String → Option String → ℕ → Table → Table × Bool
mark_cancelled uuid owner now = update (cancel_test uuid owner) (cancel_row now)

abbrev pub enqueue_test : String → String → Task → Bool
enqueue_test uuid owner r =
    str_eq r.task_uuid uuid && is_pending_enqueue r.status && is_owner owner r.lease_owner

abbrev pub release_row : ℕ → List ℕ → ℕ → Task → Task
release_row attempts last_error now r = record r {
  lease_owner = none;
  lease_expires_at = none;
  attempts = r.attempts + 1;
  next_retry_at = some (now + compute_enqueue_backoff_seconds attempts * 1000);
  last_error = some (error_summary last_error);
}

unfoldable pub release_enqueue_lease : String → String → ℕ → List ℕ → ℕ → Table → Table × Bool
unfolding compute_enqueue_backoff_seconds
release_enqueue_lease uuid owner attempts last_error now =
    update (enqueue_test uuid owner) (release_row attempts last_error now)

-- outbox.ts

-- The three groups of the WHERE clause of `candidates`.
unfoldable pub is_candidate : (TaskType → Bool) → ℕ → Task → Bool
is_candidate replayable now r =
    (is_pending_enqueue r.status
      && null_or_past now r.next_retry_at
      && null_or_past now r.lease_expires_at)
    || ((is_queued r.status || is_running r.status)
        && past now r.lease_expires_at
        && replayable r.task_type)
    || (is_queued r.status
        && is_null r.lease_expires_at
        && leb (r.created_at + stalled_queued_requeue_minutes * 60 * 1000) now
        && replayable r.task_type)

abbrev pub older : Task → Task → Bool
older r s = leb r.created_at s.created_at

abbrev pub candidates : (String → Bool) → (TaskType → Bool) → ℕ → ℕ → Table → List Task
candidates locked replayable now batch_size rows =
    take batch_size (
      order_by older
        (keep_if (λ r. is_candidate replayable now r && not (locked r.task_uuid)) rows))

abbrev pub is_listed : List Task → Task → Bool
is_listed cs r = any (λ c. str_eq c.task_uuid r.task_uuid) cs

abbrev pub lease_row : String → ℕ → Task → Task
lease_row owner now r = record r {
  lease_owner = some owner;
  lease_expires_at = some (now + task_enqueue_lease_seconds * 1000);
}

-- Returns the claimed rows; the caller reads their uuid, type and status.
unfoldable pub claim_outbox_batch :
    (String → Bool) → String → (TaskType → Bool) → ℕ → ℕ → Table → Table × List Task
unfolding is_candidate
claim_outbox_batch locked owner replayable now batch_size rows =
    let cs = candidates locked replayable now batch_size rows in
    (
      update_where (is_listed cs) (lease_row owner now) rows,
      keep_if (is_listed cs) (update_where (is_listed cs) (lease_row owner now) rows),
    )

abbrev pub pending_task : CreatePendingTaskInput → ℕ → ℕ → Task
pending_task input now created = record {
  task_uuid = input.task_uuid;
  task_type = input.task_type;
  module_name = input.module_name;
  initiator_id = input.initiator_id;
  initiator_type = input.initiator_type;
  ref = input.ref;
  status = pending_enqueue;
  progress = 0;
  attempts = 0;
  created_at = created;
  started_at = none;
  finished_at = none;
  timeout_at = none;
  next_retry_at = some now;
  lease_owner = none;
  lease_expires_at = none;
  last_error = none;
}

-- ON CONFLICT (task_uuid) DO NOTHING; `created` is the database's clock. Returns `created`.
unfoldable pub insert_pending_task_sql : CreatePendingTaskInput → ℕ → ℕ → Table → Table × Bool
insert_pending_task_sql input now created rows =
    if any (λ r. str_eq r.task_uuid input.task_uuid) rows
    then (rows, false)
    else (rows ++ pending_task input now created ∷ [], true)

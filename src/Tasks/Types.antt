-- ===== src/Tasks/Types.antt =====
-- packages/tasks/src/types.ts and constants.ts: a row of `backstage.background_tasks`. Times are
-- milliseconds since 1970, a JSON payload is its text, an error text the list of its UTF-16 units.
use wbme.Common.{ℕ, Option, String, List, Bool, true}

pub data TaskStatus : Type 0 where
  pending_enqueue queued running succeeded failed cancelled : TaskStatus

pub data TaskInitiatorType : Type 0 where
  user scheduler : TaskInitiatorType

pub data TaskType : Type 0 where
  account_lifecycle scheduled_backup immediate_backup restore_delivery emergency_backup : TaskType
  unassociated_image_cleanup approval_timeout_scan log_retention_cleanup : TaskType

pub record Task : Type 0 where
  pub task_uuid : String
  pub task_type : TaskType
  pub module_name : String
  pub initiator_id : Option ℕ
  pub initiator_type : TaskInitiatorType
  pub ref : Option String
  pub status : TaskStatus
  pub progress : ℕ
  pub attempts : ℕ
  pub created_at : ℕ
  pub started_at : Option ℕ
  pub finished_at : Option ℕ
  pub timeout_at : Option ℕ
  pub next_retry_at : Option ℕ
  pub lease_owner : Option String
  pub lease_expires_at : Option ℕ
  pub last_error : Option (List ℕ)

pub record CreatePendingTaskInput : Type 0 where
  pub task_uuid : String
  pub task_type : TaskType
  pub module_name : String
  pub initiator_id : Option ℕ
  pub initiator_type : TaskInitiatorType
  pub ref : Option String

abbrev pub task_enqueue_lease_seconds : ℕ
task_enqueue_lease_seconds = 120

abbrev pub task_running_lease_seconds : ℕ
task_running_lease_seconds = 600

abbrev pub task_enqueue_backoff_base_seconds : ℕ
task_enqueue_backoff_base_seconds = 30

abbrev pub stalled_queued_requeue_minutes : ℕ
stalled_queued_requeue_minutes = 10

-- `SAFELY_REPLAYABLE_TASK_TYPES`, as a test.
unfoldable pub is_safely_replayable : TaskType → Bool
is_safely_replayable account_lifecycle = true
is_safely_replayable scheduled_backup = true
is_safely_replayable immediate_backup = true
is_safely_replayable emergency_backup = true
is_safely_replayable unassociated_image_cleanup = true
is_safely_replayable approval_timeout_scan = true
is_safely_replayable restore_delivery = true
is_safely_replayable log_retention_cleanup = true

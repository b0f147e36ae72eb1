-- ===== src/Tasks/Worker.antt =====
-- apps/worker/src/background-task-worker.ts, `handleJob`: one delivery of a job to the worker. What
-- happens to the table while the task's processor runs (the lease renewals, other processes) and
-- what the processor throws are a parameter; so are the two times at which the worker reads its
-- clock. An error is its message.
pub mod Laws
use wbme.Common.{
  ℕ, ◌+◌, Bool, true, false, Option, none, some, List, [], ◌∷◌, ◌++◌, String, Result, ok, err,
  if◌then◌else◌, leb, str_eq,
}
use wbme.Tasks.Types.{Task, TaskType}
use wbme.Tasks.Ops.{
  Table, load_task_by_uuid, is_terminal_task_status, claim_running, mark_succeeded, mark_failed,
}

pub data JobError : Type 0 where
  missing_uuid lease_not_claimable : JobError
  failed_with : List ℕ → JobError

pub record Job : Type 0 where
  pub data_task_uuid : Option String
  pub id : Option String
  pub attempts_made : ℕ
  pub max_attempts : Option ℕ

abbrev pub task_max_attempts : ℕ
task_max_attempts = 10

-- What is handed to the error log, as far as the task and the message decide it; the fixed prefix
-- of the source and the uuid in front of the sample are left out.
pub record ErrorEntry : Type 0 where
  pub service : String
  pub source : TaskType
  pub request_id : String
  pub sample : List ℕ

pub record World : Type 0 where
  pub table : Table
  pub errors : List ErrorEntry

abbrev pub Processor : Type 0
Processor = Task → Table → Table × Result (List ℕ) (Unit {0})

-- `job.data.taskUuid ?? job.id`
abbrev pub uuid_of : Job → Option String
uuid_of job = elim job.data_task_uuid [ some u ↦ some u | none ↦ job.id ]

-- `job.opts.attempts ?? TASK_MAX_ATTEMPTS`
abbrev attempts_of : Option ℕ → ℕ
attempts_of none = task_max_attempts
attempts_of (some n) = n

abbrev pub is_final : Job → Bool
is_final job = leb (attempts_of job.max_attempts) (job.attempts_made + 1)

abbrev pub error_entry : Task → List ℕ → ErrorEntry
error_entry task message = record {
  service = task.module_name;
  source = task.task_type;
  request_id = task.task_uuid;
  sample = message;
}

-- The `try` and `catch` blocks, on what the processor left and returned.
abbrev finish :
    Job
    → String
    → String
    → ℕ
    → Task
    → List ErrorEntry
    → Table × Result (List ℕ) (Unit {0})
    → World × Result JobError (Unit {0})
finish job owner uuid now task errors (t, ok u) =
    (record { table = (mark_succeeded uuid owner now t).0; errors = errors }, ok tt)
finish job owner uuid now task errors (t, err message) = (
  (if is_final job
      then record {
        table = (mark_failed uuid owner message now t).0;
        errors = errors ++ error_entry task message ∷ [];
      }
      else record { table = t; errors = errors }),
  err (failed_with message),
)

abbrev claimed :
    Processor
    → Job
    → String
    → String
    → ℕ
    → Task
    → World
    → Table × Bool
    → World × Result JobError (Unit {0})
claimed process job owner uuid later task w (t, true) =
    finish job owner uuid later task w.errors (process task t)
claimed process job owner uuid later task w (t, false) =
    (record w { table = t }, err lease_not_claimable)

abbrev loaded :
    Processor
    → Job
    → String
    → String
    → ℕ
    → ℕ
    → World
    → Option Task
    → World × Result JobError (Unit {0})
loaded process job owner uuid now later w none = (w, ok tt)
loaded process job owner uuid now later w (some task) =
    if is_terminal_task_status task.status
    then (w, ok tt)
    else claimed process job owner uuid later task w (claim_running uuid owner now w.table)

abbrev is_empty : String → Bool
is_empty s = str_eq s ""

-- `if (!taskUuid)`: an empty uuid counts as missing.
abbrev with_uuid :
    Processor → Job → String → ℕ → ℕ → World → Option String → World × Result JobError (Unit {0})
with_uuid process job owner now later w none = (w, err missing_uuid)
with_uuid process job owner now later w (some uuid) =
    if is_empty uuid
    then (w, err missing_uuid)
    else loaded process job owner uuid now later w (load_task_by_uuid uuid w.table)

unfoldable pub handle_job :
    Processor → Job → String → ℕ → ℕ → World → World × Result JobError (Unit {0})
handle_job process job owner now later w = with_uuid process job owner now later w (uuid_of job)

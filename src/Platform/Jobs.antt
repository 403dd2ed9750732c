-- ===== src/Platform/Jobs.antt =====
-- The job queue (backend/app/services/jobs.py, backend/app/models/job.py) and the worker that
-- empties it (backend/app/worker.py). A time is a number of seconds; `now` is what `utcnow()`
-- returns. The handlers of the job types are a parameter of the worker.
pub mod Order
pub mod Worker
pub mod Valid
pub mod Enqueue
pub mod Final
use eminidatabase.Base.{
  ℕ, suc, ◌+◌, ◌-◌, ◌*◌, ◌^◌, min, Bool, true, false, Option, none, some, List, [], ◌∷◌, ◌==◌, ◌&&◌,
  leb, if◌then◌else◌,
}
use eminidatabase.Base.Table.{Table, lookup, modify, add, rows, first_by}
use eminidatabase.Base.Action.{Action, ◌>>=◌, pure, reads, writes, scalar_one_or_none, returned}

pub data JobStatus : Type 0 where
  queued running succeeded failed retrying : JobStatus

-- What the queue or a handler raises: a message.
pub data Error : Type 0 where
  message : ℕ → Error
  multiple_results no_handler : Error

pub data JobType : Type 0 where
  create_database delete_database suspend_database resume_database migrate_database : JobType
  backup_database restore_database verify_backup deliver_webhook : JobType

-- What a job is about: the database, the backup or the delivery that its payload names and, of a
-- migration the target node, of a restore the backup; and the columns `organization_id` and
-- `resource_id`.
pub record Payload : Type 0 where
  pub subject : ℕ
  pub object : Option ℕ
  pub organization_id : Option ℕ
  pub resource_id : Option ℕ

pub record Job : Type 0 where
  pub type_name : JobType
  pub status : JobStatus
  pub idempotency_key : Option ℕ
  pub payload : Payload
  pub result : Option ℕ
  pub error : Option Error
  pub attempts : ℕ
  pub max_attempts : ℕ
  pub created_at : ℕ
  pub next_run_at : ℕ
  pub started_at : Option ℕ
  pub completed_at : Option ℕ

pub record Queue : Type 0 where
  pub jobs : Table Job
  pub next_id : ℕ

abbrev pub Tx : Type 0 → Type 0
Tx A = Action Queue Error A

-- `Job(type=…, payload=…, idempotency_key=…)`, with the columns' defaults.
abbrev pub new_job : JobType → Payload → Option ℕ → ℕ → Job
new_job type_name payload key now = record {
  type_name = type_name;
  status = queued;
  idempotency_key = key;
  payload = payload;
  result = none;
  error = none;
  attempts = 0;
  max_attempts = 5;
  created_at = now;
  next_run_at = now;
  started_at = none;
  completed_at = none;
}

abbrev pub bears : ℕ → Job → Bool
bears key job = elim job.idempotency_key [ none ↦ false | some k ↦ k == key ]

abbrev pub added : JobType → Payload → Option ℕ → ℕ → Queue → Queue
added type_name payload key now q = record {
  jobs = add q.next_id (new_job type_name payload key now) q.jobs;
  next_id = suc q.next_id;
}

abbrev pub existing_or_added : JobType → Payload → Option ℕ → ℕ → Option (ℕ × Job) → Tx ℕ
existing_or_added type_name payload key now (some (k, _)) q = (returned k, q)
existing_or_added type_name payload key now none q =
    (returned q.next_id, added type_name payload key now q)

-- The key of the job that stands for the request.
unfoldable pub enqueue : JobType → Payload → Option ℕ → ℕ → Tx ℕ
enqueue type_name payload none now = existing_or_added type_name payload none now none
enqueue type_name payload (some key) now = do
  existing ← scalar_one_or_none multiple_results (← reads (λ q. rows (bears key) q.jobs))
  existing_or_added type_name payload (some key) now existing

abbrev pub is_waiting : JobStatus → Bool
is_waiting queued = true
is_waiting retrying = true
is_waiting _ = false

-- `Job.status.in_([QUEUED, RETRYING]), Job.next_run_at <= now`
abbrev pub is_due : ℕ → Job → Bool
is_due now job = is_waiting job.status && leb job.next_run_at now

abbrev pub started : ℕ → Job → Job
started now job = record job {
  status = running;
  attempts = suc job.attempts;
  started_at = some now;
}

abbrev pub candidate : ℕ → Queue → Option (ℕ × Job)
candidate now q = first_by (λ job. job.created_at) (rows (is_due now) q.jobs)

-- The key of the job that is claimed.
unfoldable pub claim_next_job : ℕ → Queue → Option ℕ × Queue
claim_next_job now q = elim (candidate now q) [
  | none ↦ (none, q)
  | some (k, _) ↦ (some k, record q { jobs = modify k (started now) q.jobs })
]

abbrev pub mark_succeeded : ℕ → ℕ → Job → Job
mark_succeeded now result job = record job {
  status = succeeded;
  result = some result;
  completed_at = some now;
  error = none;
}

-- `min(_BACKOFF_BASE_SECONDS * (2 ** (job.attempts - 1)), _BACKOFF_MAX_SECONDS)`
unfoldable pub backoff : ℕ → ℕ
backoff attempts = min (5 * 2 ^ (attempts - 1)) 300

abbrev pub mark_failed_or_retry : ℕ → Error → Job → Job
mark_failed_or_retry now error job =
    if leb job.max_attempts job.attempts
    then record job { error = some error; status = failed; completed_at = some now }
    else record job {
      error = some error;
      status = retrying;
      next_run_at = now + backoff job.attempts;
    }

-- ===== src/Exports.antt =====
-- Export jobs: adapters/src/v2_repo.rs (enqueue, claim, status update, heartbeat) over the table
-- export_jobs, whose row type is in core/src/v2.rs and whose CHECK is in the migrations. NOW() and
-- `Utc::now()` are numbers of seconds that the caller gives, and a JSON column is the text of its
-- document. The claim is one transaction that holds its row's lock, so it is one step.
pub mod Claims
pub mod Lifecycle
mod Samples
use mathlib.Core.Option
use spectraplex.Base.{
  ℕ, ◌+◌, ◌*◌, ℤ, String, Bool, true, false, ◌&&◌, ◌||◌, not, Option, none, some, List, [], ◌∷◌,
  ◌++◌, ltb, ◌==◌, if◌then◌else◌, str_eq, or_else, select, any, find?, update, update_where,
  first_by,
}
use spectraplex.Dataset.{DatasetName}

pub data ExportJobStatus : Type 0 where
  pending running delivering completed failed : ExportJobStatus

pub data ExportFormat : Type 0 where
  jsonl csv : ExportFormat

pub record ExportJob : Type 0 where
  pub id : ℕ
  pub dataset : DatasetName
  pub format : ExportFormat
  pub filters : Option String
  pub sink_config : Option String
  pub status : ExportJobStatus
  pub worker_id : Option String
  pub record_count : Option ℤ
  pub result_location : Option String
  pub delivery_destination : Option String
  pub error_message : Option String
  pub dataset_version_id : Option ℕ
  pub dataset_version : Option ℤ
  pub completeness_status : Option String
  pub completeness_coverage : Option String
  pub last_ingestion_run_id : Option ℕ
  pub created_at : ℕ
  pub updated_at : ℕ
  pub started_at : Option ℕ
  pub completed_at : Option ℕ
  pub heartbeat_at : Option ℕ
  pub owner_id : Option ℕ

abbrev pub Table : Type 0
Table = List ExportJob

-- STALE_JOB_THRESHOLD_MINUTES, in seconds.
abbrev pub stale_job_threshold : ℕ
stale_job_threshold = 5 * 60

abbrev pub has_id : ℕ → ExportJob → Bool
has_id i j = j.id == i

abbrev pub is_pending : ExportJobStatus → Bool
is_pending pending = true
is_pending _ = false

abbrev pub in_progress : ExportJobStatus → Bool
in_progress running = true
in_progress delivering = true
in_progress _ = false

abbrev pub is_terminal : ExportJobStatus → Bool
is_terminal completed = true
is_terminal failed = true
is_terminal _ = false

-- `heartbeat_at IS NULL OR heartbeat_at < NOW() - make_interval(mins => 5)`
abbrev pub stale : ℕ → Option ℕ → Bool
stale now none = true
stale now (some h) = ltb (h + stale_job_threshold) now

abbrev pub owner_is : String → Option String → Bool
owner_is worker none = false
owner_is worker (some o) = str_eq o worker

abbrev pub new_job :
    ℕ → ℕ → DatasetName → ExportFormat → Option String → Option String → Option ℕ → ExportJob
new_job id now dataset format filters sink_config owner_id = record {
  id = id;
  dataset = dataset;
  format = format;
  filters = filters;
  sink_config = sink_config;
  status = pending;
  worker_id = none;
  record_count = none;
  result_location = none;
  delivery_destination = none;
  error_message = none;
  dataset_version_id = none;
  dataset_version = none;
  completeness_status = none;
  completeness_coverage = none;
  last_ingestion_run_id = none;
  created_at = now;
  updated_at = now;
  started_at = none;
  completed_at = none;
  heartbeat_at = none;
  owner_id = owner_id;
}

-- `none` is the refusal of a duplicate id by the primary key.
pub enqueue_export_job :
    ℕ
    → ℕ
    → DatasetName
    → ExportFormat
    → Option String
    → Option String
    → Option ℕ
    → Table
    → Option ExportJob × Table
enqueue_export_job id now dataset format filters sink_config owner_id t =
    let fresh = new_job id now dataset format filters sink_config owner_id in
    if any (has_id id) t then (none, t) else (some fresh, t ++ fresh ∷ [])

pub claimable : ℕ → ExportJob → Bool
claimable now j = is_pending j.status || (in_progress j.status && stale now j.heartbeat_at)

-- ORDER BY created_at ASC.
abbrev pub created_before : ExportJob → ExportJob → Bool
created_before a b = ltb a.created_at b.created_at

-- FOR UPDATE SKIP LOCKED: rows that another transaction holds are passed over.
pub candidates : (ℕ → Bool) → ℕ → Table → Table
unfolding claimable
candidates locked now t = select (λ j. not (locked j.id) && claimable now j) t

pub oldest : Table → Option ExportJob
oldest = first_by created_before

abbrev pub taken : String → ℕ → ExportJob → ExportJob
taken worker now j = record j {
  status = running;
  worker_id = some worker;
  started_at = or_else j.started_at (some now);
  heartbeat_at = some now;
  updated_at = now;
}

pub claim_export_job : (ℕ → Bool) → ℕ → String → Table → Option ExportJob × Table
unfolding candidates oldest
claim_export_job locked now worker t = elim (oldest (candidates locked now t)) [
  | none ↦ (none, t)
  | some j ↦ let t' = update (has_id j.id) (taken worker now) t in (find? (has_id j.id) t', t')
]

-- The arguments of update_export_job_status besides the job and its worker.
pub record ExportUpdate : Type 0 where
  pub status : String
  pub record_count : Option ℤ
  pub result_location : Option String
  pub error_message : Option String
  pub delivery_destination : Option String
  pub dataset_version_id : Option ℕ
  pub dataset_version : Option ℤ
  pub completeness_status : Option String
  pub completeness_coverage : Option String
  pub last_ingestion_run_id : Option ℕ

-- The texts that the table's CHECK lets a status have.
pub check_status : String → Option ExportJobStatus
check_status s =
    if str_eq s "pending"
    then some pending
    else if str_eq s "running"
    then some running
    else if str_eq s "delivering"
    then some delivering
    else if str_eq s "completed"
    then some completed
    else if str_eq s "failed"
    then some failed
    else none

abbrev pub completion : String → ℕ → Option ℕ
completion status clock =
    if str_eq status "completed" || str_eq status "failed" then some clock else none

abbrev pub updated : ExportJobStatus → ExportUpdate → ℕ → ℕ → ExportJob → ExportJob
updated status u clock now j = record j {
  status = status;
  record_count = or_else u.record_count j.record_count;
  result_location = or_else u.result_location j.result_location;
  error_message = or_else u.error_message j.error_message;
  completed_at = or_else (completion u.status clock) j.completed_at;
  delivery_destination = or_else u.delivery_destination j.delivery_destination;
  dataset_version_id = or_else u.dataset_version_id j.dataset_version_id;
  dataset_version = or_else u.dataset_version j.dataset_version;
  completeness_status = or_else u.completeness_status j.completeness_status;
  completeness_coverage = or_else u.completeness_coverage j.completeness_coverage;
  last_ingestion_run_id = or_else u.last_ingestion_run_id j.last_ingestion_run_id;
  updated_at = now;
}

-- `id = $1 AND worker_id = $2 AND status IN ('running', 'delivering')`
abbrev pub held_by : ℕ → String → ExportJob → Bool
held_by i worker j = has_id i j && owner_is worker j.worker_id && in_progress j.status

-- `none` is the error of the CHECK, which is tested only on a row that is written.
pub update_export_job_status : ℕ → ExportUpdate → String → ℕ → ℕ → Table → Option Bool × Table
unfolding check_status
update_export_job_status i u worker clock now t = elim (check_status u.status) [
  | none ↦ if any (held_by i worker) t then (none, t) else (some false, t)
  | some status ↦
      (some (any (held_by i worker) t), update (held_by i worker) (updated status u clock now) t)
]

abbrev pub beaten : ℕ → ExportJob → ExportJob
beaten now j = record j { heartbeat_at = some now; updated_at = now }

pub heartbeat_export_job : ℕ → String → ℕ → Table → Bool × Table
heartbeat_export_job i worker now = update_where (held_by i worker) (beaten now)

pub get_export_job : ℕ → Table → Option ExportJob
get_export_job i = find? (has_id i)

pub data Statement : Type 0 where
  enqueue :
      (id now : ℕ)
      → DatasetName
      → ExportFormat
      → Option String
      → Option String
      → Option ℕ
      → Statement
  claim : (locked : ℕ → Bool) (now : ℕ) (worker : String) → Statement
  set_status : (i : ℕ) → ExportUpdate → (worker : String) (clock now : ℕ) → Statement
  heartbeat : (i : ℕ) (worker : String) (now : ℕ) → Statement

pub exec : Statement → Table → Table
unfolding enqueue_export_job claim_export_job update_export_job_status heartbeat_export_job
exec (enqueue id now dataset format filters sink_config owner_id) t =
    (enqueue_export_job id now dataset format filters sink_config owner_id t).1
exec (claim locked now worker) t = (claim_export_job locked now worker t).1
exec (set_status i u worker clock now) t = (update_export_job_status i u worker clock now t).1
exec (heartbeat i worker now) t = (heartbeat_export_job i worker now t).1

pub run : List Statement → Table → Table
run [] t = t
run (s ∷ ss) t = run ss (exec s t)

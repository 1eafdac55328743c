-- ===== src/Jobs.antt =====
-- The durable queue of ingestion jobs: adapters/src/v2_repo.rs (enqueue, claim, heartbeat, run,
-- complete and fail) over the tables ingestion_jobs and ingestion_job_attempts, whose row types are
-- in core/src/v2.rs. A table is a list of rows, NOW() is a number of seconds that the caller gives,
-- and each SQL statement outside a transaction is a step of its own, so that steps of several
-- workers interleave. A unique index that refuses a row makes the statement fail with `none`.
pub mod Invariant
pub mod Terminal
pub mod Ownership
pub mod Claims
pub mod Ending
pub mod Enqueue
mod Samples
use mathlib.Core.Option
use spectraplex.Base.{
  ℕ, zero, suc, ◌+◌, ◌*◌, max, String, Bool, true, false, ◌&&◌, ◌||◌, not, Option, none, some, List,
  [], ◌∷◌, ◌++◌, ℤ, ltb_ℤ, eqb_ℤ, ltb, ◌==◌, if◌then◌else◌, str_eq, is_none, select, any, find?,
  update, first_by,
}

pub data IngestionJobStatus : Type 0 where
  pending claimed running completed failed cancelled : IngestionJobStatus

pub data IngestionJobMode : Type 0 where
  backfill incremental stream : IngestionJobMode

pub record IngestionJob : Type 0 where
  pub id : ℕ
  pub target_id : Option ℕ
  pub network : String
  pub mode : IngestionJobMode
  pub status : IngestionJobStatus
  pub priority : ℤ
  pub idempotency_key : Option String
  pub requested_by : Option String
  pub callback_url : Option String
  pub error_message : Option String
  pub created_at : ℕ
  pub updated_at : ℕ

pub record IngestionJobAttempt : Type 0 where
  pub id : ℕ
  pub job_id : ℕ
  pub worker_id : String
  pub attempt_num : ℕ
  pub started_at : ℕ
  pub finished_at : Option ℕ
  pub heartbeat_at : ℕ
  pub error_message : Option String

pub record Db : Type 0 where
  pub jobs : List IngestionJob
  pub attempts : List IngestionJobAttempt

pub record EnqueueIngestionJobParams : Type 0 where
  pub target_id : Option ℕ
  pub network : String
  pub mode : String
  pub priority : ℤ
  pub idempotency_key : Option String
  pub requested_by : Option String
  pub callback_url : Option String

-- STALE_JOB_THRESHOLD_MINUTES, in seconds.
abbrev pub stale_job_threshold : ℕ
stale_job_threshold = 5 * 60

abbrev pub has_id : ℕ → IngestionJob → Bool
has_id i j = j.id == i

abbrev pub key_eq : Option String → Option String → Bool
key_eq (some a) (some b) = str_eq a b
key_eq _ _ = false

-- `idempotency_key = $1`; NULL equals nothing.
abbrev pub has_key : Option String → IngestionJob → Bool
has_key k j = key_eq j.idempotency_key k

abbrev pub is_pending : IngestionJobStatus → Bool
is_pending pending = true
is_pending _ = false

abbrev pub is_claimed : IngestionJobStatus → Bool
is_claimed claimed = true
is_claimed _ = false

abbrev pub in_progress : IngestionJobStatus → Bool
in_progress claimed = true
in_progress running = true
in_progress _ = false

abbrev pub open_of : ℕ → IngestionJobAttempt → Bool
open_of i a = a.job_id == i && is_none a.finished_at

abbrev pub open_by : ℕ → String → IngestionJobAttempt → Bool
open_by i worker a = a.job_id == i && str_eq a.worker_id worker && is_none a.finished_at

-- The ownership test inside the UPDATE statements.
pub owns : ℕ → String → Db → Bool
owns i worker db = any (open_by i worker) db.attempts

-- The CHECK of the mode column admits two texts, which row_to_ingestion_job reads back as these modes.
abbrev pub check_mode : String → Option IngestionJobMode
check_mode mode =
    if str_eq mode "backfill"
    then some backfill
    else if str_eq mode "incremental"
    then some incremental
    else none

new_job : ℕ → ℕ → IngestionJobMode → EnqueueIngestionJobParams → IngestionJob
new_job id now mode p = record {
  id = id;
  target_id = p.target_id;
  network = p.network;
  mode = mode;
  status = pending;
  priority = p.priority;
  idempotency_key = p.idempotency_key;
  requested_by = p.requested_by;
  callback_url = p.callback_url;
  error_message = none;
  created_at = now;
  updated_at = now;
}

-- INSERT … RETURNING of a row that passes the CHECK: the primary key refuses a second row with the
-- same id.
insert_job : ℕ → ℕ → IngestionJobMode → EnqueueIngestionJobParams → Db → Option IngestionJob × Db
unfolding new_job
insert_job id now mode p db =
    if any (has_id id) db.jobs
    then (none, db)
    else (some (new_job id now mode p), record db { jobs = db.jobs ++ new_job id now mode p ∷ [] })

-- `id` is the value of `Uuid::new_v4()`. A mode that the CHECK refuses is an error, before the
-- conflict is looked for. With a key that is there the insert does nothing, and the existing row is
-- selected. The primary key is checked only for a row that is inserted.
pub enqueue_ingestion_job : ℕ → ℕ → EnqueueIngestionJobParams → Db → Option IngestionJob × Db
unfolding insert_job
enqueue_ingestion_job id now p db = elim (check_mode p.mode) [
  | none ↦ (none, db)
  | some mode ↦
      if any (has_key p.idempotency_key) db.jobs
      then (find? (has_key p.idempotency_key) db.jobs, db)
      else insert_job id now mode p db
]

-- `a.finished_at IS NULL AND a.heartbeat_at > NOW() - make_interval(mins => 5)`
abbrev pub live_attempt : ℕ → ℕ → IngestionJobAttempt → Bool
live_attempt now i a = open_of i a && ltb now (a.heartbeat_at + stale_job_threshold)

pub claimable : ℕ → List IngestionJobAttempt → IngestionJob → Bool
claimable now attempts j =
    is_pending j.status || (in_progress j.status && not (any (live_attempt now j.id) attempts))

-- ORDER BY priority DESC, created_at ASC: `a` comes strictly before `b`.
pub before : IngestionJob → IngestionJob → Bool
before a b =
    ltb_ℤ b.priority a.priority || (eqb_ℤ a.priority b.priority && ltb a.created_at b.created_at)

pub first_row : List IngestionJob → Option IngestionJob
first_row = first_by before

-- FOR UPDATE SKIP LOCKED: rows that another transaction holds are passed over.
pub candidates : (ℕ → Bool) → ℕ → Db → List IngestionJob
unfolding claimable
candidates locked now db = select (λ j. not (locked j.id) && claimable now db.attempts j) db.jobs

-- COALESCE((SELECT MAX(attempt_num) …), 0)
pub max_attempt : ℕ → List IngestionJobAttempt → ℕ
max_attempt i [] = 0
max_attempt i (a ∷ rest) =
    if a.job_id == i then max a.attempt_num (max_attempt i rest) else max_attempt i rest

abbrev pub close_reclaimed : ℕ → IngestionJobAttempt → IngestionJobAttempt
close_reclaimed now a = record a {
  finished_at = some now;
  error_message = some "reclaimed: worker presumed dead";
}

new_attempt : ℕ → ℕ → ℕ → String → List IngestionJobAttempt → IngestionJobAttempt
new_attempt id now job_id worker attempts = record {
  id = id;
  job_id = job_id;
  worker_id = worker;
  attempt_num = max_attempt job_id attempts + 1;
  started_at = now;
  finished_at = none;
  heartbeat_at = now;
  error_message = none;
}

abbrev pub set_status : IngestionJobStatus → ℕ → IngestionJob → IngestionJob
set_status s now j = record j { status = s; updated_at = now }

-- The three writes of the claim's transaction.
pub claim_row : ℕ → ℕ → String → ℕ → Db → Db
unfolding new_attempt
claim_row attempt_id now worker i db =
    let closed = update (open_of i) (close_reclaimed now) db.attempts in
    record {
      jobs = update (has_id i) (set_status claimed now) db.jobs;
      attempts = closed ++ new_attempt attempt_id now i worker closed ∷ [];
    }

-- The job is fetched again after the commit, and its status set once more.
abbrev pub as_claimed : IngestionJob → IngestionJob
as_claimed j = record j { status = claimed }

-- The transaction is atomic: it holds the row's lock until it commits.
pub claim_ingestion_job : (ℕ → Bool) → ℕ → ℕ → String → Db → Option IngestionJob × Db
unfolding candidates claim_row
claim_ingestion_job locked attempt_id now worker db = elim (first_row (candidates locked now db)) [
  | none ↦ (none, db)
  | some j ↦
      let db' = claim_row attempt_id now worker j.id db in
      (Option.map as_claimed (find? (has_id j.id) db'.jobs), db')
]

-- The two statements of a heartbeat.
touch_job : ℕ → ℕ → Db → Db
touch_job i now db = record db {
  jobs = update (has_id i) (λ j. record j { updated_at = now }) db.jobs;
}

beat_attempt : ℕ → String → ℕ → Db → Db
beat_attempt i worker now db = record db {
  attempts = update (open_by i worker) (λ a. record a { heartbeat_at = now }) db.attempts;
}

pub heartbeat_ingestion_job : ℕ → String → ℕ → Db → Bool × Db
unfolding touch_job beat_attempt owns
heartbeat_ingestion_job i worker now db =
    (owns i worker db, beat_attempt i worker now (touch_job i now db))

-- `false` is the error "does not own the current attempt".
pub mark_ingestion_job_running : ℕ → String → ℕ → Db → Bool × Db
unfolding owns
mark_ingestion_job_running i worker now db =
    let hit = λ (j : IngestionJob). has_id i j && is_claimed j.status && owns i worker db in
    (any hit db.jobs, record db { jobs = update hit (set_status running now) db.jobs })

-- How a job ends: with `completed`, or with `failed` and its message.
pub data Outcome : Type 0 where
  success : Outcome
  failure : String → Outcome

abbrev pub finish_job : Outcome → ℕ → IngestionJob → IngestionJob
finish_job success now j = record j { status = completed; updated_at = now }
finish_job (failure error) now j = record j {
  status = failed;
  error_message = some error;
  updated_at = now;
}

abbrev pub close_attempt : Outcome → ℕ → IngestionJobAttempt → IngestionJobAttempt
close_attempt success now a = record a { finished_at = some now }
close_attempt (failure error) now a = record a {
  finished_at = some now;
  error_message = some error;
}

-- The guarded UPDATE, which comes first, and the one that closes the worker's attempt.
pub finish_row : Outcome → ℕ → String → ℕ → Db → Bool × Db
unfolding owns
finish_row o i worker now db =
    let hit = λ (j : IngestionJob). has_id i j && in_progress j.status && owns i worker db in
    (any hit db.jobs, record db { jobs = update hit (finish_job o now) db.jobs })

close_row : Outcome → ℕ → String → ℕ → Db → Db
close_row o i worker now db = record db {
  attempts = update (open_by i worker) (close_attempt o now) db.attempts;
}

-- complete_ingestion_job and fail_ingestion_job have this body, each with its outcome.
pub finish_ingestion_job : Outcome → ℕ → String → ℕ → Db → Bool × Db
unfolding finish_row close_row
finish_ingestion_job o i worker now db =
    let (done, db') = finish_row o i worker now db in
    if done then (true, close_row o i worker now db') else (false, db')

pub complete_ingestion_job : ℕ → String → ℕ → Db → Bool × Db
unfolding finish_ingestion_job
complete_ingestion_job = finish_ingestion_job success

pub fail_ingestion_job : ℕ → String → String → ℕ → Db → Bool × Db
unfolding finish_ingestion_job
fail_ingestion_job i worker error = finish_ingestion_job (failure error) i worker

-- What the database runs: every statement of every worker, in the order of the commits.
pub data Statement : Type 0 where
  enqueue : (id now : ℕ) → EnqueueIngestionJobParams → Statement
  claim : (locked : ℕ → Bool) (attempt_id now : ℕ) (worker : String) → Statement
  touch : (i now : ℕ) → Statement
  beat : (i : ℕ) (worker : String) (now : ℕ) → Statement
  mark : (i : ℕ) (worker : String) (now : ℕ) → Statement
  finish : Outcome → (i : ℕ) (worker : String) (now : ℕ) → Statement
  close : Outcome → (i : ℕ) (worker : String) (now : ℕ) → Statement

pub exec : Statement → Db → Db
unfolding enqueue_ingestion_job claim_ingestion_job touch_job beat_attempt
    mark_ingestion_job_running finish_row close_row
exec (enqueue id now p) db = (enqueue_ingestion_job id now p db).1
exec (claim locked attempt_id now worker) db =
    (claim_ingestion_job locked attempt_id now worker db).1
exec (touch i now) db = touch_job i now db
exec (beat i worker now) db = beat_attempt i worker now db
exec (mark i worker now) db = (mark_ingestion_job_running i worker now db).1
exec (finish o i worker now) db = (finish_row o i worker now db).1
exec (close o i worker now) db = close_row o i worker now db

pub run : List Statement → Db → Db
run [] db = db
run (s ∷ ss) db = run ss (exec s db)

-- A job that no statement moves any more.
abbrev pub is_terminal : IngestionJobStatus → Bool
is_terminal completed = true
is_terminal failed = true
is_terminal cancelled = true
is_terminal _ = false

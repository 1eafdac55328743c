-- ===== src/Runs.antt =====
-- Materialization runs: adapters/src/v2_repo.rs (create, claim, heartbeat, complete, fail, list)
-- over the table materialization_runs, whose row type is in core/src/v2.rs. NOW() is a number of
-- seconds that the caller gives, and a JSON column is the text of its document. Each operation is
-- one SQL statement, so it is one step.
pub mod Claims
pub mod Endings
mod Samples
use spectraplex.Base.{
  ℕ, ◌+◌, ◌*◌, ℤ, pos, String, Bool, true, false, ◌&&◌, ◌||◌, Option, none, some, List, [], ◌∷◌,
  ◌++◌, ltb, ◌==◌, if◌then◌else◌, str_eq, or_else, take, select, any, find?, update_where, sort_by,
}

pub data MaterializationRunStatus : Type 0 where
  pending running completed failed : MaterializationRunStatus

pub record MaterializationRun : Type 0 where
  pub id : ℕ
  pub dataset_name : String
  pub scope : Option String
  pub input_watermark : Option ℤ
  pub output_record_count : ℤ
  pub status : MaterializationRunStatus
  pub dataset_version_id : Option ℕ
  pub worker_id : Option String
  pub started_at : Option ℕ
  pub finished_at : Option ℕ
  pub heartbeat_at : Option ℕ
  pub error_message : Option String
  pub created_at : ℕ
  pub updated_at : ℕ

abbrev pub Table : Type 0
Table = List MaterializationRun

-- INTERVAL '5 minutes', in seconds.
abbrev pub stale_seconds : ℕ
stale_seconds = 5 * 60

abbrev pub has_id : ℕ → MaterializationRun → Bool
has_id i r = r.id == i

abbrev pub is_pending : MaterializationRunStatus → Bool
is_pending pending = true
is_pending _ = false

abbrev pub is_running : MaterializationRunStatus → Bool
is_running running = true
is_running _ = false

abbrev pub is_terminal : MaterializationRunStatus → Bool
is_terminal completed = true
is_terminal failed = true
is_terminal _ = false

-- `heartbeat_at IS NULL OR heartbeat_at < NOW() - INTERVAL '5 minutes'`
abbrev pub stale : ℕ → Option ℕ → Bool
stale now none = true
stale now (some h) = ltb (h + stale_seconds) now

abbrev pub owner_is : String → Option String → Bool
owner_is worker none = false
owner_is worker (some o) = str_eq o worker

-- The condition that the claim and the listing share.
abbrev pub claimable : ℕ → MaterializationRun → Bool
claimable now r = is_pending r.status || (is_running r.status && stale now r.heartbeat_at)

-- `id = $1 AND worker_id = $2 AND status = 'running'`
abbrev pub held_by : ℕ → String → MaterializationRun → Bool
held_by i worker r = has_id i r && owner_is worker r.worker_id && is_running r.status

abbrev pub new_run :
    ℕ → ℕ → String → Option String → Option ℤ → Option ℕ → Option String → MaterializationRun
new_run id now dataset_name scope input_watermark dataset_version_id worker_id = record {
  id = id;
  dataset_name = dataset_name;
  scope = scope;
  input_watermark = input_watermark;
  output_record_count = pos 0;
  status = pending;
  dataset_version_id = dataset_version_id;
  worker_id = worker_id;
  started_at = none;
  finished_at = none;
  heartbeat_at = none;
  error_message = none;
  created_at = now;
  updated_at = now;
}

-- `none` is the refusal of a duplicate id by the primary key. The foreign key of
-- `dataset_version_id` is not modelled.
pub create_materialization_run :
    ℕ
    → ℕ
    → String
    → Option String
    → Option ℤ
    → Option ℕ
    → Option String
    → Table
    → Option MaterializationRun × Table
create_materialization_run id now dataset_name scope input_watermark dataset_version_id worker_id
      t =
    let fresh = new_run id now dataset_name scope input_watermark dataset_version_id worker_id in
    if any (has_id id) t then (none, t) else (some fresh, t ++ fresh ∷ [])

-- What the statements write into a row.
module _ (now : ℕ) where
  abbrev pub taken : String → MaterializationRun → MaterializationRun
  taken worker r = record r {
    status = running;
    worker_id = some worker;
    started_at = or_else r.started_at (some now);
    heartbeat_at = some now;
    updated_at = now;
  }

  abbrev pub beaten : MaterializationRun → MaterializationRun
  beaten r = record r { heartbeat_at = some now; updated_at = now }

  abbrev pub completing : ℤ → MaterializationRun → MaterializationRun
  completing count r = record r {
    status = completed;
    output_record_count = count;
    finished_at = some now;
    updated_at = now;
  }

  abbrev pub failing : String → MaterializationRun → MaterializationRun
  failing error r = record r {
    status = failed;
    error_message = some error;
    finished_at = some now;
    updated_at = now;
  }

pub claim_materialization_run : ℕ → String → ℕ → Table → Bool × Table
claim_materialization_run i worker now =
    update_where (λ r. has_id i r && claimable now r) (taken now worker)

pub heartbeat_materialization_run : ℕ → String → ℕ → Table → Bool × Table
heartbeat_materialization_run i worker now = update_where (held_by i worker) (beaten now)

-- `false` is the error "0 rows affected".
pub complete_materialization_run : ℕ → String → ℤ → ℕ → Table → Bool × Table
complete_materialization_run i worker count now =
    update_where (held_by i worker) (completing now count)

pub fail_materialization_run : ℕ → String → String → ℕ → Table → Bool × Table
fail_materialization_run i worker error now = update_where (held_by i worker) (failing now error)

pub get_materialization_run : ℕ → Table → Option MaterializationRun
get_materialization_run i = find? (has_id i)

-- ORDER BY created_at ASC; rows that tie, which SQL leaves open, keep the table's order.
abbrev pub created_before : MaterializationRun → MaterializationRun → Bool
created_before a b = ltb a.created_at b.created_at

pub list_claimable_materialization_runs : ℕ → ℕ → Table → Table
list_claimable_materialization_runs now limit t =
    take limit (sort_by created_before (select (claimable now) t))

pub data Statement : Type 0 where
  create : (id now : ℕ) → String → Option String → Option ℤ → Option ℕ → Option String → Statement
  claim : (i : ℕ) (worker : String) (now : ℕ) → Statement
  heartbeat : (i : ℕ) (worker : String) (now : ℕ) → Statement
  complete : (i : ℕ) (worker : String) → ℤ → (now : ℕ) → Statement
  fail : (i : ℕ) (worker error : String) (now : ℕ) → Statement

pub exec : Statement → Table → Table
unfolding create_materialization_run claim_materialization_run heartbeat_materialization_run
    complete_materialization_run fail_materialization_run
exec (create id now dataset_name scope input_watermark dataset_version_id worker_id) t =
    (create_materialization_run id now dataset_name scope input_watermark dataset_version_id
      worker_id t).1
exec (claim i worker now) t = (claim_materialization_run i worker now t).1
exec (heartbeat i worker now) t = (heartbeat_materialization_run i worker now t).1
exec (complete i worker count now) t = (complete_materialization_run i worker count now t).1
exec (fail i worker error now) t = (fail_materialization_run i worker error now t).1

pub run : List Statement → Table → Table
run [] t = t
run (s ∷ ss) t = run ss (exec s t)

-- ===== src/Completeness.antt =====
-- The completeness records of datasets: build_dataset_completeness_upsert and
-- update_completeness_after_run of adapters/src/v2_repo.rs over the table dataset_completeness, whose
-- row type is in core/src/v2.rs. NOW() is a number of seconds that the caller gives, and a JSON column
-- is the text of its document.
pub mod Windows
mod Samples
use spectraplex.Base.{
  ℕ, ℤ, ltb_ℤ, String, Bool, true, false, ◌&&◌, ◌||◌, not, Option, none, some, List, [], ◌∷◌, ◌++◌,
  ◌==◌, if◌then◌else◌, str_eq, any, update,
}
use spectraplex.Target.Codec.{CompletenessStatus, partial, complete, backfilling, gap}

pub record DatasetCompleteness : Type 0 where
  pub id : ℕ
  pub target_id : ℕ
  pub dataset_name : String
  pub dataset_version_id : Option ℕ
  pub network : String
  pub status : CompletenessStatus
  pub coverage_start : Option ℤ
  pub coverage_end : Option ℤ
  pub block_start : Option ℤ
  pub block_end : Option ℤ
  pub last_ingestion_run_id : Option ℕ
  pub records_count : ℤ
  pub gap_ranges : Option String
  pub notes : Option String
  pub created_at : ℕ
  pub updated_at : ℕ

abbrev pub Table : Type 0
Table = List DatasetCompleteness

-- The unique key (target_id, dataset_name, network).
abbrev pub has_key : ℕ → String → String → DatasetCompleteness → Bool
has_key target dataset network r =
    r.target_id == target && str_eq r.dataset_name dataset && str_eq r.network network

abbrev pub is_complete : CompletenessStatus → Bool
is_complete complete = true
is_complete _ = false

-- `IS NOT DISTINCT FROM`
abbrev pub same_version : Option ℕ → Option ℕ → Bool
same_version none none = true
same_version (some a) (some b) = a == b
same_version _ _ = false

-- The CASE of a lower bound: the new one where the old one is unknown or larger.
pub lower : Option ℤ → Option ℤ → Option ℤ
lower old none = old
lower none (some n) = some n
lower (some o) (some n) = if ltb_ℤ n o then some n else some o

-- The CASE of an upper bound.
pub upper : Option ℤ → Option ℤ → Option ℤ
upper old none = old
upper none (some n) = some n
upper (some o) (some n) = if ltb_ℤ o n then some n else some o

-- `old IS NOT NULL AND (new IS NULL OR new > old)`, for a lower and for an upper bound.
abbrev pub above_start : Option ℤ → Option ℤ → Bool
above_start none new = false
above_start (some o) none = true
above_start (some o) (some n) = ltb_ℤ o n

abbrev pub below_end : Option ℤ → Option ℤ → Bool
below_end none new = false
below_end (some o) none = true
below_end (some o) (some n) = ltb_ℤ n o

-- Whether the new record leaves out a part of what the old one covers.
abbrev pub leaves_out : DatasetCompleteness → DatasetCompleteness → Bool
leaves_out old new =
    above_start old.coverage_start new.coverage_start
    || below_end old.coverage_end new.coverage_end
    || above_start old.block_start new.block_start
    || below_end old.block_end new.block_end

pub merged_status : DatasetCompleteness → DatasetCompleteness → CompletenessStatus
merged_status old new =
    if same_version old.dataset_version_id new.dataset_version_id
      && not (is_complete old.status)
      && is_complete new.status
      && leaves_out old new
    then old.status
    else new.status

-- DO UPDATE SET, where `new` is EXCLUDED.
pub merge : DatasetCompleteness → DatasetCompleteness → DatasetCompleteness
merge new old =
    let same = same_version old.dataset_version_id new.dataset_version_id in
    record old {
      dataset_version_id = new.dataset_version_id;
      status = merged_status old new;
      coverage_start =
          if same then lower old.coverage_start new.coverage_start else new.coverage_start;
      coverage_end = if same then upper old.coverage_end new.coverage_end else new.coverage_end;
      block_start = if same then lower old.block_start new.block_start else new.block_start;
      block_end = if same then upper old.block_end new.block_end else new.block_end;
      last_ingestion_run_id = new.last_ingestion_run_id;
      records_count = new.records_count;
      gap_ranges = new.gap_ranges;
      notes = new.notes;
      updated_at = new.updated_at;
    }

-- The primary key and the foreign keys are not modelled.
pub upsert_dataset_completeness : DatasetCompleteness → Table → Table
upsert_dataset_completeness new t =
    let key = has_key new.target_id new.dataset_name new.network in
    if any key t then update key (merge new) t else t ++ new ∷ []

-- The arguments of update_completeness_after_run.
pub record CompletedRun : Type 0 where
  pub target_id : ℕ
  pub dataset_name : String
  pub network : String
  pub status : CompletenessStatus
  pub coverage_start : Option ℤ
  pub coverage_end : Option ℤ
  pub block_start : Option ℤ
  pub block_end : Option ℤ
  pub records_count : ℤ
  pub ingestion_run_id : ℕ

pub after_run : ℕ → CompletedRun → DatasetCompleteness → DatasetCompleteness
after_run now u r = record r {
  status = u.status;
  coverage_start = lower r.coverage_start u.coverage_start;
  coverage_end = upper r.coverage_end u.coverage_end;
  block_start = lower r.block_start u.block_start;
  block_end = upper r.block_end u.block_end;
  records_count = u.records_count;
  last_ingestion_run_id = some u.ingestion_run_id;
  updated_at = now;
}

pub update_completeness_after_run : ℕ → CompletedRun → Table → Table
update_completeness_after_run now u =
    update (has_key u.target_id u.dataset_name u.network) (after_run now u)

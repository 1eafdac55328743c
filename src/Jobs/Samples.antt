-- ===== src/Jobs/Samples.antt =====
-- Small queues, what the code does on them, and the theorems at those inputs.
use spectraplex.Base.{
  ℕ, ◌≡◌, ◌≢◌, refl, String, Bool, false, List, [], ◌∷◌, Option, none, some, pos, arith, first_by,
  In, head, tail, All-In, inl, inr, ◌⊎◌, ◌+◌, ◌≤◌,
}
use spectraplex.Jobs.{
  IngestionJob, IngestionJobAttempt, Db, EnqueueIngestionJobParams, backfill, Statement, enqueue,
  claim, finish, beat, success, failure, owns, run, exec, claim_ingestion_job,
  enqueue_ingestion_job, finish_ingestion_job, finish_job, complete_ingestion_job,
  fail_ingestion_job, mark_ingestion_job_running, first_row, before, max_attempt, pending, claimed,
}
use spectraplex.Jobs.Invariant.{IsConsistent, exec-IsConsistent, run-IsConsistent}
use spectraplex.Jobs.Terminal.{EndedAs, terminal_absorbs}
use spectraplex.Jobs.Ownership.{reclaimed_worker_fenced}
use spectraplex.Jobs.Claims.{
  IsFree, IsServedFirst, claim_selects_best, live_job_not_claimed, claim_finds_work,
}
use spectraplex.Jobs.Enqueue.{IsAllowedMode, enqueue_idempotent}

abbrev empty_db : Db
empty_db = record { jobs = []; attempts = [] }

empty_db-IsConsistent : IsConsistent empty_db
empty_db-IsConsistent = record {
  ids = λ i. omega arith;
  keys = λ k. omega arith;
  one_open = λ i. omega arith;
  numbers = λ i n. omega arith;
}

abbrev params : ℕ → Option String → EnqueueIngestionJobParams
params p key = record {
  target_id = some 7;
  network = "ethereum-mainnet";
  mode = "backfill";
  priority = pos p;
  idempotency_key = key;
  requested_by = none;
  callback_url = none;
}

abbrev unlocked : ℕ → Bool
unlocked i = false

-- Two jobs; the second has the higher priority.
abbrev two_jobs : List Statement
two_jobs = enqueue 1 100 (params 0 (some "a")) ∷ enqueue 2 101 (params 5 none) ∷ []

abbrev queued : Db
queued = run two_jobs empty_db

program : Unit {0}
unfolding run exec claim_ingestion_job enqueue_ingestion_job first_row first_by before max_attempt
    owns finish_ingestion_job complete_ingestion_job fail_ingestion_job mark_ingestion_job_running
program = tt

queued-IsConsistent : IsConsistent queued
queued-IsConsistent = run-IsConsistent two_jobs empty_db empty_db-IsConsistent

abbrev job_of : Option IngestionJob → IngestionJob → IngestionJob
job_of none d = d
job_of (some j) d = j

-- The second job as the claim returns it.
abbrev second : IngestionJob
second = record {
  id = 2;
  target_id = some 7;
  network = "ethereum-mainnet";
  mode = backfill;
  status = claimed;
  priority = pos 5;
  idempotency_key = none;
  requested_by = none;
  callback_url = none;
  error_message = none;
  created_at = 101;
  updated_at = 110;
}

claim_second : (claim_ingestion_job unlocked 50 110 "w1" queued).0 ≡ some second
unfolding program
claim_second = refl

-- The claim of "w1", as a statement.
abbrev taken : Db
taken = exec (claim unlocked 50 110 "w1") queued

taken-IsConsistent : IsConsistent taken
taken-IsConsistent = exec-IsConsistent (claim unlocked 50 110 "w1") queued queued-IsConsistent

run-IsConsistent_example : IsConsistent (run two_jobs empty_db)
run-IsConsistent_example = run-IsConsistent two_jobs empty_db empty_db-IsConsistent

abbrev first_job : IngestionJob
first_job = record {
  id = 1;
  target_id = some 7;
  network = "ethereum-mainnet";
  mode = backfill;
  status = pending;
  priority = pos 0;
  idempotency_key = some "a";
  requested_by = none;
  callback_url = none;
  error_message = none;
  created_at = 100;
  updated_at = 100;
}

abbrev attempt : IngestionJobAttempt
attempt = record {
  id = 50;
  job_id = 2;
  worker_id = "w1";
  attempt_num = 1;
  started_at = 110;
  finished_at = none;
  heartbeat_at = 110;
  error_message = none;
}

taken_is : taken ≡ record { jobs = first_job ∷ second ∷ []; attempts = attempt ∷ [] }
unfolding program
taken_is = refl

claim_selects_best_example :
    (k : IngestionJob) × In k queued.jobs
    × (k.id ≡ 2)
    × (second.status ≡ claimed)
    × (unlocked k.id ≡ false)
    × IsFree 110 queued k
    × ((r : IngestionJob)
        → In r queued.jobs
        → unlocked r.id ≡ false
        → IsFree 110 queued r
        → IsServedFirst k r)
claim_selects_best_example = claim_selects_best unlocked 50 110 "w1" queued claim_second

-- 90 seconds after its claim the second job is live: "w2" gets the first one.
live_job_not_claimed_example : first_job.id ≢ second.id
unfolding program
live_job_not_claimed_example =
    live_job_not_claimed unlocked 51 200 "w2" taken attempt
      {j = record first_job { status = claimed; updated_at = 200 }} {r = second} taken-IsConsistent
      (tail head) refl head refl refl

-- 400 seconds after it the job is stale.
second_stale : IsFree 510 taken second
unfolding program
second_stale = inr (
  inl refl,
  λ a m e f. All-In (λ x. x.heartbeat_at + 300 ≤ 510) {xs = attempt ∷ []} (omega arith, tt) m,
)

claim_finds_work_example :
    (j : IngestionJob) × ((claim_ingestion_job unlocked 51 510 "w2" taken).0 ≡ some j)
unfolding program
claim_finds_work_example =
    claim_finds_work unlocked 51 510 "w2" taken {r = second} taken-IsConsistent (tail head) refl
      second_stale

reclaimed_worker_fenced_example :
    let after = run (beat 2 "w1" 511 ∷ []) (claim_ingestion_job unlocked 51 510 "w2" taken).1 in
    (mark_ingestion_job_running 2 "w1" 512 after ≡ (false, after))
    × (complete_ingestion_job 2 "w1" 512 after ≡ (false, after))
    × (fail_ingestion_job 2 "w1" "timeout" 512 after ≡ (false, after))
unfolding program
reclaimed_worker_fenced_example =
    reclaimed_worker_fenced unlocked 51 510 512 "w2" "w1" "timeout" taken (beat 2 "w1" 511 ∷ [])
      {j = record second { updated_at = 510 }} refl refl refl

abbrev ended : Db
ended = exec (finish success 2 "w1" 120) taken

terminal_absorbs_example :
    EndedAs 2
      (finish_job success 120 second)
      (run (claim unlocked 52 900 "w2" ∷ finish (failure "late") 2 "w1" 901 ∷ []) ended)
unfolding program
terminal_absorbs_example =
    terminal_absorbs 2 (finish_job success 120 second)
      (claim unlocked 52 900 "w2" ∷ finish (failure "late") 2 "w1" 901 ∷ []) ended
      (exec-IsConsistent (finish success 2 "w1" 120) taken taken-IsConsistent) refl refl

enqueue_idempotent_example :
    let after =
      run
        (claim unlocked 50 110 "w1" ∷ [])
        (enqueue_ingestion_job 1 100 (params 0 (some "a")) empty_db).1 in
    (IsAllowedMode "backfill"
      × ((row : IngestionJob) × (enqueue_ingestion_job 9 200 (params 3 (some "a")) after
            ≡ (some row, after))
          × (row.id ≡ 1)))
    ⊎ ((¬ IsAllowedMode "backfill")
        × (enqueue_ingestion_job 9 200 (params 3 (some "a")) after ≡ (none, after)))
unfolding program
enqueue_idempotent_example =
    enqueue_idempotent 1 100 9 200 (params 0 (some "a")) (params 3 (some "a")) empty_db
      (claim unlocked 50 110 "w1" ∷ []) "a" {j = first_job} refl refl refl

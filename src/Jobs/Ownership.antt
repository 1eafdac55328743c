-- ===== src/Jobs/Ownership.antt =====
-- Who may move a job: the worker of its one open attempt, and nobody else.
use spectraplex.Base.{
  ℕ, ◌≤◌, String, Bool, true, false, ◌&&◌, ◌≡◌, ◌∙◌, List, [], ◌∷◌, some, inl, inr, arith, str_eq,
  str_eq_iff, Option-cases, any, count, update, any-append, any-update-false, any-update_clear,
  any_const, update_none,
}
use spectraplex.Jobs.{
  IngestionJob, IngestionJobAttempt, Db, has_id, in_progress, open_of, open_by, close_reclaimed,
  owns, first_row, candidates, new_attempt, claim_row, claim_ingestion_job,
  mark_ingestion_job_running, finish_row, finish_ingestion_job, complete_ingestion_job,
  fail_ingestion_job, set_status, finish_job, close_attempt, running, Outcome, success, failure,
  Statement, enqueue, claim, touch, beat, mark, finish, close, exec, run,
}
use spectraplex.Jobs.Invariant.{IsConsistent}
use spectraplex.Jobs.Claims.{claim_inversion}

pub open_by-open_of :
    (i : ℕ) (w : String) (rows : List IngestionJobAttempt)
    → any (open_by i w) rows ≡ true
    → 1 ≤ count (open_of i) rows
open_by-open_of i w [] h = cc
open_by-open_of i w (a ∷ rest) h = ground (arith, open_by-open_of i w rest)

open_by_unique :
    (i : ℕ) (w v : String) (rows : List IngestionJobAttempt)
    → count (open_of i) rows ≤ 1
    → any (open_by i w) rows ≡ true
    → any (open_by i v) rows ≡ true
    → w ≡ v
open_by_unique i w v [] c h k = cc
open_by_unique i w v (a ∷ rest) c h k = ground (
  arith,
  open_by-open_of i w rest,
  open_by-open_of i v rest,
  open_by_unique i w v rest,
  str_eq_iff a.worker_id w,
  str_eq_iff a.worker_id v,
)

-- At most one worker owns the open attempt of a job, in a consistent database.
owns_unique :
    (i : ℕ) (w v : String) (db : Db)
    → IsConsistent db
    → owns i w db ≡ true
    → owns i v db ≡ true
    → w ≡ v
unfolding owns
owns_unique i w v db c = open_by_unique i w v db.attempts (c.one_open i)

untouched :
    (db : Db) (p : IngestionJob → Bool) (f : IngestionJob → IngestionJob)
    → any p db.jobs ≡ false
    → ◌≡◌ {A = Bool × Db} (any p db.jobs, record db { jobs = update p f db.jobs }) (false, db)
untouched db p f h = rw (h, update_none p f db.jobs h)

finish_row_not_owner :
    (o : Outcome) (i : ℕ) (w : String) (now : ℕ) (db : Db)
    → owns i w db ≡ false
    → finish_row o i w now db ≡ (false, db)
unfolding finish_row
finish_row_not_owner o i w now db h =
    untouched db _ (finish_job o now) (any_const db.jobs (λ j. ground (arith, h)))

finish_not_owner :
    (o : Outcome) (i : ℕ) (w : String) (now : ℕ) (db : Db)
    → owns i w db ≡ false
    → finish_ingestion_job o i w now db ≡ (false, db)
unfolding finish_ingestion_job
finish_not_owner o i w now db h =
    let hit = λ (j : IngestionJob). has_id i j && in_progress j.status && owns i w db in
    let idle : any hit db.jobs ≡ false = any_const db.jobs {q = hit} (λ j. ground (arith, h)) in
    rw (idle, finish_ingestion_job) (rw (update_none hit (finish_job o now) db.jobs idle))

mark_not_owner :
    (i : ℕ) (w : String) (now : ℕ) (db : Db)
    → owns i w db ≡ false
    → mark_ingestion_job_running i w now db ≡ (false, db)
unfolding mark_ingestion_job_running
mark_not_owner i w now db h =
    untouched db _ (set_status running now) (any_const db.jobs (λ j. ground (arith, h)))

-- No claim by `w`.
abbrev pub claims_by : String → Statement → Bool
claims_by w (claim locked attempt_id now worker) = str_eq worker w
claims_by w _ = false

claim_row-disowns :
    (i : ℕ) (w : String) (attempt_id now : ℕ) (worker : String) (k : ℕ) (db : Db)
    → str_eq worker w ≡ false
    → owns i w db ≡ false
    → owns i w (claim_row attempt_id now worker k db) ≡ false
unfolding claim_row owns
claim_row-disowns i w attempt_id now worker k db n h =
    let old = update (open_of k) (close_reclaimed now) db.attempts in
    let s = any-append (open_by i w) old (new_attempt attempt_id now k worker old ∷ []) in
    let u =
      any-update-false (open_by i w) (open_of k) (close_reclaimed now) (λ a _ e. ground arith)
        db.attempts h in
    ground (arith, s, u, n)

claim-disowns :
    (i : ℕ) (w : String) (locked : ℕ → Bool) (attempt_id now : ℕ) (worker : String) (db : Db)
    → str_eq worker w ≡ false
    → owns i w db ≡ false
    → owns i w (claim_ingestion_job locked attempt_id now worker db).1 ≡ false
unfolding claim_ingestion_job
claim-disowns i w locked attempt_id now worker db n h =
    elim (Option-cases (first_row (candidates locked now db))) [
      | inl e ↦ rw (e, claim_ingestion_job) h
      | inr (k, e) ↦
          rw (e, claim_ingestion_job) (claim_row-disowns i w attempt_id now worker k.id db n h)
    ]

claim_row-owns :
    (i : ℕ) (attempt_id now : ℕ) (worker w : String) (db : Db)
    → owns i w (claim_row attempt_id now worker i db) ≡ str_eq worker w
unfolding claim_row owns
claim_row-owns i attempt_id now worker w db =
    let old = update (open_of i) (close_reclaimed now) db.attempts in
    let s = any-append (open_by i w) old (new_attempt attempt_id now i worker old ∷ []) in
    let u =
      any-update_clear (open_by i w) (open_of i) (close_reclaimed now) (λ a e. ground arith)
        (λ a. ground arith) db.attempts in
    ground (arith, s, u)

-- No statement but a claim of its own gives a worker a job.
exec-disowns :
    (i : ℕ) (w : String) (s : Statement) (db : Db)
    → claims_by w s ≡ false
    → owns i w db ≡ false
    → owns i w (exec s db) ≡ false
unfolding exec owns
exec-disowns i w (enqueue id now p) db n h = ground arith
exec-disowns i w (claim locked attempt_id now worker) db n h =
    claim-disowns i w locked attempt_id now worker db n h
exec-disowns i w (touch k now) db n h = h
exec-disowns i w (beat k worker now) db n h =
    any-update-false (open_by i w) (open_by k worker) (λ a. record a { heartbeat_at = now })
      (λ a _ e. e) db.attempts h
exec-disowns i w (mark k worker now) db n h = h
exec-disowns i w (finish o k worker now) db n h = h
exec-disowns i w (close success k worker now) db n h =
    any-update-false (open_by i w) (open_by k worker) (close_attempt success now)
      (λ a _ e. ground arith) db.attempts h
exec-disowns i w (close (failure error) k worker now) db n h =
    any-update-false (open_by i w) (open_by k worker) (close_attempt (failure error) now)
      (λ a _ e. ground arith) db.attempts h

run-disowns :
    (i : ℕ) (w : String) (ss : List Statement) (db : Db)
    → any (claims_by w) ss ≡ false
    → owns i w db ≡ false
    → owns i w (run ss db) ≡ false
unfolding run
run-disowns i w [] db n h = h
run-disowns i w (s ∷ ss) db n h =
    run-disowns i w ss (exec s db) (ground arith) (exec-disowns i w s db (ground arith) h)

-- After a claim that returns job `j`, its worker owns the job and no other worker does.
pub claim-owns :
    (locked : ℕ → Bool) (attempt_id now : ℕ) (worker w : String) (db : Db) {j : IngestionJob}
    → (claim_ingestion_job locked attempt_id now worker db).0 ≡ some j
    → owns j.id w (claim_ingestion_job locked attempt_id now worker db).1 ≡ str_eq worker w
unfolding claim_ingestion_job
claim-owns locked attempt_id now worker w db {j} h =
    let (k, _, _, _, e) = claim_inversion locked attempt_id now worker db h in
    rw e (claim_row-owns j.id attempt_id now worker w db)

-- A worker whose job another worker has claimed since can neither mark it running, complete it nor
-- fail it, whatever statements run in between, until the worker makes a claim of its own: the call
-- returns the error and writes nothing.
pub reclaimed_worker_fenced :
    (locked : ℕ → Bool) (attempt_id now later : ℕ) (worker w error : String) (db : Db)
    (ss : List Statement) {j : IngestionJob}
    → (claim_ingestion_job locked attempt_id now worker db).0 ≡ some j
    → str_eq worker w ≡ false
    → any (claims_by w) ss ≡ false
    → let after = run ss (claim_ingestion_job locked attempt_id now worker db).1 in
      (mark_ingestion_job_running j.id w later after ≡ (false, after))
      × (complete_ingestion_job j.id w later after ≡ (false, after))
      × (fail_ingestion_job j.id w error later after ≡ (false, after))
unfolding complete_ingestion_job fail_ingestion_job
reclaimed_worker_fenced locked attempt_id now later worker w error db ss {j} h n c =
    let start = (claim_ingestion_job locked attempt_id now worker db).1 in
    let lost = run-disowns j.id w ss start c (claim-owns locked attempt_id now worker w db h ∙ n) in
    (
      mark_not_owner j.id w later (run ss start) lost,
      finish_not_owner success j.id w later (run ss start) lost,
      finish_not_owner (failure error) j.id w later (run ss start) lost,
    )

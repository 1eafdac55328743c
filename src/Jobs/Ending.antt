-- ===== src/Jobs/Ending.antt =====
-- What complete_ingestion_job and fail_ingestion_job do when the worker owns the job.
use spectraplex.Base.{
  ℕ, ◌≤◌, String, true, false, ◌&&◌, ◌≡◌, refl, ◌∙◌, List, [], ◌∷◌, some, arith, ==_refl, any,
  count, find?, find?-update, find?_unique, update, any-update-false, In, any-In,
}
use spectraplex.Jobs.{
  IngestionJob, IngestionJobAttempt, Db, has_id, in_progress, open_of, open_by, owns,
  finish_ingestion_job, complete_ingestion_job, fail_ingestion_job, finish_job, close_attempt,
  Outcome, success, failure,
}
use spectraplex.Jobs.Invariant.{IsConsistent}
use spectraplex.Jobs.Ownership.{open_by-open_of}

close_attempt-closed :
    (o : Outcome) (now i : ℕ) (v : String) (a : IngestionJobAttempt)
    → open_by i v (close_attempt o now a) ≡ false
close_attempt-closed success now i v a = ground arith
close_attempt-closed (failure error) now i v a = ground arith

-- Closing the open attempt of the owner leaves no open attempt, of any worker.
close_clears :
    (o : Outcome) (now i : ℕ) (w v : String) (rows : List IngestionJobAttempt)
    → count (open_of i) rows ≤ 1
    → any (open_by i w) rows ≡ true
    → any (open_by i v) (update (open_by i w) (close_attempt o now) rows) ≡ false
close_clears o now i w v [] c h = refl
close_clears o now i w v (a ∷ rest) c h = ground (
  arith,
  close_attempt-closed o now i v a,
  open_by-open_of i w rest,
  open_by-open_of i v rest,
  any-update-false (open_by i v) (open_by i w) (close_attempt o now)
      (λ x _ e. absurd (cc (e, close_attempt-closed o now i v x))) rest,
  close_clears o now i w v rest,
)

finish_job-id : (o : Outcome) (now : ℕ) (j : IngestionJob) → (finish_job o now j).id ≡ j.id
finish_job-id success now j = refl
finish_job-id (failure error) now j = refl

finish_ends :
    (o : Outcome) (w : String) (now : ℕ) (db : Db) {j : IngestionJob}
    → IsConsistent db
    → In j db.jobs
    → in_progress j.status ≡ true
    → owns j.id w db ≡ true
    → let (done, after) = finish_ingestion_job o j.id w now db in
      (done ≡ true)
      × (find? (has_id j.id) after.jobs ≡ some (finish_job o now j))
      × ((v : String) → owns j.id v after ≡ false)
unfolding finish_ingestion_job
finish_ends o w now db {j} c m busy own =
    let hit = λ (x : IngestionJob). has_id j.id x && in_progress x.status && owns j.id w db in
    let hit_j : hit j ≡ true = ground (arith, ==_refl j.id, busy, own) in
    let done : any hit db.jobs ≡ true = any-In hit m hit_j in
    rw (done, finish_ingestion_job)
      (
        refl,
        find?-update (has_id j.id) hit (finish_job o now) (λ x. cc (finish_job-id o now x)) db.jobs
            ∙ rw (find?_unique (has_id j.id) m (==_refl j.id) (c.ids j.id)) (rw hit_j),
        λ v. close_clears o now j.id w v db.attempts (c.one_open j.id) own,
      )

-- When the worker owns the open attempt of a job in progress, complete_ingestion_job succeeds,
-- the job is then completed with its other fields kept, and no worker owns it any more;
-- fail_ingestion_job does the same with the status failed and the given message.
owner_ends_job :
    (w error : String) (now : ℕ) (db : Db) {j : IngestionJob}
    → IsConsistent db
    → In j db.jobs
    → in_progress j.status ≡ true
    → owns j.id w db ≡ true
    → let (done, after) = complete_ingestion_job j.id w now db in
      let (done', after') = fail_ingestion_job j.id w error now db in
      (done ≡ true)
      × (find? (has_id j.id) after.jobs ≡ some (finish_job success now j))
      × ((v : String) → owns j.id v after ≡ false)
      × (done' ≡ true)
      × (find? (has_id j.id) after'.jobs ≡ some (finish_job (failure error) now j))
      × ((v : String) → owns j.id v after' ≡ false)
unfolding complete_ingestion_job fail_ingestion_job
owner_ends_job w error now db c m busy own =
    let (a, b, d) = finish_ends success w now db c m busy own in
    let (a', b', d') = finish_ends (failure error) w now db c m busy own in (a, b, d, a', b', d')

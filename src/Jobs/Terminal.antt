-- ===== src/Jobs/Terminal.antt =====
-- A job that has ended stays as it ended.
use spectraplex.Base.{
  ℕ, String, Bool, true, false, ◌≡◌, refl, sym, ◌∙◌, subst, List, [], ◌∷◌, some, inl, inr, arith,
  Bool-cases, Option-cases, any, find?, find?-update, find?-append, find?_unique, find?_sound,
  update, In,
}
use spectraplex.Jobs.{
  IngestionJob, IngestionJobAttempt, Db, has_id, has_key, is_terminal, first_row, candidates,
  claimable, claim_ingestion_job, enqueue_ingestion_job, set_status, finish_job, claimed, running,
  EnqueueIngestionJobParams, new_job, check_mode, success, failure, Statement, enqueue, claim,
  touch, beat, mark, finish, close, exec, run,
}
use spectraplex.Jobs.Invariant.{IsConsistent, exec-IsConsistent}
use spectraplex.Jobs.Claims.{candidates-In}

claimable_not_ended :
    (now : ℕ) (attempts : List IngestionJobAttempt) (k : IngestionJob)
    → claimable now attempts k ≡ true
    → is_terminal k.status ≡ false
unfolding claimable
claimable_not_ended now attempts k h = ground arith

-- With unique ids, a claimable row is not the row that a search for an ended job finds.
claimable-ne-ended :
    (i now : ℕ) (db : Db)
    → IsConsistent db
    → {k x : IngestionJob} → In k db.jobs
    → claimable now db.attempts k ≡ true
    → find? (has_id i) db.jobs ≡ some x
    → is_terminal x.status ≡ true
    → has_id k.id x ≡ true
    → ⊥
claimable-ne-ended i now db c {k} {x} m free g t h =
    let at_i : has_id i k ≡ true = ground (arith, find?_sound (has_id i) db.jobs g) in
    let same : some x ≡ some k = sym g ∙ find?_unique (has_id i) m at_i (c.ids i) in
    cc (claimable_not_ended now db.attempts k free, same)

-- Job `i` has the status and the error message of `j`.
pub record EndedAs (i : ℕ) (j : IngestionJob) (db : Db) : Type 0 where
  pub row : IngestionJob
  pub found : find? (has_id i) db.jobs ≡ some row
  pub status : row.status ≡ j.status
  pub message : row.error_message ≡ j.error_message

module _ (i : ℕ) (j : IngestionJob) (ended : is_terminal j.status ≡ true) where
  update-EndedAs :
      (db : Db) (attempts : List IngestionJobAttempt) (p : IngestionJob → Bool)
      (f : IngestionJob → IngestionJob)
      → ((x : IngestionJob) → (f x).id ≡ x.id)
      → ((x : IngestionJob)
          → is_terminal x.status ≡ true
          → find? (has_id i) db.jobs ≡ some x
          → p x ≡ true
          → ((f x).status ≡ x.status) × ((f x).error_message ≡ x.error_message))
      → EndedAs i j db
      → EndedAs i j (record { jobs = update p f db.jobs; attempts = attempts })
  update-EndedAs db attempts p f hi hf r =
      let moved = find?-update (has_id i) p f (λ x. cc (hi x)) db.jobs in
      let still : is_terminal r.row.status ≡ true =
        subst (λ s. is_terminal s ≡ true) (sym r.status) ended in
      elim (Bool-cases (p r.row)) [
        | inl e ↦
            let (a, b) = hf r.row still r.found e in
            record {
              row = f r.row;
              found = moved ∙ rw r.found (rw e);
              status = a ∙ r.status;
              message = b ∙ r.message;
            }
        | inr e ↦ record {
          row = r.row;
          found = moved ∙ rw r.found (rw e);
          status = r.status;
          message = r.message;
        }
      ]

  enqueue-EndedAs :
      (id now : ℕ) (p : EnqueueIngestionJobParams) (db : Db)
      → EndedAs i j db
      → EndedAs i j (enqueue_ingestion_job id now p db).1
  unfolding enqueue_ingestion_job
  enqueue-EndedAs id now p db r = elim (Option-cases (check_mode p.mode)) [
    | inl refused ↦ rw (refused, enqueue_ingestion_job) r
    | inr (mode, admitted) ↦
        rw (admitted, enqueue_ingestion_job)
          (elim (Bool-cases (any (has_key p.idempotency_key) db.jobs)) [
            | inl e ↦ rw e r
            | inr e ↦ rw e (elim (Bool-cases (any (has_id id) db.jobs)) [
              | inl h ↦ rw h r
              | inr h ↦ rw h (record {
                row = r.row;
                found = find?-append (has_id i) db.jobs (new_job id now mode p ∷ []) ∙ rw r.found;
                status = r.status;
                message = r.message;
              })
            ])
          ])
  ]

  -- The claimed row is another one: the ended job is not claimable, and ids are unique.
  claim-EndedAs :
      (locked : ℕ → Bool) (attempt_id now : ℕ) (worker : String) (db : Db)
      → IsConsistent db
      → EndedAs i j db
      → EndedAs i j (claim_ingestion_job locked attempt_id now worker db).1
  unfolding claim_ingestion_job
  claim-EndedAs locked attempt_id now worker db c r =
      elim (Option-cases (first_row (candidates locked now db))) [
        | inl e ↦ rw (e, claim_ingestion_job) r
        | inr (k, e) ↦
            rw (e, claim_ingestion_job)
              (update-EndedAs db _ (has_id k.id) (set_status claimed now) (λ x. refl)
                (λ x t g h.
                  let (m, _, free) = candidates-In locked now db e in
                  absurd (claimable-ne-ended i now db c m free g t h))
                r)
      ]

  exec-EndedAs :
      (s : Statement) (db : Db) → IsConsistent db → EndedAs i j db → EndedAs i j (exec s db)
  unfolding exec
  exec-EndedAs (enqueue id now p) db c r = enqueue-EndedAs id now p db r
  exec-EndedAs (claim locked attempt_id now worker) db c r =
      claim-EndedAs locked attempt_id now worker db c r
  exec-EndedAs (touch k now) db c r =
      update-EndedAs db db.attempts (has_id k) (λ x. record x { updated_at = now }) (λ x. refl)
        (λ x t g h. (refl, refl)) r
  exec-EndedAs (beat k worker now) db c r = record {
    row = r.row;
    found = r.found;
    status = r.status;
    message = r.message;
  }
  exec-EndedAs (mark k worker now) db c r =
      update-EndedAs db db.attempts _ (set_status running now) (λ x. refl) (λ x t g h. ground arith)
        r
  exec-EndedAs (finish success k worker now) db c r =
      update-EndedAs db db.attempts _ (finish_job success now) (λ x. refl) (λ x t g h. ground arith)
        r
  exec-EndedAs (finish (failure error) k worker now) db c r =
      update-EndedAs db db.attempts _ (finish_job (failure error) now) (λ x. refl)
        (λ x t g h. ground arith) r
  exec-EndedAs (close o k worker now) db c r = record {
    row = r.row;
    found = r.found;
    status = r.status;
    message = r.message;
  }

  run-EndedAs :
      (ss : List Statement) (db : Db) → IsConsistent db → EndedAs i j db → EndedAs i j (run ss db)
  unfolding run
  run-EndedAs [] db c r = r
  run-EndedAs (s ∷ ss) db c r =
      run-EndedAs ss (exec s db) (exec-IsConsistent s db c) (exec-EndedAs s db c r)

-- In a consistent database, a job that is completed, failed or cancelled keeps its row, its status
-- and its error message through every sequence of statements of all workers.
pub terminal_absorbs :
    (i : ℕ) (j : IngestionJob) (ss : List Statement) (db : Db)
    → IsConsistent db
    → find? (has_id i) db.jobs ≡ some j
    → is_terminal j.status ≡ true
    → EndedAs i j (run ss db)
terminal_absorbs i j ss db c h t =
    run-EndedAs i j t ss db c (record { row = j; found = h; status = refl; message = refl })

-- ===== src/Jobs/Enqueue.antt =====
-- Enqueueing twice under one idempotency key.
use spectraplex.Base.{
  ℕ, String, Bool, true, false, ◌≡◌, refl, ◌∙◌, subst, List, [], ◌∷◌, ◌++◌, none, some, inl, inr,
  arith, ◌⊎◌, str_eq, str_eq_iff, Bool-cases, Option-cases, any, find?, find?-update, find?-append,
  update,
}
use text.Mathlib.TextPositions.{eq_refl}
use spectraplex.Jobs.{
  IngestionJob, IngestionJobAttempt, Db, has_id, has_key, first_row, candidates,
  claim_ingestion_job, enqueue_ingestion_job, set_status, finish_job, claimed, running,
  EnqueueIngestionJobParams, IngestionJobMode, backfill, incremental, check_mode, new_job, success,
  failure, Statement, enqueue, claim, touch, beat, mark, finish, close, exec, run,
}

-- A search for the key finds the row with id `i`.
pub record KeyHeldBy (k : String) (i : ℕ) (db : Db) : Type 0 where
  pub row : IngestionJob
  pub found : find? (has_key (some k)) db.jobs ≡ some row
  pub is_row : row.id ≡ i

any_of_find? :
    (q : IngestionJob → Bool) (js : List IngestionJob) {r : IngestionJob}
    → find? q js ≡ some r
    → any q js ≡ true
any_of_find? q [] h = cc
any_of_find? q (x ∷ js) {r} h = ground (arith, any_of_find? q js {r = r})

module _ (k : String) (i : ℕ) where
  update-KeyHeldBy :
      (db : Db) (attempts : List IngestionJobAttempt) (p : IngestionJob → Bool)
      (f : IngestionJob → IngestionJob)
      → ((x : IngestionJob) → (f x).id ≡ x.id)
      → ((x : IngestionJob) → (f x).idempotency_key ≡ x.idempotency_key)
      → KeyHeldBy k i db
      → KeyHeldBy k i (record { jobs = update p f db.jobs; attempts = attempts })
  update-KeyHeldBy db attempts p f hi hk r =
      let moved = find?-update (has_key (some k)) p f (λ x. cc (hk x)) db.jobs in
      elim (Bool-cases (p r.row)) [
        | inl e ↦ record {
          row = f r.row;
          found = moved ∙ rw r.found (rw e);
          is_row = hi r.row ∙ r.is_row;
        }
        | inr e ↦ record { row = r.row; found = moved ∙ rw r.found (rw e); is_row = r.is_row }
      ]

  enqueue-KeyHeldBy :
      (id now : ℕ) (p : EnqueueIngestionJobParams) (db : Db)
      → KeyHeldBy k i db
      → KeyHeldBy k i (enqueue_ingestion_job id now p db).1
  unfolding enqueue_ingestion_job
  enqueue-KeyHeldBy id now p db r = elim (Option-cases (check_mode p.mode)) [
    | inl refused ↦ rw (refused, enqueue_ingestion_job) r
    | inr (mode, admitted) ↦
        rw (admitted, enqueue_ingestion_job)
          (elim (Bool-cases (any (has_key p.idempotency_key) db.jobs)) [
            | inl e ↦ rw e r
            | inr e ↦ rw e (elim (Bool-cases (any (has_id id) db.jobs)) [
              | inl h ↦ rw h r
              | inr h ↦ rw h (record {
                row = r.row;
                found =
                    find?-append (has_key (some k)) db.jobs (new_job id now mode p ∷ [])
                    ∙ rw r.found;
                is_row = r.is_row;
              })
            ])
          ])
  ]

  claim-KeyHeldBy :
      (locked : ℕ → Bool) (attempt_id now : ℕ) (worker : String) (db : Db)
      → KeyHeldBy k i db
      → KeyHeldBy k i (claim_ingestion_job locked attempt_id now worker db).1
  unfolding claim_ingestion_job
  claim-KeyHeldBy locked attempt_id now worker db r =
      elim (Option-cases (first_row (candidates locked now db))) [
        | inl e ↦ rw (e, claim_ingestion_job) r
        | inr (j, e) ↦
            rw (e, claim_ingestion_job)
              (update-KeyHeldBy db _ (has_id j.id) (set_status claimed now) (λ x. refl) (λ x. refl)
                r)
      ]

  exec-KeyHeldBy : (s : Statement) (db : Db) → KeyHeldBy k i db → KeyHeldBy k i (exec s db)
  unfolding exec
  exec-KeyHeldBy (enqueue id now p) db r = enqueue-KeyHeldBy id now p db r
  exec-KeyHeldBy (claim locked attempt_id now worker) db r =
      claim-KeyHeldBy locked attempt_id now worker db r
  exec-KeyHeldBy (touch j now) db r =
      update-KeyHeldBy db db.attempts (has_id j) (λ x. record x { updated_at = now }) (λ x. refl)
        (λ x. refl) r
  exec-KeyHeldBy (beat j worker now) db r = record {
    row = r.row;
    found = r.found;
    is_row = r.is_row;
  }
  exec-KeyHeldBy (mark j worker now) db r =
      update-KeyHeldBy db db.attempts _ (set_status running now) (λ x. refl) (λ x. refl) r
  exec-KeyHeldBy (finish success j worker now) db r =
      update-KeyHeldBy db db.attempts _ (finish_job success now) (λ x. refl) (λ x. refl) r
  exec-KeyHeldBy (finish (failure error) j worker now) db r =
      update-KeyHeldBy db db.attempts _ (finish_job (failure error) now) (λ x. refl) (λ x. refl) r
  exec-KeyHeldBy (close o j worker now) db r = record {
    row = r.row;
    found = r.found;
    is_row = r.is_row;
  }

  run-KeyHeldBy : (ss : List Statement) (db : Db) → KeyHeldBy k i db → KeyHeldBy k i (run ss db)
  unfolding run
  run-KeyHeldBy [] db r = r
  run-KeyHeldBy (s ∷ ss) db r = run-KeyHeldBy ss (exec s db) (exec-KeyHeldBy s db r)

none_of_any :
    (q : IngestionJob → Bool) (js : List IngestionJob) → any q js ≡ false → find? q js ≡ none
none_of_any q [] h = refl
none_of_any q (x ∷ js) h = ground (arith, none_of_any q js)

inserted_found :
    (id now : ℕ) (mode : IngestionJobMode) (p : EnqueueIngestionJobParams) (js : List IngestionJob)
    (k : String)
    → p.idempotency_key ≡ some k
    → any (has_key p.idempotency_key) js ≡ false
    → find? (has_key (some k)) (js ++ new_job id now mode p ∷ []) ≡ some (new_job id now mode p)
unfolding new_job
inserted_found id now mode p js k e c =
    let absent = none_of_any (has_key (some k)) js (subst (λ o. any (has_key o) js ≡ false) e c) in
    find?-append (has_key (some k)) js (new_job id now mode p ∷ [])
    ∙ rw absent (rw e (rw (eq_refl k)))

-- An enqueue whose mode passes the CHECK, and that returns a row, leaves that row under its key.
admitted_holds :
    (id now : ℕ) (mode : IngestionJobMode) (p : EnqueueIngestionJobParams) (db : Db) (k : String)
    {j : IngestionJob}
    → check_mode p.mode ≡ some mode
    → p.idempotency_key ≡ some k
    → (enqueue_ingestion_job id now p db).0 ≡ some j
    → KeyHeldBy k j.id (enqueue_ingestion_job id now p db).1
unfolding enqueue_ingestion_job
admitted_holds id now mode p db k {j} admitted e h =
    let h' = rw (admitted, enqueue_ingestion_job) at h in
    rw (admitted, enqueue_ingestion_job)
      (elim (Bool-cases (any (has_key p.idempotency_key) db.jobs)) [
        | inl c ↦ rw c (record {
          row = j;
          found = subst (λ o. find? (has_key o) db.jobs ≡ some j) e (rw c at h');
          is_row = refl;
        })
        | inr c ↦ elim (Bool-cases (any (has_id id) db.jobs)) [
          | inl d ↦ absurd (ground (arith, c, d, h'))
          | inr d ↦ rw c (
              rw d (record {
                row = new_job id now mode p;
                found = inserted_found id now mode p db.jobs k e c;
                is_row = ground (arith, c, d, h');
              }))
        ]
      ])

-- An enqueue that returns a row leaves that row under its key.
enqueue_holds :
    (id now : ℕ) (p : EnqueueIngestionJobParams) (db : Db) (k : String) {j : IngestionJob}
    → p.idempotency_key ≡ some k
    → (enqueue_ingestion_job id now p db).0 ≡ some j
    → KeyHeldBy k j.id (enqueue_ingestion_job id now p db).1
unfolding enqueue_ingestion_job
enqueue_holds id now p db k {j} e h = elim (Option-cases (check_mode p.mode)) [
  | inl refused ↦ absurd (cc (rw (refused, enqueue_ingestion_job) at h))
  | inr (mode, admitted) ↦ admitted_holds id now mode p db k admitted e h
]

-- Whether the CHECK of the mode column admits a text.
abbrev pub IsAllowedMode : String → Type 0
IsAllowedMode mode = (mode ≡ "backfill") ⊎ (mode ≡ "incremental")

check_mode_allowed :
    (mode : String) → IsAllowedMode mode → (m : IngestionJobMode) × (check_mode mode ≡ some m)
check_mode_allowed mode (inl e) = (backfill, rw e refl)
check_mode_allowed mode (inr e) = (incremental, rw e refl)

allowed_or_not : (mode : String) → IsAllowedMode mode ⊎ (¬ IsAllowedMode mode)
allowed_or_not mode = elim (Bool-cases (str_eq mode "backfill")) [
  | inl t ↦ inl (inl ((str_eq_iff mode "backfill").0 t))
  | inr f ↦ elim (Bool-cases (str_eq mode "incremental")) [
    | inl t ↦ inl (inr ((str_eq_iff mode "incremental").0 t))
    | inr g ↦ inr (λ a. elim a [
      | inl e ↦ cc (f, (str_eq_iff mode "backfill").1 e)
      | inr e ↦ cc (g, (str_eq_iff mode "incremental").1 e)
    ])
  ]
]

check_mode_refused : (mode : String) → ¬ IsAllowedMode mode → check_mode mode ≡ none
check_mode_refused mode h = elim (Bool-cases (str_eq mode "backfill")) [
  | inl t ↦ absurd (h (inl ((str_eq_iff mode "backfill").0 t)))
  | inr f ↦ elim (Bool-cases (str_eq mode "incremental")) [
    | inl t ↦ absurd (h (inr ((str_eq_iff mode "incremental").0 t)))
    | inr g ↦ rw (f, g) refl
  ]
]

enqueue_held :
    (id now : ℕ) (p : EnqueueIngestionJobParams) (db : Db) (k : String) {i : ℕ}
    → IsAllowedMode p.mode
    → p.idempotency_key ≡ some k
    → KeyHeldBy k i db
    → (row : IngestionJob) × (enqueue_ingestion_job id now p db ≡ (some row, db)) × (row.id ≡ i)
unfolding enqueue_ingestion_job
enqueue_held id now p db k allowed e r =
    let (mode, admitted) = check_mode_allowed p.mode allowed in
    (
      r.row,
      rw (admitted, enqueue_ingestion_job)
          (rw e (rw (any_of_find? (has_key (some k)) db.jobs r.found) (rw r.found))),
      r.is_row,
    )

-- After an enqueue under a key that returned a job, whatever statements run in between, a second
-- enqueue under the same key writes nothing: it returns the job with the same id if its mode is
-- `backfill` or `incremental`, and else the CHECK of the table refuses it.
pub enqueue_idempotent :
    (id now id' now' : ℕ) (p q : EnqueueIngestionJobParams) (db : Db) (ss : List Statement)
    (k : String) {j : IngestionJob}
    → p.idempotency_key ≡ some k
    → q.idempotency_key ≡ some k
    → (enqueue_ingestion_job id now p db).0 ≡ some j
    → let after = run ss (enqueue_ingestion_job id now p db).1 in
      (IsAllowedMode q.mode
        × ((row : IngestionJob) × (enqueue_ingestion_job id' now' q after ≡ (some row, after))
            × (row.id ≡ j.id)))
      ⊎ ((¬ IsAllowedMode q.mode) × (enqueue_ingestion_job id' now' q after ≡ (none, after)))
unfolding enqueue_ingestion_job
enqueue_idempotent id now id' now' p q db ss k {j} ep eq h = elim (allowed_or_not q.mode) [
  | inl allowed ↦ inl (
    allowed,
    enqueue_held id' now' q _ k allowed eq
        (run-KeyHeldBy k j.id ss _ (enqueue_holds id now p db k ep h)),
  )
  | inr refused ↦ inr (refused, rw (check_mode_refused q.mode refused, enqueue_ingestion_job) refl)
]

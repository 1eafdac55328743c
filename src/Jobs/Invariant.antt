-- ===== src/Jobs/Invariant.antt =====
-- What holds of the queue's two tables between any two statements.
use spectraplex.Base.{
  ℕ, ◌≤◌, ◌<◌, String, Bool, true, false, ◌&&◌, ◌≡◌, refl, List, [], ◌∷◌, Option, none, some, inl,
  inr, arith, ◌==◌, str_eq_iff, subst, Bool-cases, Option-cases, any, count, update, count-append,
  count-update_le, count-update_eq, count-update_zero, count_of_any,
}
use spectraplex.Jobs.{
  IngestionJob, IngestionJobAttempt, Db, EnqueueIngestionJobParams, new_job, check_mode, has_id,
  has_key, key_eq, open_of, open_by, close_reclaimed, max_attempt, new_attempt, claim_row,
  claim_ingestion_job, first_row, candidates, enqueue_ingestion_job, finish_row, finish_job,
  close_attempt, close_row, set_status, claimed, running, Outcome, success, failure, Statement,
  enqueue, claim, touch, beat, mark, finish, close, exec, run,
}

-- The attempt with number `n` of job `i`.
abbrev pub numbered_as : ℕ → ℕ → IngestionJobAttempt → Bool
numbered_as i n a = a.job_id == i && a.attempt_num == n

pub record IsConsistent (db : Db) : Type 0 where
  pub ids : (i : ℕ) → count (has_id i) db.jobs ≤ 1
  pub keys : (k : String) → count (has_key (some k)) db.jobs ≤ 1
  pub one_open : (i : ℕ) → count (open_of i) db.attempts ≤ 1
  pub numbers : (i n : ℕ) → count (numbered_as i n) db.attempts ≤ 1

-- A write to the jobs that leaves ids and keys alone.
jobs-IsConsistent :
    (db : Db) (p : IngestionJob → Bool) (f : IngestionJob → IngestionJob)
    → ((j : IngestionJob) → (f j).id ≡ j.id)
    → ((j : IngestionJob) → (f j).idempotency_key ≡ j.idempotency_key)
    → IsConsistent db
    → IsConsistent (record db { jobs = update p f db.jobs })
jobs-IsConsistent db p f hi hk c = record {
  ids = λ i.
      let e = count-update_eq (has_id i) p f (λ j _. cc (hi j)) db.jobs in
      omega (arith, e, c.ids i);
  keys = λ k.
      let e = count-update_eq (has_key (some k)) p f (λ j _. cc (hk j)) db.jobs in
      omega (arith, e, c.keys k);
  one_open = c.one_open;
  numbers = c.numbers;
}

-- A write to the attempts that opens none and renumbers none.
attempts-IsConsistent :
    (db : Db) (p : IngestionJobAttempt → Bool) (f : IngestionJobAttempt → IngestionJobAttempt)
    → ((i : ℕ) (a : IngestionJobAttempt) → open_of i (f a) ≡ true → open_of i a ≡ true)
    → ((i n : ℕ) (a : IngestionJobAttempt) → numbered_as i n (f a) ≡ numbered_as i n a)
    → IsConsistent db
    → IsConsistent (record db { attempts = update p f db.attempts })
attempts-IsConsistent db p f ho hn c = record {
  ids = c.ids;
  keys = c.keys;
  one_open = λ i.
      let e = count-update_le (open_of i) p f (λ a _. ho i a) db.attempts in
      omega (arith, e, c.one_open i);
  numbers = λ i n.
      let e = count-update_eq (numbered_as i n) p f (λ a _. hn i n a) db.attempts in
      omega (arith, e, c.numbers i n);
}

numbered_above :
    (i n : ℕ) (as' : List IngestionJobAttempt)
    → max_attempt i as' < n
    → count (numbered_as i n) as' ≡ 0
unfolding max_attempt
numbered_above i n [] h = refl
numbered_above i n (a ∷ rest) h = ground (arith, numbered_above i n rest)

claim_row-IsConsistent :
    (attempt_id now : ℕ) (worker : String) (i : ℕ) (db : Db)
    → IsConsistent db
    → IsConsistent (claim_row attempt_id now worker i db)
unfolding claim_row
claim_row-IsConsistent attempt_id now worker i db c =
    let b = jobs-IsConsistent db (has_id i) (set_status claimed now) (λ _. refl) (λ _. refl) c in
    let d =
      attempts-IsConsistent db (open_of i) (close_reclaimed now) (λ k a h. ground arith)
        (λ k n a. refl) c in
    let old = update (open_of i) (close_reclaimed now) db.attempts in
    let new = new_attempt attempt_id now i worker old in
    record {
      ids = b.ids;
      keys = b.keys;
      one_open = λ k.
          let e = count-append (open_of k) old (new ∷ []) in
          let z =
            count-update_zero (open_of i) (open_of i) (close_reclaimed now) (λ a h. h)
              (λ a h. ground arith) db.attempts in
          ground (arith, e, z, d.one_open k);
      numbers = λ k n.
          let e = count-append (numbered_as k n) old (new ∷ []) in
          ground (arith, e, numbered_above k n old, d.numbers k n);
    }

-- No row has the key of a job that the insert let through.
keys-fresh :
    (o : Option String) (k : String) (js : List IngestionJob)
    → any (has_key o) js ≡ false
    → key_eq o (some k) ≡ true
    → count (has_key (some k)) js ≡ 0
keys-fresh none k js h e = cc
keys-fresh (some a) k js h e =
    subst (λ x. count (has_key (some x)) js ≡ 0) ((str_eq_iff a k).0 e)
      (count_of_any (has_key (some a)) js h)

enqueue-IsConsistent :
    (id now : ℕ) (p : EnqueueIngestionJobParams) (db : Db)
    → IsConsistent db
    → IsConsistent (enqueue_ingestion_job id now p db).1
unfolding enqueue_ingestion_job
enqueue-IsConsistent id now p db c = elim (Option-cases (check_mode p.mode)) [
  | inl refused ↦ rw (refused, enqueue_ingestion_job) c
  | inr (mode, admitted) ↦
      rw (admitted, enqueue_ingestion_job)
        (elim (Bool-cases (any (has_key p.idempotency_key) db.jobs)) [
          | inl e ↦ rw e c
          | inr e ↦ rw e (elim (Bool-cases (any (has_id id) db.jobs)) [
            | inl h ↦ rw h c
            | inr h ↦ rw h (record {
              ids = λ i.
                  let s = count-append (has_id i) db.jobs (new_job id now mode p ∷ []) in
                  ground (arith, s, c.ids i, count_of_any (has_id id) db.jobs h);
              keys = λ k.
                  let s = count-append (has_key (some k)) db.jobs (new_job id now mode p ∷ []) in
                  ground (arith, s, c.keys k, keys-fresh p.idempotency_key k db.jobs e);
              one_open = c.one_open;
              numbers = c.numbers;
            })
          ])
        ])
]

finish_row-IsConsistent :
    (o : Outcome) (i : ℕ) (worker : String) (now : ℕ) (db : Db)
    → IsConsistent db
    → IsConsistent (finish_row o i worker now db).1
unfolding finish_row
finish_row-IsConsistent success i worker now db c =
    jobs-IsConsistent db _ (finish_job success now) (λ _. refl) (λ _. refl) c
finish_row-IsConsistent (failure error) i worker now db c =
    jobs-IsConsistent db _ (finish_job (failure error) now) (λ _. refl) (λ _. refl) c

close_row-IsConsistent :
    (o : Outcome) (i : ℕ) (worker : String) (now : ℕ) (db : Db)
    → IsConsistent db
    → IsConsistent (close_row o i worker now db)
unfolding close_row
close_row-IsConsistent success i worker now db c =
    attempts-IsConsistent db (open_by i worker) (close_attempt success now) (λ k a h. ground arith)
      (λ k n a. refl) c
close_row-IsConsistent (failure error) i worker now db c =
    attempts-IsConsistent db (open_by i worker) (close_attempt (failure error) now)
      (λ k a h. ground arith) (λ k n a. refl) c

claim-IsConsistent :
    (locked : ℕ → Bool) (attempt_id now : ℕ) (worker : String) (db : Db)
    → IsConsistent db
    → IsConsistent (claim_ingestion_job locked attempt_id now worker db).1
unfolding claim_ingestion_job
claim-IsConsistent locked attempt_id now worker db c =
    elim (Option-cases (first_row (candidates locked now db))) [
      | inl e ↦ rw (e, claim_ingestion_job) c
      | inr (j, e) ↦
          rw (e, claim_ingestion_job) (claim_row-IsConsistent attempt_id now worker j.id db c)
    ]

pub exec-IsConsistent : (s : Statement) (db : Db) → IsConsistent db → IsConsistent (exec s db)
unfolding exec
exec-IsConsistent (enqueue id now p) db c = enqueue-IsConsistent id now p db c
exec-IsConsistent (claim locked attempt_id now worker) db c =
    claim-IsConsistent locked attempt_id now worker db c
exec-IsConsistent (touch i now) db c =
    jobs-IsConsistent db (has_id i) (λ j. record j { updated_at = now }) (λ _. refl) (λ _. refl) c
exec-IsConsistent (beat i worker now) db c =
    attempts-IsConsistent db (open_by i worker) (λ a. record a { heartbeat_at = now }) (λ k a h. h)
      (λ k n a. refl) c
exec-IsConsistent (mark i worker now) db c =
    jobs-IsConsistent db _ (set_status running now) (λ _. refl) (λ _. refl) c
exec-IsConsistent (finish o i worker now) db c = finish_row-IsConsistent o i worker now db c
exec-IsConsistent (close o i worker now) db c = close_row-IsConsistent o i worker now db c

-- Every sequence of statements, of any workers, keeps ids and idempotency keys unique, at most one
-- open attempt for each job, and the attempt numbers of a job distinct.
pub run-IsConsistent : (ss : List Statement) (db : Db) → IsConsistent db → IsConsistent (run ss db)
unfolding run
run-IsConsistent [] db c = c
run-IsConsistent (s ∷ ss) db c = run-IsConsistent ss (exec s db) (exec-IsConsistent s db c)

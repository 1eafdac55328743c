-- ===== src/Jobs/Claims.antt =====
-- What a claim selects, and what it returns.
use spectraplex.Base.{
  first_by-In, first_by-ne-none, first_by-least, ℕ, String, Bool, true, false, ◌&&◌, not, ◌≡◌, refl,
  sym, ap, ◌∙◌, subst, Option, none, some, inl, inr, arith, ==_refl, Option-cases, find?,
  find?-update, find?_unique, find?_sound, update, In, select-In, In-select, any-In, ◌≢◌, ◌+◌, ◌≤◌,
  ◌⊎◌, List, any, any-elim, Bool-cases, is_none,
}
use spectraplex.Base.Int.{◌≤ℤ◌}
use spectraplex.Jobs.{
  IngestionJob, IngestionJobAttempt, Db, as_claimed, live_attempt, in_progress, has_id, first_row,
  before, candidates, claimable, claim_row, claim_ingestion_job, set_status, claimed, pending,
  running, is_pending, IngestionJobStatus,
}
use spectraplex.Jobs.Invariant.{IsConsistent}
use mathlib.Core.Option

-- What a claim takes is a row of the table, unlocked and claimable.
pub candidates-In :
    (locked : ℕ → Bool) (now : ℕ) (db : Db) {j : IngestionJob}
    → first_row (candidates locked now db) ≡ some j
    → In j db.jobs × (locked j.id ≡ false) × (claimable now db.attempts j ≡ true)
unfolding candidates first_row
candidates-In locked now db {j} h =
    let (m, t) =
      select-In (λ j. not (locked j.id) && claimable now db.attempts j) db.jobs
        (first_by-In before _ h) in
    (m, ground (arith, t), ground (arith, t))

map-eq-some :
    (o : Option IngestionJob) {j : IngestionJob}
    → Option.map as_claimed o ≡ some j
    → (k : IngestionJob) × (o ≡ some k) × (as_claimed k ≡ j)
map-eq-some none h = cc
map-eq-some (some k) h = (k, refl, ground arith)

-- A claim that returns `j` has written the claim of the first candidate, which has the id of `j`.
pub claim_inversion :
    (locked : ℕ → Bool) (attempt_id now : ℕ) (worker : String) (db : Db) {j : IngestionJob}
    → (claim_ingestion_job locked attempt_id now worker db).0 ≡ some j
    → (k : IngestionJob) × (first_row (candidates locked now db) ≡ some k)
      × (k.id ≡ j.id)
      × (j.status ≡ claimed)
      × ((claim_ingestion_job locked attempt_id now worker db).1
          ≡ claim_row attempt_id now worker j.id db)
unfolding claim_ingestion_job
claim_inversion locked attempt_id now worker db {j} h =
    elim (Option-cases (first_row (candidates locked now db))) [
      | inl e ↦ absurd (cc (rw (e, claim_ingestion_job) at h))
      | inr (k, e) ↦
          let h' : Option.map as_claimed
                (find? (has_id k.id) (claim_row attempt_id now worker k.id db).jobs)
              ≡ some j =
            rw (e, claim_ingestion_job) at h in
          let (r, f, q) = map-eq-some _ h' in
          let same : k.id ≡ j.id = ground (
            arith,
            find?_sound (has_id k.id) (claim_row attempt_id now worker k.id db).jobs f,
            ap (λ (x : IngestionJob). x.id) q,
          ) in
          (
            k,
            e,
            same,
            sym (ap (λ (x : IngestionJob). x.status) q),
            rw (e, claim_ingestion_job) (rw same),
          )
    ]

before_trans : (a b c : IngestionJob) → before a b ≡ true → before b c ≡ true → before a c ≡ true
unfolding before
before_trans a b c h k = ground arith

before_irrefl : (a : IngestionJob) → before a a ≡ false
unfolding before
before_irrefl a = ground arith

candidates-intro :
    (locked : ℕ → Bool) (now : ℕ) (db : Db) {r : IngestionJob}
    → In r db.jobs
    → locked r.id ≡ false
    → claimable now db.attempts r ≡ true
    → In r (candidates locked now db)
unfolding candidates
candidates-intro locked now db m l c = In-select _ m (ground (arith, l, c))

-- A job that is free to be claimed: it is pending, or it is in progress and each of its attempts that
-- is open had its last heartbeat five minutes ago or earlier.
abbrev pub IsFree : ℕ → Db → IngestionJob → Type 0
IsFree now db j =
    (j.status ≡ pending)
    ⊎ (((j.status ≡ claimed) ⊎ (j.status ≡ running))
        × ((a : IngestionJobAttempt)
            → In a db.attempts
            → a.job_id ≡ j.id
            → a.finished_at ≡ none
            → a.heartbeat_at + 300 ≤ now))

-- A job is served no later than another one: its priority is higher, or equal, and then it was not
-- created later.
abbrev pub IsServedFirst : IngestionJob → IngestionJob → Type 0
IsServedFirst k r =
    (r.priority ≤ℤ k.priority) × (r.priority ≡ k.priority → k.created_at ≤ r.created_at)

is_pending_sound : (s : IngestionJobStatus) → is_pending s ≡ true → s ≡ pending
is_pending_sound pending h = refl
is_pending_sound s h = cc

in_progress_cases : (s : IngestionJobStatus) → in_progress s ≡ true → (s ≡ claimed) ⊎ (s ≡ running)
in_progress_cases claimed h = inl refl
in_progress_cases running h = inr refl
in_progress_cases s h = cc

is_none_sound : (o : Option ℕ) → is_none o ≡ true → o ≡ none
is_none_sound none h = refl
is_none_sound (some n) h = cc

stale_attempt :
    (now i : ℕ) (attempts : List IngestionJobAttempt)
    → any (live_attempt now i) attempts ≡ false
    → (a : IngestionJobAttempt) → In a attempts
    → a.job_id ≡ i
    → a.finished_at ≡ none
    → a.heartbeat_at + 300 ≤ now
stale_attempt now i attempts h a m e f = elim (Bool-cases (live_attempt now i a)) [
  | inl t ↦ absurd (cc (any-In (live_attempt now i) m t, h))
  | inr n ↦ ground (arith, n, e, f)
]

no_live_attempt :
    (now i : ℕ) (attempts : List IngestionJobAttempt)
    → ((a : IngestionJobAttempt)
        → In a attempts
        → a.job_id ≡ i
        → a.finished_at ≡ none
        → a.heartbeat_at + 300 ≤ now)
    → any (live_attempt now i) attempts ≡ false
no_live_attempt now i attempts h = elim (Bool-cases (any (live_attempt now i) attempts)) [
  | inr f ↦ f
  | inl t ↦
      let (a, m, l) = any-elim (live_attempt now i) attempts t in
      let open_now : is_none a.finished_at ≡ true = ground (arith, l) in
      let same : a.job_id ≡ i = ground (arith, l) in
      absurd (ground (arith, l, h a m same (is_none_sound a.finished_at open_now)))
]

claimable_sound :
    (now : ℕ) (db : Db) (j : IngestionJob) → claimable now db.attempts j ≡ true → IsFree now db j
unfolding claimable
claimable_sound now db j h = elim (Bool-cases (is_pending j.status)) [
  | inl t ↦ inl (is_pending_sound j.status t)
  | inr f ↦ inr (
    in_progress_cases j.status (ground (arith, h, f)),
    stale_attempt now j.id db.attempts (ground (arith, h, f)),
  )
]

claimable_complete :
    (now : ℕ) (db : Db) (j : IngestionJob) → IsFree now db j → claimable now db.attempts j ≡ true
unfolding claimable
claimable_complete now db j (inl e) = rw e refl
claimable_complete now db j (inr (inl e, h)) = rw (e, no_live_attempt now j.id db.attempts h) refl
claimable_complete now db j (inr (inr e, h)) = rw (e, no_live_attempt now j.id db.attempts h) refl

not_before : (r k : IngestionJob) → before r k ≡ false → IsServedFirst k r
unfolding before
not_before r k h = (ground (arith, h), λ e. ground (arith, h, e))

-- The claim takes a candidate before which no other candidate comes.
claim_selects :
    (locked : ℕ → Bool) (attempt_id now : ℕ) (worker : String) (db : Db) {j : IngestionJob}
    → (claim_ingestion_job locked attempt_id now worker db).0 ≡ some j
    → (k : IngestionJob) × In k db.jobs
      × (k.id ≡ j.id)
      × (j.status ≡ claimed)
      × (locked k.id ≡ false)
      × (claimable now db.attempts k ≡ true)
      × ((r : IngestionJob)
          → In r db.jobs
          → locked r.id ≡ false
          → claimable now db.attempts r ≡ true
          → before r k ≡ false)
unfolding first_row
claim_selects locked attempt_id now worker db h =
    let (k, first, same, st, _) = claim_inversion locked attempt_id now worker db h in
    let (m, l, c) = candidates-In locked now db first in
    (
      k,
      m,
      same,
      st,
      l,
      c,
      λ r mr lr cr.
          first_by-least before before_irrefl before_trans _
            (candidates-intro locked now db mr lr cr) first,
    )

-- A claim returns, as claimed, the row of an unlocked job that is free: it was pending, or it was in
-- progress and each open attempt of it had its last heartbeat five minutes ago or earlier. No
-- unlocked job that is free has a higher priority, or the same priority and an earlier creation
-- time.
pub claim_selects_best :
    (locked : ℕ → Bool) (attempt_id now : ℕ) (worker : String) (db : Db) {j : IngestionJob}
    → (claim_ingestion_job locked attempt_id now worker db).0 ≡ some j
    → (k : IngestionJob) × In k db.jobs
      × (k.id ≡ j.id)
      × (j.status ≡ claimed)
      × (locked k.id ≡ false)
      × IsFree now db k
      × ((r : IngestionJob)
          → In r db.jobs
          → locked r.id ≡ false
          → IsFree now db r
          → IsServedFirst k r)
claim_selects_best locked attempt_id now worker db h =
    let (k, m, same, st, l, c, best) = claim_selects locked attempt_id now worker db h in
    (
      k,
      m,
      same,
      st,
      l,
      claimable_sound now db k c,
      λ r mr lr fr. not_before r k (best r mr lr (claimable_complete now db r fr)),
    )

-- In a consistent database, while a job is in progress and an open attempt of it has a heartbeat younger than the threshold,
-- no claim returns the job.
pub live_job_not_claimed :
    (locked : ℕ → Bool) (attempt_id now : ℕ) (worker : String) (db : Db) (a : IngestionJobAttempt)
    {j r : IngestionJob}
    → IsConsistent db
    → In r db.jobs
    → in_progress r.status ≡ true
    → In a db.attempts
    → live_attempt now r.id a ≡ true
    → (claim_ingestion_job locked attempt_id now worker db).0 ≡ some j
    → j.id ≢ r.id
unfolding claimable
live_job_not_claimed locked attempt_id now worker db a {j} {r} c mr busy ma live h e =
    let (k, m, same, _, _, free, _) = claim_selects locked attempt_id now worker db h in
    let at_r : has_id r.id k ≡ true = ground (arith, same, e) in
    let row : some k ≡ some r =
      sym (find?_unique (has_id r.id) m at_r (c.ids r.id))
      ∙ find?_unique (has_id r.id) mr (==_refl r.id) (c.ids r.id) in
    let k_is_r : k ≡ r = ground (arith, row) in
    let free_r = subst (λ x. claimable now db.attempts x ≡ true) k_is_r free in
    ground (arith, free_r, any-In (live_attempt now r.id) ma live, busy)

claimed_row :
    (now : ℕ) (db : Db) {k : IngestionJob}
    → IsConsistent db
    → In k db.jobs
    → find? (has_id k.id) (update (has_id k.id) (set_status claimed now) db.jobs)
      ≡ some (set_status claimed now k)
claimed_row now db {k} c m =
    find?-update (has_id k.id) (has_id k.id) (set_status claimed now) (λ x. refl) db.jobs
    ∙ rw (find?_unique (has_id k.id) m (==_refl k.id) (c.ids k.id)) (rw (==_refl k.id))

-- In a consistent database, if some job is unlocked and free, that is pending, or in progress with no
-- open attempt whose last heartbeat is younger than five minutes, a claim returns a job.
pub claim_finds_work :
    (locked : ℕ → Bool) (attempt_id now : ℕ) (worker : String) (db : Db) {r : IngestionJob}
    → IsConsistent db
    → In r db.jobs
    → locked r.id ≡ false
    → IsFree now db r
    → (j : IngestionJob) × ((claim_ingestion_job locked attempt_id now worker db).0 ≡ some j)
unfolding claim_ingestion_job first_row
claim_finds_work locked attempt_id now worker db {r} c mr lr fr =
    let cr = claimable_complete now db r fr in
    elim (Option-cases (first_row (candidates locked now db))) [
      | inl e ↦ absurd (first_by-ne-none before _ (candidates-intro locked now db mr lr cr) e)
      | inr (k, e) ↦
          let (m, _, _) = candidates-In locked now db e in
          (
            as_claimed (set_status claimed now k),
            rw (e, claim_ingestion_job) (ap (Option.map as_claimed) (claimed_row now db c m)),
          )
    ]

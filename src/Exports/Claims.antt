-- ===== src/Exports/Claims.antt =====
-- Which export job a claim takes, and who may move it afterwards.
use spectraplex.Base.{
  ℕ, ◌≤◌, String, Bool, true, false, ◌&&◌, not, ◌≡◌, refl, ◌∙◌, Option, some, List, [], ◌∷◌, arith,
  inl, inr, ==_refl, str_eq, Bool-cases, Option-cases, any, count, find?, find?-update,
  find?_unique, find?_sound, update, In, select-In, In-select, any-update_clear, any-update-false,
  any-append, update_none, update_where_none, first_by-In, first_by-ne-none, first_by-least,
}
use spectraplex.Dataset.{DatasetName}
use spectraplex.Exports.{
  ExportJob, ExportFormat, ExportUpdate, Table, has_id, claimable, candidates, oldest,
  created_before, held_by, taken, updated, beaten, new_job, claim_export_job,
  update_export_job_status, check_status, heartbeat_export_job, enqueue_export_job, Statement,
  enqueue, claim, set_status, heartbeat, exec, run,
}

pub candidates-In :
    (locked : ℕ → Bool) (now : ℕ) (t : Table) {j : ExportJob}
    → oldest (candidates locked now t) ≡ some j
    → In j t × (locked j.id ≡ false) × (claimable now j ≡ true)
unfolding candidates oldest
candidates-In locked now t {j} h =
    let (m, e) =
      select-In (λ j. not (locked j.id) && claimable now j) t (first_by-In created_before _ h) in
    (m, ground (arith, e), ground (arith, e))

candidates-intro :
    (locked : ℕ → Bool) (now : ℕ) (t : Table) {r : ExportJob}
    → In r t
    → locked r.id ≡ false
    → claimable now r ≡ true
    → In r (candidates locked now t)
unfolding candidates
candidates-intro locked now t m l c = In-select _ m (ground (arith, l, c))

claimed_row :
    (now : ℕ) (worker : String) (t : Table) {k : ExportJob}
    → count (has_id k.id) t ≤ 1
    → In k t
    → find? (has_id k.id) (update (has_id k.id) (taken worker now) t) ≡ some (taken worker now k)
claimed_row now worker t {k} c m =
    find?-update (has_id k.id) (has_id k.id) (taken worker now) (λ x. refl) t
    ∙ rw (find?_unique (has_id k.id) m (==_refl k.id) c) (rw (==_refl k.id))

-- With unique ids: if some job is unlocked and claimable, a claim returns one, marked as taken by
-- the worker; it was unlocked and claimable, and no other such job was created before it.
export_claim_takes_oldest :
    (locked : ℕ → Bool) (now : ℕ) (worker : String) (t : Table) {r : ExportJob}
    → ((i : ℕ) → count (has_id i) t ≤ 1)
    → In r t
    → locked r.id ≡ false
    → claimable now r ≡ true
    → (k : ExportJob) × ((claim_export_job locked now worker t).0 ≡ some (taken worker now k))
      × In k t
      × (locked k.id ≡ false)
      × (claimable now k ≡ true)
      × ((s : ExportJob)
          → In s t
          → locked s.id ≡ false
          → claimable now s ≡ true
          → created_before s k ≡ false)
unfolding claim_export_job oldest
export_claim_takes_oldest locked now worker t c mr lr cr =
    elim (Option-cases (oldest (candidates locked now t))) [
      | inl e ↦
          absurd (first_by-ne-none created_before _ (candidates-intro locked now t mr lr cr) e)
      | inr (k, e) ↦
          let (m, l, free) = candidates-In locked now t e in
          (
            k,
            rw (e, claim_export_job) (claimed_row now worker t (c k.id) m),
            m,
            l,
            free,
            λ s ms ls cs.
                first_by-least created_before (λ a. ground arith) (λ a b c h g. ground arith) _
                  (candidates-intro locked now t ms ls cs) e,
          )
    ]

-- No claim by `w`.
abbrev pub claims_by : String → Statement → Bool
claims_by w (claim locked now worker) = str_eq worker w
claims_by w _ = false

claim-disowns :
    (j : ℕ) (w : String) (locked : ℕ → Bool) (now : ℕ) (worker : String) (t : Table)
    → str_eq worker w ≡ false
    → any (held_by j w) t ≡ false
    → any (held_by j w) (claim_export_job locked now worker t).1 ≡ false
unfolding claim_export_job
claim-disowns j w locked now worker t n h = elim (Option-cases (oldest (candidates locked now t))) [
  | inl e ↦ rw (e, claim_export_job) h
  | inr (k, e) ↦
      rw (e, claim_export_job)
        (any-update-false (held_by j w) (has_id k.id) (taken worker now)
          (λ x _ g. ground (arith, n)) t h)
]

status-disowns :
    (j : ℕ) (w : String) (i : ℕ) (u : ExportUpdate) (worker : String) (clock now : ℕ) (t : Table)
    → any (held_by j w) t ≡ false
    → any (held_by j w) (update_export_job_status i u worker clock now t).1 ≡ false
unfolding update_export_job_status
status-disowns j w i u worker clock now t h = elim (Option-cases (check_status u.status)) [
  | inl e ↦ elim (Bool-cases (any (held_by i worker) t)) [
    | inl g ↦ rw (e, update_export_job_status) (rw g h)
    | inr g ↦ rw (e, update_export_job_status) (rw g h)
  ]
  | inr (s, e) ↦
      rw (e, update_export_job_status)
        (any-update-false (held_by j w) (held_by i worker) (updated s u clock now)
          (λ x g e. ground arith) t h)
]

enqueue-disowns :
    (j : ℕ) (w : String) (id now : ℕ) (dataset : DatasetName) (format : ExportFormat)
    (filters config : Option String) (owner : Option ℕ) (t : Table)
    → any (held_by j w) t ≡ false
    → any (held_by j w) (enqueue_export_job id now dataset format filters config owner t).1 ≡ false
unfolding enqueue_export_job
enqueue-disowns j w id now dataset format filters config owner t h =
    let add =
      any-append (held_by j w) t (new_job id now dataset format filters config owner ∷ []) in
    elim (Bool-cases (any (has_id id) t)) [ inl d ↦ rw d h | inr d ↦ rw d (ground (arith, add)) ]

exec-disowns :
    (j : ℕ) (w : String) (s : Statement) (t : Table)
    → claims_by w s ≡ false
    → any (held_by j w) t ≡ false
    → any (held_by j w) (exec s t) ≡ false
unfolding exec heartbeat_export_job
exec-disowns j w (enqueue id now dataset format filters config owner) t n h =
    enqueue-disowns j w id now dataset format filters config owner t h
exec-disowns j w (claim locked now worker) t n h = claim-disowns j w locked now worker t n h
exec-disowns j w (set_status i u worker clock now) t n h =
    status-disowns j w i u worker clock now t h
exec-disowns j w (heartbeat i worker now) t n h =
    any-update-false (held_by j w) (held_by i worker) (beaten now) (λ x _ e. e) t h

run-disowns :
    (j : ℕ) (w : String) (ss : List Statement) (t : Table)
    → any (claims_by w) ss ≡ false
    → any (held_by j w) t ≡ false
    → any (held_by j w) (run ss t) ≡ false
unfolding run
run-disowns j w [] t n h = h
run-disowns j w (s ∷ ss) t n h =
    run-disowns j w ss (exec s t) (ground arith) (exec-disowns j w s t (ground arith) h)

not_held_status :
    (i : ℕ) (u : ExportUpdate) (worker : String) (clock now : ℕ) (t : Table)
    → any (held_by i worker) t ≡ false
    → update_export_job_status i u worker clock now t ≡ (some false, t)
unfolding update_export_job_status
not_held_status i u worker clock now t h = elim (Option-cases (check_status u.status)) [
  | inl e ↦ rw (e, update_export_job_status) (rw h)
  | inr (s, e) ↦
      rw (e, update_export_job_status)
        (rw (h, update_none (held_by i worker) (updated s u clock now) t h))
]

after_claim :
    (locked : ℕ → Bool) (now : ℕ) (v w : String) (t : Table) {j : ExportJob}
    → (claim_export_job locked now v t).0 ≡ some j
    → str_eq v w ≡ false
    → any (held_by j.id w) (claim_export_job locked now v t).1 ≡ false
unfolding claim_export_job
after_claim locked now v w t {j} h n = elim (Option-cases (oldest (candidates locked now t))) [
  | inl e ↦ absurd (cc (rw (e, claim_export_job) at h))
  | inr (k, e) ↦
      let t' = update (has_id k.id) (taken v now) t in
      let f : find? (has_id k.id) t' ≡ some j = rw (e, claim_export_job) at h in
      let same : j.id ≡ k.id = ground (arith, find?_sound (has_id k.id) t' f) in
      rw (e, claim_export_job)
        (any-update_clear (held_by j.id w) (has_id k.id) (taken v now) (λ x g. ground (arith, same))
          (λ x. ground (arith, n)) t)
]

-- Once another worker has claimed an export job, the earlier worker's status updates, whatever they
-- carry, and its heartbeats return false and change nothing, whatever runs in between, until the
-- worker makes a claim.
pub reclaimed_export_fenced :
    (locked : ℕ → Bool) (now clock later : ℕ) (v w : String) (u : ExportUpdate) (t : Table)
    (ss : List Statement) {j : ExportJob}
    → (claim_export_job locked now v t).0 ≡ some j
    → str_eq v w ≡ false
    → any (claims_by w) ss ≡ false
    → let after = run ss (claim_export_job locked now v t).1 in
      (update_export_job_status j.id u w clock later after ≡ (some false, after))
      × (heartbeat_export_job j.id w later after ≡ (false, after))
unfolding heartbeat_export_job
reclaimed_export_fenced locked now clock later v w u t ss {j} h n q =
    let start = (claim_export_job locked now v t).1 in
    let lost = run-disowns j.id w ss start q (after_claim locked now v w t h n) in
    (
      not_held_status j.id u w clock later (run ss start) lost,
      update_where_none (held_by j.id w) (beaten later) (run ss start) lost,
    )

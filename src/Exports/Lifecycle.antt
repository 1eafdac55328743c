-- ===== src/Exports/Lifecycle.antt =====
-- The life of an export job's row: what holds of every row, and what an ended job keeps.
use spectraplex.Base.{
  ℕ, ◌≤◌, String, Bool, true, false, ◌&&◌, ◌≡◌, refl, sym, subst, ◌∙◌, Option, some, List, [], ◌∷◌,
  arith, inl, inr, is_some, Bool-cases, Option-cases, ==_refl, str_eq, str_eq_iff, any, count,
  find?, find?-append, find?-update_keep, find?_sound, find?_unique, update, All, All-update,
  All-append, In, In-unique, count-append, count-update_eq, count_of_any,
}
use spectraplex.Dataset.{DatasetName}
use spectraplex.Exports.{
  ExportJob, ExportJobStatus, ExportFormat, ExportUpdate, Table, has_id, claimable, candidates,
  oldest, held_by, in_progress, is_terminal, taken, updated, beaten, new_job, completion,
  claim_export_job, update_export_job_status, check_status, heartbeat_export_job,
  enqueue_export_job, get_export_job, Statement, enqueue, claim, set_status, heartbeat, exec, run,
}
use spectraplex.Exports.Claims.{candidates-In}

-- A row has a completion time exactly when its job has ended, and a job in progress has a worker, a
-- start time and a heartbeat.
pub record IsStamped (j : ExportJob) : Type 0 where
  pub completion : is_some j.completed_at ≡ is_terminal j.status
  pub leased :
      in_progress j.status ≡ true
      → (is_some j.worker_id && is_some j.started_at && is_some j.heartbeat_at) ≡ true

pub record IsConsistent (t : Table) : Type 0 where
  pub ids : (i : ℕ) → count (has_id i) t ≤ 1
  pub rows : All IsStamped t

update-IsConsistent :
    (p : ExportJob → Bool) (f : ExportJob → ExportJob) (t : Table)
    → ((x : ExportJob) → (f x).id ≡ x.id)
    → ((x : ExportJob) → In x t → p x ≡ true → IsStamped x → IsStamped (f x))
    → IsConsistent t
    → IsConsistent (update p f t)
update-IsConsistent p f t hi hf c = record {
  ids =
      λ i. let e = count-update_eq (has_id i) p f (λ x _. cc (hi x)) t in omega (arith, e, c.ids i);
  rows = All-update IsStamped p f t hf c.rows;
}

enqueue-IsConsistent :
    (id now : ℕ) (dataset : DatasetName) (format : ExportFormat) (filters config : Option String)
    (owner : Option ℕ) (t : Table)
    → IsConsistent t
    → IsConsistent (enqueue_export_job id now dataset format filters config owner t).1
unfolding enqueue_export_job
enqueue-IsConsistent id now dataset format filters config owner t c =
    let fresh = new_job id now dataset format filters config owner in
    elim (Bool-cases (any (has_id id) t)) [
      | inl e ↦ rw e c
      | inr e ↦ rw e (record {
        ids = λ i.
            let s = count-append (has_id i) t (fresh ∷ []) in
            ground (arith, s, c.ids i, count_of_any (has_id id) t e);
        rows = All-append IsStamped t _ c.rows (record { completion = refl; leased = λ h. cc }, tt);
      })
    ]

-- The claimed row was claimable, so it had not ended.
taken-IsStamped :
    (worker : String) (now : ℕ) (x : ExportJob)
    → claimable now x ≡ true
    → IsStamped x
    → IsStamped (taken worker now x)
unfolding claimable
taken-IsStamped worker now x h s = record {
  completion = ground (arith, s.completion);
  leased = λ e. ground arith;
}

claim-IsConsistent :
    (locked : ℕ → Bool) (now : ℕ) (worker : String) (t : Table)
    → IsConsistent t
    → IsConsistent (claim_export_job locked now worker t).1
unfolding claim_export_job
claim-IsConsistent locked now worker t c = elim (Option-cases (oldest (candidates locked now t))) [
  | inl e ↦ rw (e, claim_export_job) c
  | inr (k, e) ↦
      let (mk, _, free) = candidates-In locked now t e in
      rw (e, claim_export_job)
        (update-IsConsistent (has_id k.id) (taken worker now) t (λ x. refl)
          (λ x m h s.
            let same = In-unique (has_id k.id) (c.ids k.id) mk (==_refl k.id) m h in
            taken-IsStamped worker now x (subst (λ y. claimable now y ≡ true) same free) s)
          c)
]

-- A text is no other text.
texts_differ : (s a b : String) → str_eq a b ≡ false → str_eq s a ≡ true → str_eq s b ≡ false
texts_differ s a b n h = subst (λ x. str_eq x b ≡ false) (sym ((str_eq_iff s a).0 h)) n

-- The completion time that an update writes agrees with the status that it writes.
completion-check :
    (status : String) (clock : ℕ) (s : ExportJobStatus)
    → check_status status ≡ some s
    → is_some (completion status clock) ≡ is_terminal s
unfolding check_status
completion-check status clock s h = ground (
  arith,
  texts_differ status "pending" "completed" refl,
  texts_differ status "pending" "failed" refl,
  texts_differ status "running" "completed" refl,
  texts_differ status "running" "failed" refl,
  texts_differ status "delivering" "completed" refl,
  texts_differ status "delivering" "failed" refl,
)

updated-IsStamped :
    (i : ℕ) (worker : String) (u : ExportUpdate) (clock now : ℕ) (s : ExportJobStatus)
    (x : ExportJob)
    → check_status u.status ≡ some s
    → held_by i worker x ≡ true
    → IsStamped x
    → IsStamped (updated s u clock now x)
updated-IsStamped i worker u clock now s x h held st = record {
  completion = ground (arith, completion-check u.status clock s h, st.completion);
  leased = λ e. ground (arith, st.leased);
}

status-IsConsistent :
    (i : ℕ) (u : ExportUpdate) (worker : String) (clock now : ℕ) (t : Table)
    → IsConsistent t
    → IsConsistent (update_export_job_status i u worker clock now t).1
unfolding update_export_job_status
status-IsConsistent i u worker clock now t c = elim (Option-cases (check_status u.status)) [
  | inl e ↦ elim (Bool-cases (any (held_by i worker) t)) [
    | inl g ↦ rw (e, update_export_job_status) (rw g c)
    | inr g ↦ rw (e, update_export_job_status) (rw g c)
  ]
  | inr (s, e) ↦
      rw (e, update_export_job_status)
        (update-IsConsistent (held_by i worker) (updated s u clock now) t (λ x. refl)
          (λ x m h st. updated-IsStamped i worker u clock now s x e h st) c)
]

exec-IsConsistent : (s : Statement) (t : Table) → IsConsistent t → IsConsistent (exec s t)
unfolding exec heartbeat_export_job
exec-IsConsistent (enqueue id now dataset format filters config owner) t c =
    enqueue-IsConsistent id now dataset format filters config owner t c
exec-IsConsistent (claim locked now worker) t c = claim-IsConsistent locked now worker t c
exec-IsConsistent (set_status i u worker clock now) t c =
    status-IsConsistent i u worker clock now t c
exec-IsConsistent (heartbeat i worker now) t c =
    update-IsConsistent (held_by i worker) (beaten now) t (λ x. refl)
      (λ x m h s. record { completion = s.completion; leased = λ e. ground (arith, s.leased) }) c

-- Every sequence of statements keeps ids unique and keeps this of every row: it has a completion
-- time exactly when its job is completed or failed, and a running or delivering job has a worker, a
-- start time and a heartbeat.
pub exports-IsConsistent :
    (ss : List Statement) (t : Table) → IsConsistent t → IsConsistent (run ss t)
unfolding run
exports-IsConsistent [] t c = c
exports-IsConsistent (s ∷ ss) t c = exports-IsConsistent ss (exec s t) (exec-IsConsistent s t c)

module _ (i : ℕ) (j : ExportJob) (ended : is_terminal j.status ≡ true) where
  enqueue-keeps :
      (id now : ℕ) (dataset : DatasetName) (format : ExportFormat) (filters config : Option String)
      (owner : Option ℕ) (t : Table)
      → find? (has_id i) t ≡ some j
      → find? (has_id i) (enqueue_export_job id now dataset format filters config owner t).1
        ≡ some j
  unfolding enqueue_export_job
  enqueue-keeps id now dataset format filters config owner t h =
      elim (Bool-cases (any (has_id id) t)) [
        | inl e ↦ rw e h
        | inr e ↦ rw e (
            find?-append (has_id i) t (new_job id now dataset format filters config owner ∷ [])
            ∙ rw h)
      ]

  -- The claimed row is another one: the ended job is not claimable, and ids are unique.
  claim-keeps :
      (locked : ℕ → Bool) (now : ℕ) (worker : String) (t : Table)
      → IsConsistent t
      → find? (has_id i) t ≡ some j
      → find? (has_id i) (claim_export_job locked now worker t).1 ≡ some j
  unfolding claim_export_job claimable
  claim-keeps locked now worker t c h = elim (Option-cases (oldest (candidates locked now t))) [
    | inl e ↦ rw (e, claim_export_job) h
    | inr (k, e) ↦
        let (mk, _, free) = candidates-In locked now t e in
        let at_i = find?_sound (has_id i) t h in
        let other : has_id k.id j ≡ false = elim (Bool-cases (has_id k.id j)) [
          | inl g ↦
              let found : find? (has_id i) t ≡ some k =
                find?_unique (has_id i) mk (ground (arith, at_i, g)) (c.ids i) in
              absurd (ground (arith, found, h, free, ended))
          | inr g ↦ g
        ] in
        rw (e, claim_export_job)
          (find?-update_keep (has_id i) (has_id k.id) (taken worker now) (λ x. refl) t h other)
  ]

  status-keeps :
      (k : ℕ) (u : ExportUpdate) (worker : String) (clock now : ℕ) (t : Table)
      → find? (has_id i) t ≡ some j
      → find? (has_id i) (update_export_job_status k u worker clock now t).1 ≡ some j
  unfolding update_export_job_status
  status-keeps k u worker clock now t h = elim (Option-cases (check_status u.status)) [
    | inl e ↦ elim (Bool-cases (any (held_by k worker) t)) [
      | inl g ↦ rw (e, update_export_job_status) (rw g h)
      | inr g ↦ rw (e, update_export_job_status) (rw g h)
    ]
    | inr (s, e) ↦
        rw (e, update_export_job_status)
          (find?-update_keep (has_id i) (held_by k worker) (updated s u clock now) (λ x. refl) t h
            (ground arith))
  ]

  exec-keeps :
      (s : Statement) (t : Table)
      → IsConsistent t
      → find? (has_id i) t ≡ some j
      → find? (has_id i) (exec s t) ≡ some j
  unfolding exec heartbeat_export_job
  exec-keeps (enqueue id now dataset format filters config owner) t c h =
      enqueue-keeps id now dataset format filters config owner t h
  exec-keeps (claim locked now worker) t c h = claim-keeps locked now worker t c h
  exec-keeps (set_status k u worker clock now) t c h = status-keeps k u worker clock now t h
  exec-keeps (heartbeat k worker now) t c h =
      find?-update_keep (has_id i) (held_by k worker) (beaten now) (λ x. refl) t h (ground arith)

  run-keeps :
      (ss : List Statement) (t : Table)
      → IsConsistent t
      → find? (has_id i) t ≡ some j
      → find? (has_id i) (run ss t) ≡ some j
  unfolding run
  run-keeps [] t c h = h
  run-keeps (s ∷ ss) t c h = run-keeps ss (exec s t) (exec-IsConsistent s t c) (exec-keeps s t c h)

-- In a consistent table, the row of a job that is completed or failed is never changed again, by
-- any sequence of statements.
pub ended_export_frozen :
    (i : ℕ) (j : ExportJob) (ss : List Statement) (t : Table)
    → IsConsistent t
    → get_export_job i t ≡ some j
    → is_terminal j.status ≡ true
    → get_export_job i (run ss t) ≡ some j
unfolding get_export_job
ended_export_frozen i j ss t c h e = run-keeps i j e ss t c h

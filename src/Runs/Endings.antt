-- ===== src/Runs/Endings.antt =====
-- How a materialization run ends.
use spectraplex.Base.{
  ℕ, ℤ, String, true, ◌&&◌, ◌||◌, ◌≡◌, refl, ◌∙◌, Option, some, List, [], ◌∷◌, arith, inl, inr,
  is_some, Bool-cases, any, find?, find?-append, find?-update_keep, All, All-update, All-append,
}
use spectraplex.Runs.{
  MaterializationRun, Table, has_id, claimable, held_by, is_terminal, is_pending,
  claim_materialization_run, heartbeat_materialization_run, complete_materialization_run,
  fail_materialization_run, create_materialization_run, get_materialization_run, taken, beaten,
  completing, failing, new_run, Statement, create, claim, heartbeat, complete, fail, exec, run,
}

module _ (i : ℕ) (r : MaterializationRun) (ended : is_terminal r.status ≡ true) where
  create-keeps :
      (id now : ℕ) (name : String) (scope : Option String) (mark : Option ℤ) (version : Option ℕ)
      (worker : Option String) (t : Table)
      → find? (has_id i) t ≡ some r
      → find? (has_id i) (create_materialization_run id now name scope mark version worker t).1
        ≡ some r
  unfolding create_materialization_run
  create-keeps id now name scope mark version worker t h = elim (Bool-cases (any (has_id id) t)) [
    | inl e ↦ rw e h
    | inr e ↦
        rw e (find?-append (has_id i) t (new_run id now name scope mark version worker ∷ []) ∙ rw h)
  ]

  exec-keeps :
      (s : Statement) (t : Table)
      → find? (has_id i) t ≡ some r
      → find? (has_id i) (exec s t) ≡ some r
  unfolding exec claim_materialization_run heartbeat_materialization_run
      complete_materialization_run fail_materialization_run
  exec-keeps (create id now name scope mark version worker) t h =
      create-keeps id now name scope mark version worker t h
  exec-keeps (claim k worker now) t h =
      find?-update_keep (has_id i) (λ x. has_id k x && claimable now x) (taken now worker)
        (λ x. refl) t h (ground arith)
  exec-keeps (heartbeat k worker now) t h =
      find?-update_keep (has_id i) (held_by k worker) (beaten now) (λ x. refl) t h (ground arith)
  exec-keeps (complete k worker n now) t h =
      find?-update_keep (has_id i) (held_by k worker) (completing now n) (λ x. refl) t h
        (ground arith)
  exec-keeps (fail k worker error now) t h =
      find?-update_keep (has_id i) (held_by k worker) (failing now error) (λ x. refl) t h
        (ground arith)

  run-keeps :
      (ss : List Statement) (t : Table)
      → find? (has_id i) t ≡ some r
      → find? (has_id i) (run ss t) ≡ some r
  unfolding run
  run-keeps [] t h = h
  run-keeps (s ∷ ss) t h = run-keeps ss (exec s t) (exec-keeps s t h)

-- The row of a run that is completed or failed is never changed again, by any sequence of
-- statements.
ended_run_frozen :
    (i : ℕ) (r : MaterializationRun) (ss : List Statement) (t : Table)
    → get_materialization_run i t ≡ some r
    → is_terminal r.status ≡ true
    → get_materialization_run i (run ss t) ≡ some r
unfolding get_materialization_run
ended_run_frozen i r ss t h e = run-keeps i r e ss t h

-- A run has an end time exactly when it has ended, and a run that was ever started has a start
-- time.
abbrev pub IsStamped : MaterializationRun → Type 0
IsStamped r =
    (is_some r.finished_at ≡ is_terminal r.status)
    × ((is_pending r.status || is_some r.started_at) ≡ true)

create-IsStamped :
    (id now : ℕ) (name : String) (scope : Option String) (mark : Option ℤ) (version : Option ℕ)
    (worker : Option String) (t : Table)
    → All IsStamped t
    → All IsStamped (create_materialization_run id now name scope mark version worker t).1
unfolding create_materialization_run
create-IsStamped id now name scope mark version worker t h = elim (Bool-cases (any (has_id id) t)) [
  | inl e ↦ rw e h
  | inr e ↦ rw e (All-append IsStamped t _ h ((refl, refl), tt))
]

exec-IsStamped : (s : Statement) (t : Table) → All IsStamped t → All IsStamped (exec s t)
unfolding exec claim_materialization_run heartbeat_materialization_run complete_materialization_run
    fail_materialization_run
exec-IsStamped (create id now name scope mark version worker) t h =
    create-IsStamped id now name scope mark version worker t h
exec-IsStamped (claim k worker now) t h =
    All-update IsStamped (λ x. has_id k x && claimable now x) (taken now worker) t
      (λ x m e g. (ground (arith, g.0), ground arith)) h
exec-IsStamped (heartbeat k worker now) t h =
    All-update IsStamped (held_by k worker) (beaten now) t (λ x m e g. g) h
exec-IsStamped (complete k worker n now) t h =
    All-update IsStamped (held_by k worker) (completing now n) t
      (λ x m e g. (refl, ground (arith, g.1))) h
exec-IsStamped (fail k worker error now) t h =
    All-update IsStamped (held_by k worker) (failing now error) t
      (λ x m e g. (refl, ground (arith, g.1))) h

-- Every sequence of statements keeps this of every row: it has an end time exactly when the run is
-- completed or failed, and a start time unless the run is pending.
run-IsStamped : (ss : List Statement) (t : Table) → All IsStamped t → All IsStamped (run ss t)
unfolding run
run-IsStamped [] t h = h
run-IsStamped (s ∷ ss) t h = run-IsStamped ss (exec s t) (exec-IsStamped s t h)

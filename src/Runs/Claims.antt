-- ===== src/Runs/Claims.antt =====
-- Who claims a materialization run, and when.
use spectraplex.Base.{
  ℕ, ◌+◌, ◌≤◌, ℤ, String, Bool, true, false, ◌&&◌, ◌≡◌, refl, Option, List, [], ◌∷◌, arith, inl,
  inr, str_eq, Bool-cases, In-take, In-sort_by, any, count, In, any-In, select-In,
  any-update_unique, any-update-false, any-append, update_where_none,
}
use spectraplex.Runs.{
  MaterializationRun, Table, has_id, claimable, held_by, stale_seconds, claim_materialization_run,
  heartbeat_materialization_run, complete_materialization_run, fail_materialization_run,
  create_materialization_run, list_claimable_materialization_runs, created_before, taken, beaten,
  completing, failing, new_run, Statement, create, claim, heartbeat, complete, fail, exec, run,
}

claim_of_row :
    (i : ℕ) (worker : String) (now : ℕ) (t : Table) {r : MaterializationRun}
    → In r t
    → r.id ≡ i
    → claimable now r ≡ true
    → (claim_materialization_run i worker now t).0 ≡ true
unfolding claim_materialization_run
claim_of_row i worker now t m e c =
    any-In (λ r. has_id i r && claimable now r) m (ground (arith, e, c))

-- Every run that is listed as claimable can be claimed at that moment, by any worker.
listed_run_can_be_claimed :
    (now limit : ℕ) (worker : String) (t : Table) {r : MaterializationRun}
    → In r (list_claimable_materialization_runs now limit t)
    → (claim_materialization_run r.id worker now t).0 ≡ true
unfolding list_claimable_materialization_runs
listed_run_can_be_claimed now limit worker t {r} m =
    let (row, c) = select-In (claimable now) t (In-sort_by created_before _ (In-take limit _ m)) in
    claim_of_row r.id worker now t row refl c

-- No row with id `i` could be claimed at `later`.
abbrev open_at : ℕ → ℕ → MaterializationRun → Bool
open_at i later r = has_id i r && claimable later r

claimed_not_open :
    (i : ℕ) (v : String) (now later : ℕ) (t : Table)
    → count (has_id i) t ≤ 1
    → (claim_materialization_run i v now t).0 ≡ true
    → later ≤ now + stale_seconds
    → any (open_at i later) (claim_materialization_run i v now t).1 ≡ false
unfolding claim_materialization_run
claimed_not_open i v now later t c took l =
    any-update_unique (has_id i) (claimable now) (open_at i later) (taken now v)
      (λ x e. ground arith) (λ x e. ground arith) t c took

-- In a table with at most one row of the id: of two claims of a run within five minutes, with
-- nothing between them, the second fails and changes nothing, whoever makes it.
run_claimed_once :
    (i : ℕ) (v w : String) (now later : ℕ) (t : Table)
    → count (has_id i) t ≤ 1
    → (claim_materialization_run i v now t).0 ≡ true
    → later ≤ now + stale_seconds
    → let after = (claim_materialization_run i v now t).1 in
      claim_materialization_run i w later after ≡ (false, after)
unfolding claim_materialization_run
run_claimed_once i v w now later t c took l =
    let after = (claim_materialization_run i v now t).1 in
    update_where_none (open_at i later) (taken later w) after
      (claimed_not_open i v now later t c took l)

-- No claim by `w`.
abbrev pub claims_by : String → Statement → Bool
claims_by w (claim i worker now) = str_eq worker w
claims_by w _ = false

create-disowns :
    (j : ℕ) (w : String) (id now : ℕ) (name : String) (scope : Option String) (mark : Option ℤ)
    (version : Option ℕ) (worker : Option String) (t : Table)
    → any (held_by j w) t ≡ false
    → any (held_by j w) (create_materialization_run id now name scope mark version worker t).1
      ≡ false
unfolding create_materialization_run
create-disowns j w id now name scope mark version worker t h =
    let add = any-append (held_by j w) t (new_run id now name scope mark version worker ∷ []) in
    elim (Bool-cases (any (has_id id) t)) [ inl d ↦ rw d h | inr d ↦ rw d (ground (arith, add)) ]

exec-disowns :
    (j : ℕ) (w : String) (s : Statement) (t : Table)
    → claims_by w s ≡ false
    → any (held_by j w) t ≡ false
    → any (held_by j w) (exec s t) ≡ false
unfolding exec
exec-disowns j w (create id now name scope mark version worker) t n h =
    create-disowns j w id now name scope mark version worker t h
exec-disowns j w (claim i worker now) t n h =
    any-update-false (held_by j w) (open_at i now) (taken now worker) (λ x _ e. ground (arith, n)) t
      h
exec-disowns j w (heartbeat i worker now) t n h =
    any-update-false (held_by j w) (held_by i worker) (beaten now) (λ x _ e. e) t h
exec-disowns j w (complete i worker k now) t n h =
    any-update-false (held_by j w) (held_by i worker) (completing now k) (λ x _ e. ground arith) t h
exec-disowns j w (fail i worker error now) t n h =
    any-update-false (held_by j w) (held_by i worker) (failing now error) (λ x _ e. ground arith) t
      h

run-disowns :
    (j : ℕ) (w : String) (ss : List Statement) (t : Table)
    → any (claims_by w) ss ≡ false
    → any (held_by j w) t ≡ false
    → any (held_by j w) (run ss t) ≡ false
unfolding run
run-disowns j w [] t n h = h
run-disowns j w (s ∷ ss) t n h =
    run-disowns j w ss (exec s t) (ground arith) (exec-disowns j w s t (ground arith) h)

-- In a table with at most one row of the id: once another worker has claimed a run, the earlier worker's heartbeat, completion and failure
-- report fail and change nothing, whatever runs in between, until it makes a claim.
pub reclaimed_run_fenced :
    (i : ℕ) (v w error : String) (k : ℤ) (now later : ℕ) (t : Table) (ss : List Statement)
    → count (has_id i) t ≤ 1
    → (claim_materialization_run i v now t).0 ≡ true
    → str_eq v w ≡ false
    → any (claims_by w) ss ≡ false
    → let after = run ss (claim_materialization_run i v now t).1 in
      (heartbeat_materialization_run i w later after ≡ (false, after))
      × (complete_materialization_run i w k later after ≡ (false, after))
      × (fail_materialization_run i w error later after ≡ (false, after))
unfolding claim_materialization_run heartbeat_materialization_run complete_materialization_run
    fail_materialization_run
reclaimed_run_fenced i v w error k now later t ss c took n q =
    let start = (claim_materialization_run i v now t).1 in
    let gone : any (held_by i w) start ≡ false =
      any-update_unique (has_id i) (claimable now) (held_by i w) (taken now v)
        (λ x e. ground (arith, n)) (λ x e. ground arith) t c took in
    let lost = run-disowns i w ss start q gone in
    (
      update_where_none (held_by i w) (beaten later) (run ss start) lost,
      update_where_none (held_by i w) (completing later k) (run ss start) lost,
      update_where_none (held_by i w) (failing later error) (run ss start) lost,
    )

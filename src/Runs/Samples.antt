-- ===== src/Runs/Samples.antt =====
-- One materialization run and its claims, and the theorems at that input.
use spectraplex.Base.{pos, true, false, ◌≡◌, refl, none, [], ◌∷◌, arith, sort_by}
use spectraplex.Runs.{
  MaterializationRun, Table, new_run, taken, completing, claim_materialization_run,
  heartbeat_materialization_run, complete_materialization_run, fail_materialization_run,
  get_materialization_run, list_claimable_materialization_runs, heartbeat, exec, run,
}
use spectraplex.Runs.Claims.{reclaimed_run_fenced}

abbrev fresh : MaterializationRun
fresh = new_run 1 100 "token_transfers" none none none none

abbrev table : Table
table = fresh ∷ []

abbrev taken_table : Table
taken_table = taken 110 "w1" fresh ∷ []

abbrev done : MaterializationRun
done = completing 130 (pos 5) (taken 110 "w1" fresh)

program : Unit {0}
unfolding claim_materialization_run heartbeat_materialization_run complete_materialization_run
    fail_materialization_run get_materialization_run list_claimable_materialization_runs exec run
    sort_by
program = tt

complete_taken : complete_materialization_run 1 "w1" (pos 5) 130 taken_table ≡ (true, done ∷ [])
unfolding program
complete_taken = refl

reclaimed_run_fenced_example :
    let after =
      run (heartbeat 1 "w2" 520 ∷ []) (claim_materialization_run 1 "w2" 510 taken_table).1 in
    (heartbeat_materialization_run 1 "w1" 530 after ≡ (false, after))
    × (complete_materialization_run 1 "w1" (pos 5) 530 after ≡ (false, after))
    × (fail_materialization_run 1 "w1" "late" 530 after ≡ (false, after))
unfolding program
reclaimed_run_fenced_example =
    reclaimed_run_fenced 1 "w2" "w1" "late" (pos 5) 510 530 taken_table (heartbeat 1 "w2" 520 ∷ [])
      (omega arith) refl refl refl

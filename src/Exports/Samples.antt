-- ===== src/Exports/Samples.antt =====
-- One export job, its claims and its completion, and the theorems at that input.
use spectraplex.Base.{
  ℕ, pos, Bool, true, false, ◌≡◌, refl, none, some, List, [], ◌∷◌, arith, first_by,
}
use spectraplex.Dataset.{token_transfers}
use spectraplex.Exports.{
  ExportJob, csv, Table, ExportUpdate, claimable, candidates, oldest, new_job, taken, updated,
  completed, claim_export_job, update_export_job_status, check_status, heartbeat_export_job,
  get_export_job, Statement, claim, set_status, heartbeat, exec, run,
}
use spectraplex.Exports.Claims.{reclaimed_export_fenced}
use spectraplex.Exports.Lifecycle.{IsConsistent, exports-IsConsistent, ended_export_frozen}

abbrev fresh : ExportJob
fresh = new_job 1 100 token_transfers csv none none (some 7)

abbrev table : Table
table = fresh ∷ []

abbrev unlocked : ℕ → Bool
unlocked i = false

abbrev taken_table : Table
taken_table = taken "w1" 110 fresh ∷ []

abbrev finished : ExportUpdate
finished = record {
  status = "completed";
  record_count = some (pos 12);
  result_location = some "/exports/1.csv";
  error_message = none;
  delivery_destination = none;
  dataset_version_id = none;
  dataset_version = none;
  completeness_status = none;
  completeness_coverage = none;
  last_ingestion_run_id = none;
}

abbrev done : ExportJob
done = updated completed finished 130 131 (taken "w1" 110 fresh)

program : Unit {0}
unfolding claim_export_job update_export_job_status check_status heartbeat_export_job get_export_job
    claimable candidates oldest first_by exec run
program = tt

claim_fresh : claim_export_job unlocked 110 "w1" table ≡ (some (taken "w1" 110 fresh), taken_table)
unfolding program
claim_fresh = refl

complete_taken :
    update_export_job_status 1 finished "w1" 130 131 taken_table ≡ (some true, done ∷ [])
unfolding program
complete_taken = refl

reclaimed_export_fenced_example :
    let after =
      run (heartbeat 1 "w2" 520 ∷ []) (claim_export_job unlocked 510 "w2" taken_table).1 in
    (update_export_job_status 1 finished "w1" 530 531 after ≡ (some false, after))
    × (heartbeat_export_job 1 "w1" 531 after ≡ (false, after))
unfolding program
reclaimed_export_fenced_example =
    reclaimed_export_fenced unlocked 510 530 531 "w2" "w1" finished taken_table
      (heartbeat 1 "w2" 520 ∷ []) {j = record (taken "w2" 510 fresh) { started_at = some 110 }} refl
      refl refl

table-IsConsistent : IsConsistent table
table-IsConsistent = record {
  ids = λ i. ground arith;
  rows = (record { completion = refl; leased = λ h. cc }, tt);
}

abbrev life : List Statement
life = claim unlocked 110 "w1" ∷ set_status 1 finished "w1" 130 131 ∷ []

exports-IsConsistent_example : IsConsistent (run life table)
exports-IsConsistent_example = exports-IsConsistent life table table-IsConsistent

done-IsConsistent : IsConsistent (done ∷ [])
done-IsConsistent = record {
  ids = λ i. ground arith;
  rows = (record { completion = refl; leased = λ h. cc }, tt);
}

ended_export_frozen_example :
    get_export_job 1 (run (claim unlocked 900 "w2" ∷ heartbeat 1 "w1" 901 ∷ []) (done ∷ []))
    ≡ some done
unfolding program
ended_export_frozen_example =
    ended_export_frozen 1 done (claim unlocked 900 "w2" ∷ heartbeat 1 "w1" 901 ∷ []) (done ∷ [])
      done-IsConsistent refl refl

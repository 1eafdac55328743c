-- ===== src/Completeness/Samples.antt =====
-- Two windows of one dataset, and the theorems at that input.
use spectraplex.Base.{pos, ◌≡◌, refl, none, some, [], ◌∷◌, map}
use spectraplex.Target.Codec.{partial, complete}
use spectraplex.Completeness.{
  DatasetCompleteness, CompletedRun, lower, upper, merged_status, merge, after_run,
  upsert_dataset_completeness, update_completeness_after_run,
}
use spectraplex.Completeness.Windows.{window, promotion_covers_reported, runs_commute}

abbrev early : DatasetCompleteness
early = record {
  id = 1;
  target_id = 7;
  dataset_name = "token_transfers";
  dataset_version_id = some 3;
  network = "solana-mainnet";
  status = partial;
  coverage_start = some (pos 100);
  coverage_end = some (pos 200);
  block_start = none;
  block_end = none;
  last_ingestion_run_id = none;
  records_count = pos 5;
  gap_ranges = none;
  notes = none;
  created_at = 10;
  updated_at = 10;
}

abbrev whole : DatasetCompleteness
whole = record early {
  id = 2;
  status = complete;
  coverage_start = some (pos 50);
  coverage_end = some (pos 300);
}

abbrev narrow : DatasetCompleteness
narrow = record whole { coverage_start = some (pos 150) }

abbrev run_a : CompletedRun
run_a = record {
  target_id = 7;
  dataset_name = "token_transfers";
  network = "solana-mainnet";
  status = partial;
  coverage_start = some (pos 90);
  coverage_end = some (pos 120);
  block_start = none;
  block_end = none;
  records_count = pos 6;
  ingestion_run_id = 40;
}

abbrev run_b : CompletedRun
run_b = record run_a {
  coverage_start = some (pos 180);
  coverage_end = some (pos 260);
  ingestion_run_id = 41;
}

program : Unit {0}
unfolding lower upper merged_status merge after_run upsert_dataset_completeness
    update_completeness_after_run
program = tt

narrow_stays_partial :
    map (λ (r : DatasetCompleteness). r.status) (upsert_dataset_completeness narrow (early ∷ []))
    ≡ partial ∷ []
unfolding program
narrow_stays_partial = refl

promotion_covers_reported_example : window (merge whole early) ≡ window whole
unfolding program
promotion_covers_reported_example = promotion_covers_reported early whole refl refl refl

runs_commute_example :
    map window
      (update_completeness_after_run 21 run_b (update_completeness_after_run 20 run_a (early ∷ [])))
    ≡ map window (
        update_completeness_after_run 21 run_a
          (update_completeness_after_run 20 run_b (early ∷ [])))
runs_commute_example = runs_commute 20 21 run_a run_b (early ∷ [])

-- ===== src/Target/Samples.antt =====
-- Concrete targets, and the theorems at those inputs.
use spectraplex.Base.{◌≡◌, ◌↔◌, refl, some, [], ◌∷◌}
use spectraplex.Target.{
  IndexTarget, solana, evm, contract, wallet, backfill, address_required, bad_from_block,
  validate_target,
}
use spectraplex.Target.Validation.{IsWellFormed, validate_target_exact}

abbrev good : IndexTarget
good = record {
  kind = contract;
  network = "ethereum-mainnet";
  chain_family = evm;
  address = some "0xabc";
  filter_spec = some (record { from_block = some (some 100) });
  mode = backfill;
}

abbrev bad : IndexTarget
bad = record good { kind = wallet; chain_family = solana; address = some "" }

bad_reports_both : validate_target bad ≡ address_required ∷ bad_from_block ∷ []
unfolding validate_target
bad_reports_both = refl

validate_target_exact_example : (validate_target good ≡ []) ↔ IsWellFormed good
validate_target_exact_example = validate_target_exact good

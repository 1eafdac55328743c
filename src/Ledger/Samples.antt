-- ===== src/Ledger/Samples.antt =====
-- A Solana transaction with a fee and a transfer, and the theorems at that input.
use spectraplex.Base.{
  ℤ, pos, negsuc, ltb_ℤ, eqb_ℤ, ◌==◌, true, false, ◌≡◌, refl, none, some, [], ◌∷◌, map, str_eq,
  if◌then◌else◌,
}
use spectraplex.Base.Int.{◌-ℤ◌, ◌*ℤ◌}
use spectraplex.Target.{solana_chain, family_of_chain}
use spectraplex.Ledger.{
  Outside, fee, transfer, LedgerEntry, SilverRecords, normalize_address_for_comparison,
  deterministic_id, entry, push_entry, token_transfer_step, native_delta_step,
  derive_ledger_from_token_transfers, derive_ledger_from_native_balance_deltas, derive_for_family,
  derive_all_ledger_entries,
}
use spectraplex.Ledger.Numbering.{IsEntryAt, entries_numbered}
use spectraplex.Ledger.Postings.{posting_of, expected_postings, ledger_postings_exact}

-- Integers for amounts, and a table for the texts and ids that occur.
abbrev outside : Outside
outside = record {
  BigDecimal = ℤ;
  zero = pos 0;
  neg = λ a. pos 0 -ℤ a;
  times = λ a b. a *ℤ b;
  equal = eqb_ℤ;
  above = λ a b. ltb_ℤ b a;
  new_v5 = λ s. if str_eq s "9:0" then 900 else if str_eq s "9:1" then 901 else 0;
  uuid_text = λ n. "9";
  number_text = λ n. if n == 0 then "0" else if n == 1 then "1" else "2";
  to_lowercase = λ s. s;
}

abbrev records : SilverRecords ℤ
records = record {
  token_transfers =
      record {
        token_address = "mint";
        token_symbol = some "USDC";
        from_address = "alice";
        to_address = "bob";
        amount = pos 7;
      }
      ∷ record {
        token_address = "mint";
        token_symbol = none;
        from_address = "carol";
        to_address = "bob";
        amount = pos 9;
      }
      ∷ [];
  native_balance_deltas =
      record {
        account_address = "alice";
        native_token = "SOL";
        delta = negsuc 4;
        is_fee_payer = true;
      }
      ∷ record {
        account_address = "bob";
        native_token = "SOL";
        delta = pos 5;
        is_fee_payer = false;
      }
      ∷ [];
  hl_fills = [];
  hl_funding = [];
}

program : Unit {0}
unfolding normalize_address_for_comparison deterministic_id push_entry token_transfer_step
    native_delta_step derive_ledger_from_token_transfers derive_ledger_from_native_balance_deltas
    derive_for_family derive_all_ledger_entries family_of_chain ◌-ℤ◌
program = tt

abbrev fee_entry : LedgerEntry ℤ
fee_entry = entry outside "alice" 1 9 0 "SOL" (negsuc 4) fee none

abbrev transfer_entry : LedgerEntry ℤ
transfer_entry = entry outside "alice" 1 9 1 "USDC" (negsuc 6) transfer none

derived :
    derive_all_ledger_entries outside "alice" 1 9 solana_chain records
    ≡ fee_entry ∷ transfer_entry ∷ []
unfolding program
derived = refl

entries_numbered_example : IsEntryAt outside "alice" 1 9 1 transfer_entry
unfolding program
entries_numbered_example = entries_numbered outside "alice" 1 9 solana_chain records 1 refl

ledger_postings_exact_example :
    map posting_of (derive_all_ledger_entries outside "alice" 1 9 solana_chain records)
    ≡ expected_postings outside "alice" 1 9 (family_of_chain solana_chain) records
ledger_postings_exact_example = ledger_postings_exact outside "alice" 1 9 solana_chain records

-- ===== src/Gold/Samples.antt =====
-- A wallet with a token transfer, a Solana fee and an EVM payment, and the theorems at these records.
use spectraplex.Base.{
  ℕ, ◌<◌, ◌≤◌, ◌^◌, ℤ, pos, negsuc, ltb_ℤ, eqb_ℤ, ◌≡◌, refl, some, none, [], ◌∷◌, map,
  if◌then◌else◌, length, arith,
}
use spectraplex.Base.Int.{◌+ℤ◌, ◌-ℤ◌, ◌*ℤ◌, +ℤ_comm, +ℤ_assoc}
use spectraplex.Csv.{codes}
use spectraplex.Gold.{
  Outside, RawTransaction, Silver, raw_tx_of, normalize_address_for_comparison, transfer_records,
  native_fee, native_records, fill_record, cash_records, funding_record,
}
use spectraplex.Gold.Flows.{
  strip_0x, hex_digits, hex_to_bigdecimal, value_flows, gas_flows, native_flows, sum, sum_from,
  evm_native, ledger_records,
}
use spectraplex.Gold.Events.{
  transfer_events, native_events, balance_events, materialize_gold_from_silver,
}
use spectraplex.Gold.Totals.{IsGroup, ledger_total, event_total}
use spectraplex.Gold.Reconciled.{ledger_reconciled}
use spectraplex.Gold.Hex.{ReadsDigits, hex_value, hex_to_bigdecimal-bounded}
use spectraplex.Gold.Tax.{tax_row}
use spectraplex.Gold.Netting.{HasAbs, net_total, asset_total, tax_export_nets}

-- Integers for amounts, which no division changes, and no texts or ids of interest.
abbrev outside : Outside
outside = record {
  BigDecimal = ℤ;
  zero = pos 0;
  plus = λ a b. a +ℤ b;
  minus = λ a b. a -ℤ b;
  neg = λ a. pos 0 -ℤ a;
  abs = λ a. if ltb_ℤ a (pos 0) then pos 0 -ℤ a else a;
  times = λ a b. a *ℤ b;
  divide = λ a b. a;
  from_nat = λ n. pos n;
  equal = eqb_ℤ;
  below = ltb_ℤ;
  new_v5 = λ s. 0;
  uuid_text = λ n. "0";
  integer_text = λ n. "0";
  to_lowercase = λ s. s;
  date_text = λ t. "";
  to_seconds = λ t. t;
}

outside-IsGroup : IsGroup outside
unfolding ◌+ℤ◌ ◌-ℤ◌
outside-IsGroup = record {
  plus_assoc = +ℤ_assoc;
  plus_comm = +ℤ_comm;
  zero_plus = λ a. ground arith;
  plus_neg = λ a. ground arith;
  equal_sound = λ a b h. ground arith;
}

outside-HasAbs : HasAbs outside
outside-HasAbs = record { abs_negative = λ a h. ground arith }

outside-ReadsDigits : ReadsDigits outside
unfolding ◌+ℤ◌ ◌*ℤ◌
outside-ReadsDigits = record { zero_from = refl; digit_step = λ n d. ground arith }

abbrev evm_raw : RawTransaction
evm_raw = record {
  id = 5;
  network = "ethereum-mainnet";
  tx_hash = "0x5";
  timestamp = pos 50;
  raw_metadata = record {
    meta_fee = none;
    from_ = some "0xA";
    to_ = some "0xb";
    status = some "0x1";
    value = some "0x1f";
    gas_used = some "0x2";
    effective_gas_price = some "0x3";
  };
}

abbrev silver : Silver ℤ
silver = record {
  raw_txs = evm_raw ∷ [];
  token_transfers =
      record {
        raw_transaction_id = some 5;
        network = "ethereum-mainnet";
        token_address = "0xt";
        token_symbol = some "ETH";
        from_address = "0xc";
        to_address = "0xa";
        amount = pos 7;
        decimals = pos 18;
        transfer_index = pos 0;
      }
      ∷ [];
  native_deltas = [];
  hl_fills = [];
  hl_funding = [];
}

program : Unit {0}
unfolding ◌+ℤ◌ ◌-ℤ◌ ◌*ℤ◌ raw_tx_of normalize_address_for_comparison transfer_records native_fee
    native_records fill_record cash_records funding_record hex_digits hex_to_bigdecimal value_flows
    gas_flows native_flows sum_from sum evm_native ledger_records transfer_events native_events
    balance_events materialize_gold_from_silver tax_row
program = tt

-- 7 received, 31 sent and 6 for the gas.
ledger_amounts :
    map (λ r. r.amount) (materialize_gold_from_silver outside "0xa" none silver).0
    ≡ pos 7 ∷ negsuc 30 ∷ negsuc 5 ∷ []
unfolding program
ledger_amounts = refl

ledger_reconciled_example :
    ledger_total outside "ethereum-mainnet" "ETH"
      (materialize_gold_from_silver outside "0xa" none silver).0
    ≡ event_total outside "ethereum-mainnet" "ETH"
        (materialize_gold_from_silver outside "0xa" none silver).1
ledger_reconciled_example =
    ledger_reconciled outside "ethereum-mainnet" "ETH" outside-IsGroup "0xa" none silver
      (record { other_kind = refl; no_fills = tt; no_funding = tt })

tax_export_nets_example :
    net_total outside "ETH"
      (map (tax_row outside) (materialize_gold_from_silver outside "0xa" none silver).0)
    ≡ asset_total outside "ETH" (materialize_gold_from_silver outside "0xa" none silver).0
tax_export_nets_example =
    tax_export_nets outside "ETH" outside-IsGroup outside-HasAbs "0xa" none silver

hex_to_bigdecimal-bounded_example :
    ((v : ℕ)
      → length (strip_0x (codes "0x1f")) ≤ 64
      → hex_value (strip_0x (codes "0x1f")) ≡ some v
      → (hex_to_bigdecimal outside (codes "0x1f") ≡ some (pos v)) × (v < 2 ^ 256))
    × (64 < length (strip_0x (codes "0x1f")) → hex_to_bigdecimal outside (codes "0x1f") ≡ none)
    × (hex_value (strip_0x (codes "0x1f")) ≡ none → hex_to_bigdecimal outside (codes "0x1f") ≡ none)
hex_to_bigdecimal-bounded_example =
    hex_to_bigdecimal-bounded outside outside-ReadsDigits (codes "0x1f")

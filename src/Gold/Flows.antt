-- ===== src/Gold/Flows.antt =====
-- The native flows of an EVM transaction (native_flows and hex_to_bigdecimal of
-- adapters/src/evm_parser.rs), and the wallet's ledger with them (adapters/src/dual_write.rs).
use text.Mathlib.Text.{starts_with}
use spectraplex.Base.{
  ℕ, ◌+◌, ◌-◌, String, Bool, true, false, ◌&&◌, not, Option, none, some, List, [], ◌∷◌, ◌++◌, map,
  leb, ◌==◌, if◌then◌else◌, str_eq, concat_map, length, is_some,
}
use spectraplex.Csv.{codes}
use spectraplex.Gold.{
  Outside, RawTransaction, RawMetadata, Silver, WalletLedgerRecord, format, wallet_norm, when,
  eqb_Bool, transfer_records, native_records, fill_record, cash_records, funding_record,
}

abbrev pub ascii_lowercase : ℕ → ℕ
ascii_lowercase c = if leb b'A' c && leb c b'Z' then c + 32 else c

abbrev pub eqb_codes : List ℕ → List ℕ → Bool
eqb_codes [] [] = true
eqb_codes [] (d ∷ t) = false
eqb_codes (c ∷ s) [] = false
eqb_codes (c ∷ s) (d ∷ t) = c == d && eqb_codes s t

-- `value.as_str().is_some_and(|v| v.eq_ignore_ascii_case(wallet))`
abbrev pub is_ignoring_case : Option String → String → Bool
is_ignoring_case none wallet = false
is_ignoring_case (some v) wallet =
    eqb_codes (map ascii_lowercase (codes v)) (map ascii_lowercase (codes wallet))

-- `ch.to_digit(16)`
abbrev pub to_digit : ℕ → Option ℕ
to_digit c =
    if leb b'0' c && leb c b'9'
    then some (c - b'0')
    else if leb b'a' c && leb c b'f'
    then some (c - b'a' + 10)
    else if leb b'A' c && leb c b'F'
    then some (c - b'A' + 10)
    else none

-- `hex.strip_prefix("0x").unwrap_or(hex)`
abbrev pub strip_0x : List ℕ → List ℕ
strip_0x [] = []
strip_0x (c ∷ []) = c ∷ []
strip_0x (c ∷ d ∷ s) = if c == b'0' && d == b'x' then s else c ∷ d ∷ s

module _ (o : Outside) where
  unfoldable pub hex_digits : List ℕ → o.BigDecimal → Option o.BigDecimal
  hex_digits [] result = some result
  hex_digits (ch ∷ s) result = elim (to_digit ch) [
    | none ↦ none
    | some digit ↦ hex_digits s (o.plus (o.times result (o.from_nat 16)) (o.from_nat digit))
  ]

  -- `none` stands for both errors. A text of more than 64 bytes and at most 64 characters has a
  -- character that is no digit, so that it does not matter which are counted.
  unfoldable pub hex_to_bigdecimal : List ℕ → Option o.BigDecimal
  hex_to_bigdecimal hex =
      let stripped = strip_0x hex in
      if leb (length stripped) 64 then hex_digits stripped o.zero else none

  -- `wei_to_eth`: the divisor is 10 to the 18.
  abbrev pub wei_to_eth : o.BigDecimal → o.BigDecimal
  wei_to_eth wei = o.divide wei (o.from_nat 1000000000000000000)

  abbrev pub Flow : Type 0
  Flow = String × o.BigDecimal

  -- The transfer of the value, if the text is read.
  abbrev pub value_flow : Bool → Option o.BigDecimal → Option (List Flow)
  value_flow sends none = none
  value_flow sends (some wei) =
      let amount = wei_to_eth wei in
      some (
        when (not (o.equal amount o.zero))
          (("transfer", if sends then o.neg amount else amount) ∷ []))

  unfoldable pub value_flows : RawMetadata → Bool → Bool → Option (List Flow)
  value_flows raw sends receives =
      if not (eqb_Bool sends receives)
        && not (elim (raw.status) [ none ↦ false | some s ↦ str_eq s "0x0" ])
      then elim (raw.value) [
        | none ↦ some []
        | some v ↦ value_flow sends (hex_to_bigdecimal (codes v))
      ]
      else some []

  abbrev pub gas_flow : Option o.BigDecimal → Option o.BigDecimal → Option (List Flow)
  gas_flow (some gas) (some price) =
      let fee = wei_to_eth (o.times gas price) in
      some (when (not (o.equal fee o.zero)) (("fee", o.neg fee) ∷ []))
  gas_flow (some gas) none = none
  gas_flow none price = none

  unfoldable pub gas_flows : RawMetadata → Bool → Option (List Flow)
  gas_flows raw sends =
      if sends
      then elim (raw.gas_used) [
        | none ↦ some []
        | some gas ↦ elim (raw.effective_gas_price) [
          | none ↦ some []
          | some price ↦ gas_flow (hex_to_bigdecimal (codes gas)) (hex_to_bigdecimal (codes price))
        ]
      ]
      else some []

  -- `none` stands for the error of a text that is no hexadecimal number.
  unfoldable pub native_flows : RawMetadata → String → Option (List Flow)
  native_flows raw wallet =
      let sends = is_ignoring_case raw.from_ wallet in
      let receives = is_ignoring_case raw.to_ wallet in
      elim (value_flows raw sends receives) [
        | none ↦ none
        | some flows ↦ elim (gas_flows raw sends) [ none ↦ none | some fees ↦ some (flows ++ fees) ]
      ]

  abbrev pub native_asset : RawTransaction → String
  native_asset raw = if starts_with raw.network "hyperevm" then "HYPE" else "ETH"

  -- `flows.iter().map(|(_, amount)| amount.clone()).sum()`
  unfoldable pub sum_from : o.BigDecimal → List Flow → o.BigDecimal
  sum_from acc [] = acc
  sum_from acc ((kind, amount) ∷ flows) = sum_from (o.plus acc amount) flows

  unfoldable pub sum : List Flow → o.BigDecimal
  unfolding sum_from
  sum flows = sum_from o.zero flows

  -- What the loop over the EVM transactions does for one: the records of the ledger, the balance flows
  -- and the failures that it adds.
  pub record EvmNative : Type 0 where
    pub records : List (WalletLedgerRecord o.BigDecimal)
    pub balance_flows : List (RawTransaction × String × o.BigDecimal)
    pub failed : ℕ

  module _ (wallet : String) (version : Option ℕ) (raws : List RawTransaction) where
    abbrev pub flow_record : RawTransaction → Flow → WalletLedgerRecord o.BigDecimal
    flow_record raw (kind, amount) = record {
      id = o.new_v5 (
          format (
            "wl:"
            ∷ wallet_norm o wallet version raws
            ∷ ":"
            ∷ o.uuid_text raw.id
            ∷ ":evm:"
            ∷ kind
            ∷ []));
      raw_transaction_id = some raw.id;
      wallet_address = wallet;
      network = raw.network;
      tx_hash = raw.tx_hash;
      timestamp = raw.timestamp;
      entry_type = kind;
      asset_symbol = native_asset raw;
      amount = amount;
      counterparty_address = none;
      fee_amount = if str_eq kind "fee" then some (o.neg amount) else none;
      fee_asset = if str_eq kind "fee" then some (native_asset raw) else none;
      cost_basis = none;
      proceeds = none;
      dataset_version_id = version;
    }

    abbrev pub evm_outcome : RawTransaction → Option (List Flow) → EvmNative
    evm_outcome raw none = record { records = []; balance_flows = []; failed = 1 }
    evm_outcome raw (some flows) = record {
      records = map (flow_record raw) flows;
      balance_flows =
          when (not (o.equal (sum flows) o.zero)) ((raw, native_asset raw, sum flows) ∷ []);
      failed = 0;
    }

    unfoldable pub evm_native : RawTransaction → EvmNative
    evm_native raw =
        if is_some raw.raw_metadata.from_
        then evm_outcome raw (native_flows raw.raw_metadata wallet)
        else record { records = []; balance_flows = []; failed = 0 }

  unfoldable pub ledger_records :
      String → Option ℕ → Silver o.BigDecimal → List (WalletLedgerRecord o.BigDecimal)
  ledger_records wallet version s =
      concat_map (transfer_records o wallet version s.raw_txs) s.token_transfers
      ++ (concat_map (native_records o wallet version s.raw_txs) s.native_deltas
          ++ (map (fill_record o wallet version s.raw_txs) s.hl_fills
              ++ (concat_map (cash_records o wallet version s.raw_txs) s.hl_fills
                  ++ (map (funding_record o wallet version s.raw_txs) s.hl_funding
                      ++ concat_map (λ raw. (evm_native wallet version s.raw_txs raw).records)
                          s.raw_txs))))

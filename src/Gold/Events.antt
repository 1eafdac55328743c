-- ===== src/Gold/Events.antt =====
-- The balance events of a batch of silver records: the part of materialize_gold_from_silver in
-- adapters/src/dual_write.rs that the recomputation of the balance history starts from.
use spectraplex.Base.{
  ℕ, ℤ, pos, String, Bool, ◌&&◌, not, Option, List, [], ◌∷◌, ◌++◌, map, ltb_ℤ, if◌then◌else◌,
  str_eq, concat_map,
}
use spectraplex.Gold.{
  Outside, RawTransaction, TokenTransfer, NativeBalanceDelta, Silver, WalletLedgerRecord, format,
  raw_of, hash_of, time_or, is_wallet, symbol_of, id_or_nil,
}
use spectraplex.Gold.Flows.{evm_native, ledger_records}

pub record BalanceEvent (D : Type 0) : Type 0 where
  pub network : String
  pub asset : String
  pub timestamp : ℤ
  pub tx_hash : String
  pub delta : D
  pub snapshot_id : ℕ

module _ (o : Outside) where
  abbrev pub balance_snapshot_id : String → String → ℤ → String → ℕ → ℕ
  balance_snapshot_id wallet asset timestamp tx_hash source_id = o.new_v5 (
      format (
        "bh:"
        ∷ wallet
        ∷ ":"
        ∷ asset
        ∷ ":"
        ∷ o.integer_text timestamp
        ∷ ":"
        ∷ tx_hash
        ∷ ":"
        ∷ o.uuid_text source_id
        ∷ []))

  module _ (wallet : String) (version : Option ℕ) (raws : List RawTransaction) where
    abbrev pub transfer_delta : Bool → Bool → o.BigDecimal → o.BigDecimal
    transfer_delta from_match to_match amount =
        if from_match && to_match then o.zero else if from_match then o.neg amount else amount

    unfoldable pub transfer_events : TokenTransfer o.BigDecimal → List (BalanceEvent o.BigDecimal)
    transfer_events t =
        let from_match = is_wallet o wallet version raws t.from_address in
        let to_match = is_wallet o wallet version raws t.to_address in
        let raw_tx = raw_of raws t.raw_transaction_id in
        let asset = symbol_of o wallet version raws t in
        let source_id = o.new_v5 (
          format (
            "transfer:"
            ∷ id_or_nil o t.raw_transaction_id
            ∷ ":"
            ∷ t.token_address
            ∷ ":"
            ∷ t.from_address
            ∷ ":"
            ∷ t.to_address
            ∷ ":"
            ∷ o.integer_text t.transfer_index
            ∷ [])) in
        if ltb_ℤ t.decimals (pos 0)
        then []
        else if not from_match && not to_match
        then []
        else record {
          network = t.network;
          asset = asset;
          timestamp = time_or raw_tx (pos 0);
          tx_hash = hash_of raw_tx;
          delta = transfer_delta from_match to_match t.amount;
          snapshot_id =
              balance_snapshot_id wallet asset (time_or raw_tx (pos 0)) (hash_of raw_tx) source_id;
        }
          ∷ []

    unfoldable pub native_events :
        NativeBalanceDelta o.BigDecimal → List (BalanceEvent o.BigDecimal)
    native_events d =
        let raw_tx = raw_of raws d.raw_transaction_id in
        let source_id = o.new_v5 (
          format (
            "native:"
            ∷ id_or_nil o d.raw_transaction_id
            ∷ ":"
            ∷ d.account_address
            ∷ ":"
            ∷ d.native_token
            ∷ [])) in
        if not (is_wallet o wallet version raws d.account_address)
        then []
        else record {
          network = d.network;
          asset = d.native_token;
          timestamp = time_or raw_tx (pos 0);
          tx_hash = hash_of raw_tx;
          delta = d.delta;
          snapshot_id =
              balance_snapshot_id wallet d.native_token (time_or raw_tx (pos 0)) (hash_of raw_tx)
                source_id;
        }
          ∷ []

    abbrev pub evm_event : RawTransaction × String × o.BigDecimal → BalanceEvent o.BigDecimal
    evm_event (raw, asset, delta) = record {
      network = raw.network;
      asset = asset;
      timestamp = raw.timestamp;
      tx_hash = raw.tx_hash;
      delta = delta;
      snapshot_id = balance_snapshot_id wallet asset raw.timestamp raw.tx_hash raw.id;
    }

  unfoldable pub balance_events :
      String → Option ℕ → Silver o.BigDecimal → List (BalanceEvent o.BigDecimal)
  balance_events wallet version s =
      concat_map (transfer_events wallet version s.raw_txs) s.token_transfers
      ++ (concat_map (native_events wallet version s.raw_txs) s.native_deltas
          ++ concat_map
              (λ raw.
                map (evm_event wallet version s.raw_txs)
                  (evm_native o wallet version s.raw_txs raw).balance_flows)
              s.raw_txs)

  -- The ledger records and the balance events of a call, of which there are none for an empty wallet.
  unfoldable pub materialize_gold_from_silver :
      String
      → Option ℕ
      → Silver o.BigDecimal
      → List (WalletLedgerRecord o.BigDecimal) × List (BalanceEvent o.BigDecimal)
  materialize_gold_from_silver wallet version s =
      if str_eq wallet ""
      then ([], [])
      else (ledger_records o wallet version s, balance_events wallet version s)

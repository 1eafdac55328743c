-- ===== src/Gold/Reconciled.antt =====
-- That the wallet's ledger and its balance events agree.
use spectraplex.Base.{
  ℕ, String, false, ◌≡◌, refl, sym, ◌∙◌, Option, List, ◌++◌, map, All, str_eq, concat_map, inl, inr,
  Bool-cases,
}
use spectraplex.Gold.{
  Outside, Silver, WalletLedgerRecord, is_hyperliquid, transfer_records, native_records,
  fill_record, cash_records, funding_record,
}
use spectraplex.Gold.Flows.{evm_native, ledger_records}
use spectraplex.Gold.Events.{
  transfer_events, native_events, evm_event, balance_events, materialize_gold_from_silver,
}
use spectraplex.Gold.Totals.{
  IsGroup, ledger_total, event_total, in_ledger, in_events, total_by-append, same_totals,
}
use spectraplex.Gold.Sources.{
  sums, transfers_lem, natives_lem, evm_lem, fills_total, cash_total, funding_total,
}

-- No fill and no funding payment is on the network.
pub record HasNoTrading {D : Type 0} (network : String) (s : Silver D) : Type 0 where
  pub other_kind : is_hyperliquid network ≡ false
  pub no_fills : All (λ f. str_eq f.network network ≡ false) s.hl_fills
  pub no_funding : All (λ p. str_eq p.network network ≡ false) s.hl_funding

module _ (o : Outside) (network asset : String) (g : IsGroup o) (wallet : String)
    (version : Option ℕ) (s : Silver o.BigDecimal) where
  open g use {zero_plus}

  totals-append :
      (xs ys : List (WalletLedgerRecord o.BigDecimal))
      → ledger_total o network asset (xs ++ ys)
        ≡ o.plus (ledger_total o network asset xs) (ledger_total o network asset ys)
  totals-append = total_by-append o network asset g (in_ledger o network asset) (λ r. r.amount)

  -- A part of the ledger without amounts, before the rest.
  pass :
      (xs ys : List (WalletLedgerRecord o.BigDecimal))
      → ledger_total o network asset xs ≡ o.zero
      → ledger_total o network asset (xs ++ ys) ≡ ledger_total o network asset ys
  pass xs ys e = totals-append xs ys ∙ sums o network asset g e refl ∙ zero_plus _

  ledger-events :
      HasNoTrading network s
      → ledger_total o network asset (ledger_records o wallet version s)
        ≡ event_total o network asset (balance_events o wallet version s)
  unfolding ledger_records balance_events
  ledger-events h =
      let raws = s.raw_txs in
      let transfers = concat_map (transfer_records o wallet version raws) s.token_transfers in
      let natives = concat_map (native_records o wallet version raws) s.native_deltas in
      let fills = map (fill_record o wallet version raws) s.hl_fills in
      let cash = concat_map (cash_records o wallet version raws) s.hl_fills in
      let funding = map (funding_record o wallet version raws) s.hl_funding in
      let evm = concat_map (λ raw. (evm_native o wallet version raws raw).records) raws in
      let events_append =
        total_by-append o network asset g (in_events o network asset) (λ e. e.delta) in
      totals-append transfers (natives ++ (fills ++ (cash ++ (funding ++ evm))))
      ∙ sums o network asset g
          (same_totals o network asset g (transfer_records o wallet version raws)
            (transfer_events o wallet version raws)
            (transfers_lem o network asset g wallet version raws) s.token_transfers)
          (totals-append natives (fills ++ (cash ++ (funding ++ evm)))
            ∙ sums o network asset g
                (same_totals o network asset g (native_records o wallet version raws)
                  (native_events o wallet version raws)
                  (λ d. natives_lem o network asset g wallet version raws d h.other_kind)
                  s.native_deltas)
                (pass fills (cash ++ (funding ++ evm))
                    (fills_total o network asset g wallet version raws s.hl_fills h.no_fills)
                  ∙ pass cash (funding ++ evm)
                      (cash_total o network asset g wallet version raws s.hl_fills h.no_fills)
                  ∙ pass funding evm (
                      funding_total o network asset g wallet version raws s.hl_funding h.no_funding)
                  ∙ same_totals o network asset g
                      (λ raw. (evm_native o wallet version raws raw).records)
                      (λ raw.
                        map (evm_event o wallet version raws)
                          (evm_native o wallet version raws raw).balance_flows)
                      (evm_lem o network asset g wallet version raws) raws)
            ∙ sym (
                events_append (concat_map (native_events o wallet version raws) s.native_deltas) _))
      ∙ sym (events_append (concat_map (transfer_events o wallet version raws) s.token_transfers) _)

  -- On a network that is not Hyperliquid's and has no fills and funding payments, the amounts that the
  -- wallet's ledger has of an asset sum up to the deltas of its balance events, for any silver records and
  -- wallet.
  pub ledger_reconciled :
      HasNoTrading network s
      → ledger_total o network asset (materialize_gold_from_silver o wallet version s).0
        ≡ event_total o network asset (materialize_gold_from_silver o wallet version s).1
  unfolding materialize_gold_from_silver
  ledger_reconciled h = elim (Bool-cases (str_eq wallet "")) [
    | inl e ↦ rw e refl
    | inr e ↦ rw e (ledger-events h)
  ]

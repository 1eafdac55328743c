-- ===== src/Gold/Fees.antt =====
-- That of the records of a derived ledger only those of fees have a fee amount.
use spectraplex.Base.{
  ℕ, pos, ltb_ℤ, String, false, ◌||◌, not, ◌≡◌, refl, inl, inr, Bool-cases, Option-cases, Option,
  none, some, is_some, List, [], ◌∷◌, map, All, All-append, str_eq, concat_map, unwrap_or,
}
use mathlib.Core.Option
use spectraplex.Gold.{
  Outside, RawTransaction, TokenTransfer, NativeBalanceDelta, HlFillRecord, HlFundingPayment,
  Silver, WalletLedgerRecord, is_hyperliquid, is_wallet, transfer_records, native_fee, native_flow,
  native_records, fill_record, cash_flow, cash_records, funding_record,
}
use spectraplex.Gold.Flows.{Flow, native_flows, flow_record, evm_native, ledger_records}

-- Only a record of a fee has a fee amount.
abbrev pub HasOneFee : {D : Type 0} → WalletLedgerRecord D → Type 0
HasOneFee r = str_eq r.entry_type "fee" ≡ false → r.fee_amount ≡ none

module _ (o : Outside) (wallet : String) (version : Option ℕ) (raws : List RawTransaction) where
  abbrev AllHaveOneFee : List (WalletLedgerRecord o.BigDecimal) → Type 0
  AllHaveOneFee = All HasOneFee

  transfers-HasOneFee :
      (t : TokenTransfer o.BigDecimal) → AllHaveOneFee (transfer_records o wallet version raws t)
  unfolding transfer_records
  transfers-HasOneFee t = elim (Bool-cases (ltb_ℤ t.decimals (pos 0))) [
    | inl d ↦ rw d tt
    | inr d ↦ elim (Bool-cases (is_wallet o wallet version raws t.from_address)) [
      | inl e ↦ elim (Bool-cases (is_wallet o wallet version raws t.to_address)) [
        | inl f ↦ rw (d, e, f) tt
        | inr f ↦ rw (d, e, f) (λ h. refl, tt)
      ]
      | inr e ↦ elim (Bool-cases (is_wallet o wallet version raws t.to_address)) [
        | inl f ↦ rw (d, e, f) (λ h. refl, tt)
        | inr f ↦ rw (d, e, f) tt
      ]
    ]
  ]

  flow-HasOneFee :
      (d : NativeBalanceDelta o.BigDecimal) (fee amount : o.BigDecimal) (kind : String)
      → AllHaveOneFee (native_flow o wallet version raws d fee kind amount)
  flow-HasOneFee d fee amount kind = elim (Bool-cases (o.equal amount o.zero)) [
    | inl e ↦ rw e tt
    | inr e ↦ rw e (λ h. rw h refl, tt)
  ]

  natives-HasOneFee :
      (d : NativeBalanceDelta o.BigDecimal) → AllHaveOneFee (native_records o wallet version raws d)
  unfolding native_records
  natives-HasOneFee d =
      let fee = native_fee o wallet version raws d in
      elim (Bool-cases
        (not (is_wallet o wallet version raws d.account_address) || is_hyperliquid d.network)) [
          | inl e ↦ rw e tt
          | inr e ↦ rw e (
              All-append HasOneFee (native_flow o wallet version raws d fee "transfer" _) _
                (flow-HasOneFee d fee _ "transfer") (flow-HasOneFee d fee _ "fee"))
        ]

  fills-HasOneFee :
      (fills : List (HlFillRecord o.BigDecimal))
      → AllHaveOneFee (map (fill_record o wallet version raws) fills)
  unfolding fill_record
  fills-HasOneFee [] = tt
  fills-HasOneFee (f ∷ fills) = (λ h. refl, fills-HasOneFee fills)

  cash_flow-HasOneFee :
      (f : HlFillRecord o.BigDecimal) (kind asset : String) (amount : Option o.BigDecimal)
      → AllHaveOneFee (cash_flow o wallet version raws f kind amount asset)
  cash_flow-HasOneFee f kind asset none = tt
  cash_flow-HasOneFee f kind asset (some amount) = elim (Bool-cases (o.equal amount o.zero)) [
    | inl e ↦ rw e tt
    | inr e ↦ rw e (λ h. rw h refl, tt)
  ]

  cash-HasOneFee :
      (f : HlFillRecord o.BigDecimal) → AllHaveOneFee (cash_records o wallet version raws f)
  unfolding cash_records
  cash-HasOneFee f =
      let fee = Option.map o.neg f.fee in
      let fee_asset = unwrap_or f.fee_token "USDC" in
      All-append HasOneFee (cash_flow o wallet version raws f "fee" fee fee_asset)
        (cash_flow o wallet version raws f "income" f.closed_pnl "USDC")
        (cash_flow-HasOneFee f "fee" fee_asset fee)
        (cash_flow-HasOneFee f "income" "USDC" f.closed_pnl)

  funding-HasOneFee :
      (payments : List (HlFundingPayment o.BigDecimal))
      → AllHaveOneFee (map (funding_record o wallet version raws) payments)
  unfolding funding_record
  funding-HasOneFee [] = tt
  funding-HasOneFee (p ∷ payments) = (λ h. refl, funding-HasOneFee payments)

  flows-HasOneFee :
      (raw : RawTransaction) (flows : List (Flow o))
      → AllHaveOneFee (map (flow_record o wallet version raws raw) flows)
  flows-HasOneFee raw [] = tt
  flows-HasOneFee raw ((kind, amount) ∷ flows) = (λ h. rw h refl, flows-HasOneFee raw flows)

  evm-HasOneFee :
      (raw : RawTransaction) → AllHaveOneFee (evm_native o wallet version raws raw).records
  unfolding evm_native
  evm-HasOneFee raw = elim (Bool-cases (is_some raw.raw_metadata.from_)) [
    | inr e ↦ rw e tt
    | inl e ↦ elim (Option-cases (native_flows o raw.raw_metadata wallet)) [
      | inl f ↦ rw (e, f) tt
      | inr (flows, f) ↦ rw (e, f) (flows-HasOneFee raw flows)
    ]
  ]

  each-HasOneFee :
      {S : Type 0} (f : S → List (WalletLedgerRecord o.BigDecimal))
      → ((x : S) → AllHaveOneFee (f x))
      → (xs : List S) → AllHaveOneFee (concat_map f xs)
  each-HasOneFee f h [] = tt
  each-HasOneFee f h (x ∷ xs) =
      All-append HasOneFee (f x) (concat_map f xs) (h x) (each-HasOneFee f h xs)

pub ledger-HasOneFee :
    (o : Outside) (wallet : String) (version : Option ℕ) (s : Silver o.BigDecimal)
    → All HasOneFee (ledger_records o wallet version s)
unfolding ledger_records
ledger-HasOneFee o wallet version s =
    let raws = s.raw_txs in
    All-append HasOneFee (concat_map (transfer_records o wallet version raws) s.token_transfers) _
      (each-HasOneFee o wallet version raws _ (transfers-HasOneFee o wallet version raws)
        s.token_transfers)
      (All-append HasOneFee (concat_map (native_records o wallet version raws) s.native_deltas) _
        (each-HasOneFee o wallet version raws _ (natives-HasOneFee o wallet version raws)
          s.native_deltas)
        (All-append HasOneFee (map (fill_record o wallet version raws) s.hl_fills) _
          (fills-HasOneFee o wallet version raws s.hl_fills)
          (All-append HasOneFee (concat_map (cash_records o wallet version raws) s.hl_fills) _
            (each-HasOneFee o wallet version raws _ (cash-HasOneFee o wallet version raws)
              s.hl_fills)
            (All-append HasOneFee (map (funding_record o wallet version raws) s.hl_funding) _
              (funding-HasOneFee o wallet version raws s.hl_funding)
              (each-HasOneFee o wallet version raws _ (evm-HasOneFee o wallet version raws)
                raws)))))

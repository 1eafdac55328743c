-- ===== src/Gold/Sources.antt =====
-- What each kind of silver record adds to the totals of the ledger and of the balance events.
use spectraplex.Base.{
  pos, ℕ, ltb_ℤ, String, Bool, true, false, ◌&&◌, ◌≡◌, refl, sym, ap, ◌∙◌, inl, inr, Bool-cases,
  Option-cases, Option, none, some, is_some, List, [], ◌∷◌, ◌++◌, map, All, if◌then◌else◌, str_eq,
  str_eq_iff, concat_map, unwrap_or,
}
use mathlib.Core.Option
use spectraplex.Gold.{
  Outside, RawTransaction, TokenTransfer, NativeBalanceDelta, HlFillRecord, HlFundingPayment,
  is_hyperliquid, is_wallet, transfer_records, native_fee, native_flow, native_records, fill_record,
  cash_flow, cash_records, funding_record,
}
use spectraplex.Gold.Flows.{
  Flow, sum_from, sum, native_asset, native_flows, flow_record, evm_outcome, evm_native,
}
use spectraplex.Gold.Events.{transfer_events, native_events, evm_event}
use spectraplex.Gold.Totals.{
  IsGroup, ledger_total, event_total, in_ledger, plus_zero, total_by-append,
}

module _ (o : Outside) (network asset : String) (g : IsGroup o) where
  open g use {plus_assoc, plus_comm, zero_plus, plus_neg, equal_sound}

  -- An amount, where it counts.
  abbrev counted : Bool → o.BigDecimal → o.BigDecimal
  counted b amount = if b then amount else o.zero

  counted_zero : (b : Bool) → counted b o.zero ≡ o.zero
  counted_zero true = refl
  counted_zero false = refl

  counted_plus :
      (b : Bool) (x y : o.BigDecimal) → o.plus (counted b x) (counted b y) ≡ counted b (o.plus x y)
  counted_plus true x y = refl
  counted_plus false x y = zero_plus o.zero

  pub sums : {a b x y : o.BigDecimal} → a ≡ b → x ≡ y → o.plus a x ≡ o.plus b y
  sums {b = b} {x = x} e f = ap (λ t. o.plus t x) e ∙ ap (o.plus b) f

  single : (b : Bool) (x : o.BigDecimal) → o.plus (counted b x) o.zero ≡ counted b x
  single b x = plus_zero o network asset g (counted b x)

  module _ (wallet : String) (version : Option ℕ) (raws : List RawTransaction) where
    abbrev is_mine : String → Bool
    is_mine address = is_wallet o wallet version raws address

    pub transfers_lem :
        (t : TokenTransfer o.BigDecimal)
        → ledger_total o network asset (transfer_records o wallet version raws t)
          ≡ event_total o network asset (transfer_events o wallet version raws t)
    unfolding transfer_records transfer_events
    transfers_lem t = elim (Bool-cases (ltb_ℤ t.decimals (pos 0))) [
      | inl d ↦ rw d refl
      | inr d ↦ elim (Bool-cases (is_mine t.from_address)) [
        | inl e ↦ elim (Bool-cases (is_mine t.to_address)) [
          | inl f ↦ rw (d, e, f) (sym (single _ o.zero ∙ counted_zero _))
          | inr f ↦ rw (d, e, f) refl
        ]
        | inr e ↦ elim (Bool-cases (is_mine t.to_address)) [
          | inl f ↦ rw (d, e, f) refl
          | inr f ↦ rw (d, e, f) refl
        ]
      ]
    ]

    module _ (d : NativeBalanceDelta o.BigDecimal) where
      abbrev here : Bool
      here = str_eq d.network network && str_eq d.native_token asset

      flow_total :
          (fee : o.BigDecimal) (kind : String) (amount : o.BigDecimal)
          → ledger_total o network asset (native_flow o wallet version raws d fee kind amount)
            ≡ counted here amount
      flow_total fee kind amount = elim (Bool-cases (o.equal amount o.zero)) [
        | inl e ↦ rw e (sym (ap (counted here) (equal_sound amount o.zero e) ∙ counted_zero here))
        | inr e ↦ rw e (single here amount)
      ]

      other_network :
          is_hyperliquid network ≡ false → is_hyperliquid d.network ≡ true → here ≡ false
      other_network h e = elim (Bool-cases (str_eq d.network network)) [
        | inl s ↦
            let q : d.network ≡ network = (str_eq_iff d.network network).0 s in
            let c : true ≡ false = sym e ∙ ap is_hyperliquid q ∙ h in absurd (cc c)
        | inr s ↦ rw s refl
      ]

      restored :
          (fee : o.BigDecimal)
          → o.plus (counted here (o.plus d.delta fee)) (counted here (o.neg fee))
            ≡ counted here d.delta
      restored fee =
          counted_plus here (o.plus d.delta fee) (o.neg fee)
          ∙ ap (counted here) (
              plus_assoc d.delta fee (o.neg fee)
              ∙ ap (o.plus d.delta) (plus_neg fee)
              ∙ plus_zero o network asset g d.delta)

      pub natives_lem :
          is_hyperliquid network ≡ false
          → ledger_total o network asset (native_records o wallet version raws d)
            ≡ event_total o network asset (native_events o wallet version raws d)
      unfolding native_records native_events
      natives_lem h = elim (Bool-cases (is_mine d.account_address)) [
        | inr e ↦ rw e refl
        | inl e ↦ elim (Bool-cases (is_hyperliquid d.network)) [
          | inl f ↦
              rw (e, f)
                (sym (single here d.delta ∙ ap (λ b. counted b d.delta) (other_network h f)))
          | inr f ↦
              let fee = native_fee o wallet version raws d in
              rw (e, f)
                (total_by-append o network asset g (in_ledger o network asset) (λ r. r.amount)
                    (native_flow o wallet version raws d fee "transfer" (o.plus d.delta fee))
                    (native_flow o wallet version raws d fee "fee" (o.neg fee))
                  ∙ sums (flow_total fee "transfer" (o.plus d.delta fee))
                      (flow_total fee "fee" (o.neg fee))
                  ∙ restored fee
                  ∙ sym (single here d.delta))
        ]
      ]

    -- The sum of flows, from the last one.
    abbrev amounts : List (Flow o) → o.BigDecimal
    amounts [] = o.zero
    amounts ((kind, amount) ∷ flows) = o.plus amount (amounts flows)

    sum_from_lem :
        (acc : o.BigDecimal) (flows : List (Flow o))
        → sum_from o acc flows ≡ o.plus acc (amounts flows)
    unfolding sum_from
    sum_from_lem acc [] = sym (plus_zero o network asset g acc)
    sum_from_lem acc ((kind, amount) ∷ flows) =
        sum_from_lem (o.plus acc amount) flows ∙ plus_assoc acc amount (amounts flows)

    module _ (raw : RawTransaction) where
      abbrev evm_here : Bool
      evm_here = str_eq raw.network network && str_eq (native_asset o raw) asset

      flows_total :
          (flows : List (Flow o))
          → ledger_total o network asset (map (flow_record o wallet version raws raw) flows)
            ≡ counted evm_here (amounts flows)
      flows_total [] = sym (counted_zero evm_here)
      flows_total ((kind, amount) ∷ flows) =
          sums refl (flows_total flows) ∙ counted_plus evm_here amount (amounts flows)

      sum-amounts : (flows : List (Flow o)) → sum o flows ≡ amounts flows
      unfolding sum
      sum-amounts flows = sum_from_lem o.zero flows ∙ zero_plus (amounts flows)

      net_total :
          (flows : List (Flow o))
          → event_total o network asset (
              map
                (evm_event o wallet version raws)
                (evm_outcome o wallet version raws raw (some flows)).balance_flows)
            ≡ counted evm_here (sum o flows)
      net_total flows = elim (Bool-cases (o.equal (sum o flows) o.zero)) [
        | inl e ↦ rw e (
            sym
              (ap (counted evm_here) (equal_sound (sum o flows) o.zero e) ∙ counted_zero evm_here))
        | inr e ↦ rw e (single evm_here (sum o flows))
      ]

      pub evm_lem :
          ledger_total o network asset (evm_native o wallet version raws raw).records
          ≡ event_total o network asset (
              map
                (evm_event o wallet version raws)
                (evm_native o wallet version raws raw).balance_flows)
      unfolding evm_native
      evm_lem = elim (Bool-cases (is_some raw.raw_metadata.from_)) [
        | inr e ↦ rw e refl
        | inl e ↦ elim (Option-cases (native_flows o raw.raw_metadata wallet)) [
          | inl f ↦ rw (e, f) refl
          | inr (flows, f) ↦
              rw (e, f)
                (flows_total flows
                  ∙ ap (counted evm_here) (sym (sum-amounts flows))
                  ∙ sym (net_total flows))
        ]
      ]

    elsewhere :
        (n a : String) → str_eq n network ≡ false → (str_eq n network && str_eq a asset) ≡ false
    elsewhere n a h = rw h refl

    none_counted :
        (b : Bool) (x y : o.BigDecimal) → b ≡ false → y ≡ o.zero → o.plus (counted b x) y ≡ o.zero
    none_counted b x y e f = sums (ap (λ c. counted c x) e) f ∙ zero_plus o.zero

    pub fills_total :
        (fills : List (HlFillRecord o.BigDecimal))
        → All (λ f. str_eq f.network network ≡ false) fills
        → ledger_total o network asset (map (fill_record o wallet version raws) fills) ≡ o.zero
    unfolding fill_record
    fills_total [] h = refl
    fills_total (f ∷ fills) (h, hs) =
        none_counted _ _ _ (elsewhere f.network f.coin h) (fills_total fills hs)

    cash_flow_total :
        (f : HlFillRecord o.BigDecimal) (kind : String) (amount : Option o.BigDecimal) (a : String)
        → str_eq f.network network ≡ false
        → ledger_total o network asset (cash_flow o wallet version raws f kind amount a) ≡ o.zero
    cash_flow_total f kind none a h = refl
    cash_flow_total f kind (some amount) a h = elim (Bool-cases (o.equal amount o.zero)) [
      | inl e ↦ rw e refl
      | inr e ↦ rw e (none_counted _ _ _ (elsewhere f.network a h) refl)
    ]

    pub cash_total :
        (fills : List (HlFillRecord o.BigDecimal))
        → All (λ f. str_eq f.network network ≡ false) fills
        → ledger_total o network asset (concat_map (cash_records o wallet version raws) fills)
          ≡ o.zero
    unfolding cash_records
    cash_total [] h = refl
    cash_total (f ∷ fills) (h, hs) =
        let fee =
          cash_flow o wallet version raws f "fee" (Option.map o.neg f.fee)
            (unwrap_or f.fee_token "USDC") in
        let income = cash_flow o wallet version raws f "income" f.closed_pnl "USDC" in
        let append =
          total_by-append o network asset g (in_ledger o network asset) (λ r. r.amount) in
        append (fee ++ income) (concat_map (cash_records o wallet version raws) fills)
        ∙ sums
            (append fee income
              ∙ sums
                  (cash_flow_total f "fee" (Option.map o.neg f.fee) (unwrap_or f.fee_token "USDC")
                    h)
                  (cash_flow_total f "income" f.closed_pnl "USDC" h)
              ∙ zero_plus o.zero)
            (cash_total fills hs)
        ∙ zero_plus o.zero

    pub funding_total :
        (payments : List (HlFundingPayment o.BigDecimal))
        → All (λ p. str_eq p.network network ≡ false) payments
        → ledger_total o network asset (map (funding_record o wallet version raws) payments)
          ≡ o.zero
    unfolding funding_record
    funding_total [] h = refl
    funding_total (p ∷ payments) (h, hs) =
        none_counted _ _ _ (elsewhere p.network "USDC" h) (funding_total payments hs)

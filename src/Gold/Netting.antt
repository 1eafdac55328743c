-- ===== src/Gold/Netting.antt =====
-- That the tax export of a derived ledger has each amount once.
use spectraplex.Base.{
  ℕ, String, Bool, true, false, ◌≡◌, refl, sym, ap, ◌∙◌, inl, inr, Bool-cases, Option, none, some,
  List, [], ◌∷◌, map, All, if◌then◌else◌, str_eq, unwrap_or,
}
use spectraplex.Gold.{Outside, Silver, WalletLedgerRecord}
use spectraplex.Gold.Flows.{ledger_records}
use spectraplex.Gold.Events.{materialize_gold_from_silver}
use spectraplex.Gold.Totals.{IsGroup}
use spectraplex.Gold.Tax.{TaxRow, tax_row}
use spectraplex.Gold.Fees.{HasOneFee, ledger-HasOneFee}

-- The absolute value of a negative number.
pub record HasAbs (o : Outside) : Type 0 where
  pub abs_negative : (a : o.BigDecimal) → o.below a o.zero ≡ true → o.abs a ≡ o.neg a

module _ (o : Outside) (asset : String) where
  -- What a column adds for the asset.
  abbrev pub column : String → Option o.BigDecimal → o.BigDecimal
  column a amount = if str_eq a asset then unwrap_or amount o.zero else o.zero

  -- What is received, less what is sent and the fee.
  abbrev pub net : TaxRow o.BigDecimal → o.BigDecimal
  net t =
      o.plus (column t.recv_asset t.recv_amount)
        (o.neg (o.plus (column t.sent_asset t.sent_amount) (column t.fee_asset t.fee_amount)))

  abbrev pub net_total : List (TaxRow o.BigDecimal) → o.BigDecimal
  net_total [] = o.zero
  net_total (t ∷ rows) = o.plus (net t) (net_total rows)

  abbrev pub asset_total : List (WalletLedgerRecord o.BigDecimal) → o.BigDecimal
  asset_total [] = o.zero
  asset_total (r ∷ records) =
      o.plus (if str_eq r.asset_symbol asset then r.amount else o.zero) (asset_total records)

  module _ (g : IsGroup o) (has_abs : HasAbs o) where
    open g use {plus_assoc, plus_comm, zero_plus, plus_neg}

    plus-zero : (a : o.BigDecimal) → o.plus a o.zero ≡ a
    plus-zero a = plus_comm a o.zero ∙ zero_plus a

    neg-zero : o.neg o.zero ≡ o.zero
    neg-zero = sym (zero_plus (o.neg o.zero)) ∙ plus_neg o.zero

    neg-neg : (a : o.BigDecimal) → o.neg (o.neg a) ≡ a
    neg-neg a =
        sym (zero_plus (o.neg (o.neg a)))
        ∙ ap (λ t. o.plus t (o.neg (o.neg a))) (sym (plus_neg a))
        ∙ plus_assoc a (o.neg a) (o.neg (o.neg a))
        ∙ ap (o.plus a) (plus_neg (o.neg a))
        ∙ plus-zero a

    empty_column : (a : String) → column a none ≡ o.zero
    empty_column a = elim (Bool-cases (str_eq a asset)) [ inl e ↦ rw e refl | inr e ↦ rw e refl ]

    counted-neg :
        (b : Bool) (x : o.BigDecimal)
        → o.neg (if b then o.neg x else o.zero) ≡ (if b then x else o.zero)
    counted-neg true x = neg-neg x
    counted-neg false x = neg-zero

    -- A row with one side has what that side has.
    only_received :
        (x y z : o.BigDecimal) → y ≡ o.zero → z ≡ o.zero → o.plus x (o.neg (o.plus y z)) ≡ x
    only_received x y z e f =
        ap (λ t. o.plus x (o.neg t)) (ap (λ t. o.plus t z) e ∙ zero_plus z ∙ f)
        ∙ ap (o.plus x) neg-zero
        ∙ plus-zero x

    only_sent :
        (x y z : o.BigDecimal) → x ≡ o.zero → z ≡ o.zero → o.plus x (o.neg (o.plus y z)) ≡ o.neg y
    only_sent x y z e f =
        ap (λ t. o.plus t (o.neg (o.plus y z))) e
        ∙ zero_plus (o.neg (o.plus y z))
        ∙ ap (λ t. o.neg (o.plus y t)) f
        ∙ ap o.neg (plus-zero y)

    only_fee :
        (x y z : o.BigDecimal) → x ≡ o.zero → y ≡ o.zero → o.plus x (o.neg (o.plus y z)) ≡ o.neg z
    only_fee x y z e f =
        ap (λ t. o.plus t (o.neg (o.plus y z))) e
        ∙ zero_plus (o.neg (o.plus y z))
        ∙ ap (λ t. o.neg (o.plus t z)) f
        ∙ ap o.neg (zero_plus z)

    module _ (r : WalletLedgerRecord o.BigDecimal) where
      abbrev own : o.BigDecimal
      own = if str_eq r.asset_symbol asset then r.amount else o.zero

      -- The column of the absolute value of a negative amount.
      taken :
          o.below r.amount o.zero ≡ true
          → o.neg (column r.asset_symbol (some (o.abs r.amount))) ≡ own
      taken e =
          ap (λ x. o.neg (column r.asset_symbol (some x))) (has_abs.abs_negative r.amount e)
          ∙ counted-neg (str_eq r.asset_symbol asset) r.amount

      net-tax_row : HasOneFee r → net (tax_row o r) ≡ own
      unfolding tax_row
      net-tax_row h = elim (Bool-cases (str_eq r.entry_type "fee")) [
        | inl e ↦ elim (Bool-cases (o.below r.amount o.zero)) [
          | inl f ↦ rw (e, f) (only_fee _ _ _ (empty_column "") (empty_column "") ∙ taken f)
          | inr f ↦ rw (e, f) (only_received _ _ _ (empty_column "") (empty_column ""))
        ]
        | inr e ↦ elim (Bool-cases (o.below r.amount o.zero)) [
          | inl f ↦
              rw (e, f, h e)
                (only_sent _ _ _ (empty_column "") (empty_column (unwrap_or r.fee_asset ""))
                  ∙ taken f)
          | inr f ↦
              rw (e, f, h e)
                (only_received _ _ _ (empty_column "") (empty_column (unwrap_or r.fee_asset "")))
        ]
      ]

    net_total-tax_row :
        (records : List (WalletLedgerRecord o.BigDecimal))
        → All HasOneFee records
        → net_total (map (tax_row o) records) ≡ asset_total records
    net_total-tax_row [] h = refl
    net_total-tax_row (r ∷ records) (h, hs) =
        ap (λ x. o.plus x (net_total (map (tax_row o) records))) (net-tax_row r h)
        ∙ ap (o.plus (own r)) (net_total-tax_row records hs)

    -- In the tax export of a derived ledger, what is received of an asset, less what is sent and the
    -- fees, is the total of the ledger's amounts of the asset: no fee and no amount is counted twice.
    pub tax_export_nets :
        (wallet : String) (version : Option ℕ) (s : Silver o.BigDecimal)
        → net_total (map (tax_row o) (materialize_gold_from_silver o wallet version s).0)
          ≡ asset_total (materialize_gold_from_silver o wallet version s).0
    unfolding materialize_gold_from_silver
    tax_export_nets wallet version s = elim (Bool-cases (str_eq wallet "")) [
      | inl e ↦ rw e refl
      | inr e ↦ rw e (
          net_total-tax_row (ledger_records o wallet version s)
            (ledger-HasOneFee o wallet version s))
    ]

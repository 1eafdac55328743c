-- ===== src/Gold/Totals.antt =====
-- Totals of the amounts of ledger records and of the deltas of balance events, by network and asset.
use spectraplex.Base.{
  String, Bool, true, ◌&&◌, ◌≡◌, refl, sym, ap, ◌∙◌, List, [], ◌∷◌, ◌++◌, if◌then◌else◌, str_eq,
  concat_map,
}
use spectraplex.Gold.{Outside, WalletLedgerRecord}
use spectraplex.Gold.Events.{BalanceEvent}

-- BigDecimal as its documentation has it: an equation is one of numbers, and the sum has its laws.
pub record IsGroup (o : Outside) : Type 0 where
  pub plus_assoc : (a b c : o.BigDecimal) → o.plus (o.plus a b) c ≡ o.plus a (o.plus b c)
  pub plus_comm : (a b : o.BigDecimal) → o.plus a b ≡ o.plus b a
  pub zero_plus : (a : o.BigDecimal) → o.plus o.zero a ≡ a
  pub plus_neg : (a : o.BigDecimal) → o.plus a (o.neg a) ≡ o.zero
  pub equal_sound : (a b : o.BigDecimal) → o.equal a b ≡ true → a ≡ b

module _ (o : Outside) (network asset : String) where
  -- The entries of a list that are selected, each with an amount.
  abbrev pub total_by : {A : Type 0} → (A → Bool) → (A → o.BigDecimal) → List A → o.BigDecimal
  total_by selected amount [] = o.zero
  total_by selected amount (x ∷ xs) =
      o.plus (if selected x then amount x else o.zero) (total_by selected amount xs)

  abbrev pub in_ledger : WalletLedgerRecord o.BigDecimal → Bool
  in_ledger r = str_eq r.network network && str_eq r.asset_symbol asset

  abbrev pub in_events : BalanceEvent o.BigDecimal → Bool
  in_events e = str_eq e.network network && str_eq e.asset asset

  abbrev pub ledger_total : List (WalletLedgerRecord o.BigDecimal) → o.BigDecimal
  ledger_total = total_by in_ledger (λ r. r.amount)

  abbrev pub event_total : List (BalanceEvent o.BigDecimal) → o.BigDecimal
  event_total = total_by in_events (λ e. e.delta)

  module _ (g : IsGroup o) where
    open g use {plus_assoc, plus_comm, zero_plus}

    pub plus_zero : (a : o.BigDecimal) → o.plus a o.zero ≡ a
    plus_zero a = plus_comm a o.zero ∙ zero_plus a

    pub total_by-append :
        {A : Type 0} (selected : A → Bool) (amount : A → o.BigDecimal) (xs ys : List A)
        → total_by selected amount (xs ++ ys)
          ≡ o.plus (total_by selected amount xs) (total_by selected amount ys)
    total_by-append selected amount [] ys = sym (zero_plus _)
    total_by-append selected amount (x ∷ xs) ys =
        let here = if selected x then amount x else o.zero in
        ap (o.plus here) (total_by-append selected amount xs ys) ∙ sym (plus_assoc here _ _)

    -- Records and events whose totals agree source by source have the same total.
    pub same_totals :
        {S : Type 0} (f : S → List (WalletLedgerRecord o.BigDecimal))
        (h : S → List (BalanceEvent o.BigDecimal))
        → ((x : S) → ledger_total (f x) ≡ event_total (h x))
        → (xs : List S) → ledger_total (concat_map f xs) ≡ event_total (concat_map h xs)
    same_totals f h e [] = refl
    same_totals f h e (x ∷ xs) =
        total_by-append in_ledger (λ r. r.amount) (f x) (concat_map f xs)
        ∙ ap (λ a. o.plus a (ledger_total (concat_map f xs))) (e x)
        ∙ ap (o.plus (event_total (h x))) (same_totals f h e xs)
        ∙ sym (total_by-append in_events (λ y. y.delta) (h x) (concat_map h xs))

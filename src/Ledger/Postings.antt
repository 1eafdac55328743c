-- ===== src/Ledger/Postings.antt =====
-- What the derived entries record: a description of the postings of each silver record, without
-- offsets and vectors, which the derivation implements.
use spectraplex.Base.{
  ℕ, String, Bool, not, ◌≡◌, sym, ap, ◌∙◌, Option, none, some, List, [], ◌∷◌, ◌++◌, ◌&&◌, map,
  map-append, append_nil, append_assoc, concat_map, inl, inr, Bool-cases, if◌then◌else◌, str_eq,
  unwrap_or,
}
use spectraplex.Target.{Chain, ChainFamily, solana, evm, hyperliquid, family_of_chain}
use spectraplex.Ledger.{
  Outside, EntryType, trade, fee, transfer, income, LedgerEntry, TokenTransfer, NativeBalanceDelta,
  HlFillRecord, HlFundingPayment, SilverRecords, State, each, entry, push_entry, start,
  token_transfer_step, native_delta_step, fee_step, pnl_step, fill_step, funding_step, is_wallet,
  derive_ledger_from_token_transfers, derive_ledger_from_native_balance_deltas,
  derive_ledger_from_hl_fills, derive_ledger_from_hl_funding, derive_for_family,
  derive_all_ledger_entries,
}

-- What an entry says, apart from its id and its owner.
pub record Posting (D : Type 0) : Type 0 where
  pub asset : String
  pub amount : D
  pub kind : EntryType
  pub fiat : Option D

abbrev pub posting_of : {D : Type 0} → LedgerEntry D → Posting D
posting_of e = record {
  asset = e.asset_symbol;
  amount = e.amount;
  kind = e.entry_type;
  fiat = e.fiat_value;
}

abbrev one {ℓ} : {A : Type ℓ} → Bool → A → List A
one b x = if b then x ∷ [] else []

module _ (o : Outside) (wallet : String) (user_id tx_id : ℕ) where
  abbrev posted : State o.BigDecimal → List (Posting o.BigDecimal)
  posted st = map posting_of st.entries

  abbrev mine : String → Bool
  mine address = is_wallet o wallet user_id tx_id address

  abbrev transferred : String → o.BigDecimal → Posting o.BigDecimal
  transferred symbol amount = record {
    asset = symbol;
    amount = amount;
    kind = transfer;
    fiat = none;
  }

  abbrev transfer_postings : TokenTransfer o.BigDecimal → List (Posting o.BigDecimal)
  transfer_postings t =
      let symbol = unwrap_or t.token_symbol t.token_address in
      one (mine t.from_address) (transferred symbol (o.neg t.amount))
      ++ one (mine t.to_address) (transferred symbol t.amount)

  abbrev delta_postings : NativeBalanceDelta o.BigDecimal → List (Posting o.BigDecimal)
  delta_postings d = one (mine d.account_address && not (o.equal d.delta o.zero)) (record {
    asset = d.native_token;
    amount = d.delta;
    kind = if d.is_fee_payer then fee else transfer;
    fiat = none;
  })

  abbrev fee_postings :
      HlFillRecord o.BigDecimal → Option o.BigDecimal → List (Posting o.BigDecimal)
  fee_postings f none = []
  fee_postings f (some a) =
      one (not (o.equal a o.zero))
        (record { asset = unwrap_or f.fee_token "USDC"; amount = o.neg a; kind = fee; fiat = none })

  abbrev pnl_postings : Option o.BigDecimal → List (Posting o.BigDecimal)
  pnl_postings none = []
  pnl_postings (some a) =
      one (not (o.equal a o.zero))
        (record { asset = "USDC"; amount = a; kind = income; fiat = none })

  abbrev fill_postings : HlFillRecord o.BigDecimal → List (Posting o.BigDecimal)
  fill_postings f =
      record {
        asset = f.coin;
        amount = if str_eq f.side "B" then f.size else o.neg f.size;
        kind = trade;
        fiat = some (o.times f.size f.price);
      }
        ∷ fee_postings f f.fee
      ++ pnl_postings f.closed_pnl

  abbrev funding_postings : HlFundingPayment o.BigDecimal → List (Posting o.BigDecimal)
  funding_postings p =
      record {
        asset = "USDC";
        amount = p.amount;
        kind = if o.above p.amount o.zero then income else fee;
        fiat = none;
      }
      ∷ []

  -- The postings of a transaction on a chain.
  pub expected_postings : ChainFamily → SilverRecords o.BigDecimal → List (Posting o.BigDecimal)
  expected_postings solana r =
      concat_map delta_postings r.native_balance_deltas
      ++ concat_map transfer_postings r.token_transfers
  expected_postings evm r = concat_map transfer_postings r.token_transfers
  expected_postings hyperliquid r =
      concat_map fill_postings r.hl_fills ++ concat_map funding_postings r.hl_funding

  push-posted :
      (symbol : String) (amount : o.BigDecimal) (t : EntryType) (v : Option o.BigDecimal)
      (st : State o.BigDecimal)
      → posted (push_entry o wallet user_id tx_id symbol amount t v st)
        ≡ posted st ++ record { asset = symbol; amount = amount; kind = t; fiat = v } ∷ []
  unfolding push_entry
  push-posted symbol amount t v st =
      map-append posting_of st.entries
        (entry o wallet user_id tx_id st.entry_offset symbol amount t v ∷ [])

  each-posted :
      {A : Type 0} (body : A → State o.BigDecimal → State o.BigDecimal)
      (post : A → List (Posting o.BigDecimal))
      → ((a : A) (st : State o.BigDecimal) → posted (body a st) ≡ posted st ++ post a)
      → (xs : List A) (st : State o.BigDecimal)
      → posted (each body xs st) ≡ posted st ++ concat_map post xs
  each-posted body post h [] st = sym (append_nil (posted st))
  each-posted body post h (x ∷ xs) st =
      each-posted body post h xs (body x st)
      ∙ ap (λ ps. ps ++ concat_map post xs) (h x st)
      ∙ append_assoc (posted st) (post x) (concat_map post xs)

  transfer-posted :
      (t : TokenTransfer o.BigDecimal) (st : State o.BigDecimal)
      → posted (token_transfer_step o wallet user_id tx_id t st) ≡ posted st ++ transfer_postings t
  unfolding token_transfer_step
  transfer-posted t st = elim (Bool-cases (mine t.from_address)) [
    | inl e ↦ elim (Bool-cases (mine t.to_address)) [
      | inl f ↦
          let received = transferred (unwrap_or t.token_symbol t.token_address) t.amount in
          rw e (
            rw f (
              push-posted _ _ _ _ _
              ∙ ap (λ ps. ps ++ received ∷ []) (push-posted _ _ _ _ st)
              ∙ append_assoc (posted st) _ (received ∷ [])))
      | inr f ↦ rw e (rw f (push-posted _ _ _ _ st))
    ]
    | inr e ↦ elim (Bool-cases (mine t.to_address)) [
      | inl f ↦ rw e (rw f (push-posted _ _ _ _ st))
      | inr f ↦ rw e (rw f (sym (append_nil (posted st))))
    ]
  ]

  delta-posted :
      (d : NativeBalanceDelta o.BigDecimal) (st : State o.BigDecimal)
      → posted (native_delta_step o wallet user_id tx_id d st) ≡ posted st ++ delta_postings d
  unfolding native_delta_step
  delta-posted d st = elim (Bool-cases (mine d.account_address)) [
    | inl e ↦ elim (Bool-cases (o.equal d.delta o.zero)) [
      | inl f ↦ rw e (rw f (sym (append_nil (posted st))))
      | inr f ↦ rw e (rw f (push-posted _ _ _ _ st))
    ]
    | inr e ↦ rw e (sym (append_nil (posted st)))
  ]

  fee-posted :
      (f : HlFillRecord o.BigDecimal) (a : Option o.BigDecimal) (st : State o.BigDecimal)
      → posted (fee_step o wallet user_id tx_id f a st) ≡ posted st ++ fee_postings f a
  unfolding fee_step
  fee-posted f none st = sym (append_nil (posted st))
  fee-posted f (some a) st = elim (Bool-cases (o.equal a o.zero)) [
    | inl e ↦ rw e (sym (append_nil (posted st)))
    | inr e ↦ rw e (push-posted _ _ _ _ st)
  ]

  pnl-posted :
      (a : Option o.BigDecimal) (st : State o.BigDecimal)
      → posted (pnl_step o wallet user_id tx_id a st) ≡ posted st ++ pnl_postings a
  unfolding pnl_step
  pnl-posted none st = sym (append_nil (posted st))
  pnl-posted (some a) st = elim (Bool-cases (o.equal a o.zero)) [
    | inl e ↦ rw e (sym (append_nil (posted st)))
    | inr e ↦ rw e (push-posted _ _ _ _ st)
  ]

  fill-posted :
      (f : HlFillRecord o.BigDecimal) (st : State o.BigDecimal)
      → posted (fill_step o wallet user_id tx_id f st) ≡ posted st ++ fill_postings f
  unfolding fill_step
  fill-posted f st =
      let fees = fee_postings f f.fee in
      let pnl = pnl_postings f.closed_pnl in
      pnl-posted f.closed_pnl _
      ∙ ap (λ ps. ps ++ pnl) (fee-posted f f.fee _)
      ∙ ap (λ ps. (ps ++ fees) ++ pnl) (push-posted _ _ _ _ st)
      ∙ append_assoc (posted st ++ _) fees pnl
      ∙ append_assoc (posted st) _ (fees ++ pnl)

  funding-posted :
      (p : HlFundingPayment o.BigDecimal) (st : State o.BigDecimal)
      → posted (funding_step o wallet user_id tx_id p st) ≡ posted st ++ funding_postings p
  unfolding funding_step
  funding-posted p st = push-posted _ _ _ _ st

  two_posted :
      (a b : State o.BigDecimal) {ps qs : List (Posting o.BigDecimal)}
      → posted a ≡ ps
      → posted b ≡ qs
      → map posting_of (a.entries ++ b.entries) ≡ ps ++ qs
  two_posted a b {ps} {qs} e f =
      map-append posting_of a.entries b.entries
      ∙ ap (λ xs. xs ++ posted b) e
      ∙ ap (λ ys. ps ++ ys) f

  family_postings :
      (family : ChainFamily) (r : SilverRecords o.BigDecimal)
      → map posting_of (derive_for_family o wallet user_id tx_id family r)
        ≡ expected_postings family r
  unfolding derive_for_family derive_ledger_from_token_transfers
      derive_ledger_from_native_balance_deltas derive_ledger_from_hl_fills
      derive_ledger_from_hl_funding expected_postings
  family_postings solana r =
      let a =
        derive_ledger_from_native_balance_deltas o wallet user_id tx_id r.native_balance_deltas 0 in
      let b =
        derive_ledger_from_token_transfers o wallet user_id tx_id r.token_transfers
          a.entry_offset in
      two_posted a b
        (each-posted _ delta_postings delta-posted r.native_balance_deltas
          (start o wallet user_id tx_id 0))
        (each-posted _ transfer_postings transfer-posted r.token_transfers
          (start o wallet user_id tx_id a.entry_offset))
  family_postings evm r =
      each-posted _ transfer_postings transfer-posted r.token_transfers
        (start o wallet user_id tx_id 0)
  family_postings hyperliquid r =
      let a = derive_ledger_from_hl_fills o wallet user_id tx_id r.hl_fills 0 in
      let b = derive_ledger_from_hl_funding o wallet user_id tx_id r.hl_funding a.entry_offset in
      two_posted a b
        (each-posted _ fill_postings fill-posted r.hl_fills (start o wallet user_id tx_id 0))
        (each-posted _ funding_postings funding-posted r.hl_funding
          (start o wallet user_id tx_id a.entry_offset))

  -- The derivation of a transaction posts, in this order: for Solana the native deltas and then the
  -- token transfers, for EVM chains the token transfers, for Hyperliquid the fills and then the
  -- funding; of each record exactly the postings that expected_postings describes.
  pub ledger_postings_exact :
      (chain : Chain) (r : SilverRecords o.BigDecimal)
      → map posting_of (derive_all_ledger_entries o wallet user_id tx_id chain r)
        ≡ expected_postings (family_of_chain chain) r
  unfolding derive_all_ledger_entries
  ledger_postings_exact chain r = family_postings (family_of_chain chain) r

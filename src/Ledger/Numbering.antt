-- ===== src/Ledger/Numbering.antt =====
-- The ids of derived entries, and what all entries of a derivation share.
use spectraplex.Base.{
  ℕ, zero, suc, ltb, ◌+◌, ◌<◌, ◌≤◌, ◌^◌, String, ◌≡◌, refl, subst, ap, Option, none, some, List, [],
  ◌∷◌, ◌++◌, arith, inl, inr, Bool-cases, length, length-append, get_elem?,
}
use spectraplex.Target.{Chain, ChainFamily, solana, evm, hyperliquid, family_of_chain}
use spectraplex.Ledger.{
  Outside, EntryType, LedgerEntry, TokenTransfer, NativeBalanceDelta, HlFillRecord,
  HlFundingPayment, SilverRecords, State, each, deterministic_id, entry, push_entry, start,
  token_transfer_step, native_delta_step, fee_step, pnl_step, fill_step, funding_step, is_wallet,
  derive_ledger_from_token_transfers, derive_ledger_from_native_balance_deltas,
  derive_ledger_from_hl_fills, derive_ledger_from_hl_funding, derive_for_family,
  derive_all_ledger_entries,
}

module _ (o : Outside) (wallet : String) (user_id tx_id : ℕ) where
  -- An entry of this derivation with the id of index `k`, if `k` is an index of 32 bits.
  pub record IsEntryAt (k : ℕ) (e : LedgerEntry o.BigDecimal) : Type 0 where
    pub id : k < 2 ^ 32 → e.id ≡ deterministic_id o tx_id k
    pub transaction : e.transaction_id ≡ tx_id
    pub user : e.user_id ≡ user_id
    pub wallet_address : e.wallet_address ≡ wallet

  abbrev NumberedFrom : ℕ → List (LedgerEntry o.BigDecimal) → Type 0
  NumberedFrom k [] = Unit
  NumberedFrom k (e ∷ es) = IsEntryAt k e × NumberedFrom (k + 1) es

  numbered-append :
      (k m : ℕ) (xs ys : List (LedgerEntry o.BigDecimal))
      → m ≡ k + length xs
      → NumberedFrom k xs
      → NumberedFrom m ys
      → NumberedFrom k (xs ++ ys)
  numbered-append k m [] ys h a b = subst (λ x. NumberedFrom x ys) (omega (arith, h)) b
  numbered-append k m (x ∷ xs) ys h (a, as') b =
      (a, numbered-append (k + 1) m xs ys (omega (arith, h)) as' b)

  record IsNumbered (k : ℕ) (st : State o.BigDecimal) : Type 0 where
    pub entries : NumberedFrom k st.entries
    pub offset : k + length st.entries < 2 ^ 32 → st.entry_offset ≡ k + length st.entries

  push-IsNumbered :
      (k : ℕ) (symbol : String) (amount : o.BigDecimal) (t : EntryType) (fiat : Option o.BigDecimal)
      (st : State o.BigDecimal)
      → IsNumbered k st
      → IsNumbered k (push_entry o wallet user_id tx_id symbol amount t fiat st)
  unfolding push_entry
  push-IsNumbered k symbol amount t fiat st n =
      let l =
        length-append st.entries
          (entry o wallet user_id tx_id st.entry_offset symbol amount t fiat ∷ []) in
      record {
        entries = numbered-append k (k + length st.entries) st.entries _ refl n.entries (
          record {
            id = λ h. ap (deterministic_id o tx_id) (n.offset h);
            transaction = refl;
            user = refl;
            wallet_address = refl;
          },
          tt,
        );
        offset = λ h.
            let below : k + length st.entries < 2 ^ 32 = omega (arith, h, l) in
            let e = n.offset below in omega (arith, e, h, l);
      }

  each-IsNumbered :
      {A : Type 0} (k : ℕ) (body : A → State o.BigDecimal → State o.BigDecimal)
      → ((a : A) (st : State o.BigDecimal) → IsNumbered k st → IsNumbered k (body a st))
      → (xs : List A) (st : State o.BigDecimal) → IsNumbered k st
      → IsNumbered k (each body xs st)
  each-IsNumbered k body h [] st n = n
  each-IsNumbered k body h (x ∷ xs) st n = each-IsNumbered k body h xs (body x st) (h x st n)

  start-IsNumbered : (k : ℕ) → IsNumbered k (start o wallet user_id tx_id k)
  start-IsNumbered k = record { entries = tt; offset = λ h. omega arith }

  transfer-IsNumbered :
      (k : ℕ) (t : TokenTransfer o.BigDecimal) (st : State o.BigDecimal)
      → IsNumbered k st
      → IsNumbered k (token_transfer_step o wallet user_id tx_id t st)
  unfolding token_transfer_step
  transfer-IsNumbered k t st n =
      elim (Bool-cases (is_wallet o wallet user_id tx_id t.from_address)) [
        | inl e ↦ elim (Bool-cases (is_wallet o wallet user_id tx_id t.to_address)) [
          | inl f ↦ rw e (rw f (push-IsNumbered k _ _ _ _ _ (push-IsNumbered k _ _ _ _ st n)))
          | inr f ↦ rw e (rw f (push-IsNumbered k _ _ _ _ st n))
        ]
        | inr e ↦ elim (Bool-cases (is_wallet o wallet user_id tx_id t.to_address)) [
          | inl f ↦ rw e (rw f (push-IsNumbered k _ _ _ _ st n))
          | inr f ↦ rw e (rw f n)
        ]
      ]

  delta-IsNumbered :
      (k : ℕ) (d : NativeBalanceDelta o.BigDecimal) (st : State o.BigDecimal)
      → IsNumbered k st
      → IsNumbered k (native_delta_step o wallet user_id tx_id d st)
  unfolding native_delta_step
  delta-IsNumbered k d st n =
      elim (Bool-cases (is_wallet o wallet user_id tx_id d.account_address)) [
        | inl e ↦ elim (Bool-cases (o.equal d.delta o.zero)) [
          | inl f ↦ rw e (rw f n)
          | inr f ↦ rw e (rw f (push-IsNumbered k _ _ _ _ st n))
        ]
        | inr e ↦ rw e n
      ]

  fee-IsNumbered :
      (k : ℕ) (f : HlFillRecord o.BigDecimal) (a : Option o.BigDecimal) (st : State o.BigDecimal)
      → IsNumbered k st
      → IsNumbered k (fee_step o wallet user_id tx_id f a st)
  unfolding fee_step
  fee-IsNumbered k f none st n = n
  fee-IsNumbered k f (some a) st n = elim (Bool-cases (o.equal a o.zero)) [
    | inl e ↦ rw e n
    | inr e ↦ rw e (push-IsNumbered k _ _ _ _ st n)
  ]

  pnl-IsNumbered :
      (k : ℕ) (a : Option o.BigDecimal) (st : State o.BigDecimal)
      → IsNumbered k st
      → IsNumbered k (pnl_step o wallet user_id tx_id a st)
  unfolding pnl_step
  pnl-IsNumbered k none st n = n
  pnl-IsNumbered k (some a) st n = elim (Bool-cases (o.equal a o.zero)) [
    | inl e ↦ rw e n
    | inr e ↦ rw e (push-IsNumbered k _ _ _ _ st n)
  ]

  fill-IsNumbered :
      (k : ℕ) (f : HlFillRecord o.BigDecimal) (st : State o.BigDecimal)
      → IsNumbered k st
      → IsNumbered k (fill_step o wallet user_id tx_id f st)
  unfolding fill_step
  fill-IsNumbered k f st n =
      pnl-IsNumbered k f.closed_pnl _ (fee-IsNumbered k f f.fee _ (push-IsNumbered k _ _ _ _ st n))

  funding-IsNumbered :
      (k : ℕ) (p : HlFundingPayment o.BigDecimal) (st : State o.BigDecimal)
      → IsNumbered k st
      → IsNumbered k (funding_step o wallet user_id tx_id p st)
  unfolding funding_step
  funding-IsNumbered k p st n = push-IsNumbered k _ _ _ _ st n

  -- Beyond 32 bits the index does not matter.
  numbered_beyond :
      (j k : ℕ) (xs : List (LedgerEntry o.BigDecimal))
      → 2 ^ 32 ≤ k
      → NumberedFrom j xs
      → NumberedFrom k xs
  numbered_beyond j k [] h a = tt
  numbered_beyond j k (x ∷ xs) h (a, b) = (
    record {
      id = λ l. absurd (omega (arith, h, l));
      transaction = a.transaction;
      user = a.user;
      wallet_address = a.wallet_address;
    },
    numbered_beyond (j + 1) (k + 1) xs (omega (arith, h)) b,
  )

  -- A derivation that goes on at the offset where another one stopped.
  both-IsNumbered :
      (a b : State o.BigDecimal)
      → IsNumbered 0 a
      → IsNumbered a.entry_offset b
      → NumberedFrom 0 (a.entries ++ b.entries)
  both-IsNumbered a b na nb =
      numbered-append 0 (length a.entries) a.entries b.entries (omega arith) na.entries
        (elim (Bool-cases (ltb (length a.entries) (2 ^ 32))) [
          | inl e ↦
              let below : length a.entries < 2 ^ 32 = ground (arith, e) in
              let at_offset = na.offset (omega (arith, below)) in
              subst (λ x. NumberedFrom x b.entries) (omega (arith, at_offset)) nb.entries
          | inr e ↦
              numbered_beyond a.entry_offset (length a.entries) b.entries (ground (arith, e))
                nb.entries
        ])

  family_numbered :
      (family : ChainFamily) (records : SilverRecords o.BigDecimal)
      → NumberedFrom 0 (derive_for_family o wallet user_id tx_id family records)
  unfolding derive_for_family derive_ledger_from_token_transfers
      derive_ledger_from_native_balance_deltas derive_ledger_from_hl_fills
      derive_ledger_from_hl_funding
  family_numbered solana records =
      let a =
        each-IsNumbered 0 _ (delta-IsNumbered 0) records.native_balance_deltas _
          (start-IsNumbered 0) in
      both-IsNumbered _ _ a
        (each-IsNumbered _ _ (transfer-IsNumbered _) records.token_transfers _ (start-IsNumbered _))
  family_numbered evm records =
      (each-IsNumbered 0 _ (transfer-IsNumbered 0) records.token_transfers _
        (start-IsNumbered 0)).entries
  family_numbered hyperliquid records =
      let a = each-IsNumbered 0 _ (fill-IsNumbered 0) records.hl_fills _ (start-IsNumbered 0) in
      both-IsNumbered _ _ a
        (each-IsNumbered _ _ (funding-IsNumbered _) records.hl_funding _ (start-IsNumbered _))

  numbered_at :
      (j k : ℕ) (xs : List (LedgerEntry o.BigDecimal)) {e : LedgerEntry o.BigDecimal}
      → NumberedFrom j xs
      → get_elem? xs k ≡ some e
      → IsEntryAt (j + k) e
  numbered_at j k [] n h = cc
  numbered_at j zero (x ∷ xs) {e} (a, b) h =
      let same : x ≡ e = cc h in
      subst (IsEntryAt (j + 0)) same (subst (λ i. IsEntryAt i x) (omega arith) a)
  numbered_at j (suc k) (x ∷ xs) {e} (a, b) h =
      subst (λ i. IsEntryAt i e) (omega arith) (numbered_at (j + 1) k xs b h)

  -- The entry at position `k` of a derivation has the id of the transaction and index `k`, as long as
  -- `k` is below 2 to the 32, and every entry has the transaction, the user and the wallet that were
  -- given.
  pub entries_numbered :
      (chain : Chain) (records : SilverRecords o.BigDecimal) (k : ℕ) {e : LedgerEntry o.BigDecimal}
      → get_elem? (derive_all_ledger_entries o wallet user_id tx_id chain records) k ≡ some e
      → IsEntryAt k e
  unfolding derive_all_ledger_entries
  entries_numbered chain records k {e} h =
      subst (λ i. IsEntryAt i e) (omega arith)
        (numbered_at 0 k _ (family_numbered (family_of_chain chain) records) h)

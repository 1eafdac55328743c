-- ===== src/Ledger.antt =====
-- The derivation of a wallet's ledger entries from silver records:
-- adapters/src/ledger_derivation.rs, with deterministic_id of adapters/src/lib.rs and the records of
-- core/src/models.rs and core/src/materializer.rs (the fields that the derivation reads). A UUID is
-- a number. BigDecimal, UUIDs and the case mapping of Unicode are parameters; `+= 1` on the u32
-- offset wraps around, as in a release build.
pub mod Numbering
pub mod Postings
mod Samples
use spectraplex.Base.{
  ℕ, ◌+◌, String, Bool, true, false, ◌&&◌, ◌||◌, not, Option, none, some, List, [], ◌∷◌, ◌++◌,
  wrap32, if◌then◌else◌, str_eq, unwrap_or,
}
use Prim.Native.String.{◌++◌ as concat}
use text.Mathlib.Text.{starts_with}
use spectraplex.Target.{Chain, ChainFamily, solana, evm, hyperliquid, family_of_chain}

-- What the derivation asks of its surroundings: the numbers of the bigdecimal crate, the version 5
-- UUIDs of the uuid crate in the namespace LEDGER_ENTRY_NS, the printing of a UUID and of a number,
-- and `str::to_lowercase`.
pub record Outside : Type 1 where
  pub BigDecimal : Type 0
  pub zero : BigDecimal
  pub neg : BigDecimal → BigDecimal
  pub times : BigDecimal → BigDecimal → BigDecimal
  pub equal : BigDecimal → BigDecimal → Bool
  pub above : BigDecimal → BigDecimal → Bool
  pub new_v5 : String → ℕ
  pub uuid_text : ℕ → String
  pub number_text : ℕ → String
  pub to_lowercase : String → String

pub data EntryType : Type 0 where
  trade fee transfer staking income : EntryType

pub record LedgerEntry (D : Type 0) : Type 0 where
  pub id : ℕ
  pub transaction_id : ℕ
  pub user_id : ℕ
  pub wallet_address : String
  pub asset_symbol : String
  pub amount : D
  pub entry_type : EntryType
  pub fiat_value : Option D

pub record TokenTransfer (D : Type 0) : Type 0 where
  pub token_address : String
  pub token_symbol : Option String
  pub from_address : String
  pub to_address : String
  pub amount : D

pub record NativeBalanceDelta (D : Type 0) : Type 0 where
  pub account_address : String
  pub native_token : String
  pub delta : D
  pub is_fee_payer : Bool

pub record HlFillRecord (D : Type 0) : Type 0 where
  pub coin : String
  pub side : String
  pub price : D
  pub size : D
  pub closed_pnl : Option D
  pub fee : Option D
  pub fee_token : Option String

pub record HlFundingPayment (D : Type 0) : Type 0 where
  pub amount : D

pub record SilverRecords (D : Type 0) : Type 0 where
  pub token_transfers : List (TokenTransfer D)
  pub native_balance_deltas : List (NativeBalanceDelta D)
  pub hl_fills : List (HlFillRecord D)
  pub hl_funding : List (HlFundingPayment D)

-- The vector that a derivation fills, and the offset that it advances.
pub record State (D : Type 0) : Type 0 where
  pub entries : List (LedgerEntry D)
  pub entry_offset : ℕ

-- `for x in xs { … }` with that state.
abbrev pub each {ℓ κ} : {S : Type ℓ} {A : Type κ} → (A → S → S) → List A → S → S
each body [] st = st
each body (x ∷ xs) st = each body xs (body x st)

module _ (o : Outside) where
  pub normalize_address_for_comparison : String → String
  normalize_address_for_comparison addr =
      if starts_with addr "0x" || starts_with addr "0X" then o.to_lowercase addr else addr

  pub deterministic_id : ℕ → ℕ → ℕ
  deterministic_id transaction_id entry_index =
      o.new_v5 (concat (o.uuid_text transaction_id) (concat ":" (o.number_text entry_index)))

  module _ (wallet : String) (user_id tx_id : ℕ) where
    abbrev pub entry :
        ℕ → String → o.BigDecimal → EntryType → Option o.BigDecimal → LedgerEntry o.BigDecimal
    entry offset symbol amount entry_type fiat_value = record {
      id = deterministic_id tx_id offset;
      transaction_id = tx_id;
      user_id = user_id;
      wallet_address = wallet;
      asset_symbol = symbol;
      amount = amount;
      entry_type = entry_type;
      fiat_value = fiat_value;
    }

    -- `entries.push(…); *entry_offset += 1;`
    pub push_entry :
        String
        → o.BigDecimal
        → EntryType
        → Option o.BigDecimal
        → State o.BigDecimal
        → State o.BigDecimal
    push_entry symbol amount entry_type fiat_value st = record {
      entries = st.entries ++ entry st.entry_offset symbol amount entry_type fiat_value ∷ [];
      entry_offset = wrap32 (st.entry_offset + 1);
    }

    abbrev pub is_wallet : String → Bool
    is_wallet address =
        str_eq (normalize_address_for_comparison address) (normalize_address_for_comparison wallet)

    abbrev pub symbol_of : TokenTransfer o.BigDecimal → String
    symbol_of t = unwrap_or t.token_symbol t.token_address

    pub token_transfer_step : TokenTransfer o.BigDecimal → State o.BigDecimal → State o.BigDecimal
    token_transfer_step t st =
        let st1 =
          if is_wallet t.from_address
          then push_entry (symbol_of t) (o.neg t.amount) transfer none st
          else st in
        if is_wallet t.to_address then push_entry (symbol_of t) t.amount transfer none st1 else st1

    pub native_delta_step :
        NativeBalanceDelta o.BigDecimal → State o.BigDecimal → State o.BigDecimal
    native_delta_step d st =
        if not (is_wallet d.account_address)
        then st
        else if o.equal d.delta o.zero
        then st
        else push_entry d.native_token d.delta (if d.is_fee_payer then fee else transfer) none st

    abbrev pub signed_size : HlFillRecord o.BigDecimal → o.BigDecimal
    signed_size f = if str_eq f.side "B" then f.size else o.neg f.size

    pub fee_step :
        HlFillRecord o.BigDecimal → Option o.BigDecimal → State o.BigDecimal → State o.BigDecimal
    fee_step f none st = st
    fee_step f (some a) st =
        if o.equal a o.zero
        then st
        else push_entry (unwrap_or f.fee_token "USDC") (o.neg a) fee none st

    pub pnl_step : Option o.BigDecimal → State o.BigDecimal → State o.BigDecimal
    pnl_step none st = st
    pnl_step (some a) st = if o.equal a o.zero then st else push_entry "USDC" a income none st

    pub fill_step : HlFillRecord o.BigDecimal → State o.BigDecimal → State o.BigDecimal
    fill_step f st =
        let st1 = push_entry f.coin (signed_size f) trade (some (o.times f.size f.price)) st in
        pnl_step f.closed_pnl (fee_step f f.fee st1)

    pub funding_step : HlFundingPayment o.BigDecimal → State o.BigDecimal → State o.BigDecimal
    funding_step p st =
        push_entry "USDC" p.amount (if o.above p.amount o.zero then income else fee) none st

    -- Each derivation starts a vector of its own at the offset that it is given.
    abbrev pub start : ℕ → State o.BigDecimal
    start offset = record { entries = []; entry_offset = offset }

    pub derive_ledger_from_token_transfers :
        List (TokenTransfer o.BigDecimal) → ℕ → State o.BigDecimal
    derive_ledger_from_token_transfers transfers offset =
        each token_transfer_step transfers (start offset)

    pub derive_ledger_from_native_balance_deltas :
        List (NativeBalanceDelta o.BigDecimal) → ℕ → State o.BigDecimal
    derive_ledger_from_native_balance_deltas deltas offset =
        each native_delta_step deltas (start offset)

    pub derive_ledger_from_hl_fills : List (HlFillRecord o.BigDecimal) → ℕ → State o.BigDecimal
    derive_ledger_from_hl_fills fills offset = each fill_step fills (start offset)

    pub derive_ledger_from_hl_funding :
        List (HlFundingPayment o.BigDecimal) → ℕ → State o.BigDecimal
    derive_ledger_from_hl_funding payments offset = each funding_step payments (start offset)

    pub derive_for_family :
        ChainFamily → SilverRecords o.BigDecimal → List (LedgerEntry o.BigDecimal)
    derive_for_family solana records =
        let a = derive_ledger_from_native_balance_deltas records.native_balance_deltas 0 in
        let b = derive_ledger_from_token_transfers records.token_transfers a.entry_offset in
        a.entries ++ b.entries
    derive_for_family evm records =
        (derive_ledger_from_token_transfers records.token_transfers 0).entries
    derive_for_family hyperliquid records =
        let a = derive_ledger_from_hl_fills records.hl_fills 0 in
        let b = derive_ledger_from_hl_funding records.hl_funding a.entry_offset in
        a.entries ++ b.entries

    pub derive_all_ledger_entries :
        Chain → SilverRecords o.BigDecimal → List (LedgerEntry o.BigDecimal)
    derive_all_ledger_entries chain records = derive_for_family (family_of_chain chain) records

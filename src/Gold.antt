-- ===== src/Gold.antt =====
-- The gold records that a batch of silver records gives a wallet: materialize_gold_from_silver of
-- adapters/src/dual_write.rs, up to the writing. BigDecimal, UUIDs, the printing of numbers and the
-- case mapping of Unicode are parameters; of a raw transaction's JSON the model has the fields that are
-- read. A UUID is a number.
pub mod Flows
pub mod Events
pub mod Totals
pub mod Sources
pub mod Reconciled
pub mod Hex
pub mod Tax
pub mod Fees
pub mod Netting
mod Samples
use Prim.Native.String.{◌++◌ as concat}
use text.Mathlib.Text.{starts_with}
use mathlib.Core.Option
use spectraplex.Base.{
  ℕ, ℤ, pos, String, Bool, true, false, ◌&&◌, ◌||◌, not, Option, none, some, List, [], ◌∷◌, ◌++◌,
  ltb_ℤ, ◌==◌, if◌then◌else◌, str_eq, unwrap_or, or_else, concat_map,
}

pub record Outside : Type 1 where
  pub BigDecimal : Type 0
  pub zero : BigDecimal
  pub plus : BigDecimal → BigDecimal → BigDecimal
  pub minus : BigDecimal → BigDecimal → BigDecimal
  pub neg : BigDecimal → BigDecimal
  pub abs : BigDecimal → BigDecimal
  pub times : BigDecimal → BigDecimal → BigDecimal
  pub divide : BigDecimal → BigDecimal → BigDecimal
  pub from_nat : ℕ → BigDecimal
  pub equal : BigDecimal → BigDecimal → Bool
  pub below : BigDecimal → BigDecimal → Bool
  pub new_v5 : String → ℕ
  pub uuid_text : ℕ → String
  pub integer_text : ℤ → String
  pub to_lowercase : String → String
  -- The date and time of a UNIX timestamp, as the tax export prints it.
  pub date_text : ℤ → String
  -- The quotient of an `i64` by 1000, towards zero.
  pub to_seconds : ℤ → ℤ

-- The fields of `raw_metadata` that are read, and `meta.fee` as a `u64`; the others as texts.
pub record RawMetadata : Type 0 where
  pub meta_fee : Option ℕ
  pub from_ : Option String
  pub to_ : Option String
  pub status : Option String
  pub value : Option String
  pub gas_used : Option String
  pub effective_gas_price : Option String

pub record RawTransaction : Type 0 where
  pub id : ℕ
  pub network : String
  pub tx_hash : String
  pub timestamp : ℤ
  pub raw_metadata : RawMetadata

pub record TokenTransfer (D : Type 0) : Type 0 where
  pub raw_transaction_id : Option ℕ
  pub network : String
  pub token_address : String
  pub token_symbol : Option String
  pub from_address : String
  pub to_address : String
  pub amount : D
  pub decimals : ℤ
  pub transfer_index : ℤ

pub record NativeBalanceDelta (D : Type 0) : Type 0 where
  pub raw_transaction_id : Option ℕ
  pub network : String
  pub account_address : String
  pub native_token : String
  pub delta : D
  pub is_fee_payer : Bool

pub record HlFillRecord (D : Type 0) : Type 0 where
  pub raw_transaction_id : Option ℕ
  pub network : String
  pub coin : String
  pub side : String
  pub size : D
  pub closed_pnl : Option D
  pub fee : Option D
  pub fee_token : Option String
  pub fill_time : ℤ
  pub trade_id : Option ℤ

pub record HlFundingPayment (D : Type 0) : Type 0 where
  pub raw_transaction_id : Option ℕ
  pub network : String
  pub coin : String
  pub amount : D
  pub payment_time : ℤ

-- The silver records of a call.
pub record Silver (D : Type 0) : Type 0 where
  pub raw_txs : List RawTransaction
  pub token_transfers : List (TokenTransfer D)
  pub native_deltas : List (NativeBalanceDelta D)
  pub hl_fills : List (HlFillRecord D)
  pub hl_funding : List (HlFundingPayment D)

pub record WalletLedgerRecord (D : Type 0) : Type 0 where
  pub id : ℕ
  pub raw_transaction_id : Option ℕ
  pub wallet_address : String
  pub network : String
  pub tx_hash : String
  pub timestamp : ℤ
  pub entry_type : String
  pub asset_symbol : String
  pub amount : D
  pub counterparty_address : Option String
  pub fee_amount : Option D
  pub fee_asset : Option String
  pub cost_basis : Option D
  pub proceeds : Option D
  pub dataset_version_id : Option ℕ

-- `format!` of texts.
abbrev pub format : List String → String
format [] = ""
format (s ∷ ss) = concat s (format ss)

-- `raw_tx_map.get(id)`: the map keeps the last transaction with an id.
unfoldable pub raw_tx_of : List RawTransaction → ℕ → Option RawTransaction
raw_tx_of [] i = none
raw_tx_of (r ∷ raws) i = or_else (raw_tx_of raws i) (if r.id == i then some r else none)

-- `raw_tx_id.and_then(|id| raw_tx_map.get(&id))`
abbrev pub raw_of : List RawTransaction → Option ℕ → Option RawTransaction
raw_of raws none = none
raw_of raws (some i) = raw_tx_of raws i

abbrev pub hash_of : Option RawTransaction → String
hash_of none = ""
hash_of (some r) = r.tx_hash

abbrev pub time_or : Option RawTransaction → ℤ → ℤ
time_or none t = t
time_or (some r) t = r.timestamp

abbrev pub fee_or_zero : Option RawTransaction → ℕ
fee_or_zero none = 0
fee_or_zero (some r) = unwrap_or r.raw_metadata.meta_fee 0

abbrev pub is_hyperliquid : String → Bool
is_hyperliquid network = starts_with network "hypercore" || starts_with network "hyperliquid"

abbrev pub eqb_Bool : Bool → Bool → Bool
eqb_Bool a b = if a then b else not b

abbrev pub when {ℓ} : {A : Type ℓ} → Bool → List A → List A
when b xs = if b then xs else []

module _ (o : Outside) where
  unfoldable pub normalize_address_for_comparison : String → String
  normalize_address_for_comparison addr =
      if starts_with addr "0x" || starts_with addr "0X" then o.to_lowercase addr else addr

  -- `raw_tx_id.map(|u| u.to_string()).unwrap_or_default()`
  abbrev pub id_text : Option ℕ → String
  id_text none = ""
  id_text (some i) = o.uuid_text i

  -- `raw_tx_id.unwrap_or_default()`, printed: the nil UUID is the number 0.
  abbrev pub id_or_nil : Option ℕ → String
  id_or_nil i = o.uuid_text (unwrap_or i 0)

  module _ (wallet : String) (version : Option ℕ) (raws : List RawTransaction) where
    abbrev pub wallet_norm : String
    wallet_norm = normalize_address_for_comparison wallet

    abbrev pub is_wallet : String → Bool
    is_wallet address = str_eq (normalize_address_for_comparison address) wallet_norm

    abbrev pub symbol_of : TokenTransfer o.BigDecimal → String
    symbol_of t = unwrap_or t.token_symbol t.token_address

    -- The record of one side of a transfer.
    abbrev pub transfer_record :
        TokenTransfer o.BigDecimal
        → String
        → o.BigDecimal
        → String
        → WalletLedgerRecord o.BigDecimal
    transfer_record t side amount counterparty =
        let raw_tx = raw_of raws t.raw_transaction_id in
        record {
          id = o.new_v5 (
              format (
                "wl:"
                ∷ wallet_norm
                ∷ ":"
                ∷ id_text t.raw_transaction_id
                ∷ ":"
                ∷ t.token_address
                ∷ ":"
                ∷ o.integer_text t.transfer_index
                ∷ side
                ∷ []));
          raw_transaction_id = t.raw_transaction_id;
          wallet_address = wallet;
          network = t.network;
          tx_hash = hash_of raw_tx;
          timestamp = time_or raw_tx (pos 0);
          entry_type = "transfer";
          asset_symbol = symbol_of t;
          amount = amount;
          counterparty_address = some counterparty;
          fee_amount = none;
          fee_asset = none;
          cost_basis = none;
          proceeds = none;
          dataset_version_id = version;
        }

    unfoldable pub transfer_records :
        TokenTransfer o.BigDecimal → List (WalletLedgerRecord o.BigDecimal)
    transfer_records t =
        let from_match = is_wallet t.from_address in
        let to_match = is_wallet t.to_address in
        if ltb_ℤ t.decimals (pos 0)
        then []
        else if eqb_Bool from_match to_match
        then []
        else when from_match (transfer_record t ":out" (o.neg t.amount) t.to_address ∷ [])
          ++ when to_match (transfer_record t ":in" t.amount t.from_address ∷ [])

    unfoldable pub native_fee : NativeBalanceDelta o.BigDecimal → o.BigDecimal
    native_fee d =
        if d.is_fee_payer && starts_with d.network "solana"
        then o.divide (o.from_nat (fee_or_zero (raw_of raws d.raw_transaction_id)))
            (o.from_nat 1000000000)
        else o.zero

    -- One round of the loop over the kinds of flow, with the fee of the delta.
    abbrev pub native_flow :
        NativeBalanceDelta o.BigDecimal
        → o.BigDecimal
        → String
        → o.BigDecimal
        → List (WalletLedgerRecord o.BigDecimal)
    native_flow d fee kind amount =
        let raw_tx = raw_of raws d.raw_transaction_id in
        when (not (o.equal amount o.zero)) (
          record {
            id = o.new_v5 (
                format (
                  "wl:"
                  ∷ wallet_norm
                  ∷ ":"
                  ∷ id_or_nil d.raw_transaction_id
                  ∷ ":native:"
                  ∷ d.account_address
                  ∷ ":"
                  ∷ kind
                  ∷ []));
            raw_transaction_id = d.raw_transaction_id;
            wallet_address = wallet;
            network = d.network;
            tx_hash = hash_of raw_tx;
            timestamp = time_or raw_tx (pos 0);
            entry_type = kind;
            asset_symbol = d.native_token;
            amount = amount;
            counterparty_address = none;
            fee_amount = if str_eq kind "fee" then some fee else none;
            fee_asset = if str_eq kind "fee" then some d.native_token else none;
            cost_basis = none;
            proceeds = none;
            dataset_version_id = version;
          }
          ∷ [])

    unfoldable pub native_records :
        NativeBalanceDelta o.BigDecimal → List (WalletLedgerRecord o.BigDecimal)
    native_records d =
        let fee = native_fee d in
        if not (is_wallet d.account_address) || is_hyperliquid d.network
        then []
        else native_flow d fee "transfer" (o.plus d.delta fee)
          ++ native_flow d fee "fee" (o.neg fee)

    unfoldable pub fill_record : HlFillRecord o.BigDecimal → WalletLedgerRecord o.BigDecimal
    fill_record f =
        let raw_tx = raw_of raws f.raw_transaction_id in
        record {
          id = o.new_v5 (
              format (
                "wl:"
                ∷ wallet_norm
                ∷ ":"
                ∷ id_text f.raw_transaction_id
                ∷ ":fill:"
                ∷ f.coin
                ∷ ":"
                ∷ o.integer_text (unwrap_or f.trade_id (pos 0))
                ∷ []));
          raw_transaction_id = f.raw_transaction_id;
          wallet_address = wallet;
          network = f.network;
          tx_hash = hash_of raw_tx;
          timestamp = time_or raw_tx (o.to_seconds f.fill_time);
          entry_type = "trade";
          asset_symbol = f.coin;
          amount = if str_eq f.side "B" then f.size else o.neg f.size;
          counterparty_address = none;
          fee_amount = none;
          fee_asset = none;
          cost_basis = none;
          proceeds = none;
          dataset_version_id = version;
        }

    -- One round of the loop over the cash flows of a fill.
    abbrev pub cash_flow :
        HlFillRecord o.BigDecimal
        → String
        → Option o.BigDecimal
        → String
        → List (WalletLedgerRecord o.BigDecimal)
    cash_flow f kind none asset = []
    cash_flow f kind (some amount) asset =
        let raw_tx = raw_of raws f.raw_transaction_id in
        when (not (o.equal amount o.zero)) (
          record {
            id = o.new_v5 (
                format (
                  "wl:"
                  ∷ wallet_norm
                  ∷ ":"
                  ∷ id_or_nil f.raw_transaction_id
                  ∷ ":fill:"
                  ∷ f.coin
                  ∷ ":"
                  ∷ o.integer_text (unwrap_or f.trade_id (pos 0))
                  ∷ ":"
                  ∷ kind
                  ∷ []));
            raw_transaction_id = f.raw_transaction_id;
            wallet_address = wallet;
            network = f.network;
            tx_hash = hash_of raw_tx;
            timestamp = time_or raw_tx (o.to_seconds f.fill_time);
            entry_type = kind;
            asset_symbol = asset;
            amount = amount;
            counterparty_address = none;
            fee_amount = if str_eq kind "fee" then f.fee else none;
            fee_asset = if str_eq kind "fee" then some asset else none;
            cost_basis = none;
            proceeds = none;
            dataset_version_id = version;
          }
          ∷ [])

    unfoldable pub cash_records : HlFillRecord o.BigDecimal → List (WalletLedgerRecord o.BigDecimal)
    cash_records f =
        cash_flow f "fee" (Option.map o.neg f.fee) (unwrap_or f.fee_token "USDC")
        ++ cash_flow f "income" f.closed_pnl "USDC"

    unfoldable pub funding_record : HlFundingPayment o.BigDecimal → WalletLedgerRecord o.BigDecimal
    funding_record p =
        let raw_tx = raw_of raws p.raw_transaction_id in
        record {
          id = o.new_v5 (
              format (
                "wl:"
                ∷ wallet_norm
                ∷ ":"
                ∷ id_text p.raw_transaction_id
                ∷ ":funding:"
                ∷ p.coin
                ∷ ":"
                ∷ o.integer_text p.payment_time
                ∷ []));
          raw_transaction_id = p.raw_transaction_id;
          wallet_address = wallet;
          network = p.network;
          tx_hash = hash_of raw_tx;
          timestamp = time_or raw_tx (o.to_seconds p.payment_time);
          entry_type = "funding";
          asset_symbol = "USDC";
          amount = p.amount;
          counterparty_address = none;
          fee_amount = none;
          fee_asset = none;
          cost_basis = none;
          proceeds = none;
          dataset_version_id = version;
        }

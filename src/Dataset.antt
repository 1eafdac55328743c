-- ===== src/Dataset.antt =====
-- The dataset registry of core/src/materializer.rs: the dataset names, their tables, tiers and
-- chain families, and the lookups by name and by network. `FromStr` of DatasetName is derived by
-- the strum crate, so it is a parameter with its documented behaviour.
pub mod Names
pub mod Registry
mod Samples
use spectraplex.Base.{
  String, Bool, true, false, ◌||◌, ◌≡◌, ◌↔◌, Option, none, some, List, [], ◌∷◌, if◌then◌else◌,
  str_eq, or_else, any, select,
}
use text.Mathlib.Text.{starts_with}
use spectraplex.Target.{ChainFamily, solana, evm, hyperliquid, family_eq}

pub data DatasetName : Type 0 where
  raw_transactions ledger_entries token_transfers native_balance_deltas decoded_events hl_fills
        hl_funding positions wallet_ledger balance_history hl_pnl_summary hl_trade_history
        protocol_events pool_snapshots :
      DatasetName

pub data DatasetTier : Type 0 where
  bronze silver gold : DatasetTier

pub as_sql_str : DatasetName → String
as_sql_str raw_transactions = "raw_transactions"
as_sql_str ledger_entries = "ledger_entries"
as_sql_str token_transfers = "token_transfers"
as_sql_str native_balance_deltas = "native_balance_deltas"
as_sql_str decoded_events = "decoded_events"
as_sql_str hl_fills = "hl_fills"
as_sql_str hl_funding = "hl_funding"
as_sql_str positions = "positions"
as_sql_str wallet_ledger = "wallet_ledger"
as_sql_str balance_history = "balance_history"
as_sql_str hl_pnl_summary = "hl_pnl_summary"
as_sql_str hl_trade_history = "hl_trade_history"
as_sql_str protocol_events = "protocol_events"
as_sql_str pool_snapshots = "pool_snapshots"

pub physical_table : DatasetName → String
physical_table raw_transactions = "raw_transactions"
physical_table ledger_entries = "ledger_entries"
physical_table token_transfers = "token_transfers"
physical_table native_balance_deltas = "native_balance_deltas"
physical_table decoded_events = "decoded_events"
physical_table hl_fills = "hl_fill_records"
physical_table hl_funding = "hl_funding_payments"
physical_table positions = "hl_position_changes"
physical_table wallet_ledger = "wallet_ledger"
physical_table balance_history = "balance_history"
physical_table hl_pnl_summary = "hl_pnl_summary"
physical_table hl_trade_history = "hl_trade_history"
physical_table protocol_events = "protocol_events"
physical_table pool_snapshots = "pool_snapshots"

-- What `FromStr` of the strum crate does for `serialize_all = "snake_case"`: it accepts the name of
-- each variant in snake case, and nothing else.
pub record FromStr : Type 0 where
  pub parse : String → Option DatasetName
  pub accepts : (d : DatasetName) → parse (as_sql_str d) ≡ some d
  pub only : (s : String) (d : DatasetName) → parse s ≡ some d → s ≡ as_sql_str d

pub tier : DatasetName → DatasetTier
tier raw_transactions = bronze
tier wallet_ledger = gold
tier balance_history = gold
tier hl_pnl_summary = gold
tier hl_trade_history = gold
tier protocol_events = gold
tier pool_snapshots = gold
tier _ = silver

pub chain_families : DatasetName → List ChainFamily
chain_families raw_transactions = solana ∷ evm ∷ hyperliquid ∷ []
chain_families token_transfers = solana ∷ evm ∷ hyperliquid ∷ []
chain_families native_balance_deltas = solana ∷ hyperliquid ∷ []
chain_families decoded_events = solana ∷ evm ∷ []
chain_families ledger_entries = solana ∷ evm ∷ hyperliquid ∷ []
chain_families hl_fills = hyperliquid ∷ []
chain_families hl_funding = hyperliquid ∷ []
chain_families positions = hyperliquid ∷ []
chain_families wallet_ledger = solana ∷ evm ∷ hyperliquid ∷ []
chain_families balance_history = solana ∷ evm ∷ hyperliquid ∷ []
chain_families hl_pnl_summary = hyperliquid ∷ []
chain_families hl_trade_history = hyperliquid ∷ []
chain_families protocol_events = evm ∷ []
chain_families pool_snapshots = evm ∷ []

-- `DatasetName::all`, `silver` and `gold`.
abbrev pub all_datasets : List DatasetName
all_datasets =
    raw_transactions ∷ ledger_entries ∷ token_transfers ∷ native_balance_deltas ∷ decoded_events
    ∷ hl_fills ∷ hl_funding ∷ positions ∷ wallet_ledger ∷ balance_history ∷ hl_pnl_summary
    ∷ hl_trade_history ∷ protocol_events ∷ pool_snapshots ∷ []

abbrev pub silver_datasets : List DatasetName
silver_datasets =
    ledger_entries ∷ token_transfers ∷ native_balance_deltas ∷ decoded_events ∷ hl_fills
    ∷ hl_funding ∷ positions ∷ []

abbrev pub gold_datasets : List DatasetName
gold_datasets =
    wallet_ledger ∷ balance_history ∷ hl_pnl_summary ∷ hl_trade_history ∷ protocol_events
    ∷ pool_snapshots ∷ []

abbrev pub queryable : List DatasetName
queryable =
    raw_transactions ∷ token_transfers ∷ native_balance_deltas ∷ decoded_events ∷ hl_fills
    ∷ hl_funding ∷ positions ∷ wallet_ledger ∷ balance_history ∷ hl_pnl_summary ∷ hl_trade_history
    ∷ protocol_events ∷ pool_snapshots ∷ []

abbrev pub exportable : List DatasetName
exportable =
    raw_transactions ∷ token_transfers ∷ native_balance_deltas ∷ decoded_events ∷ hl_fills
    ∷ hl_funding ∷ positions ∷ wallet_ledger ∷ balance_history ∷ hl_pnl_summary ∷ hl_trade_history
    ∷ protocol_events ∷ pool_snapshots ∷ []

abbrev pub silver_materializable : List DatasetName
silver_materializable =
    token_transfers ∷ native_balance_deltas ∷ decoded_events ∷ hl_fills ∷ hl_funding ∷ positions
    ∷ []

abbrev pub gold_materializable : List DatasetName
gold_materializable =
    wallet_ledger ∷ balance_history ∷ hl_pnl_summary ∷ hl_trade_history ∷ protocol_events
    ∷ pool_snapshots ∷ []

module _ (fs : FromStr) where
  pub from_physical_table : String → Option DatasetName
  from_physical_table table =
      if str_eq table "hl_fill_records"
      then some hl_fills
      else if str_eq table "hl_funding_payments"
      then some hl_funding
      else if str_eq table "hl_position_changes"
      then some positions
      else fs.parse table

  -- DatasetRegistry::resolve
  pub resolve : String → Option DatasetName
  resolve name = or_else (fs.parse name) (from_physical_table name)

pub chain_family_for_network : String → Option ChainFamily
chain_family_for_network network =
    if starts_with network "solana-"
    then some solana
    else if starts_with network "ethereum-"
        || starts_with network "base-"
        || starts_with network "arbitrum-"
        || starts_with network "hyperevm-"
        || starts_with network "optimism-"
        || starts_with network "polygon-"
        || starts_with network "scroll-"
        || starts_with network "zksync-"
        || starts_with network "linea-"
        || starts_with network "mantle-"
        || starts_with network "blast-"
    then some evm
    else if starts_with network "hypercore-"
    then some hyperliquid
    else none

pub silver_datasets_for_family : ChainFamily → List DatasetName
silver_datasets_for_family family =
    select (λ d. any (family_eq family) (chain_families d)) silver_materializable

pub silver_datasets_for_network : String → List DatasetName
silver_datasets_for_network network = elim (chain_family_for_network network) [
  | some family ↦ silver_datasets_for_family family
  | none ↦ []
]

pub is_queryable : String → Bool
is_queryable name = any (λ d. str_eq (as_sql_str d) name) queryable

pub is_exportable : String → Bool
is_exportable name = any (λ d. str_eq (as_sql_str d) name) exportable

-- ===== src/Csv/Records.antt =====
-- The records of the datasets that are exported: core/src/materializer.rs, and RawTransaction of
-- core/src/v2.rs. `D` is BigDecimal and `V` is serde_json::Value; a UUID and a time are numbers.
use spectraplex.Base.{ℕ, ℤ, Bool, Option}
use spectraplex.Csv.{Text}

pub record RawTransaction (D V : Type 0) : Type 0 where
  pub id : ℕ
  pub network : Text
  pub tx_hash : Text
  pub timestamp : ℤ
  pub block_number : Option ℤ
  pub raw_metadata : V
  pub source : Text
  pub ingestion_run_id : Option ℕ
  pub ingested_at : ℕ

pub record TokenTransfer (D V : Type 0) : Type 0 where
  pub id : ℕ
  pub raw_transaction_id : Option ℕ
  pub network : Text
  pub token_address : Text
  pub token_symbol : Option Text
  pub from_address : Text
  pub to_address : Text
  pub amount : D
  pub decimals : ℤ
  pub transfer_index : ℤ
  pub dataset_version_id : Option ℕ
  pub created_at : ℕ

pub record DecodedEvent (D V : Type 0) : Type 0 where
  pub id : ℕ
  pub raw_transaction_id : Option ℕ
  pub network : Text
  pub program_or_contract : Text
  pub event_signature : Option Text
  pub event_name : Option Text
  pub log_index : ℤ
  pub decoded_fields : V
  pub raw_fields : V
  pub dataset_version_id : Option ℕ
  pub created_at : ℕ

pub record NativeBalanceDelta (D V : Type 0) : Type 0 where
  pub id : ℕ
  pub raw_transaction_id : Option ℕ
  pub network : Text
  pub account_address : Text
  pub native_token : Text
  pub pre_balance : D
  pub post_balance : D
  pub delta : D
  pub is_fee_payer : Bool
  pub dataset_version_id : Option ℕ
  pub created_at : ℕ

pub record HlFillRecord (D V : Type 0) : Type 0 where
  pub id : ℕ
  pub raw_transaction_id : Option ℕ
  pub network : Text
  pub coin : Text
  pub side : Text
  pub price : D
  pub size : D
  pub direction : Option Text
  pub closed_pnl : Option D
  pub fee : Option D
  pub fee_token : Option Text
  pub fill_time : ℤ
  pub order_id : Option ℤ
  pub trade_id : Option ℤ
  pub dataset_version_id : Option ℕ
  pub created_at : ℕ

pub record HlFundingPayment (D V : Type 0) : Type 0 where
  pub id : ℕ
  pub raw_transaction_id : Option ℕ
  pub network : Text
  pub coin : Text
  pub amount : D
  pub funding_rate : Option D
  pub payment_time : ℤ
  pub dataset_version_id : Option ℕ
  pub created_at : ℕ

pub record HlPositionChange (D V : Type 0) : Type 0 where
  pub id : ℕ
  pub raw_transaction_id : Option ℕ
  pub network : Text
  pub coin : Text
  pub side : Text
  pub size_delta : D
  pub price : D
  pub direction : Option Text
  pub source_event : Text
  pub dataset_version_id : Option ℕ
  pub created_at : ℕ

pub record WalletLedgerRecord (D V : Type 0) : Type 0 where
  pub id : ℕ
  pub raw_transaction_id : Option ℕ
  pub wallet_address : Text
  pub network : Text
  pub tx_hash : Text
  pub timestamp : ℤ
  pub entry_type : Text
  pub asset_symbol : Text
  pub amount : D
  pub counterparty_address : Option Text
  pub fee_amount : Option D
  pub fee_asset : Option Text
  pub cost_basis : Option D
  pub proceeds : Option D
  pub dataset_version_id : Option ℕ
  pub created_at : ℕ

pub record BalanceSnapshot (D V : Type 0) : Type 0 where
  pub id : ℕ
  pub wallet_address : Text
  pub asset_symbol : Text
  pub network : Text
  pub timestamp : ℤ
  pub balance : D
  pub tx_hash : Text
  pub dataset_version_id : Option ℕ
  pub created_at : ℕ

pub record HlPnlSummary (D V : Type 0) : Type 0 where
  pub id : ℕ
  pub wallet_address : Text
  pub coin : Text
  pub network : Text
  pub period_start : ℤ
  pub period_end : ℤ
  pub total_closed_pnl : D
  pub total_funding : D
  pub total_fees : D
  pub net_pnl : D
  pub trade_count : ℤ
  pub fill_count : ℤ
  pub avg_trade_size : D
  pub win_count : ℤ
  pub loss_count : ℤ
  pub dataset_version_id : Option ℕ
  pub created_at : ℕ

pub record HlTradeHistory (D V : Type 0) : Type 0 where
  pub id : ℕ
  pub wallet_address : Text
  pub coin : Text
  pub network : Text
  pub side : Text
  pub entry_price : D
  pub exit_price : D
  pub size : D
  pub opened_at : ℤ
  pub closed_at : ℤ
  pub realized_pnl : D
  pub fees : D
  pub num_fills : ℤ
  pub dataset_version_id : Option ℕ
  pub created_at : ℕ

pub record ProtocolEvent (D V : Type 0) : Type 0 where
  pub id : ℕ
  pub network : Text
  pub protocol_address : Text
  pub protocol_name : Option Text
  pub event_type : Text
  pub event_details : V
  pub pool_address : Option Text
  pub raw_event_id : Option ℕ
  pub timestamp : ℤ
  pub dataset_version_id : Option ℕ
  pub created_at : ℕ

pub record PoolSnapshot (D V : Type 0) : Type 0 where
  pub id : ℕ
  pub network : Text
  pub pool_address : Text
  pub protocol_address : Text
  pub protocol_name : Option Text
  pub token0_address : Text
  pub token0_symbol : Option Text
  pub token1_address : Text
  pub token1_symbol : Option Text
  pub reserve0 : D
  pub reserve1 : D
  pub tvl_usd : Option D
  pub snapshot_timestamp : ℤ
  pub block_number : Option ℤ
  pub dataset_version_id : Option ℕ
  pub created_at : ℕ

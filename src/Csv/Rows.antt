-- ===== src/Csv/Rows.antt =====
-- The header and the rows of each dataset's CSV file: api/src/export_csv.rs, with the raw transactions
-- of encode_batch in api/src/export_stream.rs. `*_args` are the arguments of the format of a row; the
-- rows are those of `write_rows`.
use spectraplex.Base.{String, List, [], ◌∷◌}
use spectraplex.Csv.{
  Text, Display, uuid, uuid_option, escaped, escaped_option, escaped_value, decimal, decimal_option,
  integer, integer_option, boolean, instant, Row, write_rows,
}
use spectraplex.Csv.Records.{
  RawTransaction, TokenTransfer, DecodedEvent, NativeBalanceDelta, HlFillRecord, HlFundingPayment,
  HlPositionChange, WalletLedgerRecord, BalanceSnapshot, HlPnlSummary, HlTradeHistory,
  ProtocolEvent, PoolSnapshot,
}

abbrev pub raw_transactions_csv_header : String
raw_transactions_csv_header = "id,network,tx_hash,timestamp,block_number,source,raw_metadata\n"

abbrev pub token_transfers_csv_header : String
token_transfers_csv_header =
    "id,raw_transaction_id,network,token_address,token_symbol,from_address,to_address,amount,decimals,transfer_index,dataset_version_id,created_at\n"

abbrev pub native_balance_deltas_csv_header : String
native_balance_deltas_csv_header =
    "id,raw_transaction_id,network,account_address,native_token,pre_balance,post_balance,delta,is_fee_payer,dataset_version_id,created_at\n"

abbrev pub decoded_events_csv_header : String
decoded_events_csv_header =
    "id,raw_transaction_id,network,program_or_contract,event_signature,event_name,log_index,dataset_version_id,created_at\n"

abbrev pub hl_fills_csv_header : String
hl_fills_csv_header =
    "id,raw_transaction_id,network,coin,side,price,size,direction,closed_pnl,fee,fee_token,fill_time,order_id,trade_id,dataset_version_id,created_at\n"

abbrev pub hl_funding_csv_header : String
hl_funding_csv_header =
    "id,raw_transaction_id,network,coin,amount,funding_rate,payment_time,dataset_version_id,created_at\n"

abbrev pub hl_positions_csv_header : String
hl_positions_csv_header =
    "id,raw_transaction_id,network,coin,side,size_delta,price,direction,source_event,dataset_version_id,created_at\n"

abbrev pub wallet_ledger_csv_header : String
wallet_ledger_csv_header =
    "id,raw_transaction_id,wallet_address,network,tx_hash,timestamp,entry_type,asset_symbol,amount,counterparty_address,fee_amount,fee_asset,cost_basis,proceeds,dataset_version_id,created_at\n"

abbrev pub balance_history_csv_header : String
balance_history_csv_header =
    "id,wallet_address,asset_symbol,network,timestamp,balance,tx_hash,dataset_version_id,created_at\n"

abbrev pub hl_pnl_summary_csv_header : String
hl_pnl_summary_csv_header =
    "id,wallet_address,coin,network,period_start,period_end,total_closed_pnl,total_funding,total_fees,net_pnl,trade_count,fill_count,avg_trade_size,win_count,loss_count,dataset_version_id,created_at\n"

abbrev pub hl_trade_history_csv_header : String
hl_trade_history_csv_header =
    "id,wallet_address,coin,network,side,entry_price,exit_price,size,opened_at,closed_at,realized_pnl,fees,num_fills,dataset_version_id,created_at\n"

abbrev pub protocol_events_csv_header : String
protocol_events_csv_header =
    "id,network,protocol_address,protocol_name,event_type,event_details,pool_address,raw_event_id,timestamp,dataset_version_id,created_at\n"

abbrev pub pool_snapshots_csv_header : String
pool_snapshots_csv_header =
    "id,network,pool_address,protocol_address,protocol_name,token0_address,token0_symbol,token1_address,token1_symbol,reserve0,reserve1,tvl_usd,snapshot_timestamp,block_number,dataset_version_id,created_at\n"

module _ (o : Display) where
  abbrev pub raw_transactions_args : RawTransaction o.BigDecimal o.Value → Row o
  raw_transactions_args r =
      uuid r.id
      ∷ escaped r.network
      ∷ escaped r.tx_hash
      ∷ integer r.timestamp
      ∷ integer_option r.block_number
      ∷ escaped r.source
      ∷ escaped_value r.raw_metadata
      ∷ []

  unfoldable pub write_raw_transactions_csv_rows : List (RawTransaction o.BigDecimal o.Value) → Text
  write_raw_transactions_csv_rows = write_rows o raw_transactions_args

  abbrev pub token_transfers_args : TokenTransfer o.BigDecimal o.Value → Row o
  token_transfers_args r =
      uuid r.id
      ∷ uuid_option r.raw_transaction_id
      ∷ escaped r.network
      ∷ escaped r.token_address
      ∷ escaped_option r.token_symbol
      ∷ escaped r.from_address
      ∷ escaped r.to_address
      ∷ decimal r.amount
      ∷ integer r.decimals
      ∷ integer r.transfer_index
      ∷ uuid_option r.dataset_version_id
      ∷ instant r.created_at
      ∷ []

  unfoldable pub write_token_transfers_csv_rows : List (TokenTransfer o.BigDecimal o.Value) → Text
  write_token_transfers_csv_rows = write_rows o token_transfers_args

  abbrev pub native_balance_deltas_args : NativeBalanceDelta o.BigDecimal o.Value → Row o
  native_balance_deltas_args r =
      uuid r.id
      ∷ uuid_option r.raw_transaction_id
      ∷ escaped r.network
      ∷ escaped r.account_address
      ∷ escaped r.native_token
      ∷ decimal r.pre_balance
      ∷ decimal r.post_balance
      ∷ decimal r.delta
      ∷ boolean r.is_fee_payer
      ∷ uuid_option r.dataset_version_id
      ∷ instant r.created_at
      ∷ []

  unfoldable pub write_native_balance_deltas_csv_rows :
      List (NativeBalanceDelta o.BigDecimal o.Value) → Text
  write_native_balance_deltas_csv_rows = write_rows o native_balance_deltas_args

  abbrev pub decoded_events_args : DecodedEvent o.BigDecimal o.Value → Row o
  decoded_events_args r =
      uuid r.id
      ∷ uuid_option r.raw_transaction_id
      ∷ escaped r.network
      ∷ escaped r.program_or_contract
      ∷ escaped_option r.event_signature
      ∷ escaped_option r.event_name
      ∷ integer r.log_index
      ∷ uuid_option r.dataset_version_id
      ∷ instant r.created_at
      ∷ []

  unfoldable pub write_decoded_events_csv_rows : List (DecodedEvent o.BigDecimal o.Value) → Text
  write_decoded_events_csv_rows = write_rows o decoded_events_args

  abbrev pub hl_fills_args : HlFillRecord o.BigDecimal o.Value → Row o
  hl_fills_args r =
      uuid r.id
      ∷ uuid_option r.raw_transaction_id
      ∷ escaped r.network
      ∷ escaped r.coin
      ∷ escaped r.side
      ∷ decimal r.price
      ∷ decimal r.size
      ∷ escaped_option r.direction
      ∷ decimal_option r.closed_pnl
      ∷ decimal_option r.fee
      ∷ escaped_option r.fee_token
      ∷ integer r.fill_time
      ∷ integer_option r.order_id
      ∷ integer_option r.trade_id
      ∷ uuid_option r.dataset_version_id
      ∷ instant r.created_at
      ∷ []

  unfoldable pub write_hl_fills_csv_rows : List (HlFillRecord o.BigDecimal o.Value) → Text
  write_hl_fills_csv_rows = write_rows o hl_fills_args

  abbrev pub hl_funding_args : HlFundingPayment o.BigDecimal o.Value → Row o
  hl_funding_args r =
      uuid r.id
      ∷ uuid_option r.raw_transaction_id
      ∷ escaped r.network
      ∷ escaped r.coin
      ∷ decimal r.amount
      ∷ decimal_option r.funding_rate
      ∷ integer r.payment_time
      ∷ uuid_option r.dataset_version_id
      ∷ instant r.created_at
      ∷ []

  unfoldable pub write_hl_funding_csv_rows : List (HlFundingPayment o.BigDecimal o.Value) → Text
  write_hl_funding_csv_rows = write_rows o hl_funding_args

  abbrev pub hl_positions_args : HlPositionChange o.BigDecimal o.Value → Row o
  hl_positions_args r =
      uuid r.id
      ∷ uuid_option r.raw_transaction_id
      ∷ escaped r.network
      ∷ escaped r.coin
      ∷ escaped r.side
      ∷ decimal r.size_delta
      ∷ decimal r.price
      ∷ escaped_option r.direction
      ∷ escaped r.source_event
      ∷ uuid_option r.dataset_version_id
      ∷ instant r.created_at
      ∷ []

  unfoldable pub write_hl_positions_csv_rows : List (HlPositionChange o.BigDecimal o.Value) → Text
  write_hl_positions_csv_rows = write_rows o hl_positions_args

  abbrev pub wallet_ledger_args : WalletLedgerRecord o.BigDecimal o.Value → Row o
  wallet_ledger_args r =
      uuid r.id
      ∷ uuid_option r.raw_transaction_id
      ∷ escaped r.wallet_address
      ∷ escaped r.network
      ∷ escaped r.tx_hash
      ∷ integer r.timestamp
      ∷ escaped r.entry_type
      ∷ escaped r.asset_symbol
      ∷ decimal r.amount
      ∷ escaped_option r.counterparty_address
      ∷ decimal_option r.fee_amount
      ∷ escaped_option r.fee_asset
      ∷ decimal_option r.cost_basis
      ∷ decimal_option r.proceeds
      ∷ uuid_option r.dataset_version_id
      ∷ instant r.created_at
      ∷ []

  unfoldable pub write_wallet_ledger_csv_rows :
      List (WalletLedgerRecord o.BigDecimal o.Value) → Text
  write_wallet_ledger_csv_rows = write_rows o wallet_ledger_args

  abbrev pub balance_history_args : BalanceSnapshot o.BigDecimal o.Value → Row o
  balance_history_args r =
      uuid r.id
      ∷ escaped r.wallet_address
      ∷ escaped r.asset_symbol
      ∷ escaped r.network
      ∷ integer r.timestamp
      ∷ decimal r.balance
      ∷ escaped r.tx_hash
      ∷ uuid_option r.dataset_version_id
      ∷ instant r.created_at
      ∷ []

  unfoldable pub write_balance_history_csv_rows : List (BalanceSnapshot o.BigDecimal o.Value) → Text
  write_balance_history_csv_rows = write_rows o balance_history_args

  abbrev pub hl_pnl_summary_args : HlPnlSummary o.BigDecimal o.Value → Row o
  hl_pnl_summary_args r =
      uuid r.id
      ∷ escaped r.wallet_address
      ∷ escaped r.coin
      ∷ escaped r.network
      ∷ integer r.period_start
      ∷ integer r.period_end
      ∷ decimal r.total_closed_pnl
      ∷ decimal r.total_funding
      ∷ decimal r.total_fees
      ∷ decimal r.net_pnl
      ∷ integer r.trade_count
      ∷ integer r.fill_count
      ∷ decimal r.avg_trade_size
      ∷ integer r.win_count
      ∷ integer r.loss_count
      ∷ uuid_option r.dataset_version_id
      ∷ instant r.created_at
      ∷ []

  unfoldable pub write_hl_pnl_summary_csv_rows : List (HlPnlSummary o.BigDecimal o.Value) → Text
  write_hl_pnl_summary_csv_rows = write_rows o hl_pnl_summary_args

  abbrev pub hl_trade_history_args : HlTradeHistory o.BigDecimal o.Value → Row o
  hl_trade_history_args r =
      uuid r.id
      ∷ escaped r.wallet_address
      ∷ escaped r.coin
      ∷ escaped r.network
      ∷ escaped r.side
      ∷ decimal r.entry_price
      ∷ decimal r.exit_price
      ∷ decimal r.size
      ∷ integer r.opened_at
      ∷ integer r.closed_at
      ∷ decimal r.realized_pnl
      ∷ decimal r.fees
      ∷ integer r.num_fills
      ∷ uuid_option r.dataset_version_id
      ∷ instant r.created_at
      ∷ []

  unfoldable pub write_hl_trade_history_csv_rows : List (HlTradeHistory o.BigDecimal o.Value) → Text
  write_hl_trade_history_csv_rows = write_rows o hl_trade_history_args

  abbrev pub protocol_events_args : ProtocolEvent o.BigDecimal o.Value → Row o
  protocol_events_args r =
      uuid r.id
      ∷ escaped r.network
      ∷ escaped r.protocol_address
      ∷ escaped_option r.protocol_name
      ∷ escaped r.event_type
      ∷ escaped_value r.event_details
      ∷ escaped_option r.pool_address
      ∷ uuid_option r.raw_event_id
      ∷ integer r.timestamp
      ∷ uuid_option r.dataset_version_id
      ∷ instant r.created_at
      ∷ []

  unfoldable pub write_protocol_events_csv_rows : List (ProtocolEvent o.BigDecimal o.Value) → Text
  write_protocol_events_csv_rows = write_rows o protocol_events_args

  abbrev pub pool_snapshots_args : PoolSnapshot o.BigDecimal o.Value → Row o
  pool_snapshots_args r =
      uuid r.id
      ∷ escaped r.network
      ∷ escaped r.pool_address
      ∷ escaped r.protocol_address
      ∷ escaped_option r.protocol_name
      ∷ escaped r.token0_address
      ∷ escaped_option r.token0_symbol
      ∷ escaped r.token1_address
      ∷ escaped_option r.token1_symbol
      ∷ decimal r.reserve0
      ∷ decimal r.reserve1
      ∷ decimal_option r.tvl_usd
      ∷ integer r.snapshot_timestamp
      ∷ integer_option r.block_number
      ∷ uuid_option r.dataset_version_id
      ∷ instant r.created_at
      ∷ []

  unfoldable pub write_pool_snapshots_csv_rows : List (PoolSnapshot o.BigDecimal o.Value) → Text
  write_pool_snapshots_csv_rows = write_rows o pool_snapshots_args

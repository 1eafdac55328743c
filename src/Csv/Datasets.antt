-- ===== src/Csv/Datasets.antt =====
-- The datasets as their readers see them: the columns of each and its records, and that a file of a
-- dataset is read back.
use spectraplex.Base.{
  String, ◌≡◌, refl, ap, sym, ◌∙◌, some, List, [], ◌∷◌, ◌++◌, map, length, length-append,
  concat_map, append_assoc, append_nil, arith,
}
use spectraplex.Csv.{Text, codes, Display, Row, write_rows}
use spectraplex.Csv.Records.{
  RawTransaction, TokenTransfer, NativeBalanceDelta, DecodedEvent, HlFillRecord, HlFundingPayment,
  HlPositionChange, WalletLedgerRecord, BalanceSnapshot, HlPnlSummary, HlTradeHistory,
  ProtocolEvent, PoolSnapshot,
}
use spectraplex.Csv.Rows.{
  raw_transactions_args, write_raw_transactions_csv_rows, token_transfers_args,
  write_token_transfers_csv_rows, native_balance_deltas_args, write_native_balance_deltas_csv_rows,
  decoded_events_args, write_decoded_events_csv_rows, hl_fills_args, write_hl_fills_csv_rows,
  hl_funding_args, write_hl_funding_csv_rows, hl_positions_args, write_hl_positions_csv_rows,
  wallet_ledger_args, write_wallet_ledger_csv_rows, balance_history_args,
  write_balance_history_csv_rows, hl_pnl_summary_args, write_hl_pnl_summary_csv_rows,
  hl_trade_history_args, write_hl_trade_history_csv_rows, protocol_events_args,
  write_protocol_events_csv_rows, pool_snapshots_args, write_pool_snapshots_csv_rows,
}
use spectraplex.Csv.Stream.{
  ExportRecordBatch, csv_header_for, encode_batch, write_export_to_file, len, total_len,
}
use spectraplex.Csv.Reader.{start, read, nothing_read, finished, read_csv}
use spectraplex.Csv.Cells.{fresh}
use spectraplex.Csv.Roundtrip.{PrintsPlain, cells_of, HasCells, read_rows}

-- The datasets that can be exported.
pub data Exported : Type 0 where
  raw_transactions token_transfers native_balance_deltas decoded_events hl_fills hl_funding
        positions wallet_ledger balance_history hl_pnl_summary hl_trade_history protocol_events
        pool_snapshots :
      Exported

abbrev pub name : Exported → String
name raw_transactions = "raw_transactions"
name token_transfers = "token_transfers"
name native_balance_deltas = "native_balance_deltas"
name decoded_events = "decoded_events"
name hl_fills = "hl_fills"
name hl_funding = "hl_funding"
name positions = "positions"
name wallet_ledger = "wallet_ledger"
name balance_history = "balance_history"
name hl_pnl_summary = "hl_pnl_summary"
name hl_trade_history = "hl_trade_history"
name protocol_events = "protocol_events"
name pool_snapshots = "pool_snapshots"

abbrev pub columns : Exported → List String
columns raw_transactions =
    "id" ∷ "network" ∷ "tx_hash" ∷ "timestamp" ∷ "block_number" ∷ "source" ∷ "raw_metadata" ∷ []
columns token_transfers =
    "id" ∷ "raw_transaction_id" ∷ "network" ∷ "token_address" ∷ "token_symbol" ∷ "from_address"
    ∷ "to_address" ∷ "amount" ∷ "decimals" ∷ "transfer_index" ∷ "dataset_version_id" ∷ "created_at"
    ∷ []
columns native_balance_deltas =
    "id" ∷ "raw_transaction_id" ∷ "network" ∷ "account_address" ∷ "native_token" ∷ "pre_balance"
    ∷ "post_balance" ∷ "delta" ∷ "is_fee_payer" ∷ "dataset_version_id" ∷ "created_at" ∷ []
columns decoded_events =
    "id" ∷ "raw_transaction_id" ∷ "network" ∷ "program_or_contract" ∷ "event_signature"
    ∷ "event_name" ∷ "log_index" ∷ "dataset_version_id" ∷ "created_at" ∷ []
columns hl_fills =
    "id" ∷ "raw_transaction_id" ∷ "network" ∷ "coin" ∷ "side" ∷ "price" ∷ "size" ∷ "direction"
    ∷ "closed_pnl" ∷ "fee" ∷ "fee_token" ∷ "fill_time" ∷ "order_id" ∷ "trade_id"
    ∷ "dataset_version_id" ∷ "created_at" ∷ []
columns hl_funding =
    "id" ∷ "raw_transaction_id" ∷ "network" ∷ "coin" ∷ "amount" ∷ "funding_rate" ∷ "payment_time"
    ∷ "dataset_version_id" ∷ "created_at" ∷ []
columns positions =
    "id" ∷ "raw_transaction_id" ∷ "network" ∷ "coin" ∷ "side" ∷ "size_delta" ∷ "price" ∷ "direction"
    ∷ "source_event" ∷ "dataset_version_id" ∷ "created_at" ∷ []
columns wallet_ledger =
    "id" ∷ "raw_transaction_id" ∷ "wallet_address" ∷ "network" ∷ "tx_hash" ∷ "timestamp"
    ∷ "entry_type" ∷ "asset_symbol" ∷ "amount" ∷ "counterparty_address" ∷ "fee_amount" ∷ "fee_asset"
    ∷ "cost_basis" ∷ "proceeds" ∷ "dataset_version_id" ∷ "created_at" ∷ []
columns balance_history =
    "id" ∷ "wallet_address" ∷ "asset_symbol" ∷ "network" ∷ "timestamp" ∷ "balance" ∷ "tx_hash"
    ∷ "dataset_version_id" ∷ "created_at" ∷ []
columns hl_pnl_summary =
    "id" ∷ "wallet_address" ∷ "coin" ∷ "network" ∷ "period_start" ∷ "period_end"
    ∷ "total_closed_pnl" ∷ "total_funding" ∷ "total_fees" ∷ "net_pnl" ∷ "trade_count" ∷ "fill_count"
    ∷ "avg_trade_size" ∷ "win_count" ∷ "loss_count" ∷ "dataset_version_id" ∷ "created_at" ∷ []
columns hl_trade_history =
    "id" ∷ "wallet_address" ∷ "coin" ∷ "network" ∷ "side" ∷ "entry_price" ∷ "exit_price" ∷ "size"
    ∷ "opened_at" ∷ "closed_at" ∷ "realized_pnl" ∷ "fees" ∷ "num_fills" ∷ "dataset_version_id"
    ∷ "created_at" ∷ []
columns protocol_events =
    "id" ∷ "network" ∷ "protocol_address" ∷ "protocol_name" ∷ "event_type" ∷ "event_details"
    ∷ "pool_address" ∷ "raw_event_id" ∷ "timestamp" ∷ "dataset_version_id" ∷ "created_at" ∷ []
columns pool_snapshots =
    "id" ∷ "network" ∷ "pool_address" ∷ "protocol_address" ∷ "protocol_name" ∷ "token0_address"
    ∷ "token0_symbol" ∷ "token1_address" ∷ "token1_symbol" ∷ "reserve0" ∷ "reserve1" ∷ "tvl_usd"
    ∷ "snapshot_timestamp" ∷ "block_number" ∷ "dataset_version_id" ∷ "created_at" ∷ []

-- The columns come back from the header of the dataset.
read_header :
    (d : Exported)
    → (h : String) × (csv_header_for (name d) ≡ some h)
      × ((rest : Text)
          → read (codes h ++ rest) start nothing_read
            ≡ read rest start (fresh (map codes (columns d) ∷ []) [] []))
unfolding csv_header_for read_csv
read_header raw_transactions = (_, refl, λ rest. refl)
read_header token_transfers = (_, refl, λ rest. refl)
read_header native_balance_deltas = (_, refl, λ rest. refl)
read_header decoded_events = (_, refl, λ rest. refl)
read_header hl_fills = (_, refl, λ rest. refl)
read_header hl_funding = (_, refl, λ rest. refl)
read_header positions = (_, refl, λ rest. refl)
read_header wallet_ledger = (_, refl, λ rest. refl)
read_header balance_history = (_, refl, λ rest. refl)
read_header hl_pnl_summary = (_, refl, λ rest. refl)
read_header hl_trade_history = (_, refl, λ rest. refl)
read_header protocol_events = (_, refl, λ rest. refl)
read_header pool_snapshots = (_, refl, λ rest. refl)

module _ (o : Display) where
  abbrev pub RecordOf : Exported → Type 0
  RecordOf raw_transactions = RawTransaction o.BigDecimal o.Value
  RecordOf token_transfers = TokenTransfer o.BigDecimal o.Value
  RecordOf native_balance_deltas = NativeBalanceDelta o.BigDecimal o.Value
  RecordOf decoded_events = DecodedEvent o.BigDecimal o.Value
  RecordOf hl_fills = HlFillRecord o.BigDecimal o.Value
  RecordOf hl_funding = HlFundingPayment o.BigDecimal o.Value
  RecordOf positions = HlPositionChange o.BigDecimal o.Value
  RecordOf wallet_ledger = WalletLedgerRecord o.BigDecimal o.Value
  RecordOf balance_history = BalanceSnapshot o.BigDecimal o.Value
  RecordOf hl_pnl_summary = HlPnlSummary o.BigDecimal o.Value
  RecordOf hl_trade_history = HlTradeHistory o.BigDecimal o.Value
  RecordOf protocol_events = ProtocolEvent o.BigDecimal o.Value
  RecordOf pool_snapshots = PoolSnapshot o.BigDecimal o.Value

  -- The constructor that the streaming of the dataset is given.
  abbrev pub batch : (d : Exported) → List (RecordOf d) → ExportRecordBatch o.BigDecimal o.Value
  batch raw_transactions v = ExportRecordBatch.raw_transactions v
  batch token_transfers v = ExportRecordBatch.token_transfers v
  batch native_balance_deltas v = ExportRecordBatch.native_balance_deltas v
  batch decoded_events v = ExportRecordBatch.decoded_events v
  batch hl_fills v = ExportRecordBatch.hl_fills v
  batch hl_funding v = ExportRecordBatch.hl_funding v
  batch positions v = ExportRecordBatch.positions v
  batch wallet_ledger v = ExportRecordBatch.wallet_ledger v
  batch balance_history v = ExportRecordBatch.balance_history v
  batch hl_pnl_summary v = ExportRecordBatch.hl_pnl_summary v
  batch hl_trade_history v = ExportRecordBatch.hl_trade_history v
  batch protocol_events v = ExportRecordBatch.protocol_events v
  batch pool_snapshots v = ExportRecordBatch.pool_snapshots v

  abbrev pub args : (d : Exported) → RecordOf d → Row o
  args raw_transactions r = raw_transactions_args o r
  args token_transfers r = token_transfers_args o r
  args native_balance_deltas r = native_balance_deltas_args o r
  args decoded_events r = decoded_events_args o r
  args hl_fills r = hl_fills_args o r
  args hl_funding r = hl_funding_args o r
  args positions r = hl_positions_args o r
  args wallet_ledger r = wallet_ledger_args o r
  args balance_history r = balance_history_args o r
  args hl_pnl_summary r = hl_pnl_summary_args o r
  args hl_trade_history r = hl_trade_history_args o r
  args protocol_events r = protocol_events_args o r
  args pool_snapshots r = pool_snapshots_args o r

  encode-batch :
      (d : Exported) (v : List (RecordOf d)) → encode_batch o (batch d v) ≡ write_rows o (args d) v
  unfolding encode_batch write_raw_transactions_csv_rows write_token_transfers_csv_rows
      write_native_balance_deltas_csv_rows write_decoded_events_csv_rows write_hl_fills_csv_rows
      write_hl_funding_csv_rows write_hl_positions_csv_rows write_wallet_ledger_csv_rows
      write_balance_history_csv_rows write_hl_pnl_summary_csv_rows write_hl_trade_history_csv_rows
      write_protocol_events_csv_rows write_pool_snapshots_csv_rows
  encode-batch raw_transactions v = refl
  encode-batch token_transfers v = refl
  encode-batch native_balance_deltas v = refl
  encode-batch decoded_events v = refl
  encode-batch hl_fills v = refl
  encode-batch hl_funding v = refl
  encode-batch positions v = refl
  encode-batch wallet_ledger v = refl
  encode-batch balance_history v = refl
  encode-batch hl_pnl_summary v = refl
  encode-batch hl_trade_history v = refl
  encode-batch protocol_events v = refl
  encode-batch pool_snapshots v = refl

  has_cells : (d : Exported) → HasCells o (args d)
  has_cells raw_transactions r = (_, _, refl)
  has_cells token_transfers r = (_, _, refl)
  has_cells native_balance_deltas r = (_, _, refl)
  has_cells decoded_events r = (_, _, refl)
  has_cells hl_fills r = (_, _, refl)
  has_cells hl_funding r = (_, _, refl)
  has_cells positions r = (_, _, refl)
  has_cells wallet_ledger r = (_, _, refl)
  has_cells balance_history r = (_, _, refl)
  has_cells hl_pnl_summary r = (_, _, refl)
  has_cells hl_trade_history r = (_, _, refl)
  has_cells protocol_events r = (_, _, refl)
  has_cells pool_snapshots r = (_, _, refl)

  -- Every record has a cell for each column of its dataset.
  pub length-args : (d : Exported) (r : RecordOf d) → length (args d r) ≡ length (columns d)
  length-args raw_transactions r = refl
  length-args token_transfers r = refl
  length-args native_balance_deltas r = refl
  length-args decoded_events r = refl
  length-args hl_fills r = refl
  length-args hl_funding r = refl
  length-args positions r = refl
  length-args wallet_ledger r = refl
  length-args balance_history r = refl
  length-args hl_pnl_summary r = refl
  length-args hl_trade_history r = refl
  length-args protocol_events r = refl
  length-args pool_snapshots r = refl

  header_and_rows :
      PrintsPlain o
      → (d : Exported) (h : String)
      → ((rest : Text)
          → read (codes h ++ rest) start nothing_read
            ≡ read rest start (fresh (map codes (columns d) ∷ []) [] []))
      → (v : List (RecordOf d))
      → read_csv (codes h ++ write_rows o (args d) v)
        ≡ some (map codes (columns d) ∷ map (λ r. cells_of o (args d r)) v)
  unfolding read_csv
  header_and_rows plain d h e v = ap finished (
      ap (λ t. read (codes h ++ t) start nothing_read) (sym (append_nil (write_rows o (args d) v)))
      ∙ e (write_rows o (args d) v ++ [])
      ∙ read_rows o plain (args d) (has_cells d) v [] (map codes (columns d) ∷ []))

  write_rows-append :
      {R : Type 0} (f : R → Row o) (xs ys : List R)
      → write_rows o f (xs ++ ys) ≡ write_rows o f xs ++ write_rows o f ys
  unfolding write_rows
  write_rows-append f [] ys = refl
  write_rows-append f (x ∷ xs) ys = simp (write_rows-append f xs ys, append_assoc)

  encode-pages :
      (d : Exported) (pages : List (List (RecordOf d)))
      → concat_map (encode_batch o) (map (batch d) pages)
        ≡ write_rows o (args d) (concat_map (λ page. page) pages)
  unfolding write_rows
  encode-pages d [] = refl
  encode-pages d (v ∷ pages) =
      ap (λ t. t ++ concat_map (encode_batch o) (map (batch d) pages)) (encode-batch d v)
      ∙ ap (λ t. write_rows o (args d) v ++ t) (encode-pages d pages)
      ∙ sym (write_rows-append (args d) v (concat_map (λ page. page) pages))

  len-batch : (d : Exported) (v : List (RecordOf d)) → len (batch d v) ≡ length v
  len-batch raw_transactions v = refl
  len-batch token_transfers v = refl
  len-batch native_balance_deltas v = refl
  len-batch decoded_events v = refl
  len-batch hl_fills v = refl
  len-batch hl_funding v = refl
  len-batch positions v = refl
  len-batch wallet_ledger v = refl
  len-batch balance_history v = refl
  len-batch hl_pnl_summary v = refl
  len-batch hl_trade_history v = refl
  len-batch protocol_events v = refl
  len-batch pool_snapshots v = refl

  total_len-pages :
      (d : Exported) (pages : List (List (RecordOf d)))
      → total_len (map (batch d) pages) ≡ length (concat_map (λ page. page) pages)
  total_len-pages d [] = refl
  total_len-pages d (v ∷ pages) = omega (
    arith,
    len-batch d v,
    total_len-pages d pages,
    length-append v (concat_map (λ page. page) pages),
  )

  written :
      (dataset h : String) (batches : List (ExportRecordBatch o.BigDecimal o.Value))
      → csv_header_for dataset ≡ some h
      → write_export_to_file o dataset batches
        ≡ some (codes h ++ concat_map (encode_batch o) batches, total_len batches)
  unfolding write_export_to_file
  written dataset h batches e = rw (e, write_export_to_file) refl

  -- If numbers, UUIDs and times are printed without commas, quotes and line breaks, the CSV file that
  -- is written for the pages of a dataset is read as its columns and then, in order, a row for each
  -- record of the pages, whatever texts the records hold: each cell has the value, or the text
  -- with its protection against formulas. The count is the number of the records.
  pub read_csv-write_export_to_file :
      PrintsPlain o
      → (d : Exported) (pages : List (List (RecordOf d)))
      → (file : Text) × (write_export_to_file o (name d) (map (batch d) pages)
          ≡ some (file, length (concat_map (λ page. page) pages)))
        × (read_csv file
            ≡ some (
                map codes (columns d)
                ∷ map (λ r. cells_of o (args d r)) (concat_map (λ page. page) pages)))
  read_csv-write_export_to_file plain d pages =
      let (h, e, f) = read_header d in
      let records = concat_map (λ page. page) pages in
      (
        codes h ++ write_rows o (args d) records,
        written (name d) h (map (batch d) pages) e
            ∙ rw (encode-pages d pages, total_len-pages d pages) refl,
        header_and_rows plain d h f records,
      )

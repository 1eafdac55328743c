-- ===== src/Csv/Stream.antt =====
-- One export as a CSV file: the batches of adapters/src/v2_repo.rs with the paged reading of a snapshot,
-- and their encoding and writing in api/src/export_stream.rs. The queries, the cancellation and the
-- channel of batches are parameters.
use spectraplex.Base.{
  ℕ, zero, suc, ◌+◌, String, Bool, true, false, ◌||◌, Option, none, some, List, [], ◌∷◌, ◌++◌,
  length, is_empty, concat_map, ltb, leb, if◌then◌else◌, str_eq, saturating_add, i64_max,
}
use spectraplex.Csv.{Text, codes, Display}
use spectraplex.Csv.Records.{
  RawTransaction, TokenTransfer, NativeBalanceDelta, DecodedEvent, HlFillRecord, HlFundingPayment,
  HlPositionChange, WalletLedgerRecord, BalanceSnapshot, HlPnlSummary, HlTradeHistory,
  ProtocolEvent, PoolSnapshot,
}
use spectraplex.Csv.Rows.{
  raw_transactions_csv_header, write_raw_transactions_csv_rows, token_transfers_csv_header,
  write_token_transfers_csv_rows, native_balance_deltas_csv_header,
  write_native_balance_deltas_csv_rows, decoded_events_csv_header, write_decoded_events_csv_rows,
  hl_fills_csv_header, write_hl_fills_csv_rows, hl_funding_csv_header, write_hl_funding_csv_rows,
  hl_positions_csv_header, write_hl_positions_csv_rows, wallet_ledger_csv_header,
  write_wallet_ledger_csv_rows, balance_history_csv_header, write_balance_history_csv_rows,
  hl_pnl_summary_csv_header, write_hl_pnl_summary_csv_rows, hl_trade_history_csv_header,
  write_hl_trade_history_csv_rows, protocol_events_csv_header, write_protocol_events_csv_rows,
  pool_snapshots_csv_header, write_pool_snapshots_csv_rows,
}

pub data ExportRecordBatch (D V : Type 0) : Type 0 where
  raw_transactions : List (RawTransaction D V) → ExportRecordBatch D V
  token_transfers : List (TokenTransfer D V) → ExportRecordBatch D V
  native_balance_deltas : List (NativeBalanceDelta D V) → ExportRecordBatch D V
  decoded_events : List (DecodedEvent D V) → ExportRecordBatch D V
  hl_fills : List (HlFillRecord D V) → ExportRecordBatch D V
  hl_funding : List (HlFundingPayment D V) → ExportRecordBatch D V
  positions : List (HlPositionChange D V) → ExportRecordBatch D V
  wallet_ledger : List (WalletLedgerRecord D V) → ExportRecordBatch D V
  balance_history : List (BalanceSnapshot D V) → ExportRecordBatch D V
  hl_pnl_summary : List (HlPnlSummary D V) → ExportRecordBatch D V
  hl_trade_history : List (HlTradeHistory D V) → ExportRecordBatch D V
  protocol_events : List (ProtocolEvent D V) → ExportRecordBatch D V
  pool_snapshots : List (PoolSnapshot D V) → ExportRecordBatch D V

abbrev pub len : {D V : Type 0} → ExportRecordBatch D V → ℕ
len (raw_transactions v) = length v
len (token_transfers v) = length v
len (native_balance_deltas v) = length v
len (decoded_events v) = length v
len (hl_fills v) = length v
len (hl_funding v) = length v
len (positions v) = length v
len (wallet_ledger v) = length v
len (balance_history v) = length v
len (hl_pnl_summary v) = length v
len (hl_trade_history v) = length v
len (protocol_events v) = length v
len (pool_snapshots v) = length v

unfoldable pub csv_header_for : String → Option String
csv_header_for dataset =
    if str_eq dataset "raw_transactions"
    then some raw_transactions_csv_header
    else if str_eq dataset "token_transfers"
    then some token_transfers_csv_header
    else if str_eq dataset "native_balance_deltas"
    then some native_balance_deltas_csv_header
    else if str_eq dataset "decoded_events"
    then some decoded_events_csv_header
    else if str_eq dataset "hl_fills"
    then some hl_fills_csv_header
    else if str_eq dataset "hl_funding"
    then some hl_funding_csv_header
    else if str_eq dataset "positions"
    then some hl_positions_csv_header
    else if str_eq dataset "wallet_ledger"
    then some wallet_ledger_csv_header
    else if str_eq dataset "balance_history"
    then some balance_history_csv_header
    else if str_eq dataset "hl_pnl_summary"
    then some hl_pnl_summary_csv_header
    else if str_eq dataset "hl_trade_history"
    then some hl_trade_history_csv_header
    else if str_eq dataset "protocol_events"
    then some protocol_events_csv_header
    else if str_eq dataset "pool_snapshots"
    then some pool_snapshots_csv_header
    else none

-- `total += batch.len()`
abbrev pub total_len : {D V : Type 0} → List (ExportRecordBatch D V) → ℕ
total_len [] = 0
total_len (b ∷ batches) = len b + total_len batches

module _ (o : Display) where
  -- The branches of `encode_batch` for CSV.
  unfoldable pub encode_batch : ExportRecordBatch o.BigDecimal o.Value → Text
  encode_batch (raw_transactions v) = write_raw_transactions_csv_rows o v
  encode_batch (token_transfers v) = write_token_transfers_csv_rows o v
  encode_batch (native_balance_deltas v) = write_native_balance_deltas_csv_rows o v
  encode_batch (decoded_events v) = write_decoded_events_csv_rows o v
  encode_batch (hl_fills v) = write_hl_fills_csv_rows o v
  encode_batch (hl_funding v) = write_hl_funding_csv_rows o v
  encode_batch (positions v) = write_hl_positions_csv_rows o v
  encode_batch (wallet_ledger v) = write_wallet_ledger_csv_rows o v
  encode_batch (balance_history v) = write_balance_history_csv_rows o v
  encode_batch (hl_pnl_summary v) = write_hl_pnl_summary_csv_rows o v
  encode_batch (hl_trade_history v) = write_hl_trade_history_csv_rows o v
  encode_batch (protocol_events v) = write_protocol_events_csv_rows o v
  encode_batch (pool_snapshots v) = write_pool_snapshots_csv_rows o v

  -- The file that `write_export_to_file` leaves, given the batches that it receives, and the number of
  -- records: the header comes before the first batch, and also if there is none. An unknown dataset
  -- is refused before the file is opened.
  unfoldable pub write_export_to_file :
      String → List (ExportRecordBatch o.BigDecimal o.Value) → Option (Text × ℕ)
  write_export_to_file dataset batches = elim (csv_header_for dataset) [
    | none ↦ none
    | some header ↦ some (codes header ++ concat_map encode_batch batches, total_len batches)
  ]

pub data StreamError : Type 0 where
  cancelled dropped query_failed : StreamError

-- What a send ends in: `cancelled()` wins over the send.
pub data Sending : Type 0 where
  sent token_cancelled receiver_dropped : Sending

pub data StreamResult : Type 0 where
  ok : ℕ → StreamResult
  err : StreamError → StreamResult

abbrev pub usize_to_i64_or_max : ℕ → ℕ
usize_to_i64_or_max n = if leb n i64_max then n else i64_max

-- `i64::saturating_add`, for arguments that are not negative.
abbrev pub saturating_add_i64 : ℕ → ℕ → ℕ
saturating_add_i64 a b = if leb (a + b) i64_max then a + b else i64_max

-- The world at an offset: what the query for it gives (`none` for an error), whether the token is
-- cancelled before the query, and what the send of its page ends in.
pub record World (R : Type 0) : Type 0 where
  pub query : ℕ → Option (List R)
  pub is_cancelled : ℕ → Bool
  pub send : ℕ → Sending

-- The pages sent, and the result, which is `none` if the fuel runs out.
pub record Streamed (R : Type 0) : Type 0 where
  pub pages : List (List R)
  pub result : Option StreamResult

-- What one round of the loop comes to: its end, or the next offset, total and pages.
pub data Round (R : Type 0) : Type 0 where
  over : Streamed R → Round R
  again : ℕ → ℕ → List (List R) → Round R

module _ {R : Type 0} (w : World R) (page_size hard_cap : ℕ) where
  abbrev pub ends : List (List R) → StreamResult → Round R
  ends pages result = over (record { pages = pages; result = some result })

  -- A round from the send of its page on.
  unfoldable pub after_send : Sending → List R → ℕ → ℕ → List (List R) → Round R
  after_send token_cancelled rows offset total pages = ends pages (err cancelled)
  after_send receiver_dropped rows offset total pages = ends pages (err dropped)
  after_send sent rows offset total pages =
      let total' = saturating_add total (length rows) in
      let page_len = usize_to_i64_or_max (length rows) in
      let offset' = saturating_add_i64 offset page_len in
      if ltb page_len page_size || leb hard_cap offset'
      then ends (pages ++ rows ∷ []) (ok total')
      else again offset' total' (pages ++ rows ∷ [])

  unfoldable pub round : ℕ → ℕ → List (List R) → Round R
  round offset total pages = elim (w.is_cancelled offset) [
    | true ↦ ends pages (err cancelled)
    | false ↦ elim (w.query offset) [
      | none ↦ ends pages (err query_failed)
      | some rows ↦ elim (is_empty rows) [
        | true ↦ ends pages (ok total)
        | false ↦ after_send (w.send offset) rows offset total pages
      ]
    ]
  ]

  unfoldable pub stream_loop : ℕ → ℕ → ℕ → List (List R) → Streamed R
  stream_loop zero offset total pages = record { pages = pages; result = none }
  stream_loop (suc fuel) offset total pages = elim (round offset total pages) [
    | over s ↦ s
    | again offset' total' pages' ↦ stream_loop fuel offset' total' pages'
  ]

  unfoldable pub stream_paged_with_builder_in_tx : ℕ → Streamed R
  stream_paged_with_builder_in_tx fuel = stream_loop fuel 0 0 []

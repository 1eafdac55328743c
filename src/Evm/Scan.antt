-- ===== src/Evm/Scan.antt =====
-- get_logs_with_retry, fetch_logs and fetch_logs_by_topics of adapters/src/evm.rs, and backfills of a
-- contract, one after another.
use spectraplex.Base.{
  ℕ, zero, suc, ◌+◌, min, true, false, Option, none, some, List, [], ◌∷◌, ◌++◌, leb, Result, err,
  ok, and_then, String, unwrap_or, any, str_eq, or_else, if◌then◌else◌,
}
use mathlib.Core.Option
use spectraplex.Evm.{
  EvmError, wrapping_add, wrapping_sub, EvmCursor, scan_window, scan_checkpoint, Log, RawRecord,
  u64_to_i64_or_max,
}

-- RPC_MAX_RETRIES
abbrev pub rpc_max_retries : ℕ
rpc_max_retries = 3

-- The last block of a request.
abbrev pub chunk_end : ℕ → ℕ → ℕ → ℕ
chunk_end block_chunk to_block start =
    min (wrapping_sub (wrapping_add start block_chunk) 1) to_block

-- The answers of the provider to `eth_getLogs` on a range of blocks, by attempt; the filter is fixed.
module _ (get_logs : ℕ → ℕ → ℕ → Result EvmError (List Log)) where
  abbrev pub retry : ℕ → ℕ → Option EvmError → ℕ → ℕ → Result EvmError (List Log)
  retry zero attempt last_err from to = err (unwrap_or last_err EvmError.no_attempt)
  retry (suc left) attempt last_err from to = elim (get_logs attempt from to) [
    | ok logs ↦ ok logs
    | err e ↦ retry left (attempt + 1) (some e) from to
  ]

  unfoldable pub get_logs_with_retry : ℕ → ℕ → Result EvmError (List Log)
  get_logs_with_retry from to = retry rpc_max_retries 0 none from to

  module _ (block_chunk to_block : ℕ) where
    -- The loop, for at most `fuel` rounds.
    unfoldable pub fetch_logs_loop : ℕ → ℕ → List Log → Option (Result EvmError (List Log))
    fetch_logs_loop zero start all_logs = none
    fetch_logs_loop (suc fuel) start all_logs = elim (leb start to_block) [
      | true ↦ elim (get_logs_with_retry start (chunk_end block_chunk to_block start)) [
        | err e ↦ some (err e)
        | ok logs ↦
            fetch_logs_loop fuel (wrapping_add (chunk_end block_chunk to_block start) 1)
              (all_logs ++ logs)
      ]
      | false ↦ some (ok all_logs)
    ]

  unfoldable pub fetch_logs : ℕ → ℕ → ℕ → ℕ → Option (Result EvmError (List Log))
  fetch_logs fuel block_chunk from_block to_block =
      fetch_logs_loop block_chunk to_block fuel from_block []

-- One record for each transaction of the logs, made from its first log.
module _ (enrichment : String → Option ℕ) where
  abbrev pub log_record : String → Log → RawRecord
  log_record tx_hash log = record {
    tx_hash = tx_hash;
    timestamp = u64_to_i64_or_max (unwrap_or (or_else (enrichment tx_hash) log.block_timestamp) 0);
    block_number = Option.map u64_to_i64_or_max log.block_number;
  }

  unfoldable pub records_loop : List Log → List String → List RawRecord → List RawRecord
  records_loop [] emitted records = records
  records_loop (log ∷ logs) emitted records = elim (log.transaction_hash) [
    | none ↦ records_loop logs emitted records
    | some tx_hash ↦ elim (any (str_eq tx_hash) emitted) [
      | true ↦ records_loop logs emitted records
      | false ↦ records_loop logs (tx_hash ∷ emitted) (records ++ log_record tx_hash log ∷ [])
    ]
  ]

  unfoldable pub logs_to_raw_transactions : List Log → List RawRecord
  logs_to_raw_transactions logs = records_loop logs [] []

-- What the worker keeps of a backfill: the records, and the checkpoint if there is one. A failed
-- backfill leaves the cursor. A batch without a checkpoint has no records to derive one from.
abbrev pub keep_batch :
    Option EvmCursor
    → Option (Result EvmError (List RawRecord × Option EvmCursor))
    → List RawRecord × Option EvmCursor
keep_batch cursor none = ([], cursor)
keep_batch cursor (some (err e)) = ([], cursor)
keep_batch cursor (some (ok batch)) = (batch.0, or_else batch.1 cursor)

-- A backfill that the fetch of logs and the enrichment may fail; `none` is a loop out of fuel.
module _ (get_logs : ℕ → ℕ → ℕ → Result EvmError (List Log))
    (enrich : List Log → Result EvmError (String → Option ℕ)) (fuel block_chunk limit : ℕ) where
  abbrev pub to_batch :
      ℕ → ℕ → Result EvmError (List Log) → Result EvmError (List RawRecord × Option EvmCursor)
  to_batch from end fetched = and_then fetched (λ logs. and_then (enrich logs) (λ enrichment. ok (
    logs_to_raw_transactions enrichment logs,
    if leb from end then some (scan_checkpoint end) else none,
  )))

  unfoldable pub contract_backfill :
      Result EvmError ℕ
      → Option EvmCursor
      → Option (Result EvmError (List RawRecord × Option EvmCursor))
  contract_backfill head cursor = elim (scan_window head cursor limit) [
    | err e ↦ some (err e)
    | ok window ↦
        Option.map (to_batch window.0 window.1)
          (fetch_logs get_logs fuel block_chunk window.0 window.1)
  ]

  -- Backfills one after another, each with the head that it sees.
  unfoldable pub contract_backfills :
      List (Result EvmError ℕ) → Option EvmCursor → List RawRecord × Option EvmCursor
  contract_backfills [] cursor = ([], cursor)
  contract_backfills (head ∷ heads) cursor =
      let first = keep_batch cursor (contract_backfill head cursor) in
      let later = contract_backfills heads first.1 in (first.0 ++ later.0, later.1)

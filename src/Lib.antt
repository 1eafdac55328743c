-- ===== src/Lib.antt =====
-- Spectraplex indexes blockchain activity: targets to index are declared, ingestion jobs and stream
-- subscriptions bring raw transactions in, materializers derive silver and gold datasets from them,
-- and export jobs deliver the datasets. This library models the control plane and the pure core of
-- that pipeline.
--
-- Parts and files:
-- - Target: core/src/v2.rs (ChainFamily, TargetKind, TargetMode, IndexTarget), core/src/models.rs
--   (Chain) and core/src/connector.rs (validate_target, ConnectorCapabilities). Target/Codec: the SQL
--   texts of enums in adapters/src/v2_repo.rs.
-- - Dataset: DatasetName, DatasetTier and DatasetRegistry of core/src/materializer.rs.
-- - Jobs: the durable ingestion queue of adapters/src/v2_repo.rs (enqueue, claim, heartbeat, mark
--   running, complete, fail).
-- - Streams: the leases of stream subscriptions in the same file.
-- - Exports: the export jobs in the same file.
-- - Runs: the materialization runs in the same file.
-- - Providers: ProviderRegistry and NetworkContext of core/src/provider.rs, built from the
--   configuration records of core/src/config.rs. ProviderRegistry::resolve is resolve_best here, and
--   the body of from_config's loop is resolve_provider.
-- - Ledger: the derivation of ledger entries of adapters/src/ledger_derivation.rs, whose loops are
--   `each` over a step for one record, with the u32 offset in the state.
-- - Completeness: the completeness records of datasets, from build_dataset_completeness_upsert and
--   update_completeness_after_run of adapters/src/v2_repo.rs; `merge` is the DO UPDATE of the upsert.
-- - Windows: bounded_time_window, the cursors and wallet_backfill of adapters/src/hyperliquid.rs.
--   `backfills` runs one backfill after another, as run_connector_backfill of api/src/worker.rs does,
--   and keeps the rows that commit_connector_batch of adapters/src/workbench_repo.rs writes.
-- - Evm: confirmed_head, scan_window, the log requests, logs_to_raw_transactions and contract_backfill
--   of adapters/src/evm.rs. fetch_logs stands for fetch_logs_by_topics too, whose loop is the same, and
--   contract_backfills for repeated jobs of the worker.
-- - Balances: the recomputation of the balance history of one wallet, network and asset, from
--   materialize_gold_from_silver of adapters/src/dual_write.rs with the queries of v2_repo.rs.
-- - Paging: `signatures` of adapters/src/solana_history.rs.
-- - Compat: the maps, checkpoints and network resolution of adapters/src/dual_write.rs,
--   adapters/src/compat.rs and api/src/worker.rs. A cursor object is the list of its fields.
-- - Csv: api/src/export_csv.rs, with the batches, the file and the paged reading of a snapshot from
--   api/src/export_stream.rs and adapters/src/v2_repo.rs. The arguments of a row's format are a list,
--   `*_args`, whose entries say how each is printed.
-- - Gold: the wallet's ledger records and balance events of materialize_gold_from_silver in
--   adapters/src/dual_write.rs, native_flows of adapters/src/evm_parser.rs and the columns of the tax
--   export in api/src/export_csv.rs. The loops that push to one vector are lists in the order of the
--   code, and the loop over EVM transactions is evm_native, with all that it does for one of them.
-- - Base: what the models share. Base/Table reads a database table as a list of rows, with `update`
--   for UPDATE and `select` for WHERE; Base/Sort and Base/Ranking stand for ORDER BY and LIMIT 1.
--
-- How state corresponds: a database table is a list of its rows, a row is a record with the columns
-- of the code's struct, and a SQL statement or a transaction that holds its row lock is one function
-- on the table. An interleaving of workers is then a list of statements, which `run` executes. The
-- function names are those of the code. An operation that sends several statements outside of a
-- transaction is several steps. NOW() and Utc::now() are seconds given by the caller, a UUID is a
-- number given by the caller, and rows that another transaction holds (SKIP LOCKED) are given by a
-- test on ids. A JSON column is the text of its document. Of the constraints of the tables the models
-- have the unique indexes and the CHECK on the modes of ingestion jobs.
--
-- Code outside the repository is a parameter: the parsers that strum derives (FromStr in Dataset,
-- Environment in Providers), the numbers of bigdecimal, the UUIDs of uuid and the printing and
-- case mapping of texts (Outside in Ledger), the requests to the Hyperliquid API, the reading of a
-- JSON event's time and the UUID of an event (Windows.Polls), the JSON-RPC requests (Evm.Scan), the
-- RPC requests and the parsing of signatures (Paging), a number with its addition (Balances), and
-- the printing of numbers, UUIDs, times and JSON, with the queries, the cancellation and the channel
-- of batches (Csv), and the numbers, UUIDs and dates of Gold. Requests are functions: the same request
-- gets the same answer, also in a later call (Windows.Polls, Evm, Paging). Which statements of a
-- recomputation of balances fail is given with its events (Balances.Faults).
--
-- Bounds: the loops over blocks recurse on fuel, of which the number of blocks and one is enough
-- (Evm.Coverage), the paging of signatures on fuel, of which the limit and one is enough
-- (Paging.Total), and the paged reading of a snapshot on fuel, of which the pages of the cap are
-- enough (Csv.Snapshot); all other functions recurse on lists. Integers that the code only stores
-- are unbounded; validate_target compares with the largest i64, and the ledger's entry offset wraps
-- around at 2 to the 32, as in a release build.
--
-- Not modelled: the HTTP API and its workers (api), the command line (cli), the network side of the
-- connectors and streams, the parsers of chain data, the conversion and the dual write of V1
-- transactions, the gold analytics, the typed filter specifications, the remaining configuration,
-- the API keys, and the SQL reads that only return rows. They are I/O around what is modelled, or
-- wait for a model of their own.
mod Base
pub mod Target
pub mod Dataset
pub mod Jobs
pub mod Streams
pub mod Exports
pub mod Runs
pub mod Providers
pub mod Ledger
pub mod Completeness
pub mod Windows
pub mod Evm
pub mod Balances
pub mod Paging
pub mod Compat
pub mod Csv
pub mod Gold

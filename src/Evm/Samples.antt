-- ===== src/Evm/Samples.antt =====
-- A sample provider of logs, and the theorems on EVM backfills applied to it.
use spectraplex.Base.{
  ℕ, zero, suc, ◌≤◌, ◌≡◌, refl, ap, Option, none, some, List, [], ◌∷◌, pos, String, Result, err, ok,
  concat_map, ◌==◌, if◌then◌else◌, arith, leb,
}
use spectraplex.Evm.{
  EvmError, EvmCursor, Log, confirmed_head, scan_window, scan_checkpoint, cursor_to_from_block,
}
use spectraplex.Evm.Scan.{
  fetch_logs, fetch_logs_loop, get_logs_with_retry, contract_backfill, contract_backfills,
  logs_to_raw_transactions, records_loop,
}
use spectraplex.Evm.Coverage.{block_range, fetch_logs_exact}
use spectraplex.Evm.Merge.{contract_backfills-AreRecorded, AreRecorded, next_block}

abbrev log_of : ℕ → Log
log_of n = record {
  transaction_hash = some (if n == 3 then "0xa" else "0xb");
  log_index = some n;
  block_number = some n;
  block_timestamp = some 1700000000;
  payload = "";
}

-- One log in each block but the first ones.
abbrev block_logs : ℕ → List Log
block_logs b = if leb b 2 then [] else log_of b ∷ []

-- The first attempt of each request fails.
abbrev get_logs : ℕ → ℕ → ℕ → Result EvmError (List Log)
get_logs attempt from to =
    if attempt == 0
    then err EvmError.rpc_failed
    else ok (concat_map block_logs (block_range from to))

get_logs_answers :
    (attempt from to : ℕ) (logs : List Log)
    → from ≤ to
    → get_logs attempt from to ≡ ok logs
    → logs ≡ concat_map block_logs (block_range from to)
get_logs_answers zero from to logs h e = cc
get_logs_answers (suc attempt) from to logs h e = ground arith

get_logs_third : (from to : ℕ) → from ≤ to → (logs : List Log) × (get_logs 2 from to ≡ ok logs)
get_logs_third from to h = (concat_map block_logs (block_range from to), refl)

chain_id_checked : confirmed_head "base-mainnet" (ok 1) (ok 100) ≡ err EvmError.chain_id_mismatch
unfolding confirmed_head
chain_id_checked = refl

head_runs : confirmed_head "base-mainnet" (ok 8453) (ok 100) ≡ ok 88
unfolding confirmed_head
head_runs = refl

fetch_logs_exact_example :
    fetch_logs get_logs 6 2 1 5 ≡ some (ok (concat_map block_logs (block_range 1 5)))
fetch_logs_exact_example =
    fetch_logs_exact get_logs block_logs get_logs_answers get_logs_third 6 2 1 5 (omega arith)
      (omega arith) (omega arith) (omega arith)

abbrev enrich : List Log → Result EvmError (String → Option ℕ)
enrich logs = ok (λ hash. none)

abbrev start : Option EvmCursor
start = some record { last_block = none; from_block = some (pos 2) }

abbrev heads : List (Result EvmError ℕ)
heads = ok 3 ∷ err EvmError.rpc_failed ∷ ok 4 ∷ ok 9 ∷ []

cursor_runs : (contract_backfills get_logs enrich 9 2 3 heads start).1 ≡ some (scan_checkpoint 7)
unfolding contract_backfills contract_backfill scan_window cursor_to_from_block fetch_logs
    fetch_logs_loop get_logs_with_retry logs_to_raw_transactions records_loop
cursor_runs = refl

contract_backfills-AreRecorded_example :
    (2 ≤ 8)
    × AreRecorded get_logs block_logs get_logs_answers enrich 9 2 3
        (omega arith)
        2
        8
        (contract_backfills get_logs enrich 9 2 3 heads start).0
contract_backfills-AreRecorded_example =
    contract_backfills-AreRecorded get_logs block_logs get_logs_answers enrich 9 2 3 (omega arith)
      heads start 2 8
      (
        (λ n e. ground arith),
        ((λ n e. ground arith), ((λ n e. ground arith), ((λ n e. ground arith), tt))),
      )
      refl (ap next_block cursor_runs)

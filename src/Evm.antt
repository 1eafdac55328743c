-- ===== src/Evm.antt =====
-- The EVM connector of adapters/src/evm.rs: the window of blocks that a backfill scans, the retries
-- and chunks of its log requests, and the raw transactions
-- it makes of them. The JSON-RPC provider is a parameter.
pub mod Scan
pub mod Coverage
pub mod Merge
mod Samples
use spectraplex.Base.{
  ℕ, zero, suc, ◌+◌, ◌-◌, ◌%◌, ◌^◌, min, ℤ, pos, negsuc, Bool, true, false, ◌&&◌, Option, none,
  some, List, [], ◌∷◌, ◌++◌, leb, ltb, ◌==◌, if◌then◌else◌, or_else, unwrap_or, String, str_eq,
  Result, err, ok, and_then, or_fail, saturating_add, u64_max, i64_max, any,
}

pub data EvmError : Type 0 where
  invalid_limit unknown_network chain_id_mismatch no_attempt rpc_failed : EvmError

-- `u64` addition and subtraction, which wrap in the release profile.
abbrev pub wrapping_add : ℕ → ℕ → ℕ
wrapping_add a b = (a + b) % 2 ^ 64

abbrev pub wrapping_sub : ℕ → ℕ → ℕ
wrapping_sub a b = (a + 2 ^ 64 - b) % 2 ^ 64

abbrev pub u64_to_i64_or_max : ℕ → ℕ
u64_to_i64_or_max n = if leb n i64_max then n else i64_max

-- The chain ID that the adapter expects of a network's RPC endpoint.
abbrev pub expected_chain_id : String → Option ℕ
expected_chain_id network =
    if str_eq network "ethereum-mainnet"
    then some 1
    else if str_eq network "ethereum-sepolia"
    then some 11155111
    else if str_eq network "base-mainnet"
    then some 8453
    else if str_eq network "base-sepolia"
    then some 84532
    else if str_eq network "arbitrum-mainnet"
    then some 42161
    else if str_eq network "arbitrum-sepolia"
    then some 421614
    else if str_eq network "hyperevm-mainnet"
    then some 999
    else if str_eq network "hyperevm-testnet"
    then some 998
    else none

-- The head that may be scanned, twelve blocks behind the provider's.
unfoldable pub confirmed_head : String → Result EvmError ℕ → Result EvmError ℕ → Result EvmError ℕ
confirmed_head network chain_id block_number = elim (expected_chain_id network) [
  | none ↦ err EvmError.unknown_network
  | some expected ↦ and_then chain_id (λ actual.
      or_fail (actual == expected) EvmError.chain_id_mismatch
        (and_then block_number (λ n. ok (n - 12))))
]

-- The fields of a cursor object that are JSON integers.
pub record EvmCursor : Type 0 where
  pub last_block : Option ℤ
  pub from_block : Option ℤ

-- `Value::as_u64` and `Value::as_i64` of an integer.
abbrev pub as_u64 : ℤ → Option ℕ
as_u64 (pos n) = if leb n u64_max then some n else none
as_u64 (negsuc n) = none

abbrev pub as_i64 : ℤ → Option ℤ
as_i64 (pos n) = if leb n i64_max then some (pos n) else none
as_i64 (negsuc n) = if leb n i64_max then some (negsuc n) else none

abbrev pub and_read {ℓ} : {A : Type 0} {B : Type ℓ} → Option A → (A → Option B) → Option B
and_read none f = none
and_read (some a) f = f a

abbrev pub next_block_after_i64 : ℤ → Option ℕ
next_block_after_i64 (pos n) = some (saturating_add n 1)
next_block_after_i64 (negsuc n) = none

abbrev pub default_from_block : ℕ → ℕ → ℕ
default_from_block latest_block limit = latest_block - (limit - 1)

-- The reads of the cursor, in the order of the source.
abbrev pub read_from_block : EvmCursor → Option ℕ
read_from_block c =
    or_else (and_read (and_read c.last_block as_u64) (λ n. some (saturating_add n 1))) (
      or_else (and_read c.from_block as_u64)
        (and_read (and_read c.last_block as_i64) next_block_after_i64))

unfoldable pub cursor_to_from_block : Option EvmCursor → ℕ → ℕ → ℕ
cursor_to_from_block none latest_block limit = default_from_block latest_block limit
cursor_to_from_block (some c) latest_block limit =
    unwrap_or (read_from_block c) (default_from_block latest_block limit)

-- The first and the last block of a backfill.
unfoldable pub scan_window : Result EvmError ℕ → Option EvmCursor → ℕ → Result EvmError (ℕ × ℕ)
scan_window confirmed cursor limit =
    or_fail (leb 1 limit && leb limit 100000) EvmError.invalid_limit (
      and_then confirmed (λ head.
        let from = cursor_to_from_block cursor head limit in
        ok (from, min head (saturating_add from (limit - 1)))))

abbrev pub scan_checkpoint : ℕ → EvmCursor
scan_checkpoint end = record { last_block = some (pos end); from_block = none }

-- The parts of a provider's log that the connector reads.
pub record Log : Type 0 where
  pub transaction_hash : Option String
  pub log_index : Option ℕ
  pub block_number : Option ℕ
  pub block_timestamp : Option ℕ
  pub payload : String

-- The raw transaction of a log, without its constant and generated fields.
pub record RawRecord : Type 0 where
  pub tx_hash : String
  pub timestamp : ℕ
  pub block_number : Option ℕ

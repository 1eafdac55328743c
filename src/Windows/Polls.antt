-- ===== src/Windows/Polls.antt =====
-- wallet_backfill of adapters/src/hyperliquid.rs: one window of fills, one of funding payments and
-- one of ledger updates, each after its own cursor; and repeated backfills, each from the cursor of
-- the one before, as run_connector_backfill of api/src/worker.rs runs them and
-- commit_connector_batch of adapters/src/workbench_repo.rs writes them.
mod History
mod Records
mod Rows
pub mod Collected
pub mod Stored
use spectraplex.Base.{
  ℕ, zero, suc, ◌/◌, ℤ, pos, negsuc, Bool, true, false, ◌&&◌, Option, none, some, List, [], ◌∷◌,
  ◌++◌, leb, String, str_eq, any, if◌then◌else◌, Result, err, ok, and_then, or_fail,
}
use Prim.Native.String
use spectraplex.Windows.{WindowError, bounded_time_window, resume_after_ms}
use mathlib.Core.Option

pub data EventKind : Type 0 where
  fill funding ledger_update : EventKind

abbrev pub eqb_kind : EventKind → EventKind → Bool
eqb_kind fill fill = true
eqb_kind funding funding = true
eqb_kind ledger_update ledger_update = true
eqb_kind _ _ = false

abbrev pub kind_name : EventKind → String
kind_name fill = "fill"
kind_name funding = "funding"
kind_name ledger_update = "ledger_update"

-- The checkpoint's cursor object, each field as `as_i64` reads it.
pub record WalletCursor : Type 0 where
  pub fills_ms : Option ℤ
  pub funding_ms : Option ℤ
  pub ledger_ms : Option ℤ

abbrev pub empty_cursor : WalletCursor
empty_cursor = record { fills_ms = none; funding_ms = none; ledger_ms = none }

abbrev pub field_of : EventKind → WalletCursor → Option ℤ
field_of fill c = c.fills_ms
field_of funding c = c.funding_ms
field_of ledger_update c = c.ledger_ms

abbrev pub set_field : EventKind → ℤ → WalletCursor → WalletCursor
set_field fill t c = record {
  fills_ms = some t;
  funding_ms = c.funding_ms;
  ledger_ms = c.ledger_ms;
}
set_field funding t c = record {
  fills_ms = c.fills_ms;
  funding_ms = some t;
  ledger_ms = c.ledger_ms;
}
set_field ledger_update t c = record {
  fills_ms = c.fills_ms;
  funding_ms = c.funding_ms;
  ledger_ms = some t;
}

-- `next[field].as_i64().map(resume_after_ms).unwrap_or(0)`
abbrev pub start_of : Option ℤ → ℤ
start_of none = pos 0
start_of (some t) = resume_after_ms t

abbrev pub provider_cap : EventKind → ℕ
provider_cap fill = 2000
provider_cap _ = 500

-- `i64` division by 1000, which rounds towards zero; the times that reach it are not negative.
abbrev pub to_seconds : ℤ → ℤ
to_seconds (pos n) = pos (n / 1000)
to_seconds (negsuc n) = pos 0

-- The raw transaction of an event, without its constant and generated fields.
pub record EventRecord (V : Type 0) : Type 0 where
  pub tx_hash : String
  pub timestamp : ℤ
  pub kind : EventKind
  pub wallet : String
  pub event : V

abbrev pub has_hash : {V : Type 0} → String → EventRecord V → Bool
has_hash h r = str_eq r.tx_hash h

-- The worker's filter of a batch: of the records with one hash the first, given the hashes seen. All
-- records of a wallet have the network of the job.
unfoldable pub deduped : {V : Type 0} → List String → List (EventRecord V) → List (EventRecord V)
deduped seen [] = []
deduped seen (r ∷ records) =
    let rest = deduped (r.tx_hash ∷ seen) records in
    if any (str_eq r.tx_hash) seen then rest else r ∷ rest

-- ON CONFLICT (network, tx_hash) DO UPDATE: a row that is there keeps its columns but the time of the
-- update and the id of the run. A batch that the filter leaves has no hash twice, which one
-- statement would refuse.
unfoldable pub upsert_raw :
    {V : Type 0} → List (EventRecord V) → List (EventRecord V) → List (EventRecord V)
upsert_raw table [] = table
upsert_raw table (r ∷ records) =
    upsert_raw (if any (has_hash r.tx_hash) table then table else table ++ r ∷ []) records

-- The reading of an event's time, the requests, and the UUID of (wallet, kind, event).
module _ {V : Type 0} (time_of : V → Option ℤ) (fetch : EventKind → ℤ → Result WindowError (List V))
    (event_id : String → EventKind → V → String) (wallet : String) (limit : ℕ) where
  unfoldable pub event_record : EventKind → ℤ → V → EventRecord V
  event_record kind time v = record {
    tx_hash =
        String.◌++◌ (String.◌++◌ (String.◌++◌ "hl-" (kind_name kind)) "-") (event_id wallet kind v);
    timestamp = to_seconds time;
    kind = kind;
    wallet = wallet;
    event = v;
  }

  unfoldable pub record_events :
      EventKind
      → List V
      → WalletCursor
      → List (EventRecord V)
      → Result WindowError (WalletCursor × List (EventRecord V))
  unfolding event_record
  record_events kind [] next records = ok (next, records)
  record_events kind (v ∷ vs) next records = elim (time_of v) [
    | none ↦ err WindowError.invalid_event_time
    | some t ↦ record_events kind vs (set_field kind t next) (records ++ event_record kind t v ∷ [])
  ]

  -- One round of the loop over the kinds.
  unfoldable pub backfill_kind :
      EventKind
      → WalletCursor × List (EventRecord V)
      → Result WindowError (WalletCursor × List (EventRecord V))
  backfill_kind kind (next, records) =
      let start = start_of (field_of kind next) in
      and_then (fetch kind start) (λ values.
        and_then (bounded_time_window time_of values start limit (provider_cap kind))
          (λ window. record_events kind window next records))

  unfoldable pub wallet_backfill :
      WalletCursor → Result WindowError (WalletCursor × List (EventRecord V))
  wallet_backfill cursor = or_fail (leb 1 limit && leb limit 100000) WindowError.invalid_limit (
      and_then (backfill_kind EventKind.fill (cursor, [])) (λ a.
        and_then (backfill_kind EventKind.funding a)
          (λ b. backfill_kind EventKind.ledger_update b)))

  -- `n` backfills in a row, each from the checkpoint of the one before, and the rows that they leave
  -- of an empty table. The checkpoint of wallet_backfill is always there, so none is derived.
  unfoldable pub backfills :
      ℕ → WalletCursor → Result WindowError (WalletCursor × List (EventRecord V))
  backfills zero cursor = ok (cursor, [])
  backfills (suc n) cursor =
      and_then (backfills n cursor)
        (λ a. and_then (wallet_backfill a.0) (λ b. ok (b.0, upsert_raw a.1 (deduped [] b.1))))

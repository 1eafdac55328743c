-- ===== src/Balances.antt =====
-- The incremental balance history of one wallet, network and asset: the part of
-- materialize_gold_from_silver in adapters/src/dual_write.rs that recomputes the running balances
-- from the first incoming event on, with the queries that it sends (adapters/src/v2_repo.rs). The
-- table here is the rows of that wallet, network and asset, the only ones that the statements for
-- them read and write. A BigDecimal is a parameter.
pub mod Totals
pub mod Running
pub mod Recompute
pub mod Invariant
pub mod Recorded
mod Samples
use spectraplex.Base.{
  ℕ, ℤ, ltb_ℤ, eqb_ℤ, Bool, true, false, not, ◌&&◌, ◌||◌, Option, none, some, List, [], ◌∷◌, ◌++◌,
  length, map, ltb, ◌==◌, if◌then◌else◌, is_none, unwrap_or, any, select, sort_by, first_by, String,
}
use mathlib.Core.Option

pub record BalanceEvent (D : Type 0) : Type 0 where
  pub snapshot_id : ℕ
  pub timestamp : ℤ
  pub tx_hash : String
  pub delta : D

-- A row of balance_history, without the columns that no decision reads.
pub record BalanceRow (D : Type 0) : Type 0 where
  pub id : ℕ
  pub timestamp : ℤ
  pub tx_hash : String
  pub balance : D
  pub delta : Option D

pub record BalanceRecomputeEvent (D : Type 0) : Type 0 where
  pub id : ℕ
  pub timestamp : ℤ
  pub tx_hash : String
  pub delta : D

-- Which of the statements of a recomputation fail: the three queries, and the transaction that saves.
pub record Faults : Type 0 where
  pub seed_fails : Bool
  pub suffix_fails : Bool
  pub deltas_fail : Bool
  pub save_fails : Bool

-- The order of events and rows: by time, then by id.
abbrev pub precedes : ℤ → ℕ → ℤ → ℕ → Bool
precedes t i u j = ltb_ℤ t u || (eqb_ℤ t u && ltb i j)

module _ {D : Type 0} where
  abbrev pub event_precedes : BalanceEvent D → BalanceEvent D → Bool
  event_precedes a b = precedes a.timestamp a.snapshot_id b.timestamp b.snapshot_id

  abbrev pub row_precedes : BalanceRow D → BalanceRow D → Bool
  row_precedes a b = precedes a.timestamp a.id b.timestamp b.id

  abbrev pub recompute_precedes : BalanceRecomputeEvent D → BalanceRecomputeEvent D → Bool
  recompute_precedes a b = precedes a.timestamp a.id b.timestamp b.id

  -- ORDER BY timestamp DESC, id DESC LIMIT 1, and ORDER BY timestamp ASC, id ASC.
  unfoldable pub get_latest_balance_snapshot_before_order :
      ℤ → ℕ → List (BalanceRow D) → Option (BalanceRow D)
  get_latest_balance_snapshot_before_order t i rows =
      first_by (λ a b. row_precedes b a) (select (λ r. precedes r.timestamp r.id t i) rows)

  unfoldable pub get_balance_snapshots_at_or_after_order :
      ℤ → ℕ → List (BalanceRow D) → List (BalanceRow D)
  get_balance_snapshots_at_or_after_order t i rows =
      sort_by row_precedes (select (λ r. not (precedes r.timestamp r.id t i)) rows)

  abbrev pub is_incoming : List (BalanceEvent D) → ℕ → Bool
  is_incoming incoming i = any (λ e. e.snapshot_id == i) incoming

  -- ON CONFLICT (id) DO UPDATE; a row that is written has a delta, so COALESCE takes it.
  unfoldable pub upsert : BalanceRow D → List (BalanceRow D) → List (BalanceRow D)
  upsert n [] = n ∷ []
  upsert n (r ∷ rows) =
      if r.id == n.id
      then record {
        id = r.id;
        timestamp = r.timestamp;
        tx_hash = r.tx_hash;
        balance = n.balance;
        delta = n.delta;
      }
        ∷ rows
      else r ∷ upsert n rows

  unfoldable pub save_balance_snapshots :
      List (BalanceRow D) → List (BalanceRow D) → List (BalanceRow D)
  save_balance_snapshots [] rows = rows
  save_balance_snapshots (n ∷ snapshots) rows = save_balance_snapshots snapshots (upsert n rows)

module _ {D : Type 0} (zero : D) (plus : D → D → D) where
  abbrev pub of_event : BalanceEvent D → BalanceRecomputeEvent D
  of_event e = record {
    id = e.snapshot_id;
    timestamp = e.timestamp;
    tx_hash = e.tx_hash;
    delta = e.delta;
  }

  -- `suffix_deltas[&snapshot.id]`, for a row that has a delta.
  abbrev pub of_row : BalanceRow D → BalanceRecomputeEvent D
  of_row r = record {
    id = r.id;
    timestamp = r.timestamp;
    tx_hash = r.tx_hash;
    delta = unwrap_or r.delta zero;
  }

  unfoldable pub recompute_events :
      List (BalanceEvent D) → List (BalanceRow D) → List (BalanceRecomputeEvent D)
  recompute_events incoming suffix =
      sort_by recompute_precedes
        (map of_event incoming ++ map of_row (select (λ s. not (is_incoming incoming s.id)) suffix))

  -- The loop that adds up the balance.
  unfoldable pub running : D → List (BalanceRecomputeEvent D) → List (BalanceRow D)
  running balance [] = []
  running balance (e ∷ events) =
      let next = plus balance e.delta in
      record {
        id = e.id;
        timestamp = e.timestamp;
        tx_hash = e.tx_hash;
        balance = next;
        delta = some e.delta;
      }
      ∷ running next events

  -- The events of one wallet, network and asset, sorted: recompute from the first of them on, unless a
  -- query fails, or a row after it that is not among them has no delta. With the table it returns the
  -- number of events or rows that it adds to `balance_history_failed`.
  unfoldable pub materialize_incoming :
      Faults → List (BalanceEvent D) → List (BalanceRow D) → ℕ × List (BalanceRow D)
  materialize_incoming faults [] rows = (0, rows)
  materialize_incoming faults (first ∷ others) rows =
      let incoming = first ∷ others in
      let seed = get_latest_balance_snapshot_before_order first.timestamp first.snapshot_id rows in
      let suffix = get_balance_snapshots_at_or_after_order first.timestamp first.snapshot_id rows in
      let has_existing_suffix =
        any (λ s. not (is_incoming incoming s.id) && is_none s.delta) suffix in
      let snapshots =
        running (unwrap_or (Option.map (λ r. r.balance) seed) zero)
          (recompute_events incoming suffix) in
      if faults.seed_fails
      then (length incoming, rows)
      else if faults.suffix_fails
      then (length incoming, rows)
      else if faults.deltas_fail
      then (length incoming, rows)
      else if has_existing_suffix
      then (length incoming, rows)
      else if faults.save_fails
      then (length snapshots, rows)
      else (0, save_balance_snapshots snapshots rows)

  unfoldable pub materialize_balances :
      Faults → List (BalanceEvent D) → List (BalanceRow D) → ℕ × List (BalanceRow D)
  materialize_balances faults events rows =
      materialize_incoming faults (sort_by event_precedes events) rows

  -- Batches of events, in the order of their arrival, each with the statements that fail for it.
  unfoldable pub materialize_batches :
      List (Faults × List (BalanceEvent D)) → List (BalanceRow D) → List (BalanceRow D)
  materialize_batches [] rows = rows
  materialize_batches ((faults, events) ∷ batches) rows =
      materialize_batches batches (materialize_balances faults events rows).1

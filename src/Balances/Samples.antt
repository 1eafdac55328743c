-- ===== src/Balances/Samples.antt =====
-- Batches that arrive out of order, and the theorems on balances applied to them.
use spectraplex.Base.{
  ℕ, ℤ, pos, negsuc, true, false, ◌≤◌, ◌⊎◌, head, ◌≡◌, refl, some, List, [], ◌∷◌, ◌==◌,
  if◌then◌else◌, arith, In, sort_by, insert_by, first_by,
}
use spectraplex.Base.Int.{◌+ℤ◌, +ℤ_comm, +ℤ_assoc}
use spectraplex.Balances.{
  Faults, BalanceEvent, BalanceRow, get_latest_balance_snapshot_before_order,
  get_balance_snapshots_at_or_after_order, upsert, save_balance_snapshots, recompute_events,
  running, materialize_incoming, materialize_balances, materialize_batches,
}
use spectraplex.Balances.Totals.{contains_id}
use spectraplex.Balances.Invariant.{IsRunning, batches-IsRunning}
use spectraplex.Balances.Recorded.{AreTraced, batches_recorded, batches_counted}

abbrev add : ℤ → ℤ → ℤ
add a b = a +ℤ b

zero_add : (a : ℤ) → add (pos 0) a ≡ a
unfolding ◌+ℤ◌
zero_add a = ground arith

abbrev time_of : ℕ → ℤ
time_of i = if i == 1 then pos 10 else pos 20

abbrev event : ℕ → ℤ → BalanceEvent ℤ
event i delta = record { snapshot_id = i; timestamp = time_of i; tx_hash = "0x1"; delta = delta }

abbrev row : ℕ → ℤ → ℤ → BalanceRow ℤ
row i delta balance = record {
  id = i;
  timestamp = time_of i;
  tx_hash = "0x1";
  balance = balance;
  delta = some delta;
}

abbrev nothing_fails : Faults
nothing_fails = record {
  seed_fails = false;
  suffix_fails = false;
  deltas_fail = false;
  save_fails = false;
}

-- The second batch has an earlier event and one that ties in time with the first batch's.
abbrev batches : List (Faults × List (BalanceEvent ℤ))
batches =
    (nothing_fails, event 2 (pos 5) ∷ [])
    ∷ (nothing_fails, event 3 (negsuc 1) ∷ event 1 (pos 3) ∷ [])
    ∷ []

abbrev result : List (BalanceRow ℤ)
result = row 2 (pos 5) (pos 8) ∷ row 1 (pos 3) (pos 3) ∷ row 3 (negsuc 1) (pos 6) ∷ []

batches_run : materialize_batches (pos 0) add batches [] ≡ result
unfolding materialize_batches materialize_balances materialize_incoming
    get_latest_balance_snapshot_before_order get_balance_snapshots_at_or_after_order
    recompute_events running save_balance_snapshots upsert sort_by insert_by first_by ◌+ℤ◌
batches_run = refl

batches-IsRunning_example :
    IsRunning
      (pos 0)
      add
      zero_add
      +ℤ_comm
      +ℤ_assoc
      time_of
      (materialize_batches (pos 0) add batches [])
batches-IsRunning_example =
    batches-IsRunning (pos 0) add zero_add +ℤ_comm +ℤ_assoc time_of batches []
      (((refl, tt), λ i. ground arith), (((refl, (refl, tt)), λ i. ground arith), tt))
      (λ i. omega arith, tt, λ r m. elim m [ ])

batches_recorded_example :
    AreTraced (materialize_batches (pos 0) add batches [])
    × ((batch : Faults × List (BalanceEvent ℤ)) (e : BalanceEvent ℤ)
        → In batch batches
        → In e batch.1
        → contains_id (materialize_batches (pos 0) add batches []) e.snapshot_id ≡ true)
batches_recorded_example =
    batches_recorded (pos 0) add batches []
      ((refl, refl, refl, refl), ((refl, refl, refl, refl), tt)) tt

-- The save of the second batch fails, and its two rows are counted.
abbrev save_breaks : Faults
save_breaks = record nothing_fails { save_fails = true }

batches_counted_example :
    (contains_id
        (materialize_batches
          (pos 0)
          add
          ((nothing_fails, event 2 (pos 5) ∷ []) ∷ (save_breaks, event 1 (pos 3) ∷ []) ∷ [])
          [])
        1
      ≡ true)
    ⊎ (1
        ≤ (materialize_balances
            (pos 0)
            add
            save_breaks
            (event 1 (pos 3) ∷ [])
            (materialize_batches (pos 0) add ((nothing_fails, event 2 (pos 5) ∷ []) ∷ []) [])).0)
batches_counted_example =
    batches_counted (pos 0) add ((nothing_fails, event 2 (pos 5) ∷ []) ∷ []) [] save_breaks
      (event 1 (pos 3) ∷ []) [] head

-- ===== src/Balances/Invariant.antt =====
-- That the incremental balances are those of all events together.
use mathlib.Core.Option
use spectraplex.Base.{
  ℕ, ◌≤◌, ℤ, true, false, not, ◌&&◌, ◌≡◌, refl, sym, ◌∙◌, ap, inl, inr, List, [], ◌∷◌, ◌==◌,
  unwrap_or, count, In, head, tail, Bool-cases, Option-cases, arith, All, All-In, All-of_In,
  sort_by, IsSorted, sort_by-IsSorted, select, In-select, select-In, In-sort_by, first_by,
  first_by-In, first_by-ne-none, first_by-least,
}
use spectraplex.Balances.{
  Faults, BalanceEvent, BalanceRow, precedes, event_precedes, row_precedes, running,
  get_latest_balance_snapshot_before_order, save_balance_snapshots, materialize_incoming,
  materialize_balances, materialize_batches,
}
use spectraplex.Balances.Totals.{
  total, total_none, total_congr, total-save, AreDistinct, contains_id, save-AreDistinct, save-All,
  In-save, whatever_fails,
}
use spectraplex.Balances.Running.{
  IsKeyed, id_precedes, up_to, count-sort_by, count-running, any-running, running-All, running_lem,
}
use spectraplex.Balances.Recompute.{
  AreKeyed, events, events-ids, events-distinct, events-IsChain, recomputed,
}

module _ {D : Type 0} (zero : D) (plus : D → D → D) (zero_plus : (a : D) → plus zero a ≡ a)
    (plus_comm : (a b : D) → plus a b ≡ plus b a)
    (plus_assoc : (a b c : D) → plus (plus a b) c ≡ plus a (plus b c)) (time_of : ℕ → ℤ) where
  -- Each balance is the total of the deltas of the rows up to its own.
  abbrev pub IsRunning : List (BalanceRow D) → Type 0
  IsRunning rows =
      AreDistinct rows
      × AreKeyed zero plus time_of rows
      × ((r : BalanceRow D) → In r rows → r.balance ≡ total zero plus (up_to time_of r.id) rows)

  seed_lem :
      (rows : List (BalanceRow D)) (t : ℤ) (i : ℕ)
      → t ≡ time_of i
      → IsRunning rows
      → unwrap_or
          (Option.map (λ r. r.balance) (get_latest_balance_snapshot_before_order t i rows))
          zero
        ≡ total zero plus (λ j. id_precedes time_of j i) rows
  unfolding get_latest_balance_snapshot_before_order
  seed_lem rows t i e (distinct, keyed, sums) =
      elim (Option-cases (first_by (λ a b. row_precedes b a) earlier)) [
        | inl n ↦ rw n (
            sym (
              total_none zero plus zero_plus plus_comm plus_assoc _ rows (λ r m.
                elim (Bool-cases (precedes r.timestamp r.id t i)) [
                  | inl p ↦ absurd (
                      first_by-ne-none (λ a b. row_precedes b a) earlier
                        (In-select (λ r. precedes r.timestamp r.id t i) m p) n)
                  | inr p ↦ sym (keys r m) ∙ p
                ])))
        | inr (r, l) ↦
            let (m, p) =
              select-In (λ r. precedes r.timestamp r.id t i) rows
                (first_by-In (λ a b. row_precedes b a) earlier l) in
            let low = sym (keys r m) ∙ p in
            rw l (
              sums r m
              ∙ total_congr zero plus zero_plus plus_comm plus_assoc (up_to time_of r.id)
                  (λ j. id_precedes time_of j i) rows
                  (λ s k. elim (Bool-cases (precedes s.timestamp s.id t i)) [
                    | inl q ↦
                        let last =
                          first_by-least (λ a b. row_precedes b a) (λ a. ground arith)
                            (λ a b c u v. ground arith) earlier
                            (In-select (λ r. precedes r.timestamp r.id t i) k q) l in
                        let kr = All-In (λ r. IsKeyed time_of r.id r.timestamp) keyed m in
                        let ks = All-In (λ r. IsKeyed time_of r.id r.timestamp) keyed k in
                        let apart : id_precedes time_of r.id s.id ≡ false = rw (← kr, ← ks) last in
                        let early = sym (keys s k) ∙ q in rw (apart, early) refl
                    | inr q ↦ let late = sym (keys s k) ∙ q in ground (arith, low, late)
                  ]))
      ]
    where
      earlier : List (BalanceRow D)
      earlier = select (λ r. precedes r.timestamp r.id t i) rows

      keys :
          (r : BalanceRow D)
          → In r rows
          → precedes r.timestamp r.id t i ≡ id_precedes time_of r.id i
      keys r m = rw (All-In (λ r. IsKeyed time_of r.id r.timestamp) keyed m, e) refl

  module _ (first : BalanceEvent D) (incoming : List (BalanceEvent D))
      (first_in : In first incoming)
      (keyed : All (λ e. IsKeyed time_of e.snapshot_id e.timestamp) incoming)
      (distinct : (i : ℕ) → count (λ e. e.snapshot_id == i) incoming ≤ 1)
      (least : (e : BalanceEvent D) → In e incoming → event_precedes e first ≡ false)
      (rows : List (BalanceRow D)) (is_running : IsRunning rows) where
    seed : D
    seed =
        unwrap_or
          (Option.map (λ r. r.balance)
            (get_latest_balance_snapshot_before_order first.timestamp first.snapshot_id rows))
          zero

    written : List (BalanceRow D)
    written = running zero plus seed (
        events zero plus time_of first incoming first_in keyed distinct least rows is_running.1
          is_running.0)

    written-All :
        (P : ℕ → ℤ → Type 0)
        → ((i : ℕ) (t : ℤ)
            → IsKeyed time_of i t
            → id_precedes time_of i first.snapshot_id ≡ false
            → P i t)
        → All (λ r. P r.id r.timestamp) written
    unfolding written
    written-All P h = running-All zero plus P seed _ (
        All-of_In _ _ (λ e m.
          let (k, l) =
            events-ids zero plus time_of first incoming first_in keyed distinct least rows
              is_running.1 is_running.0 e m in
          h e.id e.timestamp k l))

    written-AreDistinct : AreDistinct written
    unfolding written
    written-AreDistinct i = omega (
      arith,
      count-running zero plus i seed (
          events zero plus time_of first incoming first_in keyed distinct least rows is_running.1
            is_running.0),
      events-distinct zero plus time_of first incoming first_in keyed distinct least rows
          is_running.1 is_running.0 i,
    )

    written-late :
        (n : BalanceRow D) → In n written → id_precedes time_of n.id first.snapshot_id ≡ false
    written-late n m =
        All-In (λ r. id_precedes time_of r.id first.snapshot_id ≡ false)
          (written-All (λ i t. id_precedes time_of i first.snapshot_id ≡ false) (λ i t k l. l)) m

    -- The rows that are kept are those before the first event.
    kept :
        (r : BalanceRow D)
        → In r rows
        → contains_id written r.id ≡ not (id_precedes time_of r.id first.snapshot_id)
    unfolding written
    kept r m =
        any-running zero plus r.id seed _
        ∙ recomputed zero plus time_of first incoming first_in keyed distinct least rows
            is_running.1 is_running.0 r m

    -- The total up to an id after the save, from the rows kept and the rows written.
    saved :
        (i : ℕ)
        → total zero plus (up_to time_of i) (save_balance_snapshots written rows)
          ≡ plus
              (total zero plus (λ j. up_to time_of i j && not (contains_id written j)) rows)
              (total zero plus (up_to time_of i) written)
    saved i =
        total-save zero plus zero_plus plus_comm plus_assoc (up_to time_of i) written rows
          written-AreDistinct is_running.0

    kept_sum :
        (r : BalanceRow D)
        → In r rows
        → contains_id written r.id ≡ false
        → r.balance ≡ total zero plus (up_to time_of r.id) (save_balance_snapshots written rows)
    kept_sum r k a =
        let early : id_precedes time_of r.id first.snapshot_id ≡ true =
          ground (arith, kept r k, a) in
        let same =
          total_congr zero plus zero_plus plus_comm plus_assoc
            (λ j. up_to time_of r.id j && not (contains_id written j)) (up_to time_of r.id) rows
            (λ s l. ground (arith, kept s l, early)) in
        let none_written =
          total_none zero plus zero_plus plus_comm plus_assoc (up_to time_of r.id) written
            (λ n l. ground (arith, written-late n l, early)) in
        let x = total zero plus (up_to time_of r.id) rows in
        is_running.2 r k
        ∙ sym (
            saved r.id
            ∙ ap (λ y. plus y (total zero plus (up_to time_of r.id) written)) same
            ∙ ap (plus x) none_written
            ∙ plus_comm x zero
            ∙ zero_plus x)

    written_sum :
        (n : BalanceRow D)
        → In n written
        → n.balance ≡ total zero plus (up_to time_of n.id) (save_balance_snapshots written rows)
    unfolding written seed
    written_sum n k =
        let first_keyed = All-In (λ e. IsKeyed time_of e.snapshot_id e.timestamp) keyed first_in in
        let run =
          running_lem zero plus zero_plus plus_comm plus_assoc time_of seed _
            (events-IsChain zero plus time_of first incoming first_in keyed distinct least rows
              is_running.1 is_running.0)
            k in
        let before = seed_lem rows first.timestamp first.snapshot_id first_keyed is_running in
        let late = written-late n k in
        let same =
          total_congr zero plus zero_plus plus_comm plus_assoc
            (λ j. id_precedes time_of j first.snapshot_id)
            (λ j. up_to time_of n.id j && not (contains_id written j)) rows
            (λ s l. ground (arith, kept s l, late)) in
        run
        ∙ ap (λ y. plus y (total zero plus (up_to time_of n.id) written)) (before ∙ same)
        ∙ sym (saved n.id)

    save-IsRunning : IsRunning (save_balance_snapshots written rows)
    save-IsRunning = (
      save-AreDistinct written rows is_running.0,
      save-All (IsKeyed time_of) written rows (written-All (IsKeyed time_of) (λ i t k l. k))
          is_running.1,
      λ r m. elim (In-save written rows written-AreDistinct is_running.0 m) [
        | inl (k, a) ↦ kept_sum r k a
        | inr (n, k, i, b) ↦
            b
            ∙ written_sum n k
            ∙ ap (λ j. total zero plus (up_to time_of j) (save_balance_snapshots written rows))
                (sym i)
      ],
    )

  -- Incoming events have the time of their id, and no two the same id.
  abbrev pub AreEvents : List (BalanceEvent D) → Type 0
  AreEvents events =
      All (λ e. IsKeyed time_of e.snapshot_id e.timestamp) events
      × ((i : ℕ) → count (λ e. e.snapshot_id == i) events ≤ 1)

  least_of_sorted :
      (first : BalanceEvent D) (others : List (BalanceEvent D))
      → IsSorted event_precedes (first ∷ others)
      → (e : BalanceEvent D) → In e (first ∷ others)
      → event_precedes e first ≡ false
  least_of_sorted first others s e head = ground arith
  least_of_sorted first others s e (tail m) = All-In (λ y. event_precedes y first ≡ false) s.0 m

  incoming-IsRunning :
      (faults : Faults) (incoming : List (BalanceEvent D)) (rows : List (BalanceRow D))
      → AreEvents incoming
      → IsSorted event_precedes incoming
      → IsRunning rows
      → IsRunning (materialize_incoming zero plus faults incoming rows).1
  unfolding materialize_incoming written seed
  incoming-IsRunning faults [] rows es s r = r
  incoming-IsRunning faults (first ∷ others) rows es s r =
      whatever_fails IsRunning faults.seed_fails faults.suffix_fails faults.deltas_fail _
        faults.save_fails _ _ rows _ r
        (save-IsRunning first (first ∷ others) head es.0 es.1 (least_of_sorted first others s) rows
          r)

  -- Whatever the order in which batches of events arrive, however they are split, and whatever
  -- statements fail, each balance in the table is the total of the deltas of all rows up to its own, in
  -- the order of time and id, if this holds of the table before, no two events of a batch have the
  -- same id, and the time of events and rows is that of their id.
  pub batches-IsRunning :
      (batches : List (Faults × List (BalanceEvent D))) (rows : List (BalanceRow D))
      → All (λ b. AreEvents b.1) batches
      → IsRunning rows
      → IsRunning (materialize_batches zero plus batches rows)
  unfolding materialize_batches materialize_balances
  batches-IsRunning [] rows es r = r
  batches-IsRunning ((faults, events) ∷ batches) rows (e, es) r = batches-IsRunning batches _ es (
      incoming-IsRunning faults (sort_by event_precedes events) rows
        (
          All-of_In _ _ (λ x m.
              All-In (λ e. IsKeyed time_of e.snapshot_id e.timestamp) e.0
                (In-sort_by event_precedes events m)),
          λ i. omega (arith, count-sort_by event_precedes (λ e. e.snapshot_id == i) events, e.1 i),
        )
        (sort_by-IsSorted event_precedes (λ a b h. ground arith) (λ a b c h k. ground arith) events)
        r)

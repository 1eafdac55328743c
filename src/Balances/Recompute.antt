-- ===== src/Balances/Recompute.antt =====
-- What a recomputation reads and rewrites: the events from the first incoming one on.
use spectraplex.Base.{
  All-of_In, In-append, In-append_left, In-append_right, In-map, map-In, count-map, count-select_le,
  count-select_none, count_of_any, ==_refl, ℕ, ◌+◌, ◌≤◌, ℤ, true, false, not, ◌≡◌, refl, sym, ◌∙◌,
  ap, inl, inr, List, ◌++◌, ◌==◌, any, any-In, any-elim, count, count-append, In, Bool-cases, arith,
  All, All-In, map, sort_by, sort_by-IsSorted, select, In-select, select-In, sort_by-In, In-sort_by,
}
use spectraplex.Balances.{
  BalanceEvent, BalanceRow, BalanceRecomputeEvent, precedes, event_precedes, row_precedes,
  recompute_precedes, is_incoming, of_event, of_row, recompute_events,
  get_balance_snapshots_at_or_after_order,
}
use spectraplex.Balances.Totals.{has_row_id, AreDistinct}
use spectraplex.Balances.Running.{
  IsKeyed, IsChain, id_precedes, count-sort_by, sorted-IsChain, has_event_id,
}

module _ {D : Type 0} (zero : D) (plus : D → D → D) (time_of : ℕ → ℤ) where
  abbrev pub AreKeyed : List (BalanceRow D) → Type 0
  AreKeyed rows = All (λ r. IsKeyed time_of r.id r.timestamp) rows

  -- The incoming events, sorted, with the first of them.
  module _ (first : BalanceEvent D) (incoming : List (BalanceEvent D))
      (first_in : In first incoming)
      (keyed : All (λ e. IsKeyed time_of e.snapshot_id e.timestamp) incoming)
      (distinct : (i : ℕ) → count (λ e. e.snapshot_id == i) incoming ≤ 1)
      (least : (e : BalanceEvent D) → In e incoming → event_precedes e first ≡ false)
      (rows : List (BalanceRow D)) (rows_keyed : AreKeyed rows)
      (rows_distinct : AreDistinct rows) where
    abbrev pub suffix : List (BalanceRow D)
    suffix = get_balance_snapshots_at_or_after_order first.timestamp first.snapshot_id rows

    abbrev pub events : List (BalanceRecomputeEvent D)
    events = recompute_events zero plus incoming suffix

    from_suffix :
        (r : BalanceRow D)
        → In r suffix
        → In r rows × (precedes r.timestamp r.id first.timestamp first.snapshot_id ≡ false)
    unfolding get_balance_snapshots_at_or_after_order
    from_suffix r m =
        let (k, e) = select-In _ rows (In-sort_by row_precedes _ m) in (k, ground (arith, e))

    suffix-count : (i : ℕ) → count (has_row_id i) suffix ≤ 1
    unfolding get_balance_snapshots_at_or_after_order
    suffix-count i = ground (
      arith,
      count-sort_by row_precedes (has_row_id i)
          (select (λ r. not (precedes r.timestamp r.id first.timestamp first.snapshot_id)) rows),
      count-select_le (has_row_id i)
          (λ r. not (precedes r.timestamp r.id first.timestamp first.snapshot_id)) rows,
      rows_distinct i,
    )

    -- The ids that are recomputed are those that come in, and those of rows from the first event on.
    pub events-ids :
        (e : BalanceRecomputeEvent D)
        → In e events
        → IsKeyed time_of e.id e.timestamp × (id_precedes time_of e.id first.snapshot_id ≡ false)
    unfolding recompute_events
    events-ids e m =
        let first_keyed = All-In (λ e. IsKeyed time_of e.snapshot_id e.timestamp) keyed first_in in
        elim (In-append (map (of_event zero plus) incoming) _ (In-sort_by recompute_precedes _ m)) [
          | inl k ↦
              let (x, l, q) = In-map (of_event zero plus) incoming k in
              let kx = All-In (λ e. IsKeyed time_of e.snapshot_id e.timestamp) keyed l in
              let low = least x l in
              let i : e.id ≡ x.snapshot_id = ap (λ y. y.id) q in
              let t : e.timestamp ≡ x.timestamp = ap (λ y. y.timestamp) q in
              (t ∙ kx ∙ ap time_of (sym i), rw i (rw (← kx, ← first_keyed) low))
          | inr k ↦
              let (x, l, q) = In-map (of_row zero plus) _ k in
              let (l', low) =
                from_suffix x (select-In (λ s. not (is_incoming incoming s.id)) suffix l).0 in
              let kx = All-In (λ r. IsKeyed time_of r.id r.timestamp) rows_keyed l' in
              let i : e.id ≡ x.id = ap (λ y. y.id) q in
              let t : e.timestamp ≡ x.timestamp = ap (λ y. y.timestamp) q in
              (t ∙ kx ∙ ap time_of (sym i), rw i (rw (← kx, ← first_keyed) low))
        ]

    pub events-distinct : (i : ℕ) → count (has_event_id i) events ≤ 1
    unfolding recompute_events
    events-distinct i =
        let others = λ (s : BalanceRow D). not (is_incoming incoming s.id) in
        let sorted =
          count-sort_by recompute_precedes (has_event_id i)
            (map (of_event zero plus) incoming ++ map (of_row zero plus) (select others suffix)) in
        let split =
          count-append (has_event_id i) (map (of_event zero plus) incoming)
            (map (of_row zero plus) (select others suffix)) in
        let left = count-map (has_event_id i) (of_event zero plus) incoming in
        let right = count-map (has_event_id i) (of_row zero plus) (select others suffix) in
        let whole : count (has_event_id i) (
              sort_by recompute_precedes (
                map (of_event zero plus) incoming ++ map (of_row zero plus) (select others suffix)))
            ≡ count (λ e. e.snapshot_id == i) incoming
              + count (has_row_id i) (select others suffix) =
          sorted
          ∙ split
          ∙ ap (λ a. a + count (has_event_id i) (map (of_row zero plus) (select others suffix)))
              left
          ∙ ap (λ b. count (λ e. e.snapshot_id == i) incoming + b) right in
        elim (Bool-cases (is_incoming incoming i)) [
          | inl t ↦
              let none_left =
                count-select_none (has_row_id i) others suffix
                  (λ s h. let q : s.id ≡ i = ground arith in rw q (rw t refl)) in
              omega (arith, whole, none_left, distinct i)
          | inr f ↦ omega (
            arith,
            whole,
            count_of_any (λ e. e.snapshot_id == i) incoming f,
            count-select_le (has_row_id i) others suffix,
            suffix-count i,
          )
        ]

    pub events-IsChain : IsChain time_of events
    unfolding recompute_events
    events-IsChain =
        sorted-IsChain time_of _ (All-of_In _ events (λ e m. (events-ids e m).0)) events-distinct (
          sort_by-IsSorted recompute_precedes (λ a b h. ground arith) (λ a b c h k. ground arith) _)

    to_events :
        (r : BalanceRow D)
        → In r rows
        → id_precedes time_of r.id first.snapshot_id ≡ false
        → any (has_event_id r.id) events ≡ true
    unfolding recompute_events get_balance_snapshots_at_or_after_order
    to_events r m f =
        let first_keyed = All-In (λ e. IsKeyed time_of e.snapshot_id e.timestamp) keyed first_in in
        let kr = All-In (λ r. IsKeyed time_of r.id r.timestamp) rows_keyed m in
        let late : precedes r.timestamp r.id first.timestamp first.snapshot_id ≡ false =
          rw (kr, first_keyed) f in
        let in_suffix = sort_by-In row_precedes _ (
          In-select (λ r. not (precedes r.timestamp r.id first.timestamp first.snapshot_id)) m
            (ground (arith, late))) in
        elim (Bool-cases (is_incoming incoming r.id)) [
          | inl t ↦
              let (e, k, q) = any-elim (λ e. e.snapshot_id == r.id) incoming t in
              any-In (has_event_id r.id)
                (sort_by-In recompute_precedes _ (In-append_left _ (map-In (of_event zero plus) k)))
                q
          | inr n ↦
              let kept = In-select (λ s. not (is_incoming incoming s.id)) in_suffix (rw n refl) in
              any-In (has_event_id r.id)
                (sort_by-In recompute_precedes _ (
                  In-append_right (map (of_event zero plus) incoming)
                    (map-In (of_row zero plus) kept)))
                (==_refl r.id)
        ]

    -- The rows that are not recomputed are those before the first event.
    pub recomputed :
        (r : BalanceRow D)
        → In r rows
        → any (has_event_id r.id) events ≡ not (id_precedes time_of r.id first.snapshot_id)
    unfolding recompute_events
    recomputed r m = elim (Bool-cases (id_precedes time_of r.id first.snapshot_id)) [
      | inl t ↦ elim (Bool-cases (any (has_event_id r.id) events)) [
        | inr f ↦ rw (t, f) refl
        | inl a ↦
            let (e, k, q) = any-elim (has_event_id r.id) events a in
            let same : e.id ≡ r.id = ground arith in
            absurd (
              ground (
                arith,
                t,
                ap (λ j. id_precedes time_of j first.snapshot_id) same,
                (events-ids e k).1,
              ))
      ]
      | inr f ↦ rw f (to_events r m f)
    ]

-- ===== src/Balances/Recorded.antt =====
-- Which events have a row after the batches, and that those without one are counted as failed.
use spectraplex.Base.{
  suc, ◌≤◌, ◌⊎◌, ◌++◌, ap, length, In-cons, ℕ, Bool, true, false, not, ◌&&◌, ◌||◌, ◌≡◌, refl, ◌∙◌,
  subst, inl, inr, List, [], ◌∷◌, ◌==◌, ==_refl, if◌then◌else◌, any, any-In, any-elim, In,
  Bool-cases, arith, All, All-In, sort_by, sort_by-In, In-sort_by, select-In, map-In,
  In-append_left, is_none,
}
use spectraplex.Balances.{
  Faults, BalanceEvent, BalanceRow, BalanceRecomputeEvent, event_precedes, row_precedes,
  recompute_precedes, is_incoming, of_event, recompute_events, running,
  get_balance_snapshots_at_or_after_order, upsert, save_balance_snapshots, materialize_incoming,
  materialize_balances, materialize_batches,
}
use spectraplex.Balances.Totals.{contains_id, outcome, whatever_fails}
use spectraplex.Balances.Running.{any-running, has_event_id}

not_both : {b : Bool} → b ≡ true → b ≡ false → ⊥
not_both h k = cc

module _ {D : Type 0} where
  abbrev pub AreTraced : List (BalanceRow D) → Type 0
  AreTraced rows = All (λ r. is_none r.delta ≡ false) rows

  contains-upsert :
      (i : ℕ) (n : BalanceRow D) (rows : List (BalanceRow D))
      → contains_id (upsert n rows) i ≡ (n.id == i || contains_id rows i)
  unfolding upsert
  contains-upsert i n [] = refl
  contains-upsert i n (r ∷ rows) = ground (arith, contains-upsert i n rows)

  contains-save :
      (i : ℕ) (ns rows : List (BalanceRow D))
      → contains_id (save_balance_snapshots ns rows) i ≡ (contains_id ns i || contains_id rows i)
  unfolding save_balance_snapshots
  contains-save i [] rows = refl
  contains-save i (n ∷ ns) rows =
      ground (arith, contains-save i ns (upsert n rows), contains-upsert i n rows)

  save_kept :
      (i : ℕ) (ns rows : List (BalanceRow D))
      → contains_id rows i ≡ true
      → contains_id (save_balance_snapshots ns rows) i ≡ true
  save_kept i ns rows h = ground (arith, contains-save i ns rows, h)

  save_new :
      (i : ℕ) (ns rows : List (BalanceRow D))
      → contains_id ns i ≡ true
      → contains_id (save_balance_snapshots ns rows) i ≡ true
  save_new i ns rows h = ground (arith, contains-save i ns rows, h)

  if_AreTraced :
      (c : Bool) (xs ys : List (BalanceRow D))
      → AreTraced xs
      → AreTraced ys
      → AreTraced (if c then xs else ys)
  if_AreTraced true xs ys h k = h
  if_AreTraced false xs ys h k = k

  upsert-AreTraced :
      (n : BalanceRow D) (rows : List (BalanceRow D))
      → is_none n.delta ≡ false
      → AreTraced rows
      → AreTraced (upsert n rows)
  unfolding upsert
  upsert-AreTraced n [] h hs = (h, tt)
  upsert-AreTraced n (r ∷ rows) h hs =
      if_AreTraced (r.id == n.id) _ _ (h, hs.1) (hs.0, upsert-AreTraced n rows h hs.1)

  save-AreTraced :
      (ns rows : List (BalanceRow D))
      → AreTraced ns
      → AreTraced rows
      → AreTraced (save_balance_snapshots ns rows)
  unfolding save_balance_snapshots
  save-AreTraced [] rows hn hr = hr
  save-AreTraced (n ∷ ns) rows hn hr =
      save-AreTraced ns (upsert n rows) hn.1 (upsert-AreTraced n rows hn.0 hr)

module _ {D : Type 0} (zero : D) (plus : D → D → D) where
  running-AreTraced :
      (b : D) (es : List (BalanceRecomputeEvent D)) → AreTraced (running zero plus b es)
  unfolding running
  running-AreTraced b [] = tt
  running-AreTraced b (e ∷ es) = (refl, running-AreTraced (plus b e.delta) es)

  incoming-AreTraced :
      (faults : Faults) (incoming : List (BalanceEvent D)) (rows : List (BalanceRow D))
      → AreTraced rows
      → AreTraced (materialize_incoming zero plus faults incoming rows).1
  unfolding materialize_incoming
  incoming-AreTraced faults [] rows h = h
  incoming-AreTraced faults (first ∷ others) rows h =
      whatever_fails AreTraced faults.seed_fails faults.suffix_fails faults.deltas_fail _
        faults.save_fails _ _ rows _ h (save-AreTraced _ rows (running-AreTraced _ _) h)

  nothing_untraced :
      (first : BalanceEvent D) (others : List (BalanceEvent D)) (rows : List (BalanceRow D))
      → AreTraced rows
      → any
          (λ s. not (is_incoming (first ∷ others) s.id) && is_none s.delta)
          (get_balance_snapshots_at_or_after_order first.timestamp first.snapshot_id rows)
        ≡ false
  unfolding get_balance_snapshots_at_or_after_order
  nothing_untraced first others rows h =
      elim (Bool-cases (
        any (λ s. not (is_incoming (first ∷ others) s.id) && is_none s.delta)
          (get_balance_snapshots_at_or_after_order first.timestamp first.snapshot_id rows))) [
            | inr f ↦ f
            | inl t ↦
                let (s, m, e) = any-elim _ _ t in
                let k = (select-In _ rows (In-sort_by row_precedes _ m)).0 in
                absurd (ground (arith, e, All-In (λ r. is_none r.delta ≡ false) h k))
          ]

  -- The rows that are to be saved have all incoming ids.
  saved_ids :
      (balance : D) (incoming : List (BalanceEvent D)) (suffix : List (BalanceRow D))
      {e : BalanceEvent D}
      → In e incoming
      → contains_id
          (running zero plus balance (recompute_events zero plus incoming suffix))
          e.snapshot_id
        ≡ true
  unfolding recompute_events
  saved_ids balance incoming suffix {e} m =
      any-running zero plus e.snapshot_id balance _
      ∙ any-In (has_event_id e.snapshot_id)
          (sort_by-In recompute_precedes _ (In-append_left _ (map-In (of_event zero plus) m)))
          (==_refl e.snapshot_id)

  -- Without a count of failures the rows are saved.
  uncounted_saved :
      (a b c d e : Bool) (i k : ℕ) (snapshots rows saved : List (BalanceRow D))
      → contains_id snapshots i ≡ true
      → contains_id saved i ≡ true
      → let result = outcome a b c d e (suc k) (length snapshots) rows saved in
        (contains_id result.1 i ≡ true) ⊎ (1 ≤ result.0)
  uncounted_saved true b c d e i k ns rows saved h g = inr (omega arith)
  uncounted_saved false true c d e i k ns rows saved h g = inr (omega arith)
  uncounted_saved false false true d e i k ns rows saved h g = inr (omega arith)
  uncounted_saved false false false true e i k ns rows saved h g = inr (omega arith)
  uncounted_saved false false false false true i k [] rows saved h g = cc
  uncounted_saved false false false false true i k (n ∷ ns) rows saved h g = inr (omega arith)
  uncounted_saved false false false false false i k ns rows saved h g = inl g

  incoming_counted :
      (faults : Faults) (incoming : List (BalanceEvent D)) (rows : List (BalanceRow D))
      {e : BalanceEvent D}
      → In e incoming
      → let result = materialize_incoming zero plus faults incoming rows in
        (contains_id result.1 e.snapshot_id ≡ true) ⊎ (1 ≤ result.0)
  unfolding materialize_incoming
  incoming_counted faults [] rows m = elim m [ ]
  incoming_counted faults (first ∷ others) rows {e} m =
      let new = saved_ids _ (first ∷ others) _ m in
      uncounted_saved faults.seed_fails faults.suffix_fails faults.deltas_fail _ faults.save_fails
        e.snapshot_id (length others) _ rows _ new (save_new e.snapshot_id _ rows new)

  -- No statement fails.
  abbrev pub IsFaultless : Faults → Type 0
  IsFaultless f =
      (f.seed_fails ≡ false)
      × (f.suffix_fails ≡ false)
      × (f.deltas_fail ≡ false)
      × (f.save_fails ≡ false)

  incoming_uncounted :
      (faults : Faults) (incoming : List (BalanceEvent D)) (rows : List (BalanceRow D))
      → IsFaultless faults
      → AreTraced rows
      → (materialize_incoming zero plus faults incoming rows).0 ≡ 0
  unfolding materialize_incoming
  incoming_uncounted faults [] rows f h = refl
  incoming_uncounted faults (first ∷ others) rows (a, b, c, d) h =
      rw (a, b, c, d, nothing_untraced first others rows h) refl

  incoming_recorded :
      (faults : Faults) (incoming : List (BalanceEvent D)) (rows : List (BalanceRow D))
      {e : BalanceEvent D}
      → IsFaultless faults
      → AreTraced rows
      → In e incoming
      → contains_id (materialize_incoming zero plus faults incoming rows).1 e.snapshot_id ≡ true
  incoming_recorded faults incoming rows f h m = elim (incoming_counted faults incoming rows m) [
    | inl k ↦ k
    | inr l ↦ absurd (omega (arith, l, incoming_uncounted faults incoming rows f h))
  ]

  incoming_kept :
      (i : ℕ) (faults : Faults) (incoming : List (BalanceEvent D)) (rows : List (BalanceRow D))
      → contains_id rows i ≡ true
      → contains_id (materialize_incoming zero plus faults incoming rows).1 i ≡ true
  unfolding materialize_incoming
  incoming_kept i faults [] rows h = h
  incoming_kept i faults (first ∷ others) rows h =
      whatever_fails (λ rs. contains_id rs i ≡ true) faults.seed_fails faults.suffix_fails
        faults.deltas_fail _ faults.save_fails _ _ rows _ h (save_kept i _ rows h)

  batches_kept :
      (i : ℕ) (batches : List (Faults × List (BalanceEvent D))) (rows : List (BalanceRow D))
      → contains_id rows i ≡ true
      → contains_id (materialize_batches zero plus batches rows) i ≡ true
  unfolding materialize_batches materialize_balances
  batches_kept i [] rows h = h
  batches_kept i ((faults, events) ∷ batches) rows h =
      batches_kept i batches _ (incoming_kept i faults (sort_by event_precedes events) rows h)

  batches-append :
      (before after : List (Faults × List (BalanceEvent D))) (rows : List (BalanceRow D))
      → materialize_batches zero plus (before ++ after) rows
        ≡ materialize_batches zero plus after (materialize_batches zero plus before rows)
  unfolding materialize_batches
  batches-append [] after rows = refl
  batches-append ((faults, events) ∷ before) after rows =
      batches-append before after (materialize_balances zero plus faults events rows).1

  -- No event is lost unnoticed: whatever statements fail, in any table and among any other batches,
  -- each event of a batch has a row after all batches, or the recomputation for its batch adds to
  -- the count of failures.
  pub batches_counted :
      (before after : List (Faults × List (BalanceEvent D))) (faults : Faults)
      (events : List (BalanceEvent D)) (rows : List (BalanceRow D)) {e : BalanceEvent D}
      → In e events
      → (contains_id
            (materialize_batches zero plus (before ++ (faults, events) ∷ after) rows)
            e.snapshot_id
          ≡ true)
        ⊎ (1
            ≤ (materialize_balances zero plus faults events
                (materialize_batches zero plus before rows)).0)
  unfolding materialize_batches materialize_balances
  batches_counted before after faults events rows {e} m =
      let table = materialize_batches zero plus before rows in
      elim (incoming_counted faults (sort_by event_precedes events) table
        (sort_by-In event_precedes events m)) [
          | inr l ↦ inr l
          | inl k ↦ inl (
              ap (λ rs. contains_id rs e.snapshot_id)
                (batches-append before ((faults, events) ∷ after) rows)
              ∙ batches_kept e.snapshot_id after _ k)
        ]

  -- If no statement fails and all rows of the table have deltas, such as those of an empty one, every
  -- event of every batch has a row after the batches, and all rows have deltas.
  pub batches_recorded :
      (batches : List (Faults × List (BalanceEvent D))) (rows : List (BalanceRow D))
      → All (λ b. IsFaultless b.0) batches
      → AreTraced rows
      → AreTraced (materialize_batches zero plus batches rows)
        × ((batch : Faults × List (BalanceEvent D)) (e : BalanceEvent D)
            → In batch batches
            → In e batch.1
            → contains_id (materialize_batches zero plus batches rows) e.snapshot_id ≡ true)
  unfolding materialize_batches materialize_balances
  batches_recorded [] rows fs h = (h, λ batch e m k. elim m [ ])
  batches_recorded ((faults, first) ∷ batches) rows (f, fs) h =
      let incoming = sort_by event_precedes first in
      let (traced, later) =
        batches_recorded batches (materialize_incoming zero plus faults incoming rows).1 fs
          (incoming-AreTraced faults incoming rows h) in
      (
        traced,
        λ batch e m k. elim (In-cons m) [
          | inr l ↦ later batch e l k
          | inl q ↦ batches_kept e.snapshot_id batches _ (
              incoming_recorded faults incoming rows f h
                (sort_by-In event_precedes first (subst (λ b. In e b.1) q k)))
        ],
      )

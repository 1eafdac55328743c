-- ===== src/Windows/Polls/Collected.antt =====
-- What repeated backfills of a wallet collect from a provider that answers as the API documents: the
-- first events from the start time on, up to its page size.
use mathlib.Core.List.{Perm}
use mathlib.Core.List.Perm
use spectraplex.Base.{
  ℕ, zero, suc, ℤ, pos, ltb_ℤ, leb_ℤ, true, ◌≡◌, refl, sym, ◌∙◌, subst, inl, inr, Option, List, [],
  ◌++◌, append_nil, arith, select, last?, take, IsSorted, In, Bool-cases, String, i64_max,
  Option-cases, Result, ok, and_then, and_then_ok, or_fail_ok, Result-cases,
}
use spectraplex.Windows.{WindowError, time, earlier, since, bounded_time_window, resume_after_ms}
use spectraplex.Windows.Order.{select_congr, select_none}
use spectraplex.Windows.Window.{last?-none}
use spectraplex.Windows.Polls.{
  EventKind, WalletCursor, empty_cursor, field_of, start_of, provider_cap, eqb_kind, EventRecord,
  record_events, backfill_kind, wallet_backfill,
}
use spectraplex.Windows.Polls.History.{between, window-history, resume_lem, Perm-select_or}
use spectraplex.Windows.Polls.Records.{
  events, events_after, after, field_of_empty, field_after_other, field_after_same, eqb_kind_sound,
  ok_pair, record_events_lem,
}

module _ {V : Type 0} (time_of : V → Option ℤ) (fetch : EventKind → ℤ → Result WindowError (List V))
    (event_id : String → EventKind → V → String) (wallet : String) (limit : ℕ) where
  -- What `n` backfills in a row return, before the worker drops what has the same hash.
  unfoldable pub polls : ℕ → WalletCursor → Result WindowError (WalletCursor × List (EventRecord V))
  polls zero cursor = ok (cursor, [])
  polls (suc n) cursor = and_then (polls n cursor) (λ a.
      and_then (wallet_backfill time_of fetch event_id wallet limit a.0)
        (λ b. ok (b.0, a.1 ++ b.1)))

  -- A provider that answers with the first events from the start time on, whose times are in range.
  module _ (history : EventKind → List V)
      (ordered : (k : EventKind) → IsSorted (earlier time_of) (history k))
      (in_range : (k : EventKind) (v : V)
        → In v (history k)
        → (leb_ℤ (pos 0) (time time_of v) ≡ true) × (ltb_ℤ (time time_of v) (pos i64_max) ≡ true))
      (honest : (k : EventKind) (start : ℤ)
        → fetch k start
          ≡ ok (take (provider_cap k) (select (since time_of start) (history k)))) where
    abbrev pub Got : EventKind → Option ℤ → List V → Type 0
    Got k cursor es = Perm es (select (λ v. ltb_ℤ (time time_of v) (start_of cursor)) (history k))

    -- The collected events of a kind are those before the next start time.
    abbrev pub Collected : EventKind → WalletCursor → List (EventRecord V) → Type 0
    Collected k c records = Got k (field_of k c) (events k records)

    -- A window of a kind's events after those collected before.
    grow :
        (k : EventKind) (start : ℤ) (w : V) {es ws : List V}
        → Perm es (select (λ v. ltb_ℤ (time time_of v) start) (history k))
        → In w (history k)
        → since time_of start w ≡ true
        → Perm ws (select (between time_of start w) (history k))
        → Perm
            (es ++ ws)
            (select (λ v. ltb_ℤ (time time_of v) (resume_after_ms (time time_of w))) (history k))
    unfolding between
    grow k start w {es} {ws} a m f b =
        let both =
          Perm.trans (Perm.append a b)
            (Perm-select_or _ (between time_of start w) (history k) (λ x n l. ground arith)) in
        let (low, high) = in_range k w m in
        subst (Perm (es ++ ws))
          (select_congr _ (λ v. ltb_ℤ (time time_of v) (resume_after_ms (time time_of w)))
            (history k)
            (λ x n. rw (resume_lem (time time_of w) (time time_of x) low high) (ground arith)))
          both

    round :
        (kind : EventKind) (pre : List (EventRecord V)) (c : WalletCursor)
        (out : List (EventRecord V)) (ws : List V)
        → Collected kind c (pre ++ out)
        → bounded_time_window time_of
            (take
              (provider_cap kind)
              (select (since time_of (start_of (field_of kind c))) (history kind)))
            (start_of (field_of kind c))
            limit
            (provider_cap kind)
          ≡ ok ws
        → Perm (events kind (pre ++ out) ++ ws) (
            select
              (λ v.
                ltb_ℤ (time time_of v) (start_of (field_of kind (after time_of (last? ws) kind c))))
              (history kind))
    unfolding after
    round kind pre c out ws i q = elim (Option-cases (last? ws)) [
      | inl e ↦
          let n : events kind (pre ++ out) ≡ events kind (pre ++ out) ++ ws =
            rw (last?-none time_of ws e) (sym (append_nil _)) in
          rw e (subst (λ es. Got kind (field_of kind c) es) n i)
      | inr (w, e) ↦
          let (m, f, b) =
            window-history time_of (history kind) (ordered kind) (start_of (field_of kind c)) limit
              (provider_cap kind) q e in
          rw (e, field_after_same time_of kind w c)
            (grow kind (start_of (field_of kind c)) w i m f b)
    ]

    backfill_kind-Collected :
        (kind : EventKind) (pre : List (EventRecord V)) (c : WalletCursor)
        (out : List (EventRecord V)) {c' : WalletCursor} {out' : List (EventRecord V)}
        → ((k : EventKind) → Collected k c (pre ++ out))
        → backfill_kind time_of fetch event_id wallet limit kind (c, out) ≡ ok (c', out')
        → (k : EventKind) → Collected k c' (pre ++ out')
    unfolding backfill_kind
    backfill_kind-Collected kind pre c out {c'} {out'} i h k =
        elim (Result-cases (
          bounded_time_window time_of
            (take (provider_cap kind)
              (select (since time_of (start_of (field_of kind c))) (history kind)))
            (start_of (field_of kind c)) limit (provider_cap kind))) [
              | inl (e, q) ↦ absurd (ground (arith, honest kind (start_of (field_of kind c)), q))
              | inr (ws, q) ↦
                  let r : record_events time_of fetch event_id wallet limit kind ws c out
                      ≡ ok (c', out') =
                    ground (arith, honest kind (start_of (field_of kind c)), q) in
                  let (a, b) =
                    record_events_lem time_of fetch event_id wallet limit kind ws c out r in
                  elim (Bool-cases (eqb_kind k kind)) [
                    | inl t ↦
                        let e = eqb_kind_sound k kind t in
                        let t' = subst (λ j. eqb_kind j kind ≡ true) e t in
                        let grown : events kind (pre ++ out') ≡ events kind (pre ++ out) ++ ws =
                          events_after kind pre out out' ws (b kind ∙ rw t' refl) in
                        subst (λ j. Collected j c' (pre ++ out')) (sym e)
                          (rw (a, grown) (round kind pre c out ws (i kind) q))
                    | inr f ↦
                        let kept : events k (pre ++ out') ≡ events k (pre ++ out) =
                          events_after k pre out out' [] (b k ∙ rw f refl) ∙ append_nil _ in
                        rw (a, kept, field_after_other time_of k kind (last? ws) c f) (i k)
                  ]
            ]

    wallet_backfill-Collected :
        (pre : List (EventRecord V)) (c : WalletCursor) {c' : WalletCursor}
        {out : List (EventRecord V)}
        → ((k : EventKind) → Collected k c pre)
        → wallet_backfill time_of fetch event_id wallet limit c ≡ ok (c', out)
        → (k : EventKind) → Collected k c' (pre ++ out)
    unfolding wallet_backfill
    wallet_backfill-Collected pre c {c'} {out} i h =
        let (a, ha, h1) = and_then_ok _ _ (or_fail_ok _ WindowError.invalid_limit h) in
        let (b, hb, hc) = and_then_ok _ _ h1 in
        let first =
          backfill_kind-Collected EventKind.fill pre c [] (λ k. rw (append_nil pre) (i k)) ha in
        let second = backfill_kind-Collected EventKind.funding pre a.0 a.1 first hb in
        backfill_kind-Collected EventKind.ledger_update pre b.0 b.1 second hc

    -- Repeated calls from the empty cursor collect, of each kind, exactly the events before the
    -- start time that the last cursor gives, each as often as it occurs in the history.
    pub polls-Collected :
        (n : ℕ) {c : WalletCursor} {records : List (EventRecord V)}
        → polls n empty_cursor ≡ ok (c, records)
        → (k : EventKind) → Collected k c records
    unfolding polls events
    polls-Collected zero {c} {records} h k =
        let (qc, qr) = ok_pair h in
        rw (qc, qr, field_of_empty k)
          (subst (Perm [])
            (sym
              (select_none _ (history k) (λ v m. let (low, high) = in_range k v m in ground arith)))
            (Perm.refl []))
    polls-Collected (suc n) {c} {records} h k =
        let (a, ha, h1) = and_then_ok (polls n empty_cursor) _ h in
        let (b, hb, e) =
          and_then_ok (wallet_backfill time_of fetch event_id wallet limit a.0) _ h1 in
        let (qc, qr) = ok_pair e in
        rw (qc, qr) (wallet_backfill-Collected a.1 a.0 (polls-Collected n ha) hb k)

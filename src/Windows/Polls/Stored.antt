-- ===== src/Windows/Polls/Stored.antt =====
-- What run_connector_backfill of api/src/worker.rs leaves in the table of raw transactions: the rows of
-- the events before the cursor.
use mathlib.Core.List.{Mem, Perm, mem-cons, mem-cons_self, mem-cons_of_mem, not-mem-nil}
use mathlib.Core.List.Perm
use mathlib.Core.Logic.Or
use text.Mathlib.TextPositions.{eq_refl}
use spectraplex.Base.{
  ℕ, zero, suc, ℤ, pos, ltb_ℤ, leb_ℤ, Bool, true, ◌≡◌, refl, sym, ◌∙◌, subst, inl, inr, Option,
  List, [], ◌∷◌, ◌++◌, arith, select, select-In, In-select, any, any-elim, In, head, tail,
  In-append, In-cons, In-map, map-In, String, str_eq, str_eq_iff, i64_max, take, IsSorted,
  Option-cases, Result, ok, and_then_ok, or_fail_ok,
}
use spectraplex.Windows.{WindowError, time, earlier, since, bounded_time_window}
use spectraplex.Windows.Polls.{
  EventKind, WalletCursor, empty_cursor, field_of, start_of, provider_cap, eqb_kind, EventRecord,
  event_record, record_events, backfill_kind, wallet_backfill, has_hash, backfills,
}
use spectraplex.Windows.Polls.Records.{events, eqb_kind_sound, ok_pair}
use spectraplex.Windows.Polls.Collected.{polls, polls-Collected}
use spectraplex.Windows.Polls.Rows.{HasUniqueHashes, Stores, batch-Stores}
use mathlib.Core.Bool.{Bool-set}

module _ {V : Type 0} where
  Mem-of_In : {v : V} {vs : List V} → In v vs → Mem v vs
  Mem-of_In head = mem-cons_self
  Mem-of_In (tail {x = y} m) = mem-cons_of_mem y (Mem-of_In m)

  any-Mem : (p : V → Bool) (vs : List V) {v : V} → Mem v vs → p v ≡ true → any p vs ≡ true
  any-Mem p [] m h = absurd (not-mem-nil m)
  any-Mem p (x ∷ vs) {v} m h =
      Or.elim (Bool-set (any p (x ∷ vs)) true) (mem-cons.0 m)
        (λ e. let q : p x ≡ true = subst (λ y. p y ≡ true) e h in ground (arith, q))
        (λ k. ground (arith, any-Mem p vs k h))

  event-In :
      (k : EventKind) (rs : List (EventRecord V)) {r : EventRecord V}
      → In r rs
      → r.kind ≡ k
      → In r.event (events k rs)
  unfolding events
  event-In k rs {r} m e =
      map-In (λ (r : EventRecord V). r.event)
        (In-select (λ r. eqb_kind k r.kind) m (rw e (eqb_kind_refl k)))
    where
      eqb_kind_refl : (k : EventKind) → eqb_kind k k ≡ true
      eqb_kind_refl EventKind.fill = refl
      eqb_kind_refl EventKind.funding = refl
      eqb_kind_refl EventKind.ledger_update = refl

  In-event :
      (k : EventKind) (rs : List (EventRecord V)) {v : V}
      → In v (events k rs)
      → (r : EventRecord V) × In r rs × (r.kind ≡ k) × (r.event ≡ v)
  unfolding events
  In-event k rs m =
      let (r, l, q) = In-map (λ (r : EventRecord V). r.event) _ m in
      let (n, e) = select-In (λ r. eqb_kind k r.kind) rs l in
      (r, n, sym (eqb_kind_sound k r.kind e), sym q)

module _ {V : Type 0} (time_of : V → Option ℤ) (fetch : EventKind → ℤ → Result WindowError (List V))
    (event_id : String → EventKind → V → String) (wallet : String) (limit : ℕ) where
  -- The hash of an event, which its time does not enter.
  abbrev pub hash_of : EventKind → V → String
  hash_of kind v =
      (event_record time_of fetch event_id wallet limit kind (time time_of v) v).tx_hash

  abbrev AreNamed : List (EventRecord V) → Type 0
  AreNamed rs = (r : EventRecord V) → In r rs → r.tx_hash ≡ hash_of r.kind r.event

  append-AreNamed : (xs ys : List (EventRecord V)) → AreNamed xs → AreNamed ys → AreNamed (xs ++ ys)
  append-AreNamed xs ys h k r m = elim (In-append xs ys m) [ inl a ↦ h r a | inr b ↦ k r b ]

  one-AreNamed :
      (kind : EventKind) (t : ℤ) (v : V)
      → AreNamed (event_record time_of fetch event_id wallet limit kind t v ∷ [])
  unfolding event_record
  one-AreNamed kind t v r m = elim (In-cons m) [
    | inl q ↦ subst (λ (x : EventRecord V). x.tx_hash ≡ hash_of x.kind x.event) (sym q) refl
    | inr k ↦ elim k [ ]
  ]

  record_events-AreNamed :
      (kind : EventKind) (vs : List V) (c : WalletCursor) (out : List (EventRecord V))
      {c' : WalletCursor} {out' : List (EventRecord V)}
      → AreNamed out
      → record_events time_of fetch event_id wallet limit kind vs c out ≡ ok (c', out')
      → AreNamed out'
  unfolding record_events
  record_events-AreNamed kind [] c out n h = subst AreNamed (sym (ok_pair h).1) n
  record_events-AreNamed kind (v ∷ vs) c out {c'} {out'} n h = elim (Option-cases (time_of v)) [
    | inl e ↦ absurd (ground (arith, e))
    | inr (t, e) ↦
        record_events-AreNamed kind vs _ _ {c' = c'} {out' = out'}
          (append-AreNamed out _ n (one-AreNamed kind t v)) (rw (e, record_events) at h)
  ]

  backfill_kind-AreNamed :
      (kind : EventKind) (a : WalletCursor × List (EventRecord V)) {c' : WalletCursor}
      {out' : List (EventRecord V)}
      → AreNamed a.1
      → backfill_kind time_of fetch event_id wallet limit kind a ≡ ok (c', out')
      → AreNamed out'
  unfolding backfill_kind
  backfill_kind-AreNamed kind (c, out) n h =
      let start = start_of (field_of kind c) in
      let (values, _, h1) = and_then_ok (fetch kind start) _ h in
      let (window, _, h2) =
        and_then_ok (bounded_time_window time_of values start limit (provider_cap kind)) _ h1 in
      record_events-AreNamed kind window c out n h2

  wallet_backfill-AreNamed :
      (c : WalletCursor) {c' : WalletCursor} {out : List (EventRecord V)}
      → wallet_backfill time_of fetch event_id wallet limit c ≡ ok (c', out)
      → AreNamed out
  unfolding wallet_backfill
  wallet_backfill-AreNamed c h =
      let (a, ha, h1) = and_then_ok _ _ (or_fail_ok _ WindowError.invalid_limit h) in
      let (b, hb, hc) = and_then_ok _ _ h1 in
      backfill_kind-AreNamed EventKind.ledger_update b
        (backfill_kind-AreNamed EventKind.funding a
          (backfill_kind-AreNamed EventKind.fill (c, []) (λ r m. elim m [ ]) ha) hb)
        hc

  -- The records that backfills return have the hashes of their events, and the rows store them.
  backfills-Stores :
      (n : ℕ) {c : WalletCursor} {rows : List (EventRecord V)}
      → backfills time_of fetch event_id wallet limit n empty_cursor ≡ ok (c, rows)
      → (records : List (EventRecord V)) × (polls time_of fetch event_id wallet limit n empty_cursor
          ≡ ok (c, records))
        × AreNamed records
        × Stores records rows
  unfolding backfills polls
  backfills-Stores zero {c} {rows} h =
      let (qc, qr) = ok_pair h in
      (
        [],
        rw qc refl,
        λ r m. elim m [ ],
        rw qr
            (record { unique = λ h. omega arith; returned = λ r m. m; hashed = λ r m. elim m [ ] }),
      )
  backfills-Stores (suc n) {c} {rows} h =
      let (a, ha, h1) =
        and_then_ok (backfills time_of fetch event_id wallet limit n empty_cursor) _ h in
      let (b, hb, e) = and_then_ok (wallet_backfill time_of fetch event_id wallet limit a.0) _ h1 in
      let (qc, qr) = ok_pair e in
      let (records, collected, named, stores) = backfills-Stores n ha in
      (
        records ++ b.1,
        rw (collected, polls) (rw (hb, polls) (rw qc refl)),
        append-AreNamed records b.1 named (wallet_backfill-AreNamed a.0 hb),
        rw qr (batch-Stores records a.1 b.1 stores),
      )

  -- A provider that answers with the first events from the start time on, whose times are in range.
  module _ (history : EventKind → List V)
      (ordered : (k : EventKind) → IsSorted (earlier time_of) (history k))
      (in_range : (k : EventKind) (v : V)
        → In v (history k)
        → (leb_ℤ (pos 0) (time time_of v) ≡ true) × (ltb_ℤ (time time_of v) (pos i64_max) ≡ true))
      (honest : (k : EventKind) (start : ℤ)
        → fetch k start
          ≡ ok (take (provider_cap k) (select (since time_of start) (history k)))) where
    -- The events of a kind before the start time that a cursor gives.
    abbrev pub events_before : EventKind → WalletCursor → List V
    events_before k c = select (λ v. ltb_ℤ (time time_of v) (start_of (field_of k c))) (history k)

    -- The rows are those of the events before the cursor: no two rows have the same hash, each event
    -- has a row with its hash, and each row is that of such an event.
    abbrev pub AreStored : WalletCursor → List (EventRecord V) → Type 0
    AreStored c rows =
        HasUniqueHashes rows
        × ((k : EventKind) (v : V)
            → In v (events_before k c)
            → any (has_hash (hash_of k v)) rows ≡ true)
        × ((r : EventRecord V)
            → In r rows
            → (r.tx_hash ≡ hash_of r.kind r.event) × Mem r.event (events_before r.kind c))

    event_stored :
        (k : EventKind) (v : V) (collected before : List V) (records rows : List (EventRecord V))
        → Perm collected before
        → events k records ≡ collected
        → AreNamed records
        → Stores records rows
        → In v before
        → any (has_hash (hash_of k v)) rows ≡ true
    event_stored k v collected before records rows same e named stores m =
        let p = λ (x : V). str_eq (hash_of k x) (hash_of k v) in
        let found =
          any-Mem p collected ((Perm.mem_iff same).1 (Mem-of_In m)) (eq_refl (hash_of k v)) in
        let (x, l, q) = any-elim p collected found in
        let (r, i, qk, qv) = In-event k records (subst (In x) (sym e) l) in
        let name : r.tx_hash ≡ hash_of k v =
          named r i ∙ rw (qk, qv) ((str_eq_iff (hash_of k x) (hash_of k v)).0 q) in
        subst (λ h. any (has_hash h) rows ≡ true) name (stores.hashed r i)

    -- If a wallet's history is in the order of time with times in range, and the provider answers each
    -- request with the first events of it from the start time on, as many as its page holds, then
    -- backfills in a row, from the empty cursor and an empty table, that succeed leave the rows of the
    -- events before the start times that the last cursor gives: no two rows have the same hash, each
    -- such event has a row with its hash, and each row is that of such an event.
    pub backfills-AreStored :
        (n : ℕ) {c : WalletCursor} {rows : List (EventRecord V)}
        → backfills time_of fetch event_id wallet limit n empty_cursor ≡ ok (c, rows)
        → AreStored c rows
    backfills-AreStored n {c} {rows} h =
        let (records, collected, named, stores) = backfills-Stores n h in
        let got =
          polls-Collected time_of fetch event_id wallet limit history ordered in_range honest n
            collected in
        (
          stores.unique,
          λ k v m.
              event_stored k v (events k records) (events_before k c) records rows (got k) refl
                named stores m,
          λ r m.
              let i = stores.returned r m in
              (
                named r i,
                (Perm.mem_iff (got r.kind)).0 (Mem-of_In (event-In r.kind records i refl)),
              ),
        )

-- ===== src/Windows/Polls/Rows.antt =====
-- The rows that the batches of records leave in the table of raw transactions: one for each hash.
use text.Mathlib.TextPositions.{eq_refl}
use spectraplex.Base.{
  ◌≤◌, Bool, true, false, ◌≡◌, refl, sym, subst, ◌⊎◌, inl, inr, List, [], ◌∷◌, ◌++◌, arith, any,
  any-In, any-elim, count, count-append, count_of_any, In, head, tail, In-append, In-append_left,
  In-append_right, In-cons, Bool-cases, String, str_eq, str_eq_iff, if◌then◌else◌,
}
use spectraplex.Windows.Polls.{EventRecord, has_hash, deduped, upsert_raw}

module _ {V : Type 0} where
  hash_sound : (h : String) (r : EventRecord V) → has_hash h r ≡ true → r.tx_hash ≡ h
  hash_sound h r e = (str_eq_iff r.tx_hash h).0 e

  hash_here : (r : EventRecord V) → has_hash r.tx_hash r ≡ true
  hash_here r = eq_refl r.tx_hash

  -- The filter keeps records, and of each hash that is not seen before one.
  deduped-In :
      (seen : List String) (rs : List (EventRecord V)) {r : EventRecord V}
      → In r (deduped seen rs)
      → In r rs
  unfolding deduped
  deduped-In seen [] m = m
  deduped-In seen (x ∷ rs) {r} m = elim (Bool-cases (any (str_eq x.tx_hash) seen)) [
    | inl t ↦ tail (deduped-In (x.tx_hash ∷ seen) rs (rw (t, deduped) at m))
    | inr f ↦ elim (In-cons (rw (f, deduped) at m)) [
      | inl q ↦ subst (λ y. In y (x ∷ rs)) (sym q) head
      | inr k ↦ tail (deduped-In (x.tx_hash ∷ seen) rs k)
    ]
  ]

  deduped_has :
      (seen : List String) (rs : List (EventRecord V)) {r : EventRecord V}
      → In r rs
      → (any (has_hash r.tx_hash) (deduped seen rs) ≡ true) ⊎ (any (str_eq r.tx_hash) seen ≡ true)
  unfolding deduped
  deduped_has seen [] m = elim m [ ]
  deduped_has seen (x ∷ rs) head = elim (Bool-cases (any (str_eq x.tx_hash) seen)) [
    | inl t ↦ inr t
    | inr f ↦ inl (rw (f, deduped) (rw (hash_here x) refl))
  ]
  deduped_has seen (x ∷ rs) {r} (tail m) = elim (deduped_has (x.tx_hash ∷ seen) rs m) [
    | inl k ↦ inl (elim (Bool-cases (any (str_eq x.tx_hash) seen)) [
      | inl t ↦ rw (t, deduped) k
      | inr f ↦ rw (f, deduped) (ground (arith, k))
    ])
    | inr k ↦ elim (Bool-cases (str_eq r.tx_hash x.tx_hash)) [
      | inr n ↦ inr (ground (arith, k, n))
      | inl same ↦
          let e = (str_eq_iff r.tx_hash x.tx_hash).0 same in
          elim (Bool-cases (any (str_eq x.tx_hash) seen)) [
            | inl t ↦ inr (rw e t)
            | inr f ↦ inl (rw (f, deduped) (rw (e, hash_here x) refl))
          ]
    ]
  ]

  -- The table after one record.
  abbrev grown : EventRecord V → List (EventRecord V) → List (EventRecord V)
  grown x table = if any (has_hash x.tx_hash) table then table else table ++ x ∷ []

  any-grown :
      (p : EventRecord V → Bool) (x : EventRecord V) (table : List (EventRecord V))
      → any p table ≡ true
      → any p (grown x table) ≡ true
  any-grown p x table h = elim (Bool-cases (any (has_hash x.tx_hash) table)) [
    | inl t ↦ rw t h
    | inr f ↦ rw f (let (r, m, q) = any-elim p table h in any-In p (In-append_left (x ∷ []) m) q)
  ]

  grown_has :
      (x : EventRecord V) (table : List (EventRecord V))
      → any (has_hash x.tx_hash) (grown x table) ≡ true
  grown_has x table = elim (Bool-cases (any (has_hash x.tx_hash) table)) [
    | inl t ↦ rw t t
    | inr f ↦
        rw f (any-In (has_hash x.tx_hash) (In-append_right table (head {xs = []})) (hash_here x))
  ]

  grown-In :
      (x : EventRecord V) (table : List (EventRecord V)) {r : EventRecord V}
      → In r (grown x table)
      → In r table ⊎ (r ≡ x)
  grown-In x table {r} m = elim (Bool-cases (any (has_hash x.tx_hash) table)) [
    | inl t ↦ inl (rw t at m)
    | inr f ↦ elim (In-append table (x ∷ []) (rw f at m)) [
      | inl k ↦ inl k
      | inr k ↦ elim (In-cons k) [ inl q ↦ inr q | inr l ↦ elim l [ ] ]
    ]
  ]

  -- No two rows have the same hash.
  abbrev pub HasUniqueHashes : List (EventRecord V) → Type 0
  HasUniqueHashes rows = (h : String) → count (has_hash h) rows ≤ 1

  grown-HasUniqueHashes :
      (x : EventRecord V) (table : List (EventRecord V))
      → HasUniqueHashes table
      → HasUniqueHashes (grown x table)
  grown-HasUniqueHashes x table u h = elim (Bool-cases (any (has_hash x.tx_hash) table)) [
    | inl t ↦ rw t (u h)
    | inr f ↦ rw f (elim (Bool-cases (has_hash h x)) [
      | inr n ↦ ground (arith, count-append (has_hash h) table (x ∷ []), u h, n)
      | inl same ↦
          let none_yet : count (has_hash h) table ≡ 0 =
            count_of_any (has_hash h) table
              (subst (λ k. any (has_hash k) table ≡ false) (hash_sound h x same) f) in
          ground (arith, count-append (has_hash h) table (x ∷ []), none_yet)
    ])
  ]

  -- The table only grows, by records of the batch, and has each hash of the batch once.
  upsert_kept :
      (p : EventRecord V → Bool) (rs table : List (EventRecord V))
      → any p table ≡ true
      → any p (upsert_raw table rs) ≡ true
  unfolding upsert_raw
  upsert_kept p [] table h = h
  upsert_kept p (x ∷ rs) table h = upsert_kept p rs (grown x table) (any-grown p x table h)

  upsert_has :
      (rs table : List (EventRecord V)) {r : EventRecord V}
      → In r rs
      → any (has_hash r.tx_hash) (upsert_raw table rs) ≡ true
  unfolding upsert_raw
  upsert_has [] table m = elim m [ ]
  upsert_has (x ∷ rs) table head =
      upsert_kept (has_hash x.tx_hash) rs (grown x table) (grown_has x table)
  upsert_has (x ∷ rs) table (tail m) = upsert_has rs (grown x table) m

  upsert-In :
      (rs table : List (EventRecord V)) {r : EventRecord V}
      → In r (upsert_raw table rs)
      → In r table ⊎ In r rs
  unfolding upsert_raw
  upsert-In [] table m = inl m
  upsert-In (x ∷ rs) table {r} m = elim (upsert-In rs (grown x table) m) [
    | inr k ↦ inr (tail k)
    | inl k ↦ elim (grown-In x table k) [
      | inl l ↦ inl l
      | inr q ↦ inr (subst (λ y. In y (x ∷ rs)) (sym q) head)
    ]
  ]

  upsert-HasUniqueHashes :
      (rs table : List (EventRecord V))
      → HasUniqueHashes table
      → HasUniqueHashes (upsert_raw table rs)
  unfolding upsert_raw
  upsert-HasUniqueHashes [] table u = u
  upsert-HasUniqueHashes (x ∷ rs) table u =
      upsert-HasUniqueHashes rs (grown x table) (grown-HasUniqueHashes x table u)

  -- The rows that are stored of the records that were returned.
  pub record Stores (records rows : List (EventRecord V)) : Type 0 where
    pub unique : HasUniqueHashes rows
    pub returned : (r : EventRecord V) → In r rows → In r records
    pub hashed : (r : EventRecord V) → In r records → any (has_hash r.tx_hash) rows ≡ true

  batch_hashed :
      (rs table : List (EventRecord V)) {r : EventRecord V}
      → In r rs
      → any (has_hash r.tx_hash) (upsert_raw table (deduped [] rs)) ≡ true
  batch_hashed rs table {r} m = elim (deduped_has [] rs m) [
    | inr k ↦ cc
    | inl k ↦
        let (x, l, q) = any-elim (has_hash r.tx_hash) (deduped [] rs) k in
        subst (λ h. any (has_hash h) (upsert_raw table (deduped [] rs)) ≡ true)
          (hash_sound r.tx_hash x q) (upsert_has (deduped [] rs) table l)
  ]

  pub batch-Stores :
      (records rows rs : List (EventRecord V))
      → Stores records rows
      → Stores (records ++ rs) (upsert_raw rows (deduped [] rs))
  batch-Stores records rows rs s = record {
    unique = upsert-HasUniqueHashes (deduped [] rs) rows s.unique;
    returned = λ r m. elim (upsert-In (deduped [] rs) rows m) [
      | inl k ↦ In-append_left rs (s.returned r k)
      | inr k ↦ In-append_right records (deduped-In [] rs k)
    ];
    hashed = λ r m. elim (In-append records rs m) [
      | inl k ↦ upsert_kept (has_hash r.tx_hash) (deduped [] rs) rows (s.hashed r k)
      | inr k ↦ batch_hashed rs rows k
    ];
  }

-- ===== src/Balances/Totals.antt =====
-- Totals of the deltas of rows, and what an upsert does to them.
use spectraplex.Base.{
  In-cons, ℕ, ℤ, All, ◌≤◌, Bool, true, false, not, ◌&&◌, ◌≡◌, refl, sym, ◌∙◌, ap, subst, ◌⊎◌, inl,
  inr, List, [], ◌∷◌, ◌==◌, if◌then◌else◌, unwrap_or, any, count, In, head, tail, Bool-cases, arith,
  count-In, any-elim,
}
use spectraplex.Balances.{BalanceRow, upsert, save_balance_snapshots}

module _ {D : Type 0} where
  abbrev pub has_row_id : ℕ → BalanceRow D → Bool
  has_row_id i r = r.id == i

  -- No two rows have the same id.
  abbrev pub AreDistinct : List (BalanceRow D) → Type 0
  AreDistinct rows = (i : ℕ) → count (has_row_id i) rows ≤ 1

  abbrev pub contains_id : List (BalanceRow D) → ℕ → Bool
  contains_id rows i = any (has_row_id i) rows

  -- What a recomputation comes to, by what fails: the count of failures and the table.
  abbrev pub outcome :
      (a b c d e : Bool) (k n : ℕ) (rows saved : List (BalanceRow D)) → ℕ × List (BalanceRow D)
  outcome a b c d e k n rows saved =
      if a
      then (k, rows)
      else if b
      then (k, rows)
      else if c
      then (k, rows)
      else if d
      then (k, rows)
      else if e
      then (n, rows)
      else (0, saved)

  -- What holds of the table before and of the table that is saved holds whatever fails.
  pub whatever_fails :
      (P : List (BalanceRow D) → Type 0) (a b c d e : Bool) (k n : ℕ)
      (rows saved : List (BalanceRow D))
      → P rows
      → P saved
      → P (outcome a b c d e k n rows saved).1
  whatever_fails P true b c d e k n rows saved h g = h
  whatever_fails P false true c d e k n rows saved h g = h
  whatever_fails P false false true d e k n rows saved h g = h
  whatever_fails P false false false true e k n rows saved h g = h
  whatever_fails P false false false false true k n rows saved h g = h
  whatever_fails P false false false false false k n rows saved h g = g

  count-upsert :
      (i : ℕ) (n : BalanceRow D) (rows : List (BalanceRow D))
      → count (has_row_id i) (upsert n rows) ≡ (
          if contains_id rows n.id
          then count (has_row_id i) rows
          else count (has_row_id i) (n ∷ rows))
  unfolding upsert
  count-upsert i n [] = refl
  count-upsert i n (r ∷ rows) = ground (arith, count-upsert i n rows)

  no_rows :
      (i : ℕ) (rows : List (BalanceRow D))
      → contains_id rows i ≡ false
      → count (has_row_id i) rows ≡ 0
  no_rows i [] h = refl
  no_rows i (r ∷ rows) h = ground (arith, no_rows i rows)

  pub upsert-AreDistinct :
      (n : BalanceRow D) (rows : List (BalanceRow D))
      → AreDistinct rows
      → AreDistinct (upsert n rows)
  upsert-AreDistinct n rows h i = ground (arith, count-upsert i n rows, h i, no_rows i rows)

  pub rest_distinct :
      (x : BalanceRow D) (rows : List (BalanceRow D)) → AreDistinct (x ∷ rows) → AreDistinct rows
  rest_distinct x rows h i = ground (arith, h i)

  other_id :
      (n x : BalanceRow D) (rows : List (BalanceRow D)) {r : BalanceRow D}
      → In r rows
      → count (has_row_id n.id) (x ∷ rows) ≤ 1
      → (x.id == n.id) ≡ true
      → (r.id == n.id) ≡ false
  other_id n x rows {r} m h e = elim (Bool-cases (r.id == n.id)) [
    | inl t ↦ absurd (ground (arith, count-In (has_row_id n.id) m t))
    | inr f ↦ f
  ]

  no_id :
      (n : BalanceRow D) (ns : List (BalanceRow D))
      → count (has_row_id n.id) (n ∷ ns) ≤ 1
      → contains_id ns n.id ≡ false
  no_id n ns h = elim (Bool-cases (contains_id ns n.id)) [
    | inl t ↦
        let (x, m, e) = any-elim (has_row_id n.id) ns t in
        absurd (ground (arith, count-In (has_row_id n.id) m e))
    | inr f ↦ f
  ]

  -- A row after an upsert is an old one with another id, or has the id and balance that are written.
  pub In-upsert :
      (n : BalanceRow D) (rows : List (BalanceRow D)) {r : BalanceRow D}
      → AreDistinct rows
      → In r (upsert n rows)
      → (In r rows × ((r.id == n.id) ≡ false)) ⊎ ((r.id ≡ n.id) × (r.balance ≡ n.balance))
  unfolding upsert
  In-upsert n [] {r} h m = elim (In-cons m) [
    | inl e ↦ inr (ap (λ x. x.id) e, ap (λ x. x.balance) e)
    | inr k ↦ elim k [ ]
  ]
  In-upsert n (x ∷ rows) {r} h m = elim (Bool-cases (x.id == n.id)) [
    | inl e ↦
        let written : BalanceRow D = record {
          id = x.id;
          timestamp = x.timestamp;
          tx_hash = x.tx_hash;
          balance = n.balance;
          delta = n.delta;
        } in
        let q : upsert n (x ∷ rows) ≡ written ∷ rows = ground (arith, e) in
        elim (In-cons (subst (In r) q m)) [
          | inl k ↦ inr (ap (λ y. y.id) k ∙ ground (arith, e), ap (λ y. y.balance) k)
          | inr k ↦ inl (tail k, other_id n x rows k (h n.id) e)
        ]
    | inr f ↦
        let q : upsert n (x ∷ rows) ≡ x ∷ upsert n rows = ground (arith, f) in
        elim (In-cons (subst (In r) q m)) [
          | inl k ↦ inl (
            subst (λ y. In y (x ∷ rows)) (sym k) head,
            subst (λ y. (y.id == n.id) ≡ false) (sym k) f,
          )
          | inr k ↦ elim (In-upsert n rows (rest_distinct x rows h) k) [
            | inl (a, b) ↦ inl (tail a, b)
            | inr b ↦ inr b
          ]
        ]
  ]

  pub save-AreDistinct :
      (ns rows : List (BalanceRow D))
      → AreDistinct rows
      → AreDistinct (save_balance_snapshots ns rows)
  unfolding save_balance_snapshots
  save-AreDistinct [] rows h = h
  save-AreDistinct (n ∷ ns) rows h =
      save-AreDistinct ns (upsert n rows) (upsert-AreDistinct n rows h)

  -- A predicate of the id and the time of rows that an upsert keeps.
  upsert-All :
      (P : ℕ → ℤ → Type 0) (n : BalanceRow D) (rows : List (BalanceRow D))
      → P n.id n.timestamp
      → All (λ r. P r.id r.timestamp) rows
      → All (λ r. P r.id r.timestamp) (upsert n rows)
  unfolding upsert
  upsert-All P n [] h hs = (h, tt)
  upsert-All P n (r ∷ rows) h hs = elim (Bool-cases (r.id == n.id)) [
    | inl e ↦
        let written : BalanceRow D = record {
          id = r.id;
          timestamp = r.timestamp;
          tx_hash = r.tx_hash;
          balance = n.balance;
          delta = n.delta;
        } in
        let q : written ∷ rows ≡ upsert n (r ∷ rows) = ground (arith, e) in
        subst (All (λ r. P r.id r.timestamp)) q (hs.0, hs.1)
    | inr f ↦
        let q : r ∷ upsert n rows ≡ upsert n (r ∷ rows) = ground (arith, f) in
        subst (All (λ r. P r.id r.timestamp)) q (hs.0, upsert-All P n rows h hs.1)
  ]

  pub save-All :
      (P : ℕ → ℤ → Type 0) (ns rows : List (BalanceRow D))
      → All (λ r. P r.id r.timestamp) ns
      → All (λ r. P r.id r.timestamp) rows
      → All (λ r. P r.id r.timestamp) (save_balance_snapshots ns rows)
  unfolding save_balance_snapshots
  save-All P [] rows hn hr = hr
  save-All P (n ∷ ns) rows hn hr = save-All P ns (upsert n rows) hn.1 (upsert-All P n rows hn.0 hr)

  -- A row after a save is an old one with an id that is not written, or has the id and the balance of
  -- one that is written.
  pub In-save :
      (ns rows : List (BalanceRow D)) {r : BalanceRow D}
      → AreDistinct ns
      → AreDistinct rows
      → In r (save_balance_snapshots ns rows)
      → (In r rows × (contains_id ns r.id ≡ false))
        ⊎ ((n : BalanceRow D) × In n ns × (r.id ≡ n.id) × (r.balance ≡ n.balance))
  unfolding save_balance_snapshots
  In-save [] rows hs hr m = inl (m, refl)
  In-save (n ∷ ns) rows {r} hs hr m =
      elim (In-save ns (upsert n rows) (rest_distinct n ns hs) (upsert-AreDistinct n rows hr) m) [
        | inr (x, k, a, b) ↦ inr (x, tail k, a, b)
        | inl (k, c) ↦ elim (In-upsert n rows hr k) [
          | inl (a, b) ↦ inl (a, ground (arith, b, c))
          | inr (a, b) ↦ inr (n, head, a, b)
        ]
      ]

module _ {D : Type 0} (zero : D) (plus : D → D → D) where
  abbrev pub amount : BalanceRow D → D
  amount r = unwrap_or r.delta zero

  -- The sum of the deltas of the rows whose id passes a test.
  unfoldable pub total : (ℕ → Bool) → List (BalanceRow D) → D
  total p [] = zero
  total p (r ∷ rows) = if p r.id then plus (amount r) (total p rows) else total p rows

  module _ (zero_plus : (a : D) → plus zero a ≡ a) (plus_comm : (a b : D) → plus a b ≡ plus b a)
      (plus_assoc : (a b c : D) → plus (plus a b) c ≡ plus a (plus b c)) where
    pub total_congr :
        (p q : ℕ → Bool) (rows : List (BalanceRow D))
        → ((r : BalanceRow D) → In r rows → p r.id ≡ q r.id)
        → total p rows ≡ total q rows
    unfolding total
    total_congr p q [] h = refl
    total_congr p q (r ∷ rows) h =
        ground (arith, h r head, total_congr p q rows (λ s m. h s (tail m)))

    pub total_none :
        (p : ℕ → Bool) (rows : List (BalanceRow D))
        → ((r : BalanceRow D) → In r rows → p r.id ≡ false)
        → total p rows ≡ zero
    unfolding total
    total_none p [] h = refl
    total_none p (r ∷ rows) h = ground (arith, h r head, total_none p rows (λ s m. h s (tail m)))

    total-upsert :
        (p : ℕ → Bool) (n : BalanceRow D) (rows : List (BalanceRow D))
        → count (has_row_id n.id) rows ≤ 1
        → total p (upsert n rows)
          ≡ plus (total (λ i. p i && not (i == n.id)) rows) (if p n.id then amount n else zero)
    unfolding upsert total
    total-upsert p n [] h =
        ground (arith, zero_plus (amount n), zero_plus zero, plus_comm (amount n) zero)
    total-upsert p n (r ∷ rows) h =
        let kept = total (λ i. p i && not (i == n.id)) rows in
        elim (Bool-cases (r.id == n.id)) [
          | inl e ↦
              let same =
                total_congr p (λ i. p i && not (i == n.id)) rows
                  (λ s m. ground (arith, other_id n r rows m h e)) in
              let id : r.id ≡ n.id = ground arith in
              let q : p r.id ≡ p n.id = ap p id in
              ground
                (arith, same, q, e, plus_comm (amount n) kept, plus_comm kept zero, zero_plus kept)
          | inr f ↦ ground (
            arith,
            f,
            total-upsert p n rows (ground (arith, f)),
            plus_assoc (amount r) kept (if p n.id then amount n else zero),
          )
        ]

    pub total-save :
        (p : ℕ → Bool) (snapshots rows : List (BalanceRow D))
        → AreDistinct snapshots
        → AreDistinct rows
        → total p (save_balance_snapshots snapshots rows)
          ≡ plus (total (λ i. p i && not (contains_id snapshots i)) rows) (total p snapshots)
    unfolding save_balance_snapshots total
    total-save p [] rows hs hr =
        let same = total_congr p (λ i. p i && not false) rows (λ s m. ground arith) in
        same ∙ sym (zero_plus _) ∙ plus_comm zero _
    total-save p (n ∷ ns) rows hs hr =
        let q : ℕ → Bool = λ i. p i && not (contains_id ns i) in
        let absent = no_id n ns (hs n.id) in
        let same =
          total_congr (λ i. q i && not (i == n.id)) (λ i. p i && not (contains_id (n ∷ ns) i)) rows
            (λ s m. ground arith) in
        let kept = total (λ i. p i && not (contains_id (n ∷ ns) i)) rows in
        let ih =
          total-save p ns (upsert n rows) (rest_distinct n ns hs) (upsert-AreDistinct n rows hr) in
        let step = total-upsert q n rows (hr n.id) in
        ih
        ∙ ap (λ a. plus a (total p ns))
            (step ∙ ap (λ a. plus a (if q n.id then amount n else zero)) same)
        ∙ ground (
          arith,
          absent,
          plus_assoc kept (amount n) (total p ns),
          plus_comm kept zero,
          zero_plus kept,
        )

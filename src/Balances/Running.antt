-- ===== src/Balances/Running.antt =====
-- The running balances of events in a strict order.
use spectraplex.Base.{
  In-cons, ℕ, ◌≤◌, ℤ, Bool, true, false, not, ◌≡◌, refl, sym, ◌∙◌, ap, inl, inr, List, [], ◌∷◌,
  ◌==◌, if◌then◌else◌, any, count, In, arith, All, All-In, sort_by, insert_by, IsSorted,
}
use spectraplex.Balances.{BalanceRow, BalanceRecomputeEvent, precedes, recompute_precedes, running}
use spectraplex.Balances.Totals.{total, total_none, has_row_id}

-- The order of the ids, where each id has its time.
abbrev pub id_precedes : (ℕ → ℤ) → ℕ → ℕ → Bool
id_precedes time_of i j = precedes (time_of i) i (time_of j) j

abbrev pub up_to : (ℕ → ℤ) → ℕ → ℕ → Bool
up_to time_of i j = not (id_precedes time_of i j)

taken : {A : Type 0} (c : Bool) (x y : A) → c ≡ true → (if c then x else y) ≡ x
taken c x y h = rw h refl

count-insert_by :
    {A : Type 0} (lt : A → A → Bool) (p : A → Bool) (x : A) (ys : List A)
    → count p (insert_by lt x ys) ≡ count p (x ∷ ys)
unfolding insert_by
count-insert_by lt p x [] = refl
count-insert_by lt p x (y ∷ ys) = ground (arith, count-insert_by lt p x ys)

pub count-sort_by :
    {A : Type 0} (lt : A → A → Bool) (p : A → Bool) (xs : List A)
    → count p (sort_by lt xs) ≡ count p xs
unfolding sort_by
count-sort_by lt p [] = refl
count-sort_by lt p (x ∷ xs) =
    ground (arith, count-insert_by lt p x (sort_by lt xs), count-sort_by lt p xs)

abbrev pub IsKeyed : (ℕ → ℤ) → ℕ → ℤ → Type 0
IsKeyed time_of i t = t ≡ time_of i

abbrev pub has_event_id : {D : Type 0} → ℕ → BalanceRecomputeEvent D → Bool
has_event_id i e = e.id == i

module _ {D : Type 0} (time_of : ℕ → ℤ) where
  -- Each event comes strictly before those after it.
  abbrev pub IsChain : List (BalanceRecomputeEvent D) → Type 0
  IsChain [] = Unit
  IsChain (e ∷ es) = All (λ y. id_precedes time_of e.id y.id ≡ true) es × IsChain es

  after_head :
      (e : BalanceRecomputeEvent D) (es : List (BalanceRecomputeEvent D))
      → e.timestamp ≡ time_of e.id
      → All (λ y. y.timestamp ≡ time_of y.id) es
      → count (has_event_id e.id) es ≡ 0
      → All (λ y. recompute_precedes y e ≡ false) es
      → All (λ y. id_precedes time_of e.id y.id ≡ true) es
  after_head e [] k ks c s = tt
  after_head e (y ∷ ys) k ks c s =
      (ground (arith, k, ks.0, s.0, c), after_head e ys k ks.1 (ground arith) s.1)

  pub sorted-IsChain :
      (es : List (BalanceRecomputeEvent D))
      → All (λ e. IsKeyed time_of e.id e.timestamp) es
      → ((i : ℕ) → count (has_event_id i) es ≤ 1)
      → IsSorted recompute_precedes es
      → IsChain es
  sorted-IsChain [] ks c s = tt
  sorted-IsChain (e ∷ es) ks c s = (
    after_head e es ks.0 ks.1 (ground (arith, c e.id)) s.0,
    sorted-IsChain es ks.1 (λ i. ground (arith, c i)) s.1,
  )

module _ {D : Type 0} (zero : D) (plus : D → D → D) where
  pub count-running :
      (i : ℕ) (b : D) (es : List (BalanceRecomputeEvent D))
      → count (has_row_id i) (running zero plus b es) ≡ count (λ e. e.id == i) es
  unfolding running
  count-running i b [] = refl
  count-running i b (e ∷ es) = ground (arith, count-running i (plus b e.delta) es)

  pub any-running :
      (i : ℕ) (b : D) (es : List (BalanceRecomputeEvent D))
      → any (has_row_id i) (running zero plus b es) ≡ any (has_event_id i) es
  unfolding running
  any-running i b [] = refl
  any-running i b (e ∷ es) = ground (arith, any-running i (plus b e.delta) es)

  pub running-All :
      (P : ℕ → ℤ → Type 0) (b : D) (es : List (BalanceRecomputeEvent D))
      → All (λ e. P e.id e.timestamp) es
      → All (λ r. P r.id r.timestamp) (running zero plus b es)
  unfolding running
  running-All P b [] h = tt
  running-All P b (e ∷ es) h = (h.0, running-All P (plus b e.delta) es h.1)

  module _ (zero_plus : (a : D) → plus zero a ≡ a) (plus_comm : (a b : D) → plus a b ≡ plus b a)
      (plus_assoc : (a b c : D) → plus (plus a b) c ≡ plus a (plus b c)) (time_of : ℕ → ℤ) where
    -- A running balance is the balance before, and the total of the events up to it.
    pub running_lem :
        (b : D) (es : List (BalanceRecomputeEvent D)) {n : BalanceRow D}
        → IsChain time_of es
        → In n (running zero plus b es)
        → n.balance ≡ plus b (total zero plus (up_to time_of n.id) (running zero plus b es))
    unfolding running total
    running_lem b [] c m = elim m [ ]
    running_lem b (e ∷ es) {n} c m =
        let next = plus b e.delta in
        let rest = running zero plus next es in
        let later = running-All (λ i t. id_precedes time_of e.id i ≡ true) next es c.0 in
        elim (In-cons m) [
          | inl k ↦
              let i : n.id ≡ e.id = ap (λ r. r.id) k in
              let a : n.balance ≡ next = ap (λ r. r.balance) k in
              let none_later =
                total_none zero plus zero_plus plus_comm plus_assoc (up_to time_of e.id) rest
                  (λ r l.
                    ground (arith, All-In (λ s. id_precedes time_of e.id s.id ≡ true) later l)) in
              let self : up_to time_of e.id e.id ≡ true = ground arith in
              a
              ∙ sym (
                  ap (plus b) (
                    ap (λ j. total zero plus (up_to time_of j) (running zero plus b (e ∷ es))) i
                    ∙ taken _ _ _ self
                    ∙ ap (plus e.delta) none_later
                    ∙ plus_comm e.delta zero
                    ∙ zero_plus e.delta))
          | inr k ↦
              let ih = running_lem next es c.1 k in
              let above = All-In (λ s. id_precedes time_of e.id s.id ≡ true) later k in
              let low : up_to time_of n.id e.id ≡ true = ground (arith, above) in
              ih
              ∙ plus_assoc b e.delta (total zero plus (up_to time_of n.id) rest)
              ∙ ap (plus b) (sym (taken _ _ _ low))
        ]

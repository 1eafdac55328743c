-- ===== src/Base/Table.antt =====
-- A database table as a list of rows: `WHERE`, `UPDATE` and `rows_affected`.
use Prim.Native.Nat.{ℕ, suc, ◌+◌, ◌≤◌}
use mathlib.Core.Path.{◌≡◌, refl, sym, ◌∙◌, subst}
use mathlib.Core.Logic.{◌⊎◌, inl, inr}
use mathlib.Core.Option
use mathlib.Core.Bool.{Bool, true, false, ◌&&◌, ◌||◌}
use mathlib.Core.List.{List, [], ◌∷◌, ◌++◌, map}
use mathlib.Core.Option.{Option, none, some}
use native.Mathlib.Omega.{arith}
use spectraplex.Base.Tests.{if◌then◌else◌, or_else, Bool-cases}
use spectraplex.Base.Lists.{In, head, tail, All}

module _ {ℓ} {A : Type ℓ} where
  -- The rows that a condition selects, in table order.
  abbrev pub select : (A → Bool) → List A → List A
  select p [] = []
  select p (x ∷ xs) = if p x then x ∷ select p xs else select p xs

  abbrev pub count : (A → Bool) → List A → ℕ
  count p [] = 0
  count p (x ∷ xs) = if p x then suc (count p xs) else count p xs

  abbrev pub any : (A → Bool) → List A → Bool
  any p [] = false
  any p (x ∷ xs) = p x || any p xs

  abbrev pub all : (A → Bool) → List A → Bool
  all p [] = true
  all p (x ∷ xs) = p x && all p xs

  abbrev pub find? : (A → Bool) → List A → Option A
  find? p [] = none
  find? p (x ∷ xs) = if p x then some x else find? p xs

  -- `UPDATE … SET f WHERE p`.
  abbrev pub update : (A → Bool) → (A → A) → List A → List A
  update p f [] = []
  update p f (x ∷ xs) = (if p x then f x else x) ∷ update p f xs

  pub count-append : (p : A → Bool) (xs ys : List A) → count p (xs ++ ys) ≡ count p xs + count p ys
  count-append p [] ys = omega arith
  count-append p (x ∷ xs) ys = ground (arith, count-append p xs ys)

  -- An update that makes no row satisfy `q` anew does not raise the count.
  pub count-update_le :
      (q p : A → Bool) (f : A → A)
      → ((x : A) → p x ≡ true → q (f x) ≡ true → q x ≡ true)
      → (xs : List A) → count q (update p f xs) ≤ count q xs
  count-update_le q p f h [] = omega arith
  count-update_le q p f h (x ∷ xs) = ground (arith, h x, count-update_le q p f h xs)

  pub count-update_eq :
      (q p : A → Bool) (f : A → A)
      → ((x : A) → p x ≡ true → q (f x) ≡ q x)
      → (xs : List A) → count q (update p f xs) ≡ count q xs
  count-update_eq q p f h [] = refl
  count-update_eq q p f h (x ∷ xs) = ground (arith, h x, count-update_eq q p f h xs)

  -- An update that falsifies `q` on every row with `q` leaves none.
  pub count-update_zero :
      (q p : A → Bool) (f : A → A)
      → ((x : A) → q x ≡ true → p x ≡ true)
      → ((x : A) → p x ≡ true → q (f x) ≡ false)
      → (xs : List A) → count q (update p f xs) ≡ 0
  count-update_zero q p f h k [] = refl
  count-update_zero q p f h k (x ∷ xs) = ground (arith, h x, k x, count-update_zero q p f h k xs)

  pub any-In : (p : A → Bool) {x : A} {xs : List A} → In x xs → p x ≡ true → any p xs ≡ true
  any-In p (head {xs = ys}) h = ground arith
  any-In p (tail {x = y} {xs = ys} m) h = ground (arith, any-In p m h)

  In-if :
      (b : Bool) {r x : A} {ys : List A}
      → In r (if b then x ∷ ys else ys)
      → ((b ≡ true) × (r ≡ x)) ⊎ In r ys
  In-if true head = inl (refl, refl)
  In-if true (tail m) = inr m
  In-if false m = inr m

  pub In-select : (p : A → Bool) {r : A} {xs : List A} → In r xs → p r ≡ true → In r (select p xs)
  In-select p (head {xs = ys}) h = rw h head
  In-select p (tail {x = y} {xs = ys} m) h = elim (Bool-cases (p y)) [
    | inl e ↦ rw e (tail (In-select p m h))
    | inr e ↦ rw e (In-select p m h)
  ]

  pub any-append : (q : A → Bool) (xs ys : List A) → any q (xs ++ ys) ≡ (any q xs || any q ys)
  any-append q [] ys = refl
  any-append q (x ∷ xs) ys = ground (arith, any-append q xs ys)

  -- An update that makes no row satisfy `q` anew finds none where there was none.
  pub any-update-false :
      (q p : A → Bool) (f : A → A)
      → ((x : A) → p x ≡ true → q (f x) ≡ true → q x ≡ true)
      → (xs : List A) → any q xs ≡ false
      → any q (update p f xs) ≡ false
  any-update-false q p f h [] e = refl
  any-update-false q p f h (x ∷ xs) e = ground (arith, h x, any-update-false q p f h xs)

  -- An update that falsifies `q` wherever it holds leaves no such row.
  pub any-update_clear :
      (q p : A → Bool) (f : A → A)
      → ((x : A) → q x ≡ true → p x ≡ true)
      → ((x : A) → q (f x) ≡ false)
      → (xs : List A) → any q (update p f xs) ≡ false
  any-update_clear q p f h k [] = refl
  any-update_clear q p f h k (x ∷ xs) = ground (arith, h x, k x, any-update_clear q p f h k xs)

  pub update_none : (p : A → Bool) (f : A → A) (xs : List A) → any p xs ≡ false → update p f xs ≡ xs
  update_none p f [] h = refl
  update_none p f (x ∷ xs) h = ground (arith, update_none p f xs)

  pub any_const : (xs : List A) {q : A → Bool} → ((x : A) → q x ≡ false) → any q xs ≡ false
  any_const [] h = refl
  any_const (x ∷ xs) {q} h = ground (arith, h x, any_const xs {q = q} h)

  pub select-In : (p : A → Bool) {r : A} (xs : List A) → In r (select p xs) → In r xs × (p r ≡ true)
  select-In p [] m = elim m [ ]
  select-In p {r} (x ∷ xs) m = elim (In-if (p x) m) [
    | inl (t, e) ↦ (subst (λ y. In r (y ∷ xs)) e head, subst (λ y. p y ≡ true) (sym e) t)
    | inr k ↦ let (a, b) = select-In p xs k in (tail a, b)
  ]

  -- An update that keeps the tested part maps over a search.
  pub find?-update :
      (q p : A → Bool) (f : A → A)
      → ((x : A) → q (f x) ≡ q x)
      → (xs : List A)
      → find? q (update p f xs) ≡ Option.map (λ x. if p x then f x else x) (find? q xs)
  find?-update q p f h [] = refl
  find?-update q p f h (x ∷ xs) = ground (arith, h x, find?-update q p f h xs)

  -- An update that passes over the row that a search finds leaves the search its result.
  pub find?-update_keep :
      (q p : A → Bool) (f : A → A)
      → ((x : A) → q (f x) ≡ q x)
      → (xs : List A) {r : A} → find? q xs ≡ some r
      → p r ≡ false
      → find? q (update p f xs) ≡ some r
  find?-update_keep q p f h xs e n = find?-update q p f h xs ∙ rw e (rw n)

  pub find?_sound : (q : A → Bool) (xs : List A) {r : A} → find? q xs ≡ some r → q r ≡ true
  find?_sound q [] h = cc
  find?_sound q (x ∷ xs) {r} h = elim (Bool-cases (q x)) [
    | inl e ↦ let same : x ≡ r = ground (arith, e) in subst (λ y. q y ≡ true) same e
    | inr e ↦ find?_sound q xs (ground (arith, e))
  ]

  pub find?-append :
      (q : A → Bool) (xs ys : List A) → find? q (xs ++ ys) ≡ or_else (find? q xs) (find? q ys)
  find?-append q [] ys = refl
  find?-append q (x ∷ xs) ys = ground (arith, find?-append q xs ys)

  pub count_of_any : (q : A → Bool) (xs : List A) → any q xs ≡ false → count q xs ≡ 0
  count_of_any q [] h = refl
  count_of_any q (x ∷ xs) h = ground (arith, count_of_any q xs)

  pub count-In : (q : A → Bool) {r : A} {xs : List A} → In r xs → q r ≡ true → 1 ≤ count q xs
  count-In q (head {xs = ys}) h = ground arith
  count-In q (tail {x = y} {xs = ys} m) h = ground (arith, count-In q m h)

  -- A row that is the only one with `q` is the one that a search finds.
  pub find?_unique :
      (q : A → Bool) {r : A} {xs : List A}
      → In r xs
      → q r ≡ true
      → count q xs ≤ 1
      → find? q xs ≡ some r
  find?_unique q (head {xs = ys}) h c = ground arith
  find?_unique q (tail {x = y} {xs = ys} m) h c = ground (arith, count-In q m h, find?_unique q m h)

  -- Two rows with `q` are the same row, where only one has `q`.
  pub In-unique :
      (q : A → Bool) {r s : A} {xs : List A}
      → count q xs ≤ 1
      → In r xs
      → q r ≡ true
      → In s xs
      → q s ≡ true
      → r ≡ s
  In-unique q c m h n k = ground (arith, find?_unique q m h c, find?_unique q n k c)

  pub any-elim : (p : A → Bool) (xs : List A) → any p xs ≡ true → (x : A) × In x xs × (p x ≡ true)
  any-elim p [] h = cc
  any-elim p (x ∷ xs) h = elim (Bool-cases (p x)) [
    | inl e ↦ (x, head, e)
    | inr e ↦ let (y, m, q) = any-elim p xs (ground (arith, e)) in (y, tail m, q)
  ]

  -- A predicate of the rows that an update keeps on the rows it writes.
  pub All-update {κ} :
      (P : A → Type κ) (p : A → Bool) (f : A → A) (xs : List A)
      → ((x : A) → In x xs → p x ≡ true → P x → P (f x))
      → All P xs
      → All P (update p f xs)
  All-update P p f [] h a = tt
  All-update P p f (x ∷ xs) h (a, rest) = elim (Bool-cases (p x)) [
    | inl e ↦ rw e (h x head e a, All-update P p f xs (λ y m. h y (tail m)) rest)
    | inr e ↦ rw e (a, All-update P p f xs (λ y m. h y (tail m)) rest)
  ]

  count_zero : (q : A → Bool) (xs : List A) → count q xs ≡ 0 → any q xs ≡ false
  count_zero q [] h = refl
  count_zero q (x ∷ xs) h = ground (arith, count_zero q xs)

  any_mono :
      (r q : A → Bool)
      → ((x : A) → r x ≡ true → q x ≡ true)
      → (xs : List A) → any q xs ≡ false
      → any r xs ≡ false
  any_mono r q h [] e = refl
  any_mono r q h (x ∷ xs) e = ground (arith, h x, any_mono r q h xs)

  any_and : (q p : A → Bool) (xs : List A) → any q xs ≡ false → any (λ x. q x && p x) xs ≡ false
  any_and q p [] h = refl
  any_and q p (x ∷ xs) h = ground (arith, any_and q p xs)

  -- Where one row has `q`, and that row has no `p`, no row has both.
  pub any_unique_false :
      (q p : A → Bool) {r : A} {xs : List A}
      → count q xs ≤ 1
      → In r xs
      → q r ≡ true
      → p r ≡ false
      → any (λ x. q x && p x) xs ≡ false
  any_unique_false q p c (head {xs = ys}) h k = ground (arith, count_zero q ys, any_and q p ys)
  any_unique_false q p c (tail {x = y} {xs = ys} m) h k =
      let c' : count q ys ≤ 1 = ground arith in
      ground (arith, count-In q m h, any_unique_false q p {xs = ys} c' m h k)

  -- An update that reaches the one row with `q`, and takes `r` from it, leaves no row with `r`, if
  -- `r` implies `q`.
  pub any-update_unique :
      (q p r : A → Bool) (f : A → A)
      → ((x : A) → q x ≡ true → r (f x) ≡ false)
      → ((x : A) → r x ≡ true → q x ≡ true)
      → (xs : List A) → count q xs ≤ 1
      → any (λ x. q x && p x) xs ≡ true
      → any r (update (λ x. q x && p x) f xs) ≡ false
  any-update_unique q p r f hf hr [] c h = refl
  any-update_unique q p r f hf hr (x ∷ xs) c h = ground (
    arith,
    hf x,
    hr x,
    count_zero q xs,
    any_and q p xs,
    any_mono r q hr xs,
    update_none (λ x. q x && p x) f xs,
    any-update_unique q p r f hf hr xs,
  )

pub count-map {ℓ κ} :
    {A : Type ℓ} {B : Type κ} (p : B → Bool) (f : A → B) (xs : List A)
    → count p (map f xs) ≡ count (λ x. p (f x)) xs
count-map p f [] = refl
count-map p f (x ∷ xs) = ground (arith, count-map p f xs)

module _ {ℓ} {A : Type ℓ} where
  pub count-select_le : (p q : A → Bool) (xs : List A) → count p (select q xs) ≤ count p xs
  count-select_le p q [] = omega arith
  count-select_le p q (x ∷ xs) = ground (arith, count-select_le p q xs)

  pub count-select_none :
      (p q : A → Bool) (xs : List A)
      → ((x : A) → p x ≡ true → q x ≡ false)
      → count p (select q xs) ≡ 0
  count-select_none p q [] h = refl
  count-select_none p q (x ∷ xs) h = ground (arith, h x, count-select_none p q xs h)

-- `UPDATE … WHERE p` and whether it touched a row.
abbrev pub update_where {ℓ} : {A : Type ℓ} → (A → Bool) → (A → A) → List A → Bool × List A
update_where p f rows = (any p rows, update p f rows)

pub update_where_none {ℓ} :
    {A : Type ℓ} (p : A → Bool) (f : A → A) (rows : List A)
    → any p rows ≡ false
    → update_where p f rows ≡ (false, rows)
update_where_none p f rows h = rw (h, update_none p f rows h)

-- ===== src/Windows/Order.antt =====
-- Selections of sorted lists: what selecting keeps, and the last element of a sorted list.
use mathlib.Core.List.{Perm}
use mathlib.Core.List
use mathlib.Core.List.Perm
use spectraplex.Base.{
  All-of_In, Bool, true, false, ◌&&◌, ◌≡◌, refl, ap, subst, none, some, List, [], ◌∷◌, ◌++◌, arith,
  inl, inr, Bool-cases, if◌then◌else◌, select, All-In, In, head, tail, last?, IsSorted, select-In,
}

module _ {ℓ} {A : Type ℓ} where
  pub select_congr :
      (p q : A → Bool) (xs : List A) → ((x : A) → In x xs → p x ≡ q x) → select p xs ≡ select q xs
  select_congr p q [] h = refl
  select_congr p q (x ∷ xs) h = ground (arith, h x head, select_congr p q xs (λ y m. h y (tail m)))

  pub select-select :
      (p q : A → Bool) (xs : List A) → select q (select p xs) ≡ select (λ x. p x && q x) xs
  select-select p q [] = refl
  select-select p q (x ∷ xs) = ground (arith, select-select p q xs)

  pub select-append :
      (p : A → Bool) (xs ys : List A) → select p (xs ++ ys) ≡ select p xs ++ select p ys
  select-append p [] ys = refl
  select-append p (x ∷ xs) ys = ground (arith, select-append p xs ys)

  pub select_all : (xs : List A) → select (λ x. true) xs ≡ xs
  select_all [] = refl
  select_all (x ∷ xs) = ap (λ ys. x ∷ ys) (select_all xs)

  pub select_none :
      (p : A → Bool) (xs : List A) → ((x : A) → In x xs → p x ≡ false) → select p xs ≡ []
  select_none p [] h = refl
  select_none p (x ∷ xs) h = ground (arith, h x head, select_none p xs (λ y m. h y (tail m)))

  -- `select` is the library's `filter_map`, for which a permutation is kept.
  select-filter_map :
      (p : A → Bool) (xs : List A)
      → List.filter_map (λ x. if p x then some x else none) xs ≡ select p xs
  unfolding List.filter_map
  select-filter_map p [] = refl
  select-filter_map p (x ∷ xs) = ground (arith, select-filter_map p xs)

  pub Perm-select : (p : A → Bool) {xs ys : List A} → Perm xs ys → Perm (select p xs) (select p ys)
  Perm-select p {xs} {ys} h =
      subst (λ l. Perm l (select p ys)) (select-filter_map p xs)
        (subst (λ l. Perm (List.filter_map (λ x. if p x then some x else none) xs) l)
          (select-filter_map p ys) (Perm.filter_map (λ x. if p x then some x else none) h))

  pub last?-In : (xs : List A) {w : A} → last? xs ≡ some w → In w xs
  last?-In [] h = cc
  last?-In (x ∷ []) {w} h = let q : x ≡ w = ground arith in subst (λ y. In y (x ∷ [])) q head
  last?-In (x ∷ y ∷ xs) h = tail (last?-In (y ∷ xs) h)

  module _ (lt : A → A → Bool) where
    pub select-IsSorted : (p : A → Bool) (xs : List A) → IsSorted lt xs → IsSorted lt (select p xs)
    select-IsSorted p [] s = tt
    select-IsSorted p (x ∷ xs) s = elim (Bool-cases (p x)) [
      | inl e ↦ rw e (
        All-of_In _ (select p xs) (λ y m. All-In _ s.0 (select-In p xs m).0),
        select-IsSorted p xs s.1,
      )
      | inr e ↦ rw e (select-IsSorted p xs s.1)
    ]

    -- The last element of a sorted list is a greatest one.
    pub last?-greatest :
        ((a : A) → lt a a ≡ false)
        → (xs : List A) {r w : A} → IsSorted lt xs
        → last? xs ≡ some w
        → In r xs
        → lt w r ≡ false
    last?-greatest irr [] s e m = elim m [ ]
    last?-greatest irr (x ∷ []) {w = w} s e head =
        let q : x ≡ w = ground arith in subst (λ y. lt y x ≡ false) q (irr x)
    last?-greatest irr (x ∷ []) s e (tail m) = elim m [ ]
    last?-greatest irr (x ∷ y ∷ xs) s e head = All-In _ s.0 (last?-In (y ∷ xs) e)
    last?-greatest irr (x ∷ y ∷ xs) s e (tail m) = last?-greatest irr (y ∷ xs) s.1 e m

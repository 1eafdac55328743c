-- ===== src/Base/Sort.antt =====
-- `sort_by_key` and `ORDER BY`: a stable insertion sort, where `lt a b` says that the key of `a` is
-- below the key of `b`.
use mathlib.Core.Path.{◌≡◌, refl, subst, sym}
use mathlib.Core.Logic.{◌⊎◌, inl, inr}
use mathlib.Core.Bool.{Bool, true, false}
use mathlib.Core.List.{List, [], ◌∷◌, Perm}
use mathlib.Core.List.Perm
use spectraplex.Base.Tests.{if◌then◌else◌, Bool-cases}
use spectraplex.Base.Lists.{All, In, head, tail}

module _ {ℓ} {A : Type ℓ} (lt : A → A → Bool) where
  unfoldable pub insert_by : A → List A → List A
  insert_by x [] = x ∷ []
  insert_by x (y ∷ ys) = if lt y x then y ∷ insert_by x ys else x ∷ y ∷ ys

  unfoldable pub sort_by : List A → List A
  unfolding insert_by
  sort_by [] = []
  sort_by (x ∷ xs) = insert_by x (sort_by xs)

  -- No element is above a later one.
  abbrev pub IsSorted : List A → Type 0
  IsSorted [] = Unit
  IsSorted (x ∷ xs) = All (λ y. lt y x ≡ false) xs × IsSorted xs

  insert_by-perm : (x : A) (ys : List A) → Perm (insert_by x ys) (x ∷ ys)
  unfolding insert_by
  insert_by-perm x [] = Perm.refl _
  insert_by-perm x (y ∷ ys) = elim (Bool-cases (lt y x)) [
    | inl e ↦ rw e (Perm.trans (Perm.cons y (insert_by-perm x ys)) (Perm.swap x y ys))
    | inr e ↦ rw e (Perm.refl _)
  ]

  pub sort_by-perm : (xs : List A) → Perm (sort_by xs) xs
  unfolding sort_by
  sort_by-perm [] = Perm.refl []
  sort_by-perm (x ∷ xs) = Perm.trans (insert_by-perm x (sort_by xs)) (Perm.cons x (sort_by-perm xs))

  In-branch :
      (b : Bool) {r x y : A} {zs ys : List A}
      → In r (if b then y ∷ zs else x ∷ y ∷ ys)
      → (r ≡ y) ⊎ In r zs ⊎ (r ≡ x) ⊎ In r ys
  In-branch true head = inl refl
  In-branch true (tail m) = inr (inl m)
  In-branch false head = inr (inr (inl refl))
  In-branch false (tail head) = inl refl
  In-branch false (tail (tail m)) = inr (inr (inr m))

  at_head : {r x : A} {xs : List A} → r ≡ x → In r (x ∷ xs)
  at_head {x = x} {xs} e = subst (λ y. In y (x ∷ xs)) (sym e) head

  In-weaken : {r x : A} {ys zs : List A} → (In r ys → In r zs) → In r (x ∷ ys) → In r (x ∷ zs)
  In-weaken f head = head
  In-weaken f (tail m) = tail (f m)

  In-past :
      {r x y : A} {ys zs : List A} → (In r (x ∷ ys) → In r zs) → In r (x ∷ y ∷ ys) → In r (y ∷ zs)
  In-past f head = tail (f head)
  In-past f (tail head) = head
  In-past f (tail (tail m)) = tail (f (tail m))

  pub In-insert_by : {r x : A} (ys : List A) → In r (insert_by x ys) → In r (x ∷ ys)
  unfolding insert_by
  In-insert_by [] m = m
  In-insert_by {r} {x} (y ∷ ys) m = elim (In-branch (lt y x) m) [
    | inl e ↦ tail (at_head e)
    | inr (inl k) ↦ In-weaken tail (In-insert_by ys k)
    | inr (inr (inl e)) ↦ at_head e
    | inr (inr (inr k)) ↦ tail (tail k)
  ]

  pub In-sort_by : {r : A} (xs : List A) → In r (sort_by xs) → In r xs
  unfolding sort_by
  In-sort_by [] m = m
  In-sort_by (x ∷ xs) m = In-weaken (In-sort_by xs) (In-insert_by (sort_by xs) m)

  insert_by-In : {r x : A} (ys : List A) → In r (x ∷ ys) → In r (insert_by x ys)
  unfolding insert_by
  insert_by-In [] m = m
  insert_by-In {x = x} (y ∷ ys) m = elim (Bool-cases (lt y x)) [
    | inl e ↦ rw e (In-past (insert_by-In ys) m)
    | inr e ↦ rw e m
  ]

  pub sort_by-In : {r : A} (xs : List A) → In r xs → In r (sort_by xs)
  unfolding sort_by
  sort_by-In [] m = m
  sort_by-In (x ∷ xs) m = insert_by-In (sort_by xs) (In-weaken (sort_by-In xs) m)

  All-insert_by : (P : A → Type 0) (x : A) (ys : List A) → P x → All P ys → All P (insert_by x ys)
  unfolding insert_by
  All-insert_by P x [] h hs = (h, tt)
  All-insert_by P x (y ∷ ys) h hs = elim (Bool-cases (lt y x)) [
    | inl e ↦ rw e (hs.0, All-insert_by P x ys h hs.1)
    | inr e ↦ rw e (h, hs)
  ]

  -- A total preorder: `lt` is the strict part of one.
  module _ (asym : (a b : A) → lt a b ≡ true → lt b a ≡ false)
      (trans : (a b c : A) → lt b a ≡ false → lt c b ≡ false → lt c a ≡ false) where
    below-All :
        (x y : A) (ys : List A)
        → lt y x ≡ false
        → All (λ z. lt z y ≡ false) ys
        → All (λ z. lt z x ≡ false) ys
    below-All x y [] h hs = tt
    below-All x y (z ∷ ys) h hs = (trans x y z h hs.0, below-All x y ys h hs.1)

    insert_by-IsSorted : (x : A) (ys : List A) → IsSorted ys → IsSorted (insert_by x ys)
    unfolding insert_by
    insert_by-IsSorted x [] s = (tt, tt)
    insert_by-IsSorted x (y ∷ ys) s = elim (Bool-cases (lt y x)) [
      | inl e ↦
          rw e
            (All-insert_by (λ z. lt z y ≡ false) x ys (asym y x e) s.0, insert_by-IsSorted x ys s.1)
      | inr e ↦ rw e ((e, below-All x y ys e s.0), s)
    ]

    pub sort_by-IsSorted : (xs : List A) → IsSorted (sort_by xs)
    unfolding sort_by
    sort_by-IsSorted [] = tt
    sort_by-IsSorted (x ∷ xs) = insert_by-IsSorted x (sort_by xs) (sort_by-IsSorted xs)

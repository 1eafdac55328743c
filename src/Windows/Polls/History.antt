-- ===== src/Windows/Polls/History.antt =====
-- A window of a provider's page against the provider's whole history.
use mathlib.Core.List.{Perm}
use mathlib.Core.List.Perm
use spectraplex.Base.{
  ℕ, zero, suc, ℤ, pos, negsuc, ltb_ℤ, leb_ℤ, Bool, true, false, ◌&&◌, ◌||◌, ◌≡◌, refl, ◌∙◌, ap,
  subst, inl, inr, Option, some, List, [], ◌∷◌, ◌++◌, arith, leb, select, last?, take, In-take,
  In-sort_by, length, IsSorted, In, head, tail, select-In, Bool-cases, All-In, i64_max, ok,
}
use spectraplex.Windows.{time, earlier, since, bounded_time_window, resume_after_ms}
use spectraplex.Windows.Order.{select_congr, select-select, select_none, last?-In, select-IsSorted}
use spectraplex.Windows.Window.{window-IsPrefix, IsPrefix-Perm, sorted}

module _ {A : Type 0} where
  In-nil : {a : A} → In a [] → ⊥
  In-nil m = elim m [ ]

  pub cons_nil : {x : A} {xs : List A} → x ∷ xs ≡ [] → ⊥
  cons_nil h = cc

  perm_middle : (a : A) (xs ys : List A) → Perm (xs ++ a ∷ ys) (a ∷ xs ++ ys)
  perm_middle a [] ys = Perm.refl _
  perm_middle a (x ∷ xs) ys =
      Perm.trans (Perm.cons x (perm_middle a xs ys)) (Perm.swap a x (xs ++ ys))

  -- Disjoint selections, one after the other, are the selection by either.
  pub Perm-select_or :
      (p q : A → Bool) (xs : List A)
      → ((x : A) → In x xs → p x ≡ true → q x ≡ false)
      → Perm (select p xs ++ select q xs) (select (λ x. p x || q x) xs)
  Perm-select_or p q [] h = Perm.refl []
  Perm-select_or p q (x ∷ xs) h =
      let ih = Perm-select_or p q xs (λ y m. h y (tail m)) in
      elim (Bool-cases (p x)) [
        | inl t ↦ rw (t, h x head t) (Perm.cons x ih)
        | inr f ↦ elim (Bool-cases (q x)) [
          | inl u ↦
              rw (f, u) (Perm.trans (perm_middle x (select p xs) (select q xs)) (Perm.cons x ih))
          | inr u ↦ rw (f, u) ih
        ]
      ]

  take_short : (n : ℕ) (xs : List A) → leb n (length (take n xs)) ≡ false → take n xs ≡ xs
  take_short zero xs h = ground arith
  take_short (suc n) [] h = refl
  take_short (suc n) (x ∷ xs) h = ap (λ ys. x ∷ ys) (take_short n xs (ground arith))

  -- A full page of a sorted list misses only elements that are not before any of the page.
  select-take :
      (lt : A → A → Bool) (p : A → Bool) (n : ℕ) (xs : List A) {l : A}
      → IsSorted lt xs
      → In l (take n xs)
      → ((x : A) → lt x l ≡ false → p x ≡ false)
      → select p (take n xs) ≡ select p xs
  select-take lt p zero xs s m h = elim m [ ]
  select-take lt p (suc n) [] s m h = refl
  select-take lt p (suc n) (x ∷ xs) s head h =
      rw (none_of (take n xs) (λ y m. In-take n xs m), none_of xs (λ y m. m)) refl
    where
      none_of : (ys : List A) → ((y : A) → In y ys → In y xs) → select p ys ≡ []
      none_of ys sub = select_none p ys (λ y m. h y (All-In _ s.0 (sub y m)))
  select-take lt p (suc n) (x ∷ xs) s (tail m) h =
      let ih = select-take lt p n xs s.1 m h in ground (arith, ih)

pub resume_lem :
    (t x : ℤ)
    → leb_ℤ (pos 0) t ≡ true
    → ltb_ℤ t (pos i64_max) ≡ true
    → ltb_ℤ x (resume_after_ms t) ≡ leb_ℤ x t
resume_lem (pos n) (pos m) h k = ground arith
resume_lem (pos n) (negsuc m) h k = ground arith
resume_lem (negsuc n) x h k = ground arith

module _ {V : Type 0} (time_of : V → Option ℤ) where
  unfoldable pub between : ℤ → V → V → Bool
  between start w v = since time_of start v && leb_ℤ (time time_of v) (time time_of w)

  -- A window of such a page is the part of the history up to its last event.
  pub window-history :
      (history : List V)
      → IsSorted (earlier time_of) history
      → (start : ℤ) (limit page_cap : ℕ) {ws : List V} {w : V}
      → bounded_time_window time_of
          (take page_cap (select (since time_of start) history))
          start
          limit
          page_cap
        ≡ ok ws
      → last? ws ≡ some w
      → In w history × (since time_of start w ≡ true) × Perm ws (select (between start w) history)
  unfolding between sorted
  window-history history hs start limit page_cap {ws} {w} h e =
      let later = select (since time_of start) history in
      let page = take page_cap later in
      let (pre, bound) = window-IsPrefix time_of page start limit page_cap h in
      let in_page = IsPrefix-Perm time_of page start pre e in
      let whole : select (between start w) later ≡ select (between start w) history =
        select-select (since time_of start) (between start w) history
        ∙ select_congr _ (between start w) history (λ x m. ground arith) in
      let kept : select (between start w) page ≡ select (between start w) later = elim bound [
        | inl n ↦ absurd (In-nil (subst (In w) (pre.2 ∙ ap (select pre.0) n) (last?-In ws e)))
        | inr (inl f) ↦ ap (select (between start w)) (take_short page_cap later f)
        | inr (inr (l, m, b)) ↦
            select-take (earlier time_of) (between start w) page_cap later
              (select-IsSorted (earlier time_of) _ history hs)
              (select-In (since time_of start) page (In-sort_by (earlier time_of) _ m)).0
              (λ x k. let g = b w (last?-In ws e) in ground arith)
      ] in
      let (m, _) = select-In pre.0 _ (subst (In w) pre.2 (last?-In ws e)) in
      let (n, from_start) =
        select-In (since time_of start) page (In-sort_by (earlier time_of) _ m) in
      (
        (select-In (since time_of start) history (In-take page_cap later n)).0,
        from_start,
        subst (Perm ws) (kept ∙ whole) in_page,
      )

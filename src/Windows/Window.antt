-- ===== src/Windows/Window.antt =====
-- What a window holds: bounded_time_window of adapters/src/hyperliquid.rs against a selection by
-- time.
use mathlib.Core.List.{Perm}
use mathlib.Core.List.Perm
use spectraplex.Base.{
  ℕ, zero, suc, ℤ, leb_ℤ, Bool, true, false, ◌&&◌, ◌≡◌, refl, sym, ◌∙◌, ap, subst, ◌⊎◌, inl, inr,
  Option, none, some, List, [], ◌∷◌, arith, ltb, leb, is_empty, select, last?, get_elem?, length,
  sort_by, sort_by-perm, sort_by-IsSorted, IsSorted, In, head, tail, In-select, select-In,
  Bool-cases, Option-cases, ok, Result-cases,
}
use spectraplex.Windows.{
  time, earlier, since, defer_last, boundary_at, cut_to_limit, bounded_time_window,
}
use spectraplex.Windows.Order.{
  select_congr, select-select, select_all, Perm-select, select-IsSorted, last?-In, last?-greatest,
}

module _ {V : Type 0} (time_of : V → Option ℤ) where
  abbrev pub IsClosed : (V → Bool) → Type 0
  IsClosed p = (a b : V) → p b ≡ true → leb_ℤ (time time_of a) (time time_of b) ≡ true → p a ≡ true

  -- The events of a list up to some time, which are none only if the list is empty.
  abbrev pub IsPrefix : List V → List V → Type 0
  IsPrefix s ws = (p : V → Bool) × IsClosed p × (ws ≡ select p s) × (ws ≡ [] → s ≡ [])

  prefix_self : (s : List V) → IsPrefix s s
  prefix_self s = (λ v. true, λ a b h k. refl, sym (select_all s), λ e. e)

  prefix_trans : {s t ws : List V} → IsPrefix s t → IsPrefix t ws → IsPrefix s ws
  prefix_trans {s} {t} {ws} (p, cp, ep, np) (q, cq, eq, nq) = (
    λ v. p v && q v,
    λ a b h k. ground (arith, cp a b, cq a b),
    eq ∙ (ap (select q) ep ∙ select-select p q s),
    λ e. np (nq e),
  )

  not_empty : {xs : List V} → is_empty xs ≡ false → xs ≡ [] → ⊥
  not_empty {xs} h e = cc

  no_member : {v : V} {xs : List V} → In v xs → xs ≡ [] → ⊥
  no_member head e = cc
  no_member (tail m) e = cc

  pub last?-none : (s : List V) → last? s ≡ none → s ≡ []
  last?-none [] h = refl
  last?-none (x ∷ []) h = cc
  last?-none (x ∷ y ∷ s) h = let e = last?-none (y ∷ s) h in cc

  defer_last-IsPrefix :
      (s : List V) {ws : List V}
      → defer_last time_of s ≡ ok ws
      → IsPrefix s ws
        × ((s ≡ []) ⊎ ((l : V) × In l s × ((v : V) → In v ws → earlier time_of v l ≡ true)))
  unfolding defer_last
  defer_last-IsPrefix s {ws} h = elim (Option-cases (last? s)) [
    | inl e ↦
        let q : s ≡ ws = ground (arith, e) in
        (subst (IsPrefix s) q (prefix_self s), inl (last?-none s e))
    | inr (l, e) ↦
        let rest = select (λ v. earlier time_of v l) s in
        elim (Bool-cases (is_empty rest)) [
          | inl t ↦ absurd (ground (arith, e, t))
          | inr f ↦
              let q : rest ≡ ws = ground (arith, e, f) in
              (
                (
                  λ v. earlier time_of v l,
                  λ a b h k. ground arith,
                  sym q,
                  λ e. absurd (not_empty f (q ∙ e)),
                ),
                inr (l, last?-In s e, λ v m. (select-In _ s (subst (λ r. In v r) (sym q) m)).1),
              )
        ]
  ]

  get_elem?-In : (s : List V) (n : ℕ) {b : V} → get_elem? s n ≡ some b → In b s
  get_elem?-In [] n e = cc
  get_elem?-In (x ∷ s) zero {b} e = let q : x ≡ b = ground arith in subst (λ y. In y (x ∷ s)) q head
  get_elem?-In (x ∷ s) (suc n) e = tail (get_elem?-In s n e)

  boundary_at-In : (s : List V) (n : ℕ) {b : V} → boundary_at time_of s n ≡ ok b → In b s
  boundary_at-In s zero e = cc
  boundary_at-In s (suc n) {b} e = elim (Option-cases (get_elem? s n)) [
    | inl k ↦ absurd (ground (arith, k))
    | inr (c, k) ↦ let q : c ≡ b = ground (arith, k) in get_elem?-In s n (k ∙ ap some q)
  ]

  cut_to_limit-IsPrefix :
      (limit : ℕ) (s : List V) {ws : List V} → cut_to_limit time_of limit s ≡ ok ws → IsPrefix s ws
  unfolding cut_to_limit
  cut_to_limit-IsPrefix limit s {ws} h = elim (Bool-cases (ltb limit (length s))) [
    | inl t ↦ elim (Result-cases (boundary_at time_of s limit)) [
      | inl (e, k) ↦ absurd (ground (arith, k, t))
      | inr (b, k) ↦
          let q : select (λ v. leb_ℤ (time time_of v) (time time_of b)) s ≡ ws =
            ground (arith, k, t) in
          (
            λ v. leb_ℤ (time time_of v) (time time_of b),
            λ a c h k. ground arith,
            sym q,
            λ e. absurd (no_member (In-select _ (boundary_at-In s limit k) (ground arith)) (q ∙ e)),
          )
    ]
    | inr f ↦ let q : s ≡ ws = ground (arith, f) in subst (IsPrefix s) q (prefix_self s)
  ]

  module _ (values : List V) (start : ℤ) where
    unfoldable pub sorted : List V
    sorted = sort_by (earlier time_of) (select (since time_of start) values)

    sorted-IsSorted : IsSorted (earlier time_of) sorted
    unfolding sorted
    sorted-IsSorted =
        sort_by-IsSorted (earlier time_of) (λ a b h. ground arith) (λ a b c h k. ground arith)
          (select (since time_of start) values)

    -- A window is a prefix of the sorted page; where the page is full, it lies before one of its events.
    pub window-IsPrefix :
        (limit page_cap : ℕ) {ws : List V}
        → bounded_time_window time_of values start limit page_cap ≡ ok ws
        → IsPrefix sorted ws
          × ((sorted ≡ [])
              ⊎ (leb page_cap (length values) ≡ false)
              ⊎ ((l : V) × In l sorted × ((v : V) → In v ws → earlier time_of v l ≡ true)))
    unfolding bounded_time_window sorted
    window-IsPrefix limit page_cap {ws} h = elim (Bool-cases (leb page_cap (length values))) [
      | inr f ↦
          let e : cut_to_limit time_of limit sorted ≡ ok ws = ground (arith, f) in
          (cut_to_limit-IsPrefix limit sorted e, inr (inl f))
      | inl t ↦ elim (Result-cases (defer_last time_of sorted)) [
        | inl (e, k) ↦ absurd (ground (arith, k, t))
        | inr (rest, k) ↦
            let e : cut_to_limit time_of limit rest ≡ ok ws = ground (arith, k, t) in
            let (before, bound) = defer_last-IsPrefix sorted k in
            let (q, cq, eq, nq) = cut_to_limit-IsPrefix limit rest e in
            (
              prefix_trans before (q, cq, eq, nq),
              elim bound [
                | inl n ↦ inl n
                | inr (l, m, b) ↦
                    inr (inr (l, m, λ v n. b v (select-In q rest (subst (λ r. In v r) eq n)).0))
              ],
            )
      ]
    ]

    -- The last event of a window says which events it holds.
    pub IsPrefix-Perm :
        {ws : List V} {w : V}
        → IsPrefix sorted ws
        → last? ws ≡ some w
        → Perm ws
            (select (λ v. since time_of start v && leb_ℤ (time time_of v) (time time_of w)) values)
    unfolding sorted
    IsPrefix-Perm {ws} {w} (p, cp, ep, np) e =
        let upto : V → Bool = λ v. leb_ℤ (time time_of v) (time time_of w) in
        let same : select p sorted ≡ select upto sorted = select_congr p upto sorted (λ x m.
          elim (Bool-cases (p x)) [
            | inl t ↦ let g = greatest x m t in ground arith
            | inr f ↦ let g = cp x w last_kept in ground arith
          ]) in
        subst (λ l. Perm l (select (λ v. since time_of start v && upto v) values)) (sym (ep ∙ same))
          (subst (λ l. Perm (select upto sorted) l)
            (select-select (since time_of start) upto values)
            (Perm-select upto (sort_by-perm (earlier time_of) _)))
      where
        last_kept : p w ≡ true
        last_kept = (select-In p sorted (subst (λ r. In w r) ep (last?-In ws e))).1

        greatest : (x : V) → In x sorted → p x ≡ true → earlier time_of w x ≡ false
        greatest x m t =
            last?-greatest (earlier time_of) (λ a. ground arith) ws
              (subst (IsSorted (earlier time_of)) (sym ep)
                (select-IsSorted (earlier time_of) p sorted sorted-IsSorted))
              e (subst (λ r. In x r) (sym ep) (In-select p m t))

  -- A window that bounded_time_window returns is sorted by time, and it holds, each as often as it
  -- occurs, exactly the events of the page from `start` to the time of the window's last event. It
  -- is empty only if no event of the page lies at `start` or later.
  pub window-exact :
      (values : List V) (start : ℤ) (limit page_cap : ℕ) {ws : List V}
      → bounded_time_window time_of values start limit page_cap ≡ ok ws
      → IsSorted (earlier time_of) ws
        × (((ws ≡ []) × (select (since time_of start) values ≡ []))
            ⊎ ((w : V) × (last? ws ≡ some w)
                × Perm ws (
                    select
                      (λ v. since time_of start v && leb_ℤ (time time_of v) (time time_of w))
                      values)))
  unfolding sorted
  window-exact values start limit page_cap {ws} h =
      let ((p, cp, ep, np), bound) = window-IsPrefix values start limit page_cap h in
      (
        subst (IsSorted (earlier time_of)) (sym ep) (
            select-IsSorted (earlier time_of) p (sorted values start)
              (sorted-IsSorted values start)),
        elim (Option-cases (last? ws)) [
          | inl e ↦
              let n = last?-none ws e in
              inl (
                n,
                sym (
                    Perm.nil-eq (
                      subst (λ l. Perm l (select (since time_of start) values)) (np n)
                        (sort_by-perm (earlier time_of) _))),
              )
          | inr (w, e) ↦ inr (w, e, IsPrefix-Perm values start (p, cp, ep, np) e)
        ],
      )

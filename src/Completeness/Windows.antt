-- ===== src/Completeness/Windows.antt =====
-- What the merges of completeness records do to the covered windows and to the status.
use spectraplex.Base.{
  ℕ, ℤ, Bool, true, false, ◌||◌, ◌≡◌, refl, Option, none, some, List, [], ◌∷◌, arith, inl, inr,
  Bool-cases, map,
}
use spectraplex.Completeness.{
  DatasetCompleteness, Table, CompletedRun, has_key, is_complete, same_version, lower, upper,
  above_start, below_end, leaves_out, merged_status, merge, after_run,
  update_completeness_after_run,
}

-- The covered window of times and of blocks.
pub record Window : Type 0 where
  pub start : Option ℤ
  pub end : Option ℤ
  pub first_block : Option ℤ
  pub last_block : Option ℤ

abbrev pub window : DatasetCompleteness → Window
window r = record {
  start = r.coverage_start;
  end = r.coverage_end;
  first_block = r.block_start;
  last_block = r.block_end;
}

lower_new : (old new : Option ℤ) → above_start old new ≡ false → lower old new ≡ new
unfolding lower
lower_new none none h = refl
lower_new none (some n) h = refl
lower_new (some o) none h = cc
lower_new (some o) (some n) h = ground arith

upper_new : (old new : Option ℤ) → below_end old new ≡ false → upper old new ≡ new
unfolding upper
upper_new none none h = refl
upper_new none (some n) h = refl
upper_new (some o) none h = cc
upper_new (some o) (some n) h = ground arith

or_false :
    (a b c d : Bool)
    → (a || b || c || d) ≡ false
    → (a ≡ false) × (b ≡ false) × (c ≡ false) × (d ≡ false)
or_false a b c d h = (ground (arith, h), ground (arith, h), ground (arith, h), ground (arith, h))

or_of :
    (a b c d : Bool) → a ≡ false → b ≡ false → c ≡ false → d ≡ false → (a || b || c || d) ≡ false
or_of a b c d e f g h = rw e (rw f (rw g h))

nothing_left_out :
    (old new : DatasetCompleteness)
    → leaves_out old new ≡ false
    → (above_start old.coverage_start new.coverage_start ≡ false)
      × (below_end old.coverage_end new.coverage_end ≡ false)
      × (above_start old.block_start new.block_start ≡ false)
      × (below_end old.block_end new.block_end ≡ false)
nothing_left_out old new h =
    or_false (above_start old.coverage_start new.coverage_start)
      (below_end old.coverage_end new.coverage_end) (above_start old.block_start new.block_start)
      (below_end old.block_end new.block_end) h

-- When an upsert for the same version makes an incomplete record complete, the record covers
-- exactly the window that was reported as complete.
pub promotion_covers_reported :
    (old new : DatasetCompleteness)
    → same_version old.dataset_version_id new.dataset_version_id ≡ true
    → is_complete old.status ≡ false
    → is_complete (merge new old).status ≡ true
    → window (merge new old) ≡ window new
unfolding merge merged_status
promotion_covers_reported old new v i c =
    let fits : leaves_out old new ≡ false = elim (Bool-cases (leaves_out old new)) [
      | inl e ↦ absurd (ground (arith, v, i, e, c))
      | inr e ↦ e
    ] in
    let (a, b, d, e) = nothing_left_out old new fits in
    let start = lower_new old.coverage_start new.coverage_start a in
    let end = upper_new old.coverage_end new.coverage_end b in
    let first_block = lower_new old.block_start new.block_start d in
    let last_block = upper_new old.block_end new.block_end e in
    ground (arith, v, start, end, first_block, last_block)

lower_swap : (a b c : Option ℤ) → lower (lower a b) c ≡ lower (lower a c) b
unfolding lower
lower_swap none none none = refl
lower_swap none none (some c) = refl
lower_swap none (some b) none = refl
lower_swap none (some b) (some c) = ground arith
lower_swap (some a) none none = refl
lower_swap (some a) none (some c) = ground arith
lower_swap (some a) (some b) none = ground arith
lower_swap (some a) (some b) (some c) = ground arith

upper_swap : (a b c : Option ℤ) → upper (upper a b) c ≡ upper (upper a c) b
unfolding upper
upper_swap none none none = refl
upper_swap none none (some c) = refl
upper_swap none (some b) none = refl
upper_swap none (some b) (some c) = ground arith
upper_swap (some a) none none = refl
upper_swap (some a) none (some c) = ground arith
upper_swap (some a) (some b) none = ground arith
upper_swap (some a) (some b) (some c) = ground arith

start_old : (a b : Option ℤ) → above_start a (lower a b) ≡ false
unfolding lower
start_old none none = refl
start_old none (some b) = refl
start_old (some a) none = ground arith
start_old (some a) (some b) = ground arith

start_new : (a b : Option ℤ) → above_start b (lower a b) ≡ false
unfolding lower
start_new none none = refl
start_new none (some b) = ground arith
start_new (some a) none = refl
start_new (some a) (some b) = ground arith

end_old : (a b : Option ℤ) → below_end a (upper a b) ≡ false
unfolding upper
end_old none none = refl
end_old none (some b) = refl
end_old (some a) none = ground arith
end_old (some a) (some b) = ground arith

end_new : (a b : Option ℤ) → below_end b (upper a b) ≡ false
unfolding upper
end_new none none = refl
end_new none (some b) = ground arith
end_new (some a) none = refl
end_new (some a) (some b) = ground arith

-- An upsert for the same version leaves out nothing of what the old record covered, and nothing of
-- what the new one covers.
merge_covers_both :
    (old new : DatasetCompleteness)
    → same_version old.dataset_version_id new.dataset_version_id ≡ true
    → (leaves_out old (merge new old) ≡ false) × (leaves_out new (merge new old) ≡ false)
unfolding merge
merge_covers_both old new v = (
  rw v (
      or_of _ _ _ _ (start_old old.coverage_start new.coverage_start)
        (end_old old.coverage_end new.coverage_end) (start_old old.block_start new.block_start)
        (end_old old.block_end new.block_end)),
  rw v (
      or_of _ _ _ _ (start_new old.coverage_start new.coverage_start)
        (end_new old.coverage_end new.coverage_end) (start_new old.block_start new.block_start)
        (end_new old.block_end new.block_end)),
)

-- The key of a run's records.
abbrev of_run : CompletedRun → DatasetCompleteness → Bool
of_run u = has_key u.target_id u.dataset_name u.network

after_both :
    (now later : ℕ) (u v : CompletedRun) (r : DatasetCompleteness)
    → window (after_run later v (after_run now u r))
      ≡ window (after_run later u (after_run now v r))
unfolding after_run
after_both now later u v r =
    let start = lower_swap r.coverage_start u.coverage_start v.coverage_start in
    let end = upper_swap r.coverage_end u.coverage_end v.coverage_end in
    let first_block = lower_swap r.block_start u.block_start v.block_start in
    let last_block = upper_swap r.block_end u.block_end v.block_end in
    ground (arith, start, end, first_block, last_block)

cons_eq : {a b : Window} {ws vs : List Window} → a ≡ b → ws ≡ vs → a ∷ ws ≡ b ∷ vs
cons_eq e f = cc (e, f)

-- Two runs that report their windows, for whatever records, leave the same windows in the table in
-- either order.
pub runs_commute :
    (now later : ℕ) (u v : CompletedRun) (t : Table)
    → map window (update_completeness_after_run later v (update_completeness_after_run now u t))
      ≡ map window (update_completeness_after_run later u (update_completeness_after_run now v t))
unfolding update_completeness_after_run after_run
runs_commute now later u v [] = refl
runs_commute now later u v (r ∷ t) =
    let rest = runs_commute now later u v t in
    elim (Bool-cases (of_run u r)) [
      | inl e ↦ elim (Bool-cases (of_run v r)) [
        | inl f ↦ rw e (rw f (rw e (cons_eq (after_both now later u v r) rest)))
        | inr f ↦ rw e (rw f (rw e (cons_eq refl rest)))
      ]
      | inr e ↦ elim (Bool-cases (of_run v r)) [
        | inl f ↦ rw e (rw f (rw e (cons_eq refl rest)))
        | inr f ↦ rw e (rw f (rw e (cons_eq refl rest)))
      ]
    ]

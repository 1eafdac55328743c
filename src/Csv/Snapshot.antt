-- ===== src/Csv/Snapshot.antt =====
-- That a paged reading without failures sends a whole snapshot, up to the cap.
use spectraplex.Base.{
  ℕ, zero, suc, ◌+◌, ◌*◌, ◌<◌, ◌≤◌, Bool, true, false, ◌||◌, ◌≡◌, refl, ap, sym, subst, ◌∙◌, inl,
  inr, some, List, [], ◌∷◌, ◌++◌, length, length-append, append_assoc, append_nil, is_empty, take,
  drop, take_add, length-take, take_short, ltb, leb, i64_max, saturating_add, Bool-cases, arith,
}
use spectraplex.Csv.Stream.{
  World, Streamed, over, again, ok, sent, ends, after_send, round, usize_to_i64_or_max,
  saturating_add_i64, stream_loop, stream_paged_with_builder_in_tx,
}
use spectraplex.Csv.Pages.{
  concat, At, At-next, At-start, next_offset, answer, round_empty, round_page,
}

rounds : (m p : ℕ) → suc m * p ≡ p + m * p
rounds m p = grind arith

module _ {R : Type 0} (all : List R) (short : length all ≤ i64_max) (page_size : ℕ) (w : World R)
    (hard_cap : ℕ) where
  -- Nothing fails and nothing is cancelled.
  pub record IsCalm : Type 0 where
    pub runs : (offset : ℕ) → w.is_cancelled offset ≡ false
    pub answers : (offset : ℕ) → w.query offset ≡ some (take page_size (drop offset all))
    pub sends : (offset : ℕ) → w.send offset ≡ sent

  module _ (calm : IsCalm) (pos : 1 ≤ page_size) where
    open calm use {runs, answers, sends}

    -- The loop ends with these records sent, and counts them.
    abbrev pub Completes : Streamed R → List R → Type 0
    Completes s records = (concat s.pages ≡ records) × (s.result ≡ some (ok (length records)))

    -- A page that is not empty, and its round.
    page_sent :
        (done rest : List R) (total : ℕ) (pages : List (List R))
        → At all done rest total pages
        → is_empty (take page_size rest) ≡ false
        → round w page_size hard_cap (length done) total pages
          ≡ after_send w page_size hard_cap sent (take page_size rest) (length done) total pages
    page_sent done rest total pages h g =
        round_page all short page_size w hard_cap (length done) total pages _ (runs (length done))
          (answer all short page_size w hard_cap h (answers (length done))) g
        ∙ ap
            (λ o. after_send w page_size hard_cap o (take page_size rest) (length done) total pages)
            (sends (length done))

    nothing_left : (rest : List R) → is_empty (take page_size rest) ≡ true → rest ≡ []
    nothing_left [] g = refl
    nothing_left (x ∷ rest) g =
        let l = length-take page_size (x ∷ rest) in absurd (ground (arith, l, pos, g))

    -- The round at the end of the snapshot, at a short page, and at the cap.
    ending_round :
        (done rest : List R) (total : ℕ) (pages : List (List R))
        → At all done rest total pages
        → is_empty (take page_size rest) ≡ true
        → round w page_size hard_cap (length done) total pages
          ≡ ends w page_size hard_cap pages (ok total)
    ending_round done rest total pages h g =
        round_empty all short page_size w hard_cap (length done) total pages _ (runs (length done))
          (answer all short page_size w hard_cap h (answers (length done))) g

    over_loop :
        (fuel offset total : ℕ) (pages : List (List R)) (x : Streamed R)
        → round w page_size hard_cap offset total pages ≡ over x
        → stream_loop w page_size hard_cap (suc fuel) offset total pages ≡ x
    unfolding stream_loop
    over_loop fuel offset total pages x e = rw (e, stream_loop) refl

    again_loop :
        (fuel offset total o t : ℕ) (pages ps : List (List R))
        → round w page_size hard_cap offset total pages ≡ again o t ps
        → stream_loop w page_size hard_cap (suc fuel) offset total pages
          ≡ stream_loop w page_size hard_cap fuel o t ps
    unfolding stream_loop
    again_loop fuel offset total o t pages ps e = rw (e, stream_loop) refl

    -- The test that ends the loop behind a page.
    abbrev is_last : List R → ℕ → Bool
    is_last page offset =
        let page_len = usize_to_i64_or_max (length page) in
        ltb page_len page_size || leb hard_cap (saturating_add_i64 offset page_len)

    sent_last :
        (page : List R) (offset total : ℕ) (pages : List (List R))
        → is_last page offset ≡ true
        → after_send w page_size hard_cap sent page offset total pages
          ≡ ends w page_size hard_cap (pages ++ page ∷ []) (ok (saturating_add total (length page)))
    unfolding after_send
    sent_last page offset total pages e = rw e refl

    sent_more :
        (page : List R) (offset total : ℕ) (pages : List (List R))
        → is_last page offset ≡ false
        → after_send w page_size hard_cap sent page offset total pages
          ≡ again
              (saturating_add_i64 offset (usize_to_i64_or_max (length page)))
              (saturating_add total (length page))
              (pages ++ page ∷ [])
    unfolding after_send
    sent_more page offset total pages e = rw e refl

    Completes-here :
        {done rest : List R} {total : ℕ} {pages : List (List R)}
        → At all done rest total pages
        → (records : List R) → done ≡ records
        → Completes (record { pages = pages; result = some (ok total) }) records
    Completes-here h records e = (h.sent_pages ∙ e, ap (λ n. some (ok n)) (h.counted ∙ ap length e))

    -- The last page holds what is left up to the cap.
    last_page :
        (m : ℕ) (done rest : List R) (total : ℕ) (pages : List (List R))
        → At all done rest total pages
        → hard_cap ≡ length done + suc m * page_size
        → is_last (take page_size rest) (length done) ≡ true
        → take page_size rest ≡ take (suc m * page_size) rest
    last_page zero done rest total pages h c e =
        let one : suc zero * page_size ≡ page_size = omega (arith, rounds zero page_size) in
        rw one refl
    last_page (suc m) done rest total pages h c e =
        let n = length-take page_size rest in
        let o = next_offset all short page_size h in
        let a = length-append done (take page_size rest) in
        let fewer : length rest < page_size =
          ground (arith, n, o, a, c, e, pos, rounds (suc m) page_size, rounds m page_size) in
        take_short page_size rest (omega (arith, fewer))
        ∙ sym (
            take_short (suc (suc m) * page_size) rest
              (omega (arith, fewer, rounds (suc m) page_size)))

    -- A page before the last is full, and more are to follow.
    full_page :
        (m : ℕ) (done rest : List R) (total : ℕ) (pages : List (List R))
        → At all done rest total pages
        → hard_cap ≡ length done + suc m * page_size
        → is_last (take page_size rest) (length done) ≡ false
        → (k : ℕ) × (m ≡ suc k) × (length (take page_size rest) ≡ page_size)
    full_page zero done rest total pages h c e =
        let n = length-take page_size rest in
        let o = next_offset all short page_size h in
        let a = length-append done (take page_size rest) in
        absurd (ground (arith, n, o, a, c, e, rounds zero page_size))
    full_page (suc m) done rest total pages h c e =
        (m, refl, ground (arith, length-take page_size rest, e))

    regroup :
        (done rest : List R) (m k : ℕ)
        → m ≡ suc k
        → (done ++ take page_size rest) ++ take (suc k * page_size) (drop page_size rest)
          ≡ done ++ take (suc m * page_size) rest
    regroup done rest m k q =
        append_assoc done (take page_size rest) (take (suc k * page_size) (drop page_size rest))
        ∙ ap (λ t. done ++ t) (sym (take_add page_size (suc k * page_size) rest))
        ∙ ap (λ n. done ++ take n rest)
            (omega (arith, rounds m page_size, ap (λ x. x * page_size) q))

    -- Where the loop ends, and where it goes on.
    module _ (fuel : ℕ) (done rest : List R) (total : ℕ) (pages : List (List R))
        (h : At all done rest total pages) where
      end_case :
          (n : ℕ)
          → is_empty (take page_size rest) ≡ true
          → Completes
              (stream_loop w page_size hard_cap (suc fuel) (length done) total pages)
              (done ++ take n rest)
      end_case n g =
          let r = nothing_left rest g in
          subst (λ x. Completes x (done ++ take n rest))
            (sym (over_loop fuel _ _ _ _ (ending_round done rest total pages h g)))
            (Completes-here h _ (
              sym (append_nil done)
              ∙ ap (λ t. done ++ t) (sym (take_short n [] (omega arith)) ∙ ap (take n) (sym r))))

      last_case :
          (m : ℕ)
          → hard_cap ≡ length done + suc m * page_size
          → is_empty (take page_size rest) ≡ false
          → is_last (take page_size rest) (length done) ≡ true
          → Completes
              (stream_loop w page_size hard_cap (suc fuel) (length done) total pages)
              (done ++ take (suc m * page_size) rest)
      last_case m c g b =
          subst (λ x. Completes x (done ++ take (suc m * page_size) rest))
            (sym
              (over_loop fuel _ _ _ _ (page_sent done rest total pages h g ∙ sent_last _ _ _ _ b)))
            (Completes-here (At-next all short page_size h) _
              (ap (λ t. done ++ t) (last_page m done rest total pages h c b)))

      abbrev the_rest : Streamed R
      the_rest =
          stream_loop w page_size hard_cap fuel
            (saturating_add_i64 (length done) (usize_to_i64_or_max (length (take page_size rest))))
            (saturating_add total (length (take page_size rest)))
            (pages ++ take page_size rest ∷ [])

      more_case :
          {records records' : List R}
          → is_empty (take page_size rest) ≡ false
          → is_last (take page_size rest) (length done) ≡ false
          → records' ≡ records
          → Completes the_rest records'
          → Completes
              (stream_loop w page_size hard_cap (suc fuel) (length done) total pages)
              records
      more_case {records} g b e ih =
          subst (λ x. Completes x records)
            (sym (
              again_loop fuel _ _ _ _ _ _
                (page_sent done rest total pages h g ∙ sent_more _ _ _ _ b)))
            (subst (Completes the_rest) e ih)

    -- The records behind those that are sent, up to the cap, fit into so many pages.
    loop_lem :
        (fuel m : ℕ) (done rest : List R) (offset total : ℕ) (pages : List (List R))
        → m < fuel
        → hard_cap ≡ length done + suc m * page_size
        → offset ≡ length done
        → At all done rest total pages
        → Completes
            (stream_loop w page_size hard_cap fuel offset total pages)
            (done ++ take (suc m * page_size) rest)
    loop_lem zero m done rest offset total pages l c e h = absurd (omega arith)
    loop_lem (suc fuel) m done rest offset total pages l c e h =
        let page = take page_size rest in
        let n = suc m * page_size in
        subst
          (λ x.
            Completes (stream_loop w page_size hard_cap (suc fuel) x total pages)
              (done ++ take (suc m * page_size) rest))
          (sym e)
          (elim (Bool-cases (is_empty page)) [
            | inl g ↦ end_case fuel done rest total pages h n g
            | inr g ↦ elim (Bool-cases (is_last page (length done))) [
              | inl b ↦ last_case fuel done rest total pages h m c g b
              | inr b ↦
                  let (k, q, full) = full_page m done rest total pages h c b in
                  let o = next_offset all short page_size h in
                  let a = length-append done page in
                  let enough : k < fuel = omega (arith, q, l) in
                  let cap : hard_cap ≡ length (done ++ page) + suc k * page_size =
                    omega (arith, c, a, full, rounds m page_size, ap (λ x. x * page_size) q) in
                  let ih =
                    loop_lem fuel k (done ++ page) (drop page_size rest) _ _ _ enough cap o
                      (At-next all short page_size h) in
                  more_case fuel done rest total pages h g b (regroup done rest m k q) ih
            ]
          ])

    -- If nothing fails and nothing is cancelled, and the cap is a number of whole pages, a paged reading
    -- with more rounds of fuel than pages sends exactly the records of the snapshot up to the cap, in
    -- order and each once, and its total is their number.
    pub snapshot_streamed :
        (m fuel : ℕ)
        → m < fuel
        → hard_cap ≡ suc m * page_size
        → Completes (stream_paged_with_builder_in_tx w page_size hard_cap fuel) (take hard_cap all)
    unfolding stream_paged_with_builder_in_tx
    snapshot_streamed m fuel l c =
        subst (λ n. Completes (stream_loop w page_size hard_cap fuel 0 0 []) (take n all)) (sym c)
          (loop_lem fuel m [] all 0 0 [] l (omega (arith, c)) refl
            (At-start all short page_size w hard_cap))

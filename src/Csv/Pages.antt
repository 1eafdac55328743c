-- ===== src/Csv/Pages.antt =====
-- Which records the paged reading of a snapshot sends.
use spectraplex.Base.{
  ℕ, zero, suc, ◌+◌, ◌≤◌, true, false, ◌||◌, ◌≡◌, refl, ap, sym, subst, ◌∙◌, ◌⊎◌, inl, inr, Option,
  none, some, List, [], ◌∷◌, ◌++◌, length, length-append, append_assoc, append_nil, is_empty,
  concat_map, take, drop, take-drop, drop-append, length-take, ltb, leb, i64_max, saturating_add,
  Bool-cases, arith,
}
use spectraplex.Csv.Stream.{
  World, Streamed, Sending, Round, over, again, round, after_send, StreamResult, ok, err, cancelled,
  dropped, query_failed, sent, token_cancelled, receiver_dropped, ends, usize_to_i64_or_max,
  saturating_add_i64, stream_loop, stream_paged_with_builder_in_tx,
}

abbrev pub concat {ℓ} : {A : Type ℓ} → List (List A) → List A
concat = concat_map (λ page. page)

concat-append :
    {A : Type 0} (pages : List (List A)) (page : List A)
    → concat (pages ++ page ∷ []) ≡ concat pages ++ page
concat-append [] page = append_nil page
concat-append (p ∷ pages) page =
    ap (λ t. p ++ t) (concat-append pages page) ∙ sym (append_assoc p (concat pages) page)

-- The state of the loop: the records sent, those that are left, and the pages they were sent in.
pub record At {R : Type 0} (all done rest : List R) (total : ℕ) (pages : List (List R))
    : Type 0 where
  pub split : all ≡ done ++ rest
  pub sent_pages : concat pages ≡ done
  pub counted : total ≡ length done

module _ {R : Type 0} (all : List R) (short : length all ≤ i64_max) (page_size : ℕ) where
  At-bound :
      {done rest : List R} {total : ℕ} {pages : List (List R)}
      → At all done rest total pages
      → length done + length rest ≤ i64_max
  At-bound {done} {rest} h = omega (arith, short, ap length h.split, length-append done rest)

  pub At-next :
      {done rest : List R} {total : ℕ} {pages : List (List R)}
      → At all done rest total pages
      → At all
          (done ++ take page_size rest)
          (drop page_size rest)
          (saturating_add total (length (take page_size rest)))
          (pages ++ take page_size rest ∷ [])
  At-next {done} {rest} {total} {pages} h = record {
    split =
        h.split
        ∙ ap (λ t. done ++ t) (take-drop page_size rest)
        ∙ sym (append_assoc done (take page_size rest) (drop page_size rest));
    sent_pages =
        concat-append pages (take page_size rest) ∙ ap (λ t. t ++ take page_size rest) h.sent_pages;
    counted = ground (
      arith,
      h.counted,
      At-bound h,
      length-take page_size rest,
      length-append done (take page_size rest),
    );
  }

  pub next_offset :
      {done rest : List R} {total : ℕ} {pages : List (List R)}
      → At all done rest total pages
      → saturating_add_i64 (length done) (usize_to_i64_or_max (length (take page_size rest)))
        ≡ length (done ++ take page_size rest)
  next_offset {done} {rest} h =
      ground
        (arith, At-bound h, length-take page_size rest, length-append done (take page_size rest))

  pub same_page :
      {done rest : List R} {total : ℕ} {pages : List (List R)}
      → At all done rest total pages
      → take page_size (drop (length done) all) ≡ take page_size rest
  same_page {done} {rest} h =
      ap (λ t. take page_size (drop (length done) t)) h.split
      ∙ ap (λ t. take page_size t) (drop-append done rest)

  module _ (w : World R) (hard_cap : ℕ) where
    -- What the loop has done when it ends: the pages hold the first records, and a result is their
    -- number.
    abbrev pub IsPrefix : Streamed R → Type 0
    IsPrefix s =
        (concat s.pages ≡ take (length (concat s.pages)) all)
        × ((n : ℕ) → s.result ≡ some (ok n) → n ≡ length (concat s.pages))

    take-length-append : (xs ys : List R) → take (length xs) (xs ++ ys) ≡ xs
    take-length-append [] ys = refl
    take-length-append (x ∷ xs) ys = ap (λ t. x ∷ t) (take-length-append xs ys)

    stopped :
        {done rest : List R} {total : ℕ} {pages : List (List R)}
        → At all done rest total pages
        → (result : Option StreamResult) → ((n : ℕ) → result ≡ some (ok n) → n ≡ total)
        → IsPrefix (record { pages = pages; result = result })
    stopped {done} {rest} h result count = (
      h.sent_pages
          ∙ sym (take-length-append done rest)
          ∙ ap (take (length done)) (sym h.split)
          ∙ ap (λ t. take (length t) all) (sym h.sent_pages),
      λ n e. count n e ∙ h.counted ∙ ap length (sym h.sent_pages),
    )

    -- A query fails, or gives the records behind its offset, up to the page size.
    abbrev pub Answers : Type 0
    Answers =
        (offset : ℕ)
        → (w.query offset ≡ none) ⊎ (w.query offset ≡ some (take page_size (drop offset all)))

    -- A round ends like that, or goes on behind the records that it has sent.
    abbrev KeepsPrefix : Round R → Type 0
    KeepsPrefix (over s) = IsPrefix s
    KeepsPrefix (again offset total pages) =
        (done : List R) × (rest : List R) × (offset ≡ length done) × At all done rest total pages

    sent-KeepsPrefix :
        (o : Sending) (done rest : List R) (total : ℕ) (pages : List (List R))
        → At all done rest total pages
        → KeepsPrefix
            (after_send w page_size hard_cap o (take page_size rest) (length done) total pages)
    unfolding after_send
    sent-KeepsPrefix token_cancelled done rest total pages h =
        stopped h (some (err cancelled)) (λ n x. cc)
    sent-KeepsPrefix receiver_dropped done rest total pages h =
        stopped h (some (err dropped)) (λ n x. cc)
    sent-KeepsPrefix sent done rest total pages h =
        let page = take page_size rest in
        let page_len = usize_to_i64_or_max (length page) in
        let offset = saturating_add_i64 (length done) page_len in
        elim (Bool-cases (ltb page_len page_size || leb hard_cap offset)) [
          | inl b ↦ rw b (stopped (At-next h) _ (λ n x. ground arith))
          | inr b ↦ rw b (done ++ page, drop page_size rest, next_offset h, At-next h)
        ]

    module _ (offset total : ℕ) (pages : List (List R)) where
      round_cancelled :
          w.is_cancelled offset ≡ true
          → round w page_size hard_cap offset total pages
            ≡ ends w page_size hard_cap pages (err cancelled)
      unfolding round
      round_cancelled e = rw (e, round) refl

      round_failed :
          w.is_cancelled offset ≡ false
          → w.query offset ≡ none
          → round w page_size hard_cap offset total pages
            ≡ ends w page_size hard_cap pages (err query_failed)
      unfolding round
      round_failed e f = rw (e, f, round) refl

      pub round_empty :
          (rows : List R)
          → w.is_cancelled offset ≡ false
          → w.query offset ≡ some rows
          → is_empty rows ≡ true
          → round w page_size hard_cap offset total pages
            ≡ ends w page_size hard_cap pages (ok total)
      unfolding round
      round_empty rows e f g = rw (e, f, g, round) refl

      pub round_page :
          (rows : List R)
          → w.is_cancelled offset ≡ false
          → w.query offset ≡ some rows
          → is_empty rows ≡ false
          → round w page_size hard_cap offset total pages
            ≡ after_send w page_size hard_cap (w.send offset) rows offset total pages
      unfolding round
      round_page rows e f g = rw (e, f, g, round) refl

    pub answer :
        {done rest : List R} {total : ℕ} {pages : List (List R)}
        → At all done rest total pages
        → w.query (length done) ≡ some (take page_size (drop (length done) all))
        → w.query (length done) ≡ some (take page_size rest)
    answer h f = f ∙ ap some (same_page h)

    round-KeepsPrefix :
        Answers
        → (done rest : List R) (total : ℕ) (pages : List (List R)) → At all done rest total pages
        → KeepsPrefix (round w page_size hard_cap (length done) total pages)
    round-KeepsPrefix q done rest total pages h = elim (Bool-cases (w.is_cancelled (length done))) [
      | inl e ↦ subst KeepsPrefix (sym (round_cancelled _ _ _ e)) (stopped h _ (λ n x. cc))
      | inr e ↦ elim (q (length done)) [
        | inl f ↦ subst KeepsPrefix (sym (round_failed _ _ _ e f)) (stopped h _ (λ n x. cc))
        | inr f ↦ elim (Bool-cases (is_empty (take page_size rest))) [
          | inl g ↦
              subst KeepsPrefix (sym (round_empty _ _ _ _ e (answer h f) g))
                (stopped h _ (λ n x. ground arith))
          | inr g ↦
              subst KeepsPrefix (sym (round_page _ _ _ _ e (answer h f) g))
                (sent-KeepsPrefix (w.send (length done)) done rest total pages h)
        ]
      ]
    ]

    goes_on :
        (fuel : ℕ)
        → ((done rest : List R) (offset total : ℕ) (pages : List (List R))
            → offset ≡ length done
            → At all done rest total pages
            → IsPrefix (stream_loop w page_size hard_cap fuel offset total pages))
        → (r : Round R) → KeepsPrefix r
        → IsPrefix
            (elim r [ over s ↦ s | again o t p ↦ stream_loop w page_size hard_cap fuel o t p ])
    goes_on fuel ih (over s) h = h
    goes_on fuel ih (again o t p) (done, rest, e, h) = ih done rest o t p e h

    loop-IsPrefix :
        Answers
        → (fuel : ℕ) (done rest : List R) (offset total : ℕ) (pages : List (List R))
        → offset ≡ length done
        → At all done rest total pages
        → IsPrefix (stream_loop w page_size hard_cap fuel offset total pages)
    unfolding stream_loop
    loop-IsPrefix q zero done rest offset total pages e h = stopped h none (λ n x. cc)
    loop-IsPrefix q (suc fuel) done rest offset total pages e h =
        goes_on fuel (loop-IsPrefix q fuel) (round w page_size hard_cap offset total pages) (
          subst (λ k. KeepsPrefix (round w page_size hard_cap k total pages)) (sym e)
            (round-KeepsPrefix q done rest total pages h))

    pub At-start : At all [] all 0 []
    At-start = record { split = refl; sent_pages = refl; counted = refl }

    -- Of a snapshot of at most 2 to the 63 - 1 records, whatever fails, whenever the export is
    -- cancelled and whatever fuel is left, the pages that are sent hold the first records of the
    -- snapshot in order, each once, and a total is their number, if a query fails or gives a
    -- page of the records behind its offset.
    pub streamed-IsPrefix :
        Answers → (fuel : ℕ) → IsPrefix (stream_paged_with_builder_in_tx w page_size hard_cap fuel)
    unfolding stream_paged_with_builder_in_tx
    streamed-IsPrefix q fuel = loop-IsPrefix q fuel [] all 0 0 [] refl At-start

-- ===== src/Evm/Coverage.antt =====
-- That the chunked requests of a range bring in the logs of each block of the range once.
use spectraplex.Base.{
  ℕ, zero, suc, ◌+◌, ◌-◌, ◌≤◌, ◌<◌, u64_max, ◌≡◌, refl, sym, ◌∙◌, ap, subst, Option, none, some,
  List, [], ◌∷◌, ◌++◌, leb, Result, ok, inl, inr, Result-cases, arith, concat_map, append_assoc,
  append_nil, Bool-cases,
}
use spectraplex.Evm.{EvmError, Log, wrapping_add}
use spectraplex.Evm.Scan.{retry, get_logs_with_retry, fetch_logs_loop, fetch_logs, chunk_end}

-- `count` block numbers from `start` on.
abbrev pub blocks : ℕ → ℕ → List ℕ
blocks zero start = []
blocks (suc count) start = start ∷ blocks count (suc start)

-- All blocks from the first to the last one.
abbrev pub block_range : ℕ → ℕ → List ℕ
block_range from to = blocks (suc to - from) from

pub concat_map-append {ℓ κ} :
    {A : Type ℓ} {B : Type κ} (f : A → List B) (xs ys : List A)
    → concat_map f (xs ++ ys) ≡ concat_map f xs ++ concat_map f ys
concat_map-append f [] ys = refl
concat_map-append f (x ∷ xs) ys =
    ap (λ zs. f x ++ zs) (concat_map-append f xs ys)
    ∙ sym (append_assoc (f x) (concat_map f xs) (concat_map f ys))

blocks_split :
    (m n k start next : ℕ)
    → m + n ≡ k
    → start + m ≡ next
    → blocks k start ≡ blocks m start ++ blocks n next
blocks_split zero n k start next e f =
    let e' : n ≡ k = omega arith in
    let f' : start ≡ next = omega arith in
    subst (λ c. blocks c start ≡ blocks n next) e' (ap (blocks n) f')
blocks_split (suc m) n zero start next e f = absurd (omega arith)
blocks_split (suc m) n (suc k) start next e f =
    ap (λ l. start ∷ l) (blocks_split m n k (suc start) next (omega arith) (omega arith))

-- A range is a chunk of it and the range after the chunk.
pub block_range-append :
    (from mid to : ℕ)
    → from ≤ suc mid
    → mid ≤ to
    → block_range from mid ++ block_range (mid + 1) to ≡ block_range from to
block_range-append from mid to h k = sym (
    blocks_split (suc mid - from) (suc to - (mid + 1)) (suc to - from) from (mid + 1) (omega arith)
      (omega arith))

-- What is fetched of a range in two parts.
pub concat_ranges {ℓ} :
    {A : Type ℓ} (f : ℕ → List A) (acc : List A) (from mid to next : ℕ)
    → next ≡ mid + 1
    → from ≤ suc mid
    → mid ≤ to
    → acc ++ concat_map f (block_range from mid) ++ concat_map f (block_range next to)
      ≡ acc ++ concat_map f (block_range from to)
concat_ranges f acc from mid to next e h k =
    append_assoc acc (concat_map f (block_range from mid)) (concat_map f (block_range next to))
    ∙ ap (λ l. acc ++ l)
        (sym (concat_map-append f (block_range from mid) (block_range next to))
          ∙ ap (concat_map f) (
              ap (λ n. block_range from mid ++ block_range n to) e
              ∙ block_range-append from mid to h k))

pub concat_none {ℓ} :
    {A : Type ℓ} (f : ℕ → List A) (from to : ℕ)
    → to < from
    → concat_map f (block_range from to) ≡ []
concat_none f from to h =
    let e : 0 ≡ suc to - from = omega arith in subst (λ n. concat_map f (blocks n from) ≡ []) e refl

-- A provider whose answers are the blocks' logs, when it answers.
module _ (get_logs : ℕ → ℕ → ℕ → Result EvmError (List Log)) (block_logs : ℕ → List Log)
    (answers : (attempt from to : ℕ) (logs : List Log)
      → from ≤ to
      → get_logs attempt from to ≡ ok logs
      → logs ≡ concat_map block_logs (block_range from to)) where
  retry_sound :
      (left attempt : ℕ) (last : Option EvmError) (from to : ℕ) {logs : List Log}
      → from ≤ to
      → retry get_logs left attempt last from to ≡ ok logs
      → logs ≡ concat_map block_logs (block_range from to)
  retry_sound zero attempt last from to h e = cc
  retry_sound (suc left) attempt last from to {logs} h e =
      elim (Result-cases (get_logs attempt from to)) [
        | inl (x, k) ↦ retry_sound left (attempt + 1) (some x) from to h (ground (arith, k))
        | inr (l, k) ↦ let q : l ≡ logs = ground (arith, k) in sym q ∙ answers attempt from to l h k
      ]

  loop_sound :
      (chunk to : ℕ)
      → 1 ≤ chunk
      → to + chunk ≤ u64_max
      → (fuel start : ℕ) (acc : List Log) {logs : List Log}
      → fetch_logs_loop get_logs chunk to fuel start acc ≡ some (ok logs)
      → logs ≡ acc ++ concat_map block_logs (block_range start to)
  unfolding fetch_logs_loop get_logs_with_retry
  loop_sound chunk to hc hm zero start acc e = cc
  loop_sound chunk to hc hm (suc fuel) start acc {logs} e = elim (Bool-cases (leb start to)) [
    | inr f ↦
        let q : acc ≡ logs = ground arith in
        sym q
        ∙ sym (ap (λ l. acc ++ l) (concat_none block_logs start to (ground arith)) ∙ append_nil acc)
    | inl t ↦
        let mid = chunk_end chunk to start in
        let low : start ≤ mid = ground arith in
        let high : mid ≤ to = ground arith in
        let next : wrapping_add mid 1 ≡ mid + 1 = ground arith in
        elim (Result-cases (get_logs_with_retry get_logs start mid)) [
          | inl (x, k) ↦ absurd (ground (arith, k))
          | inr (l, k) ↦
              let ih =
                loop_sound chunk to hc hm fuel (wrapping_add mid 1) (acc ++ l) {logs = logs}
                  (ground (arith, k)) in
              ih
              ∙ ap (λ m. acc ++ m ++ concat_map block_logs (block_range (wrapping_add mid 1) to))
                  (retry_sound 3 0 none start mid low k)
              ∙ concat_ranges block_logs acc start mid to (wrapping_add mid 1) next (omega arith)
                  high
        ]
  ]

  pub fetch_logs_sound :
      (fuel chunk from to : ℕ) {logs : List Log}
      → 1 ≤ chunk
      → to + chunk ≤ u64_max
      → fetch_logs get_logs fuel chunk from to ≡ some (ok logs)
      → logs ≡ concat_map block_logs (block_range from to)
  unfolding fetch_logs
  fetch_logs_sound fuel chunk from to hc hm e = loop_sound chunk to hc hm fuel from [] e

-- A provider whose third attempt, at the latest, succeeds.
module _ (get_logs : ℕ → ℕ → ℕ → Result EvmError (List Log)) (block_logs : ℕ → List Log)
    (answers : (attempt from to : ℕ) (logs : List Log)
      → from ≤ to
      → get_logs attempt from to ≡ ok logs
      → logs ≡ concat_map block_logs (block_range from to))
    (third_attempt : (from to : ℕ)
      → from ≤ to
      → (logs : List Log) × (get_logs 2 from to ≡ ok logs)) where
  retry_lem :
      (from to : ℕ)
      → from ≤ to
      → get_logs_with_retry get_logs from to ≡ ok (concat_map block_logs (block_range from to))
  unfolding get_logs_with_retry
  retry_lem from to h = elim (Result-cases (get_logs 0 from to)) [
    | inr (logs, e) ↦ rw e (ap ok (answers 0 from to logs h e))
    | inl (e0, k0) ↦ elim (Result-cases (get_logs 1 from to)) [
      | inr (logs, e) ↦ rw (k0, e) (ap ok (answers 1 from to logs h e))
      | inl (e1, k1) ↦
          let (logs, e) = third_attempt from to h in
          rw (k0, k1, e) (ap ok (answers 2 from to logs h e))
    ]
  ]

  loop_lem :
      (chunk to : ℕ)
      → 1 ≤ chunk
      → to + chunk ≤ u64_max
      → (fuel start : ℕ) (acc : List Log) → start ≤ suc to
      → suc to - start < fuel
      → fetch_logs_loop get_logs chunk to fuel start acc
        ≡ some (ok (acc ++ concat_map block_logs (block_range start to)))
  unfolding fetch_logs_loop
  loop_lem chunk to hc hm zero start acc hs hf = absurd (omega arith)
  loop_lem chunk to hc hm (suc fuel) start acc hs hf = elim (Bool-cases (leb start to)) [
    | inl t ↦
        let mid = chunk_end chunk to start in
        let low : start ≤ mid = ground arith in
        let high : mid ≤ to = ground arith in
        let next : wrapping_add mid 1 ≡ mid + 1 = ground arith in
        let logs = concat_map block_logs (block_range start mid) in
        let ih =
          loop_lem chunk to hc hm fuel (wrapping_add mid 1) (acc ++ logs) (omega (arith, next))
            (omega (arith, next)) in
        let step : fetch_logs_loop get_logs chunk to (suc fuel) start acc
            ≡ fetch_logs_loop get_logs chunk to fuel (wrapping_add mid 1) (acc ++ logs) =
          ground (arith, retry_lem start mid low) in
        step
        ∙ ih
        ∙ ap (λ l. some (ok l))
            (concat_ranges block_logs acc start mid to (wrapping_add mid 1) next (omega arith) high)
    | inr f ↦
        let none_left = concat_none block_logs start to (ground arith) in
        let step : fetch_logs_loop get_logs chunk to (suc fuel) start acc ≡ some (ok acc) =
          ground arith in
        step ∙ ap (λ l. some (ok l)) (sym (ap (λ l. acc ++ l) none_left ∙ append_nil acc))
  ]

  -- If each answer to a request has the logs of the blocks that are asked for, and of each request the
  -- third attempt succeeds, if not an earlier one, then `fetch_logs` ends within one round more than
  -- there are blocks, and returns the logs of each block of the range once, in the order of the blocks,
  -- whatever the chunk size is, of at least one block and such that the last block and a chunk stay
  -- within a u64.
  pub fetch_logs_exact :
      (fuel chunk from to : ℕ)
      → 1 ≤ chunk
      → to + chunk ≤ u64_max
      → from ≤ suc to
      → suc to - from < fuel
      → fetch_logs get_logs fuel chunk from to
        ≡ some (ok (concat_map block_logs (block_range from to)))
  unfolding fetch_logs
  fetch_logs_exact fuel chunk from to hc hm hs hf = loop_lem chunk to hc hm fuel from [] hs hf

-- ===== src/Evm/Merge.antt =====
-- That the raw transactions of the EVM connector miss no transaction of a scanned block, and that the
-- cursor of a contract's backfills passes no block before its transactions are recorded.
use spectraplex.Base.{
  In-append_left, In-append_right, ℕ, zero, suc, ◌+◌, ◌-◌, ◌≤◌, ◌<◌, min, u64_max, Bool, true, ◌&&◌,
  ◌≡◌, refl, sym, ◌∙◌, ap, subst, Option, none, some, List, [], ◌∷◌, ◌++◌, leb, ltb, saturating_add,
  Result, err, ok, inl, inr, Result-cases, Option-cases, Bool-cases, arith, concat_map, any,
  any-append, In, head, tail, All, String, str_eq, str_eq_iff, and_then_ok, or_fail_ok,
}
use spectraplex.Evm.{
  EvmError, EvmCursor, Log, RawRecord, scan_window, scan_checkpoint, cursor_to_from_block,
  read_from_block,
}
use spectraplex.Evm.Scan.{
  fetch_logs, records_loop, log_record, logs_to_raw_transactions, contract_backfill,
  contract_backfills, keep_batch, to_batch,
}
use spectraplex.Evm.Coverage.{blocks, block_range, fetch_logs_sound}

abbrev pub is_recorded : String → List RawRecord → Bool
is_recorded hash = any (λ r. str_eq hash r.tx_hash)

is_recorded_left :
    (hash : String) (xs ys : List RawRecord)
    → is_recorded hash xs ≡ true
    → is_recorded hash (xs ++ ys) ≡ true
is_recorded_left hash xs ys h = ground (arith, any-append (λ r. str_eq hash r.tx_hash) xs ys, h)

is_recorded_right :
    (hash : String) (xs ys : List RawRecord)
    → is_recorded hash ys ≡ true
    → is_recorded hash (xs ++ ys) ≡ true
is_recorded_right hash xs ys h = ground (arith, any-append (λ r. str_eq hash r.tx_hash) xs ys, h)

-- The hashes emitted, with a record's own, are recorded.
emitted_added :
    (hash x : String) (emitted : List String) (records : List RawRecord) (r : RawRecord)
    → r.tx_hash ≡ x
    → (any (str_eq hash) emitted ≡ true → is_recorded hash records ≡ true)
    → any (str_eq hash) (x ∷ emitted) ≡ true
    → is_recorded hash (records ++ r ∷ []) ≡ true
emitted_added hash x emitted records r e i h =
    let split = any-append (λ r. str_eq hash r.tx_hash) records (r ∷ []) in
    let same : str_eq hash r.tx_hash ≡ str_eq hash x = ap (str_eq hash) e in
    ground (arith, split, same, i)

module _ (enrichment : String → Option ℕ) where
  records_loop-keeps :
      (hash : String) (logs : List Log) (emitted : List String) (records : List RawRecord)
      → is_recorded hash records ≡ true
      → is_recorded hash (records_loop enrichment logs emitted records) ≡ true
  unfolding records_loop
  records_loop-keeps hash [] emitted records h = h
  records_loop-keeps hash (log ∷ logs) emitted records h =
      elim (Option-cases log.transaction_hash) [
        | inl e ↦ rw e (records_loop-keeps hash logs emitted records h)
        | inr (x, e) ↦ elim (Bool-cases (any (str_eq x) emitted)) [
          | inl t ↦ rw (e, t) (records_loop-keeps hash logs emitted records h)
          | inr f ↦
              rw (e, f)
                (records_loop-keeps hash logs (x ∷ emitted)
                  (records ++ log_record enrichment x log ∷ [])
                  (is_recorded_left hash records (log_record enrichment x log ∷ []) h))
        ]
      ]

  records_loop-covers :
      (hash : String) (logs : List Log) (emitted : List String) (records : List RawRecord)
      {log : Log}
      → (any (str_eq hash) emitted ≡ true → is_recorded hash records ≡ true)
      → In log logs
      → log.transaction_hash ≡ some hash
      → is_recorded hash (records_loop enrichment logs emitted records) ≡ true
  unfolding records_loop
  records_loop-covers hash [] emitted records i m e = elim m [ ]
  records_loop-covers hash (l ∷ logs) emitted records i head e =
      elim (Bool-cases (any (str_eq hash) emitted)) [
        | inl t ↦ rw (e, t) (records_loop-keeps hash logs emitted records (i t))
        | inr f ↦
            let r = log_record enrichment hash l in
            let self = (str_eq_iff hash hash).1 refl in
            let now = emitted_added hash hash emitted records r refl i (ground (arith, self)) in
            rw (e, f) (records_loop-keeps hash logs (hash ∷ emitted) (records ++ r ∷ []) now)
      ]
  records_loop-covers hash (l ∷ logs) emitted records i (tail m) e =
      elim (Option-cases l.transaction_hash) [
        | inl k ↦ rw k (records_loop-covers hash logs emitted records i m e)
        | inr (x, k) ↦ elim (Bool-cases (any (str_eq x) emitted)) [
          | inl t ↦ rw (k, t) (records_loop-covers hash logs emitted records i m e)
          | inr f ↦
              let r = log_record enrichment x l in
              rw (k, f)
                (records_loop-covers hash logs (x ∷ emitted) (records ++ r ∷ [])
                  (emitted_added hash x emitted records r refl i) m e)
        ]
      ]

  -- Every transaction that has a log is recorded.
  logs_to_raw_transactions-covers :
      (hash : String) (logs : List Log) {log : Log}
      → In log logs
      → log.transaction_hash ≡ some hash
      → is_recorded hash (logs_to_raw_transactions enrichment logs) ≡ true
  unfolding logs_to_raw_transactions
  logs_to_raw_transactions-covers hash logs m e =
      records_loop-covers hash logs [] [] (λ h. ground arith) m e

In-blocks :
    {A : Type 0} (f : ℕ → List A) {a : A} (count start b : ℕ)
    → start ≤ b
    → b < start + count
    → In a (f b)
    → In a (concat_map f (blocks count start))
In-blocks f zero start b h k m = absurd (omega arith)
In-blocks f {a} (suc count) start b h k m = elim (Bool-cases (leb b start)) [
  | inl t ↦ let e : b ≡ start = ground arith in In-append_left _ (subst (λ n. In a (f n)) e m)
  | inr n ↦
      In-append_right (f start) (In-blocks f count (suc start) b (ground arith) (omega arith) m)
]

min_bound : (a x c m : ℕ) → a + c ≤ m → min a x + c ≤ m
min_bound a x c m h = omega arith

pair_inj :
    {a b c d : ℕ} → Path (Result EvmError (ℕ × ℕ)) (ok (a, b)) (ok (c, d)) → (a ≡ c) × (b ≡ d)
pair_inj h = ground arith

-- The block after the last one that a cursor says is done.
abbrev pub next_block : Option EvmCursor → Option ℕ
next_block none = none
next_block (some c) = read_from_block c

module _ (get_logs : ℕ → ℕ → ℕ → Result EvmError (List Log)) (block_logs : ℕ → List Log)
    (answers : (attempt from to : ℕ) (logs : List Log)
      → from ≤ to
      → get_logs attempt from to ≡ ok logs
      → logs ≡ concat_map block_logs (block_range from to))
    (enrich : List Log → Result EvmError (String → Option ℕ)) (fuel block_chunk limit : ℕ)
    (positive : 1 ≤ block_chunk) where
  -- The transactions of the blocks from `first` to before `next` are recorded.
  abbrev pub AreRecorded : ℕ → ℕ → List RawRecord → Type 0
  AreRecorded first next records =
      (b : ℕ) (log : Log) (hash : String)
      → first ≤ b
      → b < next
      → In log (block_logs b)
      → log.transaction_hash ≡ some hash
      → is_recorded hash records ≡ true

  abbrev pub IsInRange : Result EvmError ℕ → Type 0
  IsInRange confirmed = (n : ℕ) → confirmed ≡ ok n → n + block_chunk ≤ u64_max

  -- A backfill from block `n` on: where it leaves the cursor, and what it records on the way.
  abbrev IsStep :
      Option EvmCursor → ℕ → Option (Result EvmError (List RawRecord × Option EvmCursor)) → Type 0
  IsStep cursor n outcome =
      (n' : ℕ) × (next_block (keep_batch cursor outcome).1 ≡ some n')
      × (n ≤ n')
      × AreRecorded n n' (keep_batch cursor outcome).0

  -- The cursor stays.
  no-IsStep :
      (cursor : Option EvmCursor) (n : ℕ)
      (outcome : Option (Result EvmError (List RawRecord × Option EvmCursor)))
      → (keep_batch cursor outcome).1 ≡ cursor
      → next_block cursor ≡ some n
      → IsStep cursor n outcome
  no-IsStep cursor n outcome e hn =
      (n, ap next_block e ∙ hn, omega arith, λ b log hash h l m q. absurd (omega arith))

  window_lem :
      (confirmed : Result EvmError ℕ) (cursor : Option EvmCursor) (n from end : ℕ)
      → IsInRange confirmed
      → next_block cursor ≡ some n
      → scan_window confirmed cursor limit ≡ ok (from, end)
      → (from ≡ n) × (end + block_chunk ≤ u64_max)
  unfolding scan_window cursor_to_from_block
  window_lem confirmed none n from end hr hn h = cc
  window_lem confirmed (some c) n from end hr hn h =
      let (seen, e, k) =
        and_then_ok confirmed
          (λ x. ok (
            cursor_to_from_block (some c) x limit,
            min x (saturating_add (cursor_to_from_block (some c) x limit) (limit - 1)),
          ))
          (or_fail_ok (leb 1 limit && leb limit 100000) EvmError.invalid_limit h) in
      let bound = hr seen e in
      let (a, b) = pair_inj k in
      let start : cursor_to_from_block (some c) seen limit ≡ n = rw hn refl in
      (
        sym a ∙ start,
        subst (λ x. x + block_chunk ≤ u64_max) b
            (min_bound seen (saturating_add (cursor_to_from_block (some c) seen limit) (limit - 1))
              block_chunk u64_max bound),
      )

  fetched-IsStep :
      (cursor : Option EvmCursor) (n end : ℕ) (fetched : Result EvmError (List Log))
      → end + block_chunk ≤ u64_max
      → next_block cursor ≡ some n
      → fetch_logs get_logs fuel block_chunk n end ≡ some fetched
      → IsStep cursor n (some (to_batch get_logs enrich fuel block_chunk limit n end fetched))
  fetched-IsStep cursor n end (err e) hr hn h = no-IsStep cursor n (some (err e)) refl hn
  fetched-IsStep cursor n end (ok logs) hr hn h = elim (Result-cases (enrich logs)) [
    | inl (e, k) ↦ rw k (no-IsStep cursor n (some (err e)) refl hn)
    | inr (enrichment, k) ↦ elim (Bool-cases (leb n end)) [
      | inr f ↦
          let q : some (ok (logs_to_raw_transactions enrichment logs, none))
              ≡ some (to_batch get_logs enrich fuel block_chunk limit n end (ok logs)) =
            ground (arith, k, f) in
          subst (IsStep cursor n) q (
            no-IsStep cursor n (some (ok (logs_to_raw_transactions enrichment logs, none))) refl hn)
      | inl t ↦
          let q : some (ok (logs_to_raw_transactions enrichment logs, some (scan_checkpoint end)))
              ≡ some (to_batch get_logs enrich fuel block_chunk limit n end (ok logs)) =
            ground (arith, k, t) in
          let whole =
            fetch_logs_sound get_logs block_logs answers fuel block_chunk n end positive hr h in
          subst (IsStep cursor n) q (
            end + 1,
            ground arith,
            ground arith,
            λ b log hash l m i e.
                logs_to_raw_transactions-covers enrichment hash logs
                  (subst (In log) (sym whole)
                    (In-blocks block_logs (suc end - n) n b l (ground arith) i))
                  e,
          )
    ]
  ]

  backfill_lem :
      (confirmed : Result EvmError ℕ) (cursor : Option EvmCursor) (n : ℕ)
      → IsInRange confirmed
      → next_block cursor ≡ some n
      → IsStep cursor n (contract_backfill get_logs enrich fuel block_chunk limit confirmed cursor)
  unfolding contract_backfill
  backfill_lem confirmed cursor n hr hn = elim (Result-cases (scan_window confirmed cursor limit)) [
    | inl (e, k) ↦
        let q : some (err e)
            ≡ contract_backfill get_logs enrich fuel block_chunk limit confirmed cursor =
          ground (arith, k) in
        subst (IsStep cursor n) q (no-IsStep cursor n (some (err e)) refl hn)
    | inr ((from, end), k) ↦
        let (e, bound) = window_lem confirmed cursor n from end hr hn k in
        elim (Option-cases (fetch_logs get_logs fuel block_chunk from end)) [
          | inl o ↦
              let q : none
                  ≡ contract_backfill get_logs enrich fuel block_chunk limit confirmed cursor =
                ground (arith, k, o) in
              subst (IsStep cursor n) q (no-IsStep cursor n none refl hn)
          | inr (r, o) ↦
              let q : some (to_batch get_logs enrich fuel block_chunk limit from end r)
                  ≡ contract_backfill get_logs enrich fuel block_chunk limit confirmed cursor =
                ground (arith, k, o) in
              subst
                (λ m.
                  IsStep cursor m
                    (contract_backfill get_logs enrich fuel block_chunk limit confirmed cursor))
                e
                (subst (IsStep cursor from) q
                  (fetched-IsStep cursor from end r bound (hn ∙ ap some (sym e)) o))
        ]
  ]

  -- Whatever fails on the way, the backfills of a contract from `first` on leave a cursor such that
  -- every transaction with a log in a block from `first` to before the cursor's next block is
  -- recorded, if the logs that the provider returns are those of the blocks, and the same request gets
  -- the same answer in every backfill.
  pub contract_backfills-AreRecorded :
      (heads : List (Result EvmError ℕ)) (cursor : Option EvmCursor) (first next : ℕ)
      → All IsInRange heads
      → next_block cursor ≡ some first
      → next_block (contract_backfills get_logs enrich fuel block_chunk limit heads cursor).1
        ≡ some next
      → (first ≤ next)
        × AreRecorded first next
            (contract_backfills get_logs enrich fuel block_chunk limit heads cursor).0
  unfolding contract_backfills
  contract_backfills-AreRecorded [] cursor first next hr hn h =
      (ground arith, λ b log hash l m i e. absurd (ground arith))
  contract_backfills-AreRecorded (confirmed ∷ heads) cursor first next (h0, hr) hn h =
      let (n', e, l, here) = backfill_lem confirmed cursor first h0 hn in
      let (l', later) = contract_backfills-AreRecorded heads _ n' next hr e h in
      (
        omega arith,
        λ b log hash i j m q. elim (Bool-cases (ltb b n')) [
          | inl t ↦ is_recorded_left hash _ _ (here b log hash i (ground arith) m q)
          | inr f ↦ is_recorded_right hash _ _ (later b log hash (ground arith) j m q)
        ],
      )

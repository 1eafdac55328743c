-- ===== src/Target/Validation.antt =====
-- What validate_target accepts.
use spectraplex.Base.{
  String, ◌≢◌, ◌⊎◌, inl, inr, List, ◌∷◌, In, head, tail, All-In, str_eq, str_eq_iff, Bool-cases, ℕ,
  ◌≤◌, true, false, ◌≡◌, ◌↔◌, refl, Option, none, some, [], arith, i64_max, is_none,
}
use spectraplex.Target.{
  ChainFamily, solana, evm, hyperliquid, TargetKind, wallet, contract, program, account,
  topic_filter, market, pool, protocol, FilterSpec, IndexTarget, valid_for_chain_family,
  validate_target, is_complex, blank, from_block_bad, from_block_of,
}

-- Whether a from_block is acceptable for a family.
abbrev pub GoodFromBlock : Option (Option ℕ) → ChainFamily → Type 0
GoodFromBlock none family = Unit
GoodFromBlock (some none) family = ⊥
GoodFromBlock (some (some n)) family = (family ≡ evm) × (n ≤ i64_max)

-- The kinds of targets that a chain family has.
abbrev pub kinds_of : ChainFamily → List TargetKind
kinds_of solana = wallet ∷ program ∷ account ∷ pool ∷ protocol ∷ []
kinds_of evm = wallet ∷ contract ∷ account ∷ topic_filter ∷ pool ∷ protocol ∷ []
kinds_of hyperliquid = wallet ∷ market ∷ []

-- What the documentation of target kinds asks for, in terms of the target alone.
pub record IsWellFormed (t : IndexTarget) : Type 0 where
  pub valid_kind : In t.kind (kinds_of t.chain_family)
  pub addressed :
      (t.kind ≢ topic_filter) → (t.kind ≢ protocol) → (a : String) × (t.address ≡ some a) × (a ≢ "")
  pub from_block : GoodFromBlock (from_block_of t.filter_spec) t.chain_family
  pub filtered :
      (t.kind ≡ topic_filter) ⊎ (t.kind ≡ protocol) → (f : FilterSpec) × (t.filter_spec ≡ some f)

good_sound :
    (b : Option (Option ℕ)) (family : ChainFamily)
    → from_block_bad b family ≡ false
    → GoodFromBlock b family
unfolding from_block_bad
good_sound none family h = tt
good_sound (some none) family h = ground arith
good_sound (some (some n)) family h = ground arith

good_complete :
    (b : Option (Option ℕ)) (family : ChainFamily)
    → GoodFromBlock b family
    → from_block_bad b family ≡ false
unfolding from_block_bad
good_complete none family h = refl
good_complete (some none) family h = absurd h
good_complete (some (some n)) family h = ground arith

kind_listed :
    (k : TargetKind) (family : ChainFamily)
    → valid_for_chain_family k family ≡ true
    → In k (kinds_of family)
unfolding valid_for_chain_family
kind_listed wallet solana h = head
kind_listed wallet evm h = head
kind_listed wallet hyperliquid h = head
kind_listed contract evm h = tail head
kind_listed contract solana h = cc
kind_listed contract hyperliquid h = cc
kind_listed program solana h = tail head
kind_listed program evm h = cc
kind_listed program hyperliquid h = cc
kind_listed account solana h = tail (tail head)
kind_listed account evm h = tail (tail head)
kind_listed account hyperliquid h = cc
kind_listed topic_filter evm h = tail (tail (tail head))
kind_listed topic_filter solana h = cc
kind_listed topic_filter hyperliquid h = cc
kind_listed market hyperliquid h = tail head
kind_listed market solana h = cc
kind_listed market evm h = cc
kind_listed pool solana h = tail (tail (tail head))
kind_listed pool evm h = tail (tail (tail (tail head)))
kind_listed pool hyperliquid h = cc
kind_listed protocol solana h = tail (tail (tail (tail head)))
kind_listed protocol evm h = tail (tail (tail (tail (tail head))))
kind_listed protocol hyperliquid h = cc

valid_of_listed :
    (k : TargetKind) (family : ChainFamily)
    → In k (kinds_of family)
    → valid_for_chain_family k family ≡ true
unfolding valid_for_chain_family
valid_of_listed k solana m =
    All-In (λ x. valid_for_chain_family x solana ≡ true) {xs = kinds_of solana}
      (refl, (refl, (refl, (refl, (refl, tt))))) m
valid_of_listed k evm m =
    All-In (λ x. valid_for_chain_family x evm ≡ true) {xs = kinds_of evm}
      (refl, (refl, (refl, (refl, (refl, (refl, tt)))))) m
valid_of_listed k hyperliquid m =
    All-In (λ x. valid_for_chain_family x hyperliquid ≡ true) {xs = kinds_of hyperliquid}
      (refl, (refl, tt)) m

simple_kind : (k : TargetKind) → (k ≢ topic_filter) → (k ≢ protocol) → is_complex k ≡ false
simple_kind topic_filter h g = absurd (h refl)
simple_kind protocol h g = absurd (g refl)
simple_kind k h g = refl

complex_kind : (k : TargetKind) → (k ≡ topic_filter) ⊎ (k ≡ protocol) → is_complex k ≡ true
complex_kind k (inl e) = rw e refl
complex_kind k (inr e) = rw e refl

simple_cases : (k : TargetKind) → is_complex k ≡ false → (k ≢ topic_filter) × (k ≢ protocol)
simple_cases k h = (λ e. cc, λ e. cc)

complex_cases : (k : TargetKind) → is_complex k ≡ true → (k ≡ topic_filter) ⊎ (k ≡ protocol)
complex_cases topic_filter h = inl refl
complex_cases protocol h = inr refl
complex_cases k h = cc

not_blank : (o : Option String) → blank o ≡ false → (a : String) × (o ≡ some a) × (a ≢ "")
not_blank none h = cc
not_blank (some a) h = (a, refl, λ e. cc (h, (str_eq_iff a "").1 e))

filled : (o : Option String) (a : String) → o ≡ some a → (a ≢ "") → blank o ≡ false
filled o a e n =
    rw e
      (elim (Bool-cases (str_eq a "")) [ inl t ↦ absurd (n ((str_eq_iff a "").0 t)) | inr f ↦ f ])

given : (o : Option FilterSpec) → is_none o ≡ false → (f : FilterSpec) × (o ≡ some f)
given none h = cc
given (some f) h = (f, refl)

-- The errors of a target, one by one.
no_errors :
    (t : IndexTarget)
    → (validate_target t ≡ []) ↔ (
        (valid_for_chain_family t.kind t.chain_family ≡ true)
        × (is_complex t.kind ≡ false → blank t.address ≡ false)
        × (from_block_bad (from_block_of t.filter_spec) t.chain_family ≡ false)
        × (is_complex t.kind ≡ true → is_none t.filter_spec ≡ false))
unfolding validate_target
no_errors t = (
  λ h. (ground arith, λ e. ground arith, ground arith, λ e. ground arith),
  λ (v, a, b, f). ground (arith, v, a, b, f),
)

-- validate_target reports no error exactly for a well-formed target: its kind is one of those listed
-- for the chain family, a kind other than topic_filter and protocol has a non-empty address, a
-- from_block stands on an EVM target and fits an i64, and topic_filter and protocol have a
-- filter_spec.
pub validate_target_exact : (t : IndexTarget) → (validate_target t ≡ []) ↔ IsWellFormed t
validate_target_exact t = (
  λ h.
      let (v, a, b, f) = (no_errors t).0 h in
      record {
        valid_kind = kind_listed t.kind t.chain_family v;
        addressed = λ n m. not_blank t.address (a (simple_kind t.kind n m));
        from_block = good_sound (from_block_of t.filter_spec) t.chain_family b;
        filtered = λ c. given t.filter_spec (f (complex_kind t.kind c));
      },
  λ w. (no_errors t).1 (
    valid_of_listed t.kind t.chain_family w.valid_kind,
    λ e.
        let (n, m) = simple_cases t.kind e in
        let (a, at_a, ne) = w.addressed n m in filled t.address a at_a ne,
    good_complete (from_block_of t.filter_spec) t.chain_family w.from_block,
    λ e. let (f, at_f) = w.filtered (complex_cases t.kind e) in rw at_f refl,
  ),
)

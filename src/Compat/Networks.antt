-- ===== src/Compat/Networks.antt =====
-- When the network of a V1 transaction is known, and when it is inferred, and how chains, networks and
-- sources agree.
use spectraplex.Base.{
  String, Bool, false, Option, subst, sym, ◌≡◌, refl, ap, ◌⊎◌, inl, inr, ◌↔◌, none, some, List, [],
  ◌∷◌, select, first_by, find?, Option-cases, Bool-cases, arith, or_else, str_eq,
}
use spectraplex.Target.{Chain, solana_chain, ethereum_chain, hyperliquid_chain}
use spectraplex.Compat.{
  network_to_chain, network_to_source, chain_to_default_source, chain_to_default_network,
  chain_to_family, in_family, text_before, pick_network, resolve_effective_network,
}

-- A chain comes back from its default network.
network_to_chain-chain_to_default_network :
    (chain : Chain) → network_to_chain (chain_to_default_network chain) ≡ chain
unfolding network_to_chain
network_to_chain-chain_to_default_network solana_chain = refl
network_to_chain-chain_to_default_network ethereum_chain = refl
network_to_chain-chain_to_default_network hyperliquid_chain = refl

-- The source of a network is the default source of its chain.
network_to_source_lem :
    (network : String)
    → network_to_source network ≡ chain_to_default_source (network_to_chain network)
unfolding network_to_source network_to_chain
network_to_source_lem network = ground arith

pick_known :
    (chain : Chain) (networks matches : List String) (network : String)
    → pick_network chain networks matches ≡ (network, false)
    → matches ≡ network ∷ []
pick_known chain networks [] network h = elim (Option-cases (first_by text_before networks)) [
  | inl e ↦ absurd (ground (arith, e))
  | inr (n, e) ↦ absurd (ground (arith, e))
]
pick_known chain networks (n ∷ []) network h =
    let q : n ≡ network = ground arith in ap (λ x. x ∷ []) q
pick_known chain networks (n ∷ m ∷ rest) network h =
    let pick =
      or_else (find? (λ x. str_eq x (chain_to_default_network chain)) (n ∷ m ∷ rest))
        (first_by text_before (n ∷ m ∷ rest)) in
    elim (Option-cases pick) [
      | inl e ↦ absurd (ground (arith, e))
      | inr (x, e) ↦ absurd (ground (arith, e))
    ]

only_one :
    (chain : Chain) (n network : String)
    → select (in_family (chain_to_family chain)) (n ∷ []) ≡ network ∷ []
    → Path (String × Bool) (n, false) (network, false)
only_one chain n network e = elim (Bool-cases (in_family (chain_to_family chain) n)) [
  | inl t ↦ let q : n ≡ network = ground (arith, t) in ap (λ x. (x, false)) q
  | inr f ↦ absurd (ground (arith, f))
]

-- The same, where the map has the hash.
resolve_found :
    (chain : Chain) (networks : List String) (network : String)
    → (resolve_effective_network chain none (some networks) ≡ (network, false)) ↔ (
        (networks ≡ network ∷ [])
        ⊎ (select (in_family (chain_to_family chain)) networks ≡ network ∷ []))
unfolding resolve_effective_network
resolve_found chain [] network =
    (λ h. inr (pick_known chain [] [] network h), λ h. elim h [ inl e ↦ cc | inr e ↦ cc ])
resolve_found chain (n ∷ []) network = (
  λ h. let q : n ≡ network = ground arith in inl (ap (λ x. x ∷ []) q),
  λ h. elim h [
    | inl e ↦ let q : n ≡ network = ground arith in ap (λ x. (x, false)) q
    | inr e ↦ only_one chain n network e
  ],
)
resolve_found chain (n ∷ m ∷ rest) network = (
  λ h. inr (pick_known chain (n ∷ m ∷ rest) _ network h),
  λ h. elim h [ inl e ↦ cc | inr e ↦ rw e refl ],
)

some_injective : {a b : List String} → some a ≡ some b → a ≡ b
some_injective h = ground arith

not_known :
    (chain : Chain) (network : String)
    → resolve_effective_network chain none none ≡ (network, false)
    → ⊥
unfolding resolve_effective_network
not_known chain network h = cc

-- Without an explicit network, the network of a transaction is known, and not inferred, exactly if
-- there are networks for its hash, and it is the only one of them, or the only one of them that is of
-- the chain's family. In particular it is inferred where no network has the hash.
pub resolve_known :
    (chain : Chain) (bronze : Option (List String)) (network : String)
    → (resolve_effective_network chain none bronze ≡ (network, false)) ↔ (
        (networks : List String) × (bronze ≡ some networks)
        × ((networks ≡ network ∷ [])
            ⊎ (select (in_family (chain_to_family chain)) networks ≡ network ∷ [])))
resolve_known chain none network =
    (λ h. absurd (not_known chain network h), λ (networks, e, _). absurd (cc e))
resolve_known chain (some found) network = (
  λ h. (found, refl, (resolve_found chain found network).0 h),
  λ (networks, e, only).
      subst (λ ns. resolve_effective_network chain none (some ns) ≡ (network, false))
        (sym (some_injective e)) ((resolve_found chain networks network).1 only),
)

-- ===== src/Providers/Resolution.antt =====
-- Which provider is resolved for a network and a capability.
use spectraplex.Base.{
  ◌≤◌, String, Bool, true, false, ◌≡◌, refl, ap, ◌∙◌, subst, Option, none, some, List, [], ◌∷◌,
  arith, inl, inr, Bool-cases, Option-cases, select, find?, find?_sound, any, or_else,
  if◌then◌else◌, In, head, tail, All, All-In, sort_by, In-sort_by, sort_by-In, IsSorted,
  sort_by-IsSorted, ok,
}
use spectraplex.Providers.{
  Environment, ProviderConfig, ProviderCapability, ResolvedProvider, Networks, ProviderRegistry,
  NetworkContext, capability_eq, all_capabilities, enabled_of, lookup, priority_below, offers,
  from_config, providers_for_network, resolve_best, resolve_all, is_network_enabled,
  context_entries, from_registry, get_capability, context_provider, historical, balances, stream,
  logs, receipts, debug_trace_transaction,
}
use spectraplex.Providers.Registry.{configured, registry_exact}

-- The search is made in the providers of the network.
resolve_in :
    (r : ProviderRegistry) (n : String) (c : ProviderCapability)
    → resolve_best r n c ≡ find? (offers c) (providers_for_network r n)
unfolding resolve_best providers_for_network
resolve_in r n c = elim (Option-cases (lookup n r.providers)) [
  | inl e ↦ rw (e, resolve_best)
  | inr (ps, e) ↦ rw (e, resolve_best)
]

find?-In :
    (q : ResolvedProvider → Bool) (xs : List ResolvedProvider) {p : ResolvedProvider}
    → find? q xs ≡ some p
    → In p xs
find?-In q [] h = cc
find?-In q (x ∷ xs) {p} h = elim (Bool-cases (q x)) [
  | inl e ↦ let same : x ≡ p = ground (arith, e) in subst (λ y. In y (x ∷ xs)) same head
  | inr e ↦ tail (find?-In q xs (ground (arith, e)))
]

least_first :
    (x s : ResolvedProvider) (xs : List ResolvedProvider)
    → All (λ y. priority_below y x ≡ false) xs
    → In s (x ∷ xs)
    → x.priority ≤ s.priority
least_first x s xs a head = omega arith
least_first x s xs a (tail m) =
    let h = All-In (λ y. priority_below y x ≡ false) a m in ground (arith, h)

not_first :
    (x s : ResolvedProvider) (xs : List ResolvedProvider) → In s (x ∷ xs) → ¬ (s ≡ x) → In s xs
not_first x s xs head n = absurd (n refl)
not_first x s xs (tail m) n = m

-- In a sorted list, the first match has the least priority of all matches.
find?-first :
    (q : ResolvedProvider → Bool) (xs : List ResolvedProvider) {s : ResolvedProvider}
    → IsSorted priority_below xs
    → In s xs
    → q s ≡ true
    → (p : ResolvedProvider) × (find? q xs ≡ some p) × (p.priority ≤ s.priority)
find?-first q (x ∷ xs) {s} (a, r) m h = elim (Bool-cases (q x)) [
  | inl e ↦ (x, rw e refl, least_first x s xs a m)
  | inr e ↦
      let (p, f, l) =
        find?-first q xs r (not_first x s xs m (λ g. ground (arith, ap q g, e, h))) h in
      (p, rw e f, l)
]
find?-first q [] o m h = elim m [ ]

-- If the configuration declares a provider for an enabled network with a capability, the registry
-- resolves the pair, to a declared provider with that capability, and to none with a larger
-- priority number than any declared one with the capability has.
pub best_resolved :
    (env : Environment) (networks : Networks) (pcs : List ProviderConfig) (n : String)
    (c : ProviderCapability) {r : ProviderRegistry} {s : ResolvedProvider}
    → from_config env networks pcs ≡ ok r
    → In s (configured env (enabled_of networks) n pcs)
    → offers c s ≡ true
    → (p : ResolvedProvider) × (resolve_best r n c ≡ some p)
      × In p (configured env (enabled_of networks) n pcs)
      × (offers c p ≡ true)
      × (p.priority ≤ s.priority)
best_resolved env networks pcs n c {r} {s} h m o =
    let declared = configured env (enabled_of networks) n pcs in
    let (held, _) = registry_exact env networks pcs n h in
    let sorted =
      sort_by-IsSorted priority_below (λ a b e. ground arith) (λ a b d e f. ground arith)
        declared in
    let (p, f, least) =
      find?-first (offers c) (sort_by priority_below declared) sorted
        (sort_by-In priority_below declared m) o in
    (
      p,
      resolve_in r n c ∙ ap (find? (offers c)) held ∙ f,
      In-sort_by priority_below declared (find?-In (offers c) _ f),
      find?_sound (offers c) (sort_by priority_below declared) f,
      least,
    )

abbrev pub first : List ResolvedProvider → Option ResolvedProvider
first [] = none
first (p ∷ ps) = some p

find?-select :
    (q : ResolvedProvider → Bool) (xs : List ResolvedProvider) → first (select q xs) ≡ find? q xs
find?-select q [] = refl
find?-select q (x ∷ xs) = ground (arith, find?-select q xs)

-- The best provider of a network and a capability is the first of the fallback chain.
chain_starts_best :
    (r : ProviderRegistry) (n : String) (c : ProviderCapability)
    → first (resolve_all r n c) ≡ resolve_best r n c
unfolding resolve_all resolve_best
chain_starts_best r n c = elim (Option-cases (lookup n r.providers)) [
  | inl e ↦ rw (e, resolve_all, resolve_best)
  | inr (ps, e) ↦ rw (e, resolve_all, resolve_best) (find?-select (offers c) ps)
]

capability_eq_sound : (d c : ProviderCapability) → capability_eq d c ≡ true → d ≡ c
capability_eq_sound historical historical h = refl
capability_eq_sound balances balances h = refl
capability_eq_sound stream stream h = refl
capability_eq_sound logs logs h = refl
capability_eq_sound receipts receipts h = refl
capability_eq_sound debug_trace_transaction debug_trace_transaction h = refl
capability_eq_sound _ _ h = cc

entry_found :
    (r : ProviderRegistry) (n : String) (c d : ProviderCapability) (cs : List ProviderCapability)
    → get_capability c (context_entries r n (d ∷ cs)) ≡ (
        if capability_eq d c
        then or_else (resolve_best r n d) (get_capability c (context_entries r n cs))
        else get_capability c (context_entries r n cs))
unfolding context_entries
entry_found r n c d cs = elim (Option-cases (resolve_best r n d)) [
  | inl e ↦ ground (arith, e)
  | inr (p, e) ↦ ground (arith, e)
]

entries_found :
    (r : ProviderRegistry) (n : String) (c : ProviderCapability) (cs : List ProviderCapability)
    → get_capability c (context_entries r n cs)
      ≡ (if any (λ d. capability_eq d c) cs then resolve_best r n c else none)
unfolding context_entries
entries_found r n c [] = refl
entries_found r n c (d ∷ cs) = elim (Bool-cases (capability_eq d c)) [
  | inl e ↦
      let same = ap (resolve_best r n) (capability_eq_sound d c e) in
      ground (arith, entry_found r n c d cs, entries_found r n c cs, e, same)
  | inr e ↦ ground (arith, entry_found r n c d cs, entries_found r n c cs, e)
]

every_capability : (c : ProviderCapability) → any (λ d. capability_eq d c) all_capabilities ≡ true
every_capability historical = refl
every_capability _ = refl

-- A network has a context exactly when it is enabled, with providers or without, and the context
-- gives for each capability the provider that the registry resolves.
context_exact :
    (r : ProviderRegistry) (n : String)
    → (is_network_enabled r n ≡ false → from_registry r n ≡ none)
      × (is_network_enabled r n ≡ true
          → (x : NetworkContext) × (from_registry r n ≡ some x)
            × (x.network ≡ n)
            × ((c : ProviderCapability) → context_provider x c ≡ resolve_best r n c))
unfolding from_registry context_provider
context_exact r n = (
  λ h. rw h,
  λ h. (
    record { network = n; providers = context_entries r n all_capabilities },
    rw h,
    refl,
    λ c. entries_found r n c all_capabilities ∙ rw (every_capability c),
  ),
)

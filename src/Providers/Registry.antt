-- ===== src/Providers/Registry.antt =====
-- What the registry holds for each network, and when its construction succeeds.
use spectraplex.Base.{
  append_assoc, append_nil, String, Bool, true, false, ◌&&◌, ◌||◌, not, ◌≡◌, refl, sym, ap, ◌∙◌,
  List, [], ◌∷◌, ◌++◌, arith, inl, inr, Bool-cases, Result-cases, if◌then◌else◌, str_eq, str_eq_iff,
  is_some, is_blank, is_empty, unwrap_or, all, sort_by, Result, err, ok, is_ok,
}
use spectraplex.Providers.{
  Environment, ProviderConfig, ProviderCapability, ResolvedProvider, RegistryError, Networks,
  Groups, ProviderRegistry, contains_key, enabled_of, lookup, push_entry, priority_below,
  sort_groups, parse_capabilities, with_capabilities, resolve_provider, collect_groups, from_config,
  providers_for_network,
}

abbrev group : String → Groups → List ResolvedProvider
group n g = unwrap_or (lookup n g) []

-- The providers that the configuration declares for an enabled network, in its order.
unfoldable pub configured :
    Environment → Networks → String → List ProviderConfig → List ResolvedProvider
configured env enabled n [] = []
configured env enabled n (pc ∷ pcs) =
    if str_eq pc.network n && contains_key pc.network enabled
    then (elim (resolve_provider env pc) [
      | err e ↦ configured env enabled n pcs
      | ok p ↦ p ∷ configured env enabled n pcs
    ])
    else configured env enabled n pcs

same_text : (k m n : String) → str_eq k m ≡ true → str_eq k n ≡ str_eq m n
same_text k m n h = ap (λ x. str_eq x n) ((str_eq_iff k m).0 h)

group-push_same :
    (n m : String) (p : ResolvedProvider) (g : Groups)
    → str_eq m n ≡ true
    → group n (push_entry m p g) ≡ group n g ++ p ∷ []
group-push_same n m p [] h = rw h refl
group-push_same n m p ((k, ps) ∷ g) h = elim (Bool-cases (str_eq k m)) [
  | inl e ↦ ground (arith, same_text k m n e, e)
  | inr e ↦ elim (Bool-cases (str_eq k n)) [
    | inl f ↦ absurd (ground (arith, e, str_eq_iff k m, str_eq_iff k n, str_eq_iff m n, f, h))
    | inr f ↦ rw e (rw f (group-push_same n m p g h))
  ]
]

group-push_other :
    (n m : String) (p : ResolvedProvider) (g : Groups)
    → str_eq m n ≡ false
    → group n (push_entry m p g) ≡ group n g
group-push_other n m p [] h = rw h refl
group-push_other n m p ((k, ps) ∷ g) h = elim (Bool-cases (str_eq k m)) [
  | inl e ↦ ground (arith, same_text k m n e, e)
  | inr e ↦ ground (arith, e, group-push_other n m p g h)
]

group-sort :
    (n : String) (g : Groups) → group n (sort_groups g) ≡ sort_by priority_below (group n g)
unfolding sort_by
group-sort n [] = refl
group-sort n ((k, ps) ∷ g) = elim (Bool-cases (str_eq k n)) [
  | inl e ↦ rw e
  | inr e ↦ rw e (group-sort n g)
]

module _ (env : Environment) (enabled : Networks) (pc : ProviderConfig)
    (pcs : List ProviderConfig) where
  collect_skip :
      (g : Groups)
      → contains_key pc.network enabled ≡ false
      → collect_groups env enabled (pc ∷ pcs) g ≡ collect_groups env enabled pcs g
  unfolding collect_groups
  collect_skip g h = rw h

  collect_stop :
      (g : Groups) {e : RegistryError}
      → contains_key pc.network enabled ≡ true
      → resolve_provider env pc ≡ err e
      → collect_groups env enabled (pc ∷ pcs) g ≡ err e
  unfolding collect_groups
  collect_stop g h k = rw h (rw k)

  collect_step :
      (g : Groups) {p : ResolvedProvider}
      → contains_key pc.network enabled ≡ true
      → resolve_provider env pc ≡ ok p
      → collect_groups env enabled (pc ∷ pcs) g
        ≡ collect_groups env enabled pcs (push_entry pc.network p g)
  unfolding collect_groups
  collect_step g h k = rw h (rw k)

  configured_skip :
      (n : String)
      → (str_eq pc.network n && contains_key pc.network enabled) ≡ false
      → configured env enabled n (pc ∷ pcs) ≡ configured env enabled n pcs
  unfolding configured
  configured_skip n h = rw h

  configured_step :
      (n : String) {p : ResolvedProvider}
      → str_eq pc.network n ≡ true
      → contains_key pc.network enabled ≡ true
      → resolve_provider env pc ≡ ok p
      → configured env enabled n (pc ∷ pcs) ≡ p ∷ configured env enabled n pcs
  unfolding configured
  configured_step n h c k = rw h (rw c (rw k))

ok-injective : {a b : Groups} → ◌≡◌ {A = Result RegistryError Groups} (ok a) (ok b) → a ≡ b
ok-injective h = cc

-- The groups that the loop adds to.
collected :
    (env : Environment) (enabled : Networks) (n : String) (pcs : List ProviderConfig) (g : Groups)
    {g' : Groups}
    → collect_groups env enabled pcs g ≡ ok g'
    → group n g' ≡ group n g ++ configured env enabled n pcs
unfolding collect_groups configured
collected env enabled n [] g h = ap (group n) (sym (ok-injective h)) ∙ sym (append_nil (group n g))
collected env enabled n (pc ∷ pcs) g h = elim (Bool-cases (contains_key pc.network enabled)) [
  | inr c ↦
      collected env enabled n pcs g (sym (collect_skip env enabled pc pcs g c) ∙ h)
      ∙ ap (λ xs. group n g ++ xs) (sym (configured_skip env enabled pc pcs n (ground (arith, c))))
  | inl c ↦ elim (Result-cases (resolve_provider env pc)) [
    | inl (e, k) ↦ absurd (cc (sym (collect_stop env enabled pc pcs g c k) ∙ h))
    | inr (p, k) ↦
        let later =
          collected env enabled n pcs (push_entry pc.network p g)
            (sym (collect_step env enabled pc pcs g c k) ∙ h) in
        elim (Bool-cases (str_eq pc.network n)) [
          | inl t ↦
              later
              ∙ ap (λ xs. xs ++ configured env enabled n pcs) (group-push_same n pc.network p g t)
              ∙ append_assoc (group n g) (p ∷ []) (configured env enabled n pcs)
              ∙ ap (λ xs. group n g ++ xs) (sym (configured_step env enabled pc pcs n t c k))
          | inr f ↦
              later
              ∙ ap (λ xs. xs ++ configured env enabled n pcs) (group-push_other n pc.network p g f)
              ∙ ap (λ xs. group n g ++ xs)
                  (sym (configured_skip env enabled pc pcs n (ground (arith, f))))
        ]
  ]
]

module _ (env : Environment) (networks : Networks) (pcs : List ProviderConfig) where
  from_config_stops :
      {e : RegistryError}
      → collect_groups env (enabled_of networks) pcs [] ≡ err e
      → from_config env networks pcs ≡ err e
  unfolding from_config
  from_config_stops k = rw (k, from_config)

  from_config_builds :
      {g : Groups}
      → collect_groups env (enabled_of networks) pcs [] ≡ ok g
      → from_config env networks pcs
        ≡ ok (record { providers = sort_groups g; enabled_networks = enabled_of networks })
  unfolding from_config
  from_config_builds k = rw (k, from_config)

-- A registry that was built holds for each network exactly the providers that the configuration
-- declares for it, if it is enabled, in the order of priority, and of the configuration where
-- priorities are equal; it keeps exactly the enabled networks.
pub registry_exact :
    (env : Environment) (networks : Networks) (pcs : List ProviderConfig) (n : String)
    {r : ProviderRegistry}
    → from_config env networks pcs ≡ ok r
    → (providers_for_network r n
        ≡ sort_by priority_below (configured env (enabled_of networks) n pcs))
      × (r.enabled_networks ≡ enabled_of networks)
unfolding providers_for_network
registry_exact env networks pcs n {r} h =
    elim (Result-cases (collect_groups env (enabled_of networks) pcs [])) [
      | inl (e, k) ↦ absurd (cc (from_config_stops env networks pcs k, h))
      | inr (g, k) ↦
          let built : ◌≡◌ {A = ProviderRegistry}
              (record { providers = sort_groups g; enabled_networks = enabled_of networks }) r =
            cc (from_config_builds env networks pcs k, h) in
          (
            ap (λ (x : ProviderRegistry). group n x.providers) (sym built)
                ∙ group-sort n g
                ∙ ap (sort_by priority_below) (collected env (enabled_of networks) n pcs [] k),
            ap (λ (x : ProviderRegistry). x.enabled_networks) (sym built),
          )
    ]

-- What the construction asks of a provider on an enabled network.
unfoldable pub is_valid : Environment → ProviderConfig → Bool
is_valid env pc =
    not (is_blank pc.url)
    && all (λ s. is_some (env.parse_capability s)) pc.capabilities
    && not (is_empty pc.capabilities)
    && is_some (env.parse_kind pc.kind)

capabilities_ok :
    (env : Environment) (n : String) (ss : List String)
    → (is_ok (parse_capabilities env n ss) ≡ all (λ s. is_some (env.parse_capability s)) ss)
      × ((cs : List ProviderCapability)
          → parse_capabilities env n ss ≡ ok cs
          → is_empty cs ≡ is_empty ss)
unfolding parse_capabilities
capabilities_ok env n [] = (refl, λ cs h. ground arith)
capabilities_ok env n (s ∷ ss) =
    let (a, b) = capabilities_ok env n ss in (ground (arith, a), λ cs h. ground (arith, a))

provider_ok :
    (env : Environment) (pc : ProviderConfig) → is_ok (resolve_provider env pc) ≡ is_valid env pc
unfolding resolve_provider with_capabilities is_valid
provider_ok env pc =
    let (a, b) = capabilities_ok env pc.network pc.capabilities in
    elim (Result-cases (parse_capabilities env pc.network pc.capabilities)) [
      | inl (e, k) ↦ ground (arith, a, k)
      | inr (cs, k) ↦ ground (arith, a, k, b cs k)
    ]

collect_ok :
    (env : Environment) (enabled : Networks) (pcs : List ProviderConfig) (g : Groups)
    → is_ok (collect_groups env enabled pcs g)
      ≡ all (λ pc. not (contains_key pc.network enabled) || is_valid env pc) pcs
unfolding collect_groups
collect_ok env enabled [] g = refl
collect_ok env enabled (pc ∷ pcs) g = elim (Bool-cases (contains_key pc.network enabled)) [
  | inr c ↦ ap is_ok (collect_skip env enabled pc pcs g c) ∙ collect_ok env enabled pcs g ∙ rw c
  | inl c ↦
      let valid = provider_ok env pc in
      elim (Result-cases (resolve_provider env pc)) [
        | inl (e, k) ↦
            ap is_ok (collect_stop env enabled pc pcs g c k) ∙ ground (arith, valid, k, c)
        | inr (p, k) ↦
            ap is_ok (collect_step env enabled pc pcs g c k)
            ∙ collect_ok env enabled pcs (push_entry pc.network p g)
            ∙ ground (arith, valid, k, c)
      ]
]

-- The registry is built exactly when every provider of an enabled network has a URL that is not
-- blank, at least one capability, and only known capabilities and a known kind.
pub from_config_accepts :
    (env : Environment) (networks : Networks) (pcs : List ProviderConfig)
    → is_ok (from_config env networks pcs)
      ≡ all (λ pc. not (contains_key pc.network (enabled_of networks)) || is_valid env pc) pcs
from_config_accepts env networks pcs =
    let whole = collect_ok env (enabled_of networks) pcs [] in
    elim (Result-cases (collect_groups env (enabled_of networks) pcs [])) [
      | inl (e, k) ↦ ap is_ok (from_config_stops env networks pcs k) ∙ ap is_ok (sym k) ∙ whole
      | inr (g, k) ↦ ap is_ok (from_config_builds env networks pcs k) ∙ ap is_ok (sym k) ∙ whole
    ]

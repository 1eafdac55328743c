-- ===== src/Providers.antt =====
-- The provider registry of core/src/provider.rs: its construction from the configuration of
-- core/src/config.rs, and the resolution of a provider by network and capability. A HashMap is a
-- list of its entries. The parsers that strum derives, and the process environment, are parameters.
pub mod Registry
pub mod Resolution
mod Samples
use spectraplex.Base.{
  ℕ, String, Bool, true, false, ◌&&◌, not, Option, none, some, List, [], ◌∷◌, ◌++◌, ltb,
  if◌then◌else◌, str_eq, is_some, or_else, unwrap_or, is_empty, is_blank, select, any, find?,
  sort_by, Result, err, ok,
}

pub data ProviderKind : Type 0 where
  rpc grpc ws trace rest : ProviderKind

pub data ProviderCapability : Type 0 where
  historical balances stream logs receipts debug_trace_transaction : ProviderCapability

abbrev pub capability_eq : ProviderCapability → ProviderCapability → Bool
capability_eq historical historical = true
capability_eq balances balances = true
capability_eq stream stream = true
capability_eq logs logs = true
capability_eq receipts receipts = true
capability_eq debug_trace_transaction debug_trace_transaction = true
capability_eq _ _ = false

-- `ProviderCapability::iter()`
abbrev pub all_capabilities : List ProviderCapability
all_capabilities = historical ∷ balances ∷ stream ∷ logs ∷ receipts ∷ debug_trace_transaction ∷ []

-- What the registry asks of its surroundings.
pub record Environment : Type 0 where
  pub parse_kind : String → Option ProviderKind
  pub parse_capability : String → Option ProviderCapability
  pub env_var : String → Option String

abbrev pub Headers : Type 0
Headers = List (String × String)

pub record NetworkConfig : Type 0 where
  pub enabled : Bool

pub record ProviderConfig : Type 0 where
  pub network : String
  pub kind : String
  pub url : String
  pub priority : Option ℕ
  pub capabilities : List String
  pub token_env : Option String
  pub token : Option String
  pub headers : Option Headers

pub record ResolvedProvider : Type 0 where
  pub network : String
  pub kind : ProviderKind
  pub url : String
  pub priority : ℕ
  pub capabilities : List ProviderCapability
  pub token : Option String
  pub headers : Headers

-- The messages of RegistryError::Validation, with the values that they print.
pub data RegistryError : Type 0 where
  empty_url : (network : String) → RegistryError
  unknown_capability : (capability network : String) → RegistryError
  no_capabilities : (network kind : String) → RegistryError
  unknown_kind : (kind network : String) → RegistryError

abbrev pub Networks : Type 0
Networks = List (String × NetworkConfig)

abbrev pub Groups : Type 0
Groups = List (String × List ResolvedProvider)

pub record ProviderRegistry : Type 0 where
  pub providers : Groups
  pub enabled_networks : Networks

abbrev pub contains_key : String → Networks → Bool
contains_key n = any (λ (kv : String × NetworkConfig). str_eq kv.0 n)

abbrev pub enabled_of : Networks → Networks
enabled_of = select (λ (kv : String × NetworkConfig). let (k, c) = kv in c.enabled)

-- `grouped.get(n)`
abbrev pub lookup : String → Groups → Option (List ResolvedProvider)
lookup n [] = none
lookup n ((k, ps) ∷ g) = if str_eq k n then some ps else lookup n g

-- `grouped.entry(n).or_default().push(p)`
abbrev pub push_entry : String → ResolvedProvider → Groups → Groups
push_entry n p [] = (n, p ∷ []) ∷ []
push_entry n p ((k, ps) ∷ g) =
    if str_eq k n then (k, ps ++ p ∷ []) ∷ g else (k, ps) ∷ push_entry n p g

-- `sort_by_key(|p| p.priority)`
abbrev pub priority_below : ResolvedProvider → ResolvedProvider → Bool
priority_below a b = ltb a.priority b.priority

abbrev pub sort_groups : Groups → Groups
sort_groups [] = []
sort_groups ((k, ps) ∷ g) = (k, sort_by priority_below ps) ∷ sort_groups g

module _ (env : Environment) where
  pub parse_capabilities : String → List String → Result RegistryError (List ProviderCapability)
  parse_capabilities network [] = ok []
  parse_capabilities network (s ∷ ss) = elim (env.parse_capability s) [
    | none ↦ err (unknown_capability s network)
    | some c ↦ elim (parse_capabilities network ss) [ err e ↦ err e | ok cs ↦ ok (c ∷ cs) ]
  ]

  -- The direct token comes first, then the variable that `token_env` names.
  pub resolve_token : ProviderConfig → Option String
  resolve_token pc =
      or_else pc.token (elim pc.token_env [ none ↦ none | some name ↦ env.env_var name ])

  abbrev resolved : ProviderConfig → ProviderKind → List ProviderCapability → ResolvedProvider
  resolved pc kind capabilities = record {
    network = pc.network;
    kind = kind;
    url = pc.url;
    priority = unwrap_or pc.priority 1;
    capabilities = capabilities;
    token = resolve_token pc;
    headers = unwrap_or pc.headers [];
  }

  pub with_capabilities :
      ProviderConfig → List ProviderCapability → Result RegistryError ResolvedProvider
  with_capabilities pc capabilities =
      if is_empty capabilities
      then err (no_capabilities pc.network pc.kind)
      else elim (env.parse_kind pc.kind) [
        | none ↦ err (unknown_kind pc.kind pc.network)
        | some kind ↦ ok (resolved pc kind capabilities)
      ]

  -- The body of the loop, for a network that is enabled.
  pub resolve_provider : ProviderConfig → Result RegistryError ResolvedProvider
  resolve_provider pc =
      if is_blank pc.url
      then err (empty_url pc.network)
      else elim (parse_capabilities pc.network pc.capabilities) [
        | err e ↦ err e
        | ok capabilities ↦ with_capabilities pc capabilities
      ]

  pub collect_groups : Networks → List ProviderConfig → Groups → Result RegistryError Groups
  collect_groups enabled [] g = ok g
  collect_groups enabled (pc ∷ pcs) g =
      if not (contains_key pc.network enabled)
      then collect_groups enabled pcs g
      else elim (resolve_provider pc) [
        | err e ↦ err e
        | ok p ↦ collect_groups enabled pcs (push_entry pc.network p g)
      ]

  pub from_config : Networks → List ProviderConfig → Result RegistryError ProviderRegistry
  from_config networks providers = elim (collect_groups (enabled_of networks) providers []) [
    | err e ↦ err e
    | ok g ↦ ok (record { providers = sort_groups g; enabled_networks = enabled_of networks })
  ]

-- `p.capabilities.contains(&capability)`
abbrev pub offers : ProviderCapability → ResolvedProvider → Bool
offers capability p = any (capability_eq capability) p.capabilities

pub resolve_best : ProviderRegistry → String → ProviderCapability → Option ResolvedProvider
resolve_best r network capability = elim (lookup network r.providers) [
  | none ↦ none
  | some ps ↦ find? (offers capability) ps
]

pub resolve_all : ProviderRegistry → String → ProviderCapability → List ResolvedProvider
resolve_all r network capability = elim (lookup network r.providers) [
  | none ↦ []
  | some ps ↦ select (offers capability) ps
]

pub providers_for_network : ProviderRegistry → String → List ResolvedProvider
providers_for_network r network = unwrap_or (lookup network r.providers) []

pub is_network_enabled : ProviderRegistry → String → Bool
is_network_enabled r network = contains_key network r.enabled_networks

pub registry_has_capability : ProviderRegistry → String → ProviderCapability → Bool
registry_has_capability r network capability = is_some (resolve_best r network capability)

pub record NetworkContext : Type 0 where
  pub network : String
  pub providers : List (ProviderCapability × ResolvedProvider)

pub context_entries :
    ProviderRegistry
    → String
    → List ProviderCapability
    → List (ProviderCapability × ResolvedProvider)
context_entries r network [] = []
context_entries r network (c ∷ cs) = elim (resolve_best r network c) [
  | none ↦ context_entries r network cs
  | some p ↦ (c, p) ∷ context_entries r network cs
]

pub from_registry : ProviderRegistry → String → Option NetworkContext
from_registry r network =
    if not (is_network_enabled r network)
    then none
    else some (record { network = network; providers = context_entries r network all_capabilities })

abbrev pub get_capability :
    ProviderCapability → List (ProviderCapability × ResolvedProvider) → Option ResolvedProvider
get_capability c [] = none
get_capability c ((k, p) ∷ entries) = if capability_eq k c then some p else get_capability c entries

pub context_provider : NetworkContext → ProviderCapability → Option ResolvedProvider
context_provider x capability = get_capability capability x.providers

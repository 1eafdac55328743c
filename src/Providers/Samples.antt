-- ===== src/Providers/Samples.antt =====
-- A configuration with two providers of one network, and the theorems at that input.
use spectraplex.Base.{
  ◌≤◌, true, false, not, ◌||◌, ◌≡◌, refl, none, some, List, [], ◌∷◌, str_eq, all, In, head,
  insert_by, sort_by, ok, is_ok, if◌then◌else◌,
}
use spectraplex.Providers.{
  Environment, ProviderConfig, rpc, ws, historical, balances, ResolvedProvider, Networks,
  ProviderRegistry, contains_key, enabled_of, priority_below, offers, parse_capabilities,
  resolve_token, with_capabilities, resolve_provider, collect_groups, from_config,
  providers_for_network, resolve_best, resolve_all, is_network_enabled,
}
use spectraplex.Providers.Registry.{configured, is_valid, registry_exact, from_config_accepts}
use spectraplex.Providers.Resolution.{best_resolved}

abbrev env : Environment
env = record {
  parse_kind = λ s. if str_eq s "rpc" then some rpc else if str_eq s "ws" then some ws else none;
  parse_capability = λ s.
      if str_eq s "historical"
      then some historical
      else if str_eq s "balances"
      then some balances
      else none;
  env_var = λ s. none;
}

abbrev slow : ProviderConfig
slow = record {
  network = "solana-mainnet";
  kind = "rpc";
  url = "https://slow.example";
  priority = some 5;
  capabilities = "historical" ∷ "balances" ∷ [];
  token_env = none;
  token = none;
  headers = none;
}

abbrev fast : ProviderConfig
fast = record slow {
  url = "https://fast.example";
  priority = none;
  capabilities = "historical" ∷ [];
}

abbrev networks : Networks
networks =
    ("solana-mainnet", record { enabled = true })
    ∷ ("base-mainnet", record { enabled = false })
    ∷ []

abbrev providers : List ProviderConfig
providers = slow ∷ fast ∷ record fast { network = "base-mainnet" } ∷ []

abbrev slow_provider : ResolvedProvider
slow_provider = record {
  network = "solana-mainnet";
  kind = rpc;
  url = "https://slow.example";
  priority = 5;
  capabilities = historical ∷ balances ∷ [];
  token = none;
  headers = [];
}

abbrev fast_provider : ResolvedProvider
fast_provider = record slow_provider {
  url = "https://fast.example";
  priority = 1;
  capabilities = historical ∷ [];
}

abbrev registry : ProviderRegistry
registry = record {
  providers = ("solana-mainnet", fast_provider ∷ slow_provider ∷ []) ∷ [];
  enabled_networks = ("solana-mainnet", record { enabled = true }) ∷ [];
}

program : Unit {0}
unfolding parse_capabilities resolve_token with_capabilities resolve_provider collect_groups
    from_config insert_by sort_by configured is_valid resolve_best resolve_all is_network_enabled
program = tt

built : from_config env networks providers ≡ ok registry
unfolding program
built = refl

registry_exact_example :
    (providers_for_network registry "solana-mainnet"
      ≡ sort_by priority_below (configured env (enabled_of networks) "solana-mainnet" providers))
    × (registry.enabled_networks ≡ enabled_of networks)
registry_exact_example = registry_exact env networks providers "solana-mainnet" built

from_config_accepts_example :
    is_ok (from_config env networks providers)
    ≡ all (λ pc. not (contains_key pc.network (enabled_of networks)) || is_valid env pc) providers
from_config_accepts_example = from_config_accepts env networks providers

best_resolved_example :
    (p : ResolvedProvider) × (resolve_best registry "solana-mainnet" historical ≡ some p)
    × In p (configured env (enabled_of networks) "solana-mainnet" providers)
    × (offers historical p ≡ true)
    × (p.priority ≤ 5)
unfolding program
best_resolved_example =
    best_resolved env networks providers "solana-mainnet" historical {s = slow_provider} built head
      refl

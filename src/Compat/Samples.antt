-- ===== src/Compat/Samples.antt =====
-- Sample checkpoints and networks, and the theorems on them.
use spectraplex.Base.{String, false, ◌≡◌, ◌↔◌, ◌⊎◌, refl, none, some, List, [], ◌∷◌, pos, select}
use spectraplex.Target.{evm, solana_chain, ethereum_chain}
use spectraplex.Compat.{
  IndexerCheckpoint, in_family, resolve_effective_network, v1_checkpoint_to_v2_with_network,
  v2_checkpoint_to_v1, network_to_chain, network_to_source,
}
use spectraplex.Compat.Checkpoints.{
  own_fields, v2_checkpoint_to_v1-v1_checkpoint_to_v2_with_network,
}
use spectraplex.Compat.Networks.{resolve_known}

abbrev checkpoint : IndexerCheckpoint
checkpoint = record {
  chain = solana_chain;
  wallet_address = "wallet";
  last_signature = some "sig";
  last_slot = none;
  last_block = some (pos 7);
  last_timestamp = none;
}

layer_two_runs : network_to_chain "base-mainnet" ≡ ethereum_chain
unfolding network_to_chain
layer_two_runs = refl

rest_source_runs : network_to_source "hypercore-mainnet" ≡ "rest"
unfolding network_to_source
rest_source_runs = refl

v2_checkpoint_to_v1-v1_checkpoint_to_v2_with_network_example :
    v2_checkpoint_to_v1
      (v1_checkpoint_to_v2_with_network checkpoint 1 (some "solana-devnet"))
      solana_chain
      "wallet"
    ≡ own_fields checkpoint
v2_checkpoint_to_v1-v1_checkpoint_to_v2_with_network_example =
    v2_checkpoint_to_v1-v1_checkpoint_to_v2_with_network checkpoint 1 (some "solana-devnet")

abbrev networks : List String
networks = "solana-mainnet" ∷ "base-mainnet" ∷ []

resolve_known_example :
    (resolve_effective_network ethereum_chain none (some networks) ≡ ("base-mainnet", false)) ↔ (
      (found : List String) × (some networks ≡ some found)
      × ((found ≡ "base-mainnet" ∷ []) ⊎ (select (in_family evm) found ≡ "base-mainnet" ∷ [])))
resolve_known_example = resolve_known ethereum_chain (some networks) "base-mainnet"

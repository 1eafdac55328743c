-- ===== src/Compat/Checkpoints.antt =====
-- That checkpoints survive the way to V2 and back.
use spectraplex.Base.{ℕ, ℤ, String, ◌≡◌, refl, Option, none, some, arith}
use spectraplex.Target.{Chain, solana_chain, hyperliquid_chain, ethereum_chain}
use spectraplex.Compat.{
  IndexerCheckpoint, build_v2_cursor, v1_checkpoint_to_v2_with_network, v2_checkpoint_to_v1,
  v1_checkpoint_to_cursor, cursor_to_v1_checkpoint, chain_str_to_enum, as_str, as_i64, json_option,
  string, integer,
}

-- The fields of a checkpoint that its chain uses.
abbrev pub own_fields : IndexerCheckpoint → IndexerCheckpoint
own_fields cp = elim (cp.chain) [
  | solana_chain ↦ record {
    chain = solana_chain;
    wallet_address = cp.wallet_address;
    last_signature = cp.last_signature;
    last_slot = cp.last_slot;
    last_block = none;
    last_timestamp = none;
  }
  | ethereum_chain ↦ record {
    chain = ethereum_chain;
    wallet_address = cp.wallet_address;
    last_signature = none;
    last_slot = none;
    last_block = cp.last_block;
    last_timestamp = none;
  }
  | hyperliquid_chain ↦ record {
    chain = hyperliquid_chain;
    wallet_address = cp.wallet_address;
    last_signature = none;
    last_slot = none;
    last_block = none;
    last_timestamp = cp.last_timestamp;
  }
]

-- A V1 checkpoint comes back from V2 with the fields that its chain uses, and no others, whatever
-- the network it is stored under.
pub v2_checkpoint_to_v1-v1_checkpoint_to_v2_with_network :
    (cp : IndexerCheckpoint) (target_id : ℕ) (network : Option String)
    → v2_checkpoint_to_v1
        (v1_checkpoint_to_v2_with_network cp target_id network)
        cp.chain
        cp.wallet_address
      ≡ own_fields cp
unfolding v2_checkpoint_to_v1 v1_checkpoint_to_v2_with_network build_v2_cursor
v2_checkpoint_to_v1-v1_checkpoint_to_v2_with_network cp target_id network =
    by_chain cp.chain cp.wallet_address cp.last_signature cp.last_slot cp.last_block
      cp.last_timestamp
  where
    by_chain :
        (c : Chain) (w : String) (g : Option String) (s b t : Option ℤ)
        → v2_checkpoint_to_v1
            (v1_checkpoint_to_v2_with_network
              (record {
                chain = c;
                wallet_address = w;
                last_signature = g;
                last_slot = s;
                last_block = b;
                last_timestamp = t;
              })
              target_id
              network)
            c
            w
          ≡ own_fields (record {
            chain = c;
            wallet_address = w;
            last_signature = g;
            last_slot = s;
            last_block = b;
            last_timestamp = t;
          })
    by_chain solana_chain w none none b t = refl
    by_chain solana_chain w none (some s) b t = refl
    by_chain solana_chain w (some g) none b t = refl
    by_chain solana_chain w (some g) (some s) b t = refl
    by_chain ethereum_chain w g s none t = refl
    by_chain ethereum_chain w g s (some b) t = refl
    by_chain hyperliquid_chain w g s b none = refl
    by_chain hyperliquid_chain w g s b (some t) = refl

read_string : (g : Option String) → as_str (some (json_option string g)) ≡ g
read_string none = refl
read_string (some g) = refl

read_integer : (n : Option ℤ) → as_i64 (some (json_option integer n)) ≡ n
read_integer none = refl
read_integer (some n) = refl

-- The cursor of a V1 checkpoint is read back as that checkpoint, under the name of its chain and with
-- its wallet.
cursor_to_v1_checkpoint-v1_checkpoint_to_cursor :
    (cp : IndexerCheckpoint) (name : String)
    → chain_str_to_enum name ≡ some cp.chain
    → cursor_to_v1_checkpoint name cp.wallet_address (v1_checkpoint_to_cursor cp) ≡ some cp
unfolding cursor_to_v1_checkpoint v1_checkpoint_to_cursor
cursor_to_v1_checkpoint-v1_checkpoint_to_cursor cp name h = ground (
  arith,
  h,
  read_string cp.last_signature,
  read_integer cp.last_slot,
  read_integer cp.last_block,
  read_integer cp.last_timestamp,
)

-- ===== src/Compat.antt =====
-- The V1 side of the ingestion: the maps between V1 chains and V2 networks, the checkpoints in both
-- forms and the network of a V1 transaction (adapters/src/dual_write.rs, adapters/src/compat.rs and
-- api/src/worker.rs).
pub mod Checkpoints
pub mod Networks
mod Samples
use Prim.Native.Char.{code}
use Prim.Native.String
use mathlib.Core.Option
use text.Mathlib.Text.{starts_with}
use spectraplex.Base.{
  ℕ, ℤ, String, Bool, true, false, ◌&&◌, ◌||◌, Option, none, some, List, [], ◌∷◌, ◌++◌, ltb, ◌==◌,
  if◌then◌else◌, is_empty, or_else, str_eq, find?, select, first_by,
}
use spectraplex.Target.{
  Chain, solana_chain, hyperliquid_chain, ethereum_chain, ChainFamily, solana, evm, hyperliquid,
  family_eq,
}
use spectraplex.Dataset.{chain_family_for_network}

abbrev pub chain_to_default_network : Chain → String
chain_to_default_network solana_chain = "solana-mainnet"
chain_to_default_network ethereum_chain = "ethereum-mainnet"
chain_to_default_network hyperliquid_chain = "hypercore-mainnet"

abbrev pub chain_to_default_source : Chain → String
chain_to_default_source solana_chain = "rpc"
chain_to_default_source ethereum_chain = "rpc"
chain_to_default_source hyperliquid_chain = "rest"

abbrev pub chain_to_family : Chain → ChainFamily
chain_to_family solana_chain = solana
chain_to_family ethereum_chain = evm
chain_to_family hyperliquid_chain = hyperliquid

abbrev pub chain_str_to_enum : String → Option Chain
chain_str_to_enum chain =
    if str_eq chain "solana"
    then some solana_chain
    else if str_eq chain "ethereum"
    then some ethereum_chain
    else if str_eq chain "hyperliquid"
    then some hyperliquid_chain
    else none

unfoldable pub network_to_chain : String → Chain
network_to_chain network =
    if starts_with network "solana"
    then solana_chain
    else if starts_with network "hypercore" || starts_with network "hyperliquid"
    then hyperliquid_chain
    else ethereum_chain

unfoldable pub network_to_source : String → String
network_to_source network =
    if starts_with network "solana"
    then "rpc"
    else if starts_with network "hypercore" || starts_with network "hyperliquid"
    then "rest"
    else "rpc"

-- The JSON values that a cursor object holds; a number here is an `i64`.
pub data Json : Type 0 where
  null : Json
  boolean : Bool → Json
  string : String → Json
  integer : ℤ → Json

abbrev pub Cursor : Type 0
Cursor = List (String × Json)

-- `cursor.get(field)`
abbrev pub get : String → Cursor → Option Json
get field c =
    Option.map (λ (p : String × Json). p.1) (find? (λ (p : String × Json). str_eq p.0 field) c)

abbrev pub as_str : Option Json → Option String
as_str (some (string s)) = some s
as_str _ = none

abbrev pub as_i64 : Option Json → Option ℤ
as_i64 (some (integer n)) = some n
as_i64 _ = none

abbrev pub as_bool : Option Json → Option Bool
as_bool (some (boolean b)) = some b
as_bool _ = none

pub record IndexerCheckpoint : Type 0 where
  pub chain : Chain
  pub wallet_address : String
  pub last_signature : Option String
  pub last_slot : Option ℤ
  pub last_block : Option ℤ
  pub last_timestamp : Option ℤ

pub record Checkpoint : Type 0 where
  pub target_id : ℕ
  pub network : String
  pub source : String
  pub cursor : Cursor

-- `cursor.insert(field, …)` of a field that is there only if it has a value.
abbrev pub insert_some {ℓ} : {A : Type ℓ} → String → (A → Json) → Option A → Cursor
insert_some field f none = []
insert_some field f (some a) = (field, f a) ∷ []

unfoldable pub build_v2_cursor : IndexerCheckpoint → Cursor
build_v2_cursor cp = elim (cp.chain) [
  | solana_chain ↦
      insert_some "last_signature" string cp.last_signature
      ++ insert_some "last_slot" integer cp.last_slot
  | ethereum_chain ↦ insert_some "last_block" integer cp.last_block
  | hyperliquid_chain ↦ insert_some "last_timestamp" integer cp.last_timestamp
]

unfoldable pub v1_checkpoint_to_v2_with_network : IndexerCheckpoint → ℕ → Option String → Checkpoint
v1_checkpoint_to_v2_with_network cp target_id explicit_network = record {
  target_id = target_id;
  network = elim explicit_network [ none ↦ chain_to_default_network cp.chain | some n ↦ n ];
  source = chain_to_default_source cp.chain;
  cursor = build_v2_cursor cp;
}

unfoldable pub v2_checkpoint_to_v1 : Checkpoint → Chain → String → IndexerCheckpoint
v2_checkpoint_to_v1 v2 chain wallet_address = record {
  chain = chain;
  wallet_address = wallet_address;
  last_signature = as_str (get "last_signature" v2.cursor);
  last_slot = as_i64 (get "last_slot" v2.cursor);
  last_block = as_i64 (get "last_block" v2.cursor);
  last_timestamp = as_i64 (get "last_timestamp" v2.cursor);
}

-- A field of `json!`, which is null where there is no value.
abbrev pub json_option {ℓ} : {A : Type ℓ} → (A → Json) → Option A → Json
json_option f none = null
json_option f (some a) = f a

unfoldable pub v1_checkpoint_to_cursor : IndexerCheckpoint → Cursor
v1_checkpoint_to_cursor cp =
    ("v1_compat", boolean true)
    ∷ ("last_signature", json_option string cp.last_signature)
    ∷ ("last_slot", json_option integer cp.last_slot)
    ∷ ("last_block", json_option integer cp.last_block)
    ∷ ("last_timestamp", json_option integer cp.last_timestamp)
    ∷ []

unfoldable pub cursor_to_v1_checkpoint : String → String → Cursor → Option IndexerCheckpoint
cursor_to_v1_checkpoint chain wallet cursor = elim (as_bool (get "v1_compat" cursor)) [
  | none ↦ none
  | some false ↦ none
  | some true ↦ elim (chain_str_to_enum chain) [
    | none ↦ none
    | some chain_enum ↦ some record {
      chain = chain_enum;
      wallet_address = wallet;
      last_signature = as_str (get "last_signature" cursor);
      last_slot = as_i64 (get "last_slot" cursor);
      last_block = as_i64 (get "last_block" cursor);
      last_timestamp = as_i64 (get "last_timestamp" cursor);
    }
  ]
]

-- The order of `String`: UTF-8 keeps the order of the code points.
pub text_before : String → String → Bool
text_before String.[] String.[] = false
text_before String.[] (String.◌∷◌ d t) = true
text_before (String.◌∷◌ c s) String.[] = false
text_before (String.◌∷◌ c s) (String.◌∷◌ d t) =
    ltb (code c) (code d) || (code c == code d && text_before s t)

abbrev pub in_family : ChainFamily → String → Bool
in_family family network = elim (chain_family_for_network network) [
  | none ↦ false
  | some f ↦ family_eq f family
]

-- Several networks have the transaction, of which some are of its family: one of these, or a guess.
abbrev pub pick_network : Chain → List String → List String → String × Bool
pick_network chain networks [] = elim (first_by text_before networks) [
  | some first ↦ (first, true)
  | none ↦ (chain_to_default_network chain, true)
]
pick_network chain networks (network ∷ []) = (network, false)
pick_network chain networks (network ∷ other ∷ rest) =
    let family_matches = network ∷ other ∷ rest in
    let default = chain_to_default_network chain in
    elim (or_else (find? (λ n. str_eq n default) family_matches)
      (first_by text_before family_matches)) [ some pick ↦ (pick, true) | none ↦ (default, true) ]

-- The network, and whether it is inferred; `bronze` are the networks that have the hash.
unfoldable pub resolve_effective_network :
    Chain → Option String → Option (List String) → String × Bool
resolve_effective_network chain (some n) bronze = (n, false)
resolve_effective_network chain none none = (chain_to_default_network chain, true)
resolve_effective_network chain none (some networks) = elim networks [
  | network ∷ [] ↦ (network, false)
  | others ↦ pick_network chain others (select (in_family (chain_to_family chain)) others)
]

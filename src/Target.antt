-- ===== src/Target.antt =====
-- Index targets: core/src/v2.rs (chain families, target kinds and modes), core/src/models.rs (the
-- V1 chains), core/src/connector.rs (validation and capabilities), and the enum codecs of
-- adapters/src/v2_repo.rs. A JSON document is modelled by what the code reads of it.
pub mod Codec
pub mod Validation
mod Samples
use spectraplex.Base.{
  ℕ, String, Bool, true, false, ◌&&◌, ◌||◌, not, Option, none, some, List, [], ◌∷◌, ◌++◌, leb,
  if◌then◌else◌, str_eq, any, i64_max, is_none,
}

pub data ChainFamily : Type 0 where
  solana evm hyperliquid : ChainFamily

pub data Chain : Type 0 where
  solana_chain hyperliquid_chain ethereum_chain : Chain

-- `From<Chain> for ChainFamily`
unfoldable pub family_of_chain : Chain → ChainFamily
family_of_chain solana_chain = solana
family_of_chain ethereum_chain = evm
family_of_chain hyperliquid_chain = hyperliquid

abbrev pub family_eq : ChainFamily → ChainFamily → Bool
family_eq solana solana = true
family_eq evm evm = true
family_eq hyperliquid hyperliquid = true
family_eq _ _ = false

pub data TargetKind : Type 0 where
  wallet contract program account topic_filter market pool protocol : TargetKind

abbrev pub kind_eq : TargetKind → TargetKind → Bool
kind_eq wallet wallet = true
kind_eq contract contract = true
kind_eq program program = true
kind_eq account account = true
kind_eq topic_filter topic_filter = true
kind_eq market market = true
kind_eq pool pool = true
kind_eq protocol protocol = true
kind_eq _ _ = false

pub valid_for_chain_family : TargetKind → ChainFamily → Bool
valid_for_chain_family wallet _ = true
valid_for_chain_family contract evm = true
valid_for_chain_family contract _ = false
valid_for_chain_family program solana = true
valid_for_chain_family program _ = false
valid_for_chain_family account solana = true
valid_for_chain_family account evm = true
valid_for_chain_family account hyperliquid = false
valid_for_chain_family topic_filter evm = true
valid_for_chain_family topic_filter _ = false
valid_for_chain_family market hyperliquid = true
valid_for_chain_family market _ = false
valid_for_chain_family pool solana = true
valid_for_chain_family pool evm = true
valid_for_chain_family pool hyperliquid = false
valid_for_chain_family protocol solana = true
valid_for_chain_family protocol evm = true
valid_for_chain_family protocol hyperliquid = false

pub data TargetMode : Type 0 where
  backfill stream both : TargetMode

abbrev pub mode_eq : TargetMode → TargetMode → Bool
mode_eq backfill backfill = true
mode_eq stream stream = true
mode_eq both both = true
mode_eq _ _ = false

-- `filter_spec` as validate_target reads it: what `get("from_block")` gives, and of such a value
-- its `as_u64()`.
pub record FilterSpec : Type 0 where
  pub from_block : Option (Option ℕ)

-- The fields of IndexTarget that these functions read.
pub record IndexTarget : Type 0 where
  pub kind : TargetKind
  pub network : String
  pub chain_family : ChainFamily
  pub address : Option String
  pub filter_spec : Option FilterSpec
  pub mode : TargetMode

pub data TargetError : Type 0 where
  kind_not_valid address_required bad_from_block filter_spec_required : TargetError

abbrev pub is_complex : TargetKind → Bool
is_complex topic_filter = true
is_complex protocol = true
is_complex _ = false

abbrev pub blank : Option String → Bool
blank none = true
blank (some a) = str_eq a ""

abbrev pub out_of_range : Option ℕ → Bool
out_of_range none = true
out_of_range (some n) = not (leb n i64_max)

abbrev pub from_block_of : Option FilterSpec → Option (Option ℕ)
from_block_of none = none
from_block_of (some f) = f.from_block

abbrev push_if : Bool → TargetError → List TargetError → List TargetError
push_if b e errors = if b then errors ++ e ∷ [] else errors

pub from_block_bad : Option (Option ℕ) → ChainFamily → Bool
from_block_bad none family = false
from_block_bad (some block) family = not (family_eq family evm) || out_of_range block

-- The errors in the order in which they are pushed; `Ok` is no error.
pub validate_target : IndexTarget → List TargetError
unfolding valid_for_chain_family from_block_bad
validate_target t =
    let errors1 = push_if (not (valid_for_chain_family t.kind t.chain_family)) kind_not_valid [] in
    let errors2 = push_if (not (is_complex t.kind) && blank t.address) address_required errors1 in
    let errors3 =
      push_if (from_block_bad (from_block_of t.filter_spec) t.chain_family) bad_from_block
        errors2 in
    push_if (is_complex t.kind && is_none t.filter_spec) filter_spec_required errors3

pub record ConnectorCapabilities : Type 0 where
  pub supported_target_kinds : List TargetKind
  pub supported_modes : List TargetMode
  pub chain_family : ChainFamily

pub supports_target_kind : ConnectorCapabilities → TargetKind → Bool
supports_target_kind c kind = any (kind_eq kind) c.supported_target_kinds

pub supports_mode : ConnectorCapabilities → TargetMode → Bool
supports_mode c both =
    any (mode_eq backfill) c.supported_modes || any (mode_eq both) c.supported_modes
supports_mode c mode = any (mode_eq mode) c.supported_modes

pub can_service : ConnectorCapabilities → IndexTarget → Bool
unfolding supports_target_kind
can_service c t = family_eq c.chain_family t.chain_family && supports_target_kind c t.kind

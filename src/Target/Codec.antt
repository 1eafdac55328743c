-- ===== src/Target/Codec.antt =====
-- The enum codecs of adapters/src/v2_repo.rs; `none` is the error "Unknown …".
use spectraplex.Base.{
  String, ◌≡◌, ◌↔◌, refl, Option, none, some, arith, str_eq, str_eq_iff, if◌then◌else◌,
}
use spectraplex.Target.{
  ChainFamily, solana, evm, hyperliquid, TargetKind, wallet, contract, program, account,
  topic_filter, market, pool, protocol, TargetMode, backfill, stream, both,
}

pub data DatasetVersionStatus : Type 0 where
  active superseded failed : DatasetVersionStatus

pub data CompletenessStatus : Type 0 where
  partial complete backfilling gap : CompletenessStatus

pub chain_family_to_sql : ChainFamily → String
chain_family_to_sql solana = "solana"
chain_family_to_sql evm = "evm"
chain_family_to_sql hyperliquid = "hyperliquid"

pub sql_to_chain_family : String → Option ChainFamily
sql_to_chain_family s =
    if str_eq s "solana"
    then some solana
    else if str_eq s "evm"
    then some evm
    else if str_eq s "hyperliquid"
    then some hyperliquid
    else none

pub target_kind_to_sql : TargetKind → String
target_kind_to_sql wallet = "wallet"
target_kind_to_sql contract = "contract"
target_kind_to_sql program = "program"
target_kind_to_sql account = "account"
target_kind_to_sql topic_filter = "topic_filter"
target_kind_to_sql market = "market"
target_kind_to_sql pool = "pool"
target_kind_to_sql protocol = "protocol"

pub sql_to_target_kind : String → Option TargetKind
sql_to_target_kind s =
    if str_eq s "wallet"
    then some wallet
    else if str_eq s "contract"
    then some contract
    else if str_eq s "program"
    then some program
    else if str_eq s "account"
    then some account
    else if str_eq s "topic_filter"
    then some topic_filter
    else if str_eq s "market"
    then some market
    else if str_eq s "pool"
    then some pool
    else if str_eq s "protocol"
    then some protocol
    else none

pub target_mode_to_sql : TargetMode → String
target_mode_to_sql backfill = "backfill"
target_mode_to_sql stream = "stream"
target_mode_to_sql both = "both"

pub sql_to_target_mode : String → Option TargetMode
sql_to_target_mode s =
    if str_eq s "backfill"
    then some backfill
    else if str_eq s "stream"
    then some stream
    else if str_eq s "both"
    then some both
    else none

pub dataset_version_status_to_sql : DatasetVersionStatus → String
dataset_version_status_to_sql active = "active"
dataset_version_status_to_sql superseded = "superseded"
dataset_version_status_to_sql failed = "failed"

pub sql_to_dataset_version_status : String → Option DatasetVersionStatus
sql_to_dataset_version_status s =
    if str_eq s "active"
    then some active
    else if str_eq s "superseded"
    then some superseded
    else if str_eq s "failed"
    then some failed
    else none

pub completeness_status_to_sql : CompletenessStatus → String
completeness_status_to_sql partial = "partial"
completeness_status_to_sql complete = "complete"
completeness_status_to_sql backfilling = "backfilling"
completeness_status_to_sql gap = "gap"

pub sql_to_completeness_status : String → Option CompletenessStatus
sql_to_completeness_status s =
    if str_eq s "partial"
    then some partial
    else if str_eq s "complete"
    then some complete
    else if str_eq s "backfilling"
    then some backfilling
    else if str_eq s "gap"
    then some gap
    else none

-- A decoder accepts exactly the text that the encoder gives.
abbrev pub IsExactCodec : {A : Type 0} → (A → String) → (String → Option A) → Type 0
IsExactCodec {A} encode decode = (s : String) (a : A) → (decode s ≡ some a) ↔ (s ≡ encode a)

chain_family-roundtrip : (a : ChainFamily) → sql_to_chain_family (chain_family_to_sql a) ≡ some a
unfolding sql_to_chain_family chain_family_to_sql
chain_family-roundtrip solana = refl
chain_family-roundtrip _ = refl

chain_family-exact : IsExactCodec chain_family_to_sql sql_to_chain_family
unfolding sql_to_chain_family chain_family_to_sql
chain_family-exact s a = (
  λ h. ground (arith, str_eq_iff s "solana", str_eq_iff s "evm", str_eq_iff s "hyperliquid"),
  λ e. rw e (chain_family-roundtrip a),
)

target_kind-roundtrip : (a : TargetKind) → sql_to_target_kind (target_kind_to_sql a) ≡ some a
unfolding sql_to_target_kind target_kind_to_sql
target_kind-roundtrip wallet = refl
target_kind-roundtrip _ = refl

target_kind-exact : IsExactCodec target_kind_to_sql sql_to_target_kind
unfolding sql_to_target_kind target_kind_to_sql
target_kind-exact s a = (
  λ h. ground (
    arith,
    str_eq_iff s "wallet",
    str_eq_iff s "contract",
    str_eq_iff s "program",
    str_eq_iff s "account",
    str_eq_iff s "topic_filter",
    str_eq_iff s "market",
    str_eq_iff s "pool",
    str_eq_iff s "protocol",
  ),
  λ e. rw e (target_kind-roundtrip a),
)

target_mode-roundtrip : (a : TargetMode) → sql_to_target_mode (target_mode_to_sql a) ≡ some a
unfolding sql_to_target_mode target_mode_to_sql
target_mode-roundtrip backfill = refl
target_mode-roundtrip _ = refl

target_mode-exact : IsExactCodec target_mode_to_sql sql_to_target_mode
unfolding sql_to_target_mode target_mode_to_sql
target_mode-exact s a = (
  λ h. ground (arith, str_eq_iff s "backfill", str_eq_iff s "stream", str_eq_iff s "both"),
  λ e. rw e (target_mode-roundtrip a),
)

version_status-roundtrip :
    (a : DatasetVersionStatus)
    → sql_to_dataset_version_status (dataset_version_status_to_sql a) ≡ some a
unfolding sql_to_dataset_version_status dataset_version_status_to_sql
version_status-roundtrip active = refl
version_status-roundtrip _ = refl

version_status-exact : IsExactCodec dataset_version_status_to_sql sql_to_dataset_version_status
unfolding sql_to_dataset_version_status dataset_version_status_to_sql
version_status-exact s a = (
  λ h. ground (arith, str_eq_iff s "active", str_eq_iff s "superseded", str_eq_iff s "failed"),
  λ e. rw e (version_status-roundtrip a),
)

completeness-roundtrip :
    (a : CompletenessStatus) → sql_to_completeness_status (completeness_status_to_sql a) ≡ some a
unfolding sql_to_completeness_status completeness_status_to_sql
completeness-roundtrip partial = refl
completeness-roundtrip _ = refl

completeness-exact : IsExactCodec completeness_status_to_sql sql_to_completeness_status
unfolding sql_to_completeness_status completeness_status_to_sql
completeness-exact s a = (
  λ h. ground (
    arith,
    str_eq_iff s "partial",
    str_eq_iff s "complete",
    str_eq_iff s "backfilling",
    str_eq_iff s "gap",
  ),
  λ e. rw e (completeness-roundtrip a),
)

-- Each of the five enum codecs of the repository decodes a text to a value exactly when the text is
-- the one that encodes the value: encoding and decoding are inverse, and all else is an error.
pub sql_codecs_exact :
    IsExactCodec chain_family_to_sql sql_to_chain_family
    × IsExactCodec target_kind_to_sql sql_to_target_kind
    × IsExactCodec target_mode_to_sql sql_to_target_mode
    × IsExactCodec dataset_version_status_to_sql sql_to_dataset_version_status
    × IsExactCodec completeness_status_to_sql sql_to_completeness_status
sql_codecs_exact = (
  chain_family-exact, target_kind-exact, target_mode-exact, version_status-exact,
  completeness-exact,
)

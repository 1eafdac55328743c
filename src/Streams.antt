-- ===== src/Streams.antt =====
-- The leases of stream subscriptions: adapters/src/v2_repo.rs (upsert, claim, heartbeat, release,
-- stop, fail, cursor) over the table stream_subscriptions, whose row type is in core/src/v2.rs.
-- The table is a list of rows, NOW() is a number of seconds that the caller gives, and a JSON
-- column is the text of its document. Each operation is one SQL statement, so it is one step.
pub mod Lease
pub mod Activation
mod Samples
use mathlib.Core.Option
use spectraplex.Base.{
  ℕ, ◌+◌, ◌*◌, String, Bool, true, false, ◌&&◌, ◌||◌, Option, none, some, List, [], ◌∷◌, ◌++◌, ltb,
  ◌==◌, if◌then◌else◌, str_eq, is_none, or_else, take, select, any, find?, update, update_where,
  sort_by,
}

pub data StreamDesiredStatus : Type 0 where
  active paused stopped : StreamDesiredStatus

pub data StreamActualStatus : Type 0 where
  pending running paused stopped error : StreamActualStatus

pub data StreamSource : Type 0 where
  grpc ws rpc : StreamSource

pub record StreamSubscription : Type 0 where
  pub id : ℕ
  pub target_id : Option ℕ
  pub network : String
  pub source : StreamSource
  pub desired_status : StreamDesiredStatus
  pub actual_status : StreamActualStatus
  pub lease_owner : Option String
  pub heartbeat_at : Option ℕ
  pub cursor_state : Option String
  pub config : Option String
  pub error_message : Option String
  pub created_at : ℕ
  pub updated_at : ℕ

abbrev pub Table : Type 0
Table = List StreamSubscription

-- INTERVAL '5 minutes', in seconds.
abbrev pub lease_seconds : ℕ
lease_seconds = 5 * 60

abbrev pub has_id : ℕ → StreamSubscription → Bool
has_id i s = s.id == i

abbrev pub source_eq : StreamSource → StreamSource → Bool
source_eq grpc grpc = true
source_eq ws ws = true
source_eq rpc rpc = true
source_eq _ _ = false

abbrev target_eq : Option ℕ → Option ℕ → Bool
target_eq (some a) (some b) = a == b
target_eq _ _ = false

-- The partial unique index on (target_id, network, source) WHERE target_id IS NOT NULL.
abbrev pub same_key : Option ℕ → String → StreamSource → StreamSubscription → Bool
same_key target network source s =
    target_eq s.target_id target && str_eq s.network network && source_eq s.source source

abbrev pub is_active : StreamDesiredStatus → Bool
is_active active = true
is_active _ = false

abbrev pub owner_is : String → Option String → Bool
owner_is worker none = false
owner_is worker (some o) = str_eq o worker

-- `heartbeat_at < NOW() - INTERVAL '5 minutes'`; the comparison with NULL is not true.
abbrev pub stale : ℕ → Option ℕ → Bool
stale now none = false
stale now (some h) = ltb (h + lease_seconds) now

-- The condition that the claim and the listing of claimable subscriptions share.
abbrev pub claimable : ℕ → StreamSubscription → Bool
claimable now s = is_active s.desired_status && (is_none s.lease_owner || stale now s.heartbeat_at)

abbrev pub new_subscription :
    ℕ
    → ℕ
    → Option ℕ
    → String
    → StreamSource
    → StreamDesiredStatus
    → Option String
    → StreamSubscription
new_subscription id now target network source desired config = record {
  id = id;
  target_id = target;
  network = network;
  source = source;
  desired_status = desired;
  actual_status = StreamActualStatus.pending;
  lease_owner = none;
  heartbeat_at = none;
  cursor_state = none;
  config = config;
  error_message = none;
  created_at = now;
  updated_at = now;
}

-- What the statements write into a row.
module _ (now : ℕ) where
  abbrev pub leased : String → StreamSubscription → StreamSubscription
  leased worker s = record s {
    lease_owner = some worker;
    actual_status = StreamActualStatus.running;
    heartbeat_at = some now;
    updated_at = now;
  }

  abbrev pub beaten : StreamSubscription → StreamSubscription
  beaten s = record s { heartbeat_at = some now; updated_at = now }

  abbrev pub released : StreamSubscription → StreamSubscription
  released s = record s {
    lease_owner = none;
    actual_status = StreamActualStatus.stopped;
    heartbeat_at = none;
    updated_at = now;
  }

  abbrev pub desiring : StreamDesiredStatus → StreamSubscription → StreamSubscription
  desiring desired s = record s { desired_status = desired; updated_at = now }

  abbrev pub failed : String → StreamSubscription → StreamSubscription
  failed message s = record s {
    actual_status = StreamActualStatus.error;
    desired_status = StreamDesiredStatus.stopped;
    error_message = some message;
    lease_owner = none;
    heartbeat_at = none;
    updated_at = now;
  }

  abbrev pub renewed : StreamDesiredStatus → Option String → StreamSubscription → StreamSubscription
  renewed desired config s = record s {
    desired_status = desired;
    config = or_else config s.config;
    updated_at = now;
  }

  abbrev pub at_cursor : String → StreamSubscription → StreamSubscription
  at_cursor cursor s = record s { cursor_state = some cursor; updated_at = now }

-- `none` is the refusal of a duplicate id by the primary key.
pub upsert_stream_subscription :
    ℕ
    → ℕ
    → Option ℕ
    → String
    → StreamSource
    → StreamDesiredStatus
    → Option String
    → Table
    → Option StreamSubscription × Table
upsert_stream_subscription id now target network source desired config t =
    let key = same_key target network source in
    let fresh = new_subscription id now target network source desired config in
    if any key t
    then (
      Option.map (renewed now desired config) (find? key t),
      update key (renewed now desired config) t,
    )
    else if any (has_id id) t
    then (none, t)
    else (some fresh, t ++ fresh ∷ [])

pub claim_stream_lease : ℕ → String → ℕ → Table → Bool × Table
claim_stream_lease i worker now =
    update_where (λ s. has_id i s && claimable now s) (leased now worker)

-- `id = $1 AND lease_owner = $2`
abbrev pub held_by : ℕ → String → StreamSubscription → Bool
held_by i worker s = has_id i s && owner_is worker s.lease_owner

pub heartbeat_stream : ℕ → String → ℕ → Table → Bool × Table
heartbeat_stream i worker now = update_where (held_by i worker) (beaten now)

pub release_stream_lease : ℕ → String → ℕ → Table → Bool × Table
release_stream_lease i worker now = update_where (held_by i worker) (released now)

pub set_stream_desired_status : ℕ → StreamDesiredStatus → ℕ → Table → Bool × Table
set_stream_desired_status i desired now = update_where (has_id i) (desiring now desired)

pub fail_stream_subscription : ℕ → String → String → ℕ → Table → Bool × Table
fail_stream_subscription i worker message now = update_where (held_by i worker) (failed now message)

-- ORDER BY created_at ASC; rows that tie, which SQL leaves open, keep the table's order.
abbrev pub created_before : StreamSubscription → StreamSubscription → Bool
created_before a b = ltb a.created_at b.created_at

pub list_claimable_stream_subscriptions : ℕ → ℕ → Table → Table
list_claimable_stream_subscriptions now limit t =
    take limit (sort_by created_before (select (claimable now) t))

-- No ownership is asked for here.
pub update_stream_cursor : ℕ → String → ℕ → Table → Table
update_stream_cursor i cursor now = update (has_id i) (at_cursor now cursor)

pub data Statement : Type 0 where
  upsert :
      (id now : ℕ)
      → Option ℕ
      → String
      → StreamSource
      → StreamDesiredStatus
      → Option String
      → Statement
  claim : (i : ℕ) (worker : String) (now : ℕ) → Statement
  heartbeat : (i : ℕ) (worker : String) (now : ℕ) → Statement
  release : (i : ℕ) (worker : String) (now : ℕ) → Statement
  set_desired : (i : ℕ) → StreamDesiredStatus → (now : ℕ) → Statement
  fail : (i : ℕ) (worker message : String) (now : ℕ) → Statement
  move_cursor : (i : ℕ) (cursor : String) (now : ℕ) → Statement

pub exec : Statement → Table → Table
unfolding upsert_stream_subscription claim_stream_lease heartbeat_stream release_stream_lease
    set_stream_desired_status fail_stream_subscription update_stream_cursor
exec (upsert id now target network source desired config) t =
    (upsert_stream_subscription id now target network source desired config t).1
exec (claim i worker now) t = (claim_stream_lease i worker now t).1
exec (heartbeat i worker now) t = (heartbeat_stream i worker now t).1
exec (release i worker now) t = (release_stream_lease i worker now t).1
exec (set_desired i desired now) t = (set_stream_desired_status i desired now t).1
exec (fail i worker message now) t = (fail_stream_subscription i worker message now t).1
exec (move_cursor i cursor now) t = update_stream_cursor i cursor now t

pub run : List Statement → Table → Table
run [] t = t
run (s ∷ ss) t = run ss (exec s t)

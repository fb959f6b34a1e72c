-- ===== src/Types.antt =====
-- hocuspocu-rs/src/types.rs: message types, the origin of a transaction and its store hooks.
use hocuspocu_rs.Base.{
  ℕ, ◌-◌, ◌^◌, ◌≡◌, ◌≢◌, ◌↔◌, Bool, true, false, Option, none, some, Str, arith, ◌==◌,
  if◌then◌else◌,
}
pub mod Request
pub mod Payloads

pub data MessageType : Type 0 where
  unknown sync awareness auth query_awareness sync_reply stateless broadcast_stateless : MessageType
  close sync_status ping pong : MessageType

-- `as u64`; the sign of -1 is extended.
unfoldable pub code : MessageType → ℕ
code unknown = 2 ^ 64 - 1
code sync = 0
code awareness = 1
code auth = 2
code query_awareness = 3
code sync_reply = 4
code stateless = 5
code broadcast_stateless = 6
code close = 7
code sync_status = 8
code ping = 9
code pong = 10

unfoldable pub try_from : ℕ → Option MessageType
try_from value =
    if value == 0
    then some sync
    else if value == 1
    then some awareness
    else if value == 2
    then some auth
    else if value == 3
    then some query_awareness
    else if value == 4
    then some sync_reply
    else if value == 5
    then some stateless
    else if value == 6
    then some broadcast_stateless
    else if value == 7
    then some close
    else if value == 8
    then some sync_status
    else if value == 9
    then some ping
    else if value == 10
    then some pong
    else none

-- A number decodes to a message type exactly when it is the code of that type, and the type is not
-- `Unknown`, which no number decodes to.
try_from_iff :
    (value : ℕ) (t : MessageType) → (try_from value ≡ some t) ↔ ((value ≡ code t) × (t ≢ unknown))
unfolding try_from code
try_from_iff value unknown = ground arith
try_from_iff value _ = ground arith

-- A context is `Arc<dyn Any>`: an opaque value, here a number that names it. 0 names `()`.
abbrev pub Context : Type 0
Context = ℕ

abbrev pub empty_context : Context
empty_context = 0

pub record LocalTransactionOrigin : Type 0 where
  pub skip_store_hooks : Bool
  pub context : Option Context

pub data TransactionOrigin : Type 0 where
  connection : Str → TransactionOrigin
  redis : TransactionOrigin
  local : LocalTransactionOrigin → TransactionOrigin

unfoldable pub is_transaction_origin : Option TransactionOrigin → Bool
is_transaction_origin none = false
is_transaction_origin (some _) = true

unfoldable pub should_skip_store_hooks : Option TransactionOrigin → Bool
should_skip_store_hooks (some (connection _)) = false
should_skip_store_hooks (some redis) = true
should_skip_store_hooks (some (local origin)) = origin.skip_store_hooks
should_skip_store_hooks none = false

pub record ConnectionConfiguration : Type 0 where
  pub read_only : Bool
  pub is_authenticated : Bool

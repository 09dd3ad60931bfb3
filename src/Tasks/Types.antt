-- ===== src/Tasks/Types.antt =====
-- The records of runtime/src/tasks.rs.
--
-- A tenant of 16 bytes is the number that the bytes spell, first byte first, so that the two orders
-- agree. Times are in milliseconds. An id is its bytes, and the text of an error its characters.
use enclave_runtime.Prelude.{
  ℕ, ◌+◌, ◌^◌, ◌-◌, Bool, true, false, ◌&&◌, ◌||◌, Option, none, List, [], Bytes, length, leb, ltb,
  all, min, nat_eq, bytes_eq, ◌==◌,
}
use enclave_runtime.Prelude.Map.{Map}

abbrev pub max_payload : ℕ
max_payload = 65536

abbrev pub max_attempts : ℕ
max_attempts = 5

pub record TaskLimits : Type 0 where
  pub concurrency : ℕ
  pub max_records : ℕ
  pub per_tenant : ℕ
  pub timeout : ℕ

abbrev pub default_limits : TaskLimits
default_limits = record { concurrency = 1; max_records = 1024; per_tenant = 64; timeout = 600000 }

pub data Status : Type 0 where
  pending running completed failed cancelled : Status

pub record Task : Type 0 where
  pub version : ℕ
  pub tenant : ℕ
  pub id : Bytes
  pub payload : Bytes
  pub run_at : ℕ
  pub requested_run_at : ℕ
  pub generation : Bytes
  pub interval_ms : Option ℕ
  pub status : Status
  pub attempts : ℕ
  pub occurrence : ℕ
  pub result : Bytes
  pub error : Option Bytes

abbrev pub is_pending : Status → Bool
is_pending pending = true
is_pending _ = false

abbrev pub is_running : Status → Bool
is_running running = true
is_running _ = false

abbrev pub is_cancelled : Status → Bool
is_cancelled cancelled = true
is_cancelled _ = false

-- Task::terminal
unfoldable pub terminal : Task → Bool
terminal t = elim t.status [
  | pending ↦ false
  | running ↦ false
  | completed ↦ true
  | failed ↦ true
  | cancelled ↦ true
]

abbrev is_id_byte : ℕ → Bool
is_id_byte b =
    (leb b'a' b && leb b b'z')
    || ((leb b'A' b && leb b b'Z') || ((leb b'0' b && leb b b'9') || (b == b'-' || b == b'_')))

unfoldable pub valid_id : Bytes → Bool
valid_id id = ltb 0 (length id) && (leb (length id) 64 && all is_id_byte id)

-- The `Records` under the mutex. The set of due tasks is a list in its order.
pub record Records : Type 0 where
  pub tasks : Map Bytes Task
  pub due : List (ℕ × Bytes)
  pub active : List Bytes
  pub last_tenant : Option ℕ

abbrev pub no_records : Records
no_records = record { tasks = []; due = []; active = []; last_tenant = none }

pub data TaskError : Type 0 where
  invalid_id payload_too_large short_interval no_tenant not_marked different_input : TaskError
  quota_reached no_entropy not_written no_such_task still_active not_removed : TaskError
  not_anchored not_running occurrence_overflow : TaskError

-- What the file system and the anchor answer to the calls of one operation.
pub record Io : Type 0 where
  pub tenant_exists : Bool
  pub marked : Bool
  pub generation : Option Bytes
  pub written : Bool
  pub removed : Bool
  pub anchored : Bool

-- What an attempt came to: the tenant was busy, the guest returned bytes, or it failed with this text.
pub data Outcome : Type 0 where
  busy : Outcome
  returned failed_with : Bytes → Outcome

-- u64::saturating_add
abbrev pub saturating_add : ℕ → ℕ → ℕ
saturating_add a b = min (a + b) (2 ^ 64 - 1)

-- ===== src/Auth/Token.antt =====
-- runtime/src/auth/token.rs: interaction tokens, each good for one request at one route.
--
-- `Instant::now()` is an argument of each call, a number of the unit that the TTL is counted in.
-- The mutex makes each method one step, so a run of the store is a list of calls with their times,
-- in the order in which they take the lock. `nitro_attestation::sha256` is a parameter.
pub mod History
pub mod OneUse
pub mod Capacity
use enclave_runtime.Prelude.{
  ℕ, ◌+◌, ◌-◌, Bool, true, false, not, ◌&&◌, if◌then◌else◌, Option, none, some, List, [], ◌∷◌, map,
  Bytes, ltb, leb, length, max, ◌==◌, bytes_eq,
}
use enclave_runtime.Prelude.Map.{Map, get, insert, remove, retain}
use enclave_runtime.Prelude.Result.{Result, ok, err}

abbrev pub default_ttl : ℕ
default_ttl = 60

abbrev pub default_capacity : ℕ
default_capacity = 1024

pub record InteractionScope : Type 0 where
  pub method : Bytes
  pub path : Bytes
  pub query : Option Bytes

-- u8::to_ascii_uppercase
abbrev to_ascii_uppercase : ℕ → ℕ
to_ascii_uppercase b = if leb b'a' b && leb b b'z' then b - 32 else b

-- InteractionScope::new
unfoldable pub new_scope : Bytes → Bytes → Option Bytes → InteractionScope
new_scope method path query = record {
  method = map to_ascii_uppercase method;
  path = path;
  query = query;
}

-- The derived equality of `Option<String>` and of the scope.
abbrev query_eq : Option Bytes → Option Bytes → Bool
query_eq none none = true
query_eq none (some b) = false
query_eq (some a) none = false
query_eq (some a) (some b) = a == b

unfoldable pub scope_eq : InteractionScope → InteractionScope → Bool
scope_eq a b = a.method == b.method && (a.path == b.path && query_eq a.query b.query)

pub record Granted : Type 0 where
  pub tenant_id : ℕ
  pub scope : InteractionScope
  pub expires : ℕ

abbrev pub approval : ℕ → InteractionScope → ℕ → Granted
approval tenant_id scope expires = record {
  tenant_id = tenant_id;
  scope = scope;
  expires = expires;
}

pub data TokenError : Type 0 where
  unknown expired wrong_interaction full : TokenError

pub record TokenStore : Type 0 where
  pub granted : Map Bytes Granted
  pub ttl : ℕ
  pub capacity : ℕ

-- TokenStore::new
unfoldable pub new : ℕ → ℕ → TokenStore
new ttl capacity = record { granted = []; ttl = ttl; capacity = max capacity 1 }

-- The sweep that `issue` and `outstanding` make first.
unfoldable pub sweep : ℕ → Map Bytes Granted → Map Bytes Granted
sweep now = retain (λ _ g. ltb now g.expires)

-- TokenStore::issue, from the sweep on, for a token that hashes to `hash`.
unfoldable pub issue_hash :
    Bytes → ℕ → InteractionScope → ℕ → TokenStore → Result TokenError (Unit {0}) × TokenStore
unfolding sweep
issue_hash hash tenant_id scope now s =
    let granted = sweep now s.granted in
    if leb s.capacity (length granted) then (err full, record s { granted = granted }) else (
      ok tt,
      record s { granted = insert hash (approval tenant_id scope (now + s.ttl)) granted },
    )

-- TokenStore::redeem, once `remove` has answered: the entry is gone on every branch.
unfoldable pub check_entry : Option Granted → InteractionScope → ℕ → Result TokenError ℕ
check_entry none scope now = err unknown
check_entry (some entry) scope now =
    if leb entry.expires now
    then err expired
    else if not (scope_eq entry.scope scope)
    then err wrong_interaction
    else ok entry.tenant_id

unfoldable pub redeem_hash :
    Bytes → InteractionScope → ℕ → TokenStore → Result TokenError ℕ × TokenStore
unfolding check_entry
redeem_hash hash scope now s =
    (check_entry (get hash s.granted) scope now, record s { granted = remove hash s.granted })

-- TokenStore::outstanding
unfoldable pub outstanding : ℕ → TokenStore → ℕ × TokenStore
unfolding sweep
outstanding now s =
    let granted = sweep now s.granted in (length granted, record s { granted = granted })

module _ (sha256 : Bytes → Bytes) where
  -- TokenStore::issue
  unfoldable pub issue :
      Bytes → ℕ → InteractionScope → ℕ → TokenStore → Result TokenError (Unit {0}) × TokenStore
  unfolding issue_hash
  issue token = issue_hash (sha256 token)

  -- TokenStore::redeem
  unfoldable pub redeem :
      Bytes → InteractionScope → ℕ → TokenStore → Result TokenError ℕ × TokenStore
  unfolding redeem_hash
  redeem token = redeem_hash (sha256 token)

-- A call that takes the lock, with the time that it reads.
pub data Call : Type 0 where
  issues : Bytes → ℕ → InteractionScope → Call
  redeems : Bytes → InteractionScope → Call
  counts : Call

module _ (sha256 : Bytes → Bytes) where
  unfoldable pub step : ℕ × Call → TokenStore → TokenStore
  unfolding issue redeem outstanding
  step (now, issues token tenant scope) s = (issue sha256 token tenant scope now s).1
  step (now, redeems token scope) s = (redeem sha256 token scope now s).1
  step (now, counts) s = (outstanding now s).1

  unfoldable pub run : List (ℕ × Call) → TokenStore → TokenStore
  unfolding step
  run [] s = s
  run (c ∷ cs) s = run cs (step c s)

-- ===== src/Notify/Devices.antt =====
-- runtime/src/notify/device.rs: the devices that tenants have enrolled, in memory and on the control
-- pool.
--
-- The lock makes each method one step. A tenant's directory is the list of its published records; `Io`
-- tells whether a write and the removals succeed. A record is named by its token, where the code takes
-- the token's hash. A tenant without a list reads as one with an empty list. `scan`, which reads the directories at a start, and
-- the JSON of a record are not modelled.
pub mod Lists
pub mod Kept
use enclave_runtime.Prelude.{
  ℕ, ◌+◌, Bool, true, false, not, ◌&&◌, ◌||◌, Option, none, some, List, [], ◌∷◌, ◌++◌, Bytes, ltb,
  leb, length, all, any, retain, if◌then◌else◌, bytes_eq, nat_eq, ◌==◌,
}
use enclave_runtime.Prelude.Map.{Map, get, insert}
use enclave_runtime.Prelude.Result.{Result, ok, err}

abbrev pub max_devices_per_tenant : ℕ
max_devices_per_tenant = 8

abbrev pub max_devices : ℕ
max_devices = 4096

abbrev pub min_token_len : ℕ
min_token_len = 32

abbrev pub max_token_len : ℕ
max_token_len = 512

pub record StoredDevice : Type 0 where
  pub version : ℕ
  pub tenant : Bytes
  pub token : Bytes
  pub created_ms : ℕ

pub record DeviceLimits : Type 0 where
  pub max_devices : ℕ
  pub per_tenant : ℕ

abbrev pub default_limits : DeviceLimits
default_limits = record { max_devices = max_devices; per_tenant = max_devices_per_tenant }

-- is_ascii_alphanumeric, and '-', '_', ':', '.'
abbrev pub is_token_byte : ℕ → Bool
is_token_byte b =
    (leb 48 b && leb b 57)
    || ((leb 65 b && leb b 90)
        || ((leb 97 b && leb b 122) || ((b == 45) || ((b == 95) || ((b == 58) || (b == 46))))))

unfoldable pub valid_token : Bytes → Bool
valid_token token =
    leb min_token_len (length token)
    && (leb (length token) max_token_len && all is_token_byte token)

-- String's order: the bytes one by one.
unfoldable pub bytes_leb : Bytes → Bytes → Bool
bytes_leb [] b = true
bytes_leb (x ∷ a) [] = false
bytes_leb (x ∷ a) (y ∷ b) =
    let rest = bytes_leb a b in if ltb x y then true else if x == y then rest else false

-- The order of sort_by_key on (created_ms, token).
unfoldable pub is_before : StoredDevice → StoredDevice → Bool
unfolding bytes_leb
is_before d e =
    if ltb d.created_ms e.created_ms
    then true
    else (d.created_ms == e.created_ms) && bytes_leb d.token e.token

unfoldable pub place : StoredDevice → List StoredDevice → List StoredDevice
unfolding is_before
place d [] = d ∷ []
place d (e ∷ es) = let rest = place d es in if is_before d e then d ∷ e ∷ es else e ∷ rest

-- A stable sort.
unfoldable pub sort : List StoredDevice → List StoredDevice
unfolding place
sort [] = []
sort (d ∷ ds) = place d (sort ds)

abbrev pub has_token : Bytes → List StoredDevice → Bool
has_token token ds = any (λ d. d.token == token) ds

abbrev pub without : Bytes → List StoredDevice → List StoredDevice
without token ds = retain (λ d. not (d.token == token)) ds

abbrev pub Devices : Type 0
Devices = Map Bytes (List StoredDevice)

unfoldable pub list_of : Bytes → Devices → List StoredDevice
list_of tenant m = elim (get tenant m) [ none ↦ [] | some list ↦ list ]

unfoldable pub total : Devices → ℕ
total [] = 0
total ((tenant, list) ∷ m) = length list + total m

-- `DeviceRegistry`, and its directories.
pub record Registry : Type 0 where
  pub devices : Devices
  pub dirs : Devices

-- Whether a write succeeds, and the removal of each token's record.
pub record Io : Type 0 where
  pub written : Bool
  pub removed : Bytes → Bool

pub data DeviceError : Type 0 where
  bad_token full not_written not_removed : DeviceError

abbrev pub Answer : Type 0 → Type 0
Answer A = Result DeviceError A × Registry

-- The record renamed into place: an old one under its name is replaced.
abbrev pub publish : StoredDevice → List StoredDevice → List StoredDevice
publish d dir = d ∷ without d.token dir

-- What the eviction of `register` leaves in memory and in the directory.
pub record Trimmed : Type 0 where
  pub answer : Result DeviceError (Unit {0})
  pub list : List StoredDevice
  pub dir : List StoredDevice

unfoldable pub trim_list : ℕ → Io → List StoredDevice → List StoredDevice → Trimmed
trim_list per_tenant io [] dir = record { answer = ok tt; list = []; dir = dir }
trim_list per_tenant io (d ∷ ds) dir = elim (ltb per_tenant (length (d ∷ ds))) [
  | false ↦ record { answer = ok tt; list = d ∷ ds; dir = dir }
  | true ↦ elim (io.removed d.token) [
    | true ↦ trim_list per_tenant io ds (without d.token dir)
    | false ↦ record { answer = err not_removed; list = ds; dir = dir }
  ]
]

unfoldable pub register : DeviceLimits → Io → Bytes → Bytes → ℕ → Registry → Answer (Unit {0})
unfolding valid_token list_of total sort trim_list
register limits io tenant token now_ms r =
    if not (valid_token token)
    then (err bad_token, r)
    else if has_token token (list_of tenant r.devices)
    then (ok tt, r)
    else if not (ltb (total r.devices) limits.max_devices)
    then (err full, r)
    else if not io.written
    then (err not_written, r)
    else let d : StoredDevice = record {
      version = 1;
      tenant = tenant;
      token = token;
      created_ms = now_ms;
    } in
      let t =
        trim_list limits.per_tenant io (sort (list_of tenant r.devices ++ (d ∷ [])))
          (publish d (list_of tenant r.dirs)) in
      (
        t.answer,
        record { devices = insert tenant t.list r.devices; dirs = insert tenant t.dir r.dirs },
      )

-- The record removed from the directory and the tenant's list.
abbrev pub drop_token : Bytes → Bytes → Registry → Registry
drop_token tenant token r = record {
  devices = insert tenant (without token (list_of tenant r.devices)) r.devices;
  dirs = insert tenant (without token (list_of tenant r.dirs)) r.dirs;
}

unfoldable pub forget : Io → Bytes → Bytes → Registry → Answer (Unit {0})
unfolding list_of
forget io tenant token r =
    if io.removed token then (ok tt, drop_token tenant token r) else (err not_removed, r)

unfoldable pub forget_if_unchanged : Io → Bytes → Bytes → ℕ → Registry → Answer Bool
unfolding list_of
forget_if_unchanged io tenant token created_ms r =
    if not
      (any (λ d. (d.token == token) && (d.created_ms == created_ms)) (list_of tenant r.devices))
    then (ok false, r)
    else if io.removed token
    then (ok true, drop_token tenant token r)
    else (err not_removed, r)

-- DeviceRegistry::devices and DeviceRegistry::count
unfoldable pub devices_of : Bytes → Registry → List StoredDevice
unfolding list_of
devices_of tenant r = list_of tenant r.devices

unfoldable pub count : Bytes → Registry → ℕ
unfolding list_of
count tenant r = length (list_of tenant r.devices)

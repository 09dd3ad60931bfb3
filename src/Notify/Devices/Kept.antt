-- ===== src/Notify/Devices/Kept.antt =====
-- `DeviceRegistry` of runtime/src/notify/device.rs over runs of calls.
use enclave_runtime.Prelude.{
  ℕ, ◌≤◌, ◌≡◌, refl, inl, inr, false, not, ◌&&◌, List, [], ◌∷◌, ◌++◌, Bytes, arith, ltb, length,
  length-append, length-retain-le, any, if◌then◌else◌, bytes_eq, nat_eq, ◌==◌, Bool-cases,
}
use enclave_runtime.Prelude.Map.{insert, get-insert}
use enclave_runtime.Notify.Devices.{
  StoredDevice, DeviceLimits, Devices, Registry, Io, list_of, total, valid_token, has_token,
  without, publish, sort, trim_list, drop_token, register, forget, forget_if_unchanged,
}
use enclave_runtime.Notify.Devices.Lists.{
  Backed, without-Backed, enrolled-Backed, trim_list-Backed, length-trim_list, length-sort,
}

-- A call with what the disk answers.
pub data Call : Type 0 where
  registering : Io → Bytes → Bytes → ℕ → Call
  forgetting : Io → Bytes → Bytes → Call
  pruning : Io → Bytes → Bytes → ℕ → Call

abbrev pub step : DeviceLimits → Call → Registry → Registry
step limits (registering io tenant token now_ms) r = (register limits io tenant token now_ms r).1
step limits (forgetting io tenant token) r = (forget io tenant token r).1
step limits (pruning io tenant token created_ms) r =
    (forget_if_unchanged io tenant token created_ms r).1

abbrev pub run : DeviceLimits → List Call → Registry → Registry
run limits [] r = r
run limits (c ∷ cs) r = run limits cs (step limits c r)

-- Each tenant's devices in memory have their records, and are no more than a tenant may have.
abbrev pub IsKept : DeviceLimits → Registry → Type 0
IsKept limits r =
    (tenant : Bytes)
    → Backed (list_of tenant r.dirs) (list_of tenant r.devices)
      × (length (list_of tenant r.devices) ≤ limits.per_tenant)

list_of-insert :
    (k j : Bytes) (v : List StoredDevice) (m : Devices)
    → list_of j (insert k v m) ≡ (if k == j then v else list_of j m)
unfolding list_of
list_of-insert k j v m = elim (Bool-cases (k == j)) [
  | inl t ↦ rw (get-insert k j v m, list_of, t) refl
  | inr f ↦ rw (get-insert k j v m, list_of, f) refl
]

-- New lists for one tenant that are kept leave the registry kept.
replace-IsKept :
    (limits : DeviceLimits) (tenant : Bytes) (list dir : List StoredDevice) (r : Registry)
    → IsKept limits r
    → Backed dir list
    → length list ≤ limits.per_tenant
    → IsKept limits
        (record { devices = insert tenant list r.devices; dirs = insert tenant dir r.dirs })
replace-IsKept limits tenant list dir r k b le other = elim (Bool-cases (tenant == other)) [
  | inl t ↦
      rw (list_of-insert tenant other list r.devices, list_of-insert tenant other dir r.dirs, t)
        (b, le)
  | inr f ↦
      rw (list_of-insert tenant other list r.devices, list_of-insert tenant other dir r.dirs, f)
        (k other)
]

drop_token-IsKept :
    (limits : DeviceLimits) (tenant token : Bytes) (r : Registry)
    → IsKept limits r
    → IsKept limits (drop_token tenant token r)
drop_token-IsKept limits tenant token r k =
    let list = list_of tenant r.devices in
    let dir = list_of tenant r.dirs in
    replace-IsKept limits tenant (without token list) (without token dir) r k
      (without-Backed token dir list (k tenant).0)
      (omega (arith, length-retain-le (λ d. not (d.token == token)) list, (k tenant).1))

forget-IsKept :
    (limits : DeviceLimits) (io : Io) (tenant token : Bytes) (r : Registry)
    → IsKept limits r
    → IsKept limits (forget io tenant token r).1
unfolding forget
forget-IsKept limits io tenant token r k = elim (Bool-cases (io.removed token)) [
  | inl t ↦ rw (t, forget) (drop_token-IsKept limits tenant token r k)
  | inr f ↦ rw (f, forget) k
]

prune-IsKept :
    (limits : DeviceLimits) (io : Io) (tenant token : Bytes) (created_ms : ℕ) (r : Registry)
    → IsKept limits r
    → IsKept limits (forget_if_unchanged io tenant token created_ms r).1
unfolding forget_if_unchanged
prune-IsKept limits io tenant token created_ms r k =
    elim (Bool-cases
      (any (λ d. (d.token == token) && (d.created_ms == created_ms)) (list_of tenant r.devices))) [
        | inr f ↦ rw (f, forget_if_unchanged) k
        | inl t ↦ elim (Bool-cases (io.removed token)) [
          | inl s ↦ rw (t, forget_if_unchanged, s) (drop_token-IsKept limits tenant token r k)
          | inr g ↦ rw (t, forget_if_unchanged, g) k
        ]
      ]

register-IsKept :
    (limits : DeviceLimits) (io : Io) (tenant token : Bytes) (now_ms : ℕ) (r : Registry)
    → IsKept limits r
    → IsKept limits (register limits io tenant token now_ms r).1
unfolding register
register-IsKept limits io tenant token now_ms r k = elim (Bool-cases (valid_token token)) [
  | inr f ↦ rw (f, register) k
  | inl v ↦ elim (Bool-cases (has_token token (list_of tenant r.devices))) [
    | inl t ↦ rw (v, register, t) k
    | inr new ↦ elim (Bool-cases (ltb (total r.devices) limits.max_devices)) [
      | inr f ↦ rw (v, register, new, f) k
      | inl room ↦ elim (Bool-cases io.written) [
        | inr f ↦ rw (v, register, new, room, f) k
        | inl w ↦ rw (v, register, new, room, w) (enrolled new)
      ]
    ]
  ]
]
  where
    d : StoredDevice
    d = record { version = 1; tenant = tenant; token = token; created_ms = now_ms }

    list : List StoredDevice
    list = list_of tenant r.devices

    dir : List StoredDevice
    dir = list_of tenant r.dirs

    enrolled :
        has_token token list ≡ false
        → (let t = trim_list limits.per_tenant io (sort (list ++ (d ∷ []))) (publish d dir) in
            IsKept limits (record {
              devices = insert tenant t.list r.devices;
              dirs = insert tenant t.dir r.dirs;
            }))
    enrolled new =
        let ds = sort (list ++ (d ∷ [])) in
        replace-IsKept limits tenant _ _ r k
          (trim_list-Backed limits.per_tenant io ds (publish d dir)
            (enrolled-Backed d dir list new (k tenant).0))
          (length-trim_list limits.per_tenant io ds (publish d dir) (
            omega
              (arith, length-sort (list ++ (d ∷ [])), length-append list (d ∷ []), (k tenant).1)))

-- Whatever calls are made, and whichever writes and removals fail, every device that the registry holds
-- in memory has its record on the disk, no token stands twice under a tenant, and no tenant has more than
-- the limit, if it was so at the start.
pub run-IsKept :
    (limits : DeviceLimits) (calls : List Call) (r : Registry)
    → IsKept limits r
    → IsKept limits (run limits calls r)
run-IsKept limits [] r k = k
run-IsKept limits (registering io tenant token now_ms ∷ cs) r k =
    run-IsKept limits cs (register limits io tenant token now_ms r).1
      (register-IsKept limits io tenant token now_ms r k)
run-IsKept limits (forgetting io tenant token ∷ cs) r k =
    run-IsKept limits cs (forget io tenant token r).1 (forget-IsKept limits io tenant token r k)
run-IsKept limits (pruning io tenant token created_ms ∷ cs) r k =
    run-IsKept limits cs (forget_if_unchanged io tenant token created_ms r).1
      (prune-IsKept limits io tenant token created_ms r k)

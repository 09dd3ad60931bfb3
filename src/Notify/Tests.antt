-- ===== src/Notify/Tests.antt =====
-- The device registry of runtime/src/notify/device.rs at concrete inputs.
use enclave_runtime.Prelude.{◌≡◌, refl, true, false, [], ◌∷◌, arith, ascii, replicate, bytes_eq}
use enclave_runtime.Prelude.Map.{get, insert}
use enclave_runtime.Notify.Devices.{DeviceLimits, Registry, Io, register, count, list_of}
use enclave_runtime.Notify.Devices.Kept.{registering, pruning, run, IsKept, run-IsKept}

abbrev limits : DeviceLimits
limits = record { max_devices = 3; per_tenant = 1 }

abbrev fine : Io
fine = record { written = true; removed = λ token. true }

-- A disk that writes and does not remove.
abbrev stiff : Io
stiff = record { written = true; removed = λ token. false }

abbrev no_devices : Registry
no_devices = record { devices = []; dirs = [] }

no_devices-IsKept : IsKept limits no_devices
unfolding list_of get
no_devices-IsKept tenant = (tt, omega arith)

run-IsKept_example : IsKept limits (
    run limits
      (registering fine (ascii "alice") (replicate 32 97) 10
        ∷ registering stiff (ascii "alice") (replicate 32 98) 20
        ∷ pruning fine (ascii "alice") (replicate 32 98) 20
        ∷ [])
      no_devices)
run-IsKept_example =
    run-IsKept limits
      (registering fine (ascii "alice") (replicate 32 97) 10
        ∷ registering stiff (ascii "alice") (replicate 32 98) 20
        ∷ pruning fine (ascii "alice") (replicate 32 98) 20
        ∷ [])
      no_devices no_devices-IsKept

newest :
    count (ascii "alice") (
      run limits
        (registering fine (ascii "alice") (replicate 32 97) 10
          ∷ registering fine (ascii "alice") (replicate 32 98) 20
          ∷ [])
        no_devices)
    ≡ 1
unfolding count register get insert
newest = refl

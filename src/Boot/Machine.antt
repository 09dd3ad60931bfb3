-- ===== src/Boot/Machine.antt =====
-- `record_pair`, `genesis` and `boot` of runtime/src/boot.rs.
use enclave_runtime.Prelude.{ℕ, Bool, true, false, Option, none, some, Bytes, if◌then◌else◌}
use enclave_runtime.Prelude.Result.{Result, ok, err}
use enclave_runtime.Prelude.Exec.{pure, raise, lift, lift_option, ◌>>=◌, ◌>>◌}
use enclave_runtime.Store.Types.{StoreError, PutBlobInput}
use enclave_runtime.Boot.Types.{
  Platform, Pair, MountConfig, ReceiptTrust, genesis, resume, upgrade, BootError, key_not_released,
  keys_not_derived, pool_not_opened, pool_not_created, clock_failed, attest_failed, mint_failed,
  another_genesis, storing_key, storing_receipt, storing_pair, pair_vanished, receipt_without_key,
  key_without_receipt, purpose_state_origin, purpose_pair, receipt_payload, receipt_key,
  sealed_key_key, record_key, Booted, identity_of, state_root, locked,
}
use enclave_runtime.Boot.Receipt.{Boot, read_pair, maybe_get, verify_origin, verify_pair_record}

module _ (p : Platform) where
  -- A conditional PUT, with what the caller makes of its error.
  abbrev pub put_new : PutBlobInput → (StoreError → BootError) → Boot p (Unit {0})
  put_new input f w =
      let (r, w') = p.put_blob_if_not_exists input w in
      elim r [ ok u ↦ (ok tt, w') | err e ↦ (err (f e), w') ]

  -- A pool operation, with the error that it is reported as.
  abbrev pub pool : (p.World → Option p.Zfs × p.World) → BootError → Boot p p.Zfs
  pool m e w = let (r, w') = m w in elim r [ none ↦ (err e, w') | some zfs ↦ (ok zfs, w') ]

  unfoldable pub derive_keys : p.MasterSecret → MountConfig → Boot p p.KeyMaterial
  derive_keys master config = lift_option (λ _. p.derive master config.fs_id) keys_not_derived

  -- What `record_pair` does after its conditional PUT: another writer's record must say the same.
  unfoldable pub settle_pair :
      Bytes → ReceiptTrust → Pair → Bytes → ℕ → Result StoreError (Unit {0}) → Boot p (Unit {0})
  settle_pair key trust pair root now (ok u) = pure tt
  settle_pair key trust pair root now (err StoreError.already_exists) = do
    theirs ← maybe_get p key
    doc ← lift_option (λ _. theirs) pair_vanished
    lift (verify_pair_record p doc trust pair root now)
  settle_pair key trust pair root now (err e) = raise (storing_pair e)

  -- The part of `record_pair` for a pair that has no record yet.
  unfoldable pub write_pair : MountConfig → ReceiptTrust → Pair → Bytes → ℕ → Boot p Bool
  unfolding settle_pair
  write_pair config trust pair root now = do
    doc ← lift_option (p.attest (receipt_payload p purpose_pair root)) attest_failed
    lift (verify_pair_record p doc trust pair root now)
    r ← λ w.
        let (r, w') =
          p.put_blob_if_not_exists (locked (record_key p pair config) doc config.root_retention now)
            w in
        (ok r, w')
    settle_pair (record_key p pair config) trust pair root now r
    pure true

  -- `record_pair`: whether this boot is the pair's first.
  unfoldable pub record_pair : MountConfig → ReceiptTrust → Pair → Bytes → ℕ → Boot p Bool
  unfolding write_pair
  record_pair config trust pair root now = do
    existing ← maybe_get p (record_key p pair config)
    elim existing [
      | some doc ↦ (do lift (verify_pair_record p doc trust pair root now); pure false)
      | none ↦ write_pair config trust pair root now
    ]

  -- What a conditional PUT of the sealed key reports.
  abbrev pub key_error : StoreError → BootError
  key_error StoreError.already_exists = another_genesis
  key_error e = storing_key e

  unfoldable pub run_genesis : MountConfig → ReceiptTrust → Pair → Boot p (Booted p)
  unfolding derive_keys record_pair
  run_genesis config trust pair = do
    now ← lift_option p.trusted_now clock_failed
    (master, sealed) ← lift_option p.mint mint_failed
    put_new (locked (sealed_key_key p config) sealed config.root_retention now) key_error
    keys ← derive_keys master config
    zfs ← pool (p.zfs_create keys master) pool_not_created
    let root = state_root p (identity_of p zfs config sealed)
    doc ← lift_option (p.attest (receipt_payload p purpose_state_origin root)) attest_failed
    put_new (locked (receipt_key p config) doc config.root_retention now) storing_receipt
    record_pair config trust pair root now
    pure (record {
      mode = genesis;
      zfs = zfs;
      keys = keys;
      root = root;
      pair = pair;
      master = master;
    })

  -- The arm of `boot` that finds a receipt and a sealed key.
  unfoldable pub run_resume : MountConfig → ReceiptTrust → Pair → Bytes → Bytes → Boot p (Booted p)
  unfolding derive_keys record_pair
  run_resume config trust pair receipt sealed = do
    master ← lift_option (p.open_key sealed) key_not_released
    keys ← derive_keys master config
    zfs ← pool (p.zfs_open keys master) pool_not_opened
    let root = state_root p (identity_of p zfs config sealed)
    now ← lift_option p.trusted_now clock_failed
    lift (verify_origin p receipt trust root now)
    first ← record_pair config trust pair root now
    pure (record {
      mode = if first then upgrade else resume;
      zfs = zfs;
      keys = keys;
      root = root;
      pair = pair;
      master = master;
    })

  -- The match of `boot` on what it found.
  unfoldable pub decide :
      MountConfig → ReceiptTrust → Pair → Option Bytes → Option Bytes → Boot p (Booted p)
  unfolding run_genesis run_resume
  decide config trust pair (some receipt) (some sealed) =
      run_resume config trust pair receipt sealed
  decide config trust pair none none = run_genesis config trust pair
  decide config trust pair (some receipt) none = raise receipt_without_key
  decide config trust pair none (some sealed) = raise key_without_receipt

  unfoldable pub boot : MountConfig → ReceiptTrust → Boot p (Booted p)
  unfolding decide
  boot config trust = do
    pair ← read_pair p
    receipt ← maybe_get p (receipt_key p config)
    sealed ← maybe_get p (sealed_key_key p config)
    decide config trust pair receipt sealed

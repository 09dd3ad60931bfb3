-- ===== src/Boot/Pools.antt =====
-- `boot` of runtime/src/boot.rs: which of its parts create a pool.
use enclave_runtime.Prelude.{
  ℕ, ◌≡◌, refl, ◌∙◌, inl, inr, not, ◌==◌, bytes_eq, Bool, true, false, Option, none, some, Bytes,
  Option-cases,
}
use enclave_runtime.Prelude.Result.{Result, ok, err, ensure}
use enclave_runtime.Prelude.Exec.{pure, lift, lift_option, bind-keeps, ◌>>=◌, ◌>>◌}
use enclave_runtime.Store.Types.{StoreError, PutBlobInput}
use enclave_runtime.Boot.Types.{
  Platform, Pair, MountConfig, ReceiptTrust, BootError, key_not_released, keys_not_derived,
  pool_not_opened, clock_failed, attest_failed, pair_vanished, purpose_pair, pcr0_unreadable,
  pcr16_unreadable, guest_not_locked, guest_not_extended, pcr_guest, pcr_zero, receipt_payload,
  record_key, identity_of, state_root, locked,
}
use enclave_runtime.Boot.Receipt.{
  Boot, register, read_pair, maybe_get, verify_origin, verify_pair_record,
}
use enclave_runtime.Boot.Machine.{
  pool, derive_keys, settle_pair, write_pair, record_pair, run_resume, decide,
}

-- `pools` tells how many pools have been created: reads and writes of the bucket, and opening a pool,
-- create none.
module _ (p : Platform) (pools : p.World → ℕ) where
  abbrev pub SamePools : p.World → p.World → Type 0
  SamePools w w' = pools w' ≡ pools w

  pub record OnlyCreate : Type 0 where
    pub kept_get : (key : Bytes) (w : p.World) → SamePools w (p.get_retained_blob key w).1
    pub kept_put :
        (input : PutBlobInput) (w : p.World) → SamePools w (p.put_blob_if_not_exists input w).1
    pub kept_open :
        (keys : p.KeyMaterial) (master : p.MasterSecret) (w : p.World)
        → SamePools w (p.zfs_open keys master w).1

  module _ (law : OnlyCreate) where
    pub SamePools-trans : (u v w : p.World) → SamePools u v → SamePools v w → SamePools u w
    SamePools-trans u v w a b = b ∙ a

    lift_option-SamePools :
        {A : Type 0} (f : p.World → Option A) (e : BootError) (w : p.World)
        → SamePools w (lift_option f e w).1
    lift_option-SamePools f e w = elim (Option-cases (f w)) [
      | inl q ↦ rw (q, lift_option) refl
      | inr (a, q) ↦ rw (q, lift_option) refl
    ]

    pub maybe_get-SamePools : (key : Bytes) (w : p.World) → SamePools w (maybe_get p key w).1
    unfolding maybe_get
    maybe_get-SamePools key w = law.kept_get key w

    pool-SamePools :
        (m : p.World → Option p.Zfs × p.World) (e : BootError) (w : p.World)
        → SamePools w (m w).1
        → SamePools w (pool p m e w).1
    pool-SamePools m e w k = elim (Option-cases (m w).0) [
      | inl q ↦ rw (q, pool) k
      | inr (a, q) ↦ rw (q, pool) k
    ]

    pub read_pair-SamePools : (w : p.World) → SamePools w (read_pair p w).1
    unfolding read_pair
    read_pair-SamePools =
        bind-keeps SamePools (lift_option (p.describe_pcr 0) pcr0_unreadable) _ SamePools-trans
          (lift_option-SamePools _ pcr0_unreadable)
          (λ pcr0.
            bind-keeps SamePools (lift_option (p.describe_pcr pcr_guest) pcr16_unreadable) _
              SamePools-trans (lift_option-SamePools _ pcr16_unreadable)
              (λ guest.
                bind-keeps SamePools (lift (ensure guest.locked guest_not_locked)) _ SamePools-trans
                  (λ w. refl)
                  (λ u.
                    bind-keeps SamePools
                      (lift (ensure (not (guest.value == pcr_zero)) guest_not_extended)) _
                      SamePools-trans (λ w. refl)
                      (λ u.
                        bind-keeps SamePools (lift (register pcr0.value 0)) _ SamePools-trans
                          (λ w. refl)
                          (λ v0.
                            bind-keeps SamePools (lift (register guest.value pcr_guest)) _
                              SamePools-trans (λ w. refl) (λ v16 w. refl))))))

    settle_pair-SamePools :
        (key : Bytes) (trust : ReceiptTrust) (pair : Pair) (root : Bytes) (now : ℕ)
        (r : Result StoreError (Unit {0})) (w : p.World)
        → SamePools w (settle_pair p key trust pair root now r w).1
    unfolding settle_pair
    settle_pair-SamePools key trust pair root now (ok u) w = refl
    settle_pair-SamePools key trust pair root now (err StoreError.already_exists) w =
        bind-keeps SamePools (maybe_get p key)
          (λ theirs. lift_option (λ _. theirs) pair_vanished >>= λ doc.
            lift (verify_pair_record p doc trust pair root now))
          SamePools-trans (maybe_get-SamePools key)
          (λ theirs.
            bind-keeps SamePools (lift_option (λ _. theirs) pair_vanished)
              (λ doc. lift (verify_pair_record p doc trust pair root now)) SamePools-trans
              (lift_option-SamePools (λ _. theirs) pair_vanished) (λ doc u. refl))
          w
    settle_pair-SamePools key trust pair root now (err e) w = refl

    write_pair-SamePools :
        (config : MountConfig) (trust : ReceiptTrust) (pair : Pair) (root : Bytes) (now : ℕ)
        (w : p.World)
        → SamePools w (write_pair p config trust pair root now w).1
    unfolding write_pair
    write_pair-SamePools config trust pair root now =
        let key = record_key p pair config in
        let attest = lift_option (p.attest (receipt_payload p purpose_pair root)) attest_failed in
        let put : Bytes → Boot p (Result StoreError (Unit {0})) = λ doc w.
          let (r, w') = p.put_blob_if_not_exists (locked key doc config.root_retention now) w in
          (ok r, w') in
        let settled : Result StoreError (Unit {0}) → Boot p Bool =
          λ r. settle_pair p key trust pair root now r >> pure true in
        bind-keeps SamePools attest
          (λ doc. lift (verify_pair_record p doc trust pair root now) >> (put doc >>= settled))
          SamePools-trans (lift_option-SamePools _ attest_failed)
          (λ doc.
            bind-keeps SamePools (lift (verify_pair_record p doc trust pair root now))
              (λ u. put doc >>= settled) SamePools-trans (λ w. refl)
              (λ u.
                bind-keeps SamePools (put doc) settled SamePools-trans
                  (λ w. law.kept_put (locked key doc config.root_retention now) w)
                  (λ r.
                    bind-keeps SamePools (settle_pair p key trust pair root now r) (λ u. pure true)
                      SamePools-trans (settle_pair-SamePools key trust pair root now r)
                      (λ u w. refl))))

    record_pair-SamePools :
        (config : MountConfig) (trust : ReceiptTrust) (pair : Pair) (root : Bytes) (now : ℕ)
        (w : p.World)
        → SamePools w (record_pair p config trust pair root now w).1
    unfolding record_pair
    record_pair-SamePools config trust pair root now =
        bind-keeps SamePools (maybe_get p (record_key p pair config)) _ SamePools-trans
          (maybe_get-SamePools (record_key p pair config)) found
      where
        found :
            (existing : Option Bytes) (w : p.World)
            → SamePools w
                ((elim existing as (λ o. Boot p Bool) [
                  | some doc ↦ lift (verify_pair_record p doc trust pair root now) >> pure false
                  | none ↦ write_pair p config trust pair root now
                ])
                  w).1
        found none w = write_pair-SamePools config trust pair root now w
        found (some doc) w =
            bind-keeps SamePools (lift (verify_pair_record p doc trust pair root now))
              (λ u. pure false) SamePools-trans (λ w. refl) (λ u w. refl) w

    run_resume-SamePools :
        (config : MountConfig) (trust : ReceiptTrust) (pair : Pair) (receipt sealed : Bytes)
        (w : p.World)
        → SamePools w (run_resume p config trust pair receipt sealed w).1
    unfolding run_resume derive_keys
    run_resume-SamePools config trust pair receipt sealed =
        bind-keeps SamePools (lift_option (p.open_key sealed) key_not_released) _ SamePools-trans
          (lift_option-SamePools _ key_not_released)
          (λ master.
            bind-keeps SamePools (derive_keys p master config) _ SamePools-trans
              (lift_option-SamePools _ keys_not_derived)
              (λ keys.
                bind-keeps SamePools (pool p (p.zfs_open keys master) pool_not_opened) _
                  SamePools-trans
                  (λ w.
                    pool-SamePools (p.zfs_open keys master) pool_not_opened w
                      (law.kept_open keys master w))
                  (λ zfs.
                    bind-keeps SamePools (lift_option p.trusted_now clock_failed) _ SamePools-trans
                      (lift_option-SamePools _ clock_failed)
                      (λ now.
                        let root = state_root p (identity_of p zfs config sealed) in
                        bind-keeps SamePools (lift (verify_origin p receipt trust root now)) _
                          SamePools-trans (λ w. refl)
                          (λ u.
                            bind-keeps SamePools (record_pair p config trust pair root now) _
                              SamePools-trans (record_pair-SamePools config trust pair root now)
                              (λ first w. refl))))))

    -- A boot that has found a receipt creates no pool, however it ends.
    pub decide-SamePools :
        (config : MountConfig) (trust : ReceiptTrust) (pair : Pair) (receipt : Bytes)
        (sealed : Option Bytes) (w : p.World)
        → SamePools w (decide p config trust pair (some receipt) sealed w).1
    unfolding decide
    decide-SamePools config trust pair receipt none w = refl
    decide-SamePools config trust pair receipt (some sealed) w =
        run_resume-SamePools config trust pair receipt sealed w

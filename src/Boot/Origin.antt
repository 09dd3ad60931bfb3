-- ===== src/Boot/Origin.antt =====
-- `boot` of runtime/src/boot.rs.
-- What a boot that succeeds has established of the state that it loaded or created.
use mathlib.Core.Path.{subst}
use enclave_runtime.Prelude.{
  arith, Option-cases, ℕ, ◌≡◌, ◌≢◌, refl, ap, ◌∙◌, Bool, true, false, Option, none, some, Bytes,
  if◌then◌else◌, inl, inr,
}
use enclave_runtime.Prelude.Result
use enclave_runtime.Prelude.Result.{Result, ok, err, Result-cases, ok_injective}
use enclave_runtime.Prelude.Exec.{lift_option, lift, >>=-eq-ok}
use enclave_runtime.Attestation.Types.{Verified, Expectations}
use enclave_runtime.Attestation.Expect.{expect, expect_iff, Says, with_user_data}
use enclave_runtime.Boot.Types.{
  Platform, Pair, MountConfig, ReceiptTrust, required, genesis, resume, upgrade, BootError,
  key_not_released, keys_not_derived, pool_not_opened, clock_failed, mint_failed, pool_not_created,
  attest_failed, storing_receipt, locked, purpose_state_origin, receipt_payload, receipt_key,
  sealed_key_key, Booted, identity_of, state_root,
}
use enclave_runtime.Boot.Receipt.{
  read_pair, maybe_get, open_receipt, read_receipt, verify_origin, origin_expectations,
}
use enclave_runtime.Boot.Signed.{SignedByAws, verify_as_signed-SignedByAws}
use enclave_runtime.Boot.Pools.{
  OnlyCreate, read_pair-SamePools, maybe_get-SamePools, decide-SamePools,
}
use enclave_runtime.Boot.Machine.{
  boot, decide, run_resume, run_genesis, pool, derive_keys, record_pair, put_new, key_error,
}

-- Inversion of the steps that ask the platform.
pub lift_option-ok {ℓ κ μ} :
    {S : Type ℓ} {E : Type κ} {A : Type μ} (f : S → Option A) (e : E) (s t : S) {a : A}
    → lift_option f e s ≡ (ok a, t)
    → (f s ≡ some a) × (s ≡ t)
lift_option-ok f e s t {a} h = elim (Option-cases (f s)) [
  | inl q ↦ let h' = (rw (q, lift_option) at h) in cc
  | inr (b, q) ↦ let h' = (rw (q, lift_option) at h) in (cc, cc)
]

module _ (p : Platform) where
  open_receipt-ok :
      (doc : Bytes) (trust : ReceiptTrust) (ex : Expectations) (now : ℕ) (v : Verified)
      → open_receipt p doc trust ex now ≡ ok v
      → (read_receipt p doc trust ≡ ok v) × Says v ex now
  unfolding open_receipt
  open_receipt-ok doc trust ex now v h =
      let (u, read, h₁) = Result.>>=-eq-ok (read_receipt p doc trust) _ h in
      elim (Result-cases (expect u ex now)) [
        | inr (x, e) ↦ absurd (ground arith)
        | inl (t, e) ↦
            let same : u ≡ v = ground arith in
            (read ∙ ap ok same, subst (λ z. Says z ex now) same ((expect_iff u ex now).0 e))
      ]

  -- The state that was loaded is the one that this receipt accounts for.
  pub record Accounted (config : MountConfig) (trust : ReceiptTrust) (receipt sealed : Bytes)
      (b : Booted p) : Type 0 where
    pub not_genesis : b.mode ≢ genesis
    pub asked_at : p.World
    pub released : p.open_key sealed asked_at ≡ some b.master
    pub derived : p.derive b.master config.fs_id ≡ some b.keys
    pub opened_at : p.World
    pub opened : (p.zfs_open b.keys b.master opened_at).0 ≡ some b.zfs
    pub named : b.root ≡ state_root p (identity_of p b.zfs config sealed)
    pub document : Verified
    pub read : read_receipt p receipt trust ≡ ok document
    pub says : document.document.user_data ≡ some (receipt_payload p purpose_state_origin b.root)

  mode-ne-genesis : (first : Bool) → (if first then upgrade else resume) ≢ genesis
  mode-ne-genesis true e = cc
  mode-ne-genesis false e = cc

  verify_origin-ok :
      (receipt : Bytes) (trust : ReceiptTrust) (root : Bytes) (now : ℕ) {u : Unit {0}}
      → verify_origin p receipt trust root now ≡ ok u
      → (v : Verified) × (read_receipt p receipt trust ≡ ok v)
        × (v.document.user_data ≡ some (receipt_payload p purpose_state_origin root))
  unfolding verify_origin with_user_data
  verify_origin-ok receipt trust root now h =
      let (v, opened, h₁) =
        Result.>>=-eq-ok (open_receipt p receipt trust (origin_expectations p root) now) _ h in
      let (read, says) = open_receipt-ok receipt trust (origin_expectations p root) now v opened in
      (v, read, says.2)

  pool-ok :
      (m : p.World → Option p.Zfs × p.World) (e : BootError) (w w' : p.World) (zfs : p.Zfs)
      → pool p m e w ≡ (ok zfs, w')
      → (m w).0 ≡ some zfs
  pool-ok m e w w' zfs h = elim (Option-cases (m w).0) [
    | inl q ↦ cc (ap (λ r. r.0) (rw (q, pool) at h))
    | inr (z, q) ↦
        let same : z ≡ zfs = ok_injective (ap (λ r. r.0) (rw (q, pool) at h)) in q ∙ ap some same
  ]

  derive_keys-ok :
      (config : MountConfig) (master : p.MasterSecret) (keys : p.KeyMaterial) (w w' : p.World)
      → derive_keys p master config w ≡ (ok keys, w')
      → p.derive master config.fs_id ≡ some keys
  unfolding derive_keys
  derive_keys-ok config master keys w w' h =
      (lift_option-ok (λ _. p.derive master config.fs_id) keys_not_derived w w' h).0

  run_resume-Accounted :
      (config : MountConfig) (trust : ReceiptTrust) (pair : Pair) (receipt sealed : Bytes)
      (w w' : p.World) (b : Booted p)
      → run_resume p config trust pair receipt sealed w ≡ (ok b, w')
      → Accounted config trust receipt sealed b × (b.pair ≡ pair)
  unfolding run_resume
  run_resume-Accounted config trust pair receipt sealed w w' b h =
      let (master, w₁, h₁, k₁) =
        >>=-eq-ok (lift_option (p.open_key sealed) key_not_released) _ w w' h in
      let (keys, w₂, h₂, k₂) = >>=-eq-ok (derive_keys p master config) _ w₁ w' k₁ in
      let (zfs, w₃, h₃, k₃) =
        >>=-eq-ok (pool p (p.zfs_open keys master) pool_not_opened) _ w₂ w' k₂ in
      let (now, w₄, h₄, k₄) = >>=-eq-ok (lift_option p.trusted_now clock_failed) _ w₃ w' k₃ in
      let root = state_root p (identity_of p zfs config sealed) in
      let (u, w₅, h₅, k₅) = >>=-eq-ok (lift (verify_origin p receipt trust root now)) _ w₄ w' k₄ in
      let (first, w₆, h₆, k₆) = >>=-eq-ok (record_pair p config trust pair root now) _ w₅ w' k₅ in
      let (v, read, says) =
        verify_origin-ok receipt trust root now
          (ap (λ (r : Result BootError (Unit {0}) × p.World). r.0) h₅) in
      let built : Booted p = record {
        mode = if first then upgrade else resume;
        zfs = zfs;
        keys = keys;
        root = root;
        pair = pair;
        master = master;
      } in
      let same : built ≡ b =
        ok_injective (ap (λ (r : Result BootError (Booted p) × p.World). r.0) k₆) in
      subst (λ c. Accounted config trust receipt sealed c × (c.pair ≡ pair)) same
        (
          record {
            not_genesis = mode-ne-genesis first;
            asked_at = w;
            released = (lift_option-ok (p.open_key sealed) key_not_released w w₁ h₁).0;
            derived = derive_keys-ok config master keys w₁ w₂ h₂;
            opened_at = w₂;
            opened = pool-ok (p.zfs_open keys master) pool_not_opened w₂ w₃ zfs h₃;
            named = refl;
            document = v;
            read = read;
            says = says;
          },
          refl,
        )

  -- The state of a genesis is the pool that it created.
  pub record Created (config : MountConfig) (b : Booted p) : Type 0 where
    pub is_genesis : b.mode ≡ genesis
    pub minted_at : p.World
    pub sealed : Bytes
    pub minted : p.mint minted_at ≡ some (b.master, sealed)
    pub derived : p.derive b.master config.fs_id ≡ some b.keys
    pub created_at : p.World
    pub created : (p.zfs_create b.keys b.master created_at).0 ≡ some b.zfs
    pub named : b.root ≡ state_root p (identity_of p b.zfs config sealed)

  -- What a successful boot rests on, by what it read under the two derived keys.
  abbrev pub Founded : MountConfig → ReceiptTrust → Booted p → Option Bytes → Option Bytes → Type 0
  Founded config trust b (some receipt) (some sealed) = Accounted config trust receipt sealed b
  Founded config trust b none none = Created config b
  Founded config trust b (some receipt) none = ⊥
  Founded config trust b none (some sealed) = ⊥

  run_genesis-Created :
      (config : MountConfig) (trust : ReceiptTrust) (pair : Pair) (w w' : p.World) (b : Booted p)
      → run_genesis p config trust pair w ≡ (ok b, w')
      → Created config b
  unfolding run_genesis
  run_genesis-Created config trust pair w w' b h =
      let (now, w₁, h₁, k₁) = >>=-eq-ok (lift_option p.trusted_now clock_failed) _ w w' h in
      let (minted, w₂, h₂, k₂) = >>=-eq-ok (lift_option p.mint mint_failed) _ w₁ w' k₁ in
      let (u, w₃, h₃, k₃) =
        >>=-eq-ok
          (put_new p (locked (sealed_key_key p config) minted.1 config.root_retention now)
            (key_error p))
          _ w₂ w' k₂ in
      let (keys, w₄, h₄, k₄) = >>=-eq-ok (derive_keys p minted.0 config) _ w₃ w' k₃ in
      let (zfs, w₅, h₅, k₅) =
        >>=-eq-ok (pool p (p.zfs_create keys minted.0) pool_not_created) _ w₄ w' k₄ in
      let root = state_root p (identity_of p zfs config minted.1) in
      let (doc, w₆, h₆, k₆) =
        >>=-eq-ok
          (lift_option (p.attest (receipt_payload p purpose_state_origin root)) attest_failed) _ w₅
          w' k₅ in
      let (v, w₇, h₇, k₇) =
        >>=-eq-ok
          (put_new p (locked (receipt_key p config) doc config.root_retention now) storing_receipt)
          _ w₆ w' k₆ in
      let (first, w₈, h₈, k₈) = >>=-eq-ok (record_pair p config trust pair root now) _ w₇ w' k₇ in
      let built : Booted p = record {
        mode = genesis;
        zfs = zfs;
        keys = keys;
        root = root;
        pair = pair;
        master = minted.0;
      } in
      let same : built ≡ b =
        ok_injective (ap (λ (r : Result BootError (Booted p) × p.World). r.0) k₈) in
      subst (Created config) same (record {
        is_genesis = refl;
        minted_at = w₁;
        sealed = minted.1;
        minted = (lift_option-ok p.mint mint_failed w₁ w₂ h₂).0;
        derived = derive_keys-ok config minted.0 keys w₃ w₄ h₄;
        created_at = w₄;
        created = pool-ok (p.zfs_create keys minted.0) pool_not_created w₄ w₅ zfs h₅;
        named = refl;
      })

  pub decide-Founded :
      (config : MountConfig) (trust : ReceiptTrust) (pair : Pair) (r s : Option Bytes)
      (w w' : p.World) (b : Booted p)
      → decide p config trust pair r s w ≡ (ok b, w')
      → Founded config trust b r s
  unfolding decide
  decide-Founded config trust pair (some receipt) (some sealed) w w' b h =
      (run_resume-Accounted config trust pair receipt sealed w w' b h).0
  decide-Founded config trust pair none none w w' b h =
      run_genesis-Created config trust pair w w' b h
  decide-Founded config trust pair (some receipt) none w w' b h = cc
  decide-Founded config trust pair none (some sealed) w w' b h = cc

  -- Whether the pools that have been created are those from before: where a receipt was read.
  abbrev pub PoolsKept : (p.World → ℕ) → Option Bytes → p.World → p.World → Type 0
  PoolsKept pools (some receipt) w w' = pools w' ≡ pools w
  PoolsKept pools none w w' = Unit {0}

  decide-PoolsKept :
      (pools : p.World → ℕ) (law : OnlyCreate p pools) (config : MountConfig) (trust : ReceiptTrust)
      (pair : Pair) (r s : Option Bytes) (w₀ w w' : p.World) (b : Booted p)
      → pools w ≡ pools w₀
      → decide p config trust pair r s w ≡ (ok b, w')
      → PoolsKept pools r w₀ w'
  decide-PoolsKept pools law config trust pair none s w₀ w w' b q h = tt
  decide-PoolsKept pools law config trust pair (some receipt) s w₀ w w' b q h =
      subst (λ v. pools v ≡ pools w₀) (ap (λ (x : Result BootError (Booted p) × p.World). x.1) h)
        (decide-SamePools p pools law config trust pair receipt s w ∙ q)

  -- A boot that succeeds read the receipt and the sealed key of this filesystem, past any delete
  -- marker, and found both or neither. With neither its pool is one that it created, under the keys
  -- that it derived from the minted secret. With both it created no pool, where `pools` counts
  -- those that have been created, which neither the bucket nor opening a pool changes; the key
  -- source released its master secret for the very key that was sealed; its pool was opened with
  -- the keys derived from that; and a document that the configured trust accepts, and that carries
  -- the identity of the very pool that was opened, was read from the receipt.
  pub boot-Founded :
      (pools : p.World → ℕ) (law : OnlyCreate p pools) (config : MountConfig) (trust : ReceiptTrust)
      (w w' : p.World) (b : Booted p)
      → boot p config trust w ≡ (ok b, w')
      → (w₁ : p.World) × (r : Option Bytes) × (w₂ : p.World) × (s : Option Bytes) × (w₃ : p.World)
        × (maybe_get p (receipt_key p config) w₁ ≡ (ok r, w₂))
        × (maybe_get p (sealed_key_key p config) w₂ ≡ (ok s, w₃))
        × Founded config trust b r s
        × PoolsKept pools r w w'
  unfolding boot
  boot-Founded pools law config trust w w' b h =
      let (pair, w₁, h₁, k₁) = >>=-eq-ok (read_pair p) _ w w' h in
      let (r, w₂, h₂, k₂) = >>=-eq-ok (maybe_get p (receipt_key p config)) _ w₁ w' k₁ in
      let (s, w₃, h₃, k₃) = >>=-eq-ok (maybe_get p (sealed_key_key p config)) _ w₂ w' k₂ in
      let q₁ : pools w₁ ≡ pools w =
        subst (λ v. pools v ≡ pools w) (ap (λ (x : Result BootError Pair × p.World). x.1) h₁)
          (read_pair-SamePools p pools law w) in
      let q₂ : pools w₂ ≡ pools w =
        subst (λ v. pools v ≡ pools w)
          (ap (λ (x : Result BootError (Option Bytes) × p.World). x.1) h₂)
          (maybe_get-SamePools p pools law (receipt_key p config) w₁ ∙ q₁) in
      let q₃ : pools w₃ ≡ pools w =
        subst (λ v. pools v ≡ pools w)
          (ap (λ (x : Result BootError (Option Bytes) × p.World). x.1) h₃)
          (maybe_get-SamePools p pools law (sealed_key_key p config) w₂ ∙ q₂) in
      (
        w₁,
        r,
        w₂,
        s,
        w₃,
        h₂,
        h₃,
        decide-Founded config trust pair r s w₃ w' b k₃,
        decide-PoolsKept pools law config trust pair r s w w₃ w' b q₃ k₃,
      )

  -- With the trust that an image requires, the document that a receipt was read as is signed by a
  -- key that chains to the AWS root, as of the moment that the document itself states.
  pub Accounted-SignedByAws :
      (config : MountConfig) (receipt sealed : Bytes) (b : Booted p)
      → (a : Accounted config required receipt sealed b) → SignedByAws p receipt a.document
  unfolding read_receipt
  Accounted-SignedByAws config receipt sealed b a =
      verify_as_signed-SignedByAws p receipt a.document a.read

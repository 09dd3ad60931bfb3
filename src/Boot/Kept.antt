-- ===== src/Boot/Kept.antt =====
-- `boot` of runtime/src/boot.rs.
-- Boot over the in-memory backend: once a receipt is held under Object Lock, no boot runs genesis.
use mathlib.Core.Path.{subst}
use enclave_runtime.Prelude.{
  ℕ, ◌≡◌, ◌≢◌, refl, sym, ap, ◌∙◌, Option, none, some, List, Bytes, not, ◌==◌, bytes_eq,
}
use enclave_runtime.Prelude.Result.{Result, ok, err, ensure}
use enclave_runtime.Prelude.Exec.{lift, lift_option, >>=-eq-ok, bind-cases, continue, ◌>>=◌}
use enclave_runtime.Store.Types.{StoreError, StoreResult, GetBlobOutput}
use enclave_runtime.Store.Memory.{State, StoredBlob, retained, meta_from_stored}
use enclave_runtime.Store.Memory
use enclave_runtime.Store.Memory.Calls.{Call, run}
use enclave_runtime.Store.Memory.Retention.{Within, retained-run}
use enclave_runtime.Boot.Types.{
  Platform, Pair, MountConfig, ReceiptTrust, BootError, genesis, Booted, receipt_key,
  sealed_key_key, pcr0_unreadable, pcr16_unreadable, guest_not_locked, guest_not_extended,
  pcr_guest, pcr_zero,
}
use enclave_runtime.Boot.Receipt.{read_pair, maybe_get, register}
use enclave_runtime.Boot.Machine.{boot, decide}
use enclave_runtime.Boot.Pools.{
  OnlyCreate, read_pair-SamePools, maybe_get-SamePools, decide-SamePools,
}
use enclave_runtime.Boot.Origin.{lift_option-ok, Founded, decide-Founded}

-- The part of the answer of `get_retained_blob` that boot reads.
abbrev pub body_of : StoreResult GetBlobOutput → Result StoreError Bytes
body_of (ok out) = ok out.body
body_of (err e) = err e

-- A boot did not run genesis: it failed, or it says so.
abbrev pub NotGenesis : {p : Platform} → Result BootError (Booted p) → Type 0
NotGenesis (ok b) = b.mode ≢ genesis
NotGenesis (err e) = Unit {0}

module _ (p : Platform) (view : p.World → State)
    (backed : (key : Bytes) (w : p.World)
      → p.get_retained_blob key w ≡ (body_of (Memory.get_retained_blob key (view w)), w)) where
  maybe_get-retained :
      (key : Bytes) (w : p.World) (b : StoredBlob)
      → retained (view w) key ≡ some b
      → maybe_get p key w ≡ (ok (some b.body), w)
  unfolding maybe_get Memory.get_retained_blob
  maybe_get-retained key w b h = rw (backed key w, Memory.get_retained_blob, h) refl

  read_pair-same : (w w' : p.World) (pair : Pair) → read_pair p w ≡ (ok pair, w') → w ≡ w'
  unfolding read_pair
  read_pair-same w w' pair h =
      let (r0, w₁, h₁, k₁) = >>=-eq-ok (lift_option (p.describe_pcr 0) pcr0_unreadable) _ w w' h in
      let (guest, w₂, h₂, k₂) =
        >>=-eq-ok (lift_option (p.describe_pcr pcr_guest) pcr16_unreadable) _ w₁ w' k₁ in
      let (u, w₃, h₃, k₃) = >>=-eq-ok (lift (ensure guest.locked guest_not_locked)) _ w₂ w' k₂ in
      let (u', w₄, h₄, k₄) =
        >>=-eq-ok (lift (ensure (not (guest.value == pcr_zero)) guest_not_extended)) _ w₃ w' k₃ in
      let (v0, w₅, h₅, k₅) = >>=-eq-ok (lift (register r0.value 0)) _ w₄ w' k₄ in
      let (v16, w₆, h₆, k₆) = >>=-eq-ok (lift (register guest.value pcr_guest)) _ w₅ w' k₅ in
      (lift_option-ok (p.describe_pcr 0) pcr0_unreadable w w₁ h₁).1
      ∙ (lift_option-ok (p.describe_pcr pcr_guest) pcr16_unreadable w₁ w₂ h₂).1
      ∙ same h₃
      ∙ same h₄
      ∙ same h₅
      ∙ same h₆
      ∙ same k₆
    where
      same :
          {A : Type 0} {r r' : Result BootError A} {s s' : p.World}
          → ◌≡◌ {A = Result BootError A × p.World} (r, s) (r', s')
          → s ≡ s'
      same e = ap (λ (x : Result BootError _ × p.World). x.1) e

  Founded-receipt :
      (config : MountConfig) (trust : ReceiptTrust) (b : Booted p) (receipt : Bytes)
      (sealed : Option Bytes)
      → Founded p config trust b (some receipt) sealed
      → b.mode ≢ genesis
  Founded-receipt config trust b receipt (some sealed) f = f.not_genesis
  Founded-receipt config trust b receipt none f = absurd f

  decide-NotGenesis :
      (config : MountConfig) (trust : ReceiptTrust) (pair : Pair) (receipt : Bytes)
      (sealed : Option Bytes) (w : p.World)
      → NotGenesis (decide p config trust pair (some receipt) sealed w).0
  decide-NotGenesis config trust pair receipt sealed w =
      go (decide p config trust pair (some receipt) sealed w) refl
    where
      go :
          (r : Result BootError (Booted p) × p.World)
          → decide p config trust pair (some receipt) sealed w ≡ r
          → NotGenesis r.0
      go (err e, w') q = tt
      go (ok b, w') q =
          Founded-receipt config trust b receipt sealed
            (decide-Founded p config trust pair (some receipt) sealed w w' b q)

  module _ (pools : p.World → ℕ) (law : OnlyCreate p pools) where
    -- Where the bucket is the in-memory backend, and `pools` counts the pools that have been
    -- created, which neither the bucket nor opening a pool changes: once `get_retained_blob` reads
    -- a version of the receipt, then after any calls of the backend that come before the end of
    -- that version's retention, its deletes included, a boot creates no pool, however it ends, and
    -- one that succeeds has not run genesis.
    pub boot-run :
        (config : MountConfig) (trust : ReceiptTrust) (etag : ℕ → Bytes → Bytes)
        (version : StoredBlob) (cs : List (ℕ × Call)) (before : State) (w : p.World)
        → retained before (receipt_key p config) ≡ some version
        → Within etag (receipt_key p config) version cs
        → view w ≡ run etag cs before
        → (pools (boot p config trust w).1 ≡ pools w) × NotGenesis (boot p config trust w).0
    unfolding boot
    boot-run config trust etag version cs before w held within seen =
        bind-cases Good (read_pair p) _ w
          (λ e t q. (moved q (read_pair-SamePools p pools law w), tt))
          (λ pair w₁ h₁.
            let still : retained (view w₁) key ≡ some version =
              ap (λ v. retained (view v) key) (sym (read_pair-same w w₁ pair h₁))
              ∙ ap (λ v. retained v key) seen
              ∙ retained-run etag key version cs before held within in
            let here = maybe_get-retained key w₁ version still in
            let same : pools w₁ ≡ pools w = ap pools (sym (read_pair-same w w₁ pair h₁)) in
            subst
              (λ r. Good (
                continue r (λ receipt. maybe_get p (sealed_key_key p config) >>= λ sealed.
                decide p config trust pair receipt sealed)))
              (sym here)
              (bind-cases Good (maybe_get p (sealed_key_key p config)) _ w₁
                (λ e t q. (
                  moved q (maybe_get-SamePools p pools law (sealed_key_key p config) w₁) ∙ same,
                  tt,
                ))
                (λ sealed w₂ h₂. (
                  decide-SamePools p pools law config trust pair version.body sealed w₂
                      ∙ moved h₂ (maybe_get-SamePools p pools law (sealed_key_key p config) w₁)
                      ∙ same,
                  decide-NotGenesis config trust pair version.body sealed w₂,
                ))))
      where
        key : Bytes
        key = receipt_key p config

        Good : Result BootError (Booted p) × p.World → Type 0
        Good r = (pools r.1 ≡ pools w) × NotGenesis r.0

        moved :
            {A : Type 0} {x : Result BootError A × p.World} {r : Result BootError A} {t u : p.World}
            → x ≡ (r, t)
            → pools x.1 ≡ pools u
            → pools t ≡ pools u
        moved {u = u} q k = subst (λ y. pools y.1 ≡ pools u) q k

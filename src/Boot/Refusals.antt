-- ===== src/Boot/Refusals.antt =====
-- `boot` of runtime/src/boot.rs.
-- The boots that are refused, and how far they get.
use enclave_runtime.Prelude.{
  ◌≡◌, ◌≢◌, refl, true, false, some, Bytes, arith, bytes_eq, bytes_beq_refl,
}
use enclave_runtime.Prelude.Result.{err}
use enclave_runtime.Store.Types.{StoreError, not_found}
use enclave_runtime.Boot.Types.{
  Platform, MountConfig, ReceiptTrust, Register, guest_not_locked, guest_not_extended, pcr_guest,
  pcr_zero, reading,
}
use enclave_runtime.Boot.Receipt.{read_pair, maybe_get}
use enclave_runtime.Boot.Machine.{boot}

module _ (p : Platform) (config : MountConfig) (trust : ReceiptTrust) where
  read_pair_unlocked :
      (w : p.World) (r0 guest : Register)
      → p.describe_pcr 0 w ≡ some r0
      → p.describe_pcr pcr_guest w ≡ some guest
      → guest.locked ≡ false
      → read_pair p w ≡ (err guest_not_locked, w)
  unfolding read_pair
  read_pair_unlocked w r0 guest h h' l = ground arith

  read_pair_unextended :
      (w : p.World) (r0 guest : Register)
      → p.describe_pcr 0 w ≡ some r0
      → p.describe_pcr pcr_guest w ≡ some guest
      → guest.locked ≡ true
      → guest.value ≡ pcr_zero
      → read_pair p w ≡ (err guest_not_extended, w)
  unfolding read_pair
  read_pair_unextended w r0 guest h h' l z = ground (arith, bytes_beq_refl pcr_zero)

  -- An enclave whose guest register is not locked is refused, and leaves the world as it was.
  pub boot-unlocked :
      (w : p.World) (r0 guest : Register)
      → p.describe_pcr 0 w ≡ some r0
      → p.describe_pcr pcr_guest w ≡ some guest
      → guest.locked ≡ false
      → boot p config trust w ≡ (err guest_not_locked, w)
  unfolding boot
  boot-unlocked w r0 guest h h' l = rw (read_pair_unlocked w r0 guest h h' l) refl

  -- So is one whose guest register is locked and was never extended.
  pub boot-unextended :
      (w : p.World) (r0 guest : Register)
      → p.describe_pcr 0 w ≡ some r0
      → p.describe_pcr pcr_guest w ≡ some guest
      → guest.locked ≡ true
      → guest.value ≡ pcr_zero
      → boot p config trust w ≡ (err guest_not_extended, w)
  unfolding boot
  boot-unextended w r0 guest h h' l z = rw (read_pair_unextended w r0 guest h h' l z) refl

  -- A read that fails for any reason but absence is an error, and never stands for absence.
  pub maybe_get-err :
      (key : Bytes) (w w' : p.World) (e : StoreError)
      → e ≢ not_found
      → p.get_retained_blob key w ≡ (err e, w')
      → maybe_get p key w ≡ (err (reading e), w')
  unfolding maybe_get
  maybe_get-err key w w' StoreError.not_found ne h = absurd (ne refl)
  maybe_get-err key w w' e ne h = rw h refl

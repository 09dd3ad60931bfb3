-- ===== src/Boot/Receipt.antt =====
-- Reading and checking the documents of runtime/src/boot.rs: `Pair::read`, `maybe_get`,
-- `open_receipt`, `verify_as_signed`, `verify_origin` and `verify_pair_record`.
use enclave_runtime.Prelude.{
  ℕ, false, not, Option, none, some, Bytes, length, ◌==◌, nat_eq, bytes_eq, if◌then◌else◌,
}
use enclave_runtime.Prelude.Result
use enclave_runtime.Prelude.Result.{Result, ok, err, ensure}
use enclave_runtime.Prelude.Exec.{Exec, pure, lift, lift_option, ◌>>=◌, ◌>>◌}
use enclave_runtime.Store.Types.{StoreError}
use enclave_runtime.Attestation.Types.{
  AttestError, Expectations, Verified, chain_verified, unsigned_document,
}
use enclave_runtime.Attestation.Payload.{parse}
use enclave_runtime.Attestation.Chain.{verify}
use enclave_runtime.Attestation.Expect.{
  expect, no_expectations, with_pcr, with_pcr0, with_user_data,
}
use enclave_runtime.Boot.Types.{
  Platform, Pair, ReceiptTrust, required, unsigned_emulator, BootError, pcr0_unreadable,
  pcr16_unreadable, guest_not_locked, guest_not_extended, bad_register, reading, not_a_receipt,
  not_chain_verified, receipt_says_otherwise, pcr_guest, pcr_zero, purpose_state_origin,
  purpose_pair, receipt_payload,
}

-- `register`: a SHA-384 register is 48 bytes.
unfoldable pub register : Bytes → ℕ → Result BootError Bytes
register value index = if length value == 48 then ok value else err (bad_register index)

module _ (p : Platform) where
  abbrev pub Boot : Type 0 → Type 0
  Boot A = Exec p.World BootError A

  -- Pair::read
  unfoldable pub read_pair : Boot Pair
  unfolding register
  read_pair = do
    pcr0 ← lift_option (p.describe_pcr 0) pcr0_unreadable
    guest ← lift_option (p.describe_pcr pcr_guest) pcr16_unreadable
    lift (ensure guest.locked guest_not_locked)
    lift (ensure (not (guest.value == pcr_zero)) guest_not_extended)
    v0 ← lift (register pcr0.value 0)
    v16 ← lift (register guest.value pcr_guest)
    pure (record { pcr0 = v0; pcr16 = v16 })

  -- What `maybe_get` makes of the answer to `get_retained_blob`.
  abbrev pub absent_or_failed : Result StoreError Bytes → Result BootError (Option Bytes)
  absent_or_failed (ok body) = ok (some body)
  absent_or_failed (err StoreError.not_found) = ok none
  absent_or_failed (err e) = err (reading e)

  unfoldable pub maybe_get : Bytes → Boot (Option Bytes)
  maybe_get key w = let (r, w') = p.get_retained_blob key w in (absent_or_failed r, w')

  -- verify_as_signed: the moment to check at is the document's own timestamp.
  unfoldable pub verify_as_signed : Bytes → Bytes → Result BootError Verified
  verify_as_signed doc trust_root = elim (parse p.crypto doc) [
    | err e ↦ err (not_a_receipt e)
    | ok document ↦
        elim (verify p.crypto doc (record {
          trust_root = trust_root;
          now = document.timestamp_ms;
          allow_untrusted_root = false;
        })) [
          | err e ↦ err (not_a_receipt e)
          | ok verified ↦ elim verified.trust [
            | chain_verified ↦ ok verified
            | _ ↦ err not_chain_verified
          ]
        ]
  ]

  -- The documents that each setting of the trust accepts.
  unfoldable pub read_receipt : Bytes → ReceiptTrust → Result BootError Verified
  unfolding verify_as_signed
  read_receipt doc required = verify_as_signed doc p.aws_root
  read_receipt doc unsigned_emulator = elim (parse p.crypto doc) [
    | err e ↦ err (not_a_receipt e)
    | ok document ↦ ok (record { document = document; trust = unsigned_document })
  ]

  abbrev pub or_says_otherwise :
      Verified → Result AttestError (Unit {0}) → Result BootError Verified
  or_says_otherwise v (ok u) = ok v
  or_says_otherwise v (err e) = err (receipt_says_otherwise e)

  unfoldable pub open_receipt : Bytes → ReceiptTrust → Expectations → ℕ → Result BootError Verified
  unfolding read_receipt
  open_receipt doc trust expected now =
      Result.◌>>=◌ (read_receipt doc trust) (λ v. or_says_otherwise v (expect v expected now))

  abbrev pub origin_expectations : Bytes → Expectations
  origin_expectations root =
      with_user_data (receipt_payload p purpose_state_origin root) no_expectations

  unfoldable pub verify_origin : Bytes → ReceiptTrust → Bytes → ℕ → Result BootError (Unit {0})
  unfolding open_receipt
  verify_origin receipt trust root now =
      Result.◌>>=◌ (open_receipt receipt trust (origin_expectations root) now) (λ _. ok tt)

  abbrev pub pair_expectations : Pair → Bytes → Expectations
  pair_expectations pair root =
      with_user_data (receipt_payload p purpose_pair root)
        (with_pcr pcr_guest pair.pcr16 (with_pcr0 pair.pcr0 no_expectations))

  unfoldable pub verify_pair_record :
      Bytes → ReceiptTrust → Pair → Bytes → ℕ → Result BootError (Unit {0})
  unfolding open_receipt
  verify_pair_record doc trust pair root now =
      Result.◌>>=◌ (open_receipt doc trust (pair_expectations pair root) now) (λ _. ok tt)

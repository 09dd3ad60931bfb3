-- ===== src/Boot/Types.antt =====
-- The types of runtime/src/boot.rs, the keys and payloads that it derives, and what it calls.
--
-- `Platform` holds what boot reaches through a trait or a library: the roots bucket behind `Backend`,
-- the NSM, the key source, the trusted clock, the pool of runtime/src/zfs.rs, key derivation,
-- and the encoders `ciborium`, `blake3` and `hex`. Its state `World` is everything that may change
-- while boot runs, what other enclaves and the host do to the bucket included: every call may find it
-- changed.
use enclave_runtime.Prelude.{ℕ, ◌+◌, Bool, Option, ◌++◌, Bytes, ascii, nat_eq, bytes_eq, replicate}
use enclave_runtime.Prelude.Result.{Result}
use enclave_runtime.Attestation.Types.{
  Crypto, AttestError, Value, array, bytes, text, map, nil, item, end, entry,
}
use enclave_runtime.Store.Types.{StoreError, PutBlobInput, compliance, new_put, with_object_lock}

pub data BootMode : Type 0 where
  genesis resume upgrade : BootMode

pub record Pair : Type 0 where
  pub pcr0 : Bytes
  pub pcr16 : Bytes

-- nitro_nsm's answer to `describe_pcr`.
pub record Register : Type 0 where
  pub value : Bytes
  pub locked : Bool

-- The part of `MountConfig` that boot reads, its trust in receipts and its clock's unit apart.
pub record MountConfig : Type 0 where
  pub bucket_prefix : Bytes
  pub roots_bucket : Bytes
  pub fs_id : Bytes
  pub root_retention : ℕ

pub data ReceiptTrust : Type 0 where
  required unsigned_emulator : ReceiptTrust

pub data BootError : Type 0 where
  pcr0_unreadable pcr16_unreadable guest_not_locked guest_not_extended : BootError
  bad_register : ℕ → BootError
  reading : StoreError → BootError
  not_a_receipt : AttestError → BootError
  not_chain_verified : BootError
  receipt_says_otherwise : AttestError → BootError
  key_not_released keys_not_derived pool_not_opened pool_not_created : BootError
  clock_failed attest_failed mint_failed : BootError
  another_genesis : BootError
  storing_key storing_receipt storing_pair : StoreError → BootError
  pair_vanished : BootError
  receipt_without_key key_without_receipt : BootError

pub record Platform : Type 1 where
  pub crypto : Crypto
  pub World : Type 0
  -- Backend::get_retained_blob, its body, and Backend::put_blob_if_not_exists
  pub get_retained_blob : Bytes → World → Result StoreError Bytes × World
  pub put_blob_if_not_exists : PutBlobInput → World → Result StoreError (Unit {0}) × World
  -- Nsm::describe_pcr and Nsm::attest with this user data
  pub describe_pcr : ℕ → World → Option Register
  pub attest : Bytes → World → Option Bytes
  -- MasterKeySource::open and mint, and SealedKey::sha256
  pub MasterSecret : Type 0
  pub open_key : Bytes → World → Option MasterSecret
  pub mint : World → Option (MasterSecret × Bytes)
  pub sealed_sha256 : Bytes → Bytes
  -- KeyMaterial::derive
  pub KeyMaterial : Type 0
  pub derive : MasterSecret → Bytes → Option KeyMaterial
  -- Zfs::open, Zfs::create and Zfs::genesis_hash
  pub Zfs : Type 0
  pub zfs_open : KeyMaterial → MasterSecret → World → Option Zfs × World
  pub zfs_create : KeyMaterial → MasterSecret → World → Option Zfs × World
  pub genesis_hash : Zfs → Bytes
  -- TrustedClock::now
  pub trusted_now : World → Option ℕ
  -- ciborium::into_writer, blake3::hash, hex::encode, nitro_attestation::sha256
  pub into_writer : Value → Bytes
  pub blake3 : Bytes → Bytes
  pub hex : Bytes → Bytes
  pub sha256 : Bytes → Bytes
  -- AWS_NITRO_ROOT_G1_PEM
  pub aws_root : Bytes

-- nitro_nsm::PCR_GUEST and PCR_ZERO
abbrev pub pcr_guest : ℕ
pcr_guest = 16

abbrev pub pcr_zero : Bytes
pcr_zero = replicate 48 0

abbrev pub purpose_state_origin : Bytes
purpose_state_origin = ascii "state-origin"

abbrev pub purpose_pair : Bytes
purpose_pair = ascii "state-pair"

abbrev pub state_root_schema : Bytes
state_root_schema = ascii "zfs/state-origin/v2"

pub record StateIdentity : Type 0 where
  pub fs_uuid : Bytes
  pub roots_bucket : Bytes
  pub bucket_prefix : Bytes
  pub genesis_anchor_hash : Bytes
  pub sealed_key_sha256 : Bytes

-- The CBOR value that `StateIdentity::state_root` hashes.
unfoldable pub state_value : StateIdentity → Value
state_value id = array (
    item (text state_root_schema) (
      item (bytes id.fs_uuid) (
        item (text id.roots_bucket) (
          item (text id.bucket_prefix)
            (item (bytes id.genesis_anchor_hash) (item (bytes id.sealed_key_sha256) nil))))))

-- `locked`: what boot writes is under the retention of the anchor chain, from the trusted time on.
unfoldable pub locked : Bytes → Bytes → ℕ → ℕ → PutBlobInput
unfolding new_put with_object_lock
locked key body retention now =
    with_object_lock (new_put key body)
      (record { mode = compliance; retain_until = now + retention })

module _ (p : Platform) where
  -- StateIdentity::state_root
  unfoldable pub state_root : StateIdentity → Bytes
  unfolding state_value
  state_root id = p.blake3 (p.into_writer (state_value id))

  unfoldable pub receipt_payload : Bytes → Bytes → Bytes
  receipt_payload purpose root = p.into_writer (
      map (
        entry (text (ascii "purpose")) (text purpose)
          (entry (text (ascii "state_root")) (bytes root) end)))

  unfoldable pub receipt_key : MountConfig → Bytes
  receipt_key config =
      config.bucket_prefix ++ (ascii "origin/" ++ (p.hex config.fs_id ++ ascii ".receipt"))

  unfoldable pub sealed_key_key : MountConfig → Bytes
  sealed_key_key config =
      config.bucket_prefix ++ (ascii "origin/" ++ (p.hex config.fs_id ++ ascii ".key"))

  -- Pair::record_key
  unfoldable pub record_key : Pair → MountConfig → Bytes
  record_key pair config =
      config.bucket_prefix
      ++ (ascii "origin/"
          ++ (p.hex config.fs_id ++ (ascii ".pair." ++ p.hex (p.sha256 (pair.pcr0 ++ pair.pcr16)))))

  pub record Booted : Type 0 where
    pub mode : BootMode
    pub zfs : p.Zfs
    pub keys : p.KeyMaterial
    pub root : Bytes
    pub pair : Pair
    pub master : p.MasterSecret

  -- identity_of
  unfoldable pub identity_of : p.Zfs → MountConfig → Bytes → StateIdentity
  identity_of zfs config sealed = record {
    fs_uuid = config.fs_id;
    roots_bucket = config.roots_bucket;
    bucket_prefix = config.bucket_prefix;
    genesis_anchor_hash = p.genesis_hash zfs;
    sealed_key_sha256 = p.sealed_sha256 sealed;
  }

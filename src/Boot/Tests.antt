-- ===== src/Boot/Tests.antt =====
-- A boot at concrete inputs, on a platform whose world is the bucket and the count of the pools that were
-- created.
use enclave_runtime.Prelude.{
  ℕ, ◌+◌, ◌≡◌, refl, Bool, true, Option, none, some, [], ◌∷◌, ◌++◌, Bytes, ascii, bytes_eq, zero,
  suc,
}
use enclave_runtime.Prelude.Map.{Map, get, insert}
use enclave_runtime.Prelude.Result.{Result, ok, err}
use enclave_runtime.Store.Types.{StoreError, PutBlobInput}
use enclave_runtime.Attestation.Types.{Value, bytes, text, map, entry, end}
use enclave_runtime.Attestation.Tests.{toy_crypto, toy_pcr0, toy_pcr16, toy_document}
use enclave_runtime.Attestation.Types.{Verified, chain_verified}
use enclave_runtime.Attestation.Payload.{parse, decode_fields}
use enclave_runtime.Attestation.Chain.{verify}
use enclave_runtime.Attestation.Expect.{expect, with_user_data, with_pcr, with_pcr0}
use enclave_runtime.Boot.Types.{
  Platform, Pair, Register, MountConfig, required, genesis, resume, Booted, receipt_key,
  sealed_key_key, state_root, identity_of, receipt_payload, record_key, locked,
}
use enclave_runtime.Boot.Receipt.{
  maybe_get, read_pair, read_receipt, verify_origin, verify_pair_record,
}
use enclave_runtime.Boot.Machine.{boot}
use enclave_runtime.Boot.Origin.{Founded, PoolsKept, Accounted, boot-Founded, Accounted-SignedByAws}
use enclave_runtime.Boot.Signed.{SignedByAws}
use enclave_runtime.Boot.Pools.{OnlyCreate}

abbrev Bucket : Type 0
Bucket = Map Bytes Bytes

abbrev found : Option Bytes → Result StoreError Bytes
found none = err StoreError.not_found
found (some body) = ok body

abbrev World : Type 0
World = Bucket × ℕ

abbrev pools : World → ℕ
pools w = w.1

abbrev put_absent : PutBlobInput → World → Option Bytes → Result StoreError (Unit {0}) × World
put_absent input w none = (ok tt, (insert input.key input.body w.0, w.1))
put_absent input w (some body) = (err StoreError.already_exists, w)

-- The two strings of a receipt's payload, or nothing: enough of an encoder for the run below.
abbrev pub encode : Value → Bytes
encode (map (entry k (text purpose) (entry k' (bytes root) end))) = purpose ++ root
encode v = []

abbrev pub toy_register : Bool → Bytes → ℕ → Option Register
toy_register locked guest zero = some (record { value = toy_pcr0; locked = true })
toy_register locked guest (suc n) = some (record { value = guest; locked = locked })

abbrev platform_with : Bool → Bytes → Platform
platform_with locked guest = record {
  crypto = toy_crypto;
  World = World;
  get_retained_blob = λ key w. (found (get key w.0), w);
  put_blob_if_not_exists = λ input w. put_absent input w (get input.key w.0);
  describe_pcr = λ n w. toy_register locked guest n;
  attest = λ payload w. some payload;
  MasterSecret = Unit {0};
  open_key = λ sealed w. some tt;
  mint = λ w. some (tt, 3 ∷ []);
  sealed_sha256 = λ b. b;
  KeyMaterial = Unit {0};
  derive = λ m id. some tt;
  Zfs = Unit {0};
  zfs_open = λ k m w. (some tt, w);
  zfs_create = λ k m w. (some tt, (w.0, w.1 + 1));
  genesis_hash = λ z. 4 ∷ [];
  trusted_now = λ w. some 6000;
  into_writer = encode;
  blake3 = λ b. 5 ∷ b;
  hex = λ b. b;
  sha256 = λ b. 6 ∷ [];
  aws_root = 7 ∷ [];
}

abbrev platform : Platform
platform = platform_with true toy_pcr16

abbrev pub config : MountConfig
config = record {
  bucket_prefix = ascii "p/";
  roots_bucket = ascii "roots";
  fs_id = ascii "fs";
  root_retention = 1000;
}

-- The payload of the receipt, and the bucket as the genesis below leaves it.
abbrev pub payload : Bytes
payload = ascii "state-origin" ++ 5 ∷ []

abbrev bucket : Bucket
bucket =
    (ascii "p/origin/fs.pair." ++ 6 ∷ [], ascii "state-pair" ++ 5 ∷ [])
    ∷ (ascii "p/origin/fs.receipt", payload)
    ∷ (ascii "p/origin/fs.key", 3 ∷ [])
    ∷ []

abbrev pub pair : Pair
pair = record { pcr0 = toy_pcr0; pcr16 = toy_pcr16 }

abbrev resumed : Booted platform
resumed = record { mode = resume; zfs = tt; keys = tt; root = 5 ∷ []; pair = pair; master = tt }

genesis_run :
    (boot platform config required ([], 0)) ≡ (ok (record resumed { mode = genesis }), (bucket, 1))
unfolding boot read_pair maybe_get receipt_key sealed_key_key record_key state_root identity_of
    receipt_payload locked read_receipt verify_origin verify_pair_record with_user_data with_pcr
    with_pcr0 parse decode_fields verify expect get insert
genesis_run = refl

resume_run : (boot platform config required (bucket, 1)) ≡ (ok resumed, (bucket, 1))
unfolding boot read_pair maybe_get receipt_key sealed_key_key record_key state_root identity_of
    receipt_payload locked read_receipt verify_origin verify_pair_record with_user_data with_pcr
    with_pcr0 parse decode_fields verify expect get insert
resume_run = refl

put_absent-kept :
    (input : PutBlobInput) (w : World) (o : Option Bytes) → pools (put_absent input w o).1 ≡ pools w
put_absent-kept input w none = refl
put_absent-kept input w (some body) = refl

only_create : OnlyCreate platform pools
only_create = record {
  kept_get = λ key w. refl;
  kept_put = λ input w. put_absent-kept input w (get input.key w.0);
  kept_open = λ keys master w. refl;
}

boot-Founded_example :
    (w₁ : World) × (r : Option Bytes) × (w₂ : World) × (s : Option Bytes) × (w₃ : World)
    × (maybe_get platform (receipt_key platform config) w₁ ≡ (ok r, w₂))
    × (maybe_get platform (sealed_key_key platform config) w₂ ≡ (ok s, w₃))
    × Founded platform config required resumed r s
    × PoolsKept platform pools r (bucket, 1) (bucket, 1)
boot-Founded_example =
    boot-Founded platform pools only_create config required (bucket, 1) (bucket, 1) resumed
      resume_run

abbrev receipt_read : Verified
receipt_read = record { document = toy_document payload; trust = chain_verified }

resumed-Accounted : Accounted platform config required payload (3 ∷ []) resumed
unfolding state_root identity_of receipt_payload read_receipt parse decode_fields verify insert
resumed-Accounted = record {
  not_genesis = λ e. cc;
  asked_at = (bucket, 1);
  released = refl;
  derived = refl;
  opened_at = (bucket, 1);
  opened = refl;
  named = refl;
  document = receipt_read;
  read = refl;
  says = refl;
}

Accounted-SignedByAws_example : SignedByAws platform payload resumed-Accounted.document
Accounted-SignedByAws_example =
    Accounted-SignedByAws platform config payload (3 ∷ []) resumed resumed-Accounted

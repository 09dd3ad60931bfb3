-- ===== src/Boot/StoreTests.antt =====
-- A boot over the in-memory backend, after someone has deleted the receipt.
use enclave_runtime.Prelude.{
  ℕ, ◌+◌, ◌≡◌, refl, true, none, some, List, [], ◌∷◌, ◌++◌, Bytes, ascii, bytes_eq,
}
use enclave_runtime.Prelude.Map.{get, insert, remove}
use enclave_runtime.Prelude.Result.{Result, ok, err}
use enclave_runtime.Store.Types.{StoreError, StoreResult, BlobMeta, compliance}
use enclave_runtime.Store.Memory
use enclave_runtime.Store.Memory.{State, StoredBlob, retained, is_retained}
use enclave_runtime.Store.Memory.Calls.{Call, deletes, run}
use enclave_runtime.Attestation.Tests.{toy_crypto, toy_pcr16}
use enclave_runtime.Attestation.Payload.{parse, decode_fields}
use enclave_runtime.Attestation.Chain.{verify}
use enclave_runtime.Attestation.Expect.{expect, with_user_data, with_pcr, with_pcr0}
use enclave_runtime.Boot.Types.{
  Platform, required, resume, Booted, receipt_key, sealed_key_key, record_key, state_root,
  identity_of, receipt_payload,
}
use enclave_runtime.Boot.Receipt.{
  maybe_get, read_pair, read_receipt, verify_origin, verify_pair_record,
}
use enclave_runtime.Boot.Machine.{boot}
use enclave_runtime.Boot.Kept.{body_of, NotGenesis, boot-run}
use enclave_runtime.Boot.Pools.{OnlyCreate}
use enclave_runtime.Boot.Tests.{encode, toy_register, config, payload, pair}

abbrev toy_etag : ℕ → Bytes → Bytes
toy_etag n body = n ∷ []

abbrev unit_of : StoreResult BlobMeta → Result StoreError (Unit {0})
unit_of (ok meta) = ok tt
unit_of (err e) = err e

-- The backend, and the count of the pools that were created.
abbrev World : Type 0
World = State × ℕ

abbrev pools : World → ℕ
pools w = w.1

abbrev put_at : ℕ → StoreResult BlobMeta × State → Result StoreError (Unit {0}) × World
put_at n r = (unit_of r.0, (r.1, n))

abbrev platform : Platform
platform = record {
  crypto = toy_crypto;
  World = World;
  get_retained_blob = λ key w. (body_of (Memory.get_retained_blob key w.0), w);
  put_blob_if_not_exists =
      λ input w. put_at w.1 (Memory.put_blob_if_not_exists toy_etag input 6000 w.0);
  describe_pcr = λ n w. toy_register true toy_pcr16 n;
  attest = λ payload w. some payload;
  MasterSecret = Unit {0};
  open_key = λ sealed w. some tt;
  mint = λ w. some (tt, 3 ∷ []);
  sealed_sha256 = λ b. b;
  KeyMaterial = Unit {0};
  derive = λ m id. some tt;
  Zfs = Unit {0};
  zfs_open = λ k m w. (some tt, w);
  zfs_create = λ k m w. (some tt, (w.0, w.1 + 1));
  genesis_hash = λ z. 4 ∷ [];
  trusted_now = λ w. some 6000;
  into_writer = encode;
  blake3 = λ b. 5 ∷ b;
  hex = λ b. b;
  sha256 = λ b. 6 ∷ [];
  aws_root = 7 ∷ [];
}

abbrev held : Bytes → StoredBlob
held body = record {
  body = body;
  e_tag = 1 ∷ [];
  last_modified = 5000;
  content_type = none;
  metadata = [];
  object_lock = some (record { mode = compliance; retain_until = 7000 });
}

-- The bucket as genesis leaves it.
abbrev founded : State
founded = record {
  objects =
      (ascii "p/origin/fs.receipt", held payload)
      ∷ (ascii "p/origin/fs.key", held (3 ∷ []))
      ∷ (ascii "p/origin/fs.pair." ++ 6 ∷ [], held (ascii "state-pair" ++ 5 ∷ []))
      ∷ [];
  delete_markers = [];
  pinned = [];
  mpus = [];
  next_mpu_id = 1;
  next_etag = 4;
  fail_next_put = none;
}

abbrev calls : List (ℕ × Call)
calls =
    (5500, deletes (ascii "p/origin/fs.receipt")) ∷ (5501, deletes (ascii "p/origin/fs.key")) ∷ []

abbrev resumed : Booted platform
resumed = record { mode = resume; zfs = tt; keys = tt; root = 5 ∷ []; pair = pair; master = tt }

abbrev deleted : State
deleted = record founded {
  delete_markers = (ascii "p/origin/fs.key", tt) ∷ (ascii "p/origin/fs.receipt", tt) ∷ [];
}

founded-retained : retained founded (receipt_key platform config) ≡ some (held payload)
unfolding retained receipt_key get
founded-retained = refl

deleted-run : deleted ≡ run toy_etag calls founded
unfolding run is_retained get insert remove
deleted-run = refl

deleted-boot : boot platform config required (deleted, 1) ≡ (ok resumed, (deleted, 1))
unfolding boot read_pair maybe_get receipt_key sealed_key_key record_key state_root identity_of
    receipt_payload read_receipt verify_origin verify_pair_record with_user_data with_pcr with_pcr0
    parse decode_fields verify expect get insert Memory.get_retained_blob
deleted-boot = refl

only_create : OnlyCreate platform pools
only_create = record {
  kept_get = λ key w. refl;
  kept_put = λ input w. refl;
  kept_open = λ keys master w. refl;
}

boot-run_example :
    (pools (boot platform config required (deleted, 1)).1 ≡ 1)
    × NotGenesis (boot platform config required (deleted, 1)).0
unfolding is_retained
boot-run_example =
    boot-run platform (λ w. w.0) (λ key w. refl) pools only_create config required toy_etag
      (held payload) calls founded (deleted, 1) founded-retained (refl, (refl, tt)) deleted-run

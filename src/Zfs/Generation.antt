-- ===== src/Zfs/Generation.antt =====
-- The generation claims of runtime/src/zfs.rs: `seal_generation`, `verify_generation`,
-- `generation_exists` and `claim_generation`.
--
-- A generation is below 2^64, so that `t + 1` does not wrap. The 1024 tries of `claim_generation` are
-- its own bound.
pub mod Claimed
use enclave_runtime.Prelude.{
  ℕ, zero, suc, ◌+◌, Bool, true, false, ◌&&◌, Option, none, some, ◌++◌, Bytes, ascii, length, take,
  drop, bytes_eq, nat_eq, ◌==◌,
}
use enclave_runtime.Prelude.Result
use enclave_runtime.Prelude.Result.{Result, ok, err, ensure}
use enclave_runtime.Prelude.Exec.{pure, raise, lift, ◌>>=◌, ◌>>◌}
use enclave_runtime.Prelude.Words.{be_bytes, slice}
use enclave_runtime.Store.Types.{StoreError, StoreResult, PutBlobInput, integrity}
use enclave_runtime.Zfs.Types.{
  Host, KeyMaterial, Run, ZfsError, store, gave_up, retain_until, locked,
}
use enclave_runtime.Zfs.Tip.{exists_raw, chain_tip}
use enclave_runtime.Zfs.Anchor.{u64_at}

abbrev pub gen_magic : Bytes
gen_magic = ascii "ZFSGEN01"

abbrev pub gen_off_g : ℕ
gen_off_g = 8

abbrev pub gen_off_fs_uuid : ℕ
gen_off_fs_uuid = gen_off_g + 8

abbrev pub gen_off_pubkey : ℕ
gen_off_pubkey = gen_off_fs_uuid + 16

abbrev pub gen_signed_len : ℕ
gen_signed_len = gen_off_pubkey + 32

abbrev pub gen_len : ℕ
gen_len = gen_signed_len + 64

-- chain_tip(...).map_or(0, |t| t + 1)
unfoldable pub first_unused : Option ℕ → ℕ
first_unused none = 0
first_unused (some t) = t + 1

abbrev pub is_already_exists : StoreError → Bool
is_already_exists StoreError.already_exists = true
is_already_exists _ = false

module _ (h : Host) where
  -- The bytes that `seal_generation` signs.
  unfoldable pub gen_signed_part : KeyMaterial → ℕ → Bytes
  gen_signed_part keys generation =
      gen_magic ++ (be_bytes 8 generation ++ (keys.fs_uuid ++ keys.public_key))

  unfoldable pub seal_generation : KeyMaterial → ℕ → Bytes
  unfolding gen_signed_part
  seal_generation keys generation =
      let b = gen_signed_part keys generation in b ++ h.sign keys.signing_key b

  unfoldable pub generation_key : Bytes → ℕ → Bytes
  generation_key prefix generation =
      prefix ++ (ascii "zfs/generations/" ++ h.hex (be_bytes 8 generation))

  unfoldable pub verify_generation : Bytes → KeyMaterial → ℕ → StoreResult (Unit {0})
  verify_generation bytes keys expected =
      Result.◌>>◌
        (ensure (length bytes == gen_len && (take 8 bytes == gen_magic))
          (integrity (ascii "zfs generation: not a generation")))
        (Result.◌>>◌
          (ensure (slice gen_off_pubkey 32 bytes == keys.public_key)
            (integrity (ascii "zfs generation: signed by an unexpected key")))
          (Result.◌>>◌
            (ensure
              (h.verify keys.public_key (take gen_signed_len bytes) (drop gen_signed_len bytes))
              (integrity (ascii "root signature verification failed")))
            (Result.◌>>◌
              (ensure (slice gen_off_fs_uuid 16 bytes == keys.fs_uuid)
                (integrity (ascii "zfs generation: belongs to another filesystem")))
              (ensure (u64_at bytes gen_off_g == expected)
                (integrity (ascii "zfs generation: number does not match its key"))))))

  abbrev pub from_store : {A : Type 0} → StoreResult A → Result ZfsError A
  from_store (ok a) = ok a
  from_store (err e) = err (store e)

  -- roots.get_retained_blob(&key).await?.body
  unfoldable pub retained_body : Bytes → Run h Bytes
  retained_body key w = let (r, w') = h.get_retained_blob key w in (from_store r, w')

  unfoldable pub generation_exists : KeyMaterial → Bytes → ℕ → Run h Bool
  unfolding verify_generation retained_body
  generation_exists keys prefix generation =
      exists_raw h (generation_key prefix generation) >>= λ there. elim there [
        | false ↦ pure false
        | true ↦ retained_body (generation_key prefix generation) >>= λ body.
            lift (from_store (verify_generation body keys generation)) >> pure true
      ]

  -- What `claim_generation` makes of its conditional PUT: the generation it won, if it did.
  unfoldable pub settle_claim : Bytes → Bytes → ℕ → StoreResult (Unit {0}) → Run h (Option ℕ)
  unfolding retained_body
  settle_claim key body generation (ok u) = retained_body key >>= λ theirs.
      pure (elim (theirs == body) [ true ↦ some generation | false ↦ none ])
  settle_claim key body generation (err e) =
      lift (elim (is_already_exists e) [ true ↦ ok none | false ↦ err (store e) ])

  -- A conditional PUT whose answer is looked at next.
  abbrev pub put_new : PutBlobInput → Run h (StoreResult (Unit {0}))
  put_new input w = let (r, w') = h.put_blob_if_not_exists input w in (ok r, w')

  -- One round of its loop.
  unfoldable pub try_claim : KeyMaterial → Bytes → ℕ → Run h (Option ℕ)
  unfolding first_unused seal_generation settle_claim
  try_claim keys prefix retention = do
    tip ← chain_tip h (generation_key prefix)
    until ← retain_until h retention
    let key = generation_key prefix (first_unused tip)
    let body = seal_generation keys (first_unused tip)
    r ← put_new (locked h key body until)
    settle_claim key body (first_unused tip) r

  unfoldable pub claim_loop : ℕ → KeyMaterial → Bytes → ℕ → Run h ℕ
  unfolding try_claim
  claim_loop zero keys prefix retention = raise gave_up
  claim_loop (suc tries) keys prefix retention = try_claim keys prefix retention >>= λ mine.
      elim mine [
        | some generation ↦ pure generation
        | none ↦ claim_loop tries keys prefix retention
      ]

  unfoldable pub claim_generation : KeyMaterial → Bytes → ℕ → Run h ℕ
  unfolding claim_loop
  claim_generation = claim_loop 1024

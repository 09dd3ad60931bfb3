-- ===== src/Zfs/Anchor/RoundTrip.antt =====
-- `Anchor` of runtime/src/zfs.rs: what is sealed is what is read back, and what a read shows.
use mathlib.Core.List.{append_assoc, append-nil}
use enclave_runtime.Prelude.{==_iff, and_left, List, ◌≤◌}
use enclave_runtime.Prelude.Layout.{
  layout, IsSized, field, width, offset, slice-layout, length-layout,
}
use enclave_runtime.Prelude.{
  ℕ, suc, ◌^◌, ◌<◌, ◌≡◌, refl, sym, ap, ◌∙◌, true, not, ◌&&◌, Option, none, some, [], ◌∷◌, ◌++◌,
  Bytes, arith, length, length-append, take, drop, take-append, drop-append, bytes_eq, bytes_beq_eq,
  nat_eq, ◌==◌,
}
use enclave_runtime.Prelude.Map.{beq_self}
use enclave_runtime.Prelude.Result.{ok, ensure-then, ensure-ok, >>=-eq-ok, ok_or-then, ok_injective}
use enclave_runtime.Prelude.Words.{
  be_bytes, be_value, be_onto, slice, length-be_bytes, be_value-be_bytes,
}
use enclave_runtime.Zfs.Types.{Host, KeyMaterial}
use enclave_runtime.Zfs.Anchor.{
  is_zero, PoolKind, control, tenant, byte, from_byte, u64_at, byte_at, id_at, Anchor, next_seq,
  prev_hash, signed_part, seal, check_anchor, decode_and_verify, anchor_of, anchor_magic,
  anchor_len, signed_len,
}

-- The widths of the twelve fields of an anchor.
abbrev widths : List ℕ
widths = 8 ∷ 8 ∷ 32 ∷ 16 ∷ 1 ∷ 16 ∷ 16 ∷ 8 ∷ 8 ∷ 32 ∷ 32 ∷ 64 ∷ []

-- The sizes that the program's array types give.
pub record Arrays (keys : KeyMaterial) (prev pool_id tenant_id nonce : Bytes) : Type 0 where
  pub long_uuid : length keys.fs_uuid ≡ 16
  pub long_key : length keys.public_key ≡ 32
  pub long_prev : length prev ≡ 32
  pub long_pool_id : length pool_id ≡ 16
  pub long_tenant_id : length tenant_id ≡ 16
  pub long_nonce : length nonce ≡ 32

module _ (h : Host) where
  module _ (keys : KeyMaterial) (seq : ℕ) (prev : Bytes) (kind : PoolKind)
      (pool_id tenant_id : Bytes) (guid txg : ℕ) (nonce sig : Bytes)
      (a : Arrays keys prev pool_id tenant_id nonce) (long : length sig ≡ 64) where
    abbrev fields : List Bytes
    fields =
        anchor_magic
        ∷ be_bytes 8 seq
        ∷ prev
        ∷ keys.fs_uuid
        ∷ (byte kind ∷ [])
        ∷ pool_id
        ∷ tenant_id
        ∷ be_bytes 8 guid
        ∷ be_bytes 8 txg
        ∷ nonce
        ∷ keys.public_key
        ∷ sig
        ∷ []

    abbrev message : Bytes
    message = signed_part h keys seq prev kind pool_id tenant_id guid txg nonce

    sized : IsSized fields widths
    sized = (
      refl,
      (
        length-be_bytes 8 seq,
        (
          a.long_prev,
          (
            a.long_uuid,
            (
              refl,
              (
                a.long_pool_id,
                (
                  a.long_tenant_id,
                  (
                    length-be_bytes 8 guid,
                    (length-be_bytes 8 txg, (a.long_nonce, (a.long_key, (long, tt)))),
                  ),
                ),
              ),
            ),
          ),
        ),
      ),
    )

    laid : message ++ sig ≡ layout fields
    unfolding signed_part
    laid = simp (append_assoc, append-nil)

    at_field :
        (i : ℕ)
        → suc i ≤ 12
        → slice (offset i widths) (width i widths) (message ++ sig) ≡ field i fields
    at_field i le = rw laid (slice-layout i fields widths sized le)

    length-sealed : length (message ++ sig) ≡ 241
    length-sealed = rw laid (length-layout fields widths sized)

    length-message : length message ≡ 177
    length-message = omega (arith, length-append message sig, length-sealed, long)

    checked :
        h.verify keys.public_key message sig ≡ true
        → check_anchor h (message ++ sig) keys pool_id ≡ ok tt
    unfolding check_anchor id_at slice
    checked good =
        rw
          (
            length-sealed,
            at_field 0 (omega arith),
            at_field 3 (omega arith),
            at_field 5 (omega arith),
            at_field 10 (omega arith),
            sym length-message,
            take-append message sig,
            drop-append message sig,
            good,
            beq_self keys.public_key,
            beq_self keys.fs_uuid,
            beq_self pool_id,
          )
          refl

    from_byte-byte : from_byte (be_value (byte kind ∷ [])) ≡ some kind
    unfolding byte from_byte be_value be_onto
    from_byte-byte = elim kind as (λ k. from_byte (be_value (byte k ∷ [])) ≡ some k) [
      | control ↦ refl
      | tenant ↦ refl
    ]

    from_byte-sealed : from_byte (be_value (slice 64 1 (message ++ sig))) ≡ some kind
    from_byte-sealed = rw (at_field 4 (omega arith)) from_byte-byte

    u64_at-seq : seq < 2 ^ 64 → u64_at (message ++ sig) 8 ≡ seq
    unfolding u64_at
    u64_at-seq fits = rw (at_field 1 (omega arith)) (be_value-be_bytes 8 seq fits)

    u64_at-guid : guid < 2 ^ 64 → u64_at (message ++ sig) 97 ≡ guid
    unfolding u64_at
    u64_at-guid fits = rw (at_field 7 (omega arith)) (be_value-be_bytes 8 guid fits)

    u64_at-txg : txg < 2 ^ 64 → u64_at (message ++ sig) 105 ≡ txg
    unfolding u64_at
    u64_at-txg fits = rw (at_field 8 (omega arith)) (be_value-be_bytes 8 txg fits)

    read_back :
        h.verify keys.public_key message sig ≡ true
        → seq < 2 ^ 64
        → guid < 2 ^ 64
        → txg < 2 ^ 64
        → not (seq == 0 && not (is_zero prev)) ≡ true
        → decode_and_verify h (message ++ sig) keys seq pool_id
          ≡ ok (record {
            seq = seq;
            prev = prev;
            kind = kind;
            pool_id = pool_id;
            tenant_id = tenant_id;
            pool_guid = guid;
            txg = txg;
            nonce = nonce;
            encoded = message ++ sig;
          })
    unfolding decode_and_verify id_at
    read_back good fits fits_guid fits_txg first =
        rw
          (
            checked good,
            from_byte-sealed,
            u64_at-seq fits,
            u64_at-guid fits_guid,
            u64_at-txg fits_txg,
            at_field 2 (omega arith),
            at_field 5 (omega arith),
            at_field 6 (omega arith),
            at_field 9 (omega arith),
            beq_self seq,
            first,
          )
          refl

  first_or_later :
      (prev : Option Anchor) → not (next_seq prev == 0 && not (is_zero (prev_hash h prev))) ≡ true
  unfolding next_seq prev_hash is_zero
  first_or_later none = refl
  first_or_later (some p) = ground arith

  -- A sealed anchor reads back as itself under its own number and pool, where the arrays have their
  -- lengths, the numbers fit in u64, and verification accepts what signing makes.
  pub decode_and_verify-seal :
      (keys : KeyMaterial) (prev : Option Anchor) (kind : PoolKind) (pool_id tenant_id : Bytes)
      (guid txg : ℕ) (nonce : Bytes)
      → Arrays keys (prev_hash h prev) pool_id tenant_id nonce
      → ((m : Bytes) → length (h.sign keys.signing_key m) ≡ 64)
      → ((m : Bytes) → h.verify keys.public_key m (h.sign keys.signing_key m) ≡ true)
      → next_seq prev < 2 ^ 64
      → guid < 2 ^ 64
      → txg < 2 ^ 64
      → (let a = seal h keys prev kind pool_id tenant_id guid txg nonce in
          decode_and_verify h a.encoded keys (next_seq prev) pool_id ≡ ok a)
  unfolding seal
  decode_and_verify-seal keys prev kind pool_id tenant_id guid txg nonce a long good fits fg ft =
      read_back keys (next_seq prev) (prev_hash h prev) kind pool_id tenant_id guid txg nonce _ a
        (long _) (good _) fits fg ft (first_or_later prev)

  check_anchor_sound :
      (bytes : Bytes) (keys : KeyMaterial) (pool_id : Bytes)
      → check_anchor h bytes keys pool_id ≡ ok tt
      → (length bytes ≡ anchor_len)
        × (h.verify keys.public_key (take signed_len bytes) (drop signed_len bytes) ≡ true)
        × (slice 48 16 bytes ≡ keys.fs_uuid)
        × (id_at bytes 65 ≡ pool_id)
  unfolding check_anchor
  check_anchor_sound bytes keys pool_id e =
      let (shape, e) =
        ensure-then (length bytes == anchor_len && (take 8 bytes == anchor_magic)) _ _ e in
      let (key, e) = ensure-then (slice 145 32 bytes == keys.public_key) _ _ e in
      let (good, e) =
        ensure-then (h.verify keys.public_key (take signed_len bytes) (drop signed_len bytes)) _ _
          e in
      let (uuid, e) = ensure-then (slice 48 16 bytes == keys.fs_uuid) _ _ e in
      (
        (==_iff (length bytes) anchor_len).0 (and_left _ _ shape),
        good,
        bytes_beq_eq (slice 48 16 bytes) keys.fs_uuid uuid,
        bytes_beq_eq (id_at bytes 65) pool_id (ensure-ok (id_at bytes 65 == pool_id) _ e),
      )

  -- An anchor that is accepted is the one asked for: it has an anchor's length, its bytes are those
  -- given, its first 177 are signed by our key, it names our filesystem, and its number and pool are
  -- the expected ones.
  pub decode_and_verify_sound :
      (bytes : Bytes) (keys : KeyMaterial) (seq : ℕ) (pool_id : Bytes) (a : Anchor)
      → decode_and_verify h bytes keys seq pool_id ≡ ok a
      → (a.encoded ≡ bytes)
        × (a.seq ≡ seq)
        × (a.pool_id ≡ pool_id)
        × (length bytes ≡ anchor_len)
        × (h.verify keys.public_key (take signed_len bytes) (drop signed_len bytes) ≡ true)
        × (slice 48 16 bytes ≡ keys.fs_uuid)
  unfolding decode_and_verify
  decode_and_verify_sound bytes keys seq pool_id a e =
      let (u, checks, rest) = >>=-eq-ok (check_anchor h bytes keys pool_id) _ e in
      let (k, is_kind, rest) = ok_or-then (from_byte (byte_at bytes 64)) _ _ rest in
      let (same_seq, rest) = ensure-then (u64_at bytes 8 == seq) _ _ rest in
      let (first, rest) =
        ensure-then (not (u64_at bytes 8 == 0 && not (is_zero (slice 16 32 bytes)))) _ _ rest in
      let same : anchor_of h bytes k ≡ a = ok_injective rest in
      let (long, good, uuid, pool) = check_anchor_sound bytes keys pool_id checks in
      (
        ap (λ (x : Anchor). x.encoded) (sym same),
        ap (λ (x : Anchor). x.seq) (sym same) ∙ (==_iff (u64_at bytes 8) seq).0 same_seq,
        ap (λ (x : Anchor). x.pool_id) (sym same) ∙ pool,
        long,
        good,
        uuid,
      )

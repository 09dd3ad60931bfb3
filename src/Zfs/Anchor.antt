-- ===== src/Zfs/Anchor.antt =====
-- `PoolKind` and `Anchor` of runtime/src/zfs.rs, over `Hash256` of runtime/src/store/crypto/hash.rs.
--
-- A chain is shorter than 2^64 anchors, so that `seq + 1` does not wrap.
pub mod RoundTrip
use enclave_runtime.Prelude.{
  ℕ, zero, suc, ◌+◌, Bool, true, false, not, ◌&&◌, Option, none, some, [], ◌∷◌, ◌++◌, Bytes, ascii,
  length, take, drop, replicate, bytes_eq, nat_eq, ◌==◌,
}
use enclave_runtime.Prelude.Result.{Result, ok, err, ensure, ok_or, ◌>>=◌, ◌>>◌}
use enclave_runtime.Prelude.Words.{be_bytes, be_value, slice}
use enclave_runtime.Store.Types.{StoreError, StoreResult, integrity}
use enclave_runtime.Zfs.Types.{Host, KeyMaterial}

-- Hash256::ZERO and Hash256::is_zero
abbrev pub zero_hash : Bytes
zero_hash = replicate 32 0

unfoldable pub is_zero : Bytes → Bool
is_zero hash = hash == zero_hash

pub data PoolKind : Type 0 where
  control tenant : PoolKind

-- PoolKind::byte and PoolKind::from_byte
unfoldable pub byte : PoolKind → ℕ
byte control = 0
byte tenant = 1

unfoldable pub from_byte : ℕ → Option PoolKind
from_byte zero = some control
from_byte (suc zero) = some tenant
from_byte _ = none

abbrev pub anchor_magic : Bytes
anchor_magic = ascii "ZFSANCH2"

abbrev pub off_seq : ℕ
off_seq = 8

abbrev pub off_prev : ℕ
off_prev = off_seq + 8

abbrev pub off_fs_uuid : ℕ
off_fs_uuid = off_prev + 32

abbrev pub off_kind : ℕ
off_kind = off_fs_uuid + 16

abbrev pub off_pool_id : ℕ
off_pool_id = off_kind + 1

abbrev pub off_tenant_id : ℕ
off_tenant_id = off_pool_id + 16

abbrev pub off_pool_guid : ℕ
off_pool_guid = off_tenant_id + 16

abbrev pub off_txg : ℕ
off_txg = off_pool_guid + 8

abbrev pub off_nonce : ℕ
off_nonce = off_txg + 8

abbrev pub off_pubkey : ℕ
off_pubkey = off_nonce + 32

abbrev pub signed_len : ℕ
signed_len = off_pubkey + 32

abbrev pub anchor_len : ℕ
anchor_len = signed_len + 64

unfoldable pub u64_at : Bytes → ℕ → ℕ
u64_at b off = be_value (slice off 8 b)

-- bytes[off]
abbrev pub byte_at : Bytes → ℕ → ℕ
byte_at b off = be_value (slice off 1 b)

unfoldable pub id_at : Bytes → ℕ → Bytes
id_at b off = slice off 16 b

pub record Anchor : Type 0 where
  pub seq : ℕ
  pub prev : Bytes
  pub kind : PoolKind
  pub pool_id : Bytes
  pub tenant_id : Bytes
  pub pool_guid : ℕ
  pub txg : ℕ
  pub nonce : Bytes
  pub encoded : Bytes

-- prev.map_or(0, |p| p.seq + 1)
unfoldable pub next_seq : Option Anchor → ℕ
next_seq none = 0
next_seq (some p) = p.seq + 1

module _ (h : Host) where
  -- Anchor::hash
  unfoldable pub hash : Anchor → Bytes
  hash a = h.hash a.encoded

  -- prev.map_or(Hash256::ZERO, Anchor::hash)
  unfoldable pub prev_hash : Option Anchor → Bytes
  unfolding hash
  prev_hash none = zero_hash
  prev_hash (some p) = hash p

  -- The bytes that `seal` signs.
  unfoldable pub signed_part :
      KeyMaterial → ℕ → Bytes → PoolKind → Bytes → Bytes → ℕ → ℕ → Bytes → Bytes
  signed_part keys seq prev kind pool_id tenant_id pool_guid txg nonce =
      anchor_magic
      ++ (be_bytes 8 seq
          ++ (prev
              ++ (keys.fs_uuid
                  ++ (byte kind ∷ []
                      ++ (pool_id
                          ++ (tenant_id
                              ++ (be_bytes 8 pool_guid
                                  ++ (be_bytes 8 txg ++ (nonce ++ keys.public_key)))))))))

  unfoldable pub seal :
      KeyMaterial → Option Anchor → PoolKind → Bytes → Bytes → ℕ → ℕ → Bytes → Anchor
  unfolding signed_part next_seq prev_hash
  seal keys prev kind pool_id tenant_id pool_guid txg nonce =
      let seq = next_seq prev in
      let before = prev_hash prev in
      let b = signed_part keys seq before kind pool_id tenant_id pool_guid txg nonce in
      record {
        seq = seq;
        prev = before;
        kind = kind;
        pool_id = pool_id;
        tenant_id = tenant_id;
        pool_guid = pool_guid;
        txg = txg;
        nonce = nonce;
        encoded = b ++ h.sign keys.signing_key b;
      }

  -- The checks of decode_and_verify up to the kind.
  unfoldable pub check_anchor : Bytes → KeyMaterial → Bytes → StoreResult (Unit {0})
  check_anchor bytes keys pool_id = do
    ensure (length bytes == anchor_len && (take 8 bytes == anchor_magic))
        (integrity (ascii "zfs anchor: not an anchor"))
    ensure (slice off_pubkey 32 bytes == keys.public_key)
        (integrity (ascii "zfs anchor: signed by an unexpected key"))
    ensure (h.verify keys.public_key (take signed_len bytes) (drop signed_len bytes))
        (integrity (ascii "root signature verification failed"))
    ensure (slice off_fs_uuid 16 bytes == keys.fs_uuid)
        (integrity (ascii "zfs anchor: belongs to another filesystem"))
    ensure (id_at bytes off_pool_id == pool_id)
        (integrity (ascii "zfs anchor: belongs to another pool"))

  abbrev pub anchor_of : Bytes → PoolKind → Anchor
  anchor_of bytes kind = record {
    seq = u64_at bytes off_seq;
    prev = slice off_prev 32 bytes;
    kind = kind;
    pool_id = id_at bytes off_pool_id;
    tenant_id = id_at bytes off_tenant_id;
    pool_guid = u64_at bytes off_pool_guid;
    txg = u64_at bytes off_txg;
    nonce = slice off_nonce 32 bytes;
    encoded = bytes;
  }

  unfoldable pub decode_and_verify : Bytes → KeyMaterial → ℕ → Bytes → StoreResult Anchor
  unfolding check_anchor
  decode_and_verify bytes keys expected_seq expected_pool_id = do
    check_anchor bytes keys expected_pool_id
    kind ←
        ok_or (from_byte (byte_at bytes off_kind))
          (integrity (ascii "zfs anchor: unknown pool kind"))
    ensure (u64_at bytes off_seq == expected_seq)
        (integrity (ascii "zfs anchor: sequence does not match its key"))
    ensure (not (u64_at bytes off_seq == 0 && not (is_zero (slice off_prev 32 bytes))))
        (integrity (ascii "zfs anchor: genesis has a predecessor"))
    ok (anchor_of bytes kind)

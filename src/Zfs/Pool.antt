-- ===== src/Zfs/Pool.antt =====
-- `Pool` of runtime/src/zfs.rs: publishing an anchor, anchoring, and opening a pool at its newest
-- anchor.
--
-- `last`, behind its mutex, is a value that `anchor_now` is given and returns. The text that it keeps
-- of a failure is the error. `Disk::Directory`, which only tests use, is a pool with `pool = false`.
-- The test hooks are not modelled.
pub mod Publish
pub mod Kept
pub mod Anchoring
pub mod Fence
pub mod Open
use enclave_runtime.Prelude.{
  ℕ, ◌+◌, Bool, true, false, Option, none, some, List, [], ◌∷◌, ◌++◌, Bytes, ascii, ltb, leb,
  if◌then◌else◌, bytes_eq, nat_eq, ◌==◌,
}
use enclave_runtime.Prelude.Result
use enclave_runtime.Prelude.Result.{Result, ok, err, ensure}
use enclave_runtime.Prelude.Exec.{pure, raise, lift, ◌>>=◌, ◌>>◌}
use enclave_runtime.Prelude.Words.{be_bytes}
use enclave_runtime.Store.Types.{StoreError, StoreResult, PutBlobInput}
use enclave_runtime.Zfs.Types.{
  Host, KeyMaterial, Run, ZfsError, store, no_entropy, another_writer, stopped, marker_not_past,
  superseded, call, command, retain_until, locked,
}
use enclave_runtime.Zfs.Anchor.{Anchor, PoolKind, zero_hash, next_seq, prev_hash, seal}
use enclave_runtime.Zfs.Kernel.{synced_txg}
use enclave_runtime.Zfs.Admit.{marker}
use enclave_runtime.Zfs.Generation.{
  is_already_exists, from_store, retained_body, put_new, generation_exists,
}

pub record Pool : Type 0 where
  pub keys : KeyMaterial
  pub prefix : Bytes
  pub anchor_prefix : Bytes
  pub retention : ℕ
  pub name : Bytes
  pub mapped : Bytes
  pub kind : PoolKind
  pub pool_id : Bytes
  pub tenant_id : Bytes
  pub pool : Bool
  pub pool_guid : ℕ
  pub genesis : Bytes
  pub generation : ℕ

-- `Pool::last`: the newest published anchor, or why anchoring stopped.
abbrev pub Last : Type 0
Last = Result ZfsError Anchor

module _ (h : Host) where
  unfoldable pub anchor_key : Pool → ℕ → Bytes
  anchor_key p seq = p.anchor_prefix ++ (ascii "anchors/" ++ h.hex (be_bytes 8 seq))

  -- What `publish` makes of its conditional PUT.
  unfoldable pub settle_publish : Bytes → ℕ → Bytes → StoreResult (Unit {0}) → Run h (Unit {0})
  unfolding retained_body
  settle_publish key seq body (ok u) =
      retained_body h key >>= λ theirs. lift (ensure (theirs == body) (another_writer seq))
  settle_publish key seq body (err e) =
      raise (elim (is_already_exists e) [ true ↦ another_writer seq | false ↦ store e ])

  unfoldable pub publish : Pool → ℕ → Bytes → Run h (Unit {0})
  unfolding anchor_key settle_publish
  publish p seq body = do
    until ← retain_until h p.retention
    r ← put_new h (locked h (anchor_key p seq) body until)
    settle_publish (anchor_key p seq) seq body r

  -- The marker is past the anchor before it.
  abbrev pub past : Option Anchor → ℕ → Result ZfsError (Unit {0})
  past none txg = ok tt
  past (some a) txg = ensure (ltb a.txg txg) (marker_not_past txg)

  -- The part of `seal_and_publish` that writes the marker to a real pool: its txg.
  unfoldable pub write_marker : Pool → Option Anchor → Bytes → Run h ℕ
  unfolding marker synced_txg
  write_marker p prev nonce = elim p.pool [
    | false ↦ pure 0
    | true ↦
        command h (ascii "zfs") (
          ascii "set"
          ∷ (ascii "enclave:anchor=" ++ marker h (next_seq prev) nonce (prev_hash h prev))
          ∷ p.name
          ∷ [])
        >> (command h (ascii "zpool") (ascii "sync" ∷ p.name ∷ [])
            >> (synced_txg h p.name >>= λ txg. lift (past prev txg) >> pure txg))
  ]

  -- The fence: no newer generation has been claimed. Genesis has none.
  unfoldable pub fence : Pool → Option Anchor → Run h (Unit {0})
  unfolding generation_exists
  fence p none = pure tt
  fence p (some a) = generation_exists h p.keys p.prefix (p.generation + 1) >>= λ newer.
      lift (ensure (elim newer [ true ↦ false | false ↦ true ]) (superseded (p.generation + 1)))

  unfoldable pub seal_and_publish : Pool → Option Anchor → Run h Anchor
  unfolding write_marker fence publish
  seal_and_publish p prev = do
    nonce ← call h (h.fill 32) no_entropy
    txg ← write_marker p prev nonce
    fence p prev
    let anchor = seal h p.keys prev p.kind p.pool_id p.tenant_id p.pool_guid txg nonce
    publish p anchor.seq anchor.encoded
    pure anchor

  -- What an anchor leaves in `last`, and what it answers.
  abbrev pub keep_last : Result ZfsError Anchor → Result ZfsError (Unit {0}) × Last
  keep_last (ok a) = (ok tt, ok a)
  keep_last (err e) = (err e, err e)

  -- The part of `anchor_now` before anything changes: the txg that has reached the disk.
  unfoldable pub sync : Pool → Run h ℕ
  unfolding synced_txg
  sync p = command h (ascii "zpool") (ascii "sync" ∷ p.name ∷ []) >> synced_txg h p.name

  unfoldable pub anchor_from :
      Pool → Anchor → Result ZfsError ℕ → h.World → (Result ZfsError (Unit {0}) × Last) × h.World
  unfolding seal_and_publish
  anchor_from p prev (err e) w = ((err e, ok prev), w)
  anchor_from p prev (ok synced) w = elim (synced == prev.txg) [
    | true ↦ ((ok tt, ok prev), w)
    | false ↦ let (r, w') = seal_and_publish p (some prev) w in (keep_last r, w')
  ]

  unfoldable pub anchor_now : Pool → Last → h.World → (Result ZfsError (Unit {0}) × Last) × h.World
  unfolding sync anchor_from
  anchor_now p (err e) w = ((err stopped, err e), w)
  anchor_now p (ok prev) w = let (synced, w') = sync p w in anchor_from p prev synced w'

  -- Pool::anchor
  unfoldable pub anchor : Pool → Last → h.World → (Result ZfsError (Unit {0}) × Last) × h.World
  unfolding anchor_now
  anchor p last w = if p.pool then anchor_now p last w else ((ok tt, last), w)

-- ===== src/Zfs/Admit.antt =====
-- `marker`, `Anchor::property` and `admit` of runtime/src/zfs.rs.
--
-- The text of a refusal is not modelled.
pub mod Descends
use enclave_runtime.Prelude.{
  ℕ, ◌+◌, Bool, true, false, not, ◌&&◌, ◌||◌, Option, none, some, List, [], ◌∷◌, ◌++◌, Bytes, ascii,
  ltb, length, if◌then◌else◌, bytes_eq, nat_eq, ◌==◌,
}
use enclave_runtime.Prelude.Result.{Result, ok, err, ensure, ok_or, ◌>>=◌, ◌>>◌}
use enclave_runtime.Prelude.Text.{split, to_string}
use enclave_runtime.Zfs.Types.{Host}
use enclave_runtime.Zfs.Anchor.{Anchor, hash}

pub data Refusal : Type 0 where
  txg_unknown : Refusal
  another_pool : ℕ → Refusal
  older : ℕ → Refusal
  another_marker : Bytes → Refusal

abbrev pub dash : ℕ
dash = b'-'

module _ (h : Host) where
  unfoldable pub marker : ℕ → Bytes → Bytes → Bytes
  marker seq nonce prev = to_string seq ++ (dash ∷ (h.hex nonce ++ (dash ∷ h.hex prev)))

  -- Anchor::property
  unfoldable pub property : Anchor → Bytes
  unfolding marker
  property a = marker a.seq a.nonce a.prev

  -- Whether the pieces of a marker are those of an unpublished successor of `tip`.
  unfoldable pub names_successor : Anchor → List Bytes → Bool
  names_successor tip (seq ∷ nonce ∷ prev ∷ []) =
      (seq == to_string (tip.seq + 1)) && ((length nonce == 64) && (prev == h.hex (hash h tip)))
  names_successor tip _ = false

  abbrev pub vouched : Anchor → Bytes → Bool
  vouched tip held = (held == property tip) || names_successor tip (split dash held)

  unfoldable pub admit : Anchor → Option ℕ → Bytes → ℕ → Result Refusal (Unit {0})
  unfolding property names_successor
  admit tip loaded_txg held guid = do
    loaded ← ok_or loaded_txg txg_unknown
    ensure (guid == tip.pool_guid) (another_pool guid)
    ensure (not (ltb loaded tip.txg)) (older loaded)
    ensure (vouched tip held) (another_marker held)

-- ===== src/Zfs/Tip.antt =====
-- `exists_raw` and `chain_tip` of runtime/src/zfs.rs.
--
-- The two loops of `chain_tip` run on fuel: 65 rounds of the gallop, whose step doubles from 1, and 65
-- of the bisection, which halves an interval of u64.
pub mod Gallop
pub mod Found
use enclave_runtime.Prelude.{
  ℕ, zero, suc, ◌+◌, ◌-◌, ◌*◌, ◌/◌, ◌^◌, min, Bool, true, false, Option, none, some, Bytes, ltb,
}
use enclave_runtime.Prelude.Result.{Result, ok, err}
use enclave_runtime.Prelude.Exec.{pure, raise, ◌>>=◌}
use enclave_runtime.Store.Types.{StoreError, StoreResult}
use enclave_runtime.Zfs.Types.{Host, Run, ZfsError, store, stuck}

abbrev pub max_u64 : ℕ
max_u64 = 18446744073709551615

-- saturating_add on u64
unfoldable pub saturating_add : ℕ → ℕ → ℕ
saturating_add a b = min (a + b) max_u64

-- StoreError::NotFound
abbrev pub is_not_found : StoreError → Bool
is_not_found StoreError.not_found = true
is_not_found _ = false

module _ (h : Host) where
  -- What `exists_raw` makes of the answer.
  abbrev pub present : StoreResult Bytes → Result ZfsError Bool
  present (ok body) = ok true
  present (err e) = elim (is_not_found e) [ true ↦ ok false | false ↦ err (store e) ]

  unfoldable pub exists_raw : Bytes → Run h Bool
  exists_raw key w = let (r, w') = h.get_retained_blob key w in (present r, w')

  -- The first loop of `chain_tip`: `lo` and `step` as it leaves them.
  unfoldable pub gallop : ℕ → (ℕ → Bytes) → ℕ → ℕ → Run h (ℕ × ℕ)
  unfolding exists_raw
  gallop zero key lo step = raise stuck
  gallop (suc fuel) key lo step = elim (ltb max_u64 (lo + step)) [
    | true ↦ pure (lo, step)
    | false ↦ exists_raw (key (lo + step)) >>= λ there. elim there [
      | false ↦ pure (lo, step)
      | true ↦ gallop fuel key (lo + step) (min (step * 2) max_u64)
    ]
  ]

  -- The second loop.
  unfoldable pub bisect : ℕ → (ℕ → Bytes) → ℕ → ℕ → Run h ℕ
  unfolding exists_raw
  bisect zero key lo hi = raise stuck
  bisect (suc fuel) key lo hi = elim (ltb 1 (hi - lo)) [
    | false ↦ pure lo
    | true ↦
        let mid = lo + (hi - lo) / 2 in
        exists_raw (key mid) >>= λ there. elim there [
          | true ↦ bisect fuel key mid hi
          | false ↦ bisect fuel key lo mid
        ]
  ]

  -- The rest of `chain_tip` when the first key is there.
  unfoldable pub search : (ℕ → Bytes) → Run h ℕ
  unfolding gallop bisect saturating_add
  search key = gallop 65 key 0 1 >>= λ (lo, step). bisect 65 key lo (saturating_add lo step)

  unfoldable pub chain_tip : (ℕ → Bytes) → Run h (Option ℕ)
  unfolding search
  chain_tip key = exists_raw (key 0) >>= λ there. elim there [
    | false ↦ pure none
    | true ↦ search key >>= λ lo. pure (some lo)
  ]

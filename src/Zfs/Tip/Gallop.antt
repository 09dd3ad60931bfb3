-- ===== src/Zfs/Tip/Gallop.antt =====
-- The probes and the gallop of `chain_tip` of runtime/src/zfs.rs.
use native.Mathlib.Nat.{pow-le-pow_right}
use native.Mathlib.Numerals.{towards_suc}
use enclave_runtime.Prelude.{
  ℕ, zero, suc, ◌+◌, ◌*◌, ◌^◌, ◌≤◌, ◌<◌, min, ◌≡◌, refl, ap, ◌≢◌, ◌⊎◌, inl, inr, Bool, true, false,
  Bytes, arith, ltb, Bool-cases,
}
use enclave_runtime.Prelude.Result.{Result, ok, err}
use enclave_runtime.Prelude.Exec.{continue, ◌>>=◌}
use enclave_runtime.Store.Types.{StoreError, StoreResult}
use enclave_runtime.Zfs.Types.{Host, Run, ZfsError, stuck}
use enclave_runtime.Zfs.Tip.{max_u64, is_not_found, present, exists_raw, gallop}

-- What the bucket says of a chain: which numbers it holds, truly told by a read, and never lost.
pub record Retained (h : Host) (key : ℕ → Bytes) (has : h.World → ℕ → Bool) : Type 0 where
  pub told :
      (k : ℕ) (w : h.World) (body : Bytes)
      → (h.get_retained_blob (key k) w).0 ≡ ok body
      → has (h.get_retained_blob (key k) w).1 k ≡ true
  pub denied :
      (k : ℕ) (w : h.World) (e : StoreError)
      → (h.get_retained_blob (key k) w).0 ≡ err e
      → is_not_found e ≡ true
      → has (h.get_retained_blob (key k) w).1 k ≡ false
  pub lasts :
      (j k : ℕ) (w : h.World) → has w k ≡ true → has (h.get_retained_blob (key j) w).1 k ≡ true

module _ (h : Host) (key : ℕ → Bytes) (has : h.World → ℕ → Bool) (law : Retained h key has) where
  -- Everything that `w` holds is held in `w'` too.
  abbrev pub Since : h.World → h.World → Type 0
  Since w w' = (k : ℕ) → has w k ≡ true → has w' k ≡ true

  pub missing_before : (w w' : h.World) (k : ℕ) → Since w w' → has w' k ≡ false → has w k ≡ false
  missing_before w w' k s m = elim (Bool-cases (has w k)) [ inl e ↦ cc (s k e) | inr e ↦ e ]

  pub then-Since : (w0 w w' : h.World) → Since w0 w → Since w w' → Since w0 w'
  then-Since w0 w w' s t k e = t k (s k e)

  -- What a probe of `k` in `w` shows.
  abbrev Probed : h.World → ℕ → Result ZfsError Bool × h.World → Type 0
  Probed w k (ok true, w') = (has w' k ≡ true) × Since w w'
  Probed w k (ok false, w') = (has w k ≡ false) × Since w w'
  Probed w k (err e, w') = e ≢ stuck

  probe : (w : h.World) (k : ℕ) → Probed w k (exists_raw h (key k) w)
  unfolding exists_raw
  probe w k = go (h.get_retained_blob (key k) w).0 refl
    where
      w' : h.World
      w' = (h.get_retained_blob (key k) w).1

      later : Since w w'
      later j e = law.lasts k j w e

      go :
          (r : StoreResult Bytes)
          → (h.get_retained_blob (key k) w).0 ≡ r
          → Probed w k (present h r, w')
      go (ok body) e = (law.told k w body e, later)
      go (err x) e = elim (Bool-cases (is_not_found x)) [
        | inl t ↦
            rw (t, Probed, present) ((missing_before w w' k later (law.denied k w x e t), later))
        | inr f ↦ rw (f, Probed, present) (λ q. cc)
      ]

  -- A probe and what follows it, by its three outcomes.
  pub probe_then {ℓ} :
      {A : Type 0} (Q : Result ZfsError A × h.World → Type ℓ) (f : Bool → Run h A) (w : h.World)
      (k : ℕ)
      → ((e : ZfsError) (w' : h.World) → e ≢ stuck → Q (err e, w'))
      → ((w' : h.World) → has w' k ≡ true → Since w w' → Q (f true w'))
      → ((w' : h.World) → has w k ≡ false → Since w w' → Q (f false w'))
      → Q ((exists_raw h (key k) >>= f) w)
  probe_then Q f w k failed held missed = go (exists_raw h (key k) w) (probe w k)
    where
      go : (r : Result ZfsError Bool × h.World) → Probed w k r → Q (continue r f)
      go (ok true, w') (there, s') = held w' there s'
      go (ok false, w') (missing, s') = missed w' missing s'
      go (err e, w') q = failed e w' q

  -- What the gallop leaves, in a run that began in `w0`: `lo` is there, and the next number to try is
  -- not, unless it is past the last u64.
  abbrev pub Galloped : h.World → Result ZfsError (ℕ × ℕ) × h.World → Type 0
  Galloped w0 (ok (lo, step), w') =
      (has w' lo ≡ true)
      × Since w0 w'
      × (lo < lo + step)
      × (lo ≤ max_u64)
      × ((lo ≡ max_u64) ⊎ ((lo + step ≤ max_u64) × (has w0 (lo + step) ≡ false)))
  Galloped w0 (err e, w') = e ≢ stuck

  gallop_last :
      (n lo step : ℕ) (w0 w : h.World)
      → lo ≡ max_u64
      → 1 ≤ step
      → has w lo ≡ true
      → Since w0 w
      → Galloped w0 (gallop h (suc n) key lo step w)
  unfolding gallop
  gallop_last n lo step w0 w m p there s =
      let e : ltb max_u64 (lo + step) ≡ true = ground (arith, m) in
      rw (e, gallop, Galloped) (there, s, omega (arith, p), omega (arith, m), inl m)

  pub pow_suc : (k : ℕ) → 2 ^ (k + 1) ≡ 2 ^ k * 2
  pow_suc k = simp towards_suc (omega arith)

  gallop_round :
      (n k lo step : ℕ) (w0 w : h.World)
      → 2 ^ k ≤ 2 ^ 63
      → lo + 1 ≡ 2 ^ k
      → step ≡ 2 ^ k
      → has w lo ≡ true
      → Since w0 w
      → ((w' : h.World)
          → has w' (lo + step) ≡ true
          → Since w0 w'
          → Galloped w0 (gallop h n key (lo + step) (min (step * 2) max_u64) w'))
      → Galloped w0 (gallop h (suc n) key lo step w)
  unfolding gallop
  gallop_round n k lo step w0 w small hl hs there s again =
      let e : ltb max_u64 (lo + step) ≡ false = ground (arith, small, hl, hs) in
      rw (e, gallop, Galloped)
        (probe_then (Galloped w0) _ w (lo + step) (λ x w' q. q)
          (λ w' there' t. again w' there' (then-Since w0 w w' s t))
          (λ w' missing t. (
            t lo there,
            then-Since w0 w w' s t,
            omega (arith, hl, hs),
            omega (arith, small, hl),
            inr (omega (arith, small, hl, hs), missing_before w0 w (lo + step) s missing),
          )))

  -- A round begins at 2^k - 1 with the step 2^k; 65 - k rounds are left.
  pub gallop_loop :
      (n k lo step : ℕ) (w0 w : h.World)
      → k + suc n ≡ 64
      → lo + 1 ≡ 2 ^ k
      → step ≡ 2 ^ k
      → has w lo ≡ true
      → Since w0 w
      → Galloped w0 (gallop h (suc (suc n)) key lo step w)
  gallop_loop zero k lo step w0 w hk hl hs there s =
      let last : k ≡ 63 = omega (arith, hk) in
      let full : 2 ^ k ≡ 2 ^ 63 = ap (λ j. 2 ^ j) last in
      gallop_round 1 k lo step w0 w (omega (arith, full)) hl hs there s (λ w' there' s'.
        gallop_last 0 (lo + step) (min (step * 2) max_u64) w0 w' (omega (arith, full))
          (omega (arith, full)) there' s')
  gallop_loop (suc m) k lo step w0 w hk hl hs there s =
      let small : 2 ^ k ≤ 2 ^ 62 = pow-le-pow_right (omega arith) {j = 62} (omega (arith, hk)) in
      gallop_round (suc (suc m)) k lo step w0 w (omega (arith, small)) hl hs there s
        (λ w' there' s'.
          gallop_loop m (k + 1) (lo + step) (min (step * 2) max_u64) w0 w' (omega (arith, hk))
            (omega (arith, pow_suc k)) (omega (arith, pow_suc k, small)) there' s')

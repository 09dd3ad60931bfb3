-- ===== src/Zfs/Tip/Found.antt =====
-- `chain_tip` of runtime/src/zfs.rs: what it finds, while other enclaves may extend the chain.
use mathlib.Core.Path.{subst}
use enclave_runtime.Prelude.{
  ℕ, zero, suc, ◌+◌, ◌-◌, ◌*◌, ◌/◌, ◌^◌, ◌≤◌, ◌<◌, min, ◌≡◌, refl, ◌≢◌, ◌⊎◌, inl, inr, Bool, true,
  false, Option, none, some, Bytes, arith, ltb, Bool-cases, ltb→lt,
}
use enclave_runtime.Prelude.Result.{Result, ok, err}
use enclave_runtime.Prelude.Exec.{continue, pure}
use enclave_runtime.Zfs.Types.{Host, ZfsError, stuck}
use enclave_runtime.Zfs.Tip.{max_u64, gallop, bisect, search, chain_tip, saturating_add}
use enclave_runtime.Zfs.Tip.Gallop.{
  Retained, Since, missing_before, then-Since, probe_then, Galloped, gallop_loop, pow_suc,
}

module _ (h : Host) (key : ℕ → Bytes) (has : h.World → ℕ → Bool) (law : Retained h key has) where
  -- What the bisection answers, in a run that began in `w0`.
  abbrev Bisected : h.World → Result ZfsError ℕ × h.World → Type 0
  Bisected w0 (ok t, w') =
      (has w' t ≡ true) × ((t ≡ max_u64) ⊎ ((t + 1 ≤ max_u64) × (has w0 (t + 1) ≡ false)))
  Bisected w0 (err e, w') = e ≢ stuck

  -- What `chain_tip` answers, in a run that began in `w0`.
  abbrev pub Found : h.World → Result ZfsError (Option ℕ) × h.World → Type 0
  Found w0 (ok none, w') = has w0 0 ≡ false
  Found w0 (ok (some t), w') =
      (has w' t ≡ true) × ((t ≡ max_u64) ⊎ ((t + 1 ≤ max_u64) × (has w0 (t + 1) ≡ false)))
  Found w0 (err e, w') = e ≢ stuck

  bisect_done :
      (n lo hi : ℕ) (w0 w : h.World)
      → lo ≤ hi
      → hi ≤ max_u64
      → has w lo ≡ true
      → (lo ≡ max_u64) ⊎ ((lo < hi) × (has w0 hi ≡ false))
      → ltb 1 (hi - lo) ≡ false
      → Bisected w0 (bisect h (suc n) key lo hi w)
  unfolding bisect
  bisect_done n lo hi w0 w le top there (inl m) e = rw (e, bisect, Bisected) (there, inl m)
  bisect_done n lo hi w0 w le top there (inr (lt, missing)) e =
      let next : hi ≡ lo + 1 = ground (arith, e, lt) in
      rw (e, bisect, Bisected)
        (there, inr (omega (arith, next, top), subst (λ j. has w0 j ≡ false) next missing))

  -- The interval halves in every round.
  bisect_loop :
      (n lo hi : ℕ) (w0 w : h.World)
      → lo ≤ hi
      → hi - lo ≤ 2 ^ n
      → hi ≤ max_u64
      → has w lo ≡ true
      → Since h key has law w0 w
      → (lo ≡ max_u64) ⊎ ((lo < hi) × (has w0 hi ≡ false))
      → Bisected w0 (bisect h (suc n) key lo hi w)
  unfolding bisect
  bisect_loop n lo hi w0 w le span top there s (inl m) =
      bisect_done n lo hi w0 w le top there (inl m) (ground (arith, m, top))
  bisect_loop zero lo hi w0 w le span top there s (inr out) =
      bisect_done zero lo hi w0 w le top there (inr out) (ground (arith, span))
  bisect_loop (suc m) lo hi w0 w le span top there s (inr out) =
      elim (Bool-cases (ltb 1 (hi - lo))) [
        | inr e ↦ bisect_done (suc m) lo hi w0 w le top there (inr out) e
        | inl e ↦
            let half : 2 ^ (m + 1) ≡ 2 ^ m * 2 = pow_suc h key has law m in
            let wide : 1 < hi - lo = ltb→lt 1 (hi - lo) e in
            let mid = lo + (hi - lo) / 2 in
            rw (e, bisect, Bisected)
              (probe_then h key has law (Bisected w0) _ w mid (λ x w' q. q)
                (λ w' there' t.
                  bisect_loop m mid hi w0 w' (omega (arith, wide)) (omega (arith, half, span)) top
                    there' (then-Since h key has law w0 w w' s t)
                    (inr (omega (arith, wide), out.1)))
                (λ w' missing t.
                  bisect_loop m lo mid w0 w' (omega (arith, wide)) (omega (arith, half, span))
                    (omega (arith, top, le)) (t lo there) (then-Since h key has law w0 w w' s t)
                    (inr (omega (arith, wide), missing_before h key has law w0 w mid s missing))))
      ]

  started :
      (n : ℕ) (w0 : h.World) (r : Result ZfsError (ℕ × ℕ) × h.World)
      → max_u64 ≤ 2 ^ n
      → Galloped h key has law w0 r
      → Bisected w0 (continue r (λ (lo, step). bisect h (suc n) key lo (saturating_add lo step)))
  unfolding saturating_add
  started n w0 (ok (lo, step), w') big (there, s, lt, le, inl m) =
      bisect_loop n lo (min (lo + step) max_u64) w0 w' (omega (arith, le)) (omega (arith, big))
        (omega arith) there s (inl m)
  started n w0 (ok (lo, step), w') big (there, s, lt, le, inr (top, missing)) =
      let same : lo + step ≡ min (lo + step) max_u64 = omega (arith, top) in
      bisect_loop n lo (min (lo + step) max_u64) w0 w' (omega (arith, le)) (omega (arith, big))
        (omega arith) there s
        (inr (omega (arith, lt, top), subst (λ j. has w0 j ≡ false) same missing))
  started n w0 (err e, w') big q = q

  search-Bisected :
      (w0 w : h.World) → has w 0 ≡ true → Since h key has law w0 w → Bisected w0 (search h key w)
  unfolding search
  search-Bisected w0 w there s =
      started 64 w0 (gallop h 65 key 0 1 w) (omega arith)
        (gallop_loop h key has law 63 0 0 1 w0 w refl refl refl there s)

  -- The number that `chain_tip` answers is a retained object when it returns, and the next number was
  -- none when it began, unless the answer is the last u64. It answers that there is none only if
  -- number 0 was missing when it began. Its loops end within their rounds, so that an error is one of
  -- the store's. Other enclaves may add objects while it runs, as long as none is lost.
  pub chain_tip-Found : (w : h.World) → Found w (chain_tip h key w)
  unfolding chain_tip
  chain_tip-Found w =
      probe_then h key has law (Found w) _ w 0 (λ x w' q. q)
        (λ w' there t. after (search h key w') (search-Bisected w w' there t))
        (λ w' missing t. missing)
    where
      after :
          (r : Result ZfsError ℕ × h.World)
          → Bisected w r
          → Found w (continue r (λ lo. pure (some lo)))
      after (ok t, w') b = b
      after (err e, w') q = q

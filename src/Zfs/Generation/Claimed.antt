-- ===== src/Zfs/Generation/Claimed.antt =====
-- `claim_generation` of runtime/src/zfs.rs: what a claim leaves in the bucket, and what its read-back
-- does not decide.
use mathlib.Core.Path.{subst}
use mathlib.Core.Option.{some-injective}
use enclave_runtime.Prelude.{
  ℕ, zero, suc, ◌≡◌, refl, sym, ap, ◌∙◌, inl, inr, true, false, Option, none, some, Bytes, bytes_eq,
  bytes_beq_eq, ◌==◌, Bool-cases,
}
use enclave_runtime.Prelude.Map.{beq_self}
use enclave_runtime.Prelude.Result.{Result, ok, err, ok_injective}
use enclave_runtime.Prelude.Exec.{>>=-eq-ok, pure, ◌>>=◌}
use enclave_runtime.Store.Types.{StoreResult}
use enclave_runtime.Zfs.Types.{Host, KeyMaterial, Run, ZfsError, retain_until, locked}
use enclave_runtime.Zfs.Tip.{chain_tip}
use enclave_runtime.Zfs.Generation.{
  first_unused, seal_generation, generation_key, retained_body, settle_claim, put_new, try_claim,
  claim_loop, claim_generation, is_already_exists,
}
use enclave_runtime.Zfs.Pool.Publish.{Keeps, Pinned, retained_body-value}

module _ (h : Host) (value : h.World → Bytes → Option Bytes) (law : Pinned h value) where
  settle_claim-value :
      (key body : Bytes) (g mine : ℕ) (r : StoreResult (Unit {0})) (w w' : h.World)
      → settle_claim h key body g r w ≡ (ok (some mine), w')
      → (mine ≡ g) × (value w' key ≡ some body)
  unfolding settle_claim
  settle_claim-value key body g mine (ok u) w w' e =
      let (theirs, w1, read, e1) =
        >>=-eq-ok (retained_body h key)
          (λ theirs. pure (elim (theirs == body) [ true ↦ some g | false ↦ none ])) w w' e in
      by_test theirs w1 read e1
    where
      by_test :
          (theirs : Bytes) (w1 : h.World)
          → retained_body h key w ≡ (ok theirs, w1)
          → ◌≡◌ {A = Result ZfsError (Option ℕ) × h.World}
              (ok (elim (theirs == body) [ true ↦ some g | false ↦ none ]), w1)
              (ok (some mine), w')
          → (mine ≡ g) × (value w' key ≡ some body)
      by_test theirs w1 read e1 = elim (Bool-cases (theirs == body)) [
        | inl t ↦ (
          some-injective mine g (sym (ok_injective (ap (λ r. r.0) (rw t at e1)))),
          subst (λ v. value v key ≡ some body) (ap (λ r. r.1) e1)
              (subst (λ b. value w1 key ≡ some b) (bytes_beq_eq theirs body t)
                (retained_body-value h value law key theirs w w1 read)),
        )
        | inr f ↦ cc (ok_injective (ap (λ r. r.0) (rw f at e1)))
      ]
  settle_claim-value key body g mine (err x) w w' e = elim (Bool-cases (is_already_exists x)) [
    | inl t ↦ cc (ap (λ r. r.0) (rw (t, settle_claim) at e))
    | inr f ↦ cc (ap (λ r. r.0) (rw (f, settle_claim) at e))
  ]

  try_claim-value :
      (keys : KeyMaterial) (prefix : Bytes) (retention g : ℕ) (w w' : h.World)
      → try_claim h keys prefix retention w ≡ (ok (some g), w')
      → value w' (generation_key h prefix g) ≡ some (seal_generation h keys g)
  unfolding try_claim
  try_claim-value keys prefix retention g w w' e =
      let key : ℕ → Bytes = generation_key h prefix in
      let (tip, w1, e1, e2) =
        >>=-eq-ok (chain_tip h key)
          (λ tip. retain_until h retention >>= λ until.
            put_new h
              (locked h (key (first_unused tip)) (seal_generation h keys (first_unused tip)) until)
            >>= settle_claim h (key (first_unused tip)) (seal_generation h keys (first_unused tip))
                (first_unused tip))
          w w' e in
      let n = first_unused tip in
      let body = seal_generation h keys n in
      let (until, w2, e3, e4) =
        >>=-eq-ok (retain_until h retention)
          (λ until. put_new h (locked h (key n) body until) >>= settle_claim h (key n) body n) w1 w'
          e2 in
      let (r, w3, e5, e6) =
        >>=-eq-ok (put_new h (locked h (key n) body until)) (settle_claim h (key n) body n) w2 w'
          e4 in
      let (mine, there) = settle_claim-value (key n) body n g r w3 w' e6 in
      subst (λ x. value w' (key x) ≡ some (seal_generation h keys x)) (sym mine) there

  claim_loop-value :
      (tries : ℕ) (keys : KeyMaterial) (prefix : Bytes) (retention g : ℕ) (w w' : h.World)
      → claim_loop h tries keys prefix retention w ≡ (ok g, w')
      → value w' (generation_key h prefix g) ≡ some (seal_generation h keys g)
  unfolding claim_loop
  claim_loop-value zero keys prefix retention g w w' e = cc
  claim_loop-value (suc tries) keys prefix retention g w w' e =
      let (mine, w1, e1, e2) =
        >>=-eq-ok (try_claim h keys prefix retention)
          (λ mine. elim mine [
            | some generation ↦ pure generation
            | none ↦ claim_loop h tries keys prefix retention
          ])
          w w' e in
      by_try mine w1 e1 e2 (claim_loop-value tries keys prefix retention g w1 w')
    where
      by_try :
          (mine : Option ℕ) (w1 : h.World)
          → try_claim h keys prefix retention w ≡ (ok mine, w1)
          → (elim mine as (λ m. Run h ℕ) [
            | some generation ↦ pure generation
            | none ↦ claim_loop h tries keys prefix retention
          ])
              w1
            ≡ (ok g, w')
          → (claim_loop h tries keys prefix retention w1 ≡ (ok g, w')
              → value w' (generation_key h prefix g) ≡ some (seal_generation h keys g))
          → value w' (generation_key h prefix g) ≡ some (seal_generation h keys g)
      by_try none w1 e1 e2 again = again e2
      by_try (some n) w1 e1 e2 again =
          subst (λ v. value v (generation_key h prefix g) ≡ some (seal_generation h keys g))
            (ap (λ r. r.1) e2)
            (try_claim-value keys prefix retention g w w1 (
              subst (λ x. try_claim h keys prefix retention w ≡ (ok (some x), w1))
                (ok_injective (ap (λ r. r.0) e2)) e1))

  -- A boot that claims a generation leaves the generation's signed record in the bucket, under its key.
  pub claim_generation-value :
      (keys : KeyMaterial) (prefix : Bytes) (retention g : ℕ) (w w' : h.World)
      → claim_generation h keys prefix retention w ≡ (ok g, w')
      → value w' (generation_key h prefix g) ≡ some (seal_generation h keys g)
  unfolding claim_generation
  claim_generation-value = claim_loop-value 1024

  -- The read-back does not tell two boots of one enclave apart. After one boot has won a generation, a
  -- second whose conditional PUT of that generation is also let through, and whose read of the retained
  -- record is answered, wins it as well: the record holds nothing of the boot that wrote it.
  pub settle_claim_shared :
      (keys : KeyMaterial) (prefix : Bytes) (g : ℕ) (theirs : Bytes) (w w1 w2 : h.World)
      → (let key = generation_key h prefix g in
          let body = seal_generation h keys g in
          settle_claim h key body g (ok tt) w ≡ (ok (some g), w1)
          → Keeps h value w1 w2
          → (h.get_retained_blob key w2).0 ≡ ok theirs
          → (settle_claim h key body g (ok tt) w2).0 ≡ ok (some g))
  unfolding settle_claim
  settle_claim_shared keys prefix g theirs w w1 w2 first between read =
      let key = generation_key h prefix g in
      let body = seal_generation h keys g in
      let there : value w1 key ≡ some body =
        (settle_claim-value key body g g (ok tt) w w1 first).1 in
      let still : value (h.get_retained_blob key w2).1 key ≡ some body =
        law.kept_get key w2 key body (between key body there) in
      let same : theirs ≡ body =
        some-injective theirs body (sym (law.told key theirs w2 read) ∙ still) in
      rw (read, settle_claim, retained_body, same, beq_self body) refl

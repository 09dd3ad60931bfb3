-- ===== src/Zfs/Pool/Anchoring.antt =====
-- `Pool::anchor_now` of runtime/src/zfs.rs: what an anchor leaves behind.
use mathlib.Core.Path.{subst}
use enclave_runtime.Prelude.{
  ℕ, ◌+◌, ◌<◌, ◌≡◌, ◌≢◌, refl, arith, ap, ◌∙◌, ◌⊎◌, inl, inr, true, Option, some, [], ◌∷◌, ◌++◌,
  ascii, Bytes, ltb, ltb→lt, ◌==◌, nat_eq, Bool-cases,
}
use enclave_runtime.Prelude.Result.{Result, ok, err, ok_injective, ensure-ok}
use enclave_runtime.Prelude.Exec.{>>=-eq-ok, pure, lift, ◌>>=◌, ◌>>◌}
use enclave_runtime.Zfs.Types.{Host, Run, ZfsError, no_entropy, call, command}
use enclave_runtime.Zfs.Anchor.{Anchor, hash, next_seq, prev_hash, seal}
use enclave_runtime.Zfs.Admit.{marker}
use enclave_runtime.Zfs.Kernel.{synced_txg}
use enclave_runtime.Zfs.Pool.{
  Pool, Last, anchor_key, publish, past, write_marker, fence, seal_and_publish, keep_last, sync,
  anchor_from, anchor_now,
}
use enclave_runtime.Zfs.Pool.Publish.{Pinned, publish-value}

module _ (h : Host) where
  abbrev pub sealed : Pool → Anchor → Bytes → ℕ → Anchor
  sealed p prev nonce txg =
      seal h p.keys (some prev) p.kind p.pool_id p.tenant_id p.pool_guid txg nonce

  abbrev pub from_fence : Pool → Anchor → Bytes → ℕ → Run h Anchor
  from_fence p prev nonce txg =
      let b = sealed p prev nonce txg in publish h p b.seq b.encoded >> pure b

  abbrev pub from_txg : Pool → Anchor → Bytes → ℕ → Run h Anchor
  from_txg p prev nonce txg = fence h p (some prev) >> from_fence p prev nonce txg

  -- The worlds between the steps of a `seal_and_publish` that succeeds.
  pub record Steps (p : Pool) (prev a : Anchor) (w w' : h.World) : Type 0 where
    pub nonce : Bytes
    pub txg : ℕ
    pub at_marker : h.World
    pub at_fence : h.World
    pub at_publish : h.World
    pub drawn : call h (h.fill 32) no_entropy w ≡ (ok nonce, at_marker)
    pub written : write_marker h p (some prev) nonce at_marker ≡ (ok txg, at_fence)
    pub passed : fence h p (some prev) at_fence ≡ (ok tt, at_publish)
    pub published :
        publish h p (sealed p prev nonce txg).seq (sealed p prev nonce txg).encoded at_publish
        ≡ (ok tt, w')
    pub result : sealed p prev nonce txg ≡ a

  pub seal_and_publish-Steps :
      (p : Pool) (prev a : Anchor) (w w' : h.World)
      → seal_and_publish h p (some prev) w ≡ (ok a, w')
      → Steps p prev a w w'
  unfolding seal_and_publish
  seal_and_publish-Steps p prev a w w' e =
      let (nonce, w1, drawn, e1) =
        >>=-eq-ok (call h (h.fill 32) no_entropy)
          (λ nonce. write_marker h p (some prev) nonce >>= from_txg p prev nonce) w w' e in
      let (txg, w2, written, e2) =
        >>=-eq-ok (write_marker h p (some prev) nonce) (from_txg p prev nonce) w1 w' e1 in
      let (u, w3, passed, e3) =
        >>=-eq-ok (fence h p (some prev)) (λ u. from_fence p prev nonce txg) w2 w' e2 in
      let b = sealed p prev nonce txg in
      let (u', w4, out, e4) = >>=-eq-ok (publish h p b.seq b.encoded) (λ u'. pure b) w3 w' e3 in
      record {
        nonce = nonce;
        txg = txg;
        at_marker = w1;
        at_fence = w2;
        at_publish = w3;
        drawn = drawn;
        written = written;
        passed = passed;
        published = out ∙ ap (λ v. (ok tt, v)) (ap (λ r. r.1) e4);
        result = ok_injective (ap (λ r. r.0) e4);
      }

  write_marker-past :
      (p : Pool) (prev : Anchor) (nonce : Bytes) (txg : ℕ) (w w' : h.World)
      → p.pool ≡ true
      → write_marker h p (some prev) nonce w ≡ (ok txg, w')
      → prev.txg < txg
  unfolding write_marker
  write_marker-past p prev nonce txg w w' real e =
      let rest : ℕ → Run h ℕ = λ t. lift (past h (some prev) t) >> pure t in
      let zpool = command h (ascii "zpool") (ascii "sync" ∷ p.name ∷ []) in
      let value =
        ascii "enclave:anchor="
        ++ marker h (next_seq (some prev)) nonce (prev_hash h (some prev)) in
      let (out, w1, set, e1) =
        >>=-eq-ok (command h (ascii "zfs") (ascii "set" ∷ value ∷ p.name ∷ []))
          (λ out. zpool >> (synced_txg h p.name >>= rest)) w w' (rw (real, write_marker) at e) in
      let (out', w2, synced, e2) = >>=-eq-ok zpool (λ o. synced_txg h p.name >>= rest) w1 w' e1 in
      let (t, w3, is_txg, e3) = >>=-eq-ok (synced_txg h p.name) rest w2 w' e2 in
      let (u, w4, is_past, e4) = >>=-eq-ok (lift (past h (some prev) t)) (λ u. pure t) w3 w' e3 in
      let newer : prev.txg < t =
        ltb→lt prev.txg t (ensure-ok (ltb prev.txg t) _ (ap (λ r. r.0) is_past)) in
      let same : t ≡ txg = ok_injective (ap (λ r. r.0) e4) in subst (λ x. prev.txg < x) same newer

module _ (h : Host) (value : h.World → Bytes → Option Bytes) (law : Pinned h value) where
  -- A new anchor on top of the one before it, in the bucket.
  abbrev pub Follows : Pool → Anchor → Anchor → h.World → Type 0
  Follows p prev a w =
      (a.seq ≡ prev.seq + 1)
      × (a.prev ≡ hash h prev)
      × (prev.txg < a.txg)
      × (value w (anchor_key h p a.seq) ≡ some a.encoded)

  seal_and_publish-Follows :
      (p : Pool) (prev a : Anchor) (w w' : h.World)
      → p.pool ≡ true
      → seal_and_publish h p (some prev) w ≡ (ok a, w')
      → Follows p prev a w'
  unfolding seal next_seq prev_hash
  seal_and_publish-Follows p prev a w w' real e =
      let s = seal_and_publish-Steps h p prev a w w' e in
      let b = sealed h p prev s.nonce s.txg in
      subst (λ x. Follows p prev x w') s.result
        (
          refl,
          refl,
          write_marker-past h p prev s.nonce s.txg s.at_marker s.at_fence real s.written,
          publish-value h value law p b.seq b.encoded s.at_publish w' s.published,
        )

  -- What an anchor after `prev` answers and leaves in `last`, from the world that it starts in.
  abbrev pub Anchored :
      Pool → Anchor → h.World → (Result ZfsError (Unit {0}) × Last) × h.World → Type 0
  Anchored p prev w ((ok u, ok a), w') =
      ((a ≡ prev) × ((sync h p w).0 ≡ ok prev.txg))
      ⊎ ((txg : ℕ) × ((sync h p w).0 ≡ ok txg) × (txg ≢ prev.txg) × Follows p prev a w')
  Anchored p prev w ((ok u, err e), w') = ⊥
  Anchored p prev w ((err e, ok a), w') = (a ≡ prev) × ((sync h p w).0 ≡ err e)
  Anchored p prev w ((err e, err x), w') = x ≡ e

  anchor_from-Anchored :
      (p : Pool) (prev : Anchor) (w : h.World) (synced : Result ZfsError ℕ) (v : h.World)
      → p.pool ≡ true
      → (sync h p w).0 ≡ synced
      → Anchored p prev w (anchor_from h p prev synced v)
  unfolding anchor_from
  anchor_from-Anchored p prev w (err e) v real q = (refl, q)
  anchor_from-Anchored p prev w (ok synced) v real q = elim (Bool-cases (synced == prev.txg)) [
    | inl t ↦
        let same : synced ≡ prev.txg = (nat_eq.beq_iff synced prev.txg).0 t in
        rw (t, anchor_from, Anchored) (inl (refl, q ∙ ap ok same))
    | inr f ↦
        let moved : synced ≢ prev.txg = ground (arith, f) in
        rw (f, anchor_from, Anchored) (kept moved (seal_and_publish h p (some prev) v) refl)
  ]
    where
      kept :
          (synced ≢ prev.txg)
          → (r : Result ZfsError Anchor × h.World) → seal_and_publish h p (some prev) v ≡ r
          → Anchored p prev w (keep_last h r.0, r.1)
      kept moved (ok a, w') e =
          inr (synced, q, moved, seal_and_publish-Follows p prev a v w' real e)
      kept moved (err x, w') e = refl

  -- In a bucket that keeps a retained object as it is, an anchor of a real pool that succeeds
  -- either finds the disk at the newest anchor's txg and keeps that anchor, or finds it elsewhere
  -- and leaves a new one: the next number, the hash of the one before, a later txg, and in the
  -- bucket under its key. One that fails stops anchoring with its error, or could not read the disk
  -- and keeps the newest anchor.
  pub anchor_now-Anchored :
      (p : Pool) (prev : Anchor) (w : h.World)
      → p.pool ≡ true
      → Anchored p prev w (anchor_now h p (ok prev) w)
  unfolding anchor_now
  anchor_now-Anchored p prev w real =
      anchor_from-Anchored p prev w (sync h p w).0 (sync h p w).1 real refl

-- ===== src/Zfs/Pool/Fence.antt =====
-- The fence of `Pool::seal_and_publish` of runtime/src/zfs.rs: an enclave that a newer generation
-- superseded publishes nothing.
use mathlib.Core.Path.{subst}
use enclave_runtime.Prelude.{
  ℕ, ◌+◌, ◌≡◌, refl, ap, ◌∙◌, ◌≢◌, inl, inr, Bool, true, false, Option, some, Bytes, ◌==◌, nat_eq,
  Bool-cases,
}
use enclave_runtime.Prelude.Result.{Result, ok, err, ensure, ok_injective}
use enclave_runtime.Prelude.Exec.{bind-cases, >>=-eq-ok, pure, lift, ◌>>=◌, ◌>>◌}
use enclave_runtime.Store.Types.{StoreResult}
use enclave_runtime.Zfs.Types.{Host, Run, ZfsError, superseded, no_entropy, call}
use enclave_runtime.Zfs.Tip.{is_not_found, exists_raw, present}
use enclave_runtime.Zfs.Anchor.{Anchor}
use enclave_runtime.Zfs.Generation.{
  generation_key, generation_exists, retained_body, verify_generation, from_store,
}
use enclave_runtime.Zfs.Pool.{
  Pool, Last, write_marker, fence, seal_and_publish, keep_last, sync, anchor_from, anchor_now,
}
use enclave_runtime.Zfs.Pool.Publish.{Keeps, Pinned}
use enclave_runtime.Zfs.Pool.Kept.{
  Reads, Pinned-Reads, call_kept, sync_kept, write_marker_kept, fence_kept,
}
use enclave_runtime.Zfs.Pool.Anchoring.{from_fence, from_txg}

module _ (h : Host) (value : h.World → Bytes → Option Bytes) (law : Pinned h value) where
  exists_raw-there :
      (key body : Bytes) (w w' : h.World)
      → value w key ≡ some body
      → exists_raw h key w ≢ (ok false, w')
  unfolding exists_raw
  exists_raw-there key body w w' there e = go (h.get_retained_blob key w).0 refl (ap (λ r. r.0) e)
    where
      go : (r : StoreResult Bytes) → (h.get_retained_blob key w).0 ≡ r → present h r ≡ ok false → ⊥
      go (ok b) q p = cc
      go (err x) q p = elim (Bool-cases (is_not_found x)) [
        | inl t ↦ cc (there, law.denied key w x q t)
        | inr f ↦ cc (rw (f, present) at p)
      ]

  -- A generation that is in the bucket is seen, or the reading of it fails.
  generation_exists-there :
      (p : Pool) (g : ℕ) (body : Bytes) (w w' : h.World)
      → value w (generation_key h p.prefix g) ≡ some body
      → generation_exists h p.keys p.prefix g w ≢ (ok false, w')
  unfolding generation_exists
  generation_exists-there p g body w w' there e =
      let key = generation_key h p.prefix g in
      let verified : Bytes → Run h Bool =
        λ b. lift (from_store h (verify_generation h b p.keys g)) >> pure true in
      let (found, w1, e1, e2) =
        >>=-eq-ok (exists_raw h key)
          (λ there. elim there [ false ↦ pure false | true ↦ retained_body h key >>= verified ]) w
          w' e in
      by_answer found w1 e1 e2
    where
      by_answer :
          (found : Bool) (w1 : h.World)
          → exists_raw h (generation_key h p.prefix g) w ≡ (ok found, w1)
          → (elim found as (λ b. Run h Bool) [
            | false ↦ pure false
            | true ↦ retained_body h (generation_key h p.prefix g) >>= λ b.
                lift (from_store h (verify_generation h b p.keys g)) >> pure true
          ])
              w1
            ≡ (ok false, w')
          → ⊥
      by_answer false w1 e1 e2 = exists_raw-there (generation_key h p.prefix g) body w w1 there e1
      by_answer true w1 e1 e2 =
          let (b, w2, e3, e4) =
            >>=-eq-ok (retained_body h (generation_key h p.prefix g))
              (λ b. lift (from_store h (verify_generation h b p.keys g)) >> pure true) w1 w' e2 in
          let (u, w3, e5, e6) =
            >>=-eq-ok (lift (from_store h (verify_generation h b p.keys g))) (λ u. pure true) w2 w'
              e4 in
          cc (ok_injective (ap (λ r. r.0) e6))

  fence-there :
      (p : Pool) (prev : Anchor) (body : Bytes) (w w' : h.World)
      → value w (generation_key h p.prefix (p.generation + 1)) ≡ some body
      → fence h p (some prev) w ≢ (ok tt, w')
  unfolding fence
  fence-there p prev body w w' there e =
      let (newer, w1, e1, e2) =
        >>=-eq-ok (generation_exists h p.keys p.prefix (p.generation + 1))
          (λ newer.
            lift
              (ensure (elim newer [ true ↦ false | false ↦ true ]) (superseded (p.generation + 1))))
          w w' e in
      by_answer newer w1 e1 e2
    where
      by_answer :
          (newer : Bool) (w1 : h.World)
          → generation_exists h p.keys p.prefix (p.generation + 1) w ≡ (ok newer, w1)
          → ◌≡◌ {A = Result ZfsError (Unit {0}) × h.World}
              (
                ensure (elim newer [ true ↦ false | false ↦ true ]) (superseded (p.generation + 1)),
                w1,
              )
              (ok tt, w')
          → ⊥
      by_answer false w1 e1 e2 = generation_exists-there p (p.generation + 1) body w w1 there e1
      by_answer true w1 e1 e2 = cc (ap (λ r. r.0) e2)

-- `puts` counts the objects that this enclave has asked the bucket to store: nothing but a conditional PUT
-- adds to it.
abbrev pub SamePuts : (h : Host) → (h.World → ℕ) → h.World → h.World → Type 0
SamePuts h puts w w' = puts w' ≡ puts w

module _ (h : Host) (value : h.World → Bytes → Option Bytes) (law : Pinned h value)
    (puts : h.World → ℕ) (reads : Reads h (SamePuts h puts)) where
  -- A run that fails, and asks the bucket to store nothing.
  abbrev IsRefused : h.World → Result ZfsError Anchor × h.World → Type 0
  IsRefused w (ok a, w') = ⊥
  IsRefused w (err e, w') = SamePuts h puts w w'

  -- The world after a step, by the equation that says what it answered.
  after :
      {A : Type 0} (K : h.World → h.World → Type 0) {w t : h.World} {r : Result ZfsError A}
      (m : Run h A)
      → K w (m w).1
      → m w ≡ (r, t)
      → K w t
  after K {w} m k e = subst (K w) (ap (λ r. r.1) e) k

  seal_and_publish-IsRefused :
      (p : Pool) (prev : Anchor) (body : Bytes) (w : h.World)
      → value w (generation_key h p.prefix (p.generation + 1)) ≡ some body
      → IsRefused w (seal_and_publish h p (some prev) w)
  unfolding seal_and_publish
  seal_and_publish-IsRefused p prev body w there =
      let key = generation_key h p.prefix (p.generation + 1) in
      let pinned = Pinned-Reads h value law in
      let draw = call h (h.fill 32) no_entropy in
      bind-cases (IsRefused w) draw
        (λ nonce. write_marker h p (some prev) nonce >>= from_txg h p prev nonce) w
        (λ e t q.
          after (SamePuts h puts) draw
            (call_kept h (SamePuts h puts) reads (h.fill 32) no_entropy w (reads.kept_fill 32 w)) q)
        (λ nonce w1 q1.
          let s1 =
            after (SamePuts h puts) draw
              (call_kept h (SamePuts h puts) reads (h.fill 32) no_entropy w (reads.kept_fill 32 w))
              q1 in
          let k1 =
            after (Keeps h value) draw
              (call_kept h (Keeps h value) pinned (h.fill 32) no_entropy w (law.kept_fill 32 w))
              q1 in
          let mark = write_marker h p (some prev) nonce in
          let s2 = write_marker_kept h (SamePuts h puts) reads p (some prev) nonce w1 in
          let k2 = write_marker_kept h (Keeps h value) pinned p (some prev) nonce w1 in
          bind-cases (IsRefused w) mark (from_txg h p prev nonce) w1
            (λ e t q. reads.trans w w1 t s1 (after (SamePuts h puts) mark s2 q))
            (λ txg w2 q2.
              let at_fence = after (Keeps h value) mark k2 q2 key body (k1 key body there) in
              bind-cases (IsRefused w) (fence h p (some prev)) (λ u. from_fence h p prev nonce txg)
                w2
                (λ e t q. reads.trans w w1 t s1 (
                  reads.trans w1 w2 t (after (SamePuts h puts) mark s2 q2) (
                    after (SamePuts h puts) (fence h p (some prev))
                      (fence_kept h (SamePuts h puts) reads p prev w2) q)))
                (λ u t q. absurd (fence-there h value law p prev body w2 t at_fence q))))

  -- The newest anchor is the one from before, or anchoring has stopped.
  abbrev pub Unmoved : Anchor → Last → Type 0
  Unmoved prev (ok a) = a ≡ prev
  Unmoved prev (err e) = Unit {0}

  abbrev Silent : Anchor → h.World → (Result ZfsError (Unit {0}) × Last) × h.World → Type 0
  Silent prev w r = SamePuts h puts w r.1 × Unmoved prev r.0.1

  anchor_from-Silent :
      (p : Pool) (prev : Anchor) (body : Bytes) (synced : Result ZfsError ℕ) (w : h.World)
      → value w (generation_key h p.prefix (p.generation + 1)) ≡ some body
      → Silent prev w (anchor_from h p prev synced w)
  unfolding anchor_from
  anchor_from-Silent p prev body (err e) w there = (reads.same w, refl)
  anchor_from-Silent p prev body (ok synced) w there = elim (Bool-cases (synced == prev.txg)) [
    | inl t ↦ rw (t, anchor_from) (reads.same w, refl)
    | inr f ↦
        rw (f, anchor_from)
          (kept (seal_and_publish h p (some prev) w)
            (seal_and_publish-IsRefused p prev body w there))
  ]
    where
      kept :
          (r : Result ZfsError Anchor × h.World)
          → IsRefused w r
          → Silent prev w (keep_last h r.0, r.1)
      kept (ok b, w') k = absurd k
      kept (err x, w') k = (k, tt)

  -- In a bucket that keeps a retained object as it is, where `puts` counts what this enclave has
  -- asked the bucket to store: once the next generation's claim is there, an enclave's anchors
  -- publish nothing. They ask the bucket to store no object, and the newest anchor stays the one
  -- from before, or anchoring stops.
  pub anchor_now_superseded :
      (p : Pool) (prev : Anchor) (body : Bytes) (w : h.World)
      → value w (generation_key h p.prefix (p.generation + 1)) ≡ some body
      → (puts (anchor_now h p (ok prev) w).1 ≡ puts w)
        × Unmoved prev (anchor_now h p (ok prev) w).0.1
  unfolding anchor_now
  anchor_now_superseded p prev body w there =
      let key = generation_key h p.prefix (p.generation + 1) in
      let (same, unmoved) =
        anchor_from-Silent p prev body (sync h p w).0 (sync h p w).1
          (sync_kept h (Keeps h value) (Pinned-Reads h value law) p w key body there) in
      (same ∙ sync_kept h (SamePuts h puts) reads p w, unmoved)

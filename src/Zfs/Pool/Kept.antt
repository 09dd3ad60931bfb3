-- ===== src/Zfs/Pool/Kept.antt =====
-- The parts of `Pool::anchor_now` of runtime/src/zfs.rs that only read the bucket.
use enclave_runtime.Prelude.{
  ℕ, ◌+◌, ◌≡◌, refl, Bool, true, false, inl, inr, Option, none, some, List, [], ◌∷◌, ◌++◌, ascii,
  Bytes, nat_eq, Bool-cases,
}
use enclave_runtime.Prelude.Result.{Result, ok, err}
use enclave_runtime.Prelude.Exec.{bind-keeps, pure, lift, lift_option, ◌>>=◌, ◌>>◌}
use enclave_runtime.Zfs.Types.{Host, Run, ZfsError, file_failed, nothing_written, call, command}
use enclave_runtime.Zfs.Anchor.{Anchor}
use enclave_runtime.Zfs.Kernel.{synced_txg, witness}
use enclave_runtime.Zfs.Tip.{exists_raw}
use enclave_runtime.Zfs.Generation.{
  generation_exists, generation_key, from_store, retained_body, verify_generation,
}
use enclave_runtime.Zfs.Pool.{Pool, past, write_marker, fence, sync}
use enclave_runtime.Zfs.Pool.Publish.{Keeps, Keeps-trans, Pinned}

-- A relation between worlds that the calls which only read the bucket respect.
pub record Reads (h : Host) (K : h.World → h.World → Type 0) : Type 0 where
  pub same : (w : h.World) → K w w
  pub trans : (u v w : h.World) → K u v → K v w → K u w
  pub kept_get : (key : Bytes) (w : h.World) → K w (h.get_retained_blob key w).1
  pub kept_fill : (n : ℕ) (w : h.World) → K w (h.fill n w).1
  pub kept_run : (program : Bytes) (args : List Bytes) (w : h.World) → K w (h.run program args w).1
  pub kept_read : (path : Bytes) (w : h.World) → K w (h.read_file path w).1

-- The retained objects are respected.
pub Pinned-Reads :
    (h : Host) (value : h.World → Bytes → Option Bytes) → Pinned h value → Reads h (Keeps h value)
Pinned-Reads h value law = record {
  same = λ w k b e. e;
  trans = Keeps-trans h value law;
  kept_get = law.kept_get;
  kept_fill = law.kept_fill;
  kept_run = law.kept_run;
  kept_read = law.kept_read;
}

module _ (h : Host) (K : h.World → h.World → Type 0) (law : Reads h K) where
  pub call_kept :
      {A : Type 0} (m : h.World → Option A × h.World) (e : ZfsError) (w : h.World)
      → K w (m w).1
      → K w (call h m e w).1
  call_kept m e w k = go (m w).0 refl
    where
      go : (r : Option _) → (m w).0 ≡ r → K w (call h m e w).1
      go none q = rw (q, call) k
      go (some t) q = rw (q, call) k

  command_kept :
      (program : Bytes) (args : List Bytes) (w : h.World) → K w (command h program args w).1
  command_kept program args w =
      call_kept (h.run program args) ZfsError.command_failed w (law.kept_run program args w)

  synced_txg_kept : (name : Bytes) (w : h.World) → K w (synced_txg h name w).1
  unfolding synced_txg
  synced_txg_kept name w =
      bind-keeps K
        (call h (h.read_file (ascii "/proc/spl/kstat/zfs/" ++ (name ++ ascii "/txgs"))) file_failed)
        (λ kstat. lift_option (λ _. witness kstat) nothing_written) law.trans
        (λ u. call_kept (h.read_file _) file_failed u (law.kept_read _ u))
        (λ kstat u. pure_kept (witness kstat) u) w
    where
      pure_kept :
          (o : Option ℕ) (u : h.World) → K u (lift_option (λ (v : h.World). o) nothing_written u).1
      pure_kept none u = law.same u
      pure_kept (some t) u = law.same u

  pub sync_kept : (p : Pool) (w : h.World) → K w (sync h p w).1
  unfolding sync
  sync_kept p w =
      bind-keeps K (command h (ascii "zpool") (ascii "sync" ∷ p.name ∷ []))
        (λ out. synced_txg h p.name) law.trans
        (command_kept (ascii "zpool") (ascii "sync" ∷ p.name ∷ [])) (λ out. synced_txg_kept p.name)
        w

  pub write_marker_kept :
      (p : Pool) (prev : Option Anchor) (nonce : Bytes) (w : h.World)
      → K w (write_marker h p prev nonce w).1
  unfolding write_marker
  write_marker_kept p prev nonce w = elim (Bool-cases p.pool) [
    | inr e ↦ rw (e, write_marker) (law.same w)
    | inl e ↦
        rw (e, write_marker)
          (bind-keeps K (command h (ascii "zfs") _)
            (λ out.
              command h (ascii "zpool") (ascii "sync" ∷ p.name ∷ [])
              >> (synced_txg h p.name >>= λ txg. lift (past h prev txg) >> pure txg))
            law.trans (command_kept (ascii "zfs") _)
            (λ out.
              bind-keeps K (command h (ascii "zpool") (ascii "sync" ∷ p.name ∷ []))
                (λ out'. synced_txg h p.name >>= λ txg. lift (past h prev txg) >> pure txg)
                law.trans (command_kept (ascii "zpool") (ascii "sync" ∷ p.name ∷ []))
                (λ out'.
                  bind-keeps K (synced_txg h p.name) (λ txg. lift (past h prev txg) >> pure txg)
                    law.trans (synced_txg_kept p.name) (λ txg u. checked (past h prev txg) txg u)))
            w)
  ]
    where
      checked :
          (r : Result ZfsError (Unit {0})) (txg : ℕ) (u : h.World) → K u ((lift r >> pure txg) u).1
      checked (ok tt) txg u = law.same u
      checked (err x) txg u = law.same u

  generation_exists_kept :
      (p : Pool) (g : ℕ) (w : h.World) → K w (generation_exists h p.keys p.prefix g w).1
  unfolding generation_exists exists_raw retained_body
  generation_exists_kept p g =
      bind-keeps K (exists_raw h key) _ law.trans (law.kept_get key) by_answer
    where
      key : Bytes
      key = generation_key h p.prefix g

      by_answer :
          (there : Bool) (w : h.World)
          → K w
              ((elim there as (λ b. Run h Bool) [
                | false ↦ pure false
                | true ↦ retained_body h key >>= λ body.
                    lift (from_store h (verify_generation h body p.keys g)) >> pure true
              ])
                w).1
      by_answer false w = law.same w
      by_answer true w =
          bind-keeps K (retained_body h key)
            (λ body. lift (from_store h (verify_generation h body p.keys g)) >> pure true) law.trans
            (law.kept_get key)
            (λ body.
              bind-keeps K (lift (from_store h (verify_generation h body p.keys g)))
                (λ u. pure true) law.trans law.same (λ u. law.same))
            w

  pub fence_kept : (p : Pool) (prev : Anchor) (w : h.World) → K w (fence h p (some prev) w).1
  unfolding fence
  fence_kept p prev =
      bind-keeps K (generation_exists h p.keys p.prefix (p.generation + 1)) _ law.trans
        (generation_exists_kept p (p.generation + 1)) (λ newer. law.same)

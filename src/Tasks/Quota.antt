-- ===== src/Tasks/Quota.antt =====
-- `TaskQueue` of runtime/src/tasks.rs.
-- What an enqueue adds: within the quotas, and once.
use enclave_runtime.Prelude.{
  ℕ, suc, ◌≤◌, ◌≡◌, refl, true, Option, none, some, [], ◌∷◌, Bytes, length, nat_eq, bytes_eq, arith,
  Option-cases, inl, inr, bytes_beq_refl,
}
use enclave_runtime.Prelude.Map.{Map, get, insert, remove, length-insert-le, get-insert_self}
use enclave_runtime.Prelude.Result.{ok}
use enclave_runtime.Tasks.Types.{TaskLimits, Task, Records, Io}
use enclave_runtime.Tasks.Queue.{enqueue, key, count_of, new_task, same_interval}

count_of-remove-le :
    (tenant : ℕ) (k : Bytes) (tasks : Map Bytes Task)
    → count_of tenant (remove k tasks) ≤ count_of tenant tasks
unfolding remove
count_of-remove-le tenant k [] = omega arith
count_of-remove-le tenant k ((j, t) ∷ tasks) = ground (arith, count_of-remove-le tenant k tasks)

count_of-insert-le :
    (tenant : ℕ) (k : Bytes) (t : Task) (tasks : Map Bytes Task)
    → count_of tenant (insert k t tasks) ≤ suc (count_of tenant tasks)
unfolding insert
count_of-insert-le tenant k t tasks = ground (arith, count_of-remove-le tenant k tasks)

same_interval_refl : (i : Option ℕ) → same_interval i i ≡ true
same_interval_refl none = refl
same_interval_refl (some i) = ground arith

module _ (hex : ℕ → Bytes) (sha256 : Bytes → Bytes) (limits : TaskLimits) where
  -- An enqueue under an id that the tenant has not used leaves the queue within its quotas if it
  -- succeeds: at most so many records in all, and at most so many of this tenant.
  pub enqueue-quota :
      (io : Io) (tenant : ℕ) (id payload : Bytes) (run_at : ℕ) (interval_ms : Option ℕ)
      (r : Records)
      → get (key hex sha256 tenant id) r.tasks ≡ none
      → (enqueue hex sha256 limits io tenant id payload run_at interval_ms r).0 ≡ ok tt
      → let r' = (enqueue hex sha256 limits io tenant id payload run_at interval_ms r).1 in
        (length r'.tasks ≤ limits.max_records) × (count_of tenant r'.tasks ≤ limits.per_tenant)
  unfolding enqueue
  enqueue-quota io tenant id payload run_at interval_ms r fresh done =
      elim (Option-cases io.generation) [
        | inl g ↦ absurd (ground (arith, g, fresh, done))
        | inr (generation, g) ↦
            let k = key hex sha256 tenant id in
            let task = new_task tenant id payload run_at interval_ms generation in
            ground (
              arith,
              g,
              fresh,
              done,
              length-insert-le k task r.tasks,
              count_of-insert-le tenant k task r.tasks,
            )
      ]

  -- Once an enqueue has added a task, the same enqueue, of a tenant that exists and can be flagged,
  -- succeeds again and changes nothing, whatever the disk would have answered to a write.
  pub enqueue_twice :
      (io io' : Io) (tenant : ℕ) (id payload : Bytes) (run_at : ℕ) (interval_ms : Option ℕ)
      (r : Records)
      → get (key hex sha256 tenant id) r.tasks ≡ none
      → (enqueue hex sha256 limits io tenant id payload run_at interval_ms r).0 ≡ ok tt
      → io'.tenant_exists ≡ true
      → io'.marked ≡ true
      → let r' = (enqueue hex sha256 limits io tenant id payload run_at interval_ms r).1 in
        enqueue hex sha256 limits io' tenant id payload run_at interval_ms r' ≡ (ok tt, r')
  unfolding enqueue
  enqueue_twice io io' tenant id payload run_at interval_ms r fresh done e m =
      elim (Option-cases io.generation) [
        | inl g ↦ absurd (ground (arith, g, fresh, done))
        | inr (generation, g) ↦
            let k = key hex sha256 tenant id in
            let task = new_task tenant id payload run_at interval_ms generation in
            ground (
              arith,
              g,
              fresh,
              done,
              e,
              m,
              get-insert_self k task r.tasks,
              bytes_beq_refl payload,
              same_interval_refl interval_ms,
            )
      ]

-- ===== src/Tasks/Keyed.antt =====
-- `TaskQueue` of runtime/src/tasks.rs: a task stands under its own key.
use mathlib.Core.Path.{subst}
use enclave_runtime.Prelude.{
  ℕ, ◌+◌, ◌≡◌, ◌∙◌, Bool, true, Option, none, some, Bytes, nat_eq, bytes_eq, ◌==◌, arith,
  Option-cases, inl, inr,
}
use enclave_runtime.Prelude.Map.{get, get-insert, get-remove}
use enclave_runtime.Prelude.Result.{ok, Result-cases}
use enclave_runtime.Tasks.Types.{
  TaskLimits, running, cancelled, Task, Records, Io, Outcome, busy, returned, failed_with,
}
use enclave_runtime.Tasks.Queue.{enqueue, cancel, forget, begin, finish, settle, new_task, key}
use enclave_runtime.Tasks.Due.{due}
use enclave_runtime.Tasks.Attempts.{
  Call, enqueues, cancels, forgets, takes_due, begins, finishes, step,
}

module _ (hex : ℕ → Bytes) (sha256 : Bytes → Bytes) where
  -- Whether a task stands under its own key.
  abbrev pub keyed : Bytes → Option Task → Bool
  keyed k none = true
  keyed k (some t) = key hex sha256 t.tenant t.id == k

  keyed-enqueue :
      (limits : TaskLimits) (io : Io) (tenant : ℕ) (id payload : Bytes) (run_at : ℕ)
      (interval_ms : Option ℕ) (r : Records) (j : Bytes)
      → keyed j (get j r.tasks) ≡ true
      → keyed j
          (get j (enqueue hex sha256 limits io tenant id payload run_at interval_ms r).1.tasks)
        ≡ true
  unfolding enqueue
  keyed-enqueue limits io tenant id payload run_at interval_ms r j b =
      elim (Option-cases io.generation) [
        | inl g ↦ ground arith
        | inr (generation, g) ↦
            let task = new_task tenant id payload run_at interval_ms generation in
            ground (arith, g, get-insert (key hex sha256 tenant id) j task r.tasks)
      ]

  keyed-cancel :
      (io : Io) (tenant : ℕ) (id : Bytes) (r : Records) (j : Bytes)
      → ((k : Bytes) → keyed k (get k r.tasks) ≡ true)
      → keyed j (get j (cancel hex sha256 io tenant id r).1.tasks) ≡ true
  unfolding cancel
  keyed-cancel io tenant id r j b = elim (Option-cases (get (key hex sha256 tenant id) r.tasks)) [
    | inl h ↦ rw (h, cancel) (b j)
    | inr (t, h) ↦
        let k = key hex sha256 tenant id in
        let own : (key hex sha256 t.tenant t.id == k) ≡ true =
          subst (λ o. keyed k o ≡ true) h (b k) in
        ground (
          arith,
          own,
          (bytes_eq.beq_iff (key hex sha256 t.tenant t.id) k).0 own,
          get-insert k j (record t { status = cancelled }) r.tasks,
          b j,
          h,
        )
  ]

  keyed-forget :
      (io : Io) (tenant : ℕ) (id : Bytes) (r : Records) (j : Bytes)
      → keyed j (get j r.tasks) ≡ true
      → keyed j (get j (forget hex sha256 io tenant id r).1.tasks) ≡ true
  unfolding forget
  keyed-forget io tenant id r j b = ground (arith, get-remove (key hex sha256 tenant id) j r.tasks)

  keyed-due :
      (now : ℕ) (r : Records) (j : Bytes)
      → keyed j (get j r.tasks) ≡ true
      → keyed j (get j (due now r).1.tasks) ≡ true
  unfolding due
  keyed-due now r j b = ground arith

  -- A task under its own key begins there.
  pub own_key :
      (task : Task) (r : Records) (t : Task)
      → ((k : Bytes) → keyed k (get k r.tasks) ≡ true)
      → get (key hex sha256 task.tenant task.id) r.tasks ≡ some t
      → key hex sha256 t.tenant t.id ≡ key hex sha256 task.tenant task.id
  own_key task r t b h =
      let k = key hex sha256 task.tenant task.id in
      (bytes_eq.beq_iff (key hex sha256 t.tenant t.id) k).0 (subst (λ o. keyed k o ≡ true) h (b k))

  keyed-begin :
      (io : Io) (task : Task) (r : Records) (j : Bytes)
      → ((k : Bytes) → keyed k (get k r.tasks) ≡ true)
      → keyed j (get j (begin hex sha256 io task r).1.tasks) ≡ true
  unfolding begin
  keyed-begin io task r j b =
      elim (Option-cases (get (key hex sha256 task.tenant task.id) r.tasks)) [
        | inl h ↦ rw (h, begin) (b j)
        | inr (t, h) ↦ ground (
          arith,
          get-insert (key hex sha256 t.tenant t.id) j
              (record t { status = running; attempts = t.attempts + 1 }) r.tasks,
          b j,
          h,
        )
      ]

  keyed-settle :
      (k j : Bytes) (now : ℕ) (o : Outcome) (t u : Task)
      → settle hex sha256 k now o t ≡ ok u
      → keyed j (some u) ≡ keyed j (some t)
  unfolding settle
  keyed-settle k j now busy t u h = cc
  keyed-settle k j now (returned bytes) t u h = ground arith
  keyed-settle k j now (failed_with text) t u h = ground arith

  keyed-finish :
      (io : Io) (now : ℕ) (task : Task) (o : Outcome) (r : Records) (j : Bytes)
      → ((k : Bytes) → keyed k (get k r.tasks) ≡ true)
      → keyed j (get j (finish hex sha256 io now task o r).1.tasks) ≡ true
  unfolding finish
  keyed-finish io now task o r j b =
      let k = key hex sha256 task.tenant task.id in
      elim (Option-cases (get k r.tasks)) [
        | inl h ↦ rw (h, finish) (b j)
        | inr (t, h) ↦ elim (Result-cases (settle hex sha256 k now o t)) [
          | inr (e, s) ↦ ground (arith, b j, h, s)
          | inl (u, s) ↦
              let own = keyed-settle k k now o t u s ∙ subst (λ o. keyed k o ≡ true) h (b k) in
              ground (
                arith,
                own,
                (bytes_eq.beq_iff (key hex sha256 u.tenant u.id) k).0 own,
                get-insert k j u r.tasks,
                b j,
                h,
                s,
              )
        ]
      ]

  pub keyed-step :
      (c : Call) (r : Records)
      → ((k : Bytes) → keyed k (get k r.tasks) ≡ true)
      → (j : Bytes) → keyed j (get j (step hex sha256 c r).tasks) ≡ true
  unfolding step
  keyed-step (enqueues limits io tenant id payload run_at interval_ms) r b j =
      keyed-enqueue limits io tenant id payload run_at interval_ms r j (b j)
  keyed-step (cancels io tenant id) r b j = keyed-cancel io tenant id r j b
  keyed-step (forgets io tenant id) r b j = keyed-forget io tenant id r j (b j)
  keyed-step (takes_due now) r b j = keyed-due now r j (b j)
  keyed-step (begins io task) r b j = keyed-begin io task r j b
  keyed-step (finishes io now task o) r b j = keyed-finish io now task o r j b

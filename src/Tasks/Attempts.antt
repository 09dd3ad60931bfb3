-- ===== src/Tasks/Attempts.antt =====
-- `TaskQueue` of runtime/src/tasks.rs.
-- No task is tried more often than it may be, whatever order the calls come in.
use mathlib.Core.Path.{subst}
use enclave_runtime.Prelude.{
  ℕ, ◌+◌, ◌≤◌, ◌≡◌, Option, none, some, List, [], ◌∷◌, Bytes, if◌then◌else◌, nat_eq, bytes_eq,
  arith, Option-cases, inl, inr,
}
use enclave_runtime.Prelude.Map.{get, get-insert, get-remove}
use enclave_runtime.Prelude.Result.{ok, Result-cases}
use enclave_runtime.Tasks.Types.{
  max_attempts, TaskLimits, running, cancelled, Task, Records, no_records, Io, Outcome, busy,
  returned, failed_with, is_pending,
}
use enclave_runtime.Tasks.Queue.{enqueue, cancel, forget, begin, finish, settle, new_task, key}
use enclave_runtime.Tasks.Due.{due}

-- The attempts that a task has had, and the one that a pending task is to have.
abbrev pub claimed : Task → ℕ
claimed t = t.attempts + (if is_pending t.status then 1 else 0)

abbrev pub claimed_at : Option Task → ℕ
claimed_at none = 0
claimed_at (some t) = claimed t

-- What the queue is asked to do, with what the file system, the anchor and the clock answer.
pub data Call : Type 0 where
  enqueues : TaskLimits → Io → ℕ → Bytes → Bytes → ℕ → Option ℕ → Call
  cancels forgets : Io → ℕ → Bytes → Call
  takes_due : ℕ → Call
  begins : Io → Task → Call
  finishes : Io → ℕ → Task → Outcome → Call

module _ (hex : ℕ → Bytes) (sha256 : Bytes → Bytes) where
  unfoldable pub step : Call → Records → Records
  unfolding enqueue cancel forget due begin finish
  step (enqueues limits io tenant id payload run_at interval_ms) r =
      (enqueue hex sha256 limits io tenant id payload run_at interval_ms r).1
  step (cancels io tenant id) r = (cancel hex sha256 io tenant id r).1
  step (forgets io tenant id) r = (forget hex sha256 io tenant id r).1
  step (takes_due now) r = (due now r).1
  step (begins io task) r = (begin hex sha256 io task r).1
  step (finishes io now task outcome) r = (finish hex sha256 io now task outcome r).1

  unfoldable pub run : List Call → Records → Records
  unfolding step
  run [] r = r
  run (c ∷ cs) r = run cs (step c r)

  claimed-settle :
      (k : Bytes) (now : ℕ) (o : Outcome) (t u : Task)
      → t.attempts ≤ 5
      → settle hex sha256 k now o t ≡ ok u
      → claimed u ≤ 5
  unfolding settle
  claimed-settle k now busy t u b h = cc
  claimed-settle k now (returned bytes) t u b h = ground arith
  claimed-settle k now (failed_with text) t u b h = ground arith

  claimed-enqueue :
      (limits : TaskLimits) (io : Io) (tenant : ℕ) (id payload : Bytes) (run_at : ℕ)
      (interval_ms : Option ℕ) (r : Records) (j : Bytes)
      → claimed_at (get j r.tasks) ≤ 5
      → claimed_at
          (get j (enqueue hex sha256 limits io tenant id payload run_at interval_ms r).1.tasks)
        ≤ 5
  unfolding enqueue
  claimed-enqueue limits io tenant id payload run_at interval_ms r j b =
      elim (Option-cases io.generation) [
        | inl g ↦ ground arith
        | inr (generation, g) ↦
            let task = new_task tenant id payload run_at interval_ms generation in
            ground (arith, g, get-insert (key hex sha256 tenant id) j task r.tasks)
      ]

  claimed-cancel :
      (io : Io) (tenant : ℕ) (id : Bytes) (r : Records) (j : Bytes)
      → ((k : Bytes) → claimed_at (get k r.tasks) ≤ 5)
      → claimed_at (get j (cancel hex sha256 io tenant id r).1.tasks) ≤ 5
  unfolding cancel
  claimed-cancel io tenant id r j b = elim (Option-cases (get (key hex sha256 tenant id) r.tasks)) [
    | inl h ↦ rw (h, cancel) (b j)
    | inr (t, h) ↦ ground (
      arith,
      get-insert (key hex sha256 tenant id) j (record t { status = cancelled }) r.tasks,
      b j,
      b (key hex sha256 tenant id),
      h,
    )
  ]

  claimed-forget :
      (io : Io) (tenant : ℕ) (id : Bytes) (r : Records) (j : Bytes)
      → claimed_at (get j r.tasks) ≤ 5
      → claimed_at (get j (forget hex sha256 io tenant id r).1.tasks) ≤ 5
  unfolding forget
  claimed-forget io tenant id r j b =
      ground (arith, get-remove (key hex sha256 tenant id) j r.tasks)

  claimed-due :
      (now : ℕ) (r : Records) (j : Bytes)
      → claimed_at (get j r.tasks) ≤ 5
      → claimed_at (get j (due now r).1.tasks) ≤ 5
  unfolding due
  claimed-due now r j b = ground arith

  claimed-begin :
      (io : Io) (task : Task) (r : Records) (j : Bytes)
      → ((k : Bytes) → claimed_at (get k r.tasks) ≤ 5)
      → claimed_at (get j (begin hex sha256 io task r).1.tasks) ≤ 5
  unfolding begin
  claimed-begin io task r j b =
      elim (Option-cases (get (key hex sha256 task.tenant task.id) r.tasks)) [
        | inl h ↦ rw (h, begin) (b j)
        | inr (t, h) ↦ ground (
          arith,
          get-insert (key hex sha256 t.tenant t.id) j
              (record t { status = running; attempts = t.attempts + 1 }) r.tasks,
          b j,
          b (key hex sha256 task.tenant task.id),
          h,
        )
      ]

  claimed-finish :
      (io : Io) (now : ℕ) (task : Task) (o : Outcome) (r : Records) (j : Bytes)
      → ((k : Bytes) → claimed_at (get k r.tasks) ≤ 5)
      → claimed_at (get j (finish hex sha256 io now task o r).1.tasks) ≤ 5
  unfolding finish
  claimed-finish io now task o r j b =
      let k = key hex sha256 task.tenant task.id in
      elim (Option-cases (get k r.tasks)) [
        | inl h ↦ rw (h, finish) (b j)
        | inr (t, h) ↦ elim (Result-cases (settle hex sha256 k now o t)) [
          | inr (e, s) ↦ ground (arith, b j, h, s)
          | inl (u, s) ↦
              ground (arith, get-insert k j u r.tasks, claimed-settle k now o t u, b j, b k, h, s)
        ]
      ]

  claimed-step :
      (c : Call) (r : Records)
      → ((k : Bytes) → claimed_at (get k r.tasks) ≤ 5)
      → (j : Bytes) → claimed_at (get j (step c r).tasks) ≤ 5
  unfolding step
  claimed-step (enqueues limits io tenant id payload run_at interval_ms) r b j =
      claimed-enqueue limits io tenant id payload run_at interval_ms r j (b j)
  claimed-step (cancels io tenant id) r b j = claimed-cancel io tenant id r j b
  claimed-step (forgets io tenant id) r b j = claimed-forget io tenant id r j (b j)
  claimed-step (takes_due now) r b j = claimed-due now r j (b j)
  claimed-step (begins io task) r b j = claimed-begin io task r j b
  claimed-step (finishes io now task o) r b j = claimed-finish io now task o r j b

  claimed-run :
      (cs : List Call) (r : Records)
      → ((k : Bytes) → claimed_at (get k r.tasks) ≤ 5)
      → (j : Bytes) → claimed_at (get j (run cs r).tasks) ≤ 5
  unfolding run
  claimed-run [] r b j = b j
  claimed-run (c ∷ cs) r b j = claimed-run cs (step c r) (claimed-step c r b) j

  -- Whatever is asked of an empty queue, and whatever the disk and the anchor answer, the record of
  -- no task says that it has had more than five attempts, and that of a task that waits for its
  -- turn says at most four.
  pub attempts-run :
      (cs : List Call) (k : Bytes) (t : Task)
      → get k (run cs no_records).tasks ≡ some t
      → t.attempts + (if is_pending t.status then 1 else 0) ≤ max_attempts
  unfolding get
  attempts-run cs k t h =
      let b : claimed_at (get k (run cs no_records).tasks) ≤ 5 =
        claimed-run cs no_records (λ j. omega arith) k in
      subst (λ o. claimed_at o ≤ 5) h b

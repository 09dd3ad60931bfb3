-- ===== src/Tasks/Made.antt =====
-- `TaskQueue` of runtime/src/tasks.rs: how many attempts are begun at one occurrence of a task.
use enclave_runtime.Prelude.{
  ℕ, ◌+◌, ◌≤◌, ◌≡◌, refl, ap, Bool, true, false, ◌&&◌, Option, none, some, List, [], ◌∷◌, Bytes,
  if◌then◌else◌, nat_eq, bytes_eq, ◌==◌, arith, Option-cases, inl, inr,
}
use enclave_runtime.Prelude.Map.{get, get-insert, get-remove}
use enclave_runtime.Prelude.Result.{Result, ok, err, Result-cases}
use enclave_runtime.Tasks.Types.{
  max_attempts, TaskLimits, running, cancelled, Task, Records, no_records, Io, Outcome, busy,
  returned, failed_with, TaskError,
}
use enclave_runtime.Tasks.Queue.{enqueue, cancel, forget, begin, finish, settle, new_task, key}
use enclave_runtime.Tasks.Due.{due}
use enclave_runtime.Tasks.Keyed.{keyed, own_key, keyed-step}
use enclave_runtime.Tasks.Attempts.{
  Call, enqueues, cancels, forgets, takes_due, begins, finishes, step, run, attempts-run,
}

abbrev pub attempts_at : Option Task → ℕ
attempts_at none = 0
attempts_at (some t) = t.attempts

-- A `begin` that says to run the task, and a call that succeeds.
abbrev pub says_run : Result TaskError Bool → Bool
says_run (ok run) = run
says_run (err e) = false

abbrev pub succeeded : Result TaskError (Unit {0}) → Bool
succeeded (ok u) = true
succeeded (err e) = false

module _ (hex : ℕ → Bytes) (sha256 : Bytes → Bytes) where
  -- The attempts at the task under a key that have been begun since its occurrence began, counted from
  -- the answers of the queue: one more each time `begin` says to run the task, and none again when `finish`
  -- has taken what the guest returned, or `forget` has removed the task.
  abbrev pub counted : Bytes → Call → Records → ℕ → ℕ
  counted k (begins io task) r n =
      if (key hex sha256 task.tenant task.id == k) && says_run (begin hex sha256 io task r).0
      then n + 1
      else n
  counted k (finishes io now task (returned bytes)) r n =
      if (key hex sha256 task.tenant task.id == k)
        && succeeded (finish hex sha256 io now task (returned bytes) r).0
      then 0
      else n
  counted k (finishes io now task busy) r n = n
  counted k (finishes io now task (failed_with text)) r n = n
  counted k (forgets io tenant id) r n =
      if (key hex sha256 tenant id == k) && succeeded (forget hex sha256 io tenant id r).0
      then 0
      else n
  counted k (enqueues limits io tenant id payload run_at interval_ms) r n = n
  counted k (cancels io tenant id) r n = n
  counted k (takes_due now) r n = n

  abbrev pub made : Bytes → List Call → Records → ℕ → ℕ
  made k [] r n = n
  made k (c ∷ cs) r n = made k cs (step hex sha256 c r) (counted k c r n)

  made_enqueue :
      (limits : TaskLimits) (io : Io) (tenant : ℕ) (id payload : Bytes) (run_at : ℕ)
      (interval_ms : Option ℕ) (r : Records) (k : Bytes) (n : ℕ)
      → n ≤ attempts_at (get k r.tasks)
      → n
        ≤ attempts_at
            (get k (enqueue hex sha256 limits io tenant id payload run_at interval_ms r).1.tasks)
  unfolding enqueue
  made_enqueue limits io tenant id payload run_at interval_ms r k n b =
      elim (Option-cases io.generation) [
        | inl g ↦ ground arith
        | inr (generation, g) ↦
            let task = new_task tenant id payload run_at interval_ms generation in
            ground (
              arith,
              g,
              get-insert (key hex sha256 tenant id) k task r.tasks,
              bytes_eq.beq_iff (key hex sha256 tenant id) k,
            )
      ]

  made_cancel :
      (io : Io) (tenant : ℕ) (id : Bytes) (r : Records) (k : Bytes) (n : ℕ)
      → n ≤ attempts_at (get k r.tasks)
      → n ≤ attempts_at (get k (cancel hex sha256 io tenant id r).1.tasks)
  unfolding cancel
  made_cancel io tenant id r k n b = elim (Option-cases (get (key hex sha256 tenant id) r.tasks)) [
    | inl h ↦ rw (h, cancel) b
    | inr (t, h) ↦ ground (
      arith,
      get-insert (key hex sha256 tenant id) k (record t { status = cancelled }) r.tasks,
      (bytes_eq.beq_iff (key hex sha256 tenant id) k).0,
      h,
    )
  ]

  made_forget :
      (io : Io) (tenant : ℕ) (id : Bytes) (r : Records) (k : Bytes) (n : ℕ)
      → n ≤ attempts_at (get k r.tasks)
      → counted k (forgets io tenant id) r n
        ≤ attempts_at (get k (forget hex sha256 io tenant id r).1.tasks)
  unfolding forget
  made_forget io tenant id r k n b = ground (arith, get-remove (key hex sha256 tenant id) k r.tasks)

  made_due :
      (now : ℕ) (r : Records) (k : Bytes) (n : ℕ)
      → n ≤ attempts_at (get k r.tasks)
      → n ≤ attempts_at (get k (due now r).1.tasks)
  unfolding due
  made_due now r k n b = ground arith

  made_begin :
      (io : Io) (task : Task) (r : Records) (k : Bytes) (n : ℕ)
      → ((j : Bytes) → keyed hex sha256 j (get j r.tasks) ≡ true)
      → n ≤ attempts_at (get k r.tasks)
      → counted k (begins io task) r n ≤ attempts_at (get k (begin hex sha256 io task r).1.tasks)
  unfolding begin
  made_begin io task r k n own b =
      let j = key hex sha256 task.tenant task.id in
      elim (Option-cases (get j r.tasks)) [
        | inl h ↦ ground (arith, h)
        | inr (t, h) ↦
            let here = own_key hex sha256 task r t own h in
            let next : Task = record t { status = running; attempts = t.attempts + 1 } in
            ground (
              arith,
              here,
              get-insert (key hex sha256 t.tenant t.id) k next r.tasks,
              (bytes_eq.beq_iff j k).0,
              h,
            )
      ]

  made_settle :
      (k : Bytes) (now : ℕ) (text : Bytes) (t u : Task)
      → settle hex sha256 k now (failed_with text) t ≡ ok u
      → t.attempts ≡ u.attempts
  unfolding settle
  made_settle k now text t u h = ground arith

  made_finish :
      (io : Io) (now : ℕ) (task : Task) (o : Outcome) (r : Records) (k : Bytes) (n : ℕ)
      → n ≤ attempts_at (get k r.tasks)
      → counted k (finishes io now task o) r n
        ≤ attempts_at (get k (finish hex sha256 io now task o r).1.tasks)
  unfolding finish
  made_finish io now task busy r k n b =
      elim (Option-cases (get (key hex sha256 task.tenant task.id) r.tasks)) [
        | inl h ↦ rw (h, finish) b
        | inr (t, h) ↦ ground (arith, h)
      ]
  made_finish io now task (failed_with text) r k n b =
      let j = key hex sha256 task.tenant task.id in
      elim (Option-cases (get j r.tasks)) [
        | inl h ↦ rw (h, finish) b
        | inr (t, h) ↦ elim (Result-cases (settle hex sha256 j now (failed_with text) t)) [
          | inr (e, s) ↦ ground (arith, h, s)
          | inl (u, s) ↦ ground (
            arith,
            h,
            s,
            made_settle j now text t u s,
            get-insert j k u r.tasks,
            (bytes_eq.beq_iff j k).0,
          )
        ]
      ]
  made_finish io now task (returned bytes) r k n b =
      let j = key hex sha256 task.tenant task.id in
      elim (Option-cases (get j r.tasks)) [
        | inl h ↦ ground (arith, h)
        | inr (t, h) ↦ elim (Result-cases (settle hex sha256 j now (returned bytes) t)) [
          | inr (e, s) ↦ ground (arith, h, s)
          | inl (u, s) ↦ ground (arith, h, s, get-insert j k u r.tasks)
        ]
      ]

  made_step :
      (c : Call) (r : Records) (k : Bytes) (n : ℕ)
      → ((j : Bytes) → keyed hex sha256 j (get j r.tasks) ≡ true)
      → n ≤ attempts_at (get k r.tasks)
      → counted k c r n ≤ attempts_at (get k (step hex sha256 c r).tasks)
  unfolding step
  made_step (enqueues limits io tenant id payload run_at interval_ms) r k n own b =
      made_enqueue limits io tenant id payload run_at interval_ms r k n b
  made_step (cancels io tenant id) r k n own b = made_cancel io tenant id r k n b
  made_step (forgets io tenant id) r k n own b = made_forget io tenant id r k n b
  made_step (takes_due now) r k n own b = made_due now r k n b
  made_step (begins io task) r k n own b = made_begin io task r k n own b
  made_step (finishes io now task o) r k n own b = made_finish io now task o r k n b

  made_all :
      (cs : List Call) (r : Records) (k : Bytes) (n : ℕ)
      → ((j : Bytes) → keyed hex sha256 j (get j r.tasks) ≡ true)
      → n ≤ attempts_at (get k r.tasks)
      → made k cs r n ≤ attempts_at (get k (run hex sha256 cs r).tasks)
  unfolding run
  made_all [] r k n own b = b
  made_all (c ∷ cs) r k n own b =
      made_all cs (step hex sha256 c r) k (counted k c r n) (keyed-step hex sha256 c r own)
        (made_step c r k n own b)

  -- Whatever is asked of an empty queue, and whatever the disk and the anchor answer, at most five
  -- attempts at one occurrence of a task are begun, counted from the answers of the queue.
  pub made_bounded : (cs : List Call) (k : Bytes) → made k cs no_records 0 ≤ max_attempts
  unfolding get
  made_bounded cs k =
      let b = made_all cs no_records k 0 (λ j. refl) (omega arith) in
      elim (Option-cases (get k (run hex sha256 cs no_records).tasks)) [
        | inl h ↦ omega (arith, b, ap attempts_at h)
        | inr (t, h) ↦ omega (arith, b, ap attempts_at h, attempts-run hex sha256 cs k t h)
      ]

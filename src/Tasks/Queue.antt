-- ===== src/Tasks/Queue.antt =====
-- The operations of `TaskQueue` in runtime/src/tasks.rs.
--
-- Each holds the mutex to its end, so it is one step; `begin` asks for the anchor after it let go, and
-- then only reports. `now` is the trusted clock, `hex` and `sha256` are other crates'.
use enclave_runtime.Prelude.{
  ℕ, suc, ◌+◌, ◌^◌, ◌-◌, ◌*◌, ◌%◌, Bool, true, false, not, ◌&&◌, ◌||◌, Option, none, some, List, [],
  ◌∷◌, ◌++◌, Bytes, length, leb, ltb, take, min, if◌then◌else◌, nat_eq, bytes_eq, ◌==◌, retain,
}
use enclave_runtime.Prelude.Map.{Map, get, insert, remove}
use enclave_runtime.Prelude.Result.{Result, ok, err}
use enclave_runtime.Tasks.Types.{
  max_payload, max_attempts, TaskLimits, pending, running, completed, failed, cancelled, Task,
  is_pending, is_running, is_cancelled, terminal, valid_id, Records, TaskError, invalid_id,
  payload_too_large, short_interval, no_tenant, not_marked, different_input, quota_reached,
  no_entropy, not_written, no_such_task, still_active, not_removed, not_anchored, not_running,
  occurrence_overflow, Io, Outcome, busy, returned, failed_with, saturating_add,
}

-- The order of byte strings, and of the entries of the due set.
abbrev pub bytes_ltb : Bytes → Bytes → Bool
bytes_ltb bs [] = false
bytes_ltb [] (b ∷ bs) = true
bytes_ltb (a ∷ xs) (b ∷ ys) = ltb a b || (a == b && bytes_ltb xs ys)

abbrev pub entry_ltb : ℕ × Bytes → ℕ × Bytes → Bool
entry_ltb e f = ltb e.0 f.0 || (e.0 == f.0 && bytes_ltb e.1 f.1)

abbrev pub entry_eq : ℕ × Bytes → ℕ × Bytes → Bool
entry_eq e f = e.0 == f.0 && e.1 == f.1

-- BTreeSet::insert and remove
unfoldable pub insert_due : ℕ × Bytes → List (ℕ × Bytes) → List (ℕ × Bytes)
insert_due e [] = e ∷ []
insert_due e (f ∷ due) =
    let rest = insert_due e due in
    if entry_eq e f then f ∷ due else if entry_ltb e f then e ∷ f ∷ due else f ∷ rest

abbrev pub remove_due : ℕ × Bytes → List (ℕ × Bytes) → List (ℕ × Bytes)
remove_due e due = retain (λ f. not (entry_eq f e)) due

abbrev pub contains : Bytes → List Bytes → Bool
contains k [] = false
contains k (j ∷ ks) = j == k || contains k ks

abbrev pub deactivate : Bytes → List Bytes → List Bytes
deactivate k = retain (λ j. not (j == k))

-- `values().filter(|t| t.tenant == tenant).count()`
abbrev pub count_of : ℕ → Map Bytes Task → ℕ
count_of tenant [] = 0
count_of tenant ((k, t) ∷ tasks) =
    if t.tenant == tenant then suc (count_of tenant tasks) else count_of tenant tasks

abbrev pub same_interval : Option ℕ → Option ℕ → Bool
same_interval none none = true
same_interval none (some j) = false
same_interval (some i) none = false
same_interval (some i) (some j) = i == j

abbrev pub interval_ok : Option ℕ → Bool
interval_ok none = true
interval_ok (some i) = leb 1000 i

-- u64::from_le_bytes
abbrev pub from_le_bytes : Bytes → ℕ
from_le_bytes [] = 0
from_le_bytes (b ∷ bs) = b + 256 * from_le_bytes bs

abbrev pub new_task : ℕ → Bytes → Bytes → ℕ → Option ℕ → Bytes → Task
new_task tenant id payload run_at interval_ms generation = record {
  version = 1;
  tenant = tenant;
  id = id;
  payload = payload;
  run_at = run_at;
  requested_run_at = run_at;
  generation = generation;
  interval_ms = interval_ms;
  status = pending;
  attempts = 0;
  occurrence = 0;
  result = [];
  error = none;
}

module _ (hex : ℕ → Bytes) (sha256 : Bytes → Bytes) where
  unfoldable pub key : ℕ → Bytes → Bytes
  key tenant id = hex tenant ++ (b'-' ∷ id)

  unfoldable pub offset : Bytes → ℕ → ℕ
  offset k interval = from_le_bytes (take 8 (sha256 k)) % interval

  -- TaskQueue::enqueue
  unfoldable pub enqueue :
      TaskLimits
      → Io
      → ℕ
      → Bytes
      → Bytes
      → ℕ
      → Option ℕ
      → Records
      → Result TaskError (Unit {0}) × Records
  unfolding key valid_id insert_due
  enqueue limits io tenant id payload run_at interval_ms r =
      let k = key tenant id in
      if not (valid_id id)
      then (err invalid_id, r)
      else if ltb max_payload (length payload)
      then (err payload_too_large, r)
      else if not (interval_ok interval_ms)
      then (err short_interval, r)
      else if not io.tenant_exists
      then (err no_tenant, r)
      else if not io.marked
      then (err not_marked, r)
      else elim (get k r.tasks) [
        | some old ↦
            if old.payload == payload
              && (same_interval old.interval_ms interval_ms && old.requested_run_at == run_at)
            then (ok tt, r)
            else (err different_input, r)
        | none ↦
            if not (
              ltb (length r.tasks) limits.max_records
              && ltb (count_of tenant r.tasks) limits.per_tenant)
            then (err quota_reached, r)
            else elim io.generation [
              | none ↦ (err no_entropy, r)
              | some generation ↦ if not io.written then (err not_written, r) else (
                ok tt,
                record r {
                  due = insert_due (run_at, k) r.due;
                  tasks =
                      insert k (new_task tenant id payload run_at interval_ms generation) r.tasks;
                },
              )
            ]
      ]

  -- TaskQueue::cancel
  unfoldable pub cancel : Io → ℕ → Bytes → Records → Result TaskError (Unit {0}) × Records
  unfolding key
  cancel io tenant id r =
      let k = key tenant id in
      elim (get k r.tasks) [
        | none ↦ (err no_such_task, r)
        | some task ↦ if not io.written then (err not_written, r) else (
          ok tt,
          record r {
            tasks = insert k (record task { status = cancelled }) r.tasks;
            due = retain (λ e. not (e.1 == k)) r.due;
          },
        )
      ]

  -- TaskQueue::forget
  unfoldable pub forget : Io → ℕ → Bytes → Records → Result TaskError (Unit {0}) × Records
  unfolding key terminal
  forget io tenant id r =
      let k = key tenant id in
      if contains k r.active then (err still_active, r) else elim (get k r.tasks) [
        | none ↦ (err no_such_task, r)
        | some task ↦
            if not (terminal task)
            then (err still_active, r)
            else if not io.removed
            then (err not_removed, r)
            else (ok tt, record r { tasks = remove k r.tasks })
      ]

  -- TaskQueue::begin, for the task that `due` handed out
  unfoldable pub begin : Io → Task → Records → Result TaskError Bool × Records
  unfolding key
  begin io task r =
      let k = key task.tenant task.id in
      elim (get k r.tasks) [
        | none ↦ (err no_such_task, r)
        | some current ↦
            if not (is_pending current.status)
            then (ok false, r)
            else if not io.written
            then (err not_written, r)
            else let next : Task = record current {
              status = running;
              attempts = current.attempts + 1;
            } in
              let r' : Records = record r {
                tasks = insert (key current.tenant current.id) next r.tasks;
              } in
              if io.anchored then (ok true, r') else (err not_anchored, r')
      ]

  -- The delay to the next occurrence of a job: its own phase within the interval.
  unfoldable pub delay_of : Bytes → ℕ → ℕ → ℕ
  unfolding offset
  delay_of k interval now =
      let phase = offset k interval in
      let position = now % interval in
      if ltb position phase then phase - position else interval - (position - phase)

  -- The match of `finish` on an outcome that is not a busy tenant's.
  unfoldable pub settle : Bytes → ℕ → Outcome → Task → Result TaskError Task
  unfolding delay_of
  settle k now busy current = err not_running
  settle k now (returned bytes) current =
      let done : Task = record current { result = bytes; error = none } in
      elim current.interval_ms [
        | none ↦ ok (record done { status = completed })
        | some interval ↦
            if ltb (current.occurrence + 1) (2 ^ 64)
            then ok (record done {
              status = pending;
              attempts = 0;
              occurrence = current.occurrence + 1;
              run_at = saturating_add now (delay_of k interval now);
            })
            else err occurrence_overflow
      ]
  settle k now (failed_with text) current = ok (record current {
    error = some (take 512 text);
    status = if leb max_attempts current.attempts then failed else pending;
    run_at = saturating_add now (1000 * 2 ^ min current.attempts 8);
  })

  abbrev pub is_busy : Outcome → Bool
  is_busy busy = true
  is_busy (returned bytes) = false
  is_busy (failed_with text) = false

  -- TaskQueue::finish
  unfoldable pub finish : Io → ℕ → Task → Outcome → Records → Result TaskError (Unit {0}) × Records
  unfolding key settle insert_due
  finish io now task outcome r =
      let k = key task.tenant task.id in
      elim (get k r.tasks) [
        | none ↦ (err no_such_task, r)
        | some current ↦
            let r' : Records = record r { active = deactivate k r.active } in
            if is_cancelled current.status
            then (ok tt, r')
            else if is_busy outcome
            then (ok tt, record r' { due = insert_due (saturating_add now 100, k) r.due })
            else if not (is_running current.status)
            then (err not_running, r')
            else elim (settle k now outcome current) [
              | err e ↦ (err e, r')
              | ok next ↦
                  if not io.written
                  then (err not_written, r')
                  else if not io.anchored
                  then (err not_anchored, r')
                  else (
                    ok tt,
                    record r' {
                      due =
                          if is_pending next.status
                          then insert_due (next.run_at, k) r.due
                          else r.due;
                      tasks = insert k next r.tasks;
                    },
                  )
            ]
      ]

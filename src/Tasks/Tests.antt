-- ===== src/Tasks/Tests.antt =====
-- The task queue at concrete inputs.
use enclave_runtime.Prelude.{
  ℕ, ◌≤◌, ◌≡◌, refl, true, none, some, List, [], ◌∷◌, Bytes, ascii, bytes_eq, nat_eq, arith, All,
  length,
}
use enclave_runtime.Prelude.Map.{get, insert}
use enclave_runtime.Prelude.Result.{ok}
use enclave_runtime.Tasks.Types.{
  TaskLimits, Task, Records, no_records, Io, failed_with, max_attempts, valid_id,
}
use enclave_runtime.Tasks.Queue.{key, enqueue, new_task, count_of}
use enclave_runtime.Tasks.Due.{due}
use enclave_runtime.Tasks.Attempts.{Call, enqueues, takes_due, begins, finishes, run}
use enclave_runtime.Tasks.Made.{made, made_bounded}
use enclave_runtime.Tasks.Turns.{Chosen, due-Chosen, IsOf, task_due, due_alternates}
use enclave_runtime.Tasks.Ordered.{IsOrdered}
use enclave_runtime.Tasks.Quota.{enqueue-quota}

abbrev toy_hex : ℕ → Bytes
toy_hex n = n ∷ []

abbrev toy_sha256 : Bytes → Bytes
toy_sha256 b = b

abbrev small : TaskLimits
small = record { concurrency = 1; max_records = 3; per_tenant = 2; timeout = 1000 }

-- Everything that is asked for is done.
abbrev fine : Io
fine = record {
  tenant_exists = true;
  marked = true;
  generation = some (1 ∷ []);
  written = true;
  removed = true;
  anchored = true;
}

abbrev job : Task
job = new_task 7 (ascii "job") (5 ∷ []) 100 none (1 ∷ [])

-- An attempt that the guest fails, and the next.
abbrev answered : List Call
answered =
    enqueues small fine 7 (ascii "job") (5 ∷ []) 100 none
    ∷ takes_due 200
    ∷ begins fine job
    ∷ finishes fine 300 job (failed_with (ascii "trap"))
    ∷ takes_due 5000
    ∷ begins fine job
    ∷ []

two_begun : made toy_hex toy_sha256 (7 ∷ ascii "-job") answered no_records 0 ≡ 2
unfolding run get insert valid_id
two_begun = refl

made_bounded_example :
    made toy_hex toy_sha256 (7 ∷ ascii "-job") answered no_records 0 ≤ max_attempts
made_bounded_example = made_bounded toy_hex toy_sha256 answered (7 ∷ ascii "-job")

abbrev task_of : ℕ → Bytes → Task
task_of tenant id = new_task tenant id [] 0 none []

-- Two tasks of tenant 1 that are due, and one of tenant 2; tenant 1 was served last.
abbrev queued : Records
queued = record {
  tasks =
      (1 ∷ [], task_of 1 (1 ∷ []))
      ∷ (2 ∷ [], task_of 1 (2 ∷ []))
      ∷ (3 ∷ [], task_of 2 (3 ∷ []))
      ∷ [];
  due = (10, 1 ∷ []) ∷ (20, 2 ∷ []) ∷ (30, 3 ∷ []) ∷ [];
  active = [];
  last_tenant = some 1;
}

queued_due : (due 50 queued).0 ≡ some (task_of 2 (3 ∷ []))
unfolding due get
queued_due = refl

queued-IsOrdered : IsOrdered queued.due
queued-IsOrdered = ((omega arith, (omega arith, tt)), ((omega arith, tt), (tt, tt)))

due-Chosen_example : Chosen 50 queued (task_of 2 (3 ∷ []))
due-Chosen_example = due-Chosen 50 queued (task_of 2 (3 ∷ [])) queued-IsOrdered queued_due

queued_early : (due 25 queued).0 ≡ some (task_of 1 (1 ∷ []))
unfolding due get
queued_early = refl

-- What happens before the next turn.
abbrev meanwhile : List Call
meanwhile = begins fine (task_of 1 (1 ∷ [])) ∷ []

again : (due 27 (run toy_hex toy_sha256 meanwhile (due 25 queued).1)).0 ≡ some (task_of 1 (2 ∷ []))
unfolding due run get insert
again = refl

due_alternates_example :
    (let r' = run toy_hex toy_sha256 meanwhile (due 25 queued).1 in
      All (λ e. IsOf 1 (task_due 27 r'.tasks e)) r'.due)
due_alternates_example =
    due_alternates toy_hex toy_sha256 25 27 queued (task_of 1 (1 ∷ [])) (task_of 1 (2 ∷ []))
      meanwhile queued-IsOrdered queued_early tt again refl

queued_fresh : get (key toy_hex toy_sha256 2 (ascii "new")) no_records.tasks ≡ none
unfolding get
queued_fresh = refl

queued_done :
    (enqueue toy_hex toy_sha256 small fine 2 (ascii "new") [] 60 none no_records).0 ≡ ok tt
unfolding enqueue valid_id get
queued_done = refl

enqueue-quota_example :
    let r' = (enqueue toy_hex toy_sha256 small fine 2 (ascii "new") [] 60 none no_records).1 in
    (length r'.tasks ≤ 3) × (count_of 2 r'.tasks ≤ 2)
enqueue-quota_example =
    enqueue-quota toy_hex toy_sha256 small fine 2 (ascii "new") [] 60 none no_records queued_fresh
      queued_done

-- ===== src/Tasks/Ordered.antt =====
-- `TaskQueue` of runtime/src/tasks.rs: the due set stays in its order.
use enclave_runtime.Prelude.{
  ℕ, ◌≤◌, ◌≡◌, ◌∙◌, refl, Bool, not, Option, List, [], ◌∷◌, Bytes, All, retain, arith, inl, inr,
  Bool-cases, Option-cases, nat_eq, bytes_eq, ◌==◌, All-retain,
}
use enclave_runtime.Prelude.Map.{get}
use enclave_runtime.Prelude.Result.{Result-cases}
use enclave_runtime.Tasks.Types.{Task, Records, TaskLimits, Io, Outcome, saturating_add}
use enclave_runtime.Tasks.Queue.{
  insert_due, entry_eq, entry_ltb, enqueue, cancel, forget, begin, finish, settle, key,
}
use enclave_runtime.Tasks.Due.{due, next_turn, ready}
use enclave_runtime.Tasks.Attempts.{
  Call, enqueues, cancels, forgets, takes_due, begins, finishes, step, run,
}

-- Each entry stands before those with the same deadline or a later one.
abbrev pub IsOrdered : List (ℕ × Bytes) → Type 0
IsOrdered [] = Unit {0}
IsOrdered (e ∷ due) = All (λ f. e.0 ≤ f.0) due × IsOrdered due

from_earlier :
    (a b : ℕ) (due : List (ℕ × Bytes)) → a ≤ b → All (λ f. b ≤ f.0) due → All (λ f. a ≤ f.0) due
from_earlier a b [] le h = tt
from_earlier a b (f ∷ due) le h = (omega (arith, le, h.0), from_earlier a b due le h.1)

insert_due-All :
    (a : ℕ) (e : ℕ × Bytes) (due : List (ℕ × Bytes))
    → a ≤ e.0
    → All (λ f. a ≤ f.0) due
    → All (λ f. a ≤ f.0) (insert_due e due)
unfolding insert_due
insert_due-All a e [] le h = (le, tt)
insert_due-All a e (f ∷ due) le h = elim (Bool-cases (entry_eq e f)) [
  | inl t ↦ rw (t, insert_due) h
  | inr n ↦ elim (Bool-cases (entry_ltb e f)) [
    | inl t ↦ rw (n, insert_due, t) (le, h)
    | inr m ↦ rw (n, insert_due, m) (h.0, insert_due-All a e due le h.1)
  ]
]

insert_due-IsOrdered :
    (e : ℕ × Bytes) (due : List (ℕ × Bytes)) → IsOrdered due → IsOrdered (insert_due e due)
unfolding insert_due
insert_due-IsOrdered e [] o = (tt, tt)
insert_due-IsOrdered e (f ∷ due) o = elim (Bool-cases (entry_eq e f)) [
  | inl t ↦ rw (t, insert_due) o
  | inr n ↦ elim (Bool-cases (entry_ltb e f)) [
    | inl t ↦
        let le : e.0 ≤ f.0 = ground (arith, t) in
        rw (n, insert_due, t) ((le, from_earlier e.0 f.0 due le o.0), o)
    | inr m ↦
        let le : f.0 ≤ e.0 = ground (arith, m) in
        rw (n, insert_due, m) (insert_due-All f.0 e due le o.0, insert_due-IsOrdered e due o.1)
  ]
]

retain-IsOrdered :
    (keep : ℕ × Bytes → Bool) (due : List (ℕ × Bytes)) → IsOrdered due → IsOrdered (retain keep due)
retain-IsOrdered keep [] o = tt
retain-IsOrdered keep (e ∷ due) o = elim (Bool-cases (keep e)) [
  | inl t ↦ rw (t, retain) (All-retain (λ f. e.0 ≤ f.0) keep due o.0, retain-IsOrdered keep due o.1)
  | inr f ↦ rw (f, retain) (retain-IsOrdered keep due o.1)
]

module _ (hex : ℕ → Bytes) (sha256 : Bytes → Bytes) where
  enqueue-IsOrdered :
      (limits : TaskLimits) (io : Io) (tenant : ℕ) (id payload : Bytes) (run_at : ℕ)
      (interval_ms : Option ℕ) (r : Records)
      → IsOrdered r.due
      → IsOrdered (enqueue hex sha256 limits io tenant id payload run_at interval_ms r).1.due
  unfolding enqueue
  enqueue-IsOrdered limits io tenant id payload run_at interval_ms r o =
      ground (arith, insert_due-IsOrdered (run_at, key hex sha256 tenant id) r.due o)

  cancel-IsOrdered :
      (io : Io) (tenant : ℕ) (id : Bytes) (r : Records)
      → IsOrdered r.due
      → IsOrdered (cancel hex sha256 io tenant id r).1.due
  unfolding cancel
  cancel-IsOrdered io tenant id r o =
      ground (arith, retain-IsOrdered (λ e. not (e.1 == key hex sha256 tenant id)) r.due o)

  forget-IsOrdered :
      (io : Io) (tenant : ℕ) (id : Bytes) (r : Records)
      → IsOrdered r.due
      → IsOrdered (forget hex sha256 io tenant id r).1.due
  unfolding forget
  forget-IsOrdered io tenant id r o = ground arith

  pub due-IsOrdered : (now : ℕ) (r : Records) → IsOrdered r.due → IsOrdered (due now r).1.due
  unfolding due
  due-IsOrdered now r o = elim (Option-cases (next_turn r.last_tenant (ready now r.tasks r.due))) [
    | inl n ↦ rw (n, due) o
    | inr (c, n) ↦ rw (n, due) (retain-IsOrdered (λ f. not (entry_eq f (c.at, c.key))) r.due o)
  ]

  begin-IsOrdered :
      (io : Io) (task : Task) (r : Records)
      → IsOrdered r.due
      → IsOrdered (begin hex sha256 io task r).1.due
  unfolding begin
  begin-IsOrdered io task r o = ground arith

  finish-IsOrdered :
      (io : Io) (now : ℕ) (task : Task) (outcome : Outcome) (r : Records)
      → IsOrdered r.due
      → IsOrdered (finish hex sha256 io now task outcome r).1.due
  unfolding finish
  finish-IsOrdered io now task outcome r o =
      let k = key hex sha256 task.tenant task.id in
      elim (Option-cases (get k r.tasks)) [
        | inl h ↦ rw (h, finish) o
        | inr (t, h) ↦ elim (Result-cases (settle hex sha256 k now outcome t)) [
          | inr (e, s) ↦
              ground (arith, h, s, insert_due-IsOrdered (saturating_add now 100, k) r.due o)
          | inl (u, s) ↦ ground (
            arith,
            h,
            s,
            insert_due-IsOrdered (saturating_add now 100, k) r.due o,
            insert_due-IsOrdered (u.run_at, k) r.due o,
          )
        ]
      ]

  step-IsOrdered : (c : Call) (r : Records) → IsOrdered r.due → IsOrdered (step hex sha256 c r).due
  unfolding step
  step-IsOrdered (enqueues limits io tenant id payload run_at interval_ms) r o =
      enqueue-IsOrdered limits io tenant id payload run_at interval_ms r o
  step-IsOrdered (cancels io tenant id) r o = cancel-IsOrdered io tenant id r o
  step-IsOrdered (forgets io tenant id) r o = forget-IsOrdered io tenant id r o
  step-IsOrdered (takes_due now) r o = due-IsOrdered now r o
  step-IsOrdered (begins io task) r o = begin-IsOrdered io task r o
  step-IsOrdered (finishes io now task outcome) r o = finish-IsOrdered io now task outcome r o

  pub run-IsOrdered :
      (cs : List Call) (r : Records) → IsOrdered r.due → IsOrdered (run hex sha256 cs r).due
  unfolding run
  run-IsOrdered [] r o = o
  run-IsOrdered (c ∷ cs) r o = run-IsOrdered cs (step hex sha256 c r) (step-IsOrdered c r o)

  -- Calls among which no task is handed out.
  abbrev pub NoTurn : List Call → Type 0
  NoTurn [] = Unit {0}
  NoTurn (takes_due now ∷ cs) = ⊥
  NoTurn (c ∷ cs) = NoTurn cs

  -- Only handing out a task changes which tenant was served last.
  pub run_last_tenant :
      (cs : List Call) (r : Records) → NoTurn cs → (run hex sha256 cs r).last_tenant ≡ r.last_tenant
  unfolding run step enqueue cancel forget begin
  run_last_tenant [] r h = refl
  run_last_tenant (enqueues limits io tenant id payload run_at interval_ms ∷ cs) r h =
      run_last_tenant cs _ h ∙ ground arith
  run_last_tenant (cancels io tenant id ∷ cs) r h = run_last_tenant cs _ h ∙ ground arith
  run_last_tenant (forgets io tenant id ∷ cs) r h = run_last_tenant cs _ h ∙ ground arith
  run_last_tenant (takes_due now ∷ cs) r h = absurd h
  run_last_tenant (begins io task ∷ cs) r h = run_last_tenant cs _ h ∙ ground arith
  run_last_tenant (finishes io now task outcome ∷ cs) r h =
      run_last_tenant cs _ h ∙ finish_last_tenant io now task outcome r
    where
      finish_last_tenant :
          (io : Io) (now : ℕ) (task : Task) (outcome : Outcome) (r : Records)
          → (finish hex sha256 io now task outcome r).1.last_tenant ≡ r.last_tenant
      finish_last_tenant io now task outcome r = unfold finish in ground arith

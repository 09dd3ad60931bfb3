-- ===== src/Tasks/Turns.antt =====
-- `TaskQueue` of runtime/src/tasks.rs.
-- Which of the tasks that are due is taken: ready tenants take turns.
use mathlib.Core.Path.{subst}
use mathlib.Core.Option.{some-injective}
use enclave_runtime.Prelude.{
  ℕ, ◌≤◌, ◌<◌, ◌≡◌, ◌⊎◌, refl, sym, ap, ◌∙◌, true, false, Option, none, some, List, [], ◌∷◌, Bytes,
  All, nat_eq, bytes_eq, arith, Option-cases, Bool-cases, inl, inr, leb,
}
use enclave_runtime.Prelude.Map.{Map, get}
use enclave_runtime.Tasks.Types.{Task, Records}
use enclave_runtime.Tasks.Attempts.{Call, run}
use enclave_runtime.Tasks.Ordered.{IsOrdered, due-IsOrdered, run-IsOrdered, NoTurn, run_last_tenant}
use enclave_runtime.Tasks.Due.{Candidate, comes_before, ready, earlier, next_turn, due}

before_asymmetric :
    (last : Option ℕ) (c d : Candidate)
    → comes_before last d c ≡ true
    → comes_before last c d ≡ false
before_asymmetric last c d h = ground arith

before_negative :
    (last : Option ℕ) (c d e : Candidate)
    → comes_before last d c ≡ false
    → comes_before last e d ≡ false
    → comes_before last e c ≡ false
before_negative last c d e h h' = ground arith

before_itself : (last : Option ℕ) (c : Candidate) → comes_before last c c ≡ false
before_itself last c = ground arith

-- No candidate of the list has its turn before `c`.
abbrev pub IsFirst : Option ℕ → Candidate → List Candidate → Type 0
IsFirst last c cs = All (λ e. comes_before last e c ≡ false) cs

IsFirst-earlier :
    (last : Option ℕ) (c d : Candidate) (cs : List Candidate)
    → comes_before last d c ≡ false
    → IsFirst last d cs
    → IsFirst last c cs
IsFirst-earlier last c d [] h f = tt
IsFirst-earlier last c d (e ∷ cs) h f =
    (before_negative last c d e h f.0, IsFirst-earlier last c d cs h f.1)

next_turn-none : (last : Option ℕ) (cs : List Candidate) → next_turn last cs ≡ none → cs ≡ []
unfolding next_turn
next_turn-none last [] h = refl
next_turn-none last (c ∷ cs) h = elim (Option-cases (next_turn last cs)) [
  | inl n ↦ absurd (ground (arith, n))
  | inr (d, n) ↦ absurd (ground (arith, n))
]

next_turn-IsFirst :
    (last : Option ℕ) (cs : List Candidate) (c : Candidate)
    → next_turn last cs ≡ some c
    → IsFirst last c cs
unfolding next_turn
next_turn-IsFirst last [] c h = tt
next_turn-IsFirst last (b ∷ cs) c h = elim (Option-cases (next_turn last cs)) [
  | inl n ↦
      subst (λ x. IsFirst last x (b ∷ cs))
        (some-injective b c (subst (λ o. earlier last b o ≡ some c) n h))
        (before_itself last b, subst (IsFirst last b) (sym (next_turn-none last cs n)) tt)
  | inr (d, n) ↦
      let chosen : earlier last b (some d) ≡ some c = subst (λ o. earlier last b o ≡ some c) n h in
      let first = next_turn-IsFirst last cs d n in
      elim (Bool-cases (comes_before last d b)) [
        | inl q ↦
            subst (λ x. IsFirst last x (b ∷ cs)) (some-injective d c (sym (rw q) ∙ chosen))
              (before_asymmetric last b d q, first)
        | inr q ↦
            subst (λ x. IsFirst last x (b ∷ cs)) (some-injective b c (sym (rw q) ∙ chosen))
              (before_itself last b, IsFirst-earlier last b d cs q first)
      ]
]

-- An entry of the due set.
abbrev pub Among : {A : Type 0} → A → List A → Type 0
Among x [] = ⊥
Among x (y ∷ ys) = (x ≡ y) ⊎ Among x ys

Among-more :
    {A : Type 0} (y : A) (ys xs : List A)
    → All (λ x. Among x ys) xs
    → All (λ x. Among x (y ∷ ys)) xs
Among-more y ys [] h = tt
Among-more y ys (x ∷ xs) h = (inr h.0, Among-more y ys xs h.1)

Among-itself : {A : Type 0} (xs : List A) → All (λ x. Among x xs) xs
Among-itself [] = tt
Among-itself (x ∷ xs) = (inl refl, Among-more x xs xs (Among-itself xs))

-- A candidate is an entry of the due set whose time has come, with the task under its key and its
-- tenant.
pub record IsDue (now : ℕ) (tasks : Map Bytes Task) (due : List (ℕ × Bytes)) (c : Candidate)
    : Type 0 where
  pub task : Task
  pub queued : Among (c.at, c.key) due
  pub held : get c.key tasks ≡ some task
  pub tenant : c.tenant ≡ task.tenant
  pub in_time : c.at ≤ now

ready-IsDue :
    (now : ℕ) (tasks : Map Bytes Task) (whole entries : List (ℕ × Bytes))
    → All (λ e. Among e whole) entries
    → All (IsDue now tasks whole) (ready now tasks entries)
unfolding ready
ready-IsDue now tasks whole [] a = tt
ready-IsDue now tasks whole (e ∷ entries) a = elim (Bool-cases (leb e.0 now)) [
  | inr q ↦ rw (q, ready) tt
  | inl q ↦ elim (Option-cases (get e.1 tasks)) [
    | inl n ↦ rw (q, n, ready) (ready-IsDue now tasks whole entries a.1)
    | inr (t, n) ↦
        rw (q, n, ready)
          ((
            record { task = t; queued = a.0; held = n; tenant = refl; in_time = ground arith },
            ready-IsDue now tasks whole entries a.1,
          ))
  ]
]

next_turn-All :
    (P : Candidate → Type 0) (last : Option ℕ) (cs : List Candidate) (c : Candidate)
    → All P cs
    → next_turn last cs ≡ some c
    → P c
unfolding next_turn
next_turn-All P last [] c a h = absurd (ground arith)
next_turn-All P last (b ∷ cs) c a h = elim (Option-cases (next_turn last cs)) [
  | inl n ↦ subst P (some-injective b c (subst (λ o. earlier last b o ≡ some c) n h)) a.0
  | inr (d, n) ↦
      let chosen : earlier last b (some d) ≡ some c = subst (λ o. earlier last b o ≡ some c) n h in
      elim (Bool-cases (comes_before last d b)) [
        | inl q ↦ next_turn-All P last cs c a.1 (n ∙ sym (rw q) ∙ chosen)
        | inr q ↦ subst P (some-injective b c (sym (rw q) ∙ chosen)) a.0
      ]
]

-- The task of an entry whose time has come.
abbrev pub task_due : ℕ → Map Bytes Task → ℕ × Bytes → Option Task
task_due now tasks e = elim (leb e.0 now) [ true ↦ get e.1 tasks | false ↦ none ]

-- An entry whose time has come has not its turn before `c`.
abbrev pub NotBefore : Option ℕ → Candidate → ℕ × Bytes → Option Task → Type 0
NotBefore last c e none = Unit {0}
NotBefore last c e (some t) =
    comes_before last (record { at = e.0; key = e.1; tenant = t.tenant }) c ≡ false

abbrev pub IsNext : ℕ → Records → Candidate → Type 0
IsNext now r c = All (λ e. NotBefore r.last_tenant c e (task_due now r.tasks e)) r.due

none_due :
    (last : Option ℕ) (c : Candidate) (now at : ℕ) (tasks : Map Bytes Task)
    (entries : List (ℕ × Bytes))
    → now < at
    → All (λ f. at ≤ f.0) entries
    → All (λ e. NotBefore last c e (task_due now tasks e)) entries
none_due last c now at tasks [] late a = tt
none_due last c now at tasks (e ∷ entries) late a =
    let early : leb e.0 now ≡ false = ground (arith, late, a.0) in
    (rw (early, NotBefore) tt, none_due last c now at tasks entries late a.1)

ready-NotBefore :
    (last : Option ℕ) (c : Candidate) (now : ℕ) (tasks : Map Bytes Task)
    (entries : List (ℕ × Bytes))
    → IsOrdered entries
    → IsFirst last c (ready now tasks entries)
    → All (λ e. NotBefore last c e (task_due now tasks e)) entries
unfolding ready
ready-NotBefore last c now tasks [] o f = tt
ready-NotBefore last c now tasks (e ∷ entries) o f = elim (Bool-cases (leb e.0 now)) [
  | inr q ↦
      let late : now < e.0 = ground (arith, q) in
      (rw (q, NotBefore) tt, none_due last c now e.0 tasks entries late o.0)
  | inl q ↦ elim (Option-cases (get e.1 tasks)) [
    | inl n ↦
        let f' : IsFirst last c (ready now tasks entries) = (rw (q, n, ready) at f) in
        (rw (q, n, NotBefore) tt, ready-NotBefore last c now tasks entries o.1 f')
    | inr (t, n) ↦
        let f' = (rw (q, n, ready) at f) in
        (rw (q, n, NotBefore) f'.0, ready-NotBefore last c now tasks entries o.1 f'.1)
  ]
]

-- The entry behind a task that `due` hands out.
pub record Chosen (now : ℕ) (r : Records) (t : Task) : Type 0 where
  pub entry : Candidate
  pub queued : Among (entry.at, entry.key) r.due
  pub held : get entry.key r.tasks ≡ some t
  pub tenant : entry.tenant ≡ t.tenant
  pub in_time : entry.at ≤ now
  pub first : IsNext now r entry
  pub served : (due now r).1.last_tenant ≡ some t.tenant

-- A task that is handed out, where the due set is in its order, stands in the store under the key of an
-- entry of the due set whose time has come, and no entry whose time has come has its turn before that
-- one: turns go by tenant, those past the last tenant served first, and within a tenant by deadline. Its
-- tenant is now the last one served.
pub due-Chosen :
    (now : ℕ) (r : Records) (t : Task) → IsOrdered r.due → (due now r).0 ≡ some t → Chosen now r t
unfolding due
due-Chosen now r t o h = elim (Option-cases (next_turn r.last_tenant (ready now r.tasks r.due))) [
  | inl n ↦ let h' = (rw (n, due) at h) in cc
  | inr (c, n) ↦
      let held : get c.key r.tasks ≡ some t = (rw (n, due) at h) in
      let d =
        next_turn-All (IsDue now r.tasks r.due) r.last_tenant _ c
          (ready-IsDue now r.tasks r.due r.due (Among-itself r.due)) n in
      let tenant : c.tenant ≡ t.tenant =
        d.tenant ∙ ap (λ (u : Task). u.tenant) (some-injective d.task t (sym d.held ∙ held)) in
      record {
        entry = c;
        queued = d.queued;
        held = held;
        tenant = tenant;
        in_time = d.in_time;
        first =
            ready-NotBefore r.last_tenant c now r.tasks r.due o
              (next_turn-IsFirst r.last_tenant _ c n);
        served = rw (n, due) (ap some tenant);
      }
]

-- The task of an entry whose time has come, if any, is this tenant's.
abbrev pub IsOf : ℕ → Option Task → Type 0
IsOf tenant none = Unit {0}
IsOf tenant (some t) = t.tenant ≡ tenant

only_tenant :
    (last now : ℕ) (c : Candidate) (tasks : Map Bytes Task) (entries : List (ℕ × Bytes))
    → c.tenant ≡ last
    → All (λ e. NotBefore (some last) c e (task_due now tasks e)) entries
    → All (λ e. IsOf last (task_due now tasks e)) entries
only_tenant last now c tasks [] q f = tt
only_tenant last now c tasks (e ∷ entries) q f =
    (of_one (task_due now tasks e) f.0, only_tenant last now c tasks entries q f.1)
  where
    of_one : (o : Option Task) → NotBefore (some last) c e o → IsOf last o
    of_one none b = tt
    of_one (some t) b = ground (arith, b, q)

module _ (hex : ℕ → Bytes) (sha256 : Bytes → Bytes) where
  -- Where the due set is in its order: when `due` hands out a task of a tenant, and then, after any calls
  -- but those of `due`, a task of the same tenant again, no other tenant has a task whose time has come.
  pub due_alternates :
      (now now' : ℕ) (r : Records) (t t' : Task) (cs : List Call)
      → IsOrdered r.due
      → (due now r).0 ≡ some t
      → NoTurn hex sha256 cs
      → (due now' (run hex sha256 cs (due now r).1)).0 ≡ some t'
      → t'.tenant ≡ t.tenant
      → (let r' = run hex sha256 cs (due now r).1 in
          All (λ e. IsOf t.tenant (task_due now' r'.tasks e)) r'.due)
  due_alternates now now' r t t' cs o h quiet h' same =
      let r' = run hex sha256 cs (due now r).1 in
      let ordered = run-IsOrdered hex sha256 cs (due now r).1 (due-IsOrdered hex sha256 now r o) in
      let c = due-Chosen now' r' t' ordered h' in
      let last : r'.last_tenant ≡ some t.tenant =
        run_last_tenant hex sha256 cs (due now r).1 quiet ∙ (due-Chosen now r t o h).served in
      only_tenant t.tenant now' c.entry r'.tasks r'.due (c.tenant ∙ same) (
        subst (λ l. All (λ e. NotBefore l c.entry e (task_due now' r'.tasks e)) r'.due) last
          c.first)

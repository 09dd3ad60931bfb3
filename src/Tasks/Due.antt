-- ===== src/Tasks/Due.antt =====
-- `TaskQueue::due` of runtime/src/tasks.rs: the task whose turn it is.
use enclave_runtime.Prelude.{
  ℕ, Bool, ◌&&◌, ◌||◌, Option, none, some, List, [], ◌∷◌, Bytes, leb, ltb, if◌then◌else◌, nat_eq,
  bytes_eq, ◌==◌,
}
use enclave_runtime.Prelude.Map.{Map, get}
use enclave_runtime.Tasks.Types.{Task, Records}
use enclave_runtime.Tasks.Queue.{remove_due, deactivate}

-- The key of `min_by_key` in `due`: the tenants past the last one served first, then by tenant and
-- deadline.
abbrev pub past : Option ℕ → ℕ → ℕ
past none tenant = 0
past (some last) tenant = if leb tenant last then 1 else 0

pub record Candidate : Type 0 where
  pub at : ℕ
  pub key : Bytes
  pub tenant : ℕ

abbrev pub comes_before : Option ℕ → Candidate → Candidate → Bool
comes_before last c d =
    let p = past last c.tenant in
    let q = past last d.tenant in
    ltb p q || (p == q && (ltb c.tenant d.tenant || (c.tenant == d.tenant && ltb c.at d.at)))

abbrev pub candidate : ℕ × Bytes → Option Task → List Candidate → List Candidate
candidate e none rest = rest
candidate e (some t) rest = record { at = e.0; key = e.1; tenant = t.tenant } ∷ rest

-- `take_while` over the ordered set, and `filter_map` to the tenant.
unfoldable pub ready : ℕ → Map Bytes Task → List (ℕ × Bytes) → List Candidate
ready now tasks [] = []
ready now tasks (e ∷ due) =
    let rest = ready now tasks due in if leb e.0 now then candidate e (get e.1 tasks) rest else []

-- `min_by_key`, which returns the first of the least.
abbrev pub earlier : Option ℕ → Candidate → Option Candidate → Option Candidate
earlier last c none = some c
earlier last c (some d) = if comes_before last d c then some d else some c

unfoldable pub next_turn : Option ℕ → List Candidate → Option Candidate
next_turn last [] = none
next_turn last (c ∷ cs) = earlier last c (next_turn last cs)

-- TaskQueue::due
unfoldable pub due : ℕ → Records → Option Task × Records
unfolding ready next_turn
due now r = elim (next_turn r.last_tenant (ready now r.tasks r.due)) [
  | none ↦ (none, r)
  | some c ↦ (
    get c.key r.tasks,
    record r {
      due = remove_due (c.at, c.key) r.due;
      last_tenant = some c.tenant;
      active = c.key ∷ deactivate c.key r.active;
    },
  )
]

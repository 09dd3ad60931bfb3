-- ===== src/Serve/Tests.antt =====
-- The pool and the watch at concrete inputs.
use enclave_runtime.Prelude.{
  ℕ, ◌≤◌, ◌<◌, ◌≡◌, refl, true, none, some, List, [], ◌∷◌, Bytes, arith, bytes_eq, ◌⊎◌, length, max,
  nat_eq,
}
use enclave_runtime.Prelude.Map.{Map, get, insert, retain, Unique}
use enclave_runtime.Serve.Pool.{
  Slot, Checkout, PoolLimits, TenantPool, new, victim, evict_while_full, checkout,
}
use enclave_runtime.Serve.Pool.Tracked.{at}
use enclave_runtime.Serve.Pool.Evict.{checkout-HasRoom}
use enclave_runtime.Serve.Pool.Shared.{Event, checks_out, drops, run, run-one_slot}
use enclave_runtime.Serve.Progress.{
  StreamProgress, Watched, survives, tolerates, survives-tolerates,
}

abbrev slot_at : ℕ → ℕ → ℕ → Slot
slot_at id last_used in_flight = record { id = id; last_used = last_used; in_flight = in_flight }

-- Two idle slots and a busy one.
abbrev slots : Map Bytes Slot
slots = (1 ∷ [], slot_at 0 500 0) ∷ (2 ∷ [], slot_at 1 400 0) ∷ (3 ∷ [], slot_at 2 100 1) ∷ []

abbrev limits : PoolLimits
limits = record { max_tenants = 3; idle_timeout = 1000 }

abbrev pool : TenantPool
pool = record { slots = slots; next_id = 3; limits = limits }

slots-Unique : Unique slots
unfolding get
slots-Unique = (refl, (refl, (refl, tt)))

slots-victim : victim slots ≡ some (2 ∷ [], slot_at 1 400 0)
unfolding victim
slots-victim = refl

slots-absent : get (9 ∷ []) slots ≡ none
unfolding get
slots-absent = refl

checkout-HasRoom_example :
    (length (checkout (9 ∷ []) 600 pool).1.slots ≤ max 3 1)
    ⊎ ((k : Bytes) (s : Slot)
        → get k (evict_while_full limits 600 slots) ≡ some s
        → 0 < s.in_flight)
checkout-HasRoom_example = checkout-HasRoom (9 ∷ []) 600 pool slots-Unique slots-absent

-- A tenant checks its slot out, others come and go, and it does so again.
abbrev events : List Event
events =
    checks_out (1 ∷ []) 10
    ∷ checks_out (2 ∷ []) 20
    ∷ drops 0
    ∷ checks_out (3 ∷ []) 9000
    ∷ checks_out (1 ∷ []) 9001
    ∷ []

abbrev small : PoolLimits
small = record { max_tenants = 1; idle_timeout = 100 }

events_held :
    (run events ([], new small)).0
    ≡ record { tenant = 1 ∷ []; slot = 0 }
      ∷ record { tenant = 3 ∷ []; slot = 2 }
      ∷ record { tenant = 1 ∷ []; slot = 0 }
      ∷ []
unfolding run new checkout get insert retain
events_held = refl

abbrev held : List Checkout
held = (run events ([], new small)).0

abbrev later : Checkout
later = record { tenant = 1 ∷ []; slot = 0 }

events_first : at 2 held ≡ some later
unfolding run new checkout get insert retain
events_first = refl

events_last : at 0 held ≡ some later
unfolding run new checkout get insert retain
events_last = refl

run-one_slot_example : later.slot ≡ later.slot
run-one_slot_example = run-one_slot small events 2 0 later later events_first events_last refl

abbrev watched : StreamProgress
watched = record { bytes = 7; last_seen = 7; head_sent = true; strikes = 1 }

watched-Watched : Watched watched
watched-Watched = record { seen = refl; sent = refl; bounded = omega arith }

survives-tolerates_example :
    survives 3 (0 ∷ 512 ∷ 0 ∷ 0 ∷ 0 ∷ []) watched ≡ tolerates 3 1 (0 ∷ 512 ∷ 0 ∷ 0 ∷ 0 ∷ [])
survives-tolerates_example =
    survives-tolerates 3 (0 ∷ 512 ∷ 0 ∷ 0 ∷ 0 ∷ []) watched watched-Watched
      (omega arith, (omega arith, (omega arith, (omega arith, (omega arith, tt))))) (omega arith)

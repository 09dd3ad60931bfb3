-- ===== src/Serve/Pool.antt =====
-- runtime/src/serve/pool.rs: the slot of each tenant, and which slots are evicted.
--
-- The mutex makes `checkout` one step; dropping a `Checkout` is another, on the slot's own counter. An
-- `Arc<Slot>` is the number that the slot was made under, so that two slots of one tenant are told
-- apart. `HashMap` yields its entries in an order of its own: the order of the list stands for it.
-- Times are in milliseconds, below 2^64. The lock inside a slot is tokio's.
pub mod Victim
pub mod Evict
pub mod Tracked
pub mod Shared
use enclave_runtime.Prelude.{
  ℕ, zero, suc, ◌+◌, ◌-◌, Bool, true, false, not, ◌&&◌, ◌||◌, Option, none, some, List, [], ◌∷◌,
  Bytes, ltb, leb, length, max, if◌then◌else◌, nat_eq, bytes_eq, ◌==◌,
}
use enclave_runtime.Prelude.Map.{Map, get, insert, remove, retain}

pub record PoolLimits : Type 0 where
  pub max_tenants : ℕ
  pub idle_timeout : ℕ

-- PoolLimits::default
abbrev pub default_limits : PoolLimits
default_limits = record { max_tenants = 64; idle_timeout = 900000 }

pub record Slot : Type 0 where
  pub id : ℕ
  pub last_used : ℕ
  pub in_flight : ℕ

pub record Checkout : Type 0 where
  pub tenant : Bytes
  pub slot : ℕ

pub record TenantPool : Type 0 where
  pub slots : Map Bytes Slot
  pub next_id : ℕ
  pub limits : PoolLimits

unfoldable pub new : PoolLimits → TenantPool
new limits = record { slots = []; next_id = 0; limits = limits }

abbrev pub is_idle : Slot → Bool
is_idle s = s.in_flight == 0

-- The slots that the first sweep keeps: the busy ones and those used of late.
abbrev pub is_fresh : ℕ → ℕ → Slot → Bool
is_fresh idle_ms now s = ltb 0 s.in_flight || ltb (now - s.last_used) idle_ms

abbrev pub older : Bytes × Slot → Option (Bytes × Slot) → Option (Bytes × Slot)
older e none = some e
older e (some e') = if leb e.1.last_used e'.1.last_used then some e else some e'

-- `filter`, then `min_by_key`, which returns the first of the least.
unfoldable pub victim : Map Bytes Slot → Option (Bytes × Slot)
victim [] = none
victim ((k, s) ∷ slots) = let v = victim slots in if is_idle s then older (k, s) v else v

-- The `while` of `evict_while_full`, which each round leaves with one slot less.
unfoldable pub evict_loop : ℕ → ℕ → Map Bytes Slot → Map Bytes Slot
unfolding victim
evict_loop zero cap slots = slots
evict_loop (suc fuel) cap slots =
    if ltb (length slots) cap
    then slots
    else elim (victim slots) [ none ↦ slots | some (k, s) ↦ evict_loop fuel cap (remove k slots) ]

-- TenantPool::evict_while_full
unfoldable pub evict_while_full : PoolLimits → ℕ → Map Bytes Slot → Map Bytes Slot
unfolding evict_loop
evict_while_full limits now slots =
    let kept = retain (λ _ s. is_fresh limits.idle_timeout now s) slots in
    evict_loop (length kept) (max limits.max_tenants 1) kept

-- TenantPool::checkout
unfoldable pub checkout : Bytes → ℕ → TenantPool → Checkout × TenantPool
unfolding evict_while_full
checkout tenant now p = elim (get tenant p.slots) [
  | some s ↦ (
    record { tenant = tenant; slot = s.id },
    record p {
      slots = insert tenant (record s { last_used = now; in_flight = s.in_flight + 1 }) p.slots;
    },
  )
  | none ↦ (
    record { tenant = tenant; slot = p.next_id },
    record p {
      slots =
          insert tenant (record { id = p.next_id; last_used = now; in_flight = 1 })
            (evict_while_full p.limits now p.slots);
      next_id = p.next_id + 1;
    },
  )
]

-- The drop of a `Checkout`. A slot that the pool no longer has is not seen by it again.
abbrev pub released : Checkout → Option Slot → Map Bytes Slot → Map Bytes Slot
released c none slots = slots
released c (some s) slots =
    if s.id == c.slot
    then insert c.tenant (record s { in_flight = s.in_flight - 1 }) slots
    else slots

unfoldable pub drop_checkout : Checkout → TenantPool → TenantPool
drop_checkout c p = record p { slots = released c (get c.tenant p.slots) p.slots }

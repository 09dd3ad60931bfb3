-- ===== src/Serve/Pool/Victim.antt =====
-- `TenantPool` of runtime/src/serve/pool.rs.
-- Which slot is evicted for room.
use enclave_runtime.Prelude.{
  ◌≤◌, ◌<◌, ◌≡◌, ap, none, some, [], ◌∷◌, Bytes, length, nat_eq, bytes_eq, arith, inl, inr,
  Option-cases, bytes_beq_iff,
}
use enclave_runtime.Prelude.Map.{Map, beq_self, get, remove, Unique, length-remove-le}
use enclave_runtime.Serve.Pool.{Slot, victim}

-- The slot chosen is in the pool, nobody has it checked out, and no idle slot was used before it.
pub record IsOldest (slots : Map Bytes Slot) (k : Bytes) (s : Slot) : Type 0 where
  pub held : get k slots ≡ some s
  pub idle : s.in_flight ≡ 0
  pub oldest :
      (k' : Bytes) (s' : Slot)
      → get k' slots ≡ some s'
      → s'.in_flight ≡ 0
      → s.last_used ≤ s'.last_used

pub victim-none-get :
    (slots : Map Bytes Slot) (k : Bytes) (s : Slot)
    → victim slots ≡ none
    → get k slots ≡ some s
    → 0 < s.in_flight
unfolding victim get
victim-none-get [] k s h g = absurd (ground arith)
victim-none-get (e ∷ slots) k s h g = elim (Option-cases (victim slots)) [
  | inl v ↦ ground (arith, victim-none-get slots k s v)
  | inr (e', v) ↦ ground (arith, v)
]

pub victim_idle :
    (slots : Map Bytes Slot) (k : Bytes) (s : Slot) → victim slots ≡ some (k, s) → s.in_flight ≡ 0
unfolding victim
victim_idle [] k s h = absurd (ground arith)
victim_idle ((k', s') ∷ slots) k s h = elim (Option-cases (victim slots)) [
  | inl v ↦ ground arith
  | inr ((k₂, s₂), v) ↦ ground (arith, victim_idle slots k₂ s₂ v)
]

pub length-remove_held :
    (k : Bytes) (slots : Map Bytes Slot) (s : Slot)
    → get k slots ≡ some s
    → length (remove k slots) < length slots
unfolding get remove
length-remove_held k [] s h = absurd (ground arith)
length-remove_held k ((k', s') ∷ slots) s h =
    ground (arith, length-remove-le k slots, length-remove_held k slots s)

victim_oldest :
    (slots : Map Bytes Slot) (k k' : Bytes) (s s' : Slot)
    → victim slots ≡ some (k, s)
    → get k' slots ≡ some s'
    → s'.in_flight ≡ 0
    → s.last_used ≤ s'.last_used
unfolding victim get
victim_oldest [] k k' s s' h g i = absurd (ground arith)
victim_oldest ((k₁, s₁) ∷ slots) k k' s s' h g i = elim (Option-cases (victim slots)) [
  | inl v ↦ ground (arith, victim-none-get slots k' s' v)
  | inr ((k₂, s₂), v) ↦ ground (arith, victim_oldest slots k₂ k' s₂ s' v)
]

pub victim_held :
    (slots : Map Bytes Slot) (k : Bytes) (s : Slot)
    → Unique slots
    → victim slots ≡ some (k, s)
    → get k slots ≡ some s
unfolding victim get
victim_held [] k s u h = absurd (ground arith)
victim_held ((k₁, s₁) ∷ slots) k s u h = elim (Option-cases (victim slots)) [
  | inl v ↦ ground (arith, beq_self k)
  | inr ((k₂, s₂), v) ↦ ground (
    arith,
    beq_self k,
    victim_held slots k₂ s₂ u.1 v,
    bytes_beq_iff k₁ k₂,
    λ (q : k₁ ≡ k₂). ap (λ (i : Bytes). get i slots) q,
    bytes_beq_iff k₁ k,
    λ (q : k₁ ≡ k). ap (λ (i : Bytes). get i slots) q,
  )
]

-- A slot that is evicted for room is one that nobody has checked out, and of those the one that was
-- used longest ago.
pub victim-IsOldest :
    (slots : Map Bytes Slot) (k : Bytes) (s : Slot)
    → Unique slots
    → victim slots ≡ some (k, s)
    → IsOldest slots k s
victim-IsOldest slots k s u h = record {
  held = victim_held slots k s u h;
  idle = victim_idle slots k s h;
  oldest = λ k' s' g i. victim_oldest slots k k' s s' h g i;
}

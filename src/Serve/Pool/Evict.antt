-- ===== src/Serve/Pool/Evict.antt =====
-- `TenantPool` of runtime/src/serve/pool.rs.
-- What `evict_while_full` takes and leaves.
use mathlib.Core.Path.{subst}
use enclave_runtime.Prelude.{
  ℕ, zero, suc, ◌≤◌, ◌<◌, ◌≡◌, refl, sym, ap, ◌∙◌, Option, none, some, Bytes, ltb, length, max,
  nat_eq, bytes_eq, arith, ◌⊎◌, inl, inr, Option-cases, Bool-cases, bytes_beq, bytes_beq_eq,
}
use enclave_runtime.Prelude.Map.{
  Map, get, remove, retain, Unique, keep_if, get-retain, get-remove, retain-Unique, remove-Unique,
  length-insert-le,
}
use enclave_runtime.Serve.Pool.{
  Slot, PoolLimits, TenantPool, is_fresh, victim, evict_loop, evict_while_full, checkout,
}
use enclave_runtime.Serve.Pool.Victim.{
  victim-none-get, victim_idle, victim_held, length-remove_held,
}

-- Room for one more, or nobody to make it of.
abbrev pub HasRoom : ℕ → Map Bytes Slot → Type 0
HasRoom cap slots =
    (length slots < cap) ⊎ ((k : Bytes) (s : Slot) → get k slots ≡ some s → 0 < s.in_flight)

evict_loop-HasRoom :
    (fuel cap : ℕ) (slots : Map Bytes Slot)
    → Unique slots
    → 0 < cap
    → length slots ≤ fuel
    → HasRoom cap (evict_loop fuel cap slots)
unfolding evict_loop
evict_loop-HasRoom zero cap slots u c f = inl (omega (arith, c, f))
evict_loop-HasRoom (suc fuel) cap slots u c f = elim (Bool-cases (ltb (length slots) cap)) [
  | inl h ↦ rw (h, evict_loop) (inl (ground arith))
  | inr h ↦ elim (Option-cases (victim slots)) [
    | inl v ↦ rw (h, v, evict_loop) (inr (λ k s g. victim-none-get slots k s v g))
    | inr ((k, s), v) ↦
        rw (h, v, evict_loop)
          (evict_loop-HasRoom fuel cap (remove k slots) (remove-Unique k slots u) c
            (omega (arith, f, length-remove_held k slots s (victim_held slots k s u v))))
  ]
]

-- What becomes of one entry: it stays as it is, or it was idle and is gone.
abbrev pub Spared : Option Slot → Option Slot → Type 0
Spared before after =
    (after ≡ before) ⊎ ((s : Slot) × (before ≡ some s) × (s.in_flight ≡ 0) × (after ≡ none))

Spared-trans : {a b c : Option Slot} → Spared a b → Spared b c → Spared a c
Spared-trans (inl e) (inl e') = inl (e' ∙ e)
Spared-trans (inl e) (inr (s, held, idle, gone)) = inr (s, sym e ∙ held, idle, gone)
Spared-trans (inr (s, held, idle, gone)) (inl e') = inr (s, held, idle, e' ∙ gone)
Spared-trans (inr (s, held, idle, gone)) (inr (s', held', idle', gone')) =
    inr (s, held, idle, gone')

remove-Spared :
    (slots : Map Bytes Slot) (j k : Bytes) (s : Slot)
    → get j slots ≡ some s
    → s.in_flight ≡ 0
    → Spared (get k slots) (get k (remove j slots))
remove-Spared slots j k s held idle = elim (Bool-cases (bytes_beq j k)) [
  | inl q ↦ inr (
    s,
    ap (λ (i : Bytes). get i slots) (sym (bytes_beq_eq j k q)) ∙ held,
    idle,
    get-remove j k slots ∙ rw q,
  )
  | inr q ↦ inl (get-remove j k slots ∙ rw q)
]

evict_loop-Spared :
    (fuel cap : ℕ) (slots : Map Bytes Slot) (k : Bytes)
    → Unique slots
    → Spared (get k slots) (get k (evict_loop fuel cap slots))
unfolding evict_loop
evict_loop-Spared zero cap slots k u = inl refl
evict_loop-Spared (suc fuel) cap slots k u = elim (Bool-cases (ltb (length slots) cap)) [
  | inl h ↦ rw (h, evict_loop) (inl refl)
  | inr h ↦ elim (Option-cases (victim slots)) [
    | inl v ↦ rw (h, v, evict_loop) (inl refl)
    | inr ((j, s), v) ↦
        rw (h, v, evict_loop)
          (Spared-trans
            (remove-Spared slots j k s (victim_held slots j s u v) (victim_idle slots j s v))
            (evict_loop-Spared fuel cap (remove j slots) k (remove-Unique j slots u)))
  ]
]

keep_if-Spared : (idle_ms now : ℕ) (o : Option Slot) → Spared o (keep_if (is_fresh idle_ms now) o)
keep_if-Spared idle_ms now none = inl refl
keep_if-Spared idle_ms now (some s) = elim (Bool-cases (is_fresh idle_ms now s)) [
  | inl h ↦ inl (rw h refl)
  | inr h ↦ inr (s, refl, ground arith, rw h refl)
]

pub evict_while_full-Spared :
    (limits : PoolLimits) (now : ℕ) (slots : Map Bytes Slot) (k : Bytes)
    → Unique slots
    → Spared (get k slots) (get k (evict_while_full limits now slots))
unfolding evict_while_full
evict_while_full-Spared limits now slots k u =
    Spared-trans
      (subst (Spared (get k slots)) (sym (get-retain _ k slots u))
        (keep_if-Spared limits.idle_timeout now (get k slots)))
      (evict_loop-Spared _ (max limits.max_tenants 1) (retain _ slots) k (retain-Unique _ slots u))

-- The sweep before a new slot is made leaves every slot that is checked out as it is, whatever its age
-- and however full the pool is.
pub evict_keeps_busy :
    (limits : PoolLimits) (now : ℕ) (slots : Map Bytes Slot) (k : Bytes) (s : Slot)
    → Unique slots
    → get k slots ≡ some s
    → 0 < s.in_flight
    → get k (evict_while_full limits now slots) ≡ some s
evict_keeps_busy limits now slots k s u held busy =
    elim (evict_while_full-Spared limits now slots k u) [
      | inl e ↦ e ∙ held
      | inr (s', held', idle, gone) ↦ absurd (ground (arith, busy, idle, held, held'))
    ]

-- When a tenant without a slot checks one out, the pool is within its cap of max(max_tenants, 1) after,
-- unless every slot that the sweep left is checked out.
pub checkout-HasRoom :
    (tenant : Bytes) (now : ℕ) (p : TenantPool)
    → Unique p.slots
    → get tenant p.slots ≡ none
    → (length (checkout tenant now p).1.slots ≤ max p.limits.max_tenants 1)
      ⊎ ((k : Bytes) (s : Slot)
          → get k (evict_while_full p.limits now p.slots) ≡ some s
          → 0 < s.in_flight)
unfolding checkout
checkout-HasRoom tenant now p u absent = elim (room) [
  | inl h ↦ inl (
      rw (absent, checkout)
        (omega (
          arith,
          h,
          length-insert-le tenant (record { id = p.next_id; last_used = now; in_flight = 1 })
              (evict_while_full p.limits now p.slots),
        )))
  | inr h ↦ inr h
]
  where
    room : HasRoom (max p.limits.max_tenants 1) (evict_while_full p.limits now p.slots)
    room =
        unfold evict_while_full in
        evict_loop-HasRoom _ (max p.limits.max_tenants 1) _ (retain-Unique _ p.slots u)
          (omega arith) (omega arith)

evict_loop-Unique :
    (fuel cap : ℕ) (slots : Map Bytes Slot) → Unique slots → Unique (evict_loop fuel cap slots)
unfolding evict_loop
evict_loop-Unique zero cap slots u = u
evict_loop-Unique (suc fuel) cap slots u = elim (Bool-cases (ltb (length slots) cap)) [
  | inl h ↦ rw (h, evict_loop) u
  | inr h ↦ elim (Option-cases (victim slots)) [
    | inl v ↦ rw (h, v, evict_loop) u
    | inr ((k, s), v) ↦
        rw (h, v, evict_loop)
          (evict_loop-Unique fuel cap (remove k slots) (remove-Unique k slots u))
  ]
]

pub evict_while_full-Unique :
    (limits : PoolLimits) (now : ℕ) (slots : Map Bytes Slot)
    → Unique slots
    → Unique (evict_while_full limits now slots)
unfolding evict_while_full
evict_while_full-Unique limits now slots u = evict_loop-Unique _ _ _ (retain-Unique _ slots u)

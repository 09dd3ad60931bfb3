-- ===== src/Zfs/Tenants/Slots.antt =====
-- `Zfs::tenant_pool` of runtime/src/zfs.rs: the slots that lookups of absent tenants take.
use mathlib.Core.Path.{subst}
use enclave_runtime.Prelude.{
  ℕ, suc, ◌+◌, ◌≤◌, ◌<◌, ◌≡◌, refl, sym, ap, ◌∙◌, inl, inr, Bool, true, false, none, List, [], ◌∷◌,
  Bytes, arith, ltb, length, bytes_eq, bytes_beq_iff, nat_eq, ◌==◌, Bool-cases,
}
use enclave_runtime.Prelude.Map.{Map, get, insert, remove, get-insert, get-insert_self}
use enclave_runtime.Prelude.Result.{Result, err}
use enclave_runtime.Zfs.Types.{Host, Run, ZfsError, disk_full, no_storage}
use enclave_runtime.Zfs.Pool.{Pool}
use enclave_runtime.Zfs.Pool.Open.{Opened}
use enclave_runtime.Zfs.Catalog.{contains_id}
use enclave_runtime.Zfs.Tenants.{
  Config, State, take_slot, init_slot, open_or_create_tenant, tenant_pool, existing_tenant_dir,
}

remove_absent : {V : Type 0} (k : Bytes) (m : Map Bytes V) → get k m ≡ none → remove k m ≡ m
unfolding get remove
remove_absent k [] h = refl
remove_absent k ((j, v) ∷ m) h = elim (Bool-cases (j == k)) [
  | inl t ↦ cc (rw (t, get) at h)
  | inr f ↦ rw (f, remove, remove_absent k m (rw (f, get) at h)) refl
]

-- The tenants of a list are distinct and have neither a slot nor an entry.
abbrev pub Absent : {V E : Type 0} → List Bytes → Map Bytes V → Map Bytes E → Type 0
Absent [] slots catalog = Unit
Absent (t ∷ ts) slots catalog =
    (get t slots ≡ none)
    × (get t catalog ≡ none)
    × (contains_id t ts ≡ false)
    × Absent ts slots catalog

not_first : (t u : Bytes) (ts : List Bytes) → contains_id t (u ∷ ts) ≡ false → (u == t) ≡ false
unfolding contains_id
not_first t u ts h = elim (Bool-cases (u == t)) [
  | inl q ↦ cc (rw (q, contains_id) at h)
  | inr q ↦ q
]

Absent-insert :
    {V E : Type 0} (t : Bytes) (v : V) (ts : List Bytes) (slots : Map Bytes V)
    (catalog : Map Bytes E)
    → contains_id t ts ≡ false
    → Absent ts slots catalog
    → Absent ts (insert t v slots) catalog
unfolding contains_id
Absent-insert t v [] slots catalog c a = tt
Absent-insert t v (u ∷ ts) slots catalog c (s, e, d, a) = elim (Bool-cases (u == t)) [
  | inl q ↦ cc (rw (q, contains_id) at c)
  | inr q ↦
      let other : (t == u) ≡ false = ground (arith, q, bytes_beq_iff t u, bytes_beq_iff u t) in
      (
        get-insert t u v slots ∙ (rw other s),
        e,
        d,
        Absent-insert t v ts slots catalog (rw (q, contains_id) at c) a,
      )
]

module _ (h : Host) (map_region : Bytes → ℕ × ℕ → Run h Bytes) (pool_present : Pool → Run h Bool)
    (make : Pool → Run h (Unit {0})) (c : Config) where
  abbrev St : Type 0
  St = State h map_region pool_present make c

  abbrev lookup : Bytes → St → Result ZfsError Opened × St
  lookup = existing_tenant_dir h map_region pool_present make c

  -- Lookups of tenants that must exist, one after the other.
  abbrev pub lookups : List Bytes → St → St
  lookups [] s = s
  lookups (t ∷ ts) s = lookups ts (lookup t s).1

  lookup_absent :
      (t : Bytes) (s : St)
      → get t s.slots ≡ none
      → get t s.catalog ≡ none
      → length s.slots + 1 < c.max_pools
      → lookup t s ≡ (err no_storage, record s { slots = insert t none s.slots })
  unfolding existing_tenant_dir tenant_pool take_slot init_slot open_or_create_tenant
  lookup_absent t s no_slot no_entry room =
      let fits : ltb (length s.slots + 1) c.max_pools ≡ true = ground (arith, room) in
      rw
        (
          no_slot,
          existing_tenant_dir,
          take_slot,
          fits,
          get-insert_self t none s.slots,
          init_slot,
          no_entry,
          open_or_create_tenant,
        )
        refl

  length-insert_absent :
      {V : Type 0} (t : Bytes) (v : V) (m : Map Bytes V)
      → get t m ≡ none
      → length (insert t v m) ≡ suc (length m)
  unfolding insert
  length-insert_absent t v m absent = rw (remove_absent t m absent) refl

  full :
      (t : Bytes) (create : Bool) (s : St)
      → get t s.slots ≡ none
      → c.max_pools ≤ length s.slots + 1
      → tenant_pool h map_region pool_present make c t create s ≡ (err disk_full, s)
  unfolding tenant_pool take_slot
  full t create s no_slot over =
      let fits : ltb (length s.slots + 1) c.max_pools ≡ false = ground (arith, over) in
      rw (no_slot, tenant_pool, take_slot, fits) refl

  -- Lookups of absent tenants fill the slots: after as many as there are regions left, a tenant without
  -- a slot is refused as if the disk were full, though the lookups created nothing and the catalog is
  -- as it was. The lookups are of distinct tenants that have no entry and no slot.
  pub lookups_exhaust :
      (ts : List Bytes) (t : Bytes) (create : Bool) (s : St)
      → Absent ts s.slots s.catalog
      → length s.slots + length ts + 1 ≡ c.max_pools
      → get t s.slots ≡ none
      → contains_id t ts ≡ false
      → ((tenant_pool h map_region pool_present make c t create (lookups ts s)).0 ≡ err disk_full)
        × ((lookups ts s).catalog ≡ s.catalog)
  unfolding contains_id
  lookups_exhaust [] t create s a room no_slot other =
      (ap (λ r. r.0) (full t create s no_slot (omega (arith, room))), refl)
  lookups_exhaust (u ∷ ts) t create s (no_slot_u, no_entry, once, a) room no_slot other =
      let next : St = record s { slots = insert u none s.slots } in
      let step = lookup_absent u s no_slot_u no_entry (omega (arith, room)) in
      let longer = length-insert_absent u none s.slots no_slot_u in
      let fresh : (u == t) ≡ false = not_first t u ts other in
      let rest =
        lookups_exhaust ts t create next (Absent-insert u none ts s.slots s.catalog once a)
          (omega (arith, room, longer)) (get-insert u t none s.slots ∙ (rw fresh no_slot))
          (rw (fresh, contains_id) at other) in
      subst
        (λ (x : St).
          ((tenant_pool h map_region pool_present make c t create (lookups ts x)).0 ≡ err disk_full)
          × ((lookups ts x).catalog ≡ s.catalog))
        (ap (λ r. r.1) (sym step)) rest

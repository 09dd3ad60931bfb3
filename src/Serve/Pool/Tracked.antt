-- ===== src/Serve/Pool/Tracked.antt =====
-- `TenantPool` of runtime/src/serve/pool.rs.
-- The invariant that ties the slots of the pool to the checkouts that are held.
use mathlib.Core.Path.{subst}
use mathlib.Core.Option.{some-injective}
use enclave_runtime.Prelude.{
  ℕ, zero, suc, ◌+◌, ◌-◌, ◌≡◌, refl, sym, ap, ◌∙◌, true, false, Option, none, some, List, [], ◌∷◌,
  Bytes, if◌then◌else◌, nat_eq, bytes_eq, ◌==◌, arith, inl, inr, Option-cases, Bool-cases,
  bytes_beq, bytes_beq_eq, bytes_beq_iff, bytes_beq_refl,
}
use enclave_runtime.Prelude.Map.{
  Map, get, insert, Unique, get-insert, insert-Unique, get-insert_self,
}
use enclave_runtime.Serve.Pool.{
  Slot, Checkout, TenantPool, evict_while_full, checkout, drop_checkout,
}
use enclave_runtime.Serve.Pool.Evict.{Spared, evict_while_full-Spared, evict_while_full-Unique}

abbrev pub drop_at : ℕ → List Checkout → List Checkout
drop_at n [] = []
drop_at zero (c ∷ held) = held
drop_at (suc n) (c ∷ held) = c ∷ drop_at n held

abbrev pub at : ℕ → List Checkout → Option Checkout
at n [] = none
at zero (c ∷ held) = some c
at (suc n) (c ∷ held) = at n held

-- How many of the checkouts are of this tenant.
abbrev pub count : Bytes → List Checkout → ℕ
count t [] = 0
count t (c ∷ held) = if c.tenant == t then suc (count t held) else count t held

-- Every checkout of this tenant holds the slot `id`.
abbrev pub AllHold : Bytes → ℕ → List Checkout → Type 0
AllHold t id [] = Unit
AllHold t id (c ∷ held) = (c.tenant ≡ t → c.slot ≡ id) × AllHold t id held

-- The slot of the pool counts the tenant's checkouts, which all hold it.
abbrev pub Agrees : Bytes → Option Slot → List Checkout → Type 0
Agrees t none held = count t held ≡ 0
Agrees t (some s) held = (s.in_flight ≡ count t held) × AllHold t s.id held

pub record IsTracked (held : List Checkout) (slots : Map Bytes Slot) : Type 0 where
  pub unique : Unique slots
  pub agrees : (t : Bytes) → Agrees t (get t slots) held

count-AllHold : (t : Bytes) (id : ℕ) (held : List Checkout) → count t held ≡ 0 → AllHold t id held
count-AllHold t id [] z = tt
count-AllHold t id (c ∷ held) z =
    (λ q. absurd (ground (arith, bytes_beq_iff c.tenant t)), count-AllHold t id held (ground arith))

Spared-Agrees :
    (t : Bytes) (before after : Option Slot) (held : List Checkout)
    → Spared before after
    → Agrees t before held
    → Agrees t after held
Spared-Agrees t before after held (inl e) a = subst (λ o. Agrees t o held) (sym e) a
Spared-Agrees t before after held (inr (s, was, idle, gone)) a =
    subst (λ o. Agrees t o held) (sym gone) (sym ((subst (λ o. Agrees t o held) was a).0) ∙ idle)

-- A checkout of another tenant changes nothing for this one.
other-Agrees :
    (t : Bytes) (o : Option Slot) (c : Checkout) (held : List Checkout)
    → bytes_beq c.tenant t ≡ false
    → Agrees t o held
    → Agrees t o (c ∷ held)
other-Agrees t none c held ne a = rw ne a
other-Agrees t (some s) c held ne a =
    (rw ne a.0, (λ q. absurd (ground (arith, bytes_beq_iff c.tenant t)), a.1))

-- The entry of a key that was written, and of any other.
insert-Agrees :
    (tenant t : Bytes) (s : Slot) (held : List Checkout) (slots : Map Bytes Slot)
    → Agrees tenant (some s) held
    → (bytes_beq tenant t ≡ false → Agrees t (get t slots) held)
    → Agrees t (get t (insert tenant s slots)) held
insert-Agrees tenant t s held slots mine others = elim (Bool-cases (bytes_beq tenant t)) [
  | inl q ↦
      subst (λ (u : Bytes). Agrees u (get u (insert tenant s slots)) held) (bytes_beq_eq tenant t q)
        (subst (λ o. Agrees tenant o held) (sym (get-insert_self tenant s slots)) mine)
  | inr q ↦ subst (λ o. Agrees t o held) (sym (get-insert tenant t s slots ∙ rw q)) (others q)
]

-- One more checkout of `tenant`, on the slot that is now its own.
checked-Agrees :
    (tenant t : Bytes) (s : Slot) (held : List Checkout) (slots : Map Bytes Slot)
    → s.in_flight ≡ suc (count tenant held)
    → AllHold tenant s.id held
    → Agrees t (get t slots) held
    → Agrees t (get t (insert tenant s slots)) (record { tenant = tenant; slot = s.id } ∷ held)
checked-Agrees tenant t s held slots n all a =
    insert-Agrees tenant t s (record { tenant = tenant; slot = s.id } ∷ held) slots
      (rw (bytes_beq_refl tenant) n, (λ _. refl, all))
      (λ q. other-Agrees t (get t slots) (record { tenant = tenant; slot = s.id }) held q a)

pub checkout-IsTracked :
    (tenant : Bytes) (now : ℕ) (p : TenantPool) (held : List Checkout)
    → IsTracked held p.slots
    → let r = checkout tenant now p in IsTracked (r.0 ∷ held) r.1.slots
unfolding checkout
checkout-IsTracked tenant now p held v = elim (Option-cases (get tenant p.slots)) [
  | inl absent ↦
      let none_held : count tenant held ≡ 0 =
        subst (λ o. Agrees tenant o held) absent (v.agrees tenant) in
      rw (absent, checkout)
        (record {
          unique =
              insert-Unique tenant _ (evict_while_full p.limits now p.slots)
                (evict_while_full-Unique p.limits now p.slots v.unique);
          agrees = λ t.
              checked-Agrees tenant t (record { id = p.next_id; last_used = now; in_flight = 1 })
                held (evict_while_full p.limits now p.slots) (ap suc (sym none_held))
                (count-AllHold tenant p.next_id held none_held)
                (Spared-Agrees t (get t p.slots) _ held
                  (evict_while_full-Spared p.limits now p.slots t v.unique) (v.agrees t));
        })
  | inr (s, there) ↦
      let mine : Agrees tenant (some s) held =
        subst (λ o. Agrees tenant o held) there (v.agrees tenant) in
      rw (there, checkout)
        (record {
          unique = insert-Unique tenant _ p.slots v.unique;
          agrees = λ t.
              checked-Agrees tenant t
                (record { id = s.id; last_used = now; in_flight = s.in_flight + 1 }) held p.slots
                (omega (arith, mine.0)) mine.1 (v.agrees t);
        })
]

pub count-drop_at :
    (t : Bytes) (n : ℕ) (held : List Checkout) (c : Checkout)
    → at n held ≡ some c
    → count t held
      ≡ (if c.tenant == t then suc (count t (drop_at n held)) else count t (drop_at n held))
count-drop_at t n [] c h = absurd (ground arith)
count-drop_at t zero (d ∷ held) c h = ground arith
count-drop_at t (suc n) (d ∷ held) c h = ground (arith, count-drop_at t n held c h)

AllHold-drop_at :
    (t : Bytes) (id n : ℕ) (held : List Checkout)
    → AllHold t id held
    → AllHold t id (drop_at n held)
AllHold-drop_at t id n [] a = tt
AllHold-drop_at t id zero (c ∷ held) a = a.1
AllHold-drop_at t id (suc n) (c ∷ held) a = (a.0, AllHold-drop_at t id n held a.1)

pub AllHold-at :
    (id n : ℕ) (held : List Checkout) (c : Checkout)
    → at n held ≡ some c
    → AllHold c.tenant id held
    → c.slot ≡ id
AllHold-at id n [] c h a = absurd (ground arith)
AllHold-at id zero (d ∷ held) c h a =
    subst (λ (x : Checkout). x.tenant ≡ c.tenant → x.slot ≡ id) (some-injective d c h) a.0 refl
AllHold-at id (suc n) (d ∷ held) c h a = AllHold-at id n held c h a.1

-- One checkout less.
dropped-Agrees :
    (t : Bytes) (o : Option Slot) (n : ℕ) (held : List Checkout) (c : Checkout)
    → at n held ≡ some c
    → bytes_beq c.tenant t ≡ false
    → Agrees t o held
    → Agrees t o (drop_at n held)
dropped-Agrees t none n held c h ne a = sym (count-drop_at t n held c h ∙ rw ne) ∙ a
dropped-Agrees t (some s) n held c h ne a =
    (a.0 ∙ count-drop_at t n held c h ∙ rw ne, AllHold-drop_at t s.id n held a.1)

pub drop_checkout-IsTracked :
    (n : ℕ) (p : TenantPool) (held : List Checkout) (c : Checkout)
    → at n held ≡ some c
    → IsTracked held p.slots
    → IsTracked (drop_at n held) (drop_checkout c p).slots
unfolding drop_checkout
drop_checkout-IsTracked n p held c h v =
    let counted : count c.tenant held ≡ suc (count c.tenant (drop_at n held)) =
      count-drop_at c.tenant n held c h ∙ rw (bytes_beq_refl c.tenant) in
    elim (Option-cases (get c.tenant p.slots)) [
      | inl absent ↦
          absurd
            (omega (arith, counted, subst (λ o. Agrees c.tenant o held) absent (v.agrees c.tenant)))
      | inr (s, there) ↦
          let mine : Agrees c.tenant (some s) held =
            subst (λ o. Agrees c.tenant o held) there (v.agrees c.tenant) in
          let same : (s.id == c.slot) ≡ true =
            let q = AllHold-at s.id n held c h mine.1 in ground arith in
          rw (there, same)
            (record {
              unique = insert-Unique c.tenant _ p.slots v.unique;
              agrees = λ t.
                  insert-Agrees c.tenant t (record s { in_flight = s.in_flight - 1 })
                    (drop_at n held) p.slots
                    (omega (arith, mine.0, counted), AllHold-drop_at c.tenant s.id n held mine.1)
                    (λ ne. dropped-Agrees t (get t p.slots) n held c h ne (v.agrees t));
            })
    ]

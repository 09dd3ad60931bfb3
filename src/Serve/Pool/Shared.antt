-- ===== src/Serve/Pool/Shared.antt =====
-- `TenantPool` of runtime/src/serve/pool.rs.
-- Every call of a tenant that is under way waits on the same lock: the slots that its checkouts hold
-- are one.
use mathlib.Core.Path.{subst}
use enclave_runtime.Prelude.{
  ℕ, zero, suc, ◌≡◌, refl, sym, ap, ◌∙◌, Option, none, some, List, [], ◌∷◌, Bytes, nat_eq, bytes_eq,
  arith, inl, inr, Option-cases, bytes_beq_refl,
}
use enclave_runtime.Prelude.Map.{get}
use enclave_runtime.Serve.Pool.{Checkout, PoolLimits, TenantPool, new, checkout, drop_checkout}
use enclave_runtime.Serve.Pool.Tracked.{
  at, drop_at, count, AllHold, Agrees, IsTracked, checkout-IsTracked, drop_checkout-IsTracked,
  AllHold-at, count-drop_at,
}

-- What happens to a pool, with the checkouts that are held: a tenant checks its slot out at a time, or
-- the checkout at a position of the list is dropped.
pub data Event : Type 0 where
  checks_out : Bytes → ℕ → Event
  drops : ℕ → Event

abbrev release : Option Checkout → TenantPool → TenantPool
release none p = p
release (some c) p = drop_checkout c p

unfoldable pub step : Event → List Checkout × TenantPool → List Checkout × TenantPool
unfolding checkout drop_checkout
step (checks_out tenant now) (held, p) = let (c, p') = checkout tenant now p in (c ∷ held, p')
step (drops n) (held, p) = (drop_at n held, release (at n held) p)

unfoldable pub run : List Event → List Checkout × TenantPool → List Checkout × TenantPool
unfolding step
run [] s = s
run (e ∷ es) s = run es (step e s)

drop_nothing : (n : ℕ) (held : List Checkout) → at n held ≡ none → drop_at n held ≡ held
drop_nothing n [] h = refl
drop_nothing zero (c ∷ held) h = absurd (ground arith)
drop_nothing (suc n) (c ∷ held) h = ap (λ l. c ∷ l) (drop_nothing n held h)

step-IsTracked :
    (e : Event) (s : List Checkout × TenantPool)
    → IsTracked s.0 s.1.slots
    → IsTracked (step e s).0 (step e s).1.slots
unfolding step
step-IsTracked (checks_out tenant now) (held, p) v = checkout-IsTracked tenant now p held v
step-IsTracked (drops n) (held, p) v = elim (Option-cases (at n held)) [
  | inl h ↦ rw (h, drop_nothing n held h) v
  | inr (c, h) ↦ rw (h) (drop_checkout-IsTracked n p held c h v)
]

run-IsTracked :
    (es : List Event) (s : List Checkout × TenantPool)
    → IsTracked s.0 s.1.slots
    → IsTracked (run es s).0 (run es s).1.slots
unfolding run
run-IsTracked [] s v = v
run-IsTracked (e ∷ es) s v = run-IsTracked es (step e s) (step-IsTracked e s v)

new-IsTracked : (limits : PoolLimits) → IsTracked [] (new limits).slots
unfolding new get
new-IsTracked limits = record { unique = tt; agrees = λ t. refl }

-- Whatever order the checkouts of a new pool come and go in, two checkouts of one tenant that are held
-- at the same time hold the same slot: no eviction gives the tenant a second lock.
pub run-one_slot :
    (limits : PoolLimits) (es : List Event) (m n : ℕ) (a b : Checkout)
    → at m (run es ([], new limits)).0 ≡ some a
    → at n (run es ([], new limits)).0 ≡ some b
    → a.tenant ≡ b.tenant
    → a.slot ≡ b.slot
run-one_slot limits es m n a b h h' same =
    let v = run-IsTracked es ([], new limits) (new-IsTracked limits) in
    let held = (run es ([], new limits)).0 in
    elim (Option-cases (get b.tenant (run es ([], new limits)).1.slots)) [
      | inl absent ↦
          let counted : count b.tenant held ≡ suc (count b.tenant (drop_at n held)) =
            count-drop_at b.tenant n held b h' ∙ rw (bytes_beq_refl b.tenant) in
          absurd
            (omega (arith, counted, subst (λ o. Agrees b.tenant o held) absent (v.agrees b.tenant)))
      | inr (s, there) ↦
          let mine : Agrees b.tenant (some s) held =
            subst (λ o. Agrees b.tenant o held) there (v.agrees b.tenant) in
          AllHold-at s.id m held a h (subst (λ t. AllHold t s.id held) (sym same) mine.1)
          ∙ sym (AllHold-at s.id n held b h' mine.1)
    ]

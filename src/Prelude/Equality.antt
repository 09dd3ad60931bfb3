-- ===== src/Prelude/Equality.antt =====
-- Equality tests as an interface, with instances for numbers and byte strings.
use Prim.Native.Nat.{ℕ}
use mathlib.Core.Path.{◌≡◌, refl}
use mathlib.Core.Logic.{◌↔◌}
use mathlib.Core.Bool.{Bool, true, false, ◌&&◌}
use mathlib.Core.List.{List, [], ◌∷◌}
use native.Mathlib.Omega.{arith}
use enclave_runtime.Prelude.Tests.{==_iff}
use enclave_runtime.Prelude.Tests

pub record Eq {ℓ} (A : Type ℓ) : Type ℓ where
  pub beq : A → A → Bool
  pub beq_iff : (x y : A) → (beq x y ≡ true) ↔ (x ≡ y)

-- The `==` of a type that has an instance.
infix 50 ◌==◌
abbrev pub ◌==◌ {κ} : {K : Type κ} ⦃i : Eq K⦄ → K → K → Bool
◌==◌ ⦃i⦄ x y = i.beq x y

instance abbrev pub nat_eq : Eq ℕ
nat_eq = record { beq = Tests.◌==◌; beq_iff = ==_iff }

-- `==` on slices and strings: the bytes one by one.
abbrev pub bytes_beq : List ℕ → List ℕ → Bool
bytes_beq [] [] = true
bytes_beq [] (b ∷ bs) = false
bytes_beq (a ∷ as') [] = false
bytes_beq (a ∷ as') (b ∷ bs) = Tests.◌==◌ a b && bytes_beq as' bs

pub bytes_beq_refl : (a : List ℕ) → bytes_beq a a ≡ true
bytes_beq_refl [] = refl
bytes_beq_refl (a ∷ l) = ground (arith, bytes_beq_refl l)

pub bytes_beq_eq : (a b : List ℕ) → bytes_beq a b ≡ true → a ≡ b
bytes_beq_eq [] [] h = refl
bytes_beq_eq [] (b ∷ bs) h = cc
bytes_beq_eq (a ∷ l) [] h = cc
bytes_beq_eq (a ∷ l) (b ∷ bs) h = ground (arith, bytes_beq_eq l bs)

pub bytes_beq_iff : (a b : List ℕ) → (bytes_beq a b ≡ true) ↔ (a ≡ b)
bytes_beq_iff a b = (bytes_beq_eq a b, λ p. rw p (bytes_beq_refl b))

instance abbrev pub bytes_eq : Eq (List ℕ)
bytes_eq = record { beq = bytes_beq; beq_iff = bytes_beq_iff }

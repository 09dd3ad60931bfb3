-- ===== src/Prelude/Exec.antt =====
-- Code that acts on a state and may fail. What was done before a failure stays done.
use mathlib.Core.Path.{◌≡◌, refl}
use mathlib.Core.Option.{Option, none, some}
use enclave_runtime.Prelude.Result.{Result, ok, err}

abbrev pub Exec {ℓ κ μ} : Type ℓ → Type κ → Type μ → Type (ℓ ⊔ κ ⊔ μ)
Exec S E A = S → Result E A × S

module _ {ℓ κ μ} {S : Type ℓ} {E : Type κ} {A : Type μ} where
  abbrev pub pure : A → Exec S E A
  pure a s = (ok a, s)

  abbrev pub raise : E → Exec S E A
  raise e s = (err e, s)

  abbrev pub lift : Result E A → Exec S E A
  lift r s = (r, s)

  abbrev pub lift_option : (S → Option A) → E → Exec S E A
  lift_option f e s = elim (f s) [ none ↦ (err e, s) | some a ↦ (ok a, s) ]

  abbrev pub map_err {ν} : {F : Type ν} → (S → Result F A × S) → (F → E) → Exec S E A
  map_err m f s = let (r, s') = m s in elim r [ ok a ↦ (ok a, s') | err e ↦ (err (f e), s') ]

module _ {ℓ κ μ ν} {S : Type ℓ} {E : Type κ} {A : Type μ} {B : Type ν} where
  abbrev pub continue : Result E A × S → (A → Exec S E B) → Result E B × S
  continue (ok a, s) f = f a s
  continue (err e, s) f = (err e, s)

  infixl 5 ◌>>=◌ ◌>>◌
  abbrev pub ◌>>=◌ : Exec S E A → (A → Exec S E B) → Exec S E B
  ◌>>=◌ m f s = continue (m s) f

  abbrev pub ◌>>◌ : Exec S E A → Exec S E B → Exec S E B
  ◌>>◌ m n s = continue (m s) (λ _. n)

  -- Inversion of a successful bind.
  pub >>=-eq-ok :
      (m : Exec S E A) (f : A → Exec S E B) (s s' : S) {b : B}
      → (m >>= f) s ≡ (ok b, s')
      → (a : A) × (t : S) × (m s ≡ (ok a, t)) × (f a t ≡ (ok b, s'))
  >>=-eq-ok m f s s' h = go (m s) refl h
    where
      go :
          (r : Result E A × S)
          → m s ≡ r
          → {b : B} → continue r f ≡ (ok b, s')
          → (a : A) × (t : S) × (m s ≡ (ok a, t)) × (f a t ≡ (ok b, s'))
      go (ok a, t) e k = (a, t, e, k)
      go (err x, t) e k = cc

-- A relation between states that every step respects is respected by a block of them.
module _ {ℓ κ μ ν ξ} {S : Type ℓ} {E : Type κ} {A : Type μ} {B : Type ν} where
  pub bind-keeps :
      (K : S → S → Type ξ) (m : Exec S E A) (f : A → Exec S E B)
      → ((s t u : S) → K s t → K t u → K s u)
      → ((s : S) → K s (m s).1)
      → ((a : A) (s : S) → K s (f a s).1)
      → (s : S) → K s ((m >>= f) s).1
  bind-keeps K m f trans first next s = go (m s) (first s)
    where
      go : (r : Result E A × S) → K s r.1 → K s (continue r f).1
      go (ok a, t) k = trans s t (f a t).1 k (next a t)
      go (err e, t) k = k

-- What holds of a block, whether its first step fails or its rest goes on.
module _ {ℓ κ μ ν ξ} {S : Type ℓ} {E : Type κ} {A : Type μ} {B : Type ν} where
  pub bind-cases :
      (Q : Result E B × S → Type ξ) (m : Exec S E A) (f : A → Exec S E B) (s : S)
      → ((e : E) (t : S) → m s ≡ (err e, t) → Q (err e, t))
      → ((a : A) (t : S) → m s ≡ (ok a, t) → Q (f a t))
      → Q ((m >>= f) s)
  bind-cases Q m f s failed went_on = go (m s) refl
    where
      go : (r : Result E A × S) → m s ≡ r → Q (continue r f)
      go (ok a, t) e = went_on a t e
      go (err x, t) e = failed x t e

-- ===== src/Prelude/Layout.antt =====
-- A record of fixed-width fields, written one after the other and read back by offset.
use Prim.Native.Nat.{ℕ, zero, suc, ◌+◌, ◌≤◌}
use mathlib.Core.Path.{◌≡◌, refl, ◌∙◌}
use mathlib.Core.List.{List, [], ◌∷◌, ◌++◌}
use native.Mathlib.Omega.{arith}
use enclave_runtime.Prelude.Lists.{length, length-append}
use enclave_runtime.Prelude.Words.{slice, slice_past, slice_first}

module _ {ℓ} {A : Type ℓ} where
  -- The fields in a row, and their widths.
  abbrev pub layout : List (List A) → List A
  layout [] = []
  layout (f ∷ fs) = f ++ layout fs

  abbrev pub IsSized : List (List A) → List ℕ → Type 0
  IsSized [] [] = Unit
  IsSized (f ∷ fs) (n ∷ ns) = (length f ≡ n) × IsSized fs ns
  IsSized [] (n ∷ ns) = ⊥
  IsSized (f ∷ fs) [] = ⊥

  abbrev pub field : ℕ → List (List A) → List A
  field i [] = []
  field zero (f ∷ fs) = f
  field (suc i) (f ∷ fs) = field i fs

abbrev pub width : ℕ → List ℕ → ℕ
width i [] = 0
width zero (n ∷ ns) = n
width (suc i) (n ∷ ns) = width i ns

abbrev pub total : List ℕ → ℕ
total [] = 0
total (n ∷ ns) = n + total ns

-- Where field `i` begins.
abbrev pub offset : ℕ → List ℕ → ℕ
offset zero ns = 0
offset (suc i) [] = 0
offset (suc i) (n ∷ ns) = n + offset i ns

module _ {ℓ} {A : Type ℓ} where
  pub slice-layout :
      (i : ℕ) (fs : List (List A)) (ns : List ℕ)
      → IsSized fs ns
      → suc i ≤ length ns
      → slice (offset i ns) (width i ns) (layout fs) ≡ field i fs
  slice-layout i fs [] s h = absurd (omega (arith, h))
  slice-layout i [] (n ∷ ns) s h = absurd s
  slice-layout zero (f ∷ fs) (n ∷ ns) s h = slice_first n f (layout fs) s.0
  slice-layout (suc i) (f ∷ fs) (n ∷ ns) s h =
      slice_past n (offset i ns) (width i ns) f (layout fs) s.0
      ∙ slice-layout i fs ns s.1 (omega (arith, h))

  pub length-layout :
      (fs : List (List A)) (ns : List ℕ) → IsSized fs ns → length (layout fs) ≡ total ns
  length-layout [] [] s = refl
  length-layout [] (n ∷ ns) s = absurd s
  length-layout (f ∷ fs) [] s = absurd s
  length-layout (f ∷ fs) (n ∷ ns) s =
      omega (arith, length-append f (layout fs), length-layout fs ns s.1, s.0)

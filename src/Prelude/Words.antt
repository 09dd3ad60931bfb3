-- ===== src/Prelude/Words.antt =====
-- Fixed-width integers as big-endian bytes, and slices of a byte string.
use Prim.Native.Nat.{ℕ, zero, suc, ◌+◌, ◌*◌, ◌/◌, ◌%◌, ◌^◌, ◌<◌}
use mathlib.Core.Path.{◌≡◌, refl, sym, ap, ◌∙◌}
use mathlib.Core.List.{List, [], ◌∷◌, ◌++◌}
use native.Mathlib.Numerals.{towards_suc}
use native.Mathlib.Omega.{arith}
use enclave_runtime.Prelude.Lists.{length, take, drop, take-append, length-append}

-- to_be_bytes of a number of `w` bytes
unfoldable pub be_bytes : ℕ → ℕ → List ℕ
be_bytes zero v = []
be_bytes (suc w) v = be_bytes w (v / 256) ++ (v % 256 ∷ [])

-- from_be_bytes, onto the value of the bytes before
unfoldable pub be_onto : ℕ → List ℕ → ℕ
be_onto acc [] = acc
be_onto acc (b ∷ bs) = be_onto (acc * 256 + b) bs

unfoldable pub be_value : List ℕ → ℕ
be_value bs = be_onto 0 bs

pub be_onto-append :
    (acc : ℕ) (xs ys : List ℕ) → be_onto acc (xs ++ ys) ≡ be_onto (be_onto acc xs) ys
unfolding be_onto
be_onto-append acc [] ys = refl
be_onto-append acc (x ∷ xs) ys = be_onto-append (acc * 256 + x) xs ys

pub length-be_bytes : (w v : ℕ) → length (be_bytes w v) ≡ w
unfolding be_bytes
length-be_bytes zero v = refl
length-be_bytes (suc w) v =
    omega (arith, length-append (be_bytes w (v / 256)) (v % 256 ∷ []), length-be_bytes w (v / 256))

pub be_value-be_bytes : (w v : ℕ) → v < 256 ^ w → be_value (be_bytes w v) ≡ v
unfolding be_value be_bytes be_onto
be_value-be_bytes zero v h = omega arith
be_value-be_bytes (suc w) v h =
    let e : 256 ^ (w + 1) ≡ 256 * 256 ^ w = simp towards_suc (omega arith) in
    let r = be_value-be_bytes w (v / 256) (omega (arith, e)) in
    be_onto-append 0 (be_bytes w (v / 256)) (v % 256 ∷ []) ∙ omega (arith, r)

-- &b[off..off + n], where it is in range
unfoldable pub slice {ℓ} : {A : Type ℓ} → ℕ → ℕ → List A → List A
slice off n xs = take n (drop off xs)

module _ {ℓ} {A : Type ℓ} where
  drop_past : (j k : ℕ) (xs ys : List A) → j ≡ length xs + k → drop j (xs ++ ys) ≡ drop k ys
  drop_past j k [] ys h = let e : j ≡ k = omega (arith, h) in ap (λ i. drop i ys) e
  drop_past zero k (x ∷ xs) ys h = absurd (omega (arith, h))
  drop_past (suc j) k (x ∷ xs) ys h = drop_past j k xs ys (omega (arith, h))

  -- A slice past the first field, and the slice that is the first field.
  pub slice_past :
      (n k m : ℕ) (xs ys : List A) → length xs ≡ n → slice (n + k) m (xs ++ ys) ≡ slice k m ys
  unfolding slice
  slice_past n k m xs ys h = ap (take m) (drop_past (n + k) k xs ys (omega (arith, h)))

  pub slice_first : (n : ℕ) (xs ys : List A) → length xs ≡ n → slice 0 n (xs ++ ys) ≡ xs
  unfolding slice
  slice_first n xs ys h = rw (sym h) (take-append xs ys)

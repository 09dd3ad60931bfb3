-- ===== src/Stream/Sse/Cut.antt =====
-- SseFramer of runtime/src/stream.rs: where a buffer is cut, and the fuel of the loop.
use enclave_runtime.Prelude.{
  ℕ, ◌<◌, ◌≡◌, refl, sym, ◌∙◌, ap, inl, inr, true, false, ◌&&◌, Option, none, some, [], ◌∷◌, ◌++◌,
  Bytes, arith, length, nat_eq, ◌==◌, Bool-cases, Option-cases,
}
use enclave_runtime.Stream.Sse.{cut_block}

cut_here :
    (a b : ℕ) (x : Bytes)
    → ((a == 10) && (b == 10)) ≡ true
    → cut_block (a ∷ b ∷ x) ≡ some (a ∷ b ∷ [], x)
unfolding cut_block
cut_here a b x t = rw (t, cut_block) refl

cut_later :
    (a b : ℕ) (x : Bytes) {block rest : Bytes}
    → ((a == 10) && (b == 10)) ≡ false
    → cut_block (b ∷ x) ≡ some (block, rest)
    → cut_block (a ∷ b ∷ x) ≡ some (a ∷ block, rest)
unfolding cut_block
cut_later a b x f e = rw (f, cut_block, e) refl

-- Where a buffer is cut: at once, or one byte after the rest is.
data Cut (a b : ℕ) (x : Bytes) (block rest : Bytes) : Type 0 where
  here : ((a == 10) && (b == 10)) ≡ true → (block ≡ a ∷ b ∷ []) → (rest ≡ x) → Cut a b x block rest
  later :
      (tail : Bytes)
      → ((a == 10) && (b == 10)) ≡ false
      → cut_block (b ∷ x) ≡ some (tail, rest)
      → (block ≡ a ∷ tail)
      → Cut a b x block rest

cut_cases :
    (a b : ℕ) (x : Bytes) {block rest : Bytes}
    → cut_block (a ∷ b ∷ x) ≡ some (block, rest)
    → Cut a b x block rest
unfolding cut_block
cut_cases a b x {block} {rest} e = elim (Bool-cases ((a == 10) && (b == 10))) [
  | inl t ↦
      let e' : ◌≡◌ {A = Option (Bytes × Bytes)} (some (a ∷ b ∷ [], x)) (some (block, rest)) =
        sym (cut_here a b x t) ∙ e in
      let is_block : block ≡ a ∷ b ∷ [] = cc in
      let is_rest : rest ≡ x = cc in here t is_block is_rest
  | inr f ↦ elim (Option-cases (cut_block (b ∷ x))) [
    | inl n ↦ let e' : cut_block (a ∷ b ∷ x) ≡ none = rw (f, cut_block, n) refl in cc
    | inr ((k, r), s) ↦
        let e' : ◌≡◌ {A = Option (Bytes × Bytes)} (some (a ∷ k, r)) (some (block, rest)) =
          sym (cut_later a b x f s) ∙ e in
        let same : r ≡ rest = cc in
        let is_block : block ≡ a ∷ k = cc in later k f (rw (sym same) s) is_block
  ]
]

-- The block that a buffer starts with is cut off whatever is read after it.
pub cut_block-append :
    (x y : Bytes) {block rest : Bytes}
    → cut_block x ≡ some (block, rest)
    → cut_block (x ++ y) ≡ some (block, rest ++ y)
unfolding cut_block
cut_block-append [] y e = cc
cut_block-append (a ∷ []) y e = cc
cut_block-append (a ∷ b ∷ x) y {block} {rest} e = elim (cut_cases a b x e) [
  | here t is_block is_rest ↦ rw (is_block, is_rest) (cut_here a b (x ++ y) t)
  | later tail f s is_block ↦
      rw (is_block) (cut_later a b (x ++ y) f (cut_block-append (b ∷ x) y s))
]

-- What is left after a cut is shorter.
pub length-cut_block :
    (x : Bytes) {block rest : Bytes} → cut_block x ≡ some (block, rest) → length rest < length x
unfolding cut_block
length-cut_block [] e = cc
length-cut_block (a ∷ []) e = cc
length-cut_block (a ∷ b ∷ x) {block} {rest} e = elim (cut_cases a b x e) [
  | here t is_block is_rest ↦ omega (arith, ap length is_rest)
  | later tail f s is_block ↦ omega (arith, length-cut_block (b ∷ x) s)
]

-- A cut loses nothing.
pub cut_block_parts :
    (x : Bytes) {block rest : Bytes} → cut_block x ≡ some (block, rest) → x ≡ block ++ rest
unfolding cut_block
cut_block_parts [] e = cc
cut_block_parts (a ∷ []) e = cc
cut_block_parts (a ∷ b ∷ x) {block} {rest} e = elim (cut_cases a b x e) [
  | here t is_block is_rest ↦ rw (is_block, is_rest) refl
  | later tail f s is_block ↦ rw (is_block) (ap (λ l. a ∷ l) (cut_block_parts (b ∷ x) s))
]

-- ===== src/Keys/Ber/Length.antt =====
-- `emit` and `read_len` of runtime/src/keys/ber.rs: a length that is written is the length that is read.
use native.Mathlib.Numerals.{towards_suc}
use enclave_runtime.Prelude.{
  ℕ, zero, suc, ◌+◌, ◌-◌, ◌*◌, ◌/◌, ◌%◌, ◌^◌, ◌≤◌, ◌<◌, ◌≡◌, refl, ap, ◌∙◌, inl, inr, true, false,
  some, [], ◌∷◌, ◌++◌, Bytes, arith, ltb, leb, length, length-append, take, drop, take-append,
  drop-append, nat_eq, ◌==◌, Bool-cases,
}
use enclave_runtime.Prelude.Result.{ok}
use enclave_runtime.Prelude.Words.{be_bytes, be_value, be_onto, be_value-be_bytes}
use enclave_runtime.Keys.Ber.{
  read_len, read_long, strip_zeros, significant, emit_len, emit, to_der, transcode, transcode_value,
  primitive, is_high_tag, is_constructed,
}

be_onto-strip_zeros : (bs : Bytes) → be_onto 0 (strip_zeros bs) ≡ be_onto 0 bs
unfolding strip_zeros be_onto
be_onto-strip_zeros [] = refl
be_onto-strip_zeros (b ∷ bs) = elim (Bool-cases (b == 0)) [
  | inl t ↦
      let z : b ≡ 0 = ground (arith, t) in
      let e : 0 * 256 + b ≡ 0 = omega (arith, z) in rw (t, strip_zeros, e) (be_onto-strip_zeros bs)
  | inr f ↦ rw (f, strip_zeros) refl
]

strip_zeros-append :
    (xs : Bytes) (b : ℕ) → length (strip_zeros (xs ++ (b ∷ []))) ≤ length (strip_zeros xs) + 1
unfolding strip_zeros
strip_zeros-append [] b = ground arith
strip_zeros-append (x ∷ xs) b = ground (arith, strip_zeros-append xs b, length-append xs (b ∷ []))

strip_zeros-after :
    (xs : Bytes) (b : ℕ) → b ≡ 0 → strip_zeros xs ≡ [] → strip_zeros (xs ++ (b ∷ [])) ≡ []
unfolding strip_zeros
strip_zeros-after [] b z e = ground (arith, z)
strip_zeros-after (x ∷ xs) b z e = elim (Bool-cases (x == 0)) [
  | inl t ↦ rw (t, strip_zeros) (strip_zeros-after xs b z (rw (t, strip_zeros) at e))
  | inr f ↦ cc (rw (f, strip_zeros) at e)
]

strip_zeros-zero : (w : ℕ) → strip_zeros (be_bytes w 0) ≡ []
unfolding be_bytes strip_zeros
strip_zeros-zero zero = refl
strip_zeros-zero (suc w) = strip_zeros-after (be_bytes w 0) 0 refl (strip_zeros-zero w)

-- A number below 256^k has at most k bytes that count.
strip_zeros-be_bytes : (w k v : ℕ) → v < 256 ^ k → length (strip_zeros (be_bytes w v)) ≤ k
unfolding be_bytes strip_zeros
strip_zeros-be_bytes zero k v h = omega arith
strip_zeros-be_bytes (suc w) zero v h =
    let none_left : v ≡ 0 = omega (arith, h) in
    rw none_left (omega (arith, ap (λ bs. length bs) (strip_zeros-zero (suc w))))
strip_zeros-be_bytes (suc w) (suc k) v h =
    let e : 256 ^ (k + 1) ≡ 256 * 256 ^ k = simp towards_suc (omega arith) in
    omega (
      arith,
      strip_zeros-append (be_bytes w (v / 256)) (v % 256),
      strip_zeros-be_bytes w k (v / 256) (omega (arith, e, h)),
    )

-- The bytes of a long length: one to four of them, worth the length.
length-significant :
    (v : ℕ) → v < 2 ^ 32 → (length (significant v) ≤ 4) × (1 ≤ length (significant v))
unfolding significant
length-significant v h =
    go (strip_zeros (be_bytes 8 v)) (strip_zeros-be_bytes 8 4 v (omega (arith, h)))
  where
    go :
        (bs : Bytes)
        → length bs ≤ 4
        → (length (elim bs as (λ b. Bytes) [ [] ↦ 0 ∷ [] | b ∷ r ↦ b ∷ r ]) ≤ 4)
          × (1 ≤ length (elim bs as (λ b. Bytes) [ [] ↦ 0 ∷ [] | b ∷ r ↦ b ∷ r ]))
    go [] le = (omega arith, omega arith)
    go (b ∷ r) le = (le, omega arith)

be_value-significant : (v : ℕ) → v < 2 ^ 32 → be_value (significant v) ≡ v
unfolding significant be_value
be_value-significant v h =
    go (strip_zeros (be_bytes 8 v)) (be_onto-strip_zeros (be_bytes 8 v))
    ∙ unfold be_value in be_value-be_bytes 8 v (omega (arith, h))
  where
    go :
        (bs : Bytes)
        → be_onto 0 bs ≡ be_onto 0 (be_bytes 8 v)
        → be_onto 0 (elim bs as (λ b. Bytes) [ [] ↦ 0 ∷ [] | b ∷ r ↦ b ∷ r ])
          ≡ be_onto 0 (be_bytes 8 v)
    go [] e = unfold be_onto in e
    go (b ∷ r) e = e

read_long-significant :
    (v : ℕ) (content : Bytes)
    → v < 2 ^ 32
    → read_long (length (significant v)) (significant v ++ content) ≡ ok (some v, content)
unfolding read_long
read_long-significant v content h =
    let (small, some_left) = length-significant v h in
    let fits : leb (length (significant v)) 4 ≡ true = ground (arith, small) in
    let inside : leb (length (significant v)) (length (significant v ++ content)) ≡ true =
      ground (arith, length-append (significant v) content) in
    rw
      (
        fits,
        inside,
        take-append (significant v) content,
        drop-append (significant v) content,
        be_value-significant v h,
      )
      refl

-- The length that `emit` writes before some content reads back as the content's, with the content after
-- it, where the content is shorter than 2^32 bytes.
pub read_len-emit_len :
    (content : Bytes)
    → length content < 2 ^ 32
    → read_len (emit_len (length content) ++ content) ≡ ok (some (length content), content)
unfolding read_len emit_len
read_len-emit_len content h = elim (Bool-cases (ltb (length content) 128)) [
  | inl t ↦
      let short : (length content == 128) ≡ false = ground (arith, t) in
      rw (t, emit_len, short, read_len, t) refl
  | inr f ↦
      let (small, some_left) = length-significant (length content) h in
      let n = length (significant (length content)) in
      let definite : (128 + n == 128) ≡ false = ground (arith, some_left) in
      let long : ltb (128 + n) 128 ≡ false = ground arith in
      let same : (128 + n) - 128 ≡ n = omega arith in
      rw (f, emit_len, definite, long, same) (read_long-significant (length content) content h)
]

take_all : (b : Bytes) → take (length b) b ≡ b
take_all [] = refl
take_all (x ∷ b) = ap (λ r. x ∷ r) (take_all b)

drop_all : (b : Bytes) → drop (length b) b ≡ []
drop_all [] = refl
drop_all (x ∷ b) = drop_all b

-- A primitive value in DER is read as it is: `to_der` returns what `emit` writes for a tag that is neither
-- constructed nor high and for content shorter than 2^32 bytes.
pub to_der-emit :
    (id : ℕ) (content : Bytes)
    → is_high_tag id ≡ false
    → is_constructed id ≡ false
    → length content < 2 ^ 32
    → to_der (emit id content) ≡ ok (emit id content)
unfolding to_der transcode transcode_value emit primitive
to_der-emit id content low plain h =
    let whole : leb (length content) (length content) ≡ true = ground arith in
    rw
      (
        low,
        to_der,
        transcode,
        transcode_value,
        read_len-emit_len content h,
        plain,
        primitive,
        whole,
        take_all content,
        drop_all content,
      )
      refl

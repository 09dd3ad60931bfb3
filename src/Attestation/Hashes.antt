-- ===== src/Attestation/Hashes.antt =====
-- `AttestationHashes` of crates/nitro-attestation/src/lib.rs: its layout, written and read back.
use mathlib.Core.List.{append-nil}
use enclave_runtime.Prelude.{
  zero, suc, take-append-drop, ℕ, ◌+◌, ◌≡◌, refl, ap, ◌∙◌, sym, not, ◌||◌, [], ◌∷◌, ◌++◌, Bytes,
  length, take, drop, ◌==◌, nat_eq, bytes_eq, if◌then◌else◌, arith, length-append, take-append,
  drop-append, length-take, length-drop, bytes_beq_iff,
}
use enclave_runtime.Prelude.Result.{Result, ok, err}

pub record AttestationHashes : Type 0 where
  pub tls_certificate : Bytes
  pub guest : Bytes

abbrev multihash_sha256 : Bytes
multihash_sha256 = 18 ∷ 32 ∷ []

abbrev pub attestation_hashes_len : ℕ
attestation_hashes_len = 68

pub data HashesError : Type 0 where
  wrong_length bad_prefix : HashesError

-- AttestationHashes::new
unfoldable pub new : (Bytes → Bytes) → Bytes → Bytes → AttestationHashes
new sha256 tls_certificate_der guest_component = record {
  tls_certificate = sha256 tls_certificate_der;
  guest = sha256 guest_component;
}

-- AttestationHashes::serialize
unfoldable pub serialize : AttestationHashes → Bytes
serialize h = multihash_sha256 ++ (h.tls_certificate ++ (multihash_sha256 ++ h.guest))

-- `&bytes[from..to]`, where the range is in bounds.
abbrev slice : ℕ → ℕ → Bytes → Bytes
slice from count bs = take count (drop from bs)

-- AttestationHashes::parse
unfoldable pub parse : Bytes → Result HashesError AttestationHashes
parse bs =
    if not (length bs == attestation_hashes_len)
    then err wrong_length
    else if not (slice 0 2 bs == multihash_sha256) || not (slice 34 2 bs == multihash_sha256)
    then err bad_prefix
    else ok (record { tls_certificate = slice 2 32 bs; guest = slice 36 32 bs })

-- Two hashes of 32 bytes each.
pub record IsSized (h : AttestationHashes) : Type 0 where
  pub tls : length h.tls_certificate ≡ 32
  pub guest : length h.guest ≡ 32

length-serialize : (h : AttestationHashes) → IsSized h → length (serialize h) ≡ 68
unfolding serialize
length-serialize h s =
    omega (arith, length-append h.tls_certificate (multihash_sha256 ++ h.guest), s.tls, s.guest)

-- Dropping past the front of an append.
drop_past : (n : ℕ) (xs ys : Bytes) → length xs ≡ n → drop n (xs ++ ys) ≡ ys
drop_past n xs ys e = ap (λ k. drop k (xs ++ ys)) (sym e) ∙ drop-append xs ys

take_front : (n : ℕ) (xs ys : Bytes) → length xs ≡ n → take n (xs ++ ys) ≡ xs
take_front n xs ys e = ap (λ k. take k (xs ++ ys)) (sym e) ∙ take-append xs ys

take_all : (n : ℕ) (xs : Bytes) → length xs ≡ n → take n xs ≡ xs
take_all n xs e = ap (take n) (sym (append-nil xs)) ∙ take_front n xs [] e

drop-nil : (n : ℕ) → drop {A = ℕ} n [] ≡ []
drop-nil zero = refl
drop-nil (suc n) = refl

drop-drop : (m n : ℕ) (xs : Bytes) → drop m (drop n xs) ≡ drop (n + m) xs
drop-drop m zero xs = ap (λ k. drop k xs) (omega arith)
drop-drop m (suc n) [] = drop-nil m ∙ sym (drop-nil (suc n + m))
drop-drop m (suc n) (x ∷ xs) =
    let e : suc (n + m) ≡ suc n + m = omega arith in drop-drop m n xs ∙ ap (λ k. drop k (x ∷ xs)) e

slice-next : (k n : ℕ) (xs : Bytes) → slice k n xs ++ drop (k + n) xs ≡ drop k xs
slice-next k n xs =
    ap (λ t. slice k n xs ++ t) (sym (drop-drop n k xs)) ∙ take-append-drop n (drop k xs)

-- Two prefixed hashes of 32 bytes are read back as they were written.
pub parse-serialize : (h : AttestationHashes) → IsSized h → parse (serialize h) ≡ ok h
unfolding parse
parse-serialize h s =
    rw (length-serialize h s) (unfold serialize in rw (front, guest_part, tls_part) refl)
  where
    tail : Bytes
    tail = multihash_sha256 ++ h.guest

    front : slice 32 2 (h.tls_certificate ++ tail) ≡ multihash_sha256
    front = ap (take 2) (drop_past 32 h.tls_certificate tail s.tls)

    tls_part : take 32 (h.tls_certificate ++ tail) ≡ h.tls_certificate
    tls_part = take_front 32 h.tls_certificate tail s.tls

    guest_part : slice 34 32 (h.tls_certificate ++ tail) ≡ h.guest
    guest_part =
        ap (take 32) (
          sym (drop-drop 2 32 (h.tls_certificate ++ tail))
          ∙ ap (drop 2) (drop_past 32 h.tls_certificate tail s.tls))
        ∙ take_all 32 h.guest s.guest

parse-ok :
    (bs : Bytes) (h : AttestationHashes)
    → parse bs ≡ ok h
    → (length bs ≡ 68)
      × (slice 0 2 bs ≡ multihash_sha256)
      × (slice 34 2 bs ≡ multihash_sha256)
      × (h.tls_certificate ≡ slice 2 32 bs)
      × (h.guest ≡ slice 36 32 bs)
unfolding parse
parse-ok bs h e = ground (
  arith,
  bytes_beq_iff (slice 0 2 bs) multihash_sha256,
  bytes_beq_iff (slice 34 2 bs) multihash_sha256,
)

slice-last : (bs : Bytes) → length bs ≡ 68 → slice 36 32 bs ≡ drop 36 bs
slice-last bs e = take_all 32 (drop 36 bs) (omega (arith, length-drop 36 bs))

-- What is accepted is exactly the layout of its two hashes, each of 32 bytes.
pub serialize-parse :
    (bs : Bytes) (h : AttestationHashes) → parse bs ≡ ok h → (serialize h ≡ bs) × IsSized h
unfolding serialize
serialize-parse bs h e =
    let (len, front, middle, tls, guest) = parse-ok bs h e in
    (
      cc (
        front,
        middle,
        tls,
        guest,
        slice-last bs len,
        slice-next 34 2 bs,
        slice-next 2 32 bs,
        slice-next 0 2 bs,
      ),
      record {
        tls = rw tls (omega (arith, length-take 32 (drop 2 bs), length-drop 2 bs));
        guest = rw guest (omega (arith, length-take 32 (drop 36 bs), length-drop 36 bs));
      },
    )

-- ===== src/Attestation/Expect.antt =====
-- `Expectations` and `Verified::expect` of crates/nitro-attestation/src/lib.rs.
use enclave_runtime.Prelude.{
  ℕ, ◌+◌, ◌-◌, ◌≤◌, ◌≡◌, refl, ap, ◌∙◌, not, Option, none, some, [], ◌∷◌, Bytes, ltb, ◌==◌,
  bytes_eq, nat_eq, arith, bytes_beq_iff, bytes_beq_refl, ◌↔◌,
}
use enclave_runtime.Prelude.Map.{Map, get, insert}
use enclave_runtime.Prelude.Result.{
  Result, ok, err, ok_or, ensure, ◌>>=◌, ◌>>◌, ok_or-then, ensure-then, >>=-eq-ok,
}
use enclave_runtime.Attestation.Types.{
  Verified, Expectations, AttestError, missing_pcr, wrong_pcr, missing_nonce, wrong_nonce,
  missing_user_data, wrong_user_data, too_old,
}

-- Expectations::default, and its builders.
abbrev pub no_expectations : Expectations
no_expectations = record { pcrs = []; nonce = none; user_data = none; max_age = none }

unfoldable pub with_pcr : ℕ → Bytes → Expectations → Expectations
with_pcr index value ex = record ex { pcrs = insert index value ex.pcrs }

unfoldable pub with_pcr0 : Bytes → Expectations → Expectations
unfolding with_pcr
with_pcr0 value = with_pcr 0 value

unfoldable pub with_user_data : Bytes → Expectations → Expectations
with_user_data value ex = record ex { user_data = some value }

unfoldable pub with_nonce : Bytes → Expectations → Expectations
with_nonce value ex = record ex { nonce = some value }

-- The loop over the registers.
unfoldable pub check_pcrs : Map ℕ Bytes → Map ℕ Bytes → Result AttestError (Unit {0})
check_pcrs pcrs [] = ok tt
check_pcrs pcrs ((index, want) ∷ rest) = do
  got ← ok_or (get index pcrs) missing_pcr
  ensure (got == want) wrong_pcr
  check_pcrs pcrs rest

-- An optional field of the document against an optional expectation of it.
unfoldable pub check_field :
    AttestError → AttestError → Option Bytes → Option Bytes → Result AttestError (Unit {0})
check_field missing wrong none found = ok tt
check_field missing wrong (some want) none = err missing
check_field missing wrong (some want) (some got) = ensure (got == want) wrong

-- The time between two instants, whichever is first.
abbrev pub distance : ℕ → ℕ → ℕ
distance a b = (a - b) + (b - a)

unfoldable pub check_age : Option ℕ → ℕ → ℕ → Result AttestError (Unit {0})
check_age none stamped now = ok tt
check_age (some max_age) stamped now = ensure (not (ltb max_age (distance now stamped))) too_old

-- Verified::expect
unfoldable pub expect : Verified → Expectations → ℕ → Result AttestError (Unit {0})
unfolding check_pcrs check_field check_age
expect v ex now = do
  check_pcrs v.document.pcrs ex.pcrs
  check_field missing_nonce wrong_nonce ex.nonce v.document.nonce
  check_field missing_user_data wrong_user_data ex.user_data v.document.user_data
  check_age ex.max_age v.document.timestamp_ms now

-- What a document must say, read off the expectations.
abbrev pub HoldsPcrs : Map ℕ Bytes → Map ℕ Bytes → Type 0
HoldsPcrs pcrs [] = Unit
HoldsPcrs pcrs ((index, want) ∷ rest) = (get index pcrs ≡ some want) × HoldsPcrs pcrs rest

abbrev pub SaysField : Option Bytes → Option Bytes → Type 0
SaysField none found = Unit
SaysField (some want) found = found ≡ some want

abbrev pub IsRecent : Option ℕ → ℕ → ℕ → Type 0
IsRecent none stamped now = Unit
IsRecent (some max_age) stamped now = (now ≤ stamped + max_age) × (stamped ≤ now + max_age)

abbrev pub Says : Verified → Expectations → ℕ → Type 0
Says v ex now =
    HoldsPcrs v.document.pcrs ex.pcrs
    × SaysField ex.nonce v.document.nonce
    × SaysField ex.user_data v.document.user_data
    × IsRecent ex.max_age v.document.timestamp_ms now

check_pcrs_sound : (pcrs want : Map ℕ Bytes) → check_pcrs pcrs want ≡ ok tt → HoldsPcrs pcrs want
unfolding check_pcrs
check_pcrs_sound pcrs [] h = tt
check_pcrs_sound pcrs ((index, want) ∷ rest) h =
    let (got, found, h₁) = ok_or-then (get index pcrs) _ _ h in
    let (same, h₂) = ensure-then (got == want) _ _ h₁ in
    (found ∙ ap some ((bytes_beq_iff got want).0 same), check_pcrs_sound pcrs rest h₂)

check_pcrs_complete : (pcrs want : Map ℕ Bytes) → HoldsPcrs pcrs want → check_pcrs pcrs want ≡ ok tt
unfolding check_pcrs
check_pcrs_complete pcrs [] h = refl
check_pcrs_complete pcrs ((index, want) ∷ rest) h =
    rw (h.0, bytes_beq_refl want) (check_pcrs_complete pcrs rest h.1)

check_field_iff :
    (missing wrong : AttestError) (want found : Option Bytes)
    → (check_field missing wrong want found ≡ ok tt) ↔ SaysField want found
unfolding check_field
check_field_iff missing wrong none found = (λ _. tt, λ _. refl)
check_field_iff missing wrong (some want) none = (λ h. cc, λ h. cc)
check_field_iff missing wrong (some want) (some got) =
    (λ h. ground (arith, bytes_beq_iff got want), λ h. ground (arith, bytes_beq_iff got want))

check_age_iff :
    (max_age : Option ℕ) (stamped now : ℕ)
    → (check_age max_age stamped now ≡ ok tt) ↔ IsRecent max_age stamped now
unfolding check_age
check_age_iff none stamped now = (λ _. tt, λ _. refl)
check_age_iff (some max_age) stamped now = (λ h. ground arith, λ h. ground arith)

-- `expect` succeeds exactly when the document says everything that is expected of it: each register
-- named holds the value given, the nonce and the user data are those given, and the document's own
-- time is no further from `now`, before or after, than the greatest age.
pub expect_iff :
    (v : Verified) (ex : Expectations) (now : ℕ) → (expect v ex now ≡ ok tt) ↔ Says v ex now
unfolding expect
expect_iff v ex now = (sound, complete)
  where
    sound : expect v ex now ≡ ok tt → Says v ex now
    sound h =
        let (u, pcrs, h₁) = >>=-eq-ok (check_pcrs v.document.pcrs ex.pcrs) _ h in
        let (u', nonce, h₂) = >>=-eq-ok (check_field _ _ ex.nonce v.document.nonce) _ h₁ in
        let (u'', data_ok, h₃) =
          >>=-eq-ok (check_field _ _ ex.user_data v.document.user_data) _ h₂ in
        (
          check_pcrs_sound _ ex.pcrs pcrs,
          (check_field_iff missing_nonce wrong_nonce ex.nonce v.document.nonce).0 nonce,
          (check_field_iff missing_user_data wrong_user_data ex.user_data v.document.user_data).0
              data_ok,
          (check_age_iff ex.max_age v.document.timestamp_ms now).0 h₃,
        )

    complete : Says v ex now → expect v ex now ≡ ok tt
    complete s =
        rw
          (
            check_pcrs_complete v.document.pcrs ex.pcrs s.0,
            (check_field_iff missing_nonce wrong_nonce ex.nonce v.document.nonce).1 s.1,
            (check_field_iff missing_user_data wrong_user_data ex.user_data v.document.user_data).1
                s.2,
          )
          ((check_age_iff ex.max_age v.document.timestamp_ms now).1 s.3)

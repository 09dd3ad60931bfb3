-- ===== src/Attestation/Chain.antt =====
-- `verify`, `verify_chain` and `verify_certificate_signature` of crates/nitro-attestation/src/lib.rs.
use enclave_runtime.Prelude.{
  ℕ, ◌/◌, Bool, true, false, Option, none, some, List, [], ◌∷◌, ◌++◌, Bytes, if◌then◌else◌,
  bytes_eq, ascii, nat_eq, ◌==◌,
}
use enclave_runtime.Prelude.Result.{Result, ok, err, ok_or, ensure, ◌>>=◌, ◌>>◌}
use enclave_runtime.Attestation.Types.{
  AttestationDocument, AttestError, bad_cose, no_payload, empty_cabundle, bad_trust_root,
  untrusted_root, bad_certificate, bad_time, outside_validity, not_a_ca, wrong_issuer,
  unsupported_algorithm, bad_certificate_signature, bad_signature, Trust, chain_verified,
  self_signed, Verified, VerifyOptions, Algorithm, ecdsa_p384_sha384_asn1, ecdsa_p256_sha256_asn1,
  Crypto,
}
use enclave_runtime.Attestation.Payload.{decode_payload}

abbrev pub is_last {ℓ} : {A : Type ℓ} → List A → Bool
is_last [] = true
is_last (x ∷ xs) = false

-- The algorithms of `verify_certificate_signature`, by their object identifiers.
unfoldable pub algorithm_of : Bytes → Option Algorithm
algorithm_of oid =
    if oid == ascii "1.2.840.10045.4.3.3"
    then some ecdsa_p384_sha384_asn1
    else if oid == ascii "1.2.840.10045.4.3.2"
    then some ecdsa_p256_sha256_asn1
    else none

module _ (crypto : Crypto) where
  open crypto use {
    Certificate, from_der, asn1_time, is_valid_at, is_ca, issuer, subject, public_key,
    algorithm_oid, tbs_certificate, signature_value, verify_ecdsa,
  }

  unfoldable pub verify_certificate_signature :
      Certificate → Certificate → Result AttestError (Unit {0})
  unfolding algorithm_of
  verify_certificate_signature cert by = do
    algorithm ← ok_or (algorithm_of (algorithm_oid cert)) unsupported_algorithm
    ensure (verify_ecdsa algorithm (public_key by) (tbs_certificate cert) (signature_value cert))
        bad_certificate_signature

  -- The checks against the certificate before; the first of the chain has none.
  unfoldable pub check_issuer : Option Bytes → Certificate → Result AttestError (Unit {0})
  unfolding verify_certificate_signature
  check_issuer none cert = ok tt
  check_issuer (some above) cert = do
    by ← ok_or (from_der above) bad_certificate
    ensure (issuer cert == subject by) wrong_issuer
    verify_certificate_signature cert by

  -- One round of the loop of `verify_chain`.
  unfoldable pub check_certificate : ℕ → Option Bytes → Bytes → Bool → Result AttestError (Unit {0})
  unfolding check_issuer
  check_certificate now above der is_leaf = do
    cert ← ok_or (from_der der) bad_certificate
    at ← ok_or (asn1_time (now / 1000)) bad_time
    ensure (is_valid_at cert at) outside_validity
    ensure (if is_leaf then true else is_ca cert) not_a_ca
    check_issuer above cert

  -- The loop, over what is left of the chain.
  unfoldable pub check_chain : ℕ → Option Bytes → List Bytes → Result AttestError (Unit {0})
  unfolding check_certificate
  check_chain now above [] = ok tt
  check_chain now above (der ∷ rest) = do
    check_certificate now above der (is_last rest)
    check_chain now (some der) rest

  -- The trust that the presented root earns.
  unfoldable pub root_trust : VerifyOptions → List Bytes → Result AttestError Trust
  root_trust options [] = err empty_cabundle
  root_trust options (presented ∷ rest) = do
    expected ← ok_or (crypto.decode_certificate options.trust_root) bad_trust_root
    (if presented == expected
        then ok chain_verified
        else if options.allow_untrusted_root
        then ok self_signed
        else err untrusted_root)

  unfoldable pub verify_chain : AttestationDocument → VerifyOptions → Result AttestError Trust
  unfolding root_trust check_chain
  verify_chain document options = do
    trust ← root_trust options document.cabundle
    check_chain options.now none (document.cabundle ++ document.certificate ∷ [])
    ok trust

  unfoldable pub verify : Bytes → VerifyOptions → Result AttestError Verified
  unfolding verify_chain decode_payload
  verify cose options = do
    sign1 ← ok_or (crypto.parse_sign1 cose) bad_cose
    payload ← ok_or (crypto.payload sign1) no_payload
    document ← decode_payload crypto payload
    trust ← verify_chain document options
    leaf ← ok_or (from_der document.certificate) bad_certificate
    ensure (crypto.verify_signature sign1 (public_key leaf)) bad_signature
    ok (record { document = document; trust = trust })

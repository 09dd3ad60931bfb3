-- ===== src/Attestation/Sound.antt =====
-- `verify` of crates/nitro-attestation/src/lib.rs.
-- What stands behind a document that `verify` accepts: an unbroken chain from its root to the key that
-- signed it.
use mathlib.Core.Path.{subst}
use enclave_runtime.Prelude.{
  ◌∙◌, sym, ap, ℕ, ◌/◌, ◌≡◌, refl, Bool, true, false, Option, none, some, List, [], ◌∷◌, ◌++◌,
  Bytes, if◌then◌else◌, bytes_eq, nat_eq, ◌==◌, ◌⊎◌, inl, inr, arith, bytes_beq_iff,
}
use enclave_runtime.Prelude.Result.{ok, ok_or-then, ensure-then, ensure-ok, ok_injective, >>=-eq-ok}
use enclave_runtime.Attestation.Types.{
  AttestationDocument, Trust, chain_verified, Verified, VerifyOptions, Algorithm, Crypto,
}
use enclave_runtime.Attestation.Payload.{decode_payload}
use enclave_runtime.Attestation.Chain.{
  is_last, algorithm_of, check_issuer, check_certificate, check_chain, root_trust, verify_chain,
  verify,
}

leaf_or_ca :
    (is_leaf ca : Bool) → (if is_leaf then true else ca) ≡ true → (is_leaf ≡ true) ⊎ (ca ≡ true)
leaf_or_ca true ca h = inl refl
leaf_or_ca false ca h = inr h

module _ (crypto : Crypto) where
  open crypto use {
    Certificate, from_der, asn1_time, is_valid_at, is_ca, issuer, subject, public_key,
    algorithm_oid, tbs_certificate, signature_value, verify_ecdsa,
  }

  -- What stands behind a chain: each certificate is read, is valid at the time, may issue if another
  -- stands below it, and is signed by the one above it, whose name it gives.
  pub record Signs (above der : Bytes) : Type 0 where
    pub cert : Certificate
    pub by : Certificate
    pub algorithm : Algorithm
    pub read : from_der der ≡ some cert
    pub read_above : from_der above ≡ some by
    pub named : issuer cert ≡ subject by
    pub chosen : algorithm_of (algorithm_oid cert) ≡ some algorithm
    pub signed :
        verify_ecdsa algorithm (public_key by) (tbs_certificate cert) (signature_value cert) ≡ true

  pub record Stands (now : ℕ) (der : Bytes) (is_leaf : Bool) : Type 0 where
    pub cert : Certificate
    pub at : ℕ
    pub read : from_der der ≡ some cert
    pub time : asn1_time (now / 1000) ≡ some at
    pub valid : is_valid_at cert at ≡ true
    pub may_issue : (is_leaf ≡ true) ⊎ (is_ca cert ≡ true)

  -- From the certificate `above` down to the last one.
  pub data Linked (now : ℕ) : Bytes → List Bytes → Type 0 where
    leaf : {above : Bytes} → Linked now above []
    link :
        {above der : Bytes} {rest : List Bytes}
        → Stands now der (is_last rest)
        → Signs above der
        → Linked now der rest
        → Linked now above (der ∷ rest)

  pub data IsChain (now : ℕ) : List Bytes → Type 0 where
    from_root :
        {root : Bytes} {rest : List Bytes}
        → Stands now root (is_last rest)
        → Linked now root rest
        → IsChain now (root ∷ rest)

  check_certificate-Stands :
      (now : ℕ) (above : Option Bytes) (der : Bytes) (is_leaf : Bool)
      → check_certificate crypto now above der is_leaf ≡ ok tt
      → Stands now der is_leaf
  unfolding check_certificate
  check_certificate-Stands now above der is_leaf h =
      let (cert, read, h₁) = ok_or-then (from_der der) _ _ h in
      let (at, time, h₂) = ok_or-then (asn1_time (now / 1000)) _ _ h₁ in
      let (valid, h₃) = ensure-then (is_valid_at cert at) _ _ h₂ in
      let (ca, h₄) = ensure-then (if is_leaf then true else is_ca cert) _ _ h₃ in
      record {
        cert = cert;
        at = at;
        read = read;
        time = time;
        valid = valid;
        may_issue = leaf_or_ca is_leaf (is_ca cert) ca;
      }

  check_issuer-Signs :
      (above der : Bytes) (cert : Certificate)
      → from_der der ≡ some cert
      → check_issuer crypto (some above) cert ≡ ok tt
      → Signs above der
  unfolding check_issuer
  check_issuer-Signs above der cert read h =
      let (by, read_above, h₁) = ok_or-then (from_der above) _ _ h in
      let (named, h₂) = ensure-then (issuer cert == subject by) _ _ h₁ in
      let (algorithm, chosen, h₃) = ok_or-then (algorithm_of (algorithm_oid cert)) _ _ h₂ in
      record {
        cert = cert;
        by = by;
        algorithm = algorithm;
        read = read;
        read_above = read_above;
        named = (bytes_beq_iff (issuer cert) (subject by)).0 named;
        chosen = chosen;
        signed = ensure-ok _ _ h₃;
      }

  check_certificate-Signs :
      (now : ℕ) (above der : Bytes) (is_leaf : Bool)
      → check_certificate crypto now (some above) der is_leaf ≡ ok tt
      → Signs above der
  unfolding check_certificate
  check_certificate-Signs now above der is_leaf h =
      let (cert, read, h₁) = ok_or-then (from_der der) _ _ h in
      let (at, time, h₂) = ok_or-then (asn1_time (now / 1000)) _ _ h₁ in
      let (valid, h₃) = ensure-then (is_valid_at cert at) _ _ h₂ in
      let (ca, h₄) = ensure-then (if is_leaf then true else is_ca cert) _ _ h₃ in
      check_issuer-Signs above der cert read h₄

  check_chain-Linked :
      (now : ℕ) (above : Bytes) (chain : List Bytes)
      → check_chain crypto now (some above) chain ≡ ok tt
      → Linked now above chain
  unfolding check_chain
  check_chain-Linked now above [] h = leaf
  check_chain-Linked now above (der ∷ rest) h =
      let (u, first, h') =
        >>=-eq-ok (check_certificate crypto now (some above) der (is_last rest)) _ h in
      link (check_certificate-Stands now (some above) der (is_last rest) first)
        (check_certificate-Signs now above der (is_last rest) first)
        (check_chain-Linked now der rest h')

  check_chain-IsChain :
      (now : ℕ) (root : Bytes) (rest : List Bytes)
      → check_chain crypto now none (root ∷ rest) ≡ ok tt
      → IsChain now (root ∷ rest)
  unfolding check_chain
  check_chain-IsChain now root rest h =
      let (u, first, h') = >>=-eq-ok (check_certificate crypto now none root (is_last rest)) _ h in
      from_root (check_certificate-Stands now none root (is_last rest) first)
        (check_chain-Linked now root rest h')

  -- What `verify` has established of a document that it returns.
  pub record Authentic (cose : Bytes) (options : VerifyOptions) (v : Verified) : Type 0 where
    pub sign1 : crypto.Sign1
    pub payload : Bytes
    pub leaf_certificate : Certificate
    pub parsed : crypto.parse_sign1 cose ≡ some sign1
    pub carried : crypto.payload sign1 ≡ some payload
    pub decoded : decode_payload crypto payload ≡ ok v.document
    pub chained : IsChain options.now (v.document.cabundle ++ v.document.certificate ∷ [])
    pub leaf_read : from_der v.document.certificate ≡ some leaf_certificate
    pub signed : crypto.verify_signature sign1 (public_key leaf_certificate) ≡ true
    pub trusted : root_trust crypto options v.document.cabundle ≡ ok v.trust

  verify_chain-IsChain :
      (document : AttestationDocument) (options : VerifyOptions) (trust : Trust)
      → verify_chain crypto document options ≡ ok trust
      → IsChain options.now (document.cabundle ++ document.certificate ∷ [])
        × (root_trust crypto options document.cabundle ≡ ok trust)
  unfolding verify_chain
  verify_chain-IsChain document options trust h =
      let (t, root, h₁) = >>=-eq-ok (root_trust crypto options document.cabundle) _ h in
      let (u, chain, h₂) =
        >>=-eq-ok
          (check_chain crypto options.now none (document.cabundle ++ document.certificate ∷ [])) _
          h₁ in
      (whole document.cabundle root chain, root ∙ h₂)
    where
      whole :
          {t : Trust} {u : Unit {0}} (bundle : List Bytes)
          → root_trust crypto options bundle ≡ ok t
          → check_chain crypto options.now none (bundle ++ document.certificate ∷ []) ≡ ok u
          → IsChain options.now (bundle ++ document.certificate ∷ [])
      whole [] r c = unfold root_trust in cc
      whole (der ∷ rest) r c =
          check_chain-IsChain options.now der (rest ++ document.certificate ∷ []) c

  -- Whatever `verify` accepts was signed by the key of its own leaf certificate, which a chain of
  -- certificates, each valid at the given time and each signed by the one before, joins to the first
  -- certificate of the document's bundle; and the trust that is returned is what that one earned.
  pub verify-Authentic :
      (cose : Bytes) (options : VerifyOptions) (v : Verified)
      → verify crypto cose options ≡ ok v
      → Authentic cose options v
  unfolding verify
  verify-Authentic cose options v h =
      let (sign1, parsed, h₁) = ok_or-then (crypto.parse_sign1 cose) _ _ h in
      let (payload, carried, h₂) = ok_or-then (crypto.payload sign1) _ _ h₁ in
      let (document, decoded, h₃) = >>=-eq-ok (decode_payload crypto payload) _ h₂ in
      let (trust, chain, h₄) = >>=-eq-ok (verify_chain crypto document options) _ h₃ in
      let (leaf_certificate, leaf_read, h₅) = ok_or-then (from_der document.certificate) _ _ h₄ in
      let (signed, h₆) =
        ensure-then (crypto.verify_signature sign1 (public_key leaf_certificate)) _ _ h₅ in
      let standing = verify_chain-IsChain document options trust chain in
      subst (Authentic cose options) (ok_injective h₆) (record {
        sign1 = sign1;
        payload = payload;
        leaf_certificate = leaf_certificate;
        parsed = parsed;
        carried = carried;
        decoded = decoded;
        chained = standing.0;
        leaf_read = leaf_read;
        signed = signed;
        trusted = standing.1;
      })

  root_trust-chain_verified :
      (options : VerifyOptions) (bundle : List Bytes)
      → root_trust crypto options bundle ≡ ok chain_verified
      → (root : Bytes) × (rest : List Bytes) × (bundle ≡ root ∷ rest)
        × (crypto.decode_certificate options.trust_root ≡ some root)
  unfolding root_trust
  root_trust-chain_verified options [] r = cc
  root_trust-chain_verified options (presented ∷ rest) r =
      let (expected, decoded, r₁) =
        ok_or-then (crypto.decode_certificate options.trust_root) _ _ r in
      let same : presented ≡ expected = ground (arith, bytes_beq_iff presented expected) in
      (presented, rest, refl, decoded ∙ ap some (sym same))

  -- A document is called chain-verified only if the first certificate of its bundle is the root that
  -- the caller pinned.
  pub chain_verified-root :
      (cose : Bytes) (options : VerifyOptions) (v : Verified)
      → verify crypto cose options ≡ ok v
      → v.trust ≡ chain_verified
      → (root : Bytes) × (rest : List Bytes) × (v.document.cabundle ≡ root ∷ rest)
        × (crypto.decode_certificate options.trust_root ≡ some root)
  chain_verified-root cose options v h t =
      root_trust-chain_verified options v.document.cabundle
        ((verify-Authentic cose options v h).trusted ∙ ap ok t)

-- ===== src/Boot/Signed.antt =====
-- `verify_as_signed` of runtime/src/boot.rs: documents that are signed under the pinned root.
use mathlib.Core.Path.{subst}
use enclave_runtime.Prelude.{arith, ℕ, ◌≡◌, sym, ap, ◌∙◌, false, Bytes, inl, inr}
use enclave_runtime.Prelude.Result.{ok, Result-cases, ok_injective}
use enclave_runtime.Attestation.Types.{AttestationDocument, Verified, VerifyOptions, chain_verified}
use enclave_runtime.Attestation.Payload.{parse}
use enclave_runtime.Attestation.Chain.{verify}
use enclave_runtime.Attestation.Sound.{Authentic, verify-Authentic}
use enclave_runtime.Boot.Types.{Platform}
use enclave_runtime.Boot.Receipt.{verify_as_signed}

module _ (p : Platform) where
  -- The options of `verify_as_signed` for a document that was signed at this time.
  abbrev pub as_of : ℕ → VerifyOptions
  as_of signed_at = record {
    trust_root = p.aws_root;
    now = signed_at;
    allow_untrusted_root = false;
  }

  -- A document that is signed under the pinned root, as of the time that it states itself.
  pub record SignedByAws (doc : Bytes) (v : Verified) : Type 0 where
    pub authentic : Authentic p.crypto doc (as_of v.document.timestamp_ms) v
    pub chain : v.trust ≡ chain_verified

  -- What `parse` reads of a document is what `verify` does.
  parse-Authentic :
      (doc : Bytes) (options : VerifyOptions) (v : Verified)
      → Authentic p.crypto doc options v
      → parse p.crypto doc ≡ ok v.document
  unfolding parse
  parse-Authentic doc options v a = rw (a.parsed, parse, a.carried) a.decoded

  pub verify_as_signed-SignedByAws :
      (doc : Bytes) (v : Verified) → verify_as_signed p doc p.aws_root ≡ ok v → SignedByAws doc v
  unfolding verify_as_signed
  verify_as_signed-SignedByAws doc v h = elim (Result-cases (parse p.crypto doc)) [
    | inr (x, e) ↦ absurd (ground arith)
    | inl (document, e) ↦ elim (Result-cases (verify p.crypto doc (as_of document.timestamp_ms))) [
      | inr (x, e') ↦ absurd (ground arith)
      | inl (u, e') ↦
          let same : u ≡ v = ground arith in
          let chain : u.trust ≡ chain_verified = ground arith in
          let found =
            verify-Authentic p.crypto doc (as_of document.timestamp_ms) v (e' ∙ ap ok same) in
          let own : document ≡ v.document =
            ok_injective (sym e ∙ parse-Authentic doc (as_of document.timestamp_ms) v found) in
          record {
            authentic =
                subst (λ (d : AttestationDocument). Authentic p.crypto doc (as_of d.timestamp_ms) v)
                  own found;
            chain = sym (ap (λ (z : Verified). z.trust) same) ∙ chain;
          }
    ]
  ]

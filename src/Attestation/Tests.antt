-- ===== src/Attestation/Tests.antt =====
-- Documents of crates/nitro-attestation at concrete inputs, with stand-ins for the third-party code.
use enclave_runtime.Prelude.{
  ◌≡◌, refl, true, false, none, some, List, [], ◌∷◌, Bytes, ascii, replicate, ◌↔◌,
}
use enclave_runtime.Prelude.Map.{insert}
use enclave_runtime.Prelude.Result.{ok}
use enclave_runtime.Attestation.Types.{
  unsigned, bytes, text, array, map, nil, item, Entries, end, entry, AttestationDocument, Verified,
  Expectations, VerifyOptions, Crypto, chain_verified,
}
use enclave_runtime.Attestation.Payload.{decode_fields}
use enclave_runtime.Attestation.Chain.{verify}
use enclave_runtime.Attestation.Sound.{Authentic, verify-Authentic, chain_verified-root}
use enclave_runtime.Attestation.Expect.{Says, expect, expect_iff}
use enclave_runtime.Attestation.Hashes.{
  AttestationHashes, IsSized, serialize, parse-serialize, serialize-parse,
}

-- The registers of the stand-in's documents.
abbrev pub toy_pcr0 : Bytes
toy_pcr0 = replicate 48 1

abbrev pub toy_pcr16 : Bytes
toy_pcr16 = replicate 48 2

-- A document that carries this user data, under a bundle of one root.
abbrev pub toy_entries : Bytes → Entries
toy_entries payload = entry (text (ascii "module_id")) (text (ascii "i-0")) (
    entry (text (ascii "digest")) (text (ascii "SHA384")) (
      entry (text (ascii "timestamp")) (unsigned 5000) (
        entry (text (ascii "pcrs"))
          (map (entry (unsigned 0) (bytes toy_pcr0) (entry (unsigned 16) (bytes toy_pcr16) end)))
          (entry (text (ascii "certificate")) (bytes (9 ∷ [])) (
            entry (text (ascii "cabundle")) (array (item (bytes (7 ∷ [])) nil))
              (entry (text (ascii "user_data")) (bytes payload) end))))))

abbrev pub toy_document : Bytes → AttestationDocument
toy_document payload = record {
  module_id = ascii "i-0";
  timestamp_ms = 5000;
  digest = ascii "SHA384";
  pcrs = (16, toy_pcr16) ∷ (0, toy_pcr0) ∷ [];
  certificate = 9 ∷ [];
  cabundle = (7 ∷ []) ∷ [];
  public_key = none;
  user_data = some payload;
  nonce = none;
}

-- A COSE message is its payload, a payload is the user data, and a certificate is its own name, key and
-- content, whose signature every key accepts.
abbrev pub toy_crypto : Crypto
toy_crypto = record {
  Sign1 = Bytes;
  parse_sign1 = λ b. some b;
  payload = λ b. some b;
  verify_signature = λ s k. true;
  from_reader = λ b. some (map (toy_entries b));
  Certificate = Bytes;
  from_der = λ b. some b;
  asn1_time = λ t. some t;
  is_valid_at = λ c t. true;
  is_ca = λ c. true;
  issuer = λ c. [];
  subject = λ c. [];
  public_key = λ c. c;
  algorithm_oid = λ c. ascii "1.2.840.10045.4.3.3";
  tbs_certificate = λ c. c;
  signature_value = λ c. c;
  verify_ecdsa = λ a k m s. true;
  decode_certificate = λ b. some b;
}

abbrev toy_options : VerifyOptions
toy_options = record { trust_root = 7 ∷ []; now = 6000; allow_untrusted_root = false }

abbrev toy_verified : Verified
toy_verified = record { document = toy_document (1 ∷ 2 ∷ []); trust = chain_verified }

toy_verify : verify toy_crypto (1 ∷ 2 ∷ []) toy_options ≡ ok toy_verified
unfolding verify decode_fields insert
toy_verify = refl

verify-Authentic_example : Authentic toy_crypto (1 ∷ 2 ∷ []) toy_options toy_verified
verify-Authentic_example =
    verify-Authentic toy_crypto (1 ∷ 2 ∷ []) toy_options toy_verified toy_verify

chain_verified-root_example :
    (root : Bytes) × (rest : List Bytes) × (toy_verified.document.cabundle ≡ root ∷ rest)
    × (toy_crypto.decode_certificate (7 ∷ []) ≡ some root)
chain_verified-root_example =
    chain_verified-root toy_crypto (1 ∷ 2 ∷ []) toy_options toy_verified toy_verify refl

abbrev toy_expectations : Expectations
toy_expectations = record {
  pcrs = (0, toy_pcr0) ∷ [];
  nonce = none;
  user_data = some (1 ∷ 2 ∷ []);
  max_age = some 1500;
}

expect_iff_example :
    (expect toy_verified toy_expectations 6000 ≡ ok tt) ↔ Says toy_verified toy_expectations 6000
expect_iff_example = expect_iff toy_verified toy_expectations 6000

abbrev toy_hashes : AttestationHashes
toy_hashes = record { tls_certificate = replicate 32 5; guest = replicate 32 6 }

toy_hashes-IsSized : IsSized toy_hashes
toy_hashes-IsSized = record { tls = refl; guest = refl }

serialize-parse_example : (serialize toy_hashes ≡ serialize toy_hashes) × IsSized toy_hashes
serialize-parse_example =
    serialize-parse (serialize toy_hashes) toy_hashes
      (parse-serialize toy_hashes toy_hashes-IsSized)

-- ===== src/Attestation/Types.antt =====
-- The types of crates/nitro-attestation/src/lib.rs, and the third-party code that it calls: `coset`,
-- `ciborium`, `x509-parser` and `aws-lc-rs` are fields of `Crypto`.
--
-- A `SystemTime` is a number of milliseconds since the Unix epoch; a time before it is not modelled.
use enclave_runtime.Prelude.{ℕ, Bool, Option, List, Bytes}
use enclave_runtime.Prelude.Map.{Map}

-- ciborium::Value; `other` stands for the floats, Booleans and null, which the program refuses alike.
mutual
  pub data Value : Type 0 where
    unsigned negative : ℕ → Value
    bytes text : Bytes → Value
    array : Items → Value
    map : Entries → Value
    tag : ℕ → Value → Value
    other : Value

  pub data Items : Type 0 where
    nil : Items
    item : Value → Items → Items

  pub data Entries : Type 0 where
    end : Entries
    entry : Value → Value → Entries → Entries

pub record AttestationDocument : Type 0 where
  pub module_id : Bytes
  pub timestamp_ms : ℕ
  pub digest : Bytes
  pub pcrs : Map ℕ Bytes
  pub certificate : Bytes
  pub cabundle : List Bytes
  pub public_key : Option Bytes
  pub user_data : Option Bytes
  pub nonce : Option Bytes

pub data Trust : Type 0 where
  chain_verified self_signed unsigned_document : Trust

pub record Verified : Type 0 where
  pub document : AttestationDocument
  pub trust : Trust

pub record Expectations : Type 0 where
  pub pcrs : Map ℕ Bytes
  pub nonce : Option Bytes
  pub user_data : Option Bytes
  pub max_age : Option ℕ

pub record VerifyOptions : Type 0 where
  pub trust_root : Bytes
  pub now : ℕ
  pub allow_untrusted_root : Bool

-- What a refusal says. Its text is not modelled.
pub data AttestError : Type 0 where
  bad_cose no_payload bad_cbor not_a_map : AttestError
  bad_field : Bytes → AttestError
  bad_pcr bad_cabundle_entry : AttestError
  empty_cabundle bad_trust_root untrusted_root : AttestError
  bad_certificate bad_time outside_validity not_a_ca wrong_issuer : AttestError
  unsupported_algorithm bad_certificate_signature bad_signature : AttestError
  missing_pcr wrong_pcr missing_nonce wrong_nonce : AttestError
  missing_user_data wrong_user_data too_old : AttestError

-- The signature algorithms of a certificate that the program accepts.
pub data Algorithm : Type 0 where
  ecdsa_p384_sha384_asn1 ecdsa_p256_sha256_asn1 : Algorithm

pub record Crypto : Type 1 where
  -- coset::CoseSign1, from a tagged or a bare slice, its payload, and the check of its signature
  pub Sign1 : Type 0
  pub parse_sign1 : Bytes → Option Sign1
  pub payload : Sign1 → Option Bytes
  pub verify_signature : Sign1 → Bytes → Bool
  -- ciborium::from_reader
  pub from_reader : Bytes → Option Value
  -- x509_parser's certificates
  pub Certificate : Type 0
  pub from_der : Bytes → Option Certificate
  pub asn1_time : ℕ → Option ℕ
  pub is_valid_at : Certificate → ℕ → Bool
  pub is_ca : Certificate → Bool
  pub issuer : Certificate → Bytes
  pub subject : Certificate → Bytes
  pub public_key : Certificate → Bytes
  pub algorithm_oid : Certificate → Bytes
  pub tbs_certificate : Certificate → Bytes
  pub signature_value : Certificate → Bytes
  -- aws_lc_rs::signature, with a public key, a message and a signature
  pub verify_ecdsa : Algorithm → Bytes → Bytes → Bytes → Bool
  -- decode_certificate: PEM or DER to DER
  pub decode_certificate : Bytes → Option Bytes

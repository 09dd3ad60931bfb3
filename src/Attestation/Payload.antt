-- ===== src/Attestation/Payload.antt =====
-- `parse`, `parse_cose`, `payload_from_raw_cose` and `decode_payload` of
-- crates/nitro-attestation/src/lib.rs.
use enclave_runtime.Prelude.{
  ℕ, ◌^◌, Bool, false, Option, none, some, List, [], ◌∷◌, Bytes, ltb, if◌then◌else◌, bytes_eq,
  ascii, nat_eq, ◌==◌,
}
use enclave_runtime.Prelude.Map.{Map, insert}
use enclave_runtime.Prelude.Result.{Result, ok, err, ok_or, ◌>>=◌}
use enclave_runtime.Attestation.Types.{
  Value, unsigned, bytes, text, array, map, tag, Items, nil, item, Entries, end, entry,
  AttestationDocument, AttestError, bad_cose, no_payload, bad_cbor, not_a_map, bad_field, bad_pcr,
  bad_cabundle_entry, Crypto,
}

-- Value::as_text, as_bytes, as_integer with `u64::try_from` or `u32::try_from`, as_array, as_map
abbrev pub as_text : Value → Option Bytes
as_text (text t) = some t
as_text _ = none

abbrev pub as_bytes : Value → Option Bytes
as_bytes (bytes b) = some b
as_bytes _ = none

abbrev pub as_unsigned : ℕ → Value → Option ℕ
as_unsigned bits (unsigned n) = if ltb n (2 ^ bits) then some n else none
as_unsigned bits _ = none

abbrev pub as_array : Value → Option Items
as_array (array xs) = some xs
as_array _ = none

abbrev pub as_map : Value → Option Entries
as_map (map es) = some es
as_map _ = none

abbrev pub and_then {ℓ κ} : {A : Type ℓ} {B : Type κ} → Option A → (A → Option B) → Option B
and_then none f = none
and_then (some a) f = f a

abbrev text_is : Bytes → Option Bytes → Bool
text_is name none = false
text_is name (some t) = t == name

-- The closure `get` of `decode_payload`: the first entry whose key is this text.
unfoldable pub get_field : Bytes → Entries → Option Value
get_field name end = none
get_field name (entry k v es) = if text_is name (as_text k) then some v else get_field name es

-- The loop over the entries of `pcrs`: a later entry of an index replaces an earlier one.
unfoldable pub decode_pcrs : Entries → Map ℕ Bytes → Result AttestError (Map ℕ Bytes)
decode_pcrs end pcrs = ok pcrs
decode_pcrs (entry k v es) pcrs = do
  index ← ok_or (as_unsigned 32 k) bad_pcr
  value ← ok_or (as_bytes v) bad_pcr
  decode_pcrs es (insert index value pcrs)

unfoldable pub decode_cabundle : Items → Result AttestError (List Bytes)
decode_cabundle nil = ok []
decode_cabundle (item v vs) = do
  der ← ok_or (as_bytes v) bad_cabundle_entry
  rest ← decode_cabundle vs
  ok (der ∷ rest)

abbrev text_field : Bytes → Entries → Result AttestError Bytes
text_field name es = ok_or (and_then (get_field name es) as_text) (bad_field name)

abbrev bytes_field : Bytes → Entries → Result AttestError Bytes
bytes_field name es = ok_or (and_then (get_field name es) as_bytes) (bad_field name)

abbrev optional_bytes : Bytes → Entries → Option Bytes
optional_bytes name es = and_then (get_field name es) as_bytes

-- The fields of `decode_payload`, in the order in which they are read.
unfoldable pub decode_fields : Entries → Result AttestError AttestationDocument
unfolding get_field decode_pcrs decode_cabundle
decode_fields es = do
  module_id ← text_field (ascii "module_id") es
  digest ← text_field (ascii "digest") es
  timestamp_ms ←
      ok_or (and_then (get_field (ascii "timestamp") es) (as_unsigned 64))
        (bad_field (ascii "timestamp"))
  pcr_map ← ok_or (and_then (get_field (ascii "pcrs") es) as_map) (bad_field (ascii "pcrs"))
  pcrs ← decode_pcrs pcr_map []
  certificate ← bytes_field (ascii "certificate") es
  bundle ←
      ok_or (and_then (get_field (ascii "cabundle") es) as_array) (bad_field (ascii "cabundle"))
  cabundle ← decode_cabundle bundle
  ok (record {
    module_id = module_id;
    timestamp_ms = timestamp_ms;
    digest = digest;
    pcrs = pcrs;
    certificate = certificate;
    cabundle = cabundle;
    public_key = optional_bytes (ascii "public_key") es;
    user_data = optional_bytes (ascii "user_data") es;
    nonce = optional_bytes (ascii "nonce") es;
  })

-- The payload is element 2 of an array of 4.
abbrev payload_item : Items → Result AttestError Bytes
payload_item (item a (item b (item c (item d nil)))) = ok_or (as_bytes c) bad_cose
payload_item _ = err bad_cose

abbrev untag : Value → Value
untag (tag n inner) = inner
untag v = v

module _ (crypto : Crypto) where
  unfoldable pub decode_payload : Bytes → Result AttestError AttestationDocument
  decode_payload payload = do
    value ← ok_or (crypto.from_reader payload) bad_cbor
    es ← ok_or (as_map value) not_a_map
    decode_fields es

  unfoldable pub payload_from_raw_cose : Bytes → Result AttestError Bytes
  payload_from_raw_cose cose = do
    value ← ok_or (crypto.from_reader cose) bad_cbor
    elements ← ok_or (as_array (untag value)) bad_cose
    payload_item elements

  unfoldable pub parse : Bytes → Result AttestError AttestationDocument
  unfolding decode_payload payload_from_raw_cose
  parse cose = elim (crypto.parse_sign1 cose) [
    | some sign1 ↦ do payload ← ok_or (crypto.payload sign1) no_payload; decode_payload payload
    | none ↦ do payload ← payload_from_raw_cose cose; decode_payload payload
  ]

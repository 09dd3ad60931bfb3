-- ===== src/Keys/Tests.antt =====
-- `to_der` of runtime/src/keys/ber.rs at concrete inputs.
use enclave_runtime.Prelude.{◌≡◌, ◌≢◌, refl, false, [], ◌∷◌, Bytes, arith, replicate}
use enclave_runtime.Prelude.Result.{ok, err}
use enclave_runtime.Keys.Ber.{to_der, emit, stuck, is_high_tag, is_constructed}
use enclave_runtime.Keys.Ber.Length.{to_der-emit}
use enclave_runtime.Keys.Ber.Ends.{to_der_ends}

-- An octet string in two chunks, of indefinite length.
abbrev chunked : Bytes
chunked = 0x24 ∷ 0x80 ∷ 0x04 ∷ 1 ∷ 7 ∷ 0x04 ∷ 1 ∷ 8 ∷ 0 ∷ 0 ∷ []

to_der-chunked : to_der chunked ≡ ok (0x04 ∷ 2 ∷ 7 ∷ 8 ∷ [])
unfolding to_der
to_der-chunked = refl

to_der_ends_example : to_der (0x30 ∷ 0x80 ∷ 0x30 ∷ 0x80 ∷ []) ≢ err stuck
to_der_ends_example = to_der_ends (0x30 ∷ 0x80 ∷ 0x30 ∷ 0x80 ∷ [])

low_tag : is_high_tag 4 ≡ false
unfolding is_high_tag
low_tag = refl

plain_tag : is_constructed 4 ≡ false
unfolding is_constructed
plain_tag = refl

to_der-emit_example : to_der (emit 4 (replicate 200 7)) ≡ ok (emit 4 (replicate 200 7))
to_der-emit_example = to_der-emit 4 (replicate 200 7) low_tag plain_tag (omega arith)

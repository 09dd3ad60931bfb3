-- ===== src/Stream/Tests.antt =====
-- SseFramer of runtime/src/stream.rs at concrete inputs.
use enclave_runtime.Prelude.{◌≡◌, ◌≢◌, refl, true, some, [], ◌∷◌, ◌++◌, Bytes, arith, ascii, nat_eq}
use enclave_runtime.Prelude.Result.{ok, err, ◌>>=◌}
use enclave_runtime.Prelude.Text.{lines, strip_prefix, trim}
use enclave_runtime.Stream.Sse.{Codec, stuck, push, is_utf8, not_utf8, after_events}
use enclave_runtime.Stream.Sse.Ends.{push_ends}
use enclave_runtime.Stream.Sse.Split.{push-append}

abbrev codec : Codec
codec = record { base64_decode = λ b. some b; sha256 = λ b. b; hex = λ b. b }

abbrev first_read : Bytes
first_read = ascii "ta: a\n"

abbrev second_read : Bytes
second_read = ascii "\nid: 2\ndata: b\n\nid"

first_read-IsText : is_utf8 first_read ≡ true
unfolding is_utf8
first_read-IsText = refl

second_read-IsText : is_utf8 second_read ≡ true
unfolding is_utf8
second_read-IsText = refl

two_events :
    push codec (ascii "id: 1\nda") (first_read ++ second_read)
    ≡ ok (
      record { id = ascii "1"; data_bytes = ascii "a" }
          ∷ record { id = ascii "2"; data_bytes = ascii "b" }
          ∷ [],
      ascii "id",
    )
unfolding push lines strip_prefix trim
two_events = refl

-- A carriage return that ends a read waits for the next one.
returns : push codec [] (ascii "data: a\r\n\r") ≡ ok ([], ascii "data: a\n" ++ (13 ∷ []))
unfolding push
returns = refl

-- A character of two bytes that two reads share is refused.
half_character : push codec [] (ascii "data: " ++ (195 ∷ [])) ≡ err not_utf8
unfolding push
half_character = refl

push-append_example : push codec (ascii "id: 1\nda") (first_read ++ second_read) ≡ (
    push codec (ascii "id: 1\nda") first_read >>= λ r.
    after_events r.0 (push codec r.1 second_read))
push-append_example =
    push-append codec (ascii "id: 1\nda") first_read second_read first_read-IsText
      second_read-IsText refl (omega arith)

push_ends_example : push codec (ascii "id: 1\nda") (first_read ++ second_read) ≢ err stuck
push_ends_example = push_ends codec (ascii "id: 1\nda") (first_read ++ second_read)

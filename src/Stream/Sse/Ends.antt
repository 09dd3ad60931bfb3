-- ===== src/Stream/Sse/Ends.antt =====
-- SseFramer of runtime/src/stream.rs: its loop ends.
use enclave_runtime.Prelude.{
  ℕ, zero, suc, ◌+◌, ◌*◌, ◌<◌, ◌≢◌, inl, inr, Bool, true, false, Option, none, some, List, [], ◌∷◌,
  ◌++◌, Bytes, arith, length, take, leb, if◌then◌else◌, Bool-cases, Option-cases,
}
use enclave_runtime.Prelude.Result.{Result, ok, err, ensure, ok_or, ◌>>=◌}
use enclave_runtime.Stream.Sse.{
  Codec, SseError, SseEvent, cut_block, event_of, events_of, after_events, Framed, push, is_utf8,
  normalize, max_message, not_base64, event_too_long, stuck, is_empty, read_lines,
}
use enclave_runtime.Prelude.Text.{lines}
use enclave_runtime.Stream.Sse.Cut.{length-cut_block}
use enclave_runtime.Stream.Sse.Split.{events_of-none, events_of-some}

event_ends :
    (empty : Bool) (decoded : Option Bytes) (made : Bytes → List SseEvent)
    → (if empty
        then ok []
        else (ok_or decoded not_base64 >>= λ bytes.
            ensure (leb (length bytes) max_message) event_too_long >>= λ u. ok (made bytes)))
      ≢ err stuck
event_ends true decoded made = λ e. cc
event_ends false none made = λ e. cc
event_ends false (some bytes) made = elim (Bool-cases (leb (length bytes) max_message)) [
  | inl t ↦ rw (t) (λ e. cc)
  | inr f ↦ rw (f) (λ e. cc)
]

event_of_ends : (codec : Codec) (block : Bytes) → event_of codec block ≢ err stuck
unfolding event_of
event_of_ends codec block =
    let (id, data_text) = read_lines (lines block) [] [] in
    event_ends (is_empty data_text) (codec.base64_decode data_text) (λ bytes.
      record {
        id = if is_empty id then codec.hex (take 16 (codec.sha256 bytes)) else id;
        data_bytes = bytes;
      }
      ∷ [])

-- A block, and the blocks after it.
then_ends :
    (first : Result SseError (List SseEvent)) (next : Framed)
    → first ≢ err stuck
    → next ≢ err stuck
    → (first >>= λ events. after_events events next) ≢ err stuck
then_ends (err e) next f n = λ h. f cc
then_ends (ok events) (err e) f n = λ h. n cc
then_ends (ok events) (ok r) f n = λ h. cc

events_of_ends :
    (codec : Codec) (n : ℕ) (x : Bytes) → length x < n → events_of codec n x ≢ err stuck
events_of_ends codec zero x l = ground arith
events_of_ends codec (suc n) x l = elim (Option-cases (cut_block x)) [
  | inl e ↦ rw (events_of-none codec n x e) (λ h. cc)
  | inr ((block, rest), e) ↦ rw (events_of-some codec n x e) (
      then_ends (event_of codec block) (events_of codec n rest) (event_of_ends codec block)
        (events_of_ends codec n rest (omega (arith, length-cut_block x e))))
]

-- A read is refused, or gives its events: the loop over the blocks of the buffer ends, whatever the buffer
-- and the read are.
pub push_ends : (codec : Codec) (buffer chunk : Bytes) → push codec buffer chunk ≢ err stuck
unfolding push
push_ends codec buffer chunk = elim (Bool-cases (is_utf8 chunk)) [
  | inr f ↦ rw (f, push) (λ h. cc)
  | inl t ↦
      let joined = normalize (buffer ++ chunk) in
      elim (Bool-cases (leb (length joined) (max_message * 2))) [
        | inr f ↦ rw (t, push, f) (λ h. cc)
        | inl fits ↦
            rw (t, push, fits) (events_of_ends codec (length joined + 1) joined (omega arith))
      ]
]

-- ===== src/Stream/Sse.antt =====
-- runtime/src/stream.rs: SseFramer, which puts server-sent events together from the reads of a stream.
--
-- A text is its bytes. `Codec` is the code of other crates: base64, SHA-256 and hex. The loop over the
-- blocks runs on fuel, one round for each byte of the buffer. An error ends the stream, and the framer
-- with it. `trim` takes ASCII white space off.
pub mod Cut
pub mod Split
pub mod Ends
use enclave_runtime.Prelude.{
  ℕ, zero, suc, ◌+◌, ◌-◌, ◌*◌, Bool, true, false, not, ◌&&◌, ◌||◌, Option, none, some, List, [],
  ◌∷◌, ◌++◌, Bytes, ascii, leb, length, take, any, map, if◌then◌else◌, nat_eq, ◌==◌,
}
use enclave_runtime.Prelude.Result.{Result, ok, err, ensure, ok_or, ◌>>=◌, ◌>>◌}
use enclave_runtime.Prelude.Text.{lines, strip_prefix, trim}

abbrev pub max_message : ℕ
max_message = 256 * 1024

pub record Codec : Type 0 where
  pub base64_decode : Bytes → Option Bytes
  pub sha256 : Bytes → Bytes
  pub hex : Bytes → Bytes

pub data SseError : Type 0 where
  not_utf8 buffer_too_long not_base64 event_too_long stuck : SseError

pub record SseEvent : Type 0 where
  pub id : Bytes
  pub data_bytes : Bytes

-- std::str::from_utf8, byte by byte: between characters, or in one with that many bytes to come. The
-- second byte after 0xe0, 0xed, 0xf0 and 0xf4 has a range of its own.
pub data Utf8 : Type 0 where
  between one two three after_e0 after_ed after_f0 after_f4 invalid : Utf8

abbrev in_range : ℕ → ℕ → ℕ → Utf8 → Utf8
in_range lo hi b next = if leb lo b && leb b hi then next else invalid

abbrev first_byte : ℕ → Utf8
first_byte b =
    if leb b 127
    then between
    else if leb 194 b && leb b 223
    then one
    else if b == 224
    then after_e0
    else if b == 237
    then after_ed
    else if leb 225 b && leb b 239
    then two
    else if b == 240
    then after_f0
    else if leb 241 b && leb b 243
    then three
    else if b == 244
    then after_f4
    else invalid

abbrev pub next_byte : Utf8 → ℕ → Utf8
next_byte between b = first_byte b
next_byte one b = in_range 128 191 b between
next_byte two b = in_range 128 191 b one
next_byte three b = in_range 128 191 b two
next_byte after_e0 b = in_range 160 191 b one
next_byte after_ed b = in_range 128 159 b one
next_byte after_f0 b = in_range 144 191 b two
next_byte after_f4 b = in_range 128 143 b two
next_byte invalid b = invalid

abbrev pub read_utf8 : Utf8 → Bytes → Utf8
read_utf8 s [] = s
read_utf8 s (b ∷ bs) = read_utf8 (next_byte s b) bs

abbrev pub is_between : Utf8 → Bool
is_between between = true
is_between one = false
is_between two = false
is_between three = false
is_between after_e0 = false
is_between after_ed = false
is_between after_f0 = false
is_between after_f4 = false
is_between invalid = false

unfoldable pub is_utf8 : Bytes → Bool
is_utf8 b = is_between (read_utf8 between b)

-- replace("\r\n", "\n"): a carriage return before a newline goes.
unfoldable pub fold_crlf : Bytes → Bytes
fold_crlf [] = []
fold_crlf (a ∷ []) = a ∷ []
fold_crlf (a ∷ b ∷ rest) =
    let folded = fold_crlf (b ∷ rest) in if (a == 13) && (b == 10) then folded else a ∷ folded

abbrev pub ends_with_cr : Bytes → Bool
ends_with_cr [] = false
ends_with_cr (a ∷ []) = a == 13
ends_with_cr (a ∷ b ∷ rest) = ends_with_cr (b ∷ rest)

-- String::pop and push
abbrev pub with_last : ℕ → Bytes → Bytes
with_last c [] = c ∷ []
with_last c (a ∷ []) = c ∷ []
with_last c (a ∷ b ∷ rest) = a ∷ with_last c (b ∷ rest)

unfoldable pub normalize : Bytes → Bytes
unfolding fold_crlf
normalize buffer =
    let norm = map (λ a. if a == 13 then 10 else a) (fold_crlf buffer) in
    if not (any (λ a. a == 13) buffer)
    then buffer
    else if ends_with_cr buffer
    then with_last 13 norm
    else norm

-- The block up to the first "\n\n" and with it, and the buffer after it.
unfoldable pub cut_block : Bytes → Option (Bytes × Bytes)
cut_block [] = none
cut_block (a ∷ []) = none
cut_block (a ∷ b ∷ rest) = elim ((a == 10) && (b == 10)) [
  | true ↦ some (a ∷ b ∷ [], rest)
  | false ↦ elim (cut_block (b ∷ rest)) [
    | none ↦ none
    | some (block, after) ↦ some (a ∷ block, after)
  ]
]

-- The id and the data of a block's lines.
unfoldable pub read_lines : List Bytes → Bytes → Bytes → Bytes × Bytes
read_lines [] id data_text = (id, data_text)
read_lines (line ∷ ls) id data_text = elim (strip_prefix (ascii "id:") line) [
  | some v ↦ read_lines ls (trim v) data_text
  | none ↦ elim (strip_prefix (ascii "data:") line) [
    | some v ↦ read_lines ls id (data_text ++ trim v)
    | none ↦ read_lines ls id data_text
  ]
]

abbrev pub is_empty : Bytes → Bool
is_empty [] = true
is_empty (a ∷ b) = false

-- What a block gives: nothing if it has no data.
unfoldable pub event_of : Codec → Bytes → Result SseError (List SseEvent)
unfolding read_lines
event_of codec block =
    let (id, data_text) = read_lines (lines block) [] [] in
    if is_empty data_text then ok [] else do
      bytes ← ok_or (codec.base64_decode data_text) not_base64
      ensure (leb (length bytes) max_message) event_too_long
      ok (
          record {
            id = if is_empty id then codec.hex (take 16 (codec.sha256 bytes)) else id;
            data_bytes = bytes;
          }
          ∷ [])

abbrev pub Framed : Type 0
Framed = Result SseError (List SseEvent × Bytes)

abbrev pub after_events : List SseEvent → Framed → Framed
after_events events m = m >>= λ r. ok (events ++ r.0, r.1)

-- The loop of `push`.
unfoldable pub events_of : Codec → ℕ → Bytes → Framed
unfolding cut_block event_of
events_of codec zero buffer = err stuck
events_of codec (suc fuel) buffer = elim (cut_block buffer) [
  | none ↦ ok ([], buffer)
  | some (block, rest) ↦
      event_of codec block >>= λ events. after_events events (events_of codec fuel rest)
]

-- The events of a read, and the buffer that it leaves.
unfoldable pub push : Codec → Bytes → Bytes → Framed
unfolding is_utf8 normalize events_of
push codec buffer chunk =
    ensure (is_utf8 chunk) not_utf8
    >> (let joined = normalize (buffer ++ chunk) in
        ensure (leb (length joined) (max_message * 2)) buffer_too_long
        >> events_of codec (length joined + 1) joined)

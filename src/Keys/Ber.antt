-- ===== src/Keys/Ber.antt =====
-- runtime/src/keys/ber.rs: BER to DER, for the envelope that KMS sends.
--
-- A byte is a number below 256, so that its bits are written with division. The text of an error is not
-- modelled. The recursion of `transcode` ends by its depth. Its loops over the children run on fuel, one
-- round for each byte of their region.
pub mod Length
pub mod Ends
use enclave_runtime.Prelude.{
  ℕ, zero, suc, ◌+◌, ◌-◌, ◌*◌, ◌/◌, ◌%◌, Bool, true, false, not, ◌&&◌, ◌||◌, Option, none, some,
  List, [], ◌∷◌, ◌++◌, Bytes, ltb, leb, length, take, drop, all, if◌then◌else◌, nat_eq, ◌==◌,
}
use enclave_runtime.Prelude.Result.{Result, ok, err, ensure, ok_or, ◌>>=◌, ◌>>◌}
use enclave_runtime.Prelude.Words.{be_bytes, be_value}

pub data BerError : Type 0 where
  too_deep unexpected_end high_tag truncated_length bad_length : BerError
  indefinite_primitive runs_past_end not_octets : BerError
  left_over : ℕ → BerError
  stuck : BerError

abbrev pub max_depth : ℕ
max_depth = 64

-- id & 0x1f == 0x1f, id & 0x20 != 0 and id & 0xc0 == 0x80
unfoldable pub is_high_tag : ℕ → Bool
is_high_tag id = id % 32 == 31

unfoldable pub is_constructed : ℕ → Bool
is_constructed id = id / 32 % 2 == 1

unfoldable pub is_context : ℕ → Bool
is_context id = id / 64 % 4 == 2

-- slice::get(..n)
abbrev pub get_prefix : ℕ → Bytes → Option Bytes
get_prefix n b = if leb n (length b) then some (take n b) else none

-- `read_len` of the bytes after the first.
unfoldable pub read_long : ℕ → Bytes → Result BerError (Option ℕ × Bytes)
read_long n rest =
    if leb n 4 && leb n (length rest)
    then ok (some (be_value (take n rest)), drop n rest)
    else err bad_length

unfoldable pub read_len : Bytes → Result BerError (Option ℕ × Bytes)
unfolding read_long
read_len [] = err truncated_length
read_len (first ∷ rest) =
    if first == 128
    then ok (none, rest)
    else if ltb first 128
    then ok (some first, rest)
    else read_long (first - 128) rest

unfoldable pub strip_zeros : Bytes → Bytes
strip_zeros [] = []
strip_zeros (b ∷ bs) = let rest = strip_zeros bs in if b == 0 then rest else b ∷ bs

-- The bytes of a long length, without leading zeros but one byte at least.
unfoldable pub significant : ℕ → Bytes
unfolding strip_zeros
significant len = elim (strip_zeros (be_bytes 8 len)) [ [] ↦ 0 ∷ [] | b ∷ bs ↦ b ∷ bs ]

-- The length octets of `emit`.
unfoldable pub emit_len : ℕ → Bytes
unfolding significant
emit_len len = if ltb len 128 then len ∷ [] else (128 + length (significant len)) ∷ significant len

unfoldable pub emit : ℕ → Bytes → Bytes
unfolding emit_len
emit id content = id ∷ (emit_len (length content) ++ content)

unfoldable pub octet_value : Bytes → Result BerError Bytes
unfolding read_len
octet_value [] = err not_octets
octet_value (tag ∷ der) = do
  ensure (tag == 4) not_octets
  (len, content) ← read_len der
  n ← ok_or len not_octets
  ok_or (get_prefix n content) not_octets

unfoldable pub octet_values : List Bytes → Result BerError Bytes
unfolding octet_value
octet_values [] = ok []
octet_values (c ∷ cs) = do value ← octet_value c; rest ← octet_values cs; ok (value ++ rest)

abbrev pub concat : List Bytes → Bytes
concat [] = []
concat (c ∷ cs) = c ++ concat cs

abbrev pub is_octets : Bytes → Bool
is_octets [] = false
is_octets (tag ∷ der) = tag == 4

abbrev pub is_empty : List Bytes → Bool
is_empty [] = true
is_empty (c ∷ cs) = false

-- The end of `transcode`: the value with these children.
unfoldable pub assemble : ℕ → List Bytes → Result BerError Bytes
unfolding is_context octet_values emit
assemble id children =
    if (id == 36) || (is_context id && (not (is_empty children) && all is_octets children))
    then (octet_values children >>= λ body. ok (emit (if id == 36 then 4 else id - 32) body))
    else ok (emit id (concat children))

-- A primitive value, and the input after it.
unfoldable pub primitive : ℕ → Option ℕ → Bytes → Result BerError (Bytes × Bytes)
unfolding emit
primitive id none after_len = err indefinite_primitive
primitive id (some len) after_len = ok_or (get_prefix len after_len) runs_past_end >>= λ content.
    ok (emit id content, drop len after_len)

-- [0, 0, rest @ ..]
abbrev pub end_of_contents : Bytes → Option Bytes
end_of_contents [] = none
end_of_contents (a ∷ []) = none
end_of_contents (a ∷ b ∷ rest) = if (a == 0) && (b == 0) then some rest else none

abbrev pub Children : Type 0
Children = Result BerError (List Bytes × Bytes)

-- The loops over the children of a definite region and of an indefinite one, over what transcodes one.
module _ (transcode : Bytes → Result BerError (Bytes × Bytes)) where
  unfoldable pub definite : ℕ → Bytes → Result BerError (List Bytes)
  definite fuel [] = ok []
  definite zero (b ∷ region) = err stuck
  definite (suc fuel) (b ∷ region) = do
    (child, rest) ← transcode (b ∷ region)
    children ← definite fuel rest
    ok (child ∷ children)

  unfoldable pub indefinite : ℕ → Bytes → Children
  indefinite zero region = err stuck
  indefinite (suc fuel) region = elim (end_of_contents region) [
    | some rest ↦ ok ([], rest)
    | none ↦ do
      (child, rest) ← transcode region
      (children, after) ← indefinite fuel rest
      ok (child ∷ children, after)
  ]

  -- The children of a constructed value, and the input after it.
  unfoldable pub children_of : Option ℕ → Bytes → Children
  unfolding definite indefinite
  children_of (some len) after_len = do
    region ← ok_or (get_prefix len after_len) runs_past_end
    children ← definite (length region) region
    ok (children, drop len after_len)
  children_of none after_len = indefinite (length after_len + 1) after_len

-- The part of `transcode` after the checks of its first byte.
unfoldable pub transcode_value :
    (Bytes → Result BerError (Bytes × Bytes)) → ℕ → Bytes → Result BerError (Bytes × Bytes)
unfolding read_len is_constructed primitive children_of assemble
transcode_value child id rest = do
  (len, after_len) ← read_len rest
  elim (is_constructed id) [
    | false ↦ primitive id len after_len
    | true ↦ do
      (children, after) ← children_of child len after_len
      value ← assemble id children
      ok (value, after)
  ]

-- `transcode` with `left` levels of depth left: 65 at the top, none below MAX_DEPTH.
unfoldable pub transcode : ℕ → Bytes → Result BerError (Bytes × Bytes)
unfolding is_high_tag transcode_value
transcode zero input = err too_deep
transcode (suc left) [] = err unexpected_end
transcode (suc left) (id ∷ rest) =
    ensure (not (is_high_tag id)) high_tag >> transcode_value (transcode left) id rest

unfoldable pub to_der : Bytes → Result BerError Bytes
unfolding transcode
to_der input = do
  (out, rest) ← transcode (max_depth + 1) input
  elim rest [ [] ↦ ok out | b ∷ bs ↦ err (left_over (length (b ∷ bs))) ]

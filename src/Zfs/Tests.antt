-- ===== src/Zfs/Tests.antt =====
-- Small hosts, runs of the pools' code, and the theorems at concrete inputs.
use enclave_runtime.Prelude.{
  ℕ, ◌+◌, ◌≡◌, refl, Bool, true, false, Option, none, some, [], ◌∷◌, Bytes, arith, ascii, replicate,
  bytes_eq, nat_eq,
}
use enclave_runtime.Prelude.Map.{Map, get, insert}
use enclave_runtime.Prelude.Result.{ok, ok_or}
use enclave_runtime.Prelude.Text.{Without, lines, strip_prefix, words, parse_u64}
use enclave_runtime.Store.Types.{StoreResult, not_found}
use enclave_runtime.Zfs.Types.{Host, KeyMaterial}
use enclave_runtime.Zfs.Tip.{chain_tip, exists_raw, gallop, bisect, search, saturating_add}
use enclave_runtime.Zfs.Tip.Gallop.{Retained}
use enclave_runtime.Zfs.Tip.Found.{Found, chain_tip-Found}
use enclave_runtime.Zfs.Anchor.{Anchor, control, seal, next_seq, prev_hash, decode_and_verify}
use enclave_runtime.Zfs.Anchor.RoundTrip.{Arrays, decode_and_verify-seal}
use enclave_runtime.Zfs.Admit.{admit, property, dash}
use enclave_runtime.Zfs.Admit.Descends.{admit-crash}
use enclave_runtime.Zfs.Kernel.{witness}

abbrev pub toy_hex : Bytes → Bytes
toy_hex [] = []
toy_hex (c ∷ s) = (97 + c) ∷ (97 + c) ∷ toy_hex s

-- A bucket of retained objects. A PUT is let through over what is there, as over a delete marker, and
-- leaves the retained object.
abbrev pub Bucket : Type 0
Bucket = Map Bytes Bytes

abbrev toy_get : Bytes → Bucket → StoreResult Bytes × Bucket
toy_get key w = (ok_or (get key w) not_found, w)

abbrev pub keep_first : Bytes → Bytes → Option Bytes → Bucket → Bucket
keep_first key body none w = insert key body w
keep_first key body (some held) w = w

abbrev pub history : Bytes
history = ascii "txg birth state nwritten\n4 9 C 512\n5 9 C 0\n6 9 S 7\n"

abbrev pub toy : Host
toy = record {
  World = Bucket;
  get_retained_blob = toy_get;
  put_blob_if_not_exists = λ input w. (ok tt, keep_first input.key input.body (get input.key w) w);
  now = λ w. (some 1000, w);
  fill = λ n w. (some (replicate n 7), w);
  run = λ program args w. (some [], w);
  read_file = λ path w. (some history, w);
  write_file = λ path body w. (some tt, w);
  sign = λ key m. replicate 64 1;
  verify = λ key m sig. true;
  hash = λ b. replicate 32 9;
  hex = toy_hex;
}

abbrev anchors : ℕ → Bytes
anchors k = k ∷ []

abbrev three : Bucket
three = (anchors 2, ascii "c") ∷ (anchors 0, ascii "a") ∷ (anchors 1, ascii "b") ∷ []

abbrev is_there : Option Bytes → Bool
is_there none = false
is_there (some b) = true

abbrev has : Bucket → ℕ → Bool
has w k = is_there (get (anchors k) w)

anchors-Retained : Retained toy anchors has
anchors-Retained = record {
  told = λ k w body e. ground (arith, e);
  denied = λ k w x e n. ground (arith, e);
  lasts = λ j k w e. e;
}

tip-three : chain_tip toy anchors three ≡ (ok (some 2), three)
unfolding chain_tip search gallop bisect exists_raw saturating_add get
tip-three = refl

chain_tip-Found_example : Found toy anchors has anchors-Retained three (chain_tip toy anchors three)
chain_tip-Found_example = chain_tip-Found toy anchors has anchors-Retained three

abbrev pub toy_keys : KeyMaterial
toy_keys = record {
  fs_uuid = replicate 16 3;
  public_key = replicate 32 4;
  signing_key = replicate 32 5;
}

-- The first anchor of the control pool, and the next.
abbrev pub genesis_anchor : Anchor
genesis_anchor =
    seal toy toy_keys none control (ascii "enclave-control!") (replicate 16 0) 77 4 (replicate 32 8)

arrays :
    Arrays toy_keys (replicate 32 9) (ascii "enclave-control!") (replicate 16 0) (replicate 32 6)
arrays = record {
  long_uuid = refl;
  long_key = refl;
  long_prev = refl;
  long_pool_id = refl;
  long_tenant_id = refl;
  long_nonce = refl;
}

decode_and_verify-seal_example :
    (let a =
        seal toy toy_keys
          (some genesis_anchor)
          control
          (ascii "enclave-control!")
          (replicate 16 0)
          77
          5
          (replicate 32 6) in
      decode_and_verify toy a.encoded toy_keys 1 (ascii "enclave-control!") ≡ ok a)
unfolding seal next_seq prev_hash
decode_and_verify-seal_example =
    decode_and_verify-seal toy toy_keys (some genesis_anchor) control (ascii "enclave-control!")
      (replicate 16 0) 77 5 (replicate 32 6) arrays (λ m. refl) (λ m. refl) (omega arith)
      (omega arith) (omega arith)

toy_hex-Without : (b : Bytes) → Without dash (toy_hex b)
toy_hex-Without [] = tt
toy_hex-Without (c ∷ b) = (ground arith, (ground arith, toy_hex-Without b))

admit-crash_example :
    (let next =
        seal toy toy_keys
          (some genesis_anchor)
          control
          (ascii "enclave-control!")
          (replicate 16 0)
          77
          5
          (replicate 32 6) in
      (admit toy genesis_anchor (some 6) (property toy genesis_anchor) 77 ≡ ok tt)
      × (admit toy genesis_anchor (some 6) (property toy next) 77 ≡ ok tt))
unfolding seal next_seq
admit-crash_example =
    admit-crash toy toy_keys genesis_anchor control (ascii "enclave-control!") (replicate 16 0) 77 5
      (replicate 32 6) 6 (omega arith) toy_hex-Without refl

witness-history : witness history ≡ some 4
unfolding witness lines strip_prefix words parse_u64
witness-history = refl

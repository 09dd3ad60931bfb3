-- ===== src/Zfs/PoolTests.antt =====
-- The theorems on pools and generations at concrete inputs.
use enclave_runtime.Prelude.{
  ℕ, ◌+◌, ◌≡◌, ◌==◌, if◌then◌else◌, ◌∙◌, refl, ap, true, Option, none, some, [], ◌∷◌, Bytes, arith,
  ascii, replicate, bytes_eq,
}
use enclave_runtime.Prelude.Words.{be_bytes, be_value, be_onto, slice}
use enclave_runtime.Prelude.Map.{get, insert, get-insert}
use enclave_runtime.Prelude.Result.{ok}
use enclave_runtime.Prelude.Text.{lines, parse_u64, trim, split_once, to_string}
use enclave_runtime.Store.Types.{with_object_lock, new_put}
use enclave_runtime.Zfs.Types.{Host, retain_until}
use enclave_runtime.Zfs.Tip.{chain_tip}
use enclave_runtime.Zfs.Anchor.{
  Anchor, decode_and_verify, id_at, from_byte, byte, u64_at, is_zero, control, zero_hash, seal,
}
use enclave_runtime.Zfs.Generation.{seal_generation, generation_key, settle_claim, retained_body}
use enclave_runtime.Zfs.Generation.Claimed.{settle_claim_shared}
use enclave_runtime.Zfs.Pool.{Pool, anchor_key, publish, anchor_now}
use enclave_runtime.Zfs.Pool.Publish.{Keeps, Pinned, publish_once}
use enclave_runtime.Zfs.Pool.Anchoring.{Anchored, anchor_now-Anchored}
use enclave_runtime.Zfs.Pool.Fence.{SamePuts, Unmoved, anchor_now_superseded}
use enclave_runtime.Zfs.Pool.Kept.{Reads}
use enclave_runtime.Zfs.Admit.{property, admit}
use enclave_runtime.Zfs.Kernel.{loaded_txg, pool_guid}
use enclave_runtime.Zfs.Pool.Open.{Opened, resume}
use enclave_runtime.Zfs.Pool.Open.Resumed.{IsResumed, resume-IsResumed}
use enclave_runtime.Zfs.Tests.{Bucket, history, keep_first, toy, toy_keys, genesis_anchor}

abbrev value : Bucket → Bytes → Option Bytes
value w key = get key w

keep_first-kept :
    (key body : Bytes) (o : Option Bytes) (w : Bucket)
    → get key w ≡ o
    → Keeps toy value w (keep_first key body o w)
keep_first-kept key body none w e j b h = ground (
  arith,
  get-insert key j body w,
  (bytes_eq.beq_iff key j).0,
  λ (q : key ≡ j). ap (λ i. get i w) q,
)
keep_first-kept key body (some held) w e j b h = h

pinned : Pinned toy value
pinned = record {
  told = λ key body w e. ground (arith, e);
  denied = λ key w x e n. ground (arith, e);
  kept_get = λ key w k b e. e;
  kept_put = λ input w. keep_first-kept input.key input.body (get input.key w) w refl;
  kept_now = λ w k b e. e;
  kept_fill = λ n w k b e. e;
  kept_run = λ program args w k b e. e;
  kept_read = λ path w k b e. e;
}

abbrev pub pool : Pool
pool = record {
  keys = toy_keys;
  prefix = ascii "p/";
  anchor_prefix = ascii "p/zfs/control/";
  retention = 3600;
  name = ascii "enclave";
  mapped = ascii "/dev/mapper/zcrypt-control";
  kind = control;
  pool_id = ascii "enclave-control!";
  tenant_id = replicate 16 0;
  pool = true;
  pool_guid = 77;
  genesis = zero_hash;
  generation = 0;
}

published :
    publish toy pool 1 (ascii "anchor") [] ≡ (ok tt, (anchor_key toy pool 1, ascii "anchor") ∷ [])
unfolding publish retain_until get insert with_object_lock new_put be_bytes
published = refl

publish_once_example : ◌≡◌ {A = Bytes} (ascii "anchor") (ascii "anchor")
unfolding publish retain_until get insert with_object_lock new_put be_bytes
publish_once_example =
    publish_once toy value pinned pool pool 1 (ascii "anchor") (ascii "anchor") []
      ((anchor_key toy pool 1, ascii "anchor") ∷ []) ((anchor_key toy pool 1, ascii "anchor") ∷ [])
      ((anchor_key toy pool 1, ascii "anchor") ∷ []) refl refl (λ k b e. e) refl

-- A pool whose newest anchor is at txg 3, where the disk has reached txg 4.
abbrev older : Anchor
older = record genesis_anchor { txg = 3 }

anchor_now-Anchored_example :
    Anchored toy value pinned pool older [] (anchor_now toy pool (ok older) [])
anchor_now-Anchored_example = anchor_now-Anchored toy value pinned pool older [] refl

abbrev claimed : Bucket
claimed = (generation_key toy (ascii "p/") 1, seal_generation toy toy_keys 1) ∷ []

claimed_there :
    value claimed (generation_key toy (ascii "p/") 1) ≡ some (seal_generation toy toy_keys 1)
unfolding get generation_key be_bytes
claimed_there = refl

read :
    (toy.get_retained_blob (generation_key toy (ascii "p/") 1) claimed).0
    ≡ ok (seal_generation toy toy_keys 1)
unfolding get generation_key be_bytes
read = refl

won :
    settle_claim toy
      (generation_key toy (ascii "p/") 1)
      (seal_generation toy toy_keys 1)
      1
      (ok tt)
      claimed
    ≡ (ok (some 1), claimed)
unfolding settle_claim get generation_key be_bytes seal_generation
won = refl

-- The same host, which counts what the enclave asks the bucket to store.
abbrev counting : Host
counting = record {
  World = Bucket × ℕ;
  get_retained_blob = λ key w. let (r, v) = toy.get_retained_blob key w.0 in (r, (v, w.1));
  put_blob_if_not_exists =
      λ input w. let (r, v) = toy.put_blob_if_not_exists input w.0 in (r, (v, w.1 + 1));
  now = λ w. (some 1000, w);
  fill = λ n w. (some (replicate n 7), w);
  run = λ program args w. (some [], w);
  read_file = λ path w. (some history, w);
  write_file = λ path body w. (some tt, w);
  sign = toy.sign;
  verify = toy.verify;
  hash = toy.hash;
  hex = toy.hex;
}

abbrev puts : Bucket × ℕ → ℕ
puts w = w.1

counting_pinned : Pinned counting (λ w. value w.0)
counting_pinned = record {
  told = λ key body w e. ground (arith, e);
  denied = λ key w x e n. ground (arith, e);
  kept_get = λ key w k b e. e;
  kept_put = λ input w. keep_first-kept input.key input.body (get input.key w.0) w.0 refl;
  kept_now = λ w k b e. e;
  kept_fill = λ n w k b e. e;
  kept_run = λ program args w k b e. e;
  kept_read = λ path w k b e. e;
}

counting-Reads : Reads counting (SamePuts counting puts)
counting-Reads = record {
  same = λ w. refl;
  trans = λ u v w a b. b ∙ a;
  kept_get = λ key w. refl;
  kept_fill = λ n w. refl;
  kept_run = λ program args w. refl;
  kept_read = λ path w. refl;
}

counting_there :
    value claimed (generation_key counting (ascii "p/") 1) ≡ some (seal_generation toy toy_keys 1)
unfolding get generation_key be_bytes
counting_there = refl

-- The disk is past the anchor, and the next generation is claimed.
anchor_now_superseded_example :
    ((anchor_now counting pool (ok older) (claimed, 0)).1.1 ≡ 0)
    × Unmoved counting
        (λ w. value w.0)
        counting_pinned
        puts
        counting-Reads
        older
        (anchor_now counting pool (ok older) (claimed, 0)).0.1
anchor_now_superseded_example =
    anchor_now_superseded counting (λ w. value w.0) counting_pinned puts counting-Reads pool older
      (seal_generation toy toy_keys 1) (claimed, 0) counting_there

settle_claim_shared_example :
    (settle_claim toy
      (generation_key toy (ascii "p/") 1)
      (seal_generation toy toy_keys 1)
      1
      (ok tt)
      claimed).0
    ≡ ok (some 1)
settle_claim_shared_example =
    settle_claim_shared toy value pinned toy_keys (ascii "p/") 1 (seal_generation toy toy_keys 1)
      claimed claimed claimed won (λ k b e. e) read

abbrev second : Anchor
second =
    seal toy toy_keys (some genesis_anchor) control (ascii "enclave-control!") (replicate 16 0) 77 5
      (replicate 32 6)

-- A disk that was loaded at txg 9, and holds the marker of the second anchor.
abbrev notes : Bytes
notes =
    ascii
      "spa_load(enclave, config trusted): using uberblock with txg=9\nspa_load(enclave, config trusted): LOADED\n"

abbrev answer : Bytes → Bytes
answer program = if program == ascii "zfs" then property toy second else ascii "77\n"

abbrev disk : Host
disk = record toy {
  run = λ program args w. (some (answer program), w);
  read_file = λ path w. (some notes, w);
}

abbrev two_anchors : Bucket
two_anchors =
    (anchor_key disk pool 0, genesis_anchor.encoded) ∷ (anchor_key disk pool 1, second.encoded) ∷ []

abbrev opened : Opened
opened = record { pool = record pool { genesis = replicate 32 9; pool_guid = 77 }; last = second }

resumed : resume disk pool (some 0) (some (replicate 32 9)) two_anchors ≡ (ok opened, two_anchors)
unfolding resume chain_tip get anchor_key be_bytes retained_body decode_and_verify seal slice id_at
    from_byte be_value be_onto byte u64_at is_zero pool_guid parse_u64 trim admit loaded_txg lines
    split_once to_string
resumed = refl

resume-IsResumed_example : IsResumed disk pool (some 0) (some (replicate 32 9)) two_anchors opened
resume-IsResumed_example =
    resume-IsResumed disk pool (some 0) (some (replicate 32 9)) opened two_anchors two_anchors
      resumed

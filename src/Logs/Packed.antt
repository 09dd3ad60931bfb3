-- ===== src/Logs/Packed.antt =====
-- `put_chunks` of runtime/src/guest_io/cloudwatch.rs.
-- The limits of the calls that `put_chunks` makes, and how they account for the batch.
use mathlib.Core.Path.{subst}
use enclave_runtime.Prelude.{
  ℕ, ◌+◌, ◌-◌, ◌≤◌, ◌<◌, ◌≡◌, refl, false, List, [], ◌∷◌, ◌++◌, Bytes, length, ltb, nat_eq, arith,
  All, Bool-cases, ◌⊎◌, inl, inr, length-append,
}
use enclave_runtime.Logs.Chunks.{
  Stamped, InputLogEvent, Chunk, Packing, max_event_bytes, cost, is_empty, is_full, seal, push,
  drop_one, event_of, is_stale, pack, pack_all, put_chunks,
}

abbrev pub total_consumed : List Chunk → ℕ
total_consumed [] = 0
total_consumed (c ∷ chunks) = c.consumed + total_consumed chunks

abbrev pub total_cost : List InputLogEvent → ℕ
total_cost [] = 0
total_cost (e ∷ es) = cost e.message + total_cost es

-- A call that the service accepts.
pub record IsAccepted (c : Chunk) : Type 0 where
  pub some_event : 1 ≤ length c.events
  pub few : length c.events ≤ 10000
  pub light : total_cost c.events ≤ 1000000

total_consumed-append :
    (xs ys : List Chunk) → total_consumed (xs ++ ys) ≡ total_consumed xs + total_consumed ys
total_consumed-append [] ys = omega arith
total_consumed-append (x ∷ xs) ys = omega (arith, total_consumed-append xs ys)

total_cost-append :
    (xs ys : List InputLogEvent) → total_cost (xs ++ ys) ≡ total_cost xs + total_cost ys
total_cost-append [] ys = omega arith
total_cost-append (x ∷ xs) ys = omega (arith, total_cost-append xs ys)

All-append : {A : Type 0} (F : A → Type 0) (xs ys : List A) → All F xs → All F ys → All F (xs ++ ys)
All-append F [] ys a b = b
All-append F (x ∷ xs) ys a b = (a.0, All-append F xs ys a.1 b)

-- What holds of the loop's variables after `index` records.
pub record IsPacked (index : ℕ) (p : Packing) : Type 0 where
  pub accepted : All IsAccepted p.chunks
  pub few : length p.current ≤ 10000
  pub light : total_cost p.current ≤ 1000000
  pub counted : p.bytes ≡ total_cost p.current
  pub progress : total_consumed p.chunks ≡ p.sealed
  pub behind : p.sealed ≤ index

seal-IsPacked :
    (index : ℕ) (p : Packing)
    → IsPacked index p
    → is_empty p.current ≡ false
    → IsPacked index (seal index p)
unfolding seal
seal-IsPacked index p v ne = record {
  accepted =
      All-append IsAccepted p.chunks _ v.accepted
        (record { some_event = not_empty p.current ne; few = v.few; light = v.light }, tt);
  few = omega arith;
  light = omega arith;
  counted = refl;
  progress = omega (
    arith,
    v.progress,
    v.behind,
    total_consumed-append p.chunks
        (record { consumed = index - p.sealed; events = p.current } ∷ []),
  );
  behind = omega arith;
}
  where
    not_empty : (es : List InputLogEvent) → is_empty es ≡ false → 1 ≤ length es
    not_empty [] h = cc
    not_empty (e ∷ es) h = omega arith

push-IsPacked :
    (index : ℕ) (e : InputLogEvent) (p : Packing)
    → IsPacked index p
    → length p.current < 10000
    → p.bytes + cost e.message ≤ 1000000
    → IsPacked (index + 1) (push e p)
unfolding push
push-IsPacked index e p v few light = record {
  accepted = v.accepted;
  few = omega (arith, few, length-append p.current (e ∷ []));
  light = omega (arith, light, v.counted, total_cost-append p.current (e ∷ []));
  counted = omega (arith, v.counted, total_cost-append p.current (e ∷ []));
  progress = v.progress;
  behind = omega (arith, v.behind);
}

dropped-IsPacked : (index : ℕ) (p : Packing) → IsPacked index p → IsPacked (index + 1) (drop_one p)
dropped-IsPacked index p v = record {
  accepted = v.accepted;
  few = v.few;
  light = v.light;
  counted = v.counted;
  progress = v.progress;
  behind = omega (arith, v.behind);
}

abbrev pub start : Packing
start = record { chunks = []; current = []; bytes = 0; dropped = 0; sealed = 0 }

start-IsPacked : IsPacked 0 start
start-IsPacked = record {
  accepted = tt;
  few = omega arith;
  light = omega arith;
  counted = refl;
  progress = refl;
  behind = omega arith;
}

module _ {P : Type 0} (encode : P → Bytes) where
  pack-IsPacked :
      (now index : ℕ) (s : Stamped P) (p : Packing)
      → IsPacked index p
      → IsPacked (index + 1) (pack encode now index s p)
  unfolding pack
  pack-IsPacked now index s p v = elim (Bool-cases (is_stale encode now s)) [
    | inl stale ↦ rw (stale, pack) (dropped-IsPacked index p v)
    | inr fresh ↦ elim (Bool-cases (ltb max_event_bytes (length (encode s.payload)))) [
      | inl large ↦ rw (fresh, large, pack) (dropped-IsPacked index p v)
      | inr small ↦ elim (Bool-cases (is_full (cost (encode s.payload)) p)) [
        | inl full ↦
            rw (fresh, small, full, pack)
              (push-IsPacked index (event_of encode s) (seal index p)
                (seal-IsPacked index p v (ground (arith, full))) (unfold seal in omega arith)
                (unfold seal in ground (arith, small)))
        | inr room ↦
            rw (fresh, small, room, pack)
              (push-IsPacked index (event_of encode s) p v (room_few p.current room)
                (ground (arith, room, small, v.counted)))
      ]
    ]
  ]
    where
      room_few :
          (es : List InputLogEvent)
          → is_full (cost (encode s.payload)) (record p { current = es }) ≡ false
          → length es < 10000
      room_few [] h = omega arith
      room_few (e ∷ es) h = ground (arith, h)

  pack_all-IsPacked :
      (now index : ℕ) (records : List (Stamped P)) (p : Packing)
      → IsPacked index p
      → IsPacked (index + length records) (pack_all encode now index records p)
  unfolding pack_all
  pack_all-IsPacked now index [] p v = subst (λ n. IsPacked n p) (omega arith) v
  pack_all-IsPacked now index (s ∷ records) p v =
      subst (λ n. IsPacked n (pack_all encode now (index + 1) records (pack encode now index s p)))
        (omega arith)
        (pack_all-IsPacked now (index + 1) records (pack encode now index s p)
          (pack-IsPacked now index s p v))

  -- A seal is followed by a push, so nothing is gathered only while nothing was sealed.
  abbrev Opened : Packing → Type 0
  Opened p = (is_empty p.current ≡ false) ⊎ (p.chunks ≡ [])

  push-Opened : (e : InputLogEvent) (p : Packing) → Opened (push e p)
  unfolding push
  push-Opened e p = inl (open_after p.current)
    where
      open_after : (es : List InputLogEvent) → is_empty (es ++ e ∷ []) ≡ false
      open_after [] = refl
      open_after (f ∷ es) = refl

  pack-Opened :
      (now index : ℕ) (s : Stamped P) (p : Packing) → Opened p → Opened (pack encode now index s p)
  unfolding pack
  pack-Opened now index s p o = elim (Bool-cases (is_stale encode now s)) [
    | inl stale ↦ rw (stale, pack) o
    | inr fresh ↦ elim (Bool-cases (ltb max_event_bytes (length (encode s.payload)))) [
      | inl large ↦ rw (fresh, large, pack) o
      | inr small ↦ elim (Bool-cases (is_full (cost (encode s.payload)) p)) [
        | inl full ↦ rw (fresh, small, full, pack) (push-Opened (event_of encode s) (seal index p))
        | inr room ↦ rw (fresh, small, room, pack) (push-Opened (event_of encode s) p)
      ]
    ]
  ]

  pack_all-Opened :
      (now index : ℕ) (records : List (Stamped P)) (p : Packing)
      → Opened p
      → Opened (pack_all encode now index records p)
  unfolding pack_all
  pack_all-Opened now index [] p o = o
  pack_all-Opened now index (s ∷ records) p o =
      pack_all-Opened now (index + 1) records (pack encode now index s p)
        (pack-Opened now index s p o)

  -- If there is a call at all, the records that the calls account for are the whole batch, those that
  -- were dropped included.
  pub put_chunks_consumed :
      (records : List (Stamped P)) (now : ℕ)
      → ((put_chunks encode records now).0 ≡ [])
        ⊎ (total_consumed (put_chunks encode records now).0 ≡ length records)
  unfolding put_chunks seal
  put_chunks_consumed records now =
      let p = pack_all encode now 0 records start in
      let v : IsPacked (length records) p =
        subst (λ n. IsPacked n p) (omega arith)
          (pack_all-IsPacked now 0 records start start-IsPacked) in
      elim (Bool-cases (is_empty p.current)) [
        | inl e ↦ elim (pack_all-Opened now 0 records start (inr refl)) [
          | inl o ↦ absurd (cc (e, o))
          | inr o ↦ inl (rw (e, put_chunks) o)
        ]
        | inr e ↦ inr (
            rw (e, put_chunks)
              (omega (
                arith,
                v.progress,
                v.behind,
                total_consumed-append p.chunks
                    (record { consumed = length records - p.sealed; events = p.current } ∷ []),
              )))
      ]

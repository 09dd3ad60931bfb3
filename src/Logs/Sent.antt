-- ===== src/Logs/Sent.antt =====
-- `put_chunks` of runtime/src/guest_io/cloudwatch.rs.
-- The events that `put_chunks` sends, and those that it drops.
use mathlib.Core.List.{append_assoc, append-nil}
use enclave_runtime.Prelude.{
  ℕ, ◌+◌, ◌-◌, ◌≡◌, refl, sym, ap, ◌∙◌, true, List, [], ◌∷◌, ◌++◌, Bytes, length, ltb,
  if◌then◌else◌, nat_eq, arith, Bool-cases, inl, inr,
}
use enclave_runtime.Logs.Chunks.{
  Stamped, InputLogEvent, Chunk, Packing, max_event_bytes, cost, is_empty, is_full, seal, push,
  event_of, is_stale, pack, pack_all, put_chunks,
}
use enclave_runtime.Logs.Packed.{start}

-- The events of a list of calls, in order.
abbrev pub all_events : List Chunk → List InputLogEvent
all_events [] = []
all_events (c ∷ chunks) = c.events ++ all_events chunks

all_events-append : (xs ys : List Chunk) → all_events (xs ++ ys) ≡ all_events xs ++ all_events ys
all_events-append [] ys = refl
all_events-append (x ∷ xs) ys =
    ap (λ l. x.events ++ l) (all_events-append xs ys)
    ∙ sym (append_assoc x.events (all_events xs) (all_events ys))

empty_nil : (es : List InputLogEvent) → is_empty es ≡ true → es ≡ []
empty_nil [] h = refl
empty_nil (e ∷ es) h = cc

module _ {P : Type 0} (encode : P → Bytes) where
  -- The records that are sent: those young and small enough, in the order in which they came.
  abbrev pub kept : ℕ → List (Stamped P) → List InputLogEvent
  kept now [] = []
  kept now (s ∷ records) =
      if is_stale encode now s
      then kept now records
      else if ltb max_event_bytes (length (encode s.payload))
      then kept now records
      else event_of encode s ∷ kept now records

  -- What has been taken in so far, sealed or not.
  abbrev sent : Packing → List InputLogEvent
  sent p = all_events p.chunks ++ p.current

  sent-seal : (index : ℕ) (p : Packing) → sent (seal index p) ≡ sent p
  unfolding seal
  sent-seal index p =
      append-nil
        (all_events (p.chunks ++ record { consumed = index - p.sealed; events = p.current } ∷ []))
      ∙ all_events-append p.chunks (record { consumed = index - p.sealed; events = p.current } ∷ [])
      ∙ ap (λ l. all_events p.chunks ++ l) (append-nil p.current)

  sent-push : (e : InputLogEvent) (p : Packing) → sent (push e p) ≡ sent p ++ e ∷ []
  unfolding push
  sent-push e p = sym (append_assoc (all_events p.chunks) p.current (e ∷ []))

  sent-pack :
      (now index : ℕ) (s : Stamped P) (p : Packing) (records : List (Stamped P))
      → sent (pack encode now index s p) ++ kept now records ≡ sent p ++ kept now (s ∷ records)
  unfolding pack
  sent-pack now index s p records = elim (Bool-cases (is_stale encode now s)) [
    | inl stale ↦ rw (stale, pack) refl
    | inr fresh ↦ elim (Bool-cases (ltb max_event_bytes (length (encode s.payload)))) [
      | inl large ↦ rw (fresh, large, pack) refl
      | inr small ↦ elim (Bool-cases (is_full (cost (encode s.payload)) p)) [
        | inl full ↦
            rw (fresh, small, full, pack)
              (ap (λ l. l ++ kept now records)
                  (sent-push (event_of encode s) (seal index p)
                    ∙ ap (λ l. l ++ event_of encode s ∷ []) (sent-seal index p))
                ∙ append_assoc (sent p) (event_of encode s ∷ []) (kept now records))
        | inr room ↦
            rw (fresh, small, room, pack)
              (ap (λ l. l ++ kept now records) (sent-push (event_of encode s) p)
                ∙ append_assoc (sent p) (event_of encode s ∷ []) (kept now records))
      ]
    ]
  ]

  sent-pack_all :
      (now index : ℕ) (records : List (Stamped P)) (p : Packing)
      → sent (pack_all encode now index records p) ≡ sent p ++ kept now records
  unfolding pack_all
  sent-pack_all now index [] p = sym (append-nil (sent p))
  sent-pack_all now index (s ∷ records) p =
      sent-pack_all now (index + 1) records (pack encode now index s p)
      ∙ sent-pack now index s p records

  dropped-pack_all :
      (now index : ℕ) (records : List (Stamped P)) (p : Packing)
      → (pack_all encode now index records p).dropped + length (kept now records)
        ≡ p.dropped + length records
  unfolding pack_all
  dropped-pack_all now index [] p = refl
  dropped-pack_all now index (s ∷ records) p =
      unfold pack push seal in
      ground (arith, dropped-pack_all now (index + 1) records (pack encode now index s p))

  -- The calls carry exactly the records that are young and small enough, each once and in order, and the
  -- number reported as dropped is that of the others.
  pub put_chunks-kept :
      (records : List (Stamped P)) (now : ℕ)
      → (all_events (put_chunks encode records now).0 ≡ kept now records)
        × ((put_chunks encode records now).1 + length (kept now records) ≡ length records)
  unfolding put_chunks
  put_chunks-kept records now =
      let p = pack_all encode now 0 records start in
      elim (Bool-cases (is_empty p.current)) [
        | inl e ↦
            rw (e, put_chunks)
              (
                sym (append-nil (all_events p.chunks))
                    ∙ ap (λ l. all_events p.chunks ++ l) (sym (empty_nil p.current e))
                    ∙ sent-pack_all now 0 records start,
                omega (arith, dropped-pack_all now 0 records start),
              )
        | inr e ↦
            rw (e, put_chunks)
              (
                sym (append-nil (all_events (seal (length records) p).chunks))
                    ∙ sent-seal (length records) p
                    ∙ sent-pack_all now 0 records start,
                omega (arith, dropped-pack_all now 0 records start),
              )
      ]

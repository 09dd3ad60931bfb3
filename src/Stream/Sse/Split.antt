-- ===== src/Stream/Sse/Split.antt =====
-- SseFramer of runtime/src/stream.rs: its events do not depend on how the reads split the bytes.
use mathlib.Core.List.{append_assoc}
use enclave_runtime.Prelude.{
  ℕ, zero, suc, ◌+◌, ◌*◌, ◌≤◌, ◌<◌, ◌≡◌, refl, sym, ◌∙◌, ap, inl, inr, true, false, none, some,
  List, [], ◌∷◌, ◌++◌, Bytes, arith, length, length-append, leb, any, nat_eq, ◌==◌, Bool-cases,
  Option-cases,
}
use enclave_runtime.Prelude.Result.{Result, ok, err, ◌>>=◌, Result-cases}
use enclave_runtime.Stream.Sse.{
  Codec, SseError, SseEvent, cut_block, event_of, events_of, after_events, Framed, push, is_utf8,
  normalize, max_message, Utf8, read_utf8, is_between, between, next_byte, one, two, three,
  after_e0, after_ed, after_f0, after_f4, invalid,
}
use enclave_runtime.Stream.Sse.Cut.{cut_block-append, length-cut_block, cut_block_parts}

pub events_of-none :
    (codec : Codec) (n : ℕ) (x : Bytes)
    → cut_block x ≡ none
    → events_of codec (suc n) x ≡ ok ([], x)
unfolding events_of
events_of-none codec n x e = rw (e, events_of) refl

pub events_of-some :
    (codec : Codec) (n : ℕ) (x : Bytes) {block rest : Bytes}
    → cut_block x ≡ some (block, rest)
    → events_of codec (suc n) x
      ≡ (event_of codec block >>= λ events. after_events events (events_of codec n rest))
unfolding events_of
events_of-some codec n x e = rw (e, events_of) refl

-- With a round for each byte, further rounds change nothing.
events_of_steady :
    (codec : Codec) (n m : ℕ) (x : Bytes)
    → length x < n
    → length x < m
    → events_of codec n x ≡ events_of codec m x
events_of_steady codec zero m x a b = ground arith
events_of_steady codec (suc n) zero x a b = ground arith
events_of_steady codec (suc n) (suc m) x a b = elim (Option-cases (cut_block x)) [
  | inl e ↦ events_of-none codec n x e ∙ sym (events_of-none codec m x e)
  | inr ((block, rest), e) ↦
      let same : events_of codec n rest ≡ events_of codec m rest =
        events_of_steady codec n m rest (omega (arith, length-cut_block x e))
          (omega (arith, length-cut_block x e)) in
      events_of-some codec n x e
      ∙ ap (λ r. event_of codec block >>= λ events. after_events events r) same
      ∙ sym (events_of-some codec m x e)
]

after_nothing : (m : Framed) → after_events [] m ≡ m
after_nothing (ok r) = refl
after_nothing (err e) = refl

after_events_twice :
    (before then_events : List SseEvent) (m : Framed)
    → after_events before (after_events then_events m) ≡ after_events (before ++ then_events) m
after_events_twice before then_events (ok r) =
    ap (λ es. ok (es, r.1)) (sym (append_assoc before then_events r.0))
after_events_twice before then_events (err e) = refl

-- What the loop keeps is the end of what it was given.
abbrev EndOf : Bytes → Framed → Type 0
EndOf x (ok r) = (front : Bytes) × (x ≡ front ++ r.1)
EndOf x (err e) = Unit {0}

then-EndOf :
    (front x : Bytes) (events : List SseEvent) (m : Framed)
    → EndOf x m
    → EndOf (front ++ x) (after_events events m)
then-EndOf front x events (ok r) (k, e) =
    (front ++ k, ap (λ l. front ++ l) e ∙ sym (append_assoc front k r.1))
then-EndOf front x events (err e) w = tt

events_of-EndOf : (codec : Codec) (n : ℕ) (x : Bytes) → EndOf x (events_of codec n x)
unfolding events_of
events_of-EndOf codec zero x = tt
events_of-EndOf codec (suc n) x = elim (Option-cases (cut_block x)) [
  | inl e ↦ rw (e, events_of, EndOf) ([], refl)
  | inr ((block, rest), e) ↦ elim (Result-cases (event_of codec block)) [
    | inr (failed, f) ↦ rw (e, events_of, f, EndOf) tt
    | inl (events, f) ↦
        rw (events_of-some codec n x e, f, cut_block_parts x e)
          (then-EndOf block rest events (events_of codec n rest) (events_of-EndOf codec n rest))
  ]
]

-- The loop on a buffer and on what is read after it.
events_of-append :
    (codec : Codec) (n m : ℕ) (x y : Bytes)
    → length (x ++ y) < n
    → length (x ++ y) < m
    → events_of codec n (x ++ y)
      ≡ (events_of codec n x >>= λ r. after_events r.0 (events_of codec m (r.1 ++ y)))
events_of-append codec zero m x y a b = ground arith
events_of-append codec (suc n) m x y a b = elim (Option-cases (cut_block x)) [
  | inl e ↦
      events_of_steady codec (suc n) m (x ++ y) a b
      ∙ sym (after_nothing (events_of codec m (x ++ y)))
      ∙ ap (λ p. p >>= λ r. after_events r.0 (events_of codec m (r.1 ++ y)))
          (sym (events_of-none codec n x e))
  | inr ((block, rest), e) ↦
      let shorter : length (rest ++ y) < length (x ++ y) =
        omega (arith, length-cut_block x e, length-append rest y, length-append x y) in
      let ih = events_of-append codec n m rest y (omega arith) (omega arith) in
      events_of-some codec n (x ++ y) (cut_block-append x y e)
      ∙ ap (λ p. event_of codec block >>= λ events. after_events events p) ih
      ∙ regroup (event_of codec block) (events_of codec n rest)
      ∙ ap (λ p. p >>= λ r. after_events r.0 (events_of codec m (r.1 ++ y)))
          (sym (events_of-some codec n x e))
]
  where
    regroup :
        (first : Result SseError (List SseEvent)) (next : Framed)
        → (first >>= λ events.
            after_events events (next >>= λ r. after_events r.0 (events_of codec m (r.1 ++ y))))
          ≡ ((first >>= λ events. after_events events next) >>= λ r.
              after_events r.0 (events_of codec m (r.1 ++ y)))
    regroup (err e) next = refl
    regroup (ok events) (err e) = refl
    regroup (ok events) (ok r) = after_events_twice events r.0 (events_of codec m (r.1 ++ y))

abbrev pub HasNoCr : Bytes → Type 0
HasNoCr x = any (λ c. c == 13) x ≡ false

push-clean :
    (codec : Codec) (buffer chunk : Bytes)
    → is_utf8 chunk ≡ true
    → HasNoCr (buffer ++ chunk)
    → length (buffer ++ chunk) ≤ max_message * 2
    → push codec buffer chunk ≡ events_of codec (length (buffer ++ chunk) + 1) (buffer ++ chunk)
unfolding push normalize
push-clean codec buffer chunk u c l =
    let fits : leb (length (buffer ++ chunk)) (max_message * 2) ≡ true = ground arith in
    rw (u, push, normalize, c, fits) refl

HasNoCr-front : (x y : Bytes) → HasNoCr (x ++ y) → HasNoCr x
HasNoCr-front [] y c = refl
HasNoCr-front (a ∷ x) y c = elim (Bool-cases (a == 13)) [
  | inl t ↦ let e : any (λ c. c == 13) (a ∷ (x ++ y)) ≡ true = rw (t) refl in cc
  | inr f ↦
      let e : any (λ c. c == 13) (a ∷ (x ++ y)) ≡ any (λ c. c == 13) (x ++ y) = rw (f) refl in
      rw (f) (HasNoCr-front x y (sym e ∙ c))
]

HasNoCr-end : (x y : Bytes) → HasNoCr (x ++ y) → HasNoCr y
HasNoCr-end [] y c = c
HasNoCr-end (a ∷ x) y c = elim (Bool-cases (a == 13)) [
  | inl t ↦ let e : any (λ c. c == 13) (a ∷ (x ++ y)) ≡ true = rw (t) refl in cc
  | inr f ↦
      let e : any (λ c. c == 13) (a ∷ (x ++ y)) ≡ any (λ c. c == 13) (x ++ y) = rw (f) refl in
      HasNoCr-end x y (sym e ∙ c)
]

read_utf8-append : (s : Utf8) (a b : Bytes) → read_utf8 s (a ++ b) ≡ read_utf8 (read_utf8 s a) b
read_utf8-append s [] b = refl
read_utf8-append s (x ∷ a) b = read_utf8-append (next_byte s x) a b

between_only : (s : Utf8) → is_between s ≡ true → s ≡ between
between_only between e = refl
between_only one e = cc
between_only two e = cc
between_only three e = cc
between_only after_e0 e = cc
between_only after_ed e = cc
between_only after_f0 e = cc
between_only after_f4 e = cc
between_only invalid e = cc

is_utf8-append : (a b : Bytes) → is_utf8 a ≡ true → is_utf8 b ≡ true → is_utf8 (a ++ b) ≡ true
unfolding is_utf8
is_utf8-append a b u v =
    ap is_between (
      read_utf8-append between a b ∙ ap (λ s. read_utf8 s b) (between_only (read_utf8 between a) u))
    ∙ v

-- Of two reads of whole characters in which no carriage return stands, and which do not fill the buffer
-- with what it holds, one read of both gives the events of the first and then those of the second, and
-- leaves the same in the buffer; and it is refused, for the same reason, if and only if one of the two
-- is.
pub push-append :
    (codec : Codec) (buffer a b : Bytes)
    → is_utf8 a ≡ true
    → is_utf8 b ≡ true
    → HasNoCr ((buffer ++ a) ++ b)
    → length ((buffer ++ a) ++ b) ≤ max_message * 2
    → push codec buffer (a ++ b)
      ≡ (push codec buffer a >>= λ r. after_events r.0 (push codec r.1 b))
push-append codec buffer a b u v c l =
    together
    ∙ events_of-append codec (length joined + 1) (length joined + 1) (buffer ++ a) b (omega arith)
        (omega arith)
    ∙ ap (λ p. p >>= λ r. after_events r.0 (events_of codec (length joined + 1) (r.1 ++ b)))
        (events_of_steady codec (length joined + 1) (length (buffer ++ a) + 1) (buffer ++ a)
          (omega (arith, length-append (buffer ++ a) b)) (omega arith))
    ∙ next (events_of codec (length (buffer ++ a) + 1) (buffer ++ a))
        (events_of-EndOf codec (length (buffer ++ a) + 1) (buffer ++ a))
    ∙ ap (λ p. p >>= λ r. after_events r.0 (push codec r.1 b))
        (sym (
          push-clean codec buffer a u (HasNoCr-front (buffer ++ a) b c)
            (omega (arith, length-append (buffer ++ a) b))))
  where
    joined : Bytes
    joined = (buffer ++ a) ++ b

    together : push codec buffer (a ++ b) ≡ events_of codec (length joined + 1) joined
    together = rw (append_assoc buffer a b) (
        push-clean codec buffer (a ++ b) (is_utf8-append a b u v)
          (rw (sym (append_assoc buffer a b)) c) (rw (sym (append_assoc buffer a b)) l))

    next :
        (m : Framed)
        → EndOf (buffer ++ a) m
        → (m >>= λ r. after_events r.0 (events_of codec (length joined + 1) (r.1 ++ b)))
          ≡ (m >>= λ r. after_events r.0 (push codec r.1 b))
    next (err e) k = refl
    next (ok (events, left)) (front, k) =
        let cut : joined ≡ front ++ (left ++ b) = ap (λ x. x ++ b) k ∙ append_assoc front left b in
        let sizes : length joined ≡ length front + length (left ++ b) =
          ap length cut ∙ length-append front (left ++ b) in
        ap (after_events events) (
          events_of_steady codec (length joined + 1) (length (left ++ b) + 1) (left ++ b)
            (omega arith) (omega arith)
          ∙ sym (
              push-clean codec left b v (HasNoCr-end front (left ++ b) (rw (sym cut) c))
                (omega arith)))

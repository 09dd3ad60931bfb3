-- ===== src/Keys/Ber/Ends.antt =====
-- `transcode` of runtime/src/keys/ber.rs: its loops end.
use enclave_runtime.Prelude.{
  ℕ, zero, suc, ◌+◌, ◌-◌, ◌≤◌, ◌<◌, ◌≡◌, ◌≢◌, refl, inl, inr, Bool, true, false, not, ◌&&◌, ◌||◌,
  Option, none, some, List, [], ◌∷◌, ◌++◌, Bytes, arith, ltb, leb, length, length-drop, drop, all,
  if◌then◌else◌, nat_eq, ◌==◌, Bool-cases, Option-cases,
}
use enclave_runtime.Prelude.Result.{Result, ok, err, ensure, ok_or, ◌>>=◌}
use enclave_runtime.Keys.Ber.{
  BerError, stuck, left_over, high_tag, runs_past_end, not_octets, read_len, read_long, octet_value,
  octet_values, assemble, primitive, get_prefix, end_of_contents, definite, indefinite, children_of,
  transcode_value, transcode, to_der, is_high_tag, is_constructed, emit, max_depth, is_context,
  is_empty, is_octets,
}

-- A result is as said, or an error other than that of a loop without rounds left.
abbrev pub Returns : {A : Type 0} → (A → Type 0) → Result BerError A → Type 0
Returns P (ok a) = P a
Returns P (err e) = e ≢ stuck

Any : {A : Type 0} → A → Type 0
Any a = Unit

then-Returns :
    {A B : Type 0} (P : A → Type 0) (Q : B → Type 0) (m : Result BerError A)
    (f : A → Result BerError B)
    → Returns P m
    → ((a : A) → P a → Returns Q (f a))
    → Returns Q (m >>= f)
then-Returns P Q (ok a) f p next = next a p
then-Returns P Q (err e) f p next = p

ok_or-Returns :
    {A : Type 0} (P : A → Type 0) (o : Option A) (e : BerError)
    → e ≢ stuck
    → ((a : A) → o ≡ some a → P a)
    → Returns P (ok_or o e)
ok_or-Returns P none e n p = n
ok_or-Returns P (some a) e n p = p a refl

-- What is left after a length is shorter than what it was read from.
read_len-Returns : (input : Bytes) → Returns (λ r. length r.1 < length input) (read_len input)
unfolding read_len read_long
read_len-Returns [] = λ e. cc
read_len-Returns (first ∷ rest) = elim (Bool-cases (first == 128)) [
  | inl t ↦ rw (t, read_len, Returns) (omega arith)
  | inr f ↦ elim (Bool-cases (ltb first 128)) [
    | inl s ↦ rw (f, read_len, s, Returns) (omega arith)
    | inr l ↦ elim (Bool-cases (leb (first - 128) 4 && leb (first - 128) (length rest))) [
      | inl i ↦
          rw (f, read_len, l, read_long, i, Returns) (omega (arith, length-drop (first - 128) rest))
      | inr o ↦ rw (f, read_len, l, read_long, o, Returns) (λ e. cc)
    ]
  ]
]

octet_value-Returns : (der : Bytes) → Returns Any (octet_value der)
unfolding octet_value Any
octet_value-Returns [] = λ e. cc
octet_value-Returns (tag ∷ der) = elim (Bool-cases (tag == 4)) [
  | inr f ↦ rw (f, octet_value, Returns) (λ e. cc)
  | inl t ↦
      rw (t, octet_value, Returns)
        (then-Returns (λ r. length r.1 < length der) Any (read_len der) _ (read_len-Returns der)
          (λ r p.
            then-Returns Any Any (ok_or r.0 not_octets) _
              (ok_or-Returns Any r.0 not_octets (λ e. cc) (λ a q. tt))
              (λ n q. ok_or-Returns Any (get_prefix n r.1) not_octets (λ e. cc) (λ a z. tt))))
]

octet_values-Returns : (cs : List Bytes) → Returns Any (octet_values cs)
unfolding octet_values Any
octet_values-Returns [] = tt
octet_values-Returns (c ∷ cs) =
    then-Returns Any Any (octet_value c) _ (octet_value-Returns c) (λ value p.
      then-Returns Any Any (octet_values cs) (λ rest. ok (value ++ rest)) (octet_values-Returns cs)
        (λ rest q. tt))

weaken :
    {A : Type 0} (m : Result BerError (A × Bytes)) (n k : ℕ)
    → n < k
    → Returns (λ r. length r.1 ≤ n) m
    → Returns (λ r. length r.1 < k) m
weaken (ok r) n k lt p = omega (arith, lt, p)
weaken (err e) n k lt p = p

err_injective : {A : Type 0} {a b : BerError} → ◌≡◌ {A = Result BerError A} (err a) (err b) → a ≡ b
err_injective h = cc

assemble-Returns : (id : ℕ) (children : List Bytes) → Returns Any (assemble id children)
unfolding assemble Any
assemble-Returns id children =
    elim (Bool-cases
      ((id == 36) || (is_context id && (not (is_empty children) && all is_octets children)))) [
        | inl t ↦
            rw (t, assemble, Returns)
              (then-Returns Any Any (octet_values children)
                (λ body. ok (emit (if id == 36 then 4 else id - 32) body))
                (octet_values-Returns children) (λ body p. tt))
        | inr f ↦ rw (f, assemble, Returns) tt
      ]

primitive-Returns :
    (id : ℕ) (len : Option ℕ) (after_len : Bytes)
    → Returns (λ r. length r.1 ≤ length after_len) (primitive id len after_len)
unfolding primitive
primitive-Returns id none after_len = λ e. cc
primitive-Returns id (some len) after_len =
    then-Returns (λ c. Unit) (λ r. length r.1 ≤ length after_len)
      (ok_or (get_prefix len after_len) runs_past_end)
      (λ content. ok (emit id content, drop len after_len))
      (ok_or-Returns (λ c. Unit) (get_prefix len after_len) runs_past_end (λ e. cc) (λ a z. tt))
      (λ content p. omega (arith, length-drop len after_len))

end_of_contents-shorter :
    (region rest : Bytes) → end_of_contents region ≡ some rest → length rest ≤ length region
end_of_contents-shorter [] rest e = cc
end_of_contents-shorter (a ∷ []) rest e = cc
end_of_contents-shorter (a ∷ b ∷ r) rest e = ground (arith, e)

module _ (child : Bytes → Result BerError (Bytes × Bytes))
    (ends : (b : Bytes) → Returns (λ r. length r.1 < length b) (child b)) where
  definite-Returns :
      (fuel : ℕ) (region : Bytes)
      → length region ≤ fuel
      → Returns (λ c. Unit) (definite child fuel region)
  unfolding definite
  definite-Returns fuel [] le = tt
  definite-Returns zero (b ∷ region) le = absurd (omega (arith, le))
  definite-Returns (suc fuel) (b ∷ region) le =
      then-Returns (λ r. length r.1 < length (b ∷ region)) (λ c. Unit) (child (b ∷ region))
        (λ (c, rest). definite child fuel rest >>= λ children. ok (c ∷ children))
        (ends (b ∷ region))
        (λ r p.
          then-Returns (λ c. Unit) (λ c. Unit) (definite child fuel r.1)
            (λ children. ok (r.0 ∷ children)) (definite-Returns fuel r.1 (omega (arith, le, p)))
            (λ children q. tt))

  indefinite-Returns :
      (fuel : ℕ) (region : Bytes)
      → length region < fuel
      → Returns (λ r. length r.1 ≤ length region) (indefinite child fuel region)
  unfolding indefinite
  indefinite-Returns zero region lt = absurd (omega (arith, lt))
  indefinite-Returns (suc fuel) region lt = elim (Option-cases (end_of_contents region)) [
    | inr (rest, e) ↦ rw (e, indefinite, Returns) (end_of_contents-shorter region rest e)
    | inl e ↦
        rw (e, indefinite, Returns)
          (then-Returns (λ r. length r.1 < length region) (λ r. length r.1 ≤ length region)
            (child region)
            (λ (c, rest).
              indefinite child fuel rest >>= λ (children, after). ok (c ∷ children, after))
            (ends region)
            (λ r p.
              then-Returns (λ t. length t.1 ≤ length r.1) (λ t. length t.1 ≤ length region)
                (indefinite child fuel r.1) (λ (children, after). ok (r.0 ∷ children, after))
                (indefinite-Returns fuel r.1 (omega (arith, lt, p))) (λ t q. omega (arith, p, q))))
  ]

  children_of-Returns :
      (len : Option ℕ) (after_len : Bytes)
      → Returns (λ r. length r.1 ≤ length after_len) (children_of child len after_len)
  unfolding children_of
  children_of-Returns none after_len =
      indefinite-Returns (length after_len + 1) after_len (omega arith)
  children_of-Returns (some len) after_len =
      then-Returns (λ c. Unit) (λ r. length r.1 ≤ length after_len)
        (ok_or (get_prefix len after_len) runs_past_end)
        (λ region.
          definite child (length region) region >>= λ children. ok (children, drop len after_len))
        (ok_or-Returns (λ c. Unit) (get_prefix len after_len) runs_past_end (λ e. cc) (λ a z. tt))
        (λ region p.
          then-Returns (λ c. Unit) (λ r. length r.1 ≤ length after_len)
            (definite child (length region) region) (λ children. ok (children, drop len after_len))
            (definite-Returns (length region) region (omega arith))
            (λ children q. omega (arith, length-drop len after_len)))

  transcode_value-Returns :
      (id : ℕ) (rest : Bytes)
      → Returns (λ r. length r.1 < length rest) (transcode_value child id rest)
  unfolding transcode_value Any
  transcode_value-Returns id rest =
      then-Returns (λ r. length r.1 < length rest) (λ r. length r.1 < length rest) (read_len rest) _
        (read_len-Returns rest)
        (λ r p. elim (Bool-cases (is_constructed id)) [
          | inr f ↦
              rw (f, Returns)
                (weaken (primitive id r.0 r.1) (length r.1) (length rest) p
                  (primitive-Returns id r.0 r.1))
          | inl t ↦
              rw (t, Returns)
                (then-Returns (λ s. length s.1 ≤ length r.1) (λ s. length s.1 < length rest)
                  (children_of child r.0 r.1)
                  (λ (children, after). assemble id children >>= λ value. ok (value, after))
                  (children_of-Returns r.0 r.1)
                  (λ s q.
                    then-Returns (λ c. Unit) (λ v. length v.1 < length rest) (assemble id s.0)
                      (λ value. ok (value, s.1)) (assemble-Returns id s.0)
                      (λ value z. omega (arith, p, q))))
        ])

transcode-Returns :
    (left : ℕ) (input : Bytes) → Returns (λ r. length r.1 < length input) (transcode left input)
unfolding transcode
transcode-Returns zero input = λ e. cc
transcode-Returns (suc left) [] = λ e. cc
transcode-Returns (suc left) (id ∷ rest) =
    then-Returns (λ u. Unit) (λ r. length r.1 < length (id ∷ rest))
      (ensure (not (is_high_tag id)) high_tag) (λ u. transcode_value (transcode left) id rest)
      (checked (not (is_high_tag id)))
      (λ u p.
        shorter (transcode_value (transcode left) id rest)
          (transcode_value-Returns (transcode left) (transcode-Returns left) id rest))
  where
    checked : (b : Bool) → Returns (λ u. Unit) (ensure b high_tag)
    checked true = tt
    checked false = λ e. cc

    shorter :
        (m : Result BerError (Bytes × Bytes))
        → Returns (λ r. length r.1 < length rest) m
        → Returns (λ r. length r.1 < length (id ∷ rest)) m
    shorter (ok r) p = omega (arith, p)
    shorter (err e) p = p

-- `to_der` ends on every input, hostile ones included: no loop over children runs out of the rounds that
-- its region gives it.
pub to_der_ends : (input : Bytes) → to_der input ≢ err stuck
unfolding to_der
to_der_ends input = never (to_der input) (
    then-Returns (λ r. length r.1 < length input) (λ c. Unit) (transcode (max_depth + 1) input) _
      (transcode-Returns (max_depth + 1) input) (λ r p. by_rest r.0 r.1))
  where
    by_rest :
        (out rest : Bytes)
        → Returns
            (λ c. Unit)
            (elim rest as (λ r. Result BerError Bytes) [
              | [] ↦ ok out
              | b ∷ bs ↦ err (left_over (length (b ∷ bs)))
            ])
    by_rest out [] = tt
    by_rest out (b ∷ bs) = λ e. cc

    never : (m : Result BerError Bytes) → Returns (λ c. Unit) m → m ≢ err stuck
    never (ok a) p e = cc
    never (err x) p e = p (err_injective e)

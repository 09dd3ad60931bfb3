-- ===== src/Prelude/Text.antt =====
-- What the program uses of Rust's `str`, on the bytes of ASCII text: lines, words, fields, prefixes
-- and decimal numbers.
use Prim.Native.Nat.{ℕ, zero, suc, ◌+◌, ◌-◌, ◌*◌, ◌/◌, ◌%◌, ◌^◌, ◌<◌}
use mathlib.Core.Path.{◌≡◌, refl}
use mathlib.Core.Bool.{Bool, false, ◌&&◌, ◌||◌}
use mathlib.Core.Option.{Option, none, some}
use mathlib.Core.List.{List, [], ◌∷◌, ◌++◌}
use native.Mathlib.Omega.{arith}
use mathlib.Core.Logic.{inl, inr}
use enclave_runtime.Prelude.Tests.{ltb, leb, ◌==◌, ==_iff, Bool-cases, if◌then◌else◌}
use enclave_runtime.Prelude.Lists.{All}

-- str::split on a byte: never empty, and "" gives one empty piece.
unfoldable pub split : ℕ → List ℕ → List (List ℕ)
split sep [] = [] ∷ []
split sep (c ∷ s) = elim (split sep s) [
  | [] ↦ (c ∷ []) ∷ []
  | piece ∷ rest ↦ if c == sep then [] ∷ piece ∷ rest else (c ∷ piece) ∷ rest
]

-- char::is_whitespace on ASCII
abbrev pub is_space : ℕ → Bool
is_space c = (leb 9 c && leb c 13) || (c == 32)

abbrev pub non_empty : List (List ℕ) → List (List ℕ)
non_empty [] = []
non_empty ([] ∷ ps) = non_empty ps
non_empty ((c ∷ p) ∷ ps) = (c ∷ p) ∷ non_empty ps

abbrev spaces_as_one : List ℕ → List ℕ
spaces_as_one [] = []
spaces_as_one (c ∷ s) = (if is_space c then 32 else c) ∷ spaces_as_one s

-- str::split_whitespace
unfoldable pub words : List ℕ → List (List ℕ)
unfolding split
words s = non_empty (split 32 (spaces_as_one s))

abbrev trim_start : List ℕ → List ℕ
trim_start [] = []
trim_start (c ∷ s) = let rest = trim_start s in if is_space c then rest else c ∷ s

abbrev trim_end : List ℕ → List ℕ
trim_end [] = []
trim_end (c ∷ s) = elim (trim_end s) [ [] ↦ if is_space c then [] else c ∷ [] | d ∷ t ↦ c ∷ d ∷ t ]

-- str::trim
unfoldable pub trim : List ℕ → List ℕ
trim s = trim_end (trim_start s)

-- A line that a newline ended, without its carriage return.
abbrev no_return : List ℕ → List ℕ
no_return [] = []
no_return (c ∷ []) = if c == 13 then [] else c ∷ []
no_return (c ∷ d ∷ s) = c ∷ no_return (d ∷ s)

abbrev without_last_empty : List (List ℕ) → List (List ℕ)
without_last_empty [] = []
without_last_empty ([] ∷ []) = []
without_last_empty ((c ∷ p) ∷ []) = (c ∷ p) ∷ []
without_last_empty (p ∷ q ∷ ps) = no_return p ∷ without_last_empty (q ∷ ps)

-- str::lines
unfoldable pub lines : List ℕ → List (List ℕ)
unfolding split
lines s = without_last_empty (split 10 s)

-- str::strip_prefix
unfoldable pub strip_prefix : List ℕ → List ℕ → Option (List ℕ)
strip_prefix [] s = some s
strip_prefix (c ∷ p) [] = none
strip_prefix (c ∷ p) (d ∷ s) = let rest = strip_prefix p s in if c == d then rest else none

-- str::split_once: the text before the first place where the pattern stands, and the text after it.
unfoldable pub split_once : List ℕ → List ℕ → Option (List ℕ × List ℕ)
unfolding strip_prefix
split_once pat [] = elim (strip_prefix pat []) [ none ↦ none | some rest ↦ some ([], rest) ]
split_once pat (c ∷ s) = elim (strip_prefix pat (c ∷ s)) [
  | some rest ↦ some ([], rest)
  | none ↦ elim (split_once pat s) [ none ↦ none | some (before, rest) ↦ some (c ∷ before, rest) ]
]

abbrev is_digit : ℕ → Bool
is_digit c = leb 48 c && leb c 57

abbrev digits_onto : ℕ → List ℕ → Option ℕ
digits_onto acc [] = some acc
digits_onto acc (c ∷ s) =
    let rest = digits_onto (acc * 10 + (c - 48)) s in
    if is_digit c && ltb (acc * 10 + (c - 48)) (2 ^ 64) then rest else none

abbrev digits : List ℕ → Option ℕ
digits [] = none
digits (c ∷ s) = digits_onto 0 (c ∷ s)

-- str::parse::<u64>: digits after at most one plus sign, in range at every digit
unfoldable pub parse_u64 : List ℕ → Option ℕ
parse_u64 [] = none
parse_u64 (c ∷ s) = if c == 43 then digits s else digits (c ∷ s)

-- to_string of a u64, the digits before `tail`: at most 20 of them
abbrev digits_before : ℕ → ℕ → List ℕ → List ℕ
digits_before zero n tail = tail
digits_before (suc fuel) n tail =
    let rest = digits_before fuel (n / 10) ((48 + n % 10) ∷ tail) in
    if ltb n 10 then (48 + n % 10) ∷ tail else rest

unfoldable pub to_string : ℕ → List ℕ
to_string n = digits_before 20 n []

-- A text in which a byte does not stand.
abbrev pub Without : ℕ → List ℕ → Type 0
Without sep s = All (λ c. (c == sep) ≡ false) s

pub split_alone : (sep : ℕ) (s : List ℕ) → Without sep s → split sep s ≡ s ∷ []
unfolding split
split_alone sep [] w = refl
split_alone sep (c ∷ s) w = rw (split_alone sep s w.1, split, w.0) refl

split_some : (sep : ℕ) (s : List ℕ) → (p : List ℕ) × (ps : List (List ℕ)) × (split sep s ≡ p ∷ ps)
unfolding split
split_some sep [] = ([], [], refl)
split_some sep (c ∷ s) =
    let (p, ps, e) = split_some sep s in
    elim (Bool-cases (c == sep)) [
      | inl t ↦ ([], p ∷ ps, rw (e, split, t) refl)
      | inr f ↦ (c ∷ p, ps, rw (e, split, f) refl)
    ]

split_here : (sep : ℕ) (rest : List ℕ) → split sep (sep ∷ rest) ≡ [] ∷ split sep rest
unfolding split
split_here sep rest =
    let (p, ps, e) = split_some sep rest in rw (e, split, (==_iff sep sep).1 refl) refl

pub split_front :
    (sep : ℕ) (s rest : List ℕ) → Without sep s → split sep (s ++ (sep ∷ rest)) ≡ s ∷ split sep rest
unfolding split
split_front sep [] rest w = split_here sep rest
split_front sep (c ∷ s) rest w = rw (split_front sep s rest w.1, split, w.0) refl

pub to_string-Without : (sep n : ℕ) → sep < 48 → Without sep (to_string n)
unfolding to_string
to_string-Without sep n low = go 20 n [] tt
  where
    go : (fuel n : ℕ) (tail : List ℕ) → Without sep tail → Without sep (digits_before fuel n tail)
    go zero n tail w = w
    go (suc fuel) n tail w =
        let c : ((48 + n % 10) == sep) ≡ false = ground (arith, low) in
        elim (Bool-cases (ltb n 10)) [
          | inl t ↦ rw (t, digits_before) ((c, w))
          | inr f ↦ rw (f, digits_before) (go fuel (n / 10) ((48 + n % 10) ∷ tail) (c, w))
        ]

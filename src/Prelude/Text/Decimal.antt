-- ===== src/Prelude/Text/Decimal.antt =====
-- Python's `int(s)` and `s.split(":")` on the code points of a text, and that `int` reads what `str`
-- writes. Of the decimal digits those of ASCII are read.
use Prim.Native.Nat.{ℕ, zero, suc, ◌+◌, ◌-◌, ◌*◌, ◌/◌, ◌%◌, ◌≤◌, ◌<◌}
use Prim.Native.Char.{code}
use Prim.Native.String.{String, ◌++◌ as str_append}
use Prim.Native.String.append
use mathlib.Core.Path.{◌≡◌, refl, ap, ◌∙◌}
use mathlib.Core.Bool.{Bool, true, false, ◌&&◌, ◌||◌}
use mathlib.Core.Logic.{inl, inr}
use mathlib.Core.Option.{Option, none, some}
use mathlib.Core.List.{List, [], ◌∷◌, ◌++◌}
use native.Mathlib.Omega.{arith}
use sovereign_rag_gateway.Prelude.Tests.{ltb→lt, Bool-cases, ltb, leb, ◌==◌, if◌then◌else◌}
use sovereign_rag_gateway.Prelude.Lists.{All, All-map, All-append, length, length-append}
use sovereign_rag_gateway.Prelude.Int.{ℤ, pos, negsuc}
use sovereign_rag_gateway.Prelude.Text.{is_white, digit, digits, show_nat}

unfoldable pub code_points : String → List ℕ
code_points String.[] = []
code_points (String.◌∷◌ ch s) = code ch ∷ code_points s

abbrev is_digit : ℕ → Bool
is_digit c = leb 48 c && leb c 57

-- Digits with single underscores between them; `after_digit` says what stands before.
unfoldable pub digit_run : Bool → ℕ → List ℕ → Option ℕ
digit_run after_digit n [] = if after_digit then some n else none
digit_run after_digit n (c ∷ s) =
    let d : Bool = is_digit c in
    let rest = digit_run d (if d then n * 10 + (c - 48) else n) s in
    if d || c == 95 && after_digit then rest else none

abbrev negated : ℕ → ℤ
negated zero = pos 0
negated (suc n) = negsuc n

abbrev as_ℤ : (ℕ → ℤ) → Option ℕ → Option ℤ
as_ℤ f none = none
as_ℤ f (some n) = some (f n)

unfoldable signed : List ℕ → Option ℤ
unfolding digit_run
signed [] = none
signed (c ∷ s) =
    if c == 45
    then as_ℤ negated (digit_run false 0 s)
    else if c == 43
    then as_ℤ pos (digit_run false 0 s)
    else as_ℤ pos (digit_run false 0 (c ∷ s))

unfoldable trim_start : List ℕ → List ℕ
trim_start [] = []
trim_start (c ∷ s) = let rest = trim_start s in if is_white c then rest else c ∷ s

unfoldable trim_end : List ℕ → List ℕ
trim_end [] = []
trim_end (c ∷ s) = let rest = trim_end s in if is_white c && length rest == 0 then [] else c ∷ rest

-- `int(s)`, none for a ValueError
unfoldable pub int_of : List ℕ → Option ℤ
unfolding signed trim_start trim_end
int_of s = signed (trim_end (trim_start s))

abbrev onto_first : ℕ → List (List ℕ) → List (List ℕ)
onto_first c [] = (c ∷ []) ∷ []
onto_first c (p ∷ ps) = (c ∷ p) ∷ ps

-- `s.split(":")`
unfoldable pub split_colon : List ℕ → List (List ℕ)
split_colon [] = [] ∷ []
split_colon (c ∷ s) = let rest = split_colon s in if c == 58 then [] ∷ rest else onto_first c rest

abbrev pub NoColon : ℕ → Type 0
NoColon c = c == 58 ≡ false

pub split_colon-piece :
    (a b : List ℕ) → All NoColon a → split_colon (a ++ 58 ∷ b) ≡ a ∷ split_colon b
unfolding split_colon
split_colon-piece [] b h = refl
split_colon-piece (c ∷ a) b h = rw (h.0, split_colon-piece a b h.1) refl

pub split_colon-cons : (s : List ℕ) → (p : List ℕ) × (ps : List (List ℕ)) × (split_colon s ≡ p ∷ ps)
unfolding split_colon
split_colon-cons [] = ([], [], refl)
split_colon-cons (c ∷ s) =
    let (p, ps, e) = split_colon-cons s in
    elim (Bool-cases (c == 58)) [
      | inl y ↦ ([], split_colon s, rw y refl)
      | inr n ↦ (c ∷ p, ps, rw (n, e) refl)
    ]

pub code_points-append :
    (a b : String) → code_points (str_append a b) ≡ code_points a ++ code_points b
unfolding code_points
code_points-append String.[] b = rw append.nil refl
code_points-append (String.◌∷◌ ch a) b =
    rw append.cons (ap (λ s. code ch ∷ s) (code_points-append a b))

abbrev IsDigit : ℕ → Type 0
IsDigit c = (48 ≤ c) × (c ≤ 57)

code_points-digit : (d : ℕ) → d < 10 → code_points (digit d) ≡ (48 + d) ∷ []
unfolding digit code_points
code_points-digit zero h = refl
code_points-digit (suc zero) h = refl
code_points-digit (suc (suc zero)) h = refl
code_points-digit (suc (suc (suc zero))) h = refl
code_points-digit (suc (suc (suc (suc zero)))) h = refl
code_points-digit (suc (suc (suc (suc (suc zero))))) h = refl
code_points-digit (suc (suc (suc (suc (suc (suc zero)))))) h = refl
code_points-digit (suc (suc (suc (suc (suc (suc (suc zero))))))) h = refl
code_points-digit (suc (suc (suc (suc (suc (suc (suc (suc zero)))))))) h = refl
code_points-digit (suc (suc (suc (suc (suc (suc (suc (suc (suc zero))))))))) h = refl
code_points-digit (suc (suc (suc (suc (suc (suc (suc (suc (suc (suc d)))))))))) h =
    absurd (omega arith)

-- The number that digits spell behind `n`.
abbrev value : ℕ → List ℕ → ℕ
value n [] = n
value n (c ∷ s) = value (n * 10 + (c - 48)) s

value-append : (n : ℕ) (a b : List ℕ) → value n (a ++ b) ≡ value (value n a) b
value-append n [] b = refl
value-append n (c ∷ a) b = value-append (n * 10 + (c - 48)) a b

-- The text of a number: its digits, which spell it.
digits_lem :
    (fuel n : ℕ)
    → n ≤ fuel
    → let s = code_points (digits fuel n) in All IsDigit s × (value 0 s ≡ n) × (0 < length s)
unfolding digits
digits_lem zero n h =
    let e : n ≡ 0 = omega arith in
    rw e
      (rw (code_points-digit 0 (omega arith)) (((omega arith, omega arith), tt), refl, omega arith))
digits_lem (suc fuel) n h = elim (Bool-cases (ltb n 10)) [
  | inl y ↦
      let small : n < 10 = ltb→lt n 10 y in
      rw (y, code_points-digit n small) (((omega arith, omega arith), tt), omega arith, omega arith)
  | inr m ↦
      let large : 10 ≤ n = ground (arith) in
      let (all, spelt, some_digit) = digits_lem fuel (n / 10) (omega arith) in
      let last = code_points-digit (n % 10) (omega arith) in
      rw
        (
          m,
          code_points-append (digits fuel (n / 10)) (digit (n % 10)),
          last,
          value-append 0 (code_points (digits fuel (n / 10))) ((48 + n % 10) ∷ []),
          spelt,
        )
        (
          All-append IsDigit (code_points (digits fuel (n / 10))) ((48 + n % 10) ∷ []) all
              ((omega arith, omega arith), tt),
          omega arith,
          omega (arith, length-append (code_points (digits fuel (n / 10))) ((48 + n % 10) ∷ [])),
        )
]

run-value : (s : List ℕ) (n : ℕ) → All IsDigit s → digit_run true n s ≡ some (value n s)
unfolding digit_run
run-value [] n h = refl
run-value (c ∷ s) n h =
    let d : is_digit c ≡ true = ground (arith, h) in rw d (run-value s (n * 10 + (c - 48)) h.1)

trim_start-digits : (s : List ℕ) → All IsDigit s → trim_start s ≡ s
unfolding trim_start
trim_start-digits [] h = refl
trim_start-digits (c ∷ s) h = let w : is_white c ≡ false = ground (arith, h) in rw w refl

trim_end-digits : (s : List ℕ) → All IsDigit s → trim_end s ≡ s
unfolding trim_end
trim_end-digits [] h = refl
trim_end-digits (c ∷ s) h =
    let w : is_white c ≡ false = ground (arith, h) in rw w (ap (λ t. c ∷ t) (trim_end-digits s h.1))

signed-digits : (s : List ℕ) → All IsDigit s → 0 < length s → signed s ≡ some (pos (value 0 s))
unfolding signed digit_run
signed-digits [] h k = absurd (omega arith)
signed-digits (c ∷ s) h k =
    let d : is_digit c ≡ true = ground (arith, h) in
    let m : c == 45 ≡ false = ground (arith, h) in
    let p : c == 43 ≡ false = ground (arith, h) in rw (m, p, d, run-value s (0 + (c - 48)) h.1) refl

-- `int(str(n))` is `n`.
pub int_of-show_nat : (n : ℕ) → int_of (code_points (show_nat n)) ≡ some (pos n)
unfolding int_of show_nat
int_of-show_nat n =
    let (all, spelt, some_digit) = digits_lem n n (omega arith) in
    let s = code_points (digits n n) in
    rw (trim_start-digits s all, trim_end-digits s all)
      (signed-digits s all some_digit ∙ ap (λ m. some (pos m)) spelt)

pub show_nat-NoColon : (n : ℕ) → All NoColon (code_points (show_nat n))
unfolding show_nat
show_nat-NoColon n =
    All-map IsDigit NoColon (λ c h. ground (arith, h)) (code_points (digits n n))
      (digits_lem n n (omega arith)).0

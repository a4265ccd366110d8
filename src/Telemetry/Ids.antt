-- ===== src/Telemetry/Ids.antt =====
-- The identifiers of an exported trace have the form that OTLP asks for.
use sovereign_rag_gateway.Prelude.{
  ℕ, zero, suc, ◌-◌, ◌≤◌, ◌≡◌, refl, true, ◌&&◌, ◌||◌, List, [], ◌∷◌, map, keep, leb, length, take,
  All, All-append, length-append, Bool-cases, inl, inr, arith, ap, ap₂, leb→le, ◌<◌,
}
use sovereign_rag_gateway.Telemetry.Otlp.{is_hex, to_lower, zeros, normalize_hex}

-- `[0-9a-f]`
abbrev pub IsLowerHex : ℕ → Type 0
IsLowerHex c = (leb 48 c && leb c 57 || leb 97 c && leb c 102) ≡ true

lowered : (cs : List ℕ) → All IsLowerHex (map to_lower (keep is_hex cs))
lowered [] = tt
lowered (c ∷ cs) = elim (Bool-cases (is_hex c)) [
  | inl y ↦ rw y (ground arith, lowered cs)
  | inr n ↦ rw n (lowered cs)
]

All-take : (P : ℕ → Type 0) (n : ℕ) (xs : List ℕ) → All P xs → All P (take n xs)
All-take P zero xs h = tt
All-take P (suc n) [] h = tt
All-take P (suc n) (x ∷ xs) h = (h.0, All-take P n xs h.1)

length-take : (n : ℕ) (xs : List ℕ) → n ≤ length xs → length (take n xs) ≡ n
length-take zero xs h = refl
length-take (suc n) [] h = absurd (omega arith)
length-take (suc n) (x ∷ xs) h = omega (arith, length-take n xs)

length-zeros : (n : ℕ) → length (zeros n) ≡ n
length-zeros zero = refl
length-zeros (suc n) = omega (arith, length-zeros n)

All-zeros : (n : ℕ) → All IsLowerHex (zeros n)
All-zeros zero = tt
All-zeros (suc n) = (refl, All-zeros n)

take-all : (xs : List ℕ) → take (length xs) xs ≡ xs
take-all [] = refl
take-all (x ∷ xs) = ap (λ ys. x ∷ ys) (take-all xs)

kept_as_is : (cs : List ℕ) → All IsLowerHex cs → map to_lower (keep is_hex cs) ≡ cs
kept_as_is [] h = refl
kept_as_is (c ∷ cs) h =
    let digit : is_hex c ≡ true = ground arith in
    let same : to_lower c ≡ c = ground arith in rw digit (ap₂ ◌∷◌ same (kept_as_is cs h.1))

-- Whatever the identifier, its exported form has just the digits that are asked for, all of them
-- hexadecimal and in lower case; and an identifier that has that form already is exported as it is.
pub normalize_hex-form :
    (value : List ℕ) (n : ℕ)
    → (length (normalize_hex value n) ≡ n)
      × All IsLowerHex (normalize_hex value n)
      × (length value ≡ n → All IsLowerHex value → normalize_hex value n ≡ value)
unfolding normalize_hex
normalize_hex-form value n =
    let digits = map to_lower (keep is_hex value) in
    elim (Bool-cases (leb n (length digits))) [
      | inl y ↦ rw y (
        length-take n digits (leb→le n _ y),
        All-take IsLowerHex n digits (lowered value),
        λ full hex. rw (kept_as_is value hex) (rw (← full) (take-all value)),
      )
      | inr m ↦
          let short : length digits < n = ground arith in
          rw m (
            omega (
              arith,
              length-append (zeros (n - length digits)) digits,
              length-zeros (n - length digits),
            ),
            All-append IsLowerHex (zeros (n - length digits)) digits (All-zeros _) (lowered value),
            λ full hex. absurd (omega (arith, ap length (kept_as_is value hex))),
          )
    ]

-- ===== src/Prelude/Text.antt =====
-- Texts of numbers, and the order of texts.
pub mod Decimal
use Prim.Native.Nat.{ℕ, zero, suc, ◌+◌, ◌/◌, ◌%◌}
use Prim.Native.Char.{code}
use Prim.Native.String.{String, compare, ◌++◌}
use mathlib.Core.Bool.{Bool, false, not, ◌&&◌, ◌||◌}
use text.Mathlib.Text.{is_le, ◌==◌ as str_eq}
use sovereign_rag_gateway.Prelude.Tests.{ltb, leb, ◌==◌, if◌then◌else◌}

digit : ℕ → String
digit n =
    if n == 0
    then "0"
    else if n == 1
    then "1"
    else if n == 2
    then "2"
    else if n == 3
    then "3"
    else if n == 4
    then "4"
    else if n == 5
    then "5"
    else if n == 6
    then "6"
    else if n == 7
    then "7"
    else if n == 8
    then "8"
    else "9"

digits : ℕ → ℕ → String
unfolding digit
digits zero n = digit (n % 10)
digits (suc fuel) n =
    let rest = digits fuel (n / 10) ++ digit (n % 10) in if ltb n 10 then digit n else rest

-- `str(n)`; a number has at most n + 1 digits.
unfoldable pub show_nat : ℕ → String
unfolding digits
show_nat n = digits n n

-- `s <= t` on texts.
abbrev pub str_le : String → String → Bool
str_le s t = is_le (compare s t)

-- The code points that `str.split` and `str.strip` take for white space.
abbrev pub is_white : ℕ → Bool
is_white c =
    leb 9 c && leb c 13
    || leb 28 c && leb c 32
    || c == 133
    || c == 160
    || c == 5760
    || leb 8192 c && leb c 8202
    || c == 8232
    || c == 8233
    || c == 8239
    || c == 8287
    || c == 12288

words_from : Bool → String → ℕ
words_from in_word String.[] = 0
words_from in_word (String.◌∷◌ ch s) =
    let white = is_white (code ch) in
    let rest = words_from (not white) s in
    if white then rest else if in_word then rest else rest + 1

-- `len(s.split())`
unfoldable pub word_count : String → ℕ
unfolding words_from
word_count s = words_from false s

lstrip : String → String
lstrip String.[] = ""
lstrip (String.◌∷◌ ch s) =
    let rest = lstrip s in if is_white (code ch) then rest else String.◌∷◌ ch s

rstrip : String → String
rstrip String.[] = ""
rstrip (String.◌∷◌ ch s) =
    let rest = rstrip s in if is_white (code ch) && str_eq rest "" then "" else String.◌∷◌ ch rest

-- `s.strip()`
unfoldable pub strip : String → String
unfolding lstrip rstrip
strip s = rstrip (lstrip s)

-- ===== src/Webhooks/DeadLetters/Retention.antt =====
-- What the stores hold after a write, and that the two backends hold the same.
use sovereign_rag_gateway.Prelude.{
  ℕ, ◌+◌, ◌≡◌, refl, ap, sym, zero, suc, take, Bool-cases, inl, inr, ◌∙◌, Bool, true, Option, none,
  some, List, [], ◌∷◌, ◌++◌, not, arith, keep, length, All, map, length-append, length-keep-le,
}
use sovereign_rag_gateway.Prelude.Int.{ℤ, pos, pos_part, leb_ℤ}
use sovereign_rag_gateway.Prelude.Text.{str_le}
use sovereign_rag_gateway.Webhooks.DeadLetters.{
  Letter, FileLine, letter, of_letter, limited, jsonl_store, sqlite_store, Clock, retention,
  cutoff_of, is_expired, prune_lines, prune_rows, write, load, load_lines,
}

-- A letter is younger than the retention, by its time.
abbrev pub stays : Clock → Option ℕ → Letter → Bool
stays c none l = true
stays c (some days) l = not (is_expired c (cutoff_of c days) (letter l))

load_lines-letters : (ls : List Letter) → load_lines (map letter ls) ≡ some (map of_letter ls)
unfolding load_lines
load_lines-letters [] = refl
load_lines-letters (l ∷ ls) = rw (load_lines-letters ls) refl

keep-letters :
    (p : FileLine → Bool) (ls : List Letter)
    → keep p (map letter ls) ≡ map letter (keep (λ l. p (letter l)) ls)
keep-letters p [] = refl
keep-letters p (l ∷ ls) = ground (arith, keep-letters p ls)

map-snoc :
    (ls : List Letter) (l : Letter) → map letter ls ++ letter l ∷ [] ≡ map letter (ls ++ l ∷ [])
map-snoc [] l = refl
map-snoc (x ∷ ls) l = ap (λ r. letter x ∷ r) (map-snoc ls l)

take-map : (n : ℕ) (ls : List Letter) → take n (map of_letter ls) ≡ map of_letter (take n ls)
take-map zero ls = refl
take-map (suc n) [] = refl
take-map (suc n) (l ∷ ls) = ap (λ r. of_letter l ∷ r) (take-map n ls)

limited-map :
    (limit : Option ℤ) (ls : List Letter)
    → limited limit (map of_letter ls) ≡ map of_letter (limited limit ls)
limited-map none ls = refl
limited-map (some limit) ls = elim (Bool-cases (leb_ℤ limit (pos 0))) [
  | inl y ↦ rw y refl
  | inr n ↦ rw n (take-map (pos_part limit) ls)
]

keep-all : (ls : List Letter) → keep (λ l. true) ls ≡ ls
keep-all [] = refl
keep-all (l ∷ ls) = ap (λ r. l ∷ r) (keep-all ls)

length-letters : (ls : List Letter) → length (map letter ls) ≡ length ls
length-letters [] = refl
length-letters (l ∷ ls) = ap suc (length-letters ls)

prune_lines-letters :
    (c : Clock) (days : Option ℕ) (ls : List Letter)
    → (prune_lines c days (map letter ls)).0 ≡ map letter (keep (stays c days) ls)
unfolding prune_lines
prune_lines-letters c none ls = ap (map letter) (sym (keep-all ls))
prune_lines-letters c (some days) ls = keep-letters _ ls

prune_lines-count :
    (c : Clock) (days : Option ℕ) (lines : List FileLine)
    → (prune_lines c days lines).1 + length (prune_lines c days lines).0 ≡ length lines
unfolding prune_lines
prune_lines-count c none lines = omega arith
prune_lines-count c (some days) lines =
    omega (arith, length-keep-le (λ l. not (is_expired c (cutoff_of c days) l)) lines)

-- What a write to a file of letters leaves in it, and how many lines go.
prune_lines-write :
    (c : Clock) (l : Letter) (days : Option ℕ) (ls : List Letter)
    → let (kept, pruned) = prune_lines c days (map letter ls ++ letter l ∷ []) in
      let left = keep (stays c days) (ls ++ l ∷ []) in
      (kept ≡ map letter left) × (pruned + length left ≡ length ls + 1)
prune_lines-write c l days ls =
    let lines = map letter ls ++ letter l ∷ [] in
    let kept : (prune_lines c days lines).0 ≡ map letter (keep (stays c days) (ls ++ l ∷ [])) =
      ap (λ r. (prune_lines c days r).0) (map-snoc ls l)
      ∙ prune_lines-letters c days (ls ++ l ∷ []) in
    (
      kept,
      omega (
        arith,
        prune_lines-count c days lines,
        ap length kept,
        length-letters (keep (stays c days) (ls ++ l ∷ [])),
        length-append (map letter ls) (letter l ∷ []),
        length-letters ls,
      ),
    )

-- On a file of letters, a write followed by a load gives the letters of before and the new one, in
-- order, less those older than the retention; the result counts the letters that went.
pub load-write :
    (c : Clock) (l : Letter) (days : Option ℤ) (ls : List Letter)
    → let (result, after) = write c l (jsonl_store days (map letter ls)) in
      let left = keep (stays c (retention days)) (ls ++ l ∷ []) in
      (load none after ≡ some (map of_letter left))
      × (result.written ≡ 1)
      × (result.pruned + length left ≡ length ls + 1)
unfolding write load
load-write c l days ls =
    let (kept, count) = prune_lines-write c l (retention days) ls in
    (rw (kept, load_lines-letters, load) refl, refl, count)

-- At the cutoff the order of the texts of the timestamps is that of the times.
abbrev pub TextsOrdered : Clock → Option ℕ → List Letter → Type 0
TextsOrdered c none ls = Unit
TextsOrdered c (some days) ls =
    All (λ m. str_le (c.isoformat (cutoff_of c days)) m.timestamp ≡ stays c (some days) m) ls

keep-cong :
    (p q : Letter → Bool) (ls : List Letter) → All (λ m. p m ≡ q m) ls → keep p ls ≡ keep q ls
keep-cong p q [] h = refl
keep-cong p q (l ∷ ls) h = ground (arith, keep-cong p q ls h.1)

prune_rows-stays :
    (c : Clock) (days : Option ℕ) (rows : List Letter)
    → TextsOrdered c days rows
    → ((prune_rows c days rows).0 ≡ keep (stays c days) rows)
      × ((prune_rows c days rows).1 + length (keep (stays c days) rows) ≡ length rows)
unfolding prune_rows
prune_rows-stays c none rows h = (sym (keep-all rows), omega (arith, ap length (keep-all rows)))
prune_rows-stays c (some days) rows h =
    let same = keep-cong _ (stays c (some days)) rows h in
    (same, omega (arith, ap length same, length-keep-le (stays c (some days)) rows))

-- Where the texts of the timestamps are in the order of their times, the file and the table that
-- hold the same letters still do so after a write, with the same count of pruned letters.
pub backends_agree :
    (c : Clock) (l : Letter) (days limit : Option ℤ) (ls : List Letter)
    → TextsOrdered c (retention days) (ls ++ l ∷ [])
    → let (result, after) = write c l (jsonl_store days (map letter ls)) in
      let (result', after') = write c l (sqlite_store days ls) in
      (load limit after ≡ load limit after') × (result.pruned ≡ result'.pruned)
unfolding write load
backends_agree c l days limit ls h =
    let (kept, count) = prune_lines-write c l (retention days) ls in
    let (kept', count') = prune_rows-stays c (retention days) (ls ++ l ∷ []) h in
    (
      rw (kept, load_lines-letters, kept', load, write)
          (ap some (limited-map limit (keep (stays c (retention days)) (ls ++ l ∷ [])))),
      omega (arith, count, count', length-append ls (l ∷ [])),
    )

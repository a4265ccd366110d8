-- ===== src/Budget/Examples.antt =====
-- A tracker with a ceiling of 100 tokens in a window of 60 ticks.
use sovereign_rag_gateway.Prelude.{
  ℕ, ◌+◌, ◌<◌, ◌≡◌, refl, none, List, [], ◌∷◌, arith, str_eq, if◌then◌else◌,
}
use sovereign_rag_gateway.Prelude.Dict.{get, put, pop}
use sovereign_rag_gateway.Budget.{Tracker, ceiling_for, current_tokens, check, record_usage, reset}
use sovereign_rag_gateway.Budget.Window.{
  Call, checked, recorded, was_reset, run, ledger_of, spent, fresh, apply, current_tokens-eq-spent,
}
use sovereign_rag_gateway.Budget.Admission.{current_tokens-record_usage, two_checks_overrun}

abbrev calls : List (ℕ × Call)
calls =
    (10, recorded "a" 30)
    ∷ (20, checked "a" 5)
    ∷ (50, recorded "a" 40)
    ∷ (75, checked "a" 1)
    ∷ (80, recorded "b" 7)
    ∷ (90, was_reset "b")
    ∷ []

abbrev used : Tracker
used = run calls (fresh 100 60 [])

current_tokens-eq-spent_example : current_tokens 100 "a" used ≡ spent 40 "a" (ledger_of calls [])
current_tokens-eq-spent_example = current_tokens-eq-spent 100 60 [] calls 100 "a" (
  omega arith,
  (omega arith, (omega arith, (omega arith, (omega arith, (omega arith, omega arith))))),
)

-- Of the two records of "a", the first has left the window.
forty : current_tokens 100 "a" used ≡ 40
unfolding run apply check record_usage reset get put pop
forty = refl

current_tokens-record_usage_example :
    current_tokens 100 "a" (record_usage 100 "a" 9 used)
    ≡ (if str_eq "a" "a" then current_tokens 100 "a" used + 9 else current_tokens 100 "a" used)
current_tokens-record_usage_example = current_tokens-record_usage 100 "a" "a" 9 used

two_checks_overrun_example :
    let first = check 100 "a" 40 used in
    let second = check 100 "a" 50 first.1 in
    let after = record_usage 100 "a" 50 (record_usage 100 "a" 40 second.1) in
    (first.0 ≡ none) × (second.0 ≡ none) × (ceiling_for after "a" < current_tokens 100 "a" after)
unfolding run apply check record_usage reset get put pop
two_checks_overrun_example =
    two_checks_overrun 100 "a" 40 50 used (omega arith) (omega arith) (omega arith)

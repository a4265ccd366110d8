-- ===== src/Redaction.antt =====
-- app/redaction/engine.py: the engine over its patterns. A pattern's regular expression is known by
-- what `regex.subn(replacement, text)` gives; the core patterns are an argument.
pub mod Counts
use sovereign_rag_gateway.Prelude.{
  ℕ, ◌+◌, String, Bool, true, false, Option, none, some, List, [], ◌∷◌, ◌++◌, keep, any_of, ltb,
  if◌then◌else◌,
}
use sovereign_rag_gateway.Models.{Message}

-- `PatternCategory`
pub data Category : Type 0 where
  phi pii financial : Category

abbrev pub category_eq : Category → Category → Bool
category_eq phi phi = true
category_eq pii pii = true
category_eq financial financial = true
category_eq _ _ = false

-- `RedactionPattern`, its regular expression and replacement as the substitution they make.
pub record Pattern : Type 0 where
  pub name : String
  pub subn : String → String × ℕ
  pub category : Category

-- `RedactionEngine.__init__`
unfoldable pub patterns_of : List Pattern → List Pattern → Option (List Category) → List Pattern
patterns_of core extra none = core ++ extra
patterns_of core extra (some enabled) =
    keep (λ p. any_of (category_eq p.category) enabled) (core ++ extra)

-- `TextRedactionResult`; a set is a list without repetition.
pub record TextResult : Type 0 where
  pub text : String
  pub redaction_count : ℕ
  pub matched_categories : List Category

pub record MessagesResult : Type 0 where
  pub messages : List Message
  pub redaction_count : ℕ
  pub matched_categories : List Category

abbrev pub add_category : Category → List Category → List Category
add_category c cs = if any_of (category_eq c) cs then cs else cs ++ c ∷ []

-- One round of the loop of `redact_text`.
abbrev pub redact_pattern : Pattern → TextResult → TextResult
redact_pattern p r =
    let (redacted, substitutions) = p.subn r.text in
    if ltb 0 substitutions
    then record {
      text = redacted;
      redaction_count = r.redaction_count + substitutions;
      matched_categories = add_category p.category r.matched_categories;
    }
    else record r { text = redacted }

unfoldable pub redact_loop : List Pattern → TextResult → TextResult
redact_loop [] r = r
redact_loop (p ∷ ps) r = redact_loop ps (redact_pattern p r)

unfoldable pub redact_text : List Pattern → String → TextResult
redact_text patterns text =
    redact_loop patterns (record { text = text; redaction_count = 0; matched_categories = [] })

abbrev pub union : List Category → List Category → List Category
union cs [] = cs
union cs (d ∷ ds) = union (add_category d cs) ds

-- One round of the loop of `redact_messages`.
abbrev pub redact_message : List Pattern → Message → MessagesResult → MessagesResult
redact_message patterns message r =
    let result = redact_text patterns message.content in
    record {
      messages = r.messages ++ record { role = message.role; content = result.text } ∷ [];
      redaction_count = r.redaction_count + result.redaction_count;
      matched_categories = union r.matched_categories result.matched_categories;
    }

unfoldable pub messages_loop : List Pattern → List Message → MessagesResult → MessagesResult
messages_loop patterns [] r = r
messages_loop patterns (m ∷ ms) r = messages_loop patterns ms (redact_message patterns m r)

unfoldable pub redact_messages : List Pattern → List Message → MessagesResult
redact_messages patterns messages =
    messages_loop patterns messages
      (record { messages = []; redaction_count = 0; matched_categories = [] })

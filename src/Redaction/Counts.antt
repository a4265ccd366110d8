-- ===== src/Redaction/Counts.antt =====
-- What a scan gives, against the scan of each text, and what its count says of the texts.
use sovereign_rag_gateway.Prelude.{
  ℕ, ◌+◌, ◌≡◌, refl, sym, ◌∙◌, String, List, [], ◌∷◌, ◌++◌, arith, map, sum_of, All, ltb,
  Bool-cases, inl, inr, append-nil, append_assoc,
}
use sovereign_rag_gateway.Models.{Message}
use sovereign_rag_gateway.Redaction.{
  Pattern, TextResult, MessagesResult, redact_loop, redact_text, add_category, redact_message,
  messages_loop, redact_messages,
}

module _ (ps : List Pattern) where
  abbrev pub scanned : Message → Message
  scanned m = record { role = m.role; content = (redact_text ps m.content).text }

  messages_loop-all :
      (ms : List Message) (r : MessagesResult)
      → ((messages_loop ps ms r).messages ≡ r.messages ++ map scanned ms)
        × ((messages_loop ps ms r).redaction_count
            ≡ r.redaction_count + sum_of (λ m. (redact_text ps m.content).redaction_count) ms)
  unfolding messages_loop
  messages_loop-all [] r = (sym (append-nil r.messages), omega arith)
  messages_loop-all (m ∷ ms) r =
      let ih = messages_loop-all ms (redact_message ps m r) in
      (ih.0 ∙ append_assoc r.messages (scanned m ∷ []) (map scanned ms), omega (arith, ih.1))

  -- A scan of messages keeps their number, their order and their roles, scans each content on its
  -- own, and counts all the substitutions.
  pub redact_messages-each :
      (ms : List Message)
      → ((redact_messages ps ms).messages ≡ map scanned ms)
        × ((redact_messages ps ms).redaction_count
            ≡ sum_of (λ m. (redact_text ps m.content).redaction_count) ms)
  unfolding redact_messages
  redact_messages-each ms =
      let all =
        messages_loop-all ms
          (record { messages = []; redaction_count = 0; matched_categories = [] }) in
      (all.0, omega (arith, all.1))

-- `subn` leaves a text that it makes no substitution in.
abbrev pub LeavesText : Pattern → Type 0
LeavesText p = (s : String) → (p.subn s).1 ≡ 0 → (p.subn s).0 ≡ s

redact_loop-grows :
    (ps : List Pattern) (r : TextResult)
    → (n : ℕ) × ((redact_loop ps r).redaction_count ≡ r.redaction_count + n)
unfolding redact_loop
redact_loop-grows [] r = (0, omega arith)
redact_loop-grows (p ∷ ps) r = elim (Bool-cases (ltb 0 (p.subn r.text).1)) [
  | inl y ↦ simp y (
      let (n, e) = redact_loop-grows ps (record {
        text = (p.subn r.text).0;
        redaction_count = r.redaction_count + (p.subn r.text).1;
        matched_categories = add_category p.category r.matched_categories;
      }) in
      ((p.subn r.text).1 + n, omega (arith, e)))
  | inr n ↦ simp n (redact_loop-grows ps (record r { text = (p.subn r.text).0 }))
]

redact_loop-zero :
    (ps : List Pattern) (r : TextResult)
    → All LeavesText ps
    → (redact_loop ps r).redaction_count ≡ 0
    → ((redact_loop ps r).text ≡ r.text)
      × ((redact_loop ps r).matched_categories ≡ r.matched_categories)
unfolding redact_loop
redact_loop-zero [] r h = λ e. (refl, refl)
redact_loop-zero (p ∷ ps) r h = elim (Bool-cases (ltb 0 (p.subn r.text).1)) [
  | inl y ↦ simp y (λ e. absurd (
      let (n, g) = redact_loop-grows ps (record {
        text = (p.subn r.text).0;
        redaction_count = r.redaction_count + (p.subn r.text).1;
        matched_categories = add_category p.category r.matched_categories;
      }) in
      ground (arith, g, e)))
  | inr n ↦ simp n (λ e.
      let ih = redact_loop-zero ps (record r { text = (p.subn r.text).0 }) h.1 e in
      (ih.0 ∙ h.0 r.text (ground arith), ih.1))
]

-- A count of 0 means that the text is the one that was given, and that no category is named.
pub redact_text-zero :
    (ps : List Pattern) (s : String)
    → All LeavesText ps
    → (redact_text ps s).redaction_count ≡ 0
    → ((redact_text ps s).text ≡ s) × ((redact_text ps s).matched_categories ≡ [])
unfolding redact_text
redact_text-zero ps s h e = redact_loop-zero ps _ h e

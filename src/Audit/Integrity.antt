-- ===== src/Audit/Integrity.antt =====
-- What the writer does keep: earlier lines stay, and each line carries the hash of its own content.
use sovereign_rag_gateway.Prelude.{
  ap, ℕ, ◌≡◌, refl, sym, String, true, false, Option, none, some, List, [], ◌∷◌, inl, inr, ◌++◌,
  arith, str_eq, eq_refl, append-nil, append_assoc, Bool-cases, Option-cases,
}
use sovereign_rag_gateway.Prelude.Dict.{Dict, get, get-put, pop-put_new}
use sovereign_rag_gateway.Audit.Chain.{text_at-put}
use sovereign_rag_gateway.Audit.{
  Codec, Disk, written, set_default, prev_hash_of, linked, sealed, append_line, persist,
  write_event, Call, write_all, is_event_hash_valid, collect, calculate_payload_hash,
}

-- The bytes of the file, none if there is no file.
abbrev pub content : Option (List ℕ) → List ℕ
content none = []
content (some file) = file

written-injective : {V : Type 0} {p q : Dict V} → written p ≡ written q → p ≡ q
written-injective {p = p} h = ap (λ w. elim w [ written x ↦ x | _ ↦ p ]) h

module _ (c : Codec) where
  open c use {Value, text, show, dumps, canonical, loads, sha256_hex, valid, show-text}

  -- The lines of some payloads, in order.
  pub lines_of : List (Dict Value) → List ℕ
  lines_of [] = []
  lines_of (p ∷ ps) = (dumps p ++ b'\n' ∷ []) ++ lines_of ps

  content-append_line :
      (p : Dict Value) (log : Option (List ℕ))
      → content (append_line c p log) ≡ content log ++ (dumps p ++ b'\n' ∷ [])
  unfolding append_line
  content-append_line p none = refl
  content-append_line p (some file) = append_assoc file (dumps p) (b'\n' ∷ [])

  content-persist :
      (disk : Disk) (p : Dict Value) (log : Option (List ℕ)) (ps : List (Dict Value))
      → content (persist c disk p log).1 ++ lines_of ps
        ≡ content log ++ lines_of (collect c (persist c disk p log).0 ps)
  unfolding lines_of
  content-persist disk p log ps = elim (Bool-cases (valid p)) [
    | inl e ↦ rw e (elim (Bool-cases disk.appends) [
      | inl a ↦ rw (a, content-append_line p log) (append_assoc (content log) _ (lines_of ps))
      | inr a ↦ rw a refl
    ])
    | inr e ↦ rw e refl
  ]

  content-write_event :
      (disk : Disk) (event_id created_at : String) (event : Dict Value) (log : Option (List ℕ))
      (ps : List (Dict Value))
      → content (write_event c disk event_id created_at event log).1 ++ lines_of ps
        ≡ content log
          ++ lines_of (collect c (write_event c disk event_id created_at event log).0 ps)
  unfolding write_event
  content-write_event disk event_id created_at event log ps =
      elim (Option-cases (prev_hash_of c disk log)) [
        | inl e ↦ rw (e, write_event) refl
        | inr (h, e) ↦ rw (e, write_event) (content-persist disk _ log ps)
      ]

  -- The log only grows: after any calls it is the log before, then one line for each payload that
  -- was persisted, in order. A refused event leaves the log as it was.
  pub content-write_all :
      (ks : List (Call c)) (log : Option (List ℕ))
      → content (write_all c ks log).1 ≡ content log ++ lines_of (write_all c ks log).0
  unfolding write_all lines_of
  content-write_all [] log = sym (append-nil (content log))
  content-write_all (k ∷ ks) log =
      rw (content-write_all ks (write_event c k.disk k.event_id k.created_at k.event log).1)
        (content-write_event k.disk k.event_id k.created_at k.event log _)

  get-set_default :
      (k j : String) (v : Value) (d : Dict Value)
      → get j d ≡ none
      → str_eq k j ≡ false
      → get j (set_default k v d) ≡ none
  get-set_default k j v d h n = ground (arith, get-put k j v d)

  payload_hash-linked :
      (event_id created_at prev_hash : String) (event : Dict Value)
      → get "payload_hash" event ≡ none
      → get "payload_hash" (linked c event_id created_at prev_hash event) ≡ none
  unfolding linked
  payload_hash-linked event_id created_at prev_hash event h = rw get-put (
      get-set_default "created_at" "payload_hash" _ _
        (get-set_default "event_id" "payload_hash" _ event h refl) refl)

  is_event_hash_valid-sealed :
      (p : Dict Value) → get "payload_hash" p ≡ none → is_event_hash_valid c (sealed c p) ≡ true
  unfolding is_event_hash_valid sealed calculate_payload_hash
  is_event_hash_valid-sealed p h =
      rw (pop-put_new "payload_hash" _ p h) (simp (text_at-put c, show-text) (eq_refl _))

  -- A persisted payload carries the hash of the rest of its content, as the replay script checks,
  -- if the event came without a `payload_hash` of its own.
  pub write_event-is_event_hash_valid :
      (disk : Disk) (event_id created_at : String) (event : Dict Value) (log : Option (List ℕ))
      (p : Dict Value)
      → get "payload_hash" event ≡ none
      → (write_event c disk event_id created_at event log).0 ≡ written p
      → is_event_hash_valid c p ≡ true
  unfolding write_event
  write_event-is_event_hash_valid disk event_id created_at event log p h e =
      elim (Option-cases (prev_hash_of c disk log)) [
        | inl f ↦ ground arith
        | inr (prev, f) ↦
            let q = linked c event_id created_at prev event in
            ground (
              arith,
              is_event_hash_valid-sealed q (payload_hash-linked event_id created_at prev event h),
            )
      ]

  -- A payload that is persisted is one more line of the log.
  pub write_event-append_line :
      (disk : Disk) (event_id created_at : String) (event : Dict Value) (log : Option (List ℕ))
      (p : Dict Value)
      → (write_event c disk event_id created_at event log).0 ≡ written p
      → (write_event c disk event_id created_at event log).1 ≡ append_line c p log
  unfolding write_event
  write_event-append_line disk event_id created_at event log p =
      elim (Option-cases (prev_hash_of c disk log)) [
        | inl f ↦ rw (f, write_event) (λ h. absurd (ground arith))
        | inr (prev, f) ↦
            let q = sealed c (linked c event_id created_at prev event) in
            rw (f, write_event)
              (elim (Bool-cases (c.valid q)) [
                | inl y ↦ rw y (elim (Bool-cases disk.appends) [
                  | inl a ↦ rw a (λ h. ap (λ x. append_line c x log) (written-injective h))
                  | inr a ↦ rw a (λ h. absurd (ground arith))
                ])
                | inr n ↦ rw n (λ h. absurd (ground arith))
              ])
      ]

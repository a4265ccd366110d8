-- ===== src/Audit/Chain.antt =====
-- What `_read_last_line` and the link of app/audit/writer.py do on the logs that the writer makes.
use sovereign_rag_gateway.Prelude.{
  ℕ, suc, ◌≡◌, ◌⊎◌, refl, inl, inr, String, false, Option, none, some, List, [], ◌∷◌, ◌++◌, arith,
  str_eq, eq_iff, if◌then◌else◌, length, drop, All, All-map, Bool-cases,
}
use sovereign_rag_gateway.Prelude.Dict.{Dict, put, get-put}
use sovereign_rag_gateway.Audit.{
  Codec, Disk, crashed, prev_hash_of, byte_at, find_start, read_last_line, text_at,
  last_payload_hash, linked, sealed, append_line, persist, write_event, Call, write_all,
  verify_hash_chain, collect,
}

byte_at-append : (xs : List ℕ) (b : ℕ) → byte_at (length xs) (xs ++ b ∷ []) ≡ b
byte_at-append [] b = refl
byte_at-append (x ∷ xs) b = byte_at-append xs b

drop-length : (xs : List ℕ) → drop (length xs) xs ≡ []
drop-length [] = refl
drop-length (x ∷ xs) = drop-length xs

length-snoc : (xs : List ℕ) (b : ℕ) → length (xs ++ b ∷ []) ≡ suc (length xs)
length-snoc [] b = refl
length-snoc (x ∷ xs) b = omega (arith, length-snoc xs b)

find_start-newline :
    (x : ℕ) (xs : List ℕ)
    → find_start (x ∷ (xs ++ b'\n' ∷ [])) (suc (length xs)) ≡ suc (suc (length xs))
unfolding find_start
find_start-newline x xs = ground (arith, byte_at-append xs b'\n')

drop_all-snoc : (xs : List ℕ) (b : ℕ) → drop (suc (length xs)) (xs ++ b ∷ []) ≡ []
drop_all-snoc [] b = refl
drop_all-snoc (x ∷ xs) b = drop_all-snoc xs b

-- A file that ends with a newline has an empty last line: the loop stops at the final newline.
read_last_line-newline : (bs : List ℕ) → read_last_line (bs ++ b'\n' ∷ []) ≡ []
unfolding read_last_line
read_last_line-newline [] = refl
read_last_line-newline (x ∷ xs) = rw (length-snoc, find_start-newline, drop_all-snoc xs b'\n') refl

-- The log is not there yet, or ends with a newline, as after every append.
abbrev pub IsLog : Option (List ℕ) → Type 0
IsLog none = Unit
IsLog (some file) = (bs : List ℕ) × (file ≡ bs ++ b'\n' ∷ [])

module _ (c : Codec) where
  open c use {Value, text, show, dumps, canonical, loads, sha256_hex, valid, show-text}

  last_payload_hash_empty : (log : Option (List ℕ)) → IsLog log → last_payload_hash c log ≡ some ""
  unfolding last_payload_hash
  last_payload_hash_empty none h = refl
  last_payload_hash_empty (some file) h = rw (h.1, read_last_line-newline, last_payload_hash) refl

  append_line-IsLog :
      (p : Dict Value) (log : Option (List ℕ)) → IsLog log → IsLog (append_line c p log)
  unfolding append_line
  append_line-IsLog p none h = (dumps p, refl)
  append_line-IsLog p (some file) h = (file ++ dumps p, refl)

  persist-IsLog :
      (disk : Disk) (p : Dict Value) (log : Option (List ℕ))
      → IsLog log
      → IsLog (persist c disk p log).1
  persist-IsLog disk p log h = elim (Bool-cases (valid p)) [
    | inl e ↦ rw e (elim (Bool-cases disk.appends) [
      | inl a ↦ rw a (append_line-IsLog p log h)
      | inr a ↦ rw a h
    ])
    | inr e ↦ rw e h
  ]

  prev_hash_empty :
      (disk : Disk) (log : Option (List ℕ))
      → IsLog log
      → (prev_hash_of c disk log ≡ some "") ⊎ (prev_hash_of c disk log ≡ none)
  prev_hash_empty disk none h = inl (last_payload_hash_empty none h)
  prev_hash_empty disk (some file) h = elim (Bool-cases disk.reads) [
    | inl r ↦ rw r (inl (last_payload_hash_empty (some file) h))
    | inr r ↦ rw r (inr refl)
  ]

  -- On such a log the call seals the event with an empty link, and persists it or refuses it, or it
  -- cannot read the file.
  write_event-persist :
      (disk : Disk) (event_id created_at : String) (event : Dict Value) (log : Option (List ℕ))
      → IsLog log
      → (write_event c disk event_id created_at event log
          ≡ persist c disk (sealed c (linked c event_id created_at "" event)) log)
        ⊎ (write_event c disk event_id created_at event log ≡ (crashed, log))
  unfolding write_event
  write_event-persist disk event_id created_at event log h = elim (prev_hash_empty disk log h) [
    | inl e ↦ rw (e, write_event) (inl refl)
    | inr e ↦ rw (e, write_event) (inr refl)
  ]

  pub text_at-put :
      (k j : String) (v : Value) (d : Dict Value)
      → text_at c j (put k v d) ≡ (if str_eq k j then show v else text_at c j d)
  unfolding text_at
  text_at-put k j v d = ground (arith, get-put k j v d)

  prev_hash-sealed :
      (event_id created_at : String) (event : Dict Value)
      → text_at c "prev_hash" (sealed c (linked c event_id created_at "" event)) ≡ ""
  unfolding sealed linked
  prev_hash-sealed event_id created_at event = simp (text_at-put, show-text)

  payload_hash-sealed : (p : Dict Value) → str_eq (text_at c "payload_hash" (sealed c p)) "" ≡ false
  unfolding sealed
  payload_hash-sealed p = simp (text_at-put, show-text) (c.digest_nonempty _)

  -- The properties of one persisted payload that the chain check reads.
  abbrev Unlinked : Dict Value → Type 0
  Unlinked p = (text_at c "prev_hash" p ≡ "") × (str_eq (text_at c "payload_hash" p) "" ≡ false)

  collect-Unlinked :
      (disk : Disk) (p : Dict Value) (log : Option (List ℕ)) (ps : List (Dict Value))
      → Unlinked p
      → All Unlinked ps
      → All Unlinked (collect c (persist c disk p log).0 ps)
  collect-Unlinked disk p log ps h hs = elim (Bool-cases (valid p)) [
    | inl e ↦ rw e (elim (Bool-cases disk.appends) [ inl a ↦ rw a (h, hs) | inr a ↦ rw a hs ])
    | inr e ↦ rw e hs
  ]

  write_all-Unlinked :
      (ks : List (Call c)) (log : Option (List ℕ)) → IsLog log → All Unlinked (write_all c ks log).0
  unfolding write_all
  write_all-Unlinked [] log h = tt
  write_all-Unlinked (k ∷ ks) log h =
      elim (write_event-persist k.disk k.event_id k.created_at k.event log h) [
        | inl e ↦ rw e (
            collect-Unlinked k.disk _ log _ (prev_hash-sealed _ _ _, payload_hash-sealed _)
              (write_all-Unlinked ks _ (persist-IsLog k.disk _ log h)))
        | inr e ↦ rw e (write_all-Unlinked ks log h)
      ]

  broken_link :
      (p q : Dict Value) (ps : List (Dict Value))
      → Unlinked p
      → Unlinked q
      → verify_hash_chain c (p ∷ q ∷ ps) ≡ false
  unfolding verify_hash_chain
  broken_link p q ps hp hq = ground (
    arith,
    eq_iff (text_at c "prev_hash" q) (text_at c "payload_hash" p),
    eq_iff (text_at c "payload_hash" p) "",
  )

  -- Whatever events are written to a log of the writer's own making, each that is persisted has an
  -- empty link, and where at least two are, the chain check refuses them.
  pub write_all_unchained :
      (ks : List (Call c)) (log : Option (List ℕ))
      → IsLog log
      → All (λ p. text_at c "prev_hash" p ≡ "") (write_all c ks log).0
        × ((p q : Dict Value) (ps : List (Dict Value))
            → (write_all c ks log).0 ≡ p ∷ q ∷ ps
            → verify_hash_chain c (write_all c ks log).0 ≡ false)
  write_all_unchained ks log h =
      let all = write_all-Unlinked ks log h in
      (
        All-map _ _ (λ p u. u.0) _ all,
        λ p q ps e. rw e (
            let both : All Unlinked (p ∷ q ∷ ps) = rw e at all in
            broken_link p q ps both.0 both.1.0),
      )

-- ===== src/Audit/Examples.antt =====
-- Runs of the audit writer over a small codec: a value is a text, a line its keys and values, and
-- the digest the parity of the bytes hashed.
use Prim.Native.Char.{code}
use sovereign_rag_gateway.Prelude.{
  ℕ, ◌%◌, ◌≡◌, ◌≢◌, refl, String, true, false, none, List, [], ◌∷◌, ◌++◌, arith, ◌==◌, str_eq,
  if◌then◌else◌, All, All-append, sum_of, Bool-cases, inl, inr,
}
use sovereign_rag_gateway.Prelude.Dict.{Dict, get, put}
use sovereign_rag_gateway.Audit.{
  Codec, Disk, object, write_event, Call, write_all, verify_hash_chain, is_event_hash_valid,
  text_at, last_payload_hash, append_line, read_last_line, sealed, linked,
}
use sovereign_rag_gateway.Audit.Chain.{write_all_unchained}
use sovereign_rag_gateway.Audit.Integrity.{
  content, lines_of, content-write_all, write_event-is_event_hash_valid,
}

-- A newline is escaped, here as a blank.
abbrev pub escaped : String → List ℕ
escaped String.[] = []
escaped (String.◌∷◌ ch s) = (if code ch == b'\n' then 32 else code ch) ∷ escaped s

abbrev pub line : Dict String → List ℕ
line [] = []
line ((k, v) ∷ d) = (escaped k ++ escaped v) ++ line d

abbrev pub digest : List ℕ → String
digest bs = if sum_of (λ b. b) bs % 2 == 0 then "even" else "odd"

pub escaped_clean : (s : String) → All (λ b. b ≢ b'\n') (escaped s)
escaped_clean String.[] = tt
escaped_clean (String.◌∷◌ ch s) = (ground arith, escaped_clean s)

pub line_clean : (d : Dict String) → All (λ b. b ≢ b'\n') (line d)
line_clean [] = tt
line_clean ((k, v) ∷ d) =
    All-append _ _ (line d) (All-append _ _ (escaped v) (escaped_clean k) (escaped_clean v))
      (line_clean d)

pub digest_found : (bs : List ℕ) → str_eq (digest bs) "" ≡ false
digest_found bs = elim (Bool-cases (sum_of (λ b. b) bs % 2 == 0)) [
  | inl e ↦ rw e refl
  | inr e ↦ rw e refl
]

abbrev pub codec : Codec
codec = record {
  Value = String;
  text = λ s. s;
  show = λ s. s;
  dumps = line;
  canonical = line;
  loads = λ bs. object [];
  sha256_hex = digest;
  valid = λ d. true;
  show-text = λ s. refl;
  dumps_no_newline = line_clean;
  digest_nonempty = digest_found;
}

abbrev pub healthy : Disk
healthy = record { reads = true; appends = true }

abbrev calls : List (Call codec)
calls =
    record { disk = healthy; event_id = "e1"; created_at = "t1"; event = ("request_id", "r1") ∷ [] }
    ∷ record {
      disk = healthy;
      event_id = "e2";
      created_at = "t2";
      event = ("request_id", "r2") ∷ [];
    }
    ∷ []

abbrev persisted : List (Dict String)
persisted = (write_all codec calls none).0

two_persisted : (p : Dict String) × (q : Dict String) × (persisted ≡ p ∷ q ∷ [])
unfolding write_all write_event last_payload_hash append_line read_last_line sealed linked get put
two_persisted = (_, _, refl)

write_all_unchained_example :
    All (λ p. text_at codec "prev_hash" p ≡ "") persisted
    × ((p q : Dict String) (ps : List (Dict String))
        → persisted ≡ p ∷ q ∷ ps
        → verify_hash_chain codec persisted ≡ false)
write_all_unchained_example = write_all_unchained codec calls none tt

content-write_all_example : content (write_all codec calls none).1 ≡ [] ++ lines_of codec persisted
content-write_all_example = content-write_all codec calls none

abbrev first : Dict String
first = sealed codec (linked codec "e1" "t1" "" (("request_id", "r1") ∷ []))

write_event-is_event_hash_valid_example : is_event_hash_valid codec first ≡ true
unfolding write_event last_payload_hash get
write_event-is_event_hash_valid_example =
    write_event-is_event_hash_valid codec healthy "e1" "t1" (("request_id", "r1") ∷ []) none first
      refl refl

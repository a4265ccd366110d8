-- ===== src/Budget/Redis/SortedSets.antt =====
-- What Redis documents of the operations on sorted sets that the token budget calls, and the tokens of
-- a set from a cutoff on.
use Prim.Native.String.{◌++◌ as str_append}
use Prim.Native.String.append
use sovereign_rag_gateway.Prelude.{
  ℕ, suc, ◌+◌, ◌<◌, ◌≡◌, refl, ap, String, Bool, true, false, not, ◌&&◌, some, List, [], ◌∷◌, ◌++◌,
  ◌⊎◌, arith, leb, str_eq, eq_iff, if◌then◌else◌, keep, map, sum_of, All, ◌∙◌, sym,
}
use sovereign_rag_gateway.Prelude.Text.{show_nat}
use sovereign_rag_gateway.Prelude.Text.Decimal.{
  code_points, split_colon-piece, split_colon-cons, code_points-append, NoColon, int_of-show_nat,
  show_nat-NoColon,
}
use sovereign_rag_gateway.Budget.Redis.{
  Server, RedisTracker, key_of, member_tokens, member_text, tokens_of,
}

-- An entry of a sorted set: its score and its member.
abbrev pub ScoredMember : Type 0
ScoredMember = ℕ × String

-- The sorted set of a key, by score, and whether the key is gone at a time.
pub record SortedSets (sv : Server) : Type 0 where
  pub scored : String → sv.Keys → List ScoredMember
  pub expired : String → sv.Keys → ℕ → Bool
  -- An expired key is dropped.
  pub elapsed :
      (k : String) (t : ℕ) (s : sv.Keys)
      → scored k (sv.elapse t s) ≡ (if expired k s t then [] else scored k s)
  pub elapsed_expiry :
      (k : String) (t u : ℕ) (s : sv.Keys)
      → expired k (sv.elapse t s) u ≡ true
      → (scored k (sv.elapse t s) ≡ []) ⊎ (expired k s u ≡ true)
  -- ZREMRANGEBYSCORE drops the entries whose scores lie between the bounds, both included.
  pub removed :
      (k j : String) (lo hi : ℕ) (s : sv.Keys)
      → (sv.zremrangebyscore k lo hi s).0 ≡ true
      → scored j (sv.zremrangebyscore k lo hi s).1 ≡ (
          if str_eq k j
          then keep (λ e. not (leb lo e.0 && leb e.0 hi)) (scored j s)
          else scored j s)
  pub removed_expiry :
      (k j : String) (lo hi u : ℕ) (s : sv.Keys)
      → (sv.zremrangebyscore k lo hi s).0 ≡ true
      → expired j (sv.zremrangebyscore k lo hi s).1 u ≡ true
      → (scored j (sv.zremrangebyscore k lo hi s).1 ≡ []) ⊎ (expired j s u ≡ true)
  -- ZRANGEBYSCORE lists the members from the lower bound on, this included.
  pub ranged :
      (k : String) (lo : ℕ) (s : sv.Keys) (members : List String)
      → sv.zrangebyscore k lo s ≡ some members
      → members ≡ map (λ e. e.1) (keep (λ e. leb lo e.0) (scored k s))
  -- ZADD puts a new member at its place by score, and EXPIRE sets the time from which the key is gone.
  pub added :
      (now : ℕ) (k m : String) (score ttl : ℕ) (s : sv.Keys)
      → (sv.zadd_expire now k m score ttl s).0 ≡ true
      → All (λ e. str_eq e.1 m ≡ false) (scored k s)
      → (xs : List ScoredMember) × (ys : List ScoredMember) × (scored k s ≡ xs ++ ys)
        × (scored k (sv.zadd_expire now k m score ttl s).1 ≡ xs ++ (score, m) ∷ ys)
  pub added_expiry :
      (now : ℕ) (k m : String) (score ttl u : ℕ) (s : sv.Keys)
      → (sv.zadd_expire now k m score ttl s).0 ≡ true
      → expired k (sv.zadd_expire now k m score ttl s).1 u ≡ leb (now + ttl) u
  pub added_elsewhere :
      (now : ℕ) (k j m : String) (score ttl : ℕ) (s : sv.Keys)
      → (sv.zadd_expire now k m score ttl s).0 ≡ true
      → str_eq k j ≡ false
      → (scored j (sv.zadd_expire now k m score ttl s).1 ≡ scored j s)
        × ((u : ℕ) → expired j (sv.zadd_expire now k m score ttl s).1 u ≡ expired j s u)

-- The tokens of the entries from a cutoff on.
abbrev pub tokens_from : ℕ → ScoredMember → ℕ
tokens_from d e = if leb d e.0 then member_tokens e.1 else 0

abbrev pub total : ℕ → List ScoredMember → ℕ
total d es = sum_of (tokens_from d) es

pub total-keep :
    (c d : ℕ) (es : List ScoredMember)
    → c < d
    → total d (keep (λ e. not (leb 0 e.0 && leb e.0 c)) es) ≡ total d es
total-keep c d [] h = refl
total-keep c d (e ∷ es) h = ground (arith, total-keep c d es h)

-- What is left after a removal up to the cutoff, read from the cutoff on.
pub read_total :
    (c : ℕ) (es : List ScoredMember)
    → sum_of member_tokens
        (map (λ e. e.1) (keep (λ e. leb c e.0) (keep (λ e. not (leb 0 e.0 && leb e.0 c)) es)))
      ≡ total (suc c) es
read_total c [] = refl
read_total c (e ∷ es) = ground (arith, read_total c es)

pub total-old : (d : ℕ) (es : List ScoredMember) → All (λ e. e.0 < d) es → total d es ≡ 0
total-old d [] h = refl
total-old d (e ∷ es) h = ground (arith, total-old d es h.1, h.0)

pub total-insert :
    (d : ℕ) (xs ys : List ScoredMember) (e : ScoredMember)
    → total d (xs ++ e ∷ ys) ≡ tokens_from d e + total d (xs ++ ys)
total-insert d [] ys e = refl
total-insert d (x ∷ xs) ys e = omega (arith, total-insert d xs ys e)

pub All-insert :
    (P : ScoredMember → Type 0) (xs ys : List ScoredMember) (e : ScoredMember)
    → All P (xs ++ ys)
    → P e
    → All P (xs ++ e ∷ ys)
All-insert P [] ys e h p = (p, h)
All-insert P (x ∷ xs) ys e h p = (h.0, All-insert P xs ys e h.1 p)

-- The tokens that `record` writes into a member are those that `_member_tokens` reads from it, if the
-- text of the time has no colon.
pub member_tokens-member_text :
    (stamp uuid : String) (n : ℕ)
    → All NoColon (code_points stamp)
    → member_tokens (member_text stamp n uuid) ≡ n
unfolding member_tokens member_text code_points
member_tokens-member_text stamp uuid n h =
    let last = str_append ":" uuid in
    let rest = str_append (show_nat n) last in
    let number =
      split_colon-piece (code_points (show_nat n)) (code_points uuid) (show_nat-NoColon n) in
    rw
      (
        code_points-append stamp (str_append ":" rest),
        code_points-append ":" rest,
        code_points-append (show_nat n) last,
        code_points-append ":" uuid,
        split_colon-piece (code_points stamp) (code_points (show_nat n) ++ 58 ∷ code_points uuid) h,
        number,
      )
      (let (p, ps, split) = split_colon-cons (code_points uuid) in
        rw split (ap tokens_of (int_of-show_nat n)))

tail_of : String → String
tail_of String.[] = ""
tail_of (String.◌∷◌ c s) = s

append_cancel : (p a b : String) → str_append p a ≡ str_append p b → a ≡ b
unfolding tail_of
append_cancel String.[] a b h = sym (append.nil a) ∙ h ∙ append.nil b
append_cancel (String.◌∷◌ c p) a b h =
    append_cancel p a b (ap tail_of (sym (append.cons c p a) ∙ h ∙ append.cons c p b))

-- Two tenants have two keys.
pub key_of-eq : (t : RedisTracker) (k j : String) → str_eq (key_of t k) (key_of t j) ≡ str_eq k j
key_of-eq t k j =
    let tail : key_of t k ≡ key_of t j → k ≡ j = λ h.
      append_cancel ":" k j (append_cancel t.key_prefix (str_append ":" k) (str_append ":" j) h) in
    let same : k ≡ j → key_of t k ≡ key_of t j = λ e. ap (key_of t) e in
    ground (arith, eq_iff (key_of t k) (key_of t j), eq_iff k j, tail, same)

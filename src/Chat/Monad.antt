-- ===== src/Chat/Monad.antt =====
-- Actions that change a state and may end in an error, as the handlers of streams and embeddings
-- chain them, and what such a chain leaves as it was.
use sovereign_rag_gateway.Prelude.{◌≡◌, refl, ◌∙◌, arith}
use sovereign_rag_gateway.Chat.Service.{Result, ok, failed, crashed}

abbrev pub M : Type 0 → Type 0 → Type 0
M S A = S → Result A × S

unfoldable pub continue : {S A B : Type 0} → Result A × S → (A → M S B) → Result B × S
continue (ok a, s) f = f a s
continue (failed e, s) f = (failed e, s)
continue (crashed, s) f = (crashed, s)

infixl 5 ◌>>=◌ ◌>>◌
abbrev pub ◌>>=◌ : {S A B : Type 0} → M S A → (A → M S B) → M S B
◌>>=◌ m f s = continue (m s) f

abbrev pub ◌>>◌ : {S B : Type 0} → M S (Unit {0}) → M S B → M S B
m >> k = m >>= λ _. k

-- A result that does not touch the state.
abbrev pub lift : {S A : Type 0} → Result A → M S A
lift r s = (r, s)

-- However the action ends, the part of the state is as before.
abbrev pub Keeps : {S T A : Type 0} → (S → T) → M S A → Type 0
Keeps {S} part m = (s : S) → part (m s).1 ≡ part s

pub continue-Keeps :
    {S T A B : Type 0} (part : S → T) (s : S) (x : Result A × S) (f : A → M S B)
    → part x.1 ≡ part s
    → ((a : A) → Keeps part (f a))
    → part (continue x f).1 ≡ part s
unfolding continue
continue-Keeps part s (ok a, s') f h k = k a s' ∙ h
continue-Keeps part s (failed e, s') f h k = h
continue-Keeps part s (crashed, s') f h k = h

-- A chain that ends well has gone through its first action.
pub continue-ok :
    {S A B : Type 0} (x : Result A × S) (f : A → M S B) (b : B)
    → (continue x f).0 ≡ ok b
    → (a : A) × (s : S) × (x ≡ (ok a, s)) × ((f a s).0 ≡ ok b) × ((continue x f).1 ≡ (f a s).1)
unfolding continue
continue-ok (ok a, s) f b h = (a, s, refl, h, refl)
continue-ok (failed e, s) f b h = absurd (ground arith)
continue-ok (crashed, s) f b h = absurd (ground arith)

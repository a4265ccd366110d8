-- ===== src/Auth/Admission.antt =====
-- Which requests the AuthMiddleware lets through, and with which identity.
use sovereign_rag_gateway.Prelude.{
  ℕ, ◌≡◌, refl, ap, sym, ◌∙◌, String, Bool, true, false, not, Option, none, some, List, [], ◌∷◌,
  keep, map, str_eq, eq_iff, if◌then◌else◌, All, All-keep_self, arith, Bool-cases, inl, inr, ◌↔◌,
}
use sovereign_rag_gateway.Prelude.Text.{strip}
use sovereign_rag_gateway.Policy.{member_of}
use sovereign_rag_gateway.Settings.{split_commas, items}
use sovereign_rag_gateway.Auth.{
  HttpRequest, Identity, AuthResult, passed_on, refused, bypass_paths, required_headers,
  header_text, request_id_from_request, after_prefix, missing_headers, identity_of, checked_token,
  identified, dispatch_auth,
}

-- A key of the setting is never the empty text.
member-items :
    (ks : List String) (k : String)
    → All (λ s. not (str_eq s "") ≡ true) ks
    → member_of ks k ≡ true
    → str_eq k "" ≡ false
member-items [] k all h = cc
member-items (j ∷ ks) k all h = elim (Bool-cases (str_eq j k)) [
  | inl same ↦ ground (arith, eq_iff j k, all.0)
  | inr other ↦ member-items ks k all.1 (ground (arith, other, h))
]

key_nonempty :
    (api_keys token : String) → member_of (items api_keys) token ≡ true → str_eq token "" ≡ false
unfolding items
key_nonempty api_keys token h =
    member-items (items api_keys) token
      (All-keep_self (λ s. not (str_eq s "")) (map strip (split_commas api_keys))) h

-- The request bears a key of the setting, no empty one, and the three headers, none empty.
pub record IsAuthenticated (api_keys : String) (r : HttpRequest) : Type 0 where
  pub rest : String
  pub bearer : after_prefix "Bearer " (header_text r "authorization") ≡ some rest
  pub known : member_of (items api_keys) (strip rest) ≡ true
  pub nonempty : str_eq (strip rest) "" ≡ false
  pub complete : All (λ name. str_eq (header_text r name) "" ≡ false) required_headers

kept_nothing :
    (b : Bool) (x : String) (rest : List String)
    → (if b then x ∷ rest else rest) ≡ []
    → (b ≡ false) × (rest ≡ [])
kept_nothing true x rest h = cc
kept_nothing false x rest h = (refl, h)

keep-none :
    (p : String → Bool) (names : List String) → keep p names ≡ [] → All (λ n. p n ≡ false) names
keep-none p [] h = tt
keep-none p (n ∷ names) h =
    let (dropped, rest) = kept_nothing (p n) n (keep p names) h in (dropped, keep-none p names rest)

none-keep :
    (p : String → Bool) (names : List String) → All (λ n. p n ≡ false) names → keep p names ≡ []
none-keep p [] h = refl
none-keep p (n ∷ names) h = rw h.0 (none-keep p names h.1)

identified-some :
    (r : HttpRequest) (who : Identity) (ms : List String)
    → identified r ms ≡ passed_on (some who)
    → (ms ≡ []) × (who ≡ identity_of r)
identified-some r who [] h = (refl, cc)
identified-some r who (m ∷ ms) h = cc

let_through :
    (b : Bool) (d : AuthResult) (status_code : ℕ) (code kind message request_id : String)
    (who : Identity)
    → (if b then d else refused status_code code kind message request_id) ≡ passed_on (some who)
    → (b ≡ true) × (d ≡ passed_on (some who))
let_through true d status_code code kind message request_id who h = (refl, h)
let_through false d status_code code kind message request_id who h = cc

checked_token-some :
    (api_keys : String) (r : HttpRequest) (who : Identity) (o : Option String)
    → after_prefix "Bearer " (header_text r "authorization") ≡ o
    → checked_token api_keys r o ≡ passed_on (some who)
    → IsAuthenticated api_keys r × (who ≡ identity_of r)
checked_token-some api_keys r who none e h = cc
checked_token-some api_keys r who (some rest) e h =
    let (known, identified) =
      let_through (member_of (items api_keys) (strip rest)) (identified r (missing_headers r)) 401
        "auth_invalid" "auth" "Invalid API key" (request_id_from_request r) who h in
    let (complete, same) = identified-some r who (missing_headers r) identified in
    (
      record {
        rest = rest;
        bearer = e;
        known = known;
        nonempty = key_nonempty api_keys (strip rest) known;
        complete = keep-none (λ name. str_eq (header_text r name) "") required_headers complete;
      },
      same,
    )

-- A request for another path than those that bypass the check is passed on with an identity just if it
-- is authenticated, and the identity is the one of its headers.
pub dispatch_auth-IsAuthenticated :
    (api_keys : String) (r : HttpRequest) (who : Identity)
    → member_of bypass_paths r.path ≡ false
    → (dispatch_auth api_keys r ≡ passed_on (some who))
      ↔ (IsAuthenticated api_keys r × (who ≡ identity_of r))
unfolding dispatch_auth
dispatch_auth-IsAuthenticated api_keys r who h = (
  λ e.
      checked_token-some api_keys r who (after_prefix "Bearer " (header_text r "authorization"))
        refl
        (sym (
            ap
              (λ b.
                if b
                then passed_on none
                else checked_token api_keys r
                    (after_prefix "Bearer " (header_text r "authorization")))
              h)
          ∙ e),
  λ (a, same).
      rw
        (
          h,
          a.bearer,
          a.known,
          none-keep (λ name. str_eq (header_text r name) "") required_headers a.complete,
          same,
        )
        refl,
)

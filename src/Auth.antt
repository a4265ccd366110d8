-- ===== src/Auth.antt =====
-- app/middleware/auth.py: the AuthMiddleware, the outermost of the application. A request is known by
-- its path, its headers and the identifier that is new if it brings none.
pub mod Admission
mod Examples
use Prim.Native.Char.{code}
use Prim.Native.String.{◌++◌ as str_append}
use sovereign_rag_gateway.Prelude.{
  ℕ, String, Bool, true, false, Option, none, some, List, [], ◌∷◌, not, keep, ◌==◌, str_eq,
  if◌then◌else◌,
}
use sovereign_rag_gateway.Prelude.Text.{strip}
use sovereign_rag_gateway.Policy.{member_of}
use sovereign_rag_gateway.Settings.{items}

pub record HttpRequest : Type 0 where
  pub path : String
  pub header : String → Option String
  pub state_request_id : Option String
  pub uuid4 : String

-- What the middleware leaves in `request.state`.
pub record Identity : Type 0 where
  pub tenant_id : String
  pub user_id : String
  pub classification : String

pub data AuthResult : Type 0 where
  passed_on : Option Identity → AuthResult
  refused : (status_code : ℕ) → (code error_type message request_id : String) → AuthResult

abbrev pub bypass_paths : List String
bypass_paths = "/healthz" ∷ "/readyz" ∷ "/openapi.json" ∷ "/docs" ∷ "/docs/oauth2-redirect" ∷ []

abbrev pub required_headers : List String
required_headers = "x-srg-tenant-id" ∷ "x-srg-user-id" ∷ "x-srg-classification" ∷ []

-- `request.headers.get(name, "")`, of which an empty header is as good as none
abbrev pub header_text : HttpRequest → String → String
header_text r name = elim (r.header name) [ none ↦ "" | some value ↦ value ]

abbrev pub or_next : Option String → String → String
or_next none next = next
or_next (some value) next = if str_eq value "" then next else value

-- `request_id_from_request`
abbrev pub request_id_from_request : HttpRequest → String
request_id_from_request r = or_next r.state_request_id (or_next (r.header "x-request-id") r.uuid4)

-- What `removeprefix` leaves, none where the text does not start with the prefix.
unfoldable pub after_prefix : String → String → Option String
after_prefix String.[] s = some s
after_prefix (String.◌∷◌ c p) String.[] = none
after_prefix (String.◌∷◌ c p) (String.◌∷◌ d s) =
    let rest = after_prefix p s in if code c == code d then rest else none

-- `", ".join(names)`
abbrev joined : List String → String
joined [] = ""
joined (n ∷ []) = n
joined (n ∷ (m ∷ names)) = str_append n (str_append ", " (joined (m ∷ names)))

abbrev pub missing_headers : HttpRequest → List String
missing_headers r = keep (λ name. str_eq (header_text r name) "") required_headers

abbrev pub identity_of : HttpRequest → Identity
identity_of r = record {
  tenant_id = header_text r "x-srg-tenant-id";
  user_id = header_text r "x-srg-user-id";
  classification = header_text r "x-srg-classification";
}

-- The part of `dispatch` behind the list of the missing headers.
abbrev pub identified : HttpRequest → List String → AuthResult
identified r [] = passed_on (some (identity_of r))
identified r (name ∷ names) =
    refused 422 "missing_required_headers" "validation"
      (str_append "Missing required headers: " (joined (name ∷ names))) (request_id_from_request r)

-- The part behind the check of the path, with what follows "Bearer ".
abbrev pub checked_token : String → HttpRequest → Option String → AuthResult
checked_token api_keys r none =
    refused 401 "auth_missing" "auth" "Missing bearer token" (request_id_from_request r)
checked_token api_keys r (some rest) =
    if member_of (items api_keys) (strip rest)
    then identified r (missing_headers r)
    else refused 401 "auth_invalid" "auth" "Invalid API key" (request_id_from_request r)

-- `AuthMiddleware.dispatch`, with the setting `api_keys`
unfoldable pub dispatch_auth : String → HttpRequest → AuthResult
unfolding after_prefix items
dispatch_auth api_keys r =
    if member_of bypass_paths r.path
    then passed_on none
    else checked_token api_keys r (after_prefix "Bearer " (header_text r "authorization"))

-- ===== src/Auth/Examples.antt =====
-- A request with a key, and one whose token is empty.
use sovereign_rag_gateway.Prelude.{◌≡◌, ◌↔◌, refl, String, some, none, str_eq, if◌then◌else◌}
use sovereign_rag_gateway.Prelude.Text.{strip}
use sovereign_rag_gateway.Settings.{items, split_commas}
use sovereign_rag_gateway.Auth.{
  HttpRequest, Identity, passed_on, refused, identity_of, after_prefix, dispatch_auth,
}
use sovereign_rag_gateway.Auth.Admission.{IsAuthenticated, dispatch_auth-IsAuthenticated}

abbrev request : String → HttpRequest
request authorization = record {
  path = "/v1/chat/completions";
  header = λ name.
      if str_eq name "authorization"
      then some authorization
      else if str_eq name "x-request-id"
      then none
      else some "t1";
  state_request_id = none;
  uuid4 = "u1";
}

abbrev who : Identity
who = record { tenant_id = "t1"; user_id = "t1"; classification = "t1" }

dispatch_auth-IsAuthenticated_example :
    (dispatch_auth "dev-key" (request "Bearer dev-key") ≡ passed_on (some who)) ↔ (
      IsAuthenticated "dev-key" (request "Bearer dev-key")
      × (who ≡ identity_of (request "Bearer dev-key")))
dispatch_auth-IsAuthenticated_example =
    dispatch_auth-IsAuthenticated "dev-key" (request "Bearer dev-key") who refl

let_in : dispatch_auth "a, dev-key" (request "Bearer dev-key ") ≡ passed_on (some who)
unfolding dispatch_auth after_prefix items split_commas strip
let_in = refl

kept_out :
    dispatch_auth "a,," (request "Bearer ")
    ≡ refused 401 "auth_invalid" "auth" "Invalid API key" "u1"
unfolding dispatch_auth after_prefix items split_commas strip
kept_out = refl

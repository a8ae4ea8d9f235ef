-- ===== src/Headers.antt =====
-- src/proxy.rs: the names of headers that sturnus sets or strips, in lower case.
use sturnus.Prelude.{String, Bool, ◌||◌, List, [], ◌∷◌, contains, ◌==◌, string_eq}

abbrev pub content_type : String
content_type = "content-type"

abbrev pub authorization : String
authorization = "authorization"

unfoldable pub hop_by_hop : List String
hop_by_hop =
    "connection" ∷ "proxy-authorization" ∷ "te" ∷ "trailer" ∷ "transfer-encoding" ∷ "upgrade" ∷ []

unfoldable pub is_hop_by_hop : String → Bool
unfolding hop_by_hop
is_hop_by_hop name = contains hop_by_hop name || name == "keep-alive"

abbrev pub api_key_header : String
api_key_header = "api-key"

abbrev pub x_api_key : String
x_api_key = "x-api-key"

abbrev pub anthropic_version : String
anthropic_version = "anthropic-version"

unfoldable pub set_by_sturnus : List String
set_by_sturnus = content_type ∷ authorization ∷ "content-encoding" ∷ "content-length" ∷ "host" ∷ []

unfoldable pub is_reserved_request_header : String → Bool
unfolding is_hop_by_hop set_by_sturnus
is_reserved_request_header name =
    is_hop_by_hop name
    || contains set_by_sturnus name
    || contains (api_key_header ∷ x_api_key ∷ anthropic_version ∷ []) name

unfoldable pub response_only_strip : List String
response_only_strip = "proxy-authenticate" ∷ "set-cookie" ∷ "alt-svc" ∷ []

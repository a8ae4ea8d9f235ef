-- ===== src/Proxy/Tests.antt =====
-- Runs of the proxy over a small JSON and header tables, and the theorems where they apply.
use sturnus.Prelude.{
  ℕ, ◌≤◌, ◌≡◌, ◌↔◌, refl, sym, ap, ◌∙◌, false≢true, true, false, String, List, [], ◌∷◌, ◌++◌,
  Option, none, some, arith, if◌then◌else◌, string_eq, nat_eq, ℕ_discrete, Result, ok, err, length,
}
use sturnus.Prelude.Dict.{Dict, lookup, insert, NodupKeys}
use sturnus.F64.{u64_max}
use sturnus.Http.{values, values_of}
use sturnus.Http.Table.{Table, table_http, table-IsHeaderMap}
use sturnus.Headers.{is_reserved_request_header}
use sturnus.Candidate.{ResolvedCandidate, azure_openai}
use sturnus.Body.{RawBody, get, set}
use sturnus.Proxy.{
  Bytes, OutboundBody, poll_frame, is_end_stream, size_hint, Json, merge, prepare_body,
  prepare_outbound, build_upstream_url,
}
use sturnus.Proxy.Response.{
  over_cap, declared_over, is_stripped, build_relay_stream, read_capped, sanitize_response_headers,
}
use sturnus.Proxy.Request.{request_headers}
use sturnus.Proxy.Relay.{arrived, build_relay_stream_lem}
use sturnus.Proxy.Capped.{IsWhole, read_capped_iff}
use sturnus.Proxy.Sanitized.{sanitize_response_headers_lem}
use sturnus.Proxy.Outbound.{IsPrepared, prepare_body_lem, prepare_outbound_once}
use sturnus.Proxy.Auth.{set_texts, Parses, request_headers_lem}

-- Raw values that are a text or an object of texts.
data Raw : Type 0 where
  text : String → Raw
  object : Dict String String → Raw

abbrev fields_of : Raw → Option (Dict String String)
fields_of (text s) = none
fields_of (object o) = some o

small_json : Json Raw String String
small_json = record {
  raw_string = λ s. ok (text s);
  raw_object = λ o. ok (object o);
  object_of = fields_of;
  string_value = λ s. s;
  to_vec = λ b. ok (1 ∷ 2 ∷ []);
}

abbrev sample : RawBody Raw
sample = record {
  fields =
      ("model", text "fast")
      ∷ ("labels", object (("team", "x") ∷ ("job", "y") ∷ []))
      ∷ ("n", text "1")
      ∷ [];
}

abbrev team : Dict String String
team = ("team", "search") ∷ []

abbrev sent : RawBody Raw
sent = record {
  fields =
      ("model", text "gemini")
      ∷ ("labels", object (("team", "search") ∷ ("job", "y") ∷ []))
      ∷ ("n", text "1")
      ∷ [];
}

prepared : prepare_body small_json sample "gemini" (some team) ≡ ok sent
unfolding prepare_body small_json string_eq get set lookup insert merge
prepared = refl

abbrev upload : OutboundBody ℕ
upload = record { data' = some (1 ∷ 2 ∷ []); permit = some 3 }

uploaded : prepare_outbound small_json sample "gemini" (some team) (some 3) ≡ ok upload
unfolding prepare_outbound small_json string_eq get set lookup insert merge
uploaded = refl

abbrev azure : ResolvedCandidate String Table
azure = record {
  provider_name = "azure";
  model = "gpt";
  base_url = "https://x.openai.azure.com/openai//";
  api_key = some "k";
  kind = azure_openai "2024-10-21";
  stats_index = 0;
  provider_header = "azure";
  affinity_header = "azure/gpt";
  attribution_labels = none;
  extra_headers = ("x-team", "search") ∷ [];
}

url_test :
    build_upstream_url azure "/v1/chat/completions"
    ≡ "https://x.openai.azure.com/openai/deployments/gpt/chat/completions?api-version=2024-10-21"
unfolding build_upstream_url nat_eq ℕ_discrete
url_test = refl

abbrev azure_headers : Table
azure_headers = ("content-type", "application/json") ∷ ("api-key", "k") ∷ ("x-team", "search") ∷ []

azure_request : request_headers {E = String} table_http azure none ≡ ok azure_headers
unfolding request_headers table_http string_eq
azure_request = refl

capped_test :
    (read_capped {E = String} 3 none (arrived ((1 ∷ 2 ∷ []) ∷ (3 ∷ []) ∷ [])) ≡ ok (1 ∷ 2 ∷ 3 ∷ []))
    × (read_capped {E = String} 2 none (arrived ((1 ∷ 2 ∷ []) ∷ (3 ∷ []) ∷ [])) ≡ err over_cap)
    × (read_capped {E = String} 2 (some 3) [] ≡ err over_cap)
unfolding read_capped
capped_test = (refl, refl, refl)

build_relay_stream_lem_example :
    (build_relay_stream (9 ∷ []) (arrived {E = String} ((1 ∷ []) ∷ [])) ≡ (1 ∷ []) ∷ [])
    × ((e : String) (rest : List (Result String Bytes))
        → build_relay_stream (9 ∷ []) (arrived ((1 ∷ []) ∷ []) ++ err e ∷ rest)
          ≡ (1 ∷ []) ∷ (9 ∷ []) ∷ [])
build_relay_stream_lem_example = build_relay_stream_lem (9 ∷ []) ((1 ∷ []) ∷ [])

read_capped_iff_example :
    (read_capped 3 (some 2) (arrived {E = String} ((1 ∷ 2 ∷ []) ∷ [])) ≡ ok (1 ∷ 2 ∷ [])) ↔ (
      (declared_over 3 (some 2) ≡ false)
      × IsWhole 3 [] (arrived {E = String} ((1 ∷ 2 ∷ []) ∷ [])) (1 ∷ 2 ∷ []))
read_capped_iff_example = read_capped_iff 3 (some 2) (arrived ((1 ∷ 2 ∷ []) ∷ [])) (1 ∷ 2 ∷ [])

abbrev upstream_headers : Table
upstream_headers = ("set-cookie", "a") ∷ ("x-request-id", "7") ∷ []

sanitize_response_headers_lem_example :
    values table_http (sanitize_response_headers table_http some upstream_headers) "set-cookie"
    ≡ (if is_stripped "set-cookie" then [] else values table_http upstream_headers "set-cookie")
unfolding table_http
sanitize_response_headers_lem_example =
    sanitize_response_headers_lem table_http table-IsHeaderMap some "set-cookie" upstream_headers
      ((refl, refl), ((refl, refl), tt))

abbrev theirs : Dict String String
theirs = ("team", "x") ∷ []

team_nodup : NodupKeys team
unfolding lookup
team_nodup = (refl, tt)

prepare_body_lem_example : IsPrepared small_json sample "gemini" (some team) sent
prepare_body_lem_example = prepare_body_lem small_json sample sent "gemini" (some team) prepared

prepare_outbound_once_example :
    (s : RawBody Raw) × (bytes : Bytes) × (prepare_body small_json sample "gemini" (some team)
      ≡ ok s)
    × (small_json.to_vec s ≡ ok bytes)
    × (upload.permit ≡ some 3)
    × ((poll_frame upload).0 ≡ some bytes)
    × (length bytes ≤ u64_max → size_hint upload ≡ length bytes)
    × (is_end_stream (poll_frame upload).1 ≡ true)
    × (size_hint (poll_frame upload).1 ≡ 0)
    × ((poll_frame (poll_frame upload).1).0 ≡ none)
prepare_outbound_once_example =
    prepare_outbound_once small_json sample "gemini" (some team) (some 3) upload uploaded

team_plain : is_reserved_request_header "x-team" ≡ false
unfolding is_reserved_request_header string_eq
team_plain = refl

azure_unreserved :
    (key : String)
    → is_reserved_request_header key ≡ true
    → values table_http azure.extra_headers key ≡ []
unfolding table_http
azure_unreserved key r = elim (string_eq.dec "x-team" key) [
  | yes same ↦ absurd (false≢true (sym team_plain ∙ ap is_reserved_request_header same ∙ r))
  | no other ↦ ground (arith, other)
]

request_headers_lem_example :
    (vs : List (String × String)) × Parses table_http (set_texts table_http azure none) vs
    × ((name : String)
        → values table_http azure_headers name ≡ (
            if is_reserved_request_header name
            then values_of name vs
            else values table_http azure.extra_headers name))
request_headers_lem_example =
    request_headers_lem table_http table-IsHeaderMap azure none azure_headers azure_request
      azure_unreserved

-- ===== src/Config/Tests.antt =====
-- Runs of the configuration's checks, and the theorems at inputs where they apply.
use sturnus.Prelude.{Result, ok, err, List, String, [], ◌∷◌, ℕ_discrete}
use sturnus.Prelude.Dict.{insert}
use sturnus.Config.Loading.{
  file, other, DirEntry, Environment, load_entries, load_entry, typed_entry, named_entry,
  read_entry, set_var, trim_end_newlines, has_char,
}
use sturnus.Prelude.{
  ℕ, ◌≡◌, ◌↔◌, refl, true, String, List, [], ◌∷◌, none, some, string_eq, ℕ_discrete, ok, err, All,
}
use sturnus.F64.Fixed.{fixed_f64}
use sturnus.Http.{values}
use sturnus.Http.Table.{Table, table_http, table-IsHeaderMap}
use sturnus.Headers.{is_reserved_request_header}
use sturnus.Config.{resolved_base_url, set_twice, reserved, same_address}
use sturnus.Config.Checks.{resolved_headers, listen_addrs, validate}
use sturnus.Config.Sample.{vertex, local, sample}
use sturnus.Config.ProviderHeaders.{HasHeader, resolved_headers_lem}
use sturnus.Config.Validation.{IsValidConfig, validate_iff}

same_address_test :
    listen_addrs some (record sample { metrics_listen = some "127.0.0.1:4000" }) ≡ err same_address
unfolding listen_addrs string_eq
same_address_test = refl

vertex_url_test :
    resolved_base_url vertex
    ≡ some
        "https://aiplatform.eu.rep.googleapis.com/v1beta1/projects/p/locations/eu/endpoints/openapi"
unfolding resolved_base_url string_eq
vertex_url_test = refl

headers_test :
    (resolved_headers table_http (record local { headers = ("a", "1") ∷ ("a", "2") ∷ [] })
      ≡ err (set_twice "a"))
    × (resolved_headers table_http (record local { headers = ("authorization", "x") ∷ [] })
        ≡ err (reserved "authorization"))
unfolding resolved_headers string_eq table_http
headers_test = (refl, refl)

abbrev limit_text : List ℕ
limit_text = b'4' ∷ b'0' ∷ b'9' ∷ b'6' ∷ 10 ∷ []

validate_iff_example :
    (validate some table_http sample ≡ ok tt) ↔ IsValidConfig some table_http sample
validate_iff_example = validate_iff some table_http sample

abbrev eu_url : String
eu_url =
    "https://aiplatform.eu.rep.googleapis.com/v1beta1/projects/p/locations/eu/endpoints/openapi"

abbrev set_headers : Table
set_headers = ("x-team", "search") ∷ []

headers_read : resolved_headers table_http local ≡ ok set_headers
unfolding resolved_headers string_eq table_http
headers_read = refl

resolved_headers_lem_example :
    All (HasHeader table_http set_headers) local.headers
    × ((key : String)
        → is_reserved_request_header key ≡ true
        → values table_http set_headers key ≡ [])
resolved_headers_lem_example =
    resolved_headers_lem table_http table-IsHeaderMap local set_headers headers_read

abbrev secret : String → String → Result String (DirEntry String)
secret name text = ok (record { file_type = ok file; file_name = some name; content = ok text })

abbrev secrets : List (Result String (DirEntry String))
secrets =
    secret ".hidden" "x"
    ∷ secret "TOKEN" "t\n\n"
    ∷ ok (record { file_type = ok other; file_name = none; content = err "is a directory" })
    ∷ []

abbrev before : Environment
before = ("TOKEN", "old") ∷ []

abbrev after : Environment
after = ("TOKEN", "t") ∷ []

secrets_loaded : load_entries before secrets ≡ some (after, ok tt)
unfolding load_entries load_entry typed_entry named_entry read_entry set_var trim_end_newlines
    has_char string_eq ℕ_discrete insert
secrets_loaded = refl

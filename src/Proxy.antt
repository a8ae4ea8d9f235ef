-- ===== src/Proxy.antt =====
-- src/proxy.rs: the URL of the upstream and the outbound body.
-- `R` is serde_json's `RawValue` and `J` its `Value`; what serde_json does is an argument. Bytes are
-- a list of numbers. `P` is the permit that a body carries.
pub mod Response
pub mod Request
pub mod Relay
pub mod Capped
pub mod Sanitized
pub mod Outbound
pub mod Auth
pub mod Tests
use sturnus.Prelude.{
  ℕ, ◌≤◌, Bool, true, false, String, ◌<>◌, List, [], ◌∷◌, Option, none, some, length, leb,
  if◌then◌else◌, string_eq, Result, ok, err, ◌>>=◌,
}
use sturnus.Prelude.Dict.{Dict, insert}
use sturnus.Prelude.Str.{trim_end_slashes, strip_prefix}
use sturnus.F64.{u64_max}
use sturnus.Candidate.{ProviderKind, api_key, gcp_adc, azure_openai, anthropic, ResolvedCandidate}
use sturnus.Body.{RawBody, get, set}

abbrev pub unwrap_or : {A : Type 0} → Option A → A → A
unwrap_or none a = a
unwrap_or (some a) _ = a

-- The match of `build_upstream_url`.
unfoldable pub url_for : ProviderKind → String → String → String → String
url_for (azure_openai api_version) base model path =
    base <> "/deployments/" <> model <> path <> "?api-version=" <> api_version
url_for api_key base model path = base <> path
url_for gcp_adc base model path = base <> path
url_for (anthropic version) base model path = base <> path

unfoldable pub build_upstream_url : {V M : Type 0} → ResolvedCandidate V M → String → String
unfolding url_for trim_end_slashes strip_prefix
build_upstream_url c path =
    url_for c.kind (trim_end_slashes c.base_url) c.model (unwrap_or (strip_prefix path "/v1") path)

abbrev pub Bytes : Type 0
Bytes = List ℕ

pub record OutboundBody (P : Type 0) : Type 0 where
  pub data' : Option Bytes
  pub permit : Option P

module _ {P : Type 0} where
  -- A poll takes the whole buffer.
  unfoldable pub poll_frame : OutboundBody P → Option Bytes × OutboundBody P
  poll_frame b = (b.data', record b { data' = none })

  unfoldable pub is_end_stream : OutboundBody P → Bool
  is_end_stream b = elim b.data' [ none ↦ true | some _ ↦ false ]

  unfoldable pub size_hint : OutboundBody P → ℕ
  size_hint b =
      let remaining : ℕ = elim b.data' [ none ↦ 0 | some bytes ↦ length bytes ] in
      if leb remaining u64_max then remaining else u64_max

-- What the source calls of serde_json.
pub record Json (R J E : Type 0) : Type 0 where
  pub raw_string : String → Result E R
  pub raw_object : Dict String J → Result E R
  -- `from_str` at the type of objects, by its success.
  pub object_of : R → Option (Dict String J)
  pub string_value : String → J
  pub to_vec : RawBody R → Result E Bytes

module _ {R J E : Type 0} (json : Json R J E) where
  unfoldable pub merge : Dict String J → Dict String String → Dict String J
  merge merged [] = merged
  merge merged ((k, v) ∷ labels) = merge (insert k (json.string_value v) merged) labels

  -- The labels of the client, an empty object where there are none or no object.
  unfoldable pub labels_of : Option R → Dict String J
  labels_of none = []
  labels_of (some raw) = unwrap_or (json.object_of raw) []

  unfoldable pub client_labels : RawBody R → Dict String J
  unfolding labels_of
  client_labels body = labels_of (get body "labels")

  unfoldable pub set_labels : RawBody R → Option (Dict String String) → Result E (RawBody R)
  unfolding merge client_labels
  set_labels body none = ok body
  set_labels body (some labels) = do
    raw ← json.raw_object (merge (client_labels body) labels)
    ok (set body "labels" raw)

  unfoldable pub prepare_body :
      RawBody R → String → Option (Dict String String) → Result E (RawBody R)
  unfolding set_labels
  prepare_body body real_model labels = do
    model ← json.raw_string real_model
    set_labels (set body "model" model) labels

  unfoldable pub prepare_outbound :
      {P : Type 0}
      → RawBody R
      → String
      → Option (Dict String String)
      → Option P
      → Result E (OutboundBody P)
  unfolding prepare_body
  prepare_outbound body real_model labels permit = do
    prepared ← prepare_body body real_model labels
    bytes ← json.to_vec prepared
    ok (record { data' = some bytes; permit = permit })

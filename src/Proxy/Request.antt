-- ===== src/Proxy/Request.antt =====
-- src/proxy.rs: `forward_request`. The network and the token provider are arguments: the response
-- to a request, and the token, each or an error. Times are arguments as well.
use sturnus.Prelude.{
  ℕ, Bool, true, false, String, ◌<>◌, List, [], ◌∷◌, Option, none, some, Result, ok, err, ◌>>=◌,
  ok_or,
}
use sturnus.Tracker.{Duration}
use sturnus.Http.{Http}
use sturnus.Headers.{content_type, authorization, api_key_header, x_api_key, anthropic_version}
use sturnus.Candidate.{ProviderKind, api_key, gcp_adc, azure_openai, anthropic, ResolvedCandidate}
use sturnus.Proxy.{Bytes, OutboundBody, build_upstream_url}
use sturnus.Proxy.Response.{build_relay_stream, read_capped, ReadError, sanitize_response_headers}

pub data UpstreamLatency : Type 0 where
  ttfc total : Duration → UpstreamLatency

pub data ProxyBody : Type 0 where
  streaming : List Bytes → ProxyBody
  full : Bytes → ProxyBody

pub record ProxyResult (M : Type 0) : Type 0 where
  pub status : ℕ
  pub headers : M
  pub body : ProxyBody
  pub latency : UpstreamLatency

pub record UpstreamRequest (M P : Type 0) : Type 0 where
  pub url : String
  pub headers : M
  pub body : OutboundBody P

-- A response: the head, and the stream of its body with the times of the first chunk and the end.
pub record UpstreamResponse (M E : Type 0) : Type 0 where
  pub status : ℕ
  pub headers : M
  pub content_length : Option ℕ
  pub stream : List (Result E Bytes)
  pub first_chunk_at : Duration
  pub end_at : Duration

pub data ForwardError (E : Type 0) : Type 0 where
  no_token_provider : ForwardError E
  token_error : ForwardError E
  -- A value that is no header value, which the builder reports on sending.
  bad_header : (value : String) → ForwardError E
  send_error first_chunk_error : E → ForwardError E
  read_error : ReadError E → ForwardError E

abbrev map_read : {E : Type 0} → Result (ReadError E) Bytes → Result (ForwardError E) Bytes
map_read (ok bytes) = ok bytes
map_read (err e) = err (read_error e)

abbrev pub bearer : Option String → Option String
bearer none = none
bearer (some key) = some ("Bearer " <> key)

module _ {V M : Type 0} (h : Http V M) where
  -- The fold over the extra headers.
  unfoldable pub with_extra : List (String × V) → M → M
  with_extra [] m = m
  with_extra ((name, value) ∷ rest) m = with_extra rest (h.append name value m)

module _ {V M E : Type 0} (h : Http V M) where
  -- `RequestBuilder::header`, which appends.
  unfoldable pub with_header : String → String → M → Result (ForwardError E) M
  with_header name value m = do
    v ← ok_or (h.header_value value) (bad_header value)
    ok (h.append name v m)

  unfoldable pub with_key : String → Option String → M → Result (ForwardError E) M
  unfolding with_header
  with_key name none m = ok m
  with_key name (some key) m = with_header name key m

  -- The match on the kind of the provider.
  unfoldable pub with_auth :
      ProviderKind → Option String → Option (Option String) → M → Result (ForwardError E) M
  unfolding with_key
  with_auth api_key key tokens m = with_key authorization (bearer key) m
  with_auth gcp_adc key tokens m = do
    provider ← ok_or tokens no_token_provider
    token ← ok_or provider token_error
    with_header authorization ("Bearer " <> token) m
  with_auth (azure_openai api_version) key tokens m = with_key api_key_header key m
  with_auth (anthropic version) key tokens m = do
    m' ← with_key x_api_key key m
    with_header anthropic_version version m'

  -- The headers of the request.
  unfoldable pub request_headers :
      ResolvedCandidate V M → Option (Option String) → Result (ForwardError E) M
  unfolding with_auth with_extra
  request_headers c tokens = do
    m ← with_header content_type "application/json" h.no_headers
    m' ← with_auth c.kind c.api_key tokens m
    ok (with_extra h (h.entries c.extra_headers) m')

  -- The first chunk of a stream, and the others; an empty stream begins with no bytes.
  unfoldable pub first_of :
      List (Result E Bytes) → Result (ForwardError E) (Bytes × List (Result E Bytes))
  first_of [] = ok ([], [])
  first_of (ok chunk ∷ rest) = ok (chunk, rest)
  first_of (err e ∷ rest) = err (first_chunk_error e)

  module _ (from_bytes : V → Option V) (error_event : Bytes) where
    unfoldable pub receive :
        Bool → ℕ → UpstreamResponse M E → Result (ForwardError E) (ProxyResult M)
    unfolding first_of
    receive true max_response_bytes r = do
      (first_chunk, rest) ← first_of r.stream
      ok (record {
        status = r.status;
        headers = sanitize_response_headers h from_bytes r.headers;
        body = streaming (first_chunk ∷ build_relay_stream error_event rest);
        latency = ttfc r.first_chunk_at;
      })
    receive false max_response_bytes r = do
      bytes ← map_read (read_capped max_response_bytes r.content_length r.stream)
      ok (record {
        status = r.status;
        headers = sanitize_response_headers h from_bytes r.headers;
        body = full bytes;
        latency = total r.end_at;
      })

    unfoldable pub forward_request :
        {P : Type 0}
        → (UpstreamRequest M P → Result (ForwardError E) (UpstreamResponse M E))
        → ResolvedCandidate V M
        → String
        → OutboundBody P
        → Bool
        → ℕ
        → Option (Option String)
        → Result (ForwardError E) (ProxyResult M)
    unfolding request_headers receive
    forward_request send c path body is_streaming max_response_bytes tokens = do
      headers ← request_headers c tokens
      response ← send (record { url = build_upstream_url c path; headers = headers; body = body })
      receive is_streaming max_response_bytes response

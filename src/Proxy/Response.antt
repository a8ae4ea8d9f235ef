-- ===== src/Proxy/Response.antt =====
-- src/proxy.rs: what becomes of a response. A stream of chunks is the list of its items, each the
-- chunk or an error, and ends where the list ends.
use sturnus.Prelude.{
  ℕ, ◌+◌, Bool, true, false, ◌||◌, String, List, [], ◌∷◌, ◌++◌, Option, none, some, length,
  contains, ltb, if◌then◌else◌, string_eq, Result, ok, err, ◌>>◌, bail_if,
}
use sturnus.Http.{Http}
use sturnus.Headers.{is_hop_by_hop, response_only_strip}
use sturnus.Proxy.{Bytes}

module _ {E : Type 0} where
  -- The state of `scan` is whether an error was seen; `error_event` is the event for an error.
  unfoldable pub relay_from : Bytes → Bool → List (Result E Bytes) → List Bytes
  relay_from error_event true _ = []
  relay_from error_event false [] = []
  relay_from error_event false (ok chunk ∷ rest) = chunk ∷ relay_from error_event false rest
  relay_from error_event false (err e ∷ rest) = error_event ∷ relay_from error_event true rest

  unfoldable pub build_relay_stream : Bytes → List (Result E Bytes) → List Bytes
  unfolding relay_from
  build_relay_stream error_event stream = relay_from error_event false stream

pub data ReadError (E : Type 0) : Type 0 where
  over_cap : ReadError E
  stream_error : E → ReadError E

-- The declared length is above the cap.
unfoldable pub declared_over : ℕ → Option ℕ → Bool
declared_over cap_bytes none = false
declared_over cap_bytes (some len) = ltb cap_bytes len

module _ {E : Type 0} where
  -- The loop over the chunks.
  unfoldable pub read_from : ℕ → Bytes → List (Result E Bytes) → Result (ReadError E) Bytes
  read_from cap_bytes buf [] = ok buf
  read_from cap_bytes buf (err e ∷ rest) = err (stream_error e)
  read_from cap_bytes buf (ok chunk ∷ rest) =
      let later = read_from cap_bytes (buf ++ chunk) rest in
      if ltb cap_bytes (length buf + length chunk) then err over_cap else later

  unfoldable pub read_capped : ℕ → Option ℕ → List (Result E Bytes) → Result (ReadError E) Bytes
  unfolding read_from declared_over
  read_capped cap_bytes content_length stream = do
    bail_if (declared_over cap_bytes content_length) over_cap
    read_from cap_bytes [] stream

unfoldable pub is_stripped : String → Bool
unfolding is_hop_by_hop response_only_strip
is_stripped name = is_hop_by_hop name || contains response_only_strip name

-- `from_bytes` makes a header value again from the bytes of one.
module _ {V M : Type 0} (h : Http V M) (from_bytes : V → Option V) where
  abbrev append_parsed : M → Option String → Option V → M
  append_parsed headers (some name) (some val) = h.append name val headers
  append_parsed headers (some name) none = headers
  append_parsed headers none val = headers

  -- The body of the loop, where `continue` keeps the headers.
  unfoldable pub relay_header : M → String → V → M
  unfolding is_stripped
  relay_header headers k v =
      if is_stripped k then headers else append_parsed headers (h.header_name k) (from_bytes v)

  -- The loop over the headers of the upstream.
  unfoldable pub sanitize_from : M → List (String × V) → M
  unfolding relay_header
  sanitize_from headers [] = headers
  sanitize_from headers ((k, v) ∷ rest) = sanitize_from (relay_header headers k v) rest

  unfoldable pub sanitize_response_headers : M → M
  unfolding sanitize_from
  sanitize_response_headers upstream = sanitize_from h.no_headers (h.entries upstream)

-- ===== src/Trace.antt =====
-- src/trace.rs: the W3C `traceparent` header, as a list of code points, and the span of a request.
pub mod Splitting
pub mod Laws
pub mod Tests
use sturnus.Prelude.{
  ℕ, ◌+◌, ◌≡◌, Bool, true, false, not, ◌&&◌, ◌||◌, List, [], ◌∷◌, ◌++◌, Option, none, some, all,
  ltb, leb, if◌then◌else◌, ◌==◌, nat_eq, cond,
}
use sturnus.Prelude.Partial.{◌>>=◌}
use sturnus.Prelude.Str.{Text, trim, code_points}
use sturnus.Http.{Http, get_header}

pub record TraceContext : Type 0 where
  pub trace_id : Text
  pub parent_span_id : Text

-- Puts a character in front of the first part.
abbrev pub push_front : ℕ → List Text → List Text
push_front c [] = (c ∷ []) ∷ []
push_front c (part ∷ parts) = (c ∷ part) ∷ parts

-- `split('-')`: one part more than there are dashes.
unfoldable pub split_dash : Text → List Text
split_dash [] = [] ∷ []
split_dash (c ∷ s) =
    let parts = split_dash s in if c == b'-' then [] ∷ parts else push_front c parts

-- The length in bytes of a text in UTF-8.
abbrev pub utf8_len : ℕ → ℕ
utf8_len c = if ltb c 0x80 then 1 else if ltb c 0x800 then 2 else if ltb c 0x10000 then 3 else 4

abbrev pub len : Text → ℕ
len [] = 0
len (c ∷ s) = utf8_len c + len s

-- `u8::is_ascii_hexdigit`. A character beyond ASCII has no byte that is one.
abbrev pub is_hexdigit : ℕ → Bool
is_hexdigit c =
    (leb b'0' c && leb c b'9') || (leb b'a' c && leb c b'f') || (leb b'A' c && leb c b'F')

unfoldable pub is_hex : Text → Bool
is_hex s = all is_hexdigit s

unfoldable pub is_all_zero : Text → Bool
unfolding nat_eq
is_all_zero s = all (λ b. b == b'0') s

abbrev pub is_text : Text → Text → Bool
is_text [] [] = true
is_text (a ∷ s) (b ∷ t) = a == b && is_text s t
is_text _ _ = false

abbrev pub is_nonempty {ℓ} : {A : Type ℓ} → List A → Bool
is_nonempty [] = false
is_nonempty (_ ∷ _) = true

-- What follows the four calls of `fields.next()?`; `more` holds the fields that are left.
unfoldable pub check_fields : Text → Text → Text → List Text → Option TraceContext
unfolding is_hex is_all_zero
check_fields version trace_id parent_id more =
    if is_text version (b'0' ∷ b'0' ∷ []) && is_nonempty more
    then none
    else if not (len version == 2) || not (is_hex version) || is_text version (b'f' ∷ b'f' ∷ [])
    then none
    else if not (len trace_id == 32) || not (is_hex trace_id) || is_all_zero trace_id
    then none
    else if not (len parent_id == 16) || not (is_hex parent_id) || is_all_zero parent_id
    then none
    else some (record { trace_id = trace_id; parent_span_id = parent_id })

unfoldable pub parse_fields : List Text → Option TraceContext
unfolding check_fields
parse_fields (version ∷ trace_id ∷ parent_id ∷ flags ∷ more) =
    check_fields version trace_id parent_id more
parse_fields _ = none

unfoldable pub parse_traceparent : Text → Option TraceContext
unfolding trim split_dash parse_fields
parse_traceparent value = parse_fields (split_dash (trim value))

-- The span of a request: its id, and the fields of its context where it has one.
pub record Span (I : Type 0) : Type 0 where
  pub request_id : I
  pub context : Option TraceContext

-- The id is that of `uuid`.
unfoldable pub request_span : {V M I : Type 0} → Http V M → I → M → Span I
unfolding parse_traceparent code_points
request_span h id headers = record {
  request_id = id;
  context = do
    v ← get_header h headers "traceparent"
    s ← h.to_str v
    parse_traceparent (code_points s);
}

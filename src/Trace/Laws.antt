-- ===== src/Trace/Laws.antt =====
-- `parse_traceparent` accepts exactly the headers of the W3C grammar, and returns their ids.
use sturnus.Prelude.{
  ℕ, ◌≡◌, refl, sym, ◌∙◌, ◌≢◌, ◌↔◌, true, false, false≢true, List, [], ◌∷◌, ◌++◌, some, arith,
  nat_eq,
}
use sturnus.Prelude.Str.{Text}
use sturnus.Prelude.Str.{trim}
use sturnus.Trace.{
  TraceContext, split_dash, len, is_hex, is_all_zero, is_text, is_nonempty, check_fields,
  parse_fields, parse_traceparent,
}
use sturnus.Trace.Splitting.{
  NoDash, join, Parts, split_dash-Parts, split_dash-part, split_dash_single, is_hex-NoDash,
  is_text_iff,
}

abbrev pub version_00 : Text
version_00 = b'0' ∷ b'0' ∷ []

abbrev pub version_ff : Text
version_ff = b'f' ∷ b'f' ∷ []

-- An id: so many hex digits, not all zero.
pub record IsId (n : ℕ) (s : Text) : Type 0 where
  pub size : len s ≡ n
  pub hex : is_hex s ≡ true
  pub nonzero : is_all_zero s ≡ false

-- `version-trace_id-parent_id-tail`: version 00 has flags and nothing more.
pub record IsTraceparent (s : Text) (ctx : TraceContext) : Type 0 where
  pub version : Text
  pub tail : Text
  pub shape :
      s ≡ version ++ (b'-' ∷ (ctx.trace_id ++ (b'-' ∷ (ctx.parent_span_id ++ (b'-' ∷ tail)))))
  pub version_size : len version ≡ 2
  pub version_hex : is_hex version ≡ true
  pub not_ff : version ≢ version_ff
  pub trace : IsId 32 ctx.trace_id
  pub parent : IsId 16 ctx.parent_span_id
  pub flags_only : version ≡ version_00 → NoDash tail

-- The checks pass exactly for a version, ids and rest of the grammar.
record Checked (version trace_id parent_id : Text) (more : List Text) (ctx : TraceContext)
    : Type 0 where
  same_trace : ctx.trace_id ≡ trace_id
  same_parent : ctx.parent_span_id ≡ parent_id
  version_size : len version ≡ 2
  version_hex : is_hex version ≡ true
  not_ff : is_text version version_ff ≡ false
  trace : IsId 32 trace_id
  parent : IsId 16 parent_id
  no_more : is_text version version_00 ≡ true → is_nonempty more ≡ false

check_fields-Checked :
    (version trace_id parent_id : Text) (more : List Text) (ctx : TraceContext)
    → check_fields version trace_id parent_id more ≡ some ctx
    → Checked version trace_id parent_id more ctx
unfolding check_fields nat_eq
check_fields-Checked version trace_id parent_id more ctx h = ground arith

Checked-check_fields :
    (version trace_id parent_id : Text) (more : List Text) (ctx : TraceContext)
    → Checked version trace_id parent_id more ctx
    → check_fields version trace_id parent_id more ≡ some ctx
unfolding check_fields nat_eq
Checked-check_fields version trace_id parent_id more ctx c = ground arith

fields-IsTraceparent :
    (s : Text) (ps : List Text) (ctx : TraceContext)
    → Parts s ps
    → parse_fields ps ≡ some ctx
    → IsTraceparent s ctx
unfolding parse_fields
fields-IsTraceparent s [] ctx p h = cc
fields-IsTraceparent s (_ ∷ []) ctx p h = cc
fields-IsTraceparent s (_ ∷ _ ∷ []) ctx p h = cc
fields-IsTraceparent s (_ ∷ _ ∷ _ ∷ []) ctx p h = cc
fields-IsTraceparent s (v ∷ t ∷ q ∷ flags ∷ more) ctx (_, _, _, joined, clean) h =
    let c = check_fields-Checked v t q more ctx h in
    record {
      version = v;
      tail = join (flags ∷ more);
      shape = rw (c.same_trace, c.same_parent) (sym joined);
      version_size = c.version_size;
      version_hex = c.version_hex;
      not_ff = λ e. false≢true (sym c.not_ff ∙ (is_text_iff v version_ff).1 e);
      trace = rw c.same_trace c.trace;
      parent = rw c.same_parent c.parent;
      flags_only = λ e. flags_alone more (c.no_more ((is_text_iff v version_00).1 e));
    }
  where
    flags_alone : (more : List Text) → is_nonempty more ≡ false → NoDash (join (flags ∷ more))
    flags_alone [] e = clean.1.1.1.0
    flags_alone (_ ∷ _) e = cc

refutes : (s t : Text) → s ≢ t → is_text s t ≡ false
refutes s t h = ground (arith, is_text_iff s t)

IsTraceparent-fields :
    (s : Text) (ctx : TraceContext) → IsTraceparent s ctx → parse_fields (split_dash s) ≡ some ctx
unfolding parse_fields
IsTraceparent-fields s ctx g =
    rw
      (
        g.shape,
        split_dash-part g.version _ (is_hex-NoDash g.version g.version_hex),
        split_dash-part ctx.trace_id _ (is_hex-NoDash ctx.trace_id g.trace.hex),
        split_dash-part ctx.parent_span_id g.tail (is_hex-NoDash ctx.parent_span_id g.parent.hex),
      )
      (last (split_dash g.tail) (split_dash-Parts g.tail) flags_alone)
  where
    flags_alone : g.version ≡ version_00 → split_dash g.tail ≡ g.tail ∷ []
    flags_alone e = split_dash_single g.tail (g.flags_only e)

    last :
        (ps : List Text)
        → Parts g.tail ps
        → (g.version ≡ version_00 → ps ≡ g.tail ∷ [])
        → parse_fields (g.version ∷ ctx.trace_id ∷ ctx.parent_span_id ∷ ps) ≡ some ctx
    last [] (_, _, e, _, _) only = cc
    last (flags ∷ more) p only =
        Checked-check_fields g.version ctx.trace_id ctx.parent_span_id more ctx (record {
          same_trace = refl;
          same_parent = refl;
          version_size = g.version_size;
          version_hex = g.version_hex;
          not_ff = refutes g.version version_ff g.not_ff;
          trace = g.trace;
          parent = g.parent;
          no_more = λ e. ground (arith, only ((is_text_iff g.version version_00).0 e));
        })

-- A header is accepted exactly if, trimmed, it is `version-trace_id-parent_id-tail` with a version
-- of two hex digits other than `ff`, ids of 32 and 16 hex digits that are not all zero, and, in
-- version 00, no dash in the tail; the context then holds these ids.
pub parse_traceparent_iff :
    (value : Text) (ctx : TraceContext)
    → (parse_traceparent value ≡ some ctx) ↔ IsTraceparent (trim value) ctx
unfolding parse_traceparent
parse_traceparent_iff value ctx = (
  fields-IsTraceparent (trim value) (split_dash (trim value)) ctx (split_dash-Parts (trim value)),
  IsTraceparent-fields (trim value) ctx,
)

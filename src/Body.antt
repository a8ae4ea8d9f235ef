-- ===== src/Body.antt =====
-- src/body.rs: a JSON object whose top-level values stay raw text. `R` is serde_json's `RawValue`;
-- the parser's map access is the list of the entries or errors that it hands out.
pub mod Laws
pub mod Tests
use sturnus.Prelude.{
  String, List, [], ◌∷◌, Option, none, some, if◌then◌else◌, ◌==◌, string_eq, Result, ok, err, ◌>>=◌,
}
use sturnus.Prelude.Dict.{Dict, lookup, insert}

pub record RawBody (R : Type 0) : Type 0 where
  pub fields : Dict String R

module _ {R : Type 0} where
  unfoldable pub get : RawBody R → String → Option R
  unfolding lookup
  get body key = lookup key body.fields

  -- `parse` is `serde_json::from_str` at the type asked for.
  unfoldable pub get_as : {T : Type 0} → (R → Option T) → RawBody R → String → Option T
  unfolding get
  get_as parse body key = elim (get body key) [ none ↦ none | some raw ↦ parse raw ]

  -- A key that is there keeps its place; a new one goes to the end.
  unfoldable pub set : RawBody R → String → R → RawBody R
  unfolding insert
  set body key value = record { fields = insert key value body.fields }

  -- The loop of `visit_map`: the slot of a key seen before is overwritten.
  unfoldable pub visit_from :
      {E : Type 0} → Dict String R → List (Result E (String × R)) → Result E (RawBody R)
  unfolding insert
  visit_from fields [] = ok (record { fields = fields })
  visit_from fields (err e ∷ rest) = err e
  visit_from fields (ok (key, value) ∷ rest) = visit_from (insert key value fields) rest

  unfoldable pub visit_map : {E : Type 0} → List (Result E (String × R)) → Result E (RawBody R)
  unfolding visit_from
  visit_map entries = visit_from [] entries

  -- The entries that `serialize` writes, in order.
  unfoldable pub serialize : RawBody R → List (String × R)
  serialize body = body.fields

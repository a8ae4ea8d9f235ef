-- ===== src/Http/Table.antt =====
-- A header map as the list of its headers: the interface with operations that run.
use sturnus.Prelude.{
  ◌≡◌, refl, String, List, [], ◌∷◌, ◌++◌, none, some, arith, if◌then◌else◌, ◌==◌, string_eq,
}
use sturnus.Http.{Http, values_of, first, IsHeaderMap}

abbrev pub Table : Type 0
Table = List (String × String)

without : String → Table → Table
without name [] = []
without name ((n, v) ∷ t) = let rest = without name t in if n == name then rest else (n, v) ∷ rest

-- Every text is a header name as it stands, and a header value but for the empty one.
unfoldable pub table_http : Http String Table
unfolding without
table_http = record {
  header_name = some;
  header_value = λ s. if s == "" then none else some s;
  to_str = some;
  no_headers = [];
  entries = λ t. t;
  insert = λ n v t. ((n, v) ∷ without n t, first (values_of n t));
  append = λ n v t. t ++ (n, v) ∷ [];
  remove = λ n t. (without n t, first (values_of n t));
}

values_of-without :
    (name key : String) (t : Table)
    → values_of name (without key t) ≡ (if key == name then [] else values_of name t)
unfolding without
values_of-without name key [] = ground arith
values_of-without name key ((n, v) ∷ t) = ground (arith, values_of-without name key t)

values_of-append :
    (name key v : String) (t : Table)
    → values_of name (t ++ (key, v) ∷ [])
      ≡ (if key == name then values_of name t ++ v ∷ [] else values_of name t)
values_of-append name key v [] = ground arith
values_of-append name key v ((n, w) ∷ t) = ground (arith, values_of-append name key v t)

pub table-IsHeaderMap : IsHeaderMap table_http
unfolding table_http
table-IsHeaderMap = record {
  values-no_headers = λ name. refl;
  values-insert = λ name key v t. ground (arith, values_of-without name key t);
  insert-old = λ key v t. refl;
  values-append = λ name key v t. values_of-append name key v t;
  values-remove = λ name key t. values_of-without name key t;
  remove-old = λ key t. refl;
}

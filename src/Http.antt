-- ===== src/Http.antt =====
-- The types of the http crate that the source uses: header names, values and maps. A `HeaderName`
-- is its text in lower case. `V` is `HeaderValue` and `M` is `HeaderMap`, a multimap that is read
-- through its iterator.
pub mod Table
use sturnus.Prelude.{
  ℕ, ◌≡◌, String, List, [], ◌∷◌, ◌++◌, Option, none, some, if◌then◌else◌, ◌==◌, string_eq,
}

pub record Http (V M : Type 0) : Type 0 where
  -- `HeaderName::try_from`, `HeaderValue::try_from`, `HeaderValue::to_str`
  pub header_name : String → Option String
  pub header_value : String → Option V
  pub to_str : V → Option String
  pub no_headers : M
  -- All headers, a repeated name as often as it has values.
  pub entries : M → List (String × V)
  -- `insert` replaces all values of a name and returns the first that it had.
  pub insert : String → V → M → M × Option V
  pub append : String → V → M → M
  -- `remove` takes all values of a name away and returns the first.
  pub remove : String → M → M × Option V

-- The values of a name, in order.
abbrev pub values_of : {V : Type 0} → String → List (String × V) → List V
values_of name [] = []
values_of name ((n, v) ∷ rest) = if n == name then v ∷ values_of name rest else values_of name rest

abbrev pub first : {V : Type 0} → List V → Option V
first [] = none
first (v ∷ _) = some v

module _ {V M : Type 0} (h : Http V M) where
  -- `get_all`, as a list.
  abbrev pub values : M → String → List V
  values m name = values_of name (h.entries m)

  -- `get`
  abbrev pub get_header : M → String → Option V
  get_header m name = first (values m name)

-- What the crate documents of header maps.
pub record IsHeaderMap {V M : Type 0} (h : Http V M) : Type 0 where
  pub values-no_headers : (name : String) → values h h.no_headers name ≡ []
  pub values-insert :
      (name key : String) (v : V) (m : M)
      → values h (h.insert key v m).0 name ≡ (if key == name then v ∷ [] else values h m name)
  pub insert-old : (key : String) (v : V) (m : M) → (h.insert key v m).1 ≡ get_header h m key
  pub values-append :
      (name key : String) (v : V) (m : M)
      → values h (h.append key v m) name
        ≡ (if key == name then values h m name ++ v ∷ [] else values h m name)
  pub values-remove :
      (name key : String) (m : M)
      → values h (h.remove key m).0 name ≡ (if key == name then [] else values h m name)
  pub remove-old : (key : String) (m : M) → (h.remove key m).1 ≡ get_header h m key

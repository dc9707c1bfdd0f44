-- ===== src/Json.antt =====
-- Python's dictionaries and lists as `json.dump` takes them. A dictionary keeps the order of its
-- keys. A float stands as a decimal number: `float m p` is m / 10^p.
use nex_pulse.Base.{
  ℕ, String, ◌≡◌, refl, ap, Bool, Option, none, some, List, [], ◌∷◌, if◌then◌else◌,
}
use nex_pulse.Text.{Text, codes}
use text.Mathlib.Text.{◌==◌}

mutual
  pub data Json : Type 0 where
    null : Json
    bool : Bool → Json
    int : ℕ → Json
    float : ℕ → ℕ → Json
    str : Text → Json
    array : Items → Json
    object : Fields → Json

  pub data Items : Type 0 where
    nil : Items
    cons : Json → Items → Items

  pub data Fields : Type 0 where
    end : Fields
    field : String → Json → Fields → Fields

-- A string literal.
unfoldable pub quoted : String → Json
quoted s = str (codes s)

unfoldable pub items_of : List Json → Items
items_of [] = nil
items_of (j ∷ js) = cons j (items_of js)

-- A list display.
unfoldable pub arr : List Json → Json
unfolding items_of
arr js = array (items_of js)

unfoldable pub fields_of : List (String × Json) → Fields
fields_of [] = end
fields_of ((k, j) ∷ fs) = field k j (fields_of fs)

-- A dictionary display without repeated keys.
unfoldable pub dict : List (String × Json) → Json
unfolding fields_of
dict fs = object (fields_of fs)

unfoldable pub lookup : String → Fields → Option Json
lookup k end = none
lookup k (field j v fs) = if j == k then some v else lookup k fs

-- The value under a key of a dictionary.
unfoldable pub get : String → Json → Option Json
unfolding lookup
get k (object fs) = lookup k fs
get k _ = none

-- The number under a key of a dictionary.
unfoldable pub get_int : String → Json → Option ℕ
unfolding get
get_int k j = elim (get k j) [ some (int n) ↦ some n | _ ↦ none ]

-- The items of a list.
unfoldable pub list_of : Items → List Json
list_of nil = []
list_of (cons j js) = j ∷ list_of js

unfoldable pub elements : Json → List Json
unfolding list_of
elements (array js) = list_of js
elements _ = []

pub list_of-items_of : (js : List Json) → list_of (items_of js) ≡ js
unfolding list_of items_of
list_of-items_of [] = refl
list_of-items_of (j ∷ js) = ap (λ t. j ∷ t) (list_of-items_of js)

pub elements-arr : (js : List Json) → elements (arr js) ≡ js
unfolding elements arr
elements-arr js = list_of-items_of js

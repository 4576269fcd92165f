-- ===== src/Json.antt =====
-- JSON-like Python values: what tool arguments and tool results are made of.
-- A float is its 64-bit pattern, which no modelled code computes with. The keys of a `dict` are
-- compared only, so they are native strings; string values are lists of code points.
use trace_pilot.Prelude.{ℕ, String, Bool, true, false, Text, List, [], ◌∷◌}

-- A Python `int`; `negsuc n` is -(n + 1).
pub data ℤ : Type 0 where
  pos : ℕ → ℤ
  negsuc : ℕ → ℤ

mutual
  pub data Value : Type 0 where
    null : Value
    boolean : Bool → Value
    int : ℤ → Value
    float : ℕ → Value
    str : Text → Value
    list : Items → Value
    dict : Fields → Value

  pub data Items : Type 0 where
    nil : Items
    cons : Value → Items → Items

  pub data Fields : Type 0 where
    end : Fields
    field : String → Value → Fields → Fields

abbrev pub nat : ℕ → Value
nat n = int (pos n)

-- `isinstance(value, str)`, `isinstance(value, list)`, `isinstance(value, dict)`
abbrev pub is_str : Value → Bool
is_str (str s) = true
is_str _ = false

abbrev pub is_list : Value → Bool
is_list (list xs) = true
is_list _ = false

abbrev pub is_dict : Value → Bool
is_dict (dict fs) = true
is_dict _ = false

-- The list of one value for each element.
unfoldable pub items {ℓ} : {A : Type ℓ} → (A → Value) → List A → Items
items f [] = nil
items f (x ∷ xs) = cons (f x) (items f xs)

abbrev pub list_of {ℓ} : {A : Type ℓ} → (A → Value) → List A → Value
list_of f xs = list (items f xs)

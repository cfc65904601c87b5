-- ===== src/Js/Value.antt =====
-- JavaScript values as the panel reads them from JSON: the primitives, arrays and plain objects.
use autoform_panel.Prelude.{
  ℕ, String, Bool, true, false, ◌||◌, Option, none, some, not, List, [], ◌∷◌, leb, ◌==◌, str_eq,
  if◌then◌else◌,
}

-- `negsuc n` is -(n + 1).
pub data ℤ : Type 0 where
  pos : ℕ → ℤ
  negsuc : ℕ → ℤ

-- A number is an integer, a finite number that is none (known by its text), or not finite.
pub data Num : Type 0 where
  int : ℤ → Num
  frac : String → Num
  non_finite : Num

mutual
  -- The own enumerable properties of an object, in their order.
  pub data Properties : Type 0 where
    no_property : Properties
    property : (key : String) (value : Value) → Properties → Properties

  pub data Value : Type 0 where
    undefined : Value
    bool : Bool → Value
    num : Num → Value
    str : String → Value
    obj : Properties → Value
    arr : Elements → Value
    null : Value

  pub data Elements : Type 0 where
    no_element : Elements
    element : Value → Elements → Elements

abbrev pub nat : ℕ → Value
nat n = num (int (pos n))

abbrev pub items : Elements → List Value
items no_element = []
items (element v vs) = v ∷ items vs

abbrev pub from_list : List Value → Elements
from_list [] = no_element
from_list (v ∷ vs) = element v (from_list vs)

-- `Object.keys` of an object with these fields.
abbrev pub field_names : Properties → List String
field_names no_property = []
field_names (property k v fs) = k ∷ field_names fs

abbrev pub lookup : String → Properties → Value
lookup k no_property = undefined
lookup k (property j v fs) = if str_eq j k then v else lookup k fs

-- `value[key]` for a key that no prototype holds, where the value is neither null nor undefined.
abbrev pub get : Value → String → Value
get (obj fs) k = lookup k fs
get _ k = undefined

abbrev pub contains : List String → String → Bool
contains [] k = false
contains (j ∷ js) k = str_eq j k || contains js k

-- `Object.prototype.hasOwnProperty.call(value, key)`
abbrev pub has_own : Value → String → Bool
has_own (obj fs) k = contains (field_names fs) k
has_own _ k = false

-- `{ ...fields, [key]: value }`
abbrev pub set_field : String → Value → Properties → Properties
set_field k v no_property = property k v no_property
set_field k v (property j w fs) =
    if str_eq j k then property j v fs else property j w (set_field k v fs)

abbrev pub from_pairs : List (String × Value) → Properties
from_pairs [] = no_property
from_pairs ((k, v) ∷ kvs) = property k v (from_pairs kvs)

-- An object literal.
abbrev pub object : List (String × Value) → Value
object kvs = obj (from_pairs kvs)

-- `typeof value === "object"` and the like
abbrev pub is_plain_object : Value → Bool
is_plain_object (obj fs) = true
is_plain_object _ = false

abbrev pub string_of : Value → Option String
string_of (str s) = some s
string_of _ = none

abbrev pub is_undefined : Value → Bool
is_undefined undefined = true
is_undefined _ = false

abbrev pub is_integer : Value → Bool
is_integer (num (int z)) = true
is_integer _ = false

-- 2 ^ 53 - 1
abbrev pub max_safe_integer : ℕ
max_safe_integer = 9007199254740991

-- `Number.isSafeInteger(value) && value >= 0`, as the number.
abbrev pub safe_nat : Value → Option ℕ
safe_nat (num (int (pos n))) = if leb n max_safe_integer then some n else none
safe_nat _ = none

-- `value === text`, `value === n`
abbrev pub is_str : Value → String → Bool
is_str (str s) t = str_eq s t
is_str _ t = false

abbrev pub is_nat : Value → ℕ → Bool
is_nat (num (int (pos n))) m = n == m
is_nat _ m = false

abbrev pub is_int : ℤ → ℤ → Bool
is_int (pos m) (pos n) = m == n
is_int (negsuc m) (negsuc n) = m == n
is_int _ _ = false

-- `a === b` of two numbers; the infinities are no JSON, and NaN equals nothing.
abbrev pub same_num : Num → Num → Bool
same_num (int a) (int b) = is_int a b
same_num (frac a) (frac b) = str_eq a b
same_num _ _ = false

abbrev pub same_bool : Bool → Bool → Bool
same_bool true b = b
same_bool false b = not b

-- `a === b`, where two arrays or objects come from two parses, hence are different references.
abbrev pub strict_eq : Value → Value → Bool
strict_eq undefined undefined = true
strict_eq null null = true
strict_eq (bool a) (bool b) = same_bool a b
strict_eq (num a) (num b) = same_num a b
strict_eq (str a) (str b) = str_eq a b
strict_eq _ _ = false

-- `Boolean(value)`; zero, the empty text and what is absent count as false.
abbrev pub truthy : Value → Bool
truthy undefined = false
truthy null = false
truthy (bool b) = b
truthy (num (int (pos n))) = not (n == 0)
truthy (num non_finite) = false
truthy (str s) = not (str_eq s "")
truthy _ = true

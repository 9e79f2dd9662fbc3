-- ===== src/Contracts/Value.antt =====
-- The values that reach the program as `unknown`: what JavaScript code can hand to it. Objects have
-- data properties only (no getters, no proxies) and no cycles.
use agent_routebench.Prelude.{
  ℕ, Bool, true, false, ◌&&◌, String, List, [], ◌∷◌, ◌≡◌, refl, Option, none, some, ◌==◌, ltb, leb,
  if◌then◌else◌,
}

-- A `number`: an integer of either sign (`negative n` is -(n + 1)), a finite number that is none
-- (by its sign and bit pattern), or one that is not finite.
pub data Number : Type 0 where
  natural : ℕ → Number
  negative : ℕ → Number
  fraction : Bool → ℕ → Number
  infinity : Bool → Number
  nan : Number

-- `plain` is an object whose prototype is `Object.prototype` or null, with its own properties in
-- their order; `instance_of` is any other object that is no array, with the properties that a read
-- finds; `callable` is a function.
mutual
  pub data Value : Type 0 where
    undefined null callable : Value
    boolean : Bool → Value
    number : Number → Value
    string : String → Value
    array : Items → Value
    plain : Fields → Value
    instance_of : Fields → Value

  pub data Items : Type 0 where
    nil : Items
    item : Value → Items → Items

  pub data Fields : Type 0 where
    end : Fields
    field : String → Value → Fields → Fields

abbrev pub items : Items → List Value
items nil = []
items (item v vs) = v ∷ items vs

abbrev pub from_list : List Value → Items
from_list [] = nil
from_list (v ∷ vs) = item v (from_list vs)

pub items-from_list : (vs : List Value) → items (from_list vs) ≡ vs
items-from_list [] = refl
items-from_list (v ∷ vs) = rw (items-from_list vs)

-- `Object.keys`.
abbrev pub keys : Fields → List String
keys end = []
keys (field k v fs) = k ∷ keys fs

abbrev pub read : String → Fields → Value
read k end = undefined
read k (field j v fs) = if j == k then v else read k fs

-- `value.k`, where the value is no null and not undefined.
abbrev pub property : String → Value → Value
property k (plain fs) = read k fs
property k (instance_of fs) = read k fs
property k _ = undefined

abbrev pub is_undefined : Value → Bool
is_undefined undefined = true
is_undefined _ = false

-- `value === undefined || value === null`: a property of such a value cannot be read.
abbrev pub is_nullish : Value → Bool
is_nullish undefined = true
is_nullish null = true
is_nullish _ = false

-- `Array.isArray(value)`, with the elements.
abbrev pub as_array : Value → Option (List Value)
as_array (array vs) = some (items vs)
as_array _ = none

-- `typeof value === "string"`, with the text.
abbrev pub as_string : Value → Option String
as_string (string s) = some s
as_string _ = none

-- `value === text`.
abbrev pub is_text : Value → String → Bool
is_text (string s) text = s == text
is_text _ text = false

-- `value === true`.
abbrev pub is_true : Value → Bool
is_true (boolean b) = b
is_true _ = false

-- Number.MAX_SAFE_INTEGER, 2 ^ 53 - 1.
abbrev pub max_safe_integer : ℕ
max_safe_integer = 9007199254740991

-- `typeof value === "number" && Number.isInteger(value) && value > 0`
abbrev pub is_positive_integer : Value → Bool
is_positive_integer (number (natural n)) = ltb 0 n
is_positive_integer _ = false

-- `typeof value === "number" && Number.isSafeInteger(value) && value >= least`
abbrev pub safe_integer_from : ℕ → Value → Option ℕ
safe_integer_from least (number (natural n)) =
    if leb n max_safe_integer && leb least n then some n else none
safe_integer_from least _ = none

-- `isPlainObject`, as the packages of the program all define it.
abbrev pub is_plain_object : Value → Bool
is_plain_object (plain fs) = true
is_plain_object _ = false

abbrev pub as_plain_object : Value → Option Fields
as_plain_object (plain fs) = some fs
as_plain_object _ = none

abbrev is_callable : Value → Bool
is_callable callable = true
is_callable _ = false

-- `hasCallableMethod`: the shape test for an injected dependency.
abbrev pub has_callable_method : Value → String → Bool
has_callable_method (plain fs) method = is_callable (read method fs)
has_callable_method (instance_of fs) method = is_callable (read method fs)
has_callable_method _ method = false

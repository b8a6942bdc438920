-- ===== src/Js/Dynamic.antt =====
-- Dynamic values: property access, truth, String(), Number(), and the operators `||`, `??`, `===`.
use Prim.Native.String.{String, ◌++◌}
use clairveil_samples.Js.Numbers.{Number, is_zero, nan, nat, neg, number_text, parse_number}
use clairveil_samples.Js.Text.{is_empty, to_decimal}
use clairveil_samples.Prelude.{
  Bool, List, Option, arith, eq_refl, false, if◌then◌else◌, none, not, some, suc, true, ℕ, ◌===◌,
  ◌==◌, ◌||◌, ◌≡◌,
}

mutual
  pub data Value : Type 0 where
    undefined null : Value
    boolean : Bool → Value
    number : Number → Value
    bigint : ℕ → Value
    minus_bigint : ℕ → Value
    string : String → Value
    array : Items → Value
    object : Fields → Value

  pub data Items : Type 0 where
    nil : Items
    cons : Value → Items → Items

  pub data Fields : Type 0 where
    end : Fields
    field : String → Value → Fields → Fields

unfoldable pub items : Items → List Value
items nil = List.[]
items (cons v vs) = List.◌∷◌ v (items vs)

unfoldable pub of_list : List Value → Items
of_list List.[] = nil
of_list (List.◌∷◌ v vs) = cons v (of_list vs)

unfoldable pub get_field : String → Fields → Value
get_field k end = undefined
get_field k (field j v fs) = if j === k then v else get_field k fs

unfoldable pub has_field : String → Fields → Bool
has_field k end = false
has_field k (field j v fs) = j === k || has_field k fs

-- `v?.k`, for the names of properties that the program reads.
unfoldable pub get : String → Value → Value
unfolding get_field
get k (object fs) = get_field k fs
get k _ = undefined

-- Object.prototype.hasOwnProperty.call(v, k)
unfoldable pub has_own : String → Value → Bool
unfolding has_field
has_own k (object fs) = has_field k fs
has_own k _ = false

-- The elements, if Array.isArray(v).
unfoldable pub elements : Value → Option (List Value)
unfolding items
elements (array vs) = some (items vs)
elements _ = none

abbrev pub is_nullish : Value → Bool
is_nullish undefined = true
is_nullish null = true
is_nullish _ = false

-- Boolean(v)
unfoldable pub truthy : Value → Bool
unfolding is_zero
truthy undefined = false
truthy null = false
truthy (boolean b) = b
truthy (number nan) = false
truthy (number n) = not (is_zero n)
truthy (bigint n) = not (n == 0)
truthy (minus_bigint n) = true
truthy (string s) = not (is_empty s)
truthy (array vs) = true
truthy (object fs) = true

infixr 30 ◌or◌ ◌or_nullish◌
-- `a || b` and `a ?? b`
abbrev pub ◌or◌ : Value → Value → Value
a or b = if truthy a then a else b

abbrev pub ◌or_nullish◌ : Value → Value → Value
a or_nullish b = if is_nullish a then b else a

-- `v === true`, `v === false`, `v === "s"`, `v === undefined`
abbrev pub is_true : Value → Bool
is_true (boolean b) = b
is_true _ = false

abbrev pub is_false : Value → Bool
is_false (boolean b) = not b
is_false _ = false

abbrev pub is_text : String → Value → Bool
is_text s (string t) = t === s
is_text s _ = false

abbrev pub is_undefined : Value → Bool
is_undefined undefined = true
is_undefined _ = false

-- v && typeof v === "object" && !Array.isArray(v)
abbrev pub is_object : Value → Bool
is_object (object fs) = true
is_object _ = false

-- typeof v === "object", for a value that is not null.
abbrev pub is_object_like : Value → Bool
is_object_like (array vs) = true
is_object_like (object fs) = true
is_object_like _ = false

-- An element of an array as `join` prints it.
abbrev element_text : Value → String → String
element_text undefined text = ""
element_text null text = ""
element_text _ text = text

-- String(v)
unfoldable mutual
  pub text_of : Value → String
  text_of undefined = "undefined"
  text_of null = "null"
  text_of (boolean b) = if b then "true" else "false"
  text_of (number n) = number_text n
  text_of (bigint n) = to_decimal n
  text_of (minus_bigint n) = "-" ++ to_decimal (suc n)
  text_of (string s) = s
  text_of (array vs) = items_text vs
  text_of (object fs) = "[object Object]"

  pub items_text : Items → String
  items_text nil = ""
  items_text (cons v nil) = element_text v (text_of v)
  items_text (cons v vs) = element_text v (text_of v) ++ "," ++ items_text vs

-- Number(v)
unfoldable pub to_number : Value → Number
to_number undefined = nan
to_number null = nat 0
to_number (boolean b) = nat (if b then 1 else 0)
to_number (number n) = n
to_number (bigint n) = nat n
to_number (minus_bigint n) = neg n
to_number (string s) = parse_number s
to_number (array vs) = parse_number (items_text vs)
to_number (object fs) = nan

-- String(v || "")
unfoldable pub text_or_empty : Value → String
text_or_empty v = text_of (v or string "")

-- `{ ...v, [k]: w }`
unfoldable pub set_field : String → Value → Fields → Fields
set_field k w end = field k w end
set_field k w (field j v fs) = if j === k then field k w fs else field j v (set_field k w fs)

unfoldable pub set_own : String → Value → Value → Value
unfolding set_field
set_own k w (object fs) = object (set_field k w fs)
set_own k w _ = object (field k w end)

get_field-set_field : (k : String) (w : Value) (fs : Fields) → get_field k (set_field k w fs) ≡ w
unfolding get_field set_field
get_field-set_field k w end = ground (arith, eq_refl k)
get_field-set_field k w (field j v fs) = ground (arith, eq_refl k, get_field-set_field k w fs)

pub get-set_own : (k : String) (w v : Value) → get k (set_own k w v) ≡ w
unfolding get set_own
get-set_own k w (object fs) = get_field-set_field k w fs
get-set_own k w _ = get_field-set_field k w end

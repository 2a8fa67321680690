-- ===== src/Json.antt =====
-- JSON values as Python holds them after `json.loads`, with the reads that the program makes of
-- them. A number is its literal and its truth value: nothing else is asked of one.
use Prim.Native.Nat.{◌/◌, ◌%◌}
use request_o_matic.Base.{
  ℕ, zero, suc, ◌+◌, ltb, Bool, true, false, not, Option, none, some, List, [], ◌∷◌, is_nil,
  if◌then◌else◌,
}
use request_o_matic.Text.{Text, text_eq}

mutual
  pub data Json : Type 0 where
    null : Json
    boolean : Bool → Json
    number : (nonzero : Bool) (literal : Text) → Json
    string : Text → Json
    array : Items → Json
    object : Members → Json

  pub data Items : Type 0 where
    nil : Items
    item : Json → Items → Items

  -- The pairs of a `dict`, in order of insertion.
  pub data Members : Type 0 where
    end : Members
    member : Text → Json → Members → Members

abbrev pub items : List Json → Items
items [] = nil
items (v ∷ vs) = item v (items vs)

abbrev pub members : List (Text × Json) → Members
members [] = end
members ((k, v) ∷ kvs) = member k v (members kvs)

-- A list display and a dict display.
abbrev pub arr : List Json → Json
arr vs = array (items vs)

abbrev pub obj : List (Text × Json) → Json
obj kvs = object (members kvs)

-- `d.get(key)` on a dict.
unfoldable pub get : Text → Members → Option Json
get key end = none
get key (member k v kvs) = if text_eq k key then some v else get key kvs

-- `bool(v)`
unfoldable pub is_true : Json → Bool
is_true null = false
is_true (boolean b) = b
is_true (number nonzero literal) = nonzero
is_true (string s) = not (is_nil s)
is_true (array nil) = false
is_true (array (item v vs)) = true
is_true (object end) = false
is_true (object (member k v kvs)) = true

-- A `str | None` as a JSON value.
abbrev pub optional : Option Text → Json
optional none = null
optional (some s) = string s

-- `str(n)`, on fuel that the number itself exceeds
digits : ℕ → ℕ → Text → Text
digits zero n acc = acc
digits (suc fuel) n acc =
    let more = digits fuel (n / 10) ((48 + n % 10) ∷ acc) in
    if ltb n 10 then (48 + n) ∷ acc else more

unfoldable pub decimal : ℕ → Text
unfolding digits
decimal n = digits (suc n) n []

abbrev pub natural : ℕ → Json
natural n = number (ltb 0 n) (decimal n)

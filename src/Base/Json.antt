-- ===== src/Base/Json.antt =====
-- JSON values as Python holds them after `json.loads`. A number is the exact fraction n / (d + 1):
-- every int and every finite float is one (NaN and the infinities are left out). A dict is the list
-- of its entries, of which the first with a key counts.
use beacn.Base.Int.{ℤ, pos, negsuc}
use beacn.Base.Tests.{if◌then◌else◌}
use beacn.Base.Text.{is_empty}
use Prim.Native.Nat.{ℕ, suc}
use Prim.Native.String.{String}
use mathlib.Core.Bool.{Bool, true, false, not}
use mathlib.Core.Option.{Option, none, some}
use text.Mathlib.Text.{◌==◌}

mutual
  pub data Json : Type 0 where
    null : Json
    bool : Bool → Json
    num : ℤ → ℕ → Json
    str : String → Json
    arr : Items → Json
    obj : Fields → Json

  pub data Items : Type 0 where
    nil : Items
    cons : Json → Items → Items

  pub data Fields : Type 0 where
    end : Fields
    field : String → Json → Fields → Fields

-- `d.get(key)`, and `key in d`.
abbrev pub get? : Fields → String → Option Json
get? end key = none
get? (field k v fs) key = if k == key then some v else get? fs key

-- `d.get(key)`, None where the key is missing.
abbrev pub value_or_null : Option Json → Json
value_or_null none = null
value_or_null (some v) = v

abbrev pub get : Fields → String → Json
get fs key = value_or_null (get? fs key)

abbrev is_zero : ℤ → Bool
is_zero (pos ℕ.zero) = true
is_zero (pos (suc n)) = false
is_zero (negsuc n) = false

-- `bool(v)`
abbrev pub is_true : Json → Bool
is_true null = false
is_true (bool b) = b
is_true (num n d) = not (is_zero n)
is_true (str s) = not (is_empty s)
is_true (arr nil) = false
is_true (arr (cons v vs)) = true
is_true (obj end) = false
is_true (obj (field k v fs)) = true

-- `a or b`
abbrev pub or_else : Json → Json → Json
or_else a b = if is_true a then a else b

-- `v if v else None`
abbrev pub if_true : Json → Option Json
if_true v = if is_true v then some v else none

abbrev pub length_items : Items → ℕ
length_items nil = 0
length_items (cons v vs) = suc (length_items vs)

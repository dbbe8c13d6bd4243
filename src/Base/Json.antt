-- ===== src/Base/Json.antt =====
-- JSON values, the `unknown` and `Record<string, unknown>` of the source. A number that is not a
-- natural one is kept by its decimal text, with the two facts that the program tests of it. The
-- fields of an object stand in the order of `Object.entries`. Values are immutable, so
-- `structuredClone` is the value itself.
use Prim.Native.Nat.{ℕ, zero, suc, ◌+◌}
use Prim.Native.String.{String}
use mathlib.Core.Bool.{Bool, true, false}
use mathlib.Core.Path.{◌≡◌, refl}
use mathlib.Core.List.{List, [], ◌∷◌, ◌++◌}
use mathlib.Core.Option.{Option, none, some}
use native.Mathlib.Omega.{arith}
use text.Mathlib.TextEquality.{eq_iff}
use aws_architecture.Base.Tests.{◌===◌, ◌!==◌, ltb, truthy, if◌then◌else◌}
use aws_architecture.Base.Text.{decimal}
use Prim.Native.Char.{code}

mutual
  pub data Json : Type 0 where
    null : Json
    bool : Bool → Json
    num : ℕ → Json
    other_num : (digits : String) (is_finite is_negative : Bool) → Json
    str : String → Json
    arr : Items → Json
    obj : Fields → Json

  pub data Items : Type 0 where
    nil : Items
    cons : Json → Items → Items

  pub data Fields : Type 0 where
    end : Fields
    field : String → Json → Fields → Fields

-- `o[k]`, and `{ ...o, [k]: v }`.
unfoldable pub get_field : String → Fields → Option Json
get_field k end = none
get_field k (field j v fs) = if j === k then some v else get_field k fs

unfoldable pub set_field : String → Json → Fields → Fields
set_field k v end = field k v end
set_field k v (field j w fs) = if j === k then field j v fs else field j w (set_field k v fs)

pub get_field-set_field :
    (k j : String) (v : Json) (fs : Fields)
    → get_field j (set_field k v fs) ≡ (if k === j then some v else get_field j fs)
unfolding get_field set_field
get_field-set_field k j v end = refl
get_field-set_field k j v (field i w fs) =
    ground (arith, eq_iff k j, eq_iff i k, eq_iff i j, get_field-set_field k j v fs)

-- An array of texts.
abbrev pub texts : List String → Items
texts [] = nil
texts (x ∷ xs) = cons (str x) (texts xs)

-- A value in a Boolean position; one that is absent is falsy.
abbrev pub is_truthy : Json → Bool
is_truthy null = false
is_truthy (bool b) = b
is_truthy (num zero) = false
is_truthy (num (suc n)) = true
is_truthy (other_num digits _ _) = digits !== "NaN"
is_truthy (str s) = truthy s
is_truthy (arr xs) = true
is_truthy (obj fs) = true

abbrev pub is_set : Option Json → Bool
is_set none = false
is_set (some v) = is_truthy v

-- `v[k]` for a `k` that no built-in type has, and `v?.[k]` where `v` may be absent.
unfoldable pub member : String → Json → Option Json
unfolding get_field
member k v = elim v [ obj fs ↦ get_field k fs | _ ↦ none ]

unfoldable pub member? : String → Option Json → Option Json
unfolding member
member? k none = none
member? k (some v) = member k v

abbrev pub is_bool : Option Json → Bool
is_bool none = false
is_bool (some v) = elim v [ bool b ↦ true | _ ↦ false ]

index_from : ℕ → Items → List (String × Json)
unfolding decimal
index_from i nil = []
index_from i (cons x xs) = (decimal i, x) ∷ index_from (i + 1) xs

-- The UTF-16 units of a text; only their number and that they are texts matters here.
units : ℕ → String → List (String × Json)
unfolding decimal
units i String.[] = []
units i (String.◌∷◌ c s) =
    let unit = str (String.◌∷◌ c String.[]) in
    (if ltb (code c) 65536
      then (decimal i, unit) ∷ []
      else (decimal i, unit) ∷ (decimal (i + 1), unit) ∷ [])
    ++ units (if ltb (code c) 65536 then i + 1 else i + 2) s

field_list : Fields → List (String × Json)
field_list end = []
field_list (field k v fs) = (k, v) ∷ field_list fs

-- `Object.entries` of a value that is not null or undefined.
unfoldable pub entries : Json → List (String × Json)
unfolding index_from units field_list
entries v = elim v [
  | obj fs ↦ field_list fs
  | arr xs ↦ index_from 0 xs
  | str s ↦ units 0 s
  | _ ↦ []
]

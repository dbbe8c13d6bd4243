-- ===== src/Base/Map.antt =====
-- A JavaScript `Map` with string keys: its entries in insertion order. `set` keeps the place of a
-- key that is there and puts a new key last; iteration goes from the oldest key on.
use Prim.Native.Nat.{◌+◌, ◌≤◌}
use Prim.Native.String.{String}
use mathlib.Core.Path.{◌≡◌, refl}
use mathlib.Core.List.{List, [], ◌∷◌, ◌++◌}
use mathlib.Core.Option.{Option, none, some}
use native.Mathlib.Omega.{arith}
use text.Mathlib.TextEquality.{eq_iff}
use aws_architecture.Base.Tests.{◌===◌, if◌then◌else◌, Bool-cases}
use mathlib.Core.Path.{subst}
use mathlib.Core.Logic.{inl, inr}
use aws_architecture.Base.Lists.{length, All}

module _ {ℓ} {V : Type ℓ} where
  unfoldable pub get : String → List (String × V) → Option V
  get k [] = none
  get k ((j, v) ∷ m) = if j === k then some v else get k m

  unfoldable pub set : String → V → List (String × V) → List (String × V)
  set k v [] = (k, v) ∷ []
  set k v ((j, w) ∷ m) = if j === k then (j, v) ∷ m else (j, w) ∷ set k v m

  unfoldable pub delete : String → List (String × V) → List (String × V)
  delete k [] = []
  delete k ((j, w) ∷ m) = if j === k then delete k m else (j, w) ∷ delete k m

  pub get-set :
      (k j : String) (v : V) (m : List (String × V))
      → get j (set k v m) ≡ (if k === j then some v else get j m)
  unfolding get set
  get-set k j v [] = refl
  get-set k j v ((i, w) ∷ m) = ground (arith, eq_iff k j, eq_iff i k, eq_iff i j, get-set k j v m)

  pub get-set_self : (k : String) (v : V) (m : List (String × V)) → get k (set k v m) ≡ some v
  get-set_self k v m = ground (arith, get-set k k v m, eq_iff k k)

  pub get-delete :
      (k j : String) (m : List (String × V))
      → get j (delete k m) ≡ (if k === j then none else get j m)
  unfolding get delete
  get-delete k j [] = ground (arith, eq_iff k j)
  get-delete k j ((i, w) ∷ m) = ground (arith, eq_iff k j, eq_iff i k, eq_iff i j, get-delete k j m)

  -- An absent key is not deleted, and a new key goes last.
  pub delete_absent : (k : String) (m : List (String × V)) → get k m ≡ none → delete k m ≡ m
  unfolding get delete
  delete_absent k [] h = refl
  delete_absent k ((i, w) ∷ m) h = ground (arith, delete_absent k m)

  pub set_absent :
      (k : String) (v : V) (m : List (String × V)) → get k m ≡ none → set k v m ≡ m ++ (k, v) ∷ []
  unfolding get set
  set_absent k v [] h = refl
  set_absent k v ((i, w) ∷ m) h = ground (arith, set_absent k v m)

  pub length-set-le :
      (k : String) (v : V) (m : List (String × V)) → length (set k v m) ≤ length m + 1
  unfolding set
  length-set-le k v [] = omega arith
  length-set-le k v ((i, w) ∷ m) = ground (arith, length-set-le k v m)

  -- A key that is there keeps the number of entries.
  pub length-set_of_get :
      (k : String) (v w : V) (m : List (String × V))
      → get k m ≡ some w
      → length (set k v m) ≡ length m
  unfolding get set
  length-set_of_get k v w [] h = cc
  length-set_of_get k v w ((i, u) ∷ m) h = ground (arith, length-set_of_get k v w m)

  pub length-delete-le : (k : String) (m : List (String × V)) → length (delete k m) ≤ length m
  unfolding delete
  length-delete-le k [] = omega arith
  length-delete-le k ((i, w) ∷ m) = ground (arith, length-delete-le k m)

  -- No key stands twice.
  abbrev pub HasDistinctKeys : List (String × V) → Type ℓ
  HasDistinctKeys [] = Unit
  HasDistinctKeys ((k, v) ∷ m) = (get k m ≡ none) × HasDistinctKeys m

  pub set-HasDistinctKeys :
      (k : String) (v : V) (m : List (String × V)) → HasDistinctKeys m → HasDistinctKeys (set k v m)
  unfolding get set
  set-HasDistinctKeys k v [] h = (refl, tt)
  set-HasDistinctKeys k v ((i, w) ∷ m) h =
      ground (arith, eq_iff i k, eq_iff k i, get-set k i v m, set-HasDistinctKeys k v m)

  pub delete-HasDistinctKeys :
      (k : String) (m : List (String × V)) → HasDistinctKeys m → HasDistinctKeys (delete k m)
  unfolding get delete
  delete-HasDistinctKeys k [] h = tt
  delete-HasDistinctKeys k ((i, w) ∷ m) h =
      ground (arith, eq_iff i k, eq_iff k i, get-delete k i m, delete-HasDistinctKeys k m)

-- What holds of every value of a map is kept by `set`, and is true of what `get` finds.
module _ {ℓ κ} {V : Type ℓ} (P : V → Type κ) where
  abbrev pub Values : List (String × V) → Type κ
  Values m = All (λ e. P e.1) m

  pub set-Values :
      (k : String) (v : V) (m : List (String × V)) → Values m → P v → Values (set k v m)
  unfolding set
  set-Values k v [] h p = (p, tt)
  set-Values k v ((i, w) ∷ m) (q, h) p = ground (arith, set-Values k v m h p)

  pub get-Values : (k : String) (m : List (String × V)) {v : V} → Values m → get k m ≡ some v → P v
  unfolding get
  get-Values k [] h e = cc
  get-Values k ((i, w) ∷ m) (q, h) e = elim (Bool-cases (i === k)) [
    | inl here ↦ subst P (ground arith) q
    | inr further ↦ get-Values k m h (ground arith)
  ]

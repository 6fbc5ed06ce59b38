-- ===== src/Common/Dict.antt =====
-- A Python `dict` with text keys, and an SQL table with a text primary key: an association list in
-- which the first entry of a key counts. The order of entries is not used by the models.
use Prim.Native.String.{String}
use mathlib.Core.Path.{◌≡◌, refl}
use mathlib.Core.List.{List, [], ◌∷◌}
use mathlib.Core.Option.{Option, none, some}
use native.Mathlib.Omega.{arith}
use text.Mathlib.Text.{◌==◌}
use text.Mathlib.TextEquality.{eq_iff}
use virtiz_ai.Common.Tests.{if◌then◌else◌}

pub record Dict {ℓ} (V : Type ℓ) : Type ℓ where
  pub entries : List (String × V)

module _ {ℓ} {V : Type ℓ} where
  first_value : String → List (String × V) → Option V
  first_value k [] = none
  first_value k ((j, v) ∷ m) = if j == k then some v else first_value k m

  drop_key : String → List (String × V) → List (String × V)
  drop_key k [] = []
  drop_key k ((j, v) ∷ m) = let rest = drop_key k m in if j == k then rest else (j, v) ∷ rest

  unfoldable pub empty : Dict V
  empty = record { entries = [] }

  -- `d.get(k)`, `SELECT * ... WHERE id = k`
  unfoldable pub get : Dict V → String → Option V
  unfolding first_value
  get d k = first_value k d.entries

  -- `d.pop(k, None)`
  unfoldable pub remove : Dict V → String → Dict V
  unfolding drop_key
  remove d k = record { entries = drop_key k d.entries }

  -- `d[k] = v`, and INSERT or UPDATE of the row with this primary key
  unfoldable pub put : Dict V → String → V → Dict V
  put d k v = record { entries = (k, v) ∷ d.entries }

  first_value-drop_key :
      (k j : String) (m : List (String × V))
      → first_value j (drop_key k m) ≡ (if k == j then none else first_value j m)
  unfolding first_value drop_key
  first_value-drop_key k j [] = ground arith
  first_value-drop_key k j ((i, v) ∷ m) =
      ground (arith, first_value-drop_key k j m, eq_iff i k, eq_iff i j, eq_iff k j)

  -- what the other operations do, as `get` sees it
  pub get-put :
      (d : Dict V) (k j : String) (v : V) → get (put d k v) j ≡ (if k == j then some v else get d j)
  unfolding get put
  get-put d k j v = refl

  pub get-remove :
      (d : Dict V) (k j : String) → get (remove d k) j ≡ (if k == j then none else get d j)
  unfolding get remove
  get-remove d = λ k j. first_value-drop_key k j d.entries

pub get-empty {ℓ} : {V : Type ℓ} (k : String) → get (empty {V = V}) k ≡ none
unfolding get empty
get-empty k = refl

pub ruleset dict_laws = (get-put, get-remove, get-empty)

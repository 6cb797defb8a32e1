-- ===== src/Prelude/Maps.antt =====
-- `BTreeMap<String, V>`: an association list whose keys rise.

use mathlib.Core.Path.{◌≡◌, refl}
use mathlib.Core.Bool.{Bool, true, false}
use mathlib.Core.List.{List, [], ◌∷◌}
use mathlib.Core.Option.{Option, none, some}
use native.Mathlib.Omega.{arith}
use rclone_vfsmount_tray.Prelude.Tests.{ltb, ◌==◌, if◌then◌else◌, is_some}
use rclone_vfsmount_tray.Prelude.Texts.{Text, text_eq, text_eq_iff}

-- The order of `str`: by code point, which for UTF-8 is the order of the bytes.
unfoldable pub text_lt : Text → Text → Bool
text_lt [] [] = false
text_lt [] (d ∷ t) = true
text_lt (c ∷ s) [] = false
text_lt (c ∷ s) (d ∷ t) = if c == d then text_lt s t else ltb c d

abbrev pub Map {ℓ} : Type ℓ → Type ℓ
Map V = List (Text × V)

module _ {ℓ} {V : Type ℓ} where
  unfoldable pub get : Map V → Text → Option V
  get [] k = none
  get ((j, v) ∷ m) k = if text_eq j k then some v else get m k

  unfoldable pub insert : Map V → Text → V → Map V
  insert [] k v = (k, v) ∷ []
  insert ((j, w) ∷ m) k v =
      if text_eq j k
      then (k, v) ∷ m
      else if text_lt k j
      then (k, v) ∷ (j, w) ∷ m
      else (j, w) ∷ insert m k v

  -- A key that is there more than once is dropped wherever it is.
  unfoldable pub remove : Map V → Text → Map V
  remove [] k = []
  remove ((j, v) ∷ m) k = if text_eq j k then remove m k else (j, v) ∷ remove m k

  unfoldable pub contains_key : Map V → Text → Bool
  unfolding get
  contains_key m k = is_some (get m k)

  unfoldable pub values : Map V → List V
  values [] = []
  values ((k, v) ∷ m) = v ∷ values m

  unfoldable pub keys : Map V → List Text
  keys [] = []
  keys ((k, v) ∷ m) = k ∷ keys m

  pub get-insert :
      (m : Map V) (k : Text) (v : V) (j : Text)
      → get (insert m k v) j ≡ (if text_eq k j then some v else get m j)
  unfolding get insert
  get-insert [] k v j = refl
  get-insert ((i, w) ∷ m) k v j =
      ground (arith, text_eq_iff k j, text_eq_iff i k, text_eq_iff i j, get-insert m k v j)

  pub get-remove :
      (m : Map V) (k j : Text) → get (remove m k) j ≡ (if text_eq k j then none else get m j)
  unfolding get remove
  get-remove [] k j = ground arith
  get-remove ((i, w) ∷ m) k j =
      ground (arith, text_eq_iff k j, text_eq_iff i k, text_eq_iff i j, get-remove m k j)

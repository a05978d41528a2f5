-- ===== src/Prelude/Maps.antt =====
-- Go maps with string keys as association lists. The program never relies on the order in which a
-- map is iterated.
use Prim.Native.String.{String}
use mathlib.Core.Path.{◌≡◌, refl}
use mathlib.Core.Bool.{Bool, true, false}
use mathlib.Core.Option.{Option, none, some}
use mathlib.Core.List.{List, [], ◌∷◌}
use native.Mathlib.Omega.{arith}
use text.Mathlib.Text.{◌==◌ as str_eq}
use text.Mathlib.TextEquality.{eq_iff}
use nano_llm_proxy.Prelude.Tests.{if◌then◌else◌, Bool-cases}
use mathlib.Core.Logic.{◌≢◌, inl, inr}

pub ne_of_str_eq : (a b : String) → str_eq a b ≡ false → a ≢ b
ne_of_str_eq a b h e = let t : str_eq a b ≡ true = (eq_iff a b).1 e in cc

abbrev pub Map {ℓ} : Type ℓ → Type ℓ
Map V = List (String × V)

module _ {ℓ} {V : Type ℓ} where
  -- m[k], with whether the key is there
  unfoldable pub lookup : String → Map V → Option V
  lookup k [] = none
  lookup k ((j, v) ∷ m) = if str_eq j k then some v else lookup k m

  -- delete(m, k)
  unfoldable pub delete : String → Map V → Map V
  delete k [] = []
  delete k ((j, v) ∷ m) = let rest = delete k m in if str_eq j k then rest else (j, v) ∷ rest

  -- m[k] = v
  unfoldable pub insert : String → V → Map V → Map V
  unfolding delete
  insert k v m = (k, v) ∷ delete k m

  -- for k, v := range m { if !p(v) { delete(m, k) } }
  unfoldable pub retain : (V → Bool) → Map V → Map V
  unfolding delete
  retain p [] = []
  retain p ((j, v) ∷ m) = let rest = retain p m in if p v then (j, v) ∷ rest else delete j rest

pub lookup-nil {ℓ} : {V : Type ℓ} (k : String) → lookup {V = V} k [] ≡ none
unfolding lookup
lookup-nil k = refl

module _ {ℓ} {V : Type ℓ} where
  pub lookup-delete :
      (k j : String) (m : Map V) → lookup j (delete k m) ≡ (if str_eq k j then none else lookup j m)
  unfolding lookup delete
  lookup-delete k j [] = ground arith
  lookup-delete k j ((i, v) ∷ m) =
      ground (arith, lookup-delete k j m, eq_iff i k, eq_iff i j, eq_iff k j)

  pub lookup-insert :
      (k j : String) (v : V) (m : Map V)
      → lookup j (insert k v m) ≡ (if str_eq k j then some v else lookup j m)
  unfolding lookup insert
  lookup-insert k j v m = ground (arith, lookup-delete k j m)

  abbrev pub filtered : (V → Bool) → Option V → Option V
  filtered p none = none
  filtered p (some v) = if p v then some v else none

  filtered_kept :
      (p : V → Bool) (v : V) (b : Bool) (r m : Option V)
      → p v ≡ true
      → r ≡ filtered p m
      → (if b then some v else r) ≡ filtered p (if b then some v else m)
  filtered_kept p v true r m h e = rw h
  filtered_kept p v false r m h e = e

  filtered_gone :
      (p : V → Bool) (v : V) (b : Bool) (r m : Option V)
      → p v ≡ false
      → r ≡ filtered p m
      → (if b then none else r) ≡ filtered p (if b then some v else m)
  filtered_gone p v true r m h e = rw h
  filtered_gone p v false r m h e = e

  -- A key is found after `retain` exactly if its value passes.
  pub lookup-retain :
      (p : V → Bool) (j : String) (m : Map V) → lookup j (retain p m) ≡ filtered p (lookup j m)
  unfolding lookup retain
  lookup-retain p j [] = refl
  lookup-retain p j ((i, v) ∷ m) = elim (Bool-cases (p v)) [
    | inl kept ↦ rw kept (filtered_kept p v (str_eq i j) _ _ kept (lookup-retain p j m))
    | inr gone ↦
        rw (gone, lookup-delete i j (retain p m))
          (filtered_gone p v (str_eq i j) _ _ gone (lookup-retain p j m))
  ]

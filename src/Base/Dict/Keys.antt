-- ===== src/Base/Dict/Keys.antt =====
-- The keys of a map, and lists of keys, as far as a `range` over a map keeps account of them.
use algorand_state_channels.Base.Tests.{◌==◌, Comparable, if◌then◌else◌, Bool-cases}
use algorand_state_channels.Base.Lists.{length, All}
use algorand_state_channels.Base.Dict.{Dict, lookup, insert, erase, lookup-insert, lookup-erase}
use Prim.Native.Nat.{◌≤◌, ◌<◌}
use mathlib.Core.Path.{◌≡◌, refl, ap}
use mathlib.Core.Logic.{inl, inr}
use mathlib.Core.Bool.{Bool, true, false, not, ◌&&◌, ◌||◌}
use mathlib.Core.Option.{none, some}
use mathlib.Core.List.{List, [], ◌∷◌, ◌++◌}
use native.Mathlib.Omega.{arith}

module _ {ℓ} {K : Type ℓ} ⦃c : Comparable K⦄ where
  unfoldable pub contains : K → List K → Bool
  contains k [] = false
  contains k (j ∷ js) = (j == k) || contains k js

  -- The list less every occurrence of a key.
  unfoldable pub without : K → List K → List K
  without k [] = []
  without k (j ∷ js) = let rest = without k js in if j == k then rest else j ∷ rest

  pub contains-without :
      (k j : K) (js : List K) → contains k (without j js) ≡ (not (j == k) && contains k js)
  unfolding contains without
  contains-without k j [] = ground arith
  contains-without k j (i ∷ js) =
      ground (arith, contains-without k j js, c.same_iff i j, c.same_iff i k, c.same_iff j k)

  pub contains-append :
      (k : K) (is js : List K) → contains k (is ++ js) ≡ (contains k is || contains k js)
  unfolding contains
  contains-append k [] js = refl
  contains-append k (i ∷ is) js = ground (arith, contains-append k is js)

  pub length-without_le : (k : K) (js : List K) → length (without k js) ≤ length js
  unfolding without
  length-without_le k [] = omega arith
  length-without_le k (j ∷ js) = ground (arith, length-without_le k js)

  pub length-without_lt :
      (k : K) (js : List K) → contains k js ≡ true → length (without k js) < length js
  unfolding contains without
  length-without_lt k [] e = ground arith
  length-without_lt k (j ∷ js) e = ground (arith, length-without_le k js, length-without_lt k js)

  pub without-missing : (k : K) (js : List K) → contains k js ≡ false → without k js ≡ js
  unfolding contains without
  without-missing k [] e = refl
  without-missing k (j ∷ js) e = ground (arith, without-missing k js)

module _ {ℓ κ} {K : Type ℓ} {V : Type κ} ⦃c : Comparable K⦄ where
  unfoldable pub keys : Dict K V → List K
  keys [] = []
  keys ((k, v) ∷ d) = k ∷ keys d

  abbrev pub is_key : K → Dict K V → Bool
  is_key k d = elim (lookup k d) [ none ↦ false | some v ↦ true ]

  -- The keys of the list that the map has.
  unfoldable pub present : Dict K V → List K → List K
  present d [] = []
  present d (k ∷ ks) = let rest = present d ks in if is_key k d then k ∷ rest else rest

  -- The keys of the list that the map does not have.
  unfoldable pub absent : Dict K V → List K → List K
  absent d [] = []
  absent d (k ∷ ks) = let rest = absent d ks in if is_key k d then rest else k ∷ rest

  pub length-keys : (d : Dict K V) → length (keys d) ≡ length d
  unfolding keys
  length-keys [] = refl
  length-keys ((k, v) ∷ d) = omega (arith, length-keys d)

  pub contains-keys : (k : K) (d : Dict K V) → contains k (keys d) ≡ is_key k d
  unfolding contains keys lookup
  contains-keys k [] = refl
  contains-keys k ((j, v) ∷ d) = ground (arith, contains-keys k d)

  pub contains-present :
      (k : K) (d : Dict K V) (ks : List K)
      → contains k (present d ks) ≡ (is_key k d && contains k ks)
  unfolding contains present
  contains-present k d [] = ground arith
  contains-present k d (j ∷ ks) = elim (Bool-cases (j == k)) [
    | inl same ↦
        let p = (c.same_iff j k).0 same in
        ground (arith, contains-present k d ks, ap (λ x. lookup x d) p)
    | inr other ↦ ground (arith, contains-present k d ks)
  ]

  pub contains-absent :
      (k : K) (d : Dict K V) (ks : List K)
      → contains k (absent d ks) ≡ (not (is_key k d) && contains k ks)
  unfolding contains absent
  contains-absent k d [] = ground arith
  contains-absent k d (j ∷ ks) = elim (Bool-cases (j == k)) [
    | inl same ↦
        let p = (c.same_iff j k).0 same in
        ground (arith, contains-absent k d ks, ap (λ x. lookup x d) p)
    | inr other ↦ ground (arith, contains-absent k d ks)
  ]

  pub length-present_le : (d : Dict K V) (ks : List K) → length (present d ks) ≤ length ks
  unfolding present
  length-present_le d [] = omega arith
  length-present_le d (k ∷ ks) = ground (arith, length-present_le d ks)

  pub present-all :
      (d : Dict K V) (ks : List K) → All (λ k. is_key k d ≡ true) ks → present d ks ≡ ks
  unfolding present
  present-all d [] h = refl
  present-all d (k ∷ ks) (known, rest) = ground (arith, present-all d ks rest)

  -- No two entries have one key.
  abbrev pub HasDistinct : Dict K V → Type 0
  HasDistinct [] = Unit
  HasDistinct ((k, v) ∷ d) = (is_key k d ≡ false) × HasDistinct d

  -- The entries of a map are found.
  abbrev pub AllFound : Dict K V → Dict K V → Type κ
  AllFound d whole = All (λ e. lookup e.0 whole ≡ some e.1) d

  pub insert-HasDistinct :
      (k : K) (v : V) (d : Dict K V) → HasDistinct d → HasDistinct (insert k v d)
  unfolding insert lookup
  insert-HasDistinct k v [] h = (refl, tt)
  insert-HasDistinct k v ((j, w) ∷ d) (absent, h) = elim (Bool-cases (j == k)) [
    | inl same ↦ ground (arith, h)
    | inr other ↦
        ground
          (arith, lookup-insert k j v d, c.same_iff j k, c.same_iff k j, insert-HasDistinct k v d h)
  ]

  pub erase-HasDistinct : (k : K) (d : Dict K V) → HasDistinct d → HasDistinct (erase k d)
  unfolding erase lookup
  erase-HasDistinct k [] h = tt
  erase-HasDistinct k ((j, w) ∷ d) (absent, h) =
      ground (arith, lookup-erase k j d, erase-HasDistinct k d h)

-- ===== src/Common/Maps.antt =====
-- std::unordered_map with text keys, as an association list. The order of the list is the order
-- of an iteration, which the container leaves open; no lemma fixes it.
use Prim.Native.String.{String}
use mathlib.Core.Bool.{true}
use mathlib.Core.Path.{◌≡◌, refl, subst}
use mathlib.Core.Logic.{inl, inr}
use mathlib.Core.Option.{Option, none, some}
use mathlib.Core.List.{List, [], ◌∷◌, map}
use native.Mathlib.Omega.{arith}
use fledge_south_tase.Common.Tests.{Bool-cases, if◌then◌else◌}
use fledge_south_tase.Common.Lists.{All}
use fledge_south_tase.Common.Texts.{◌==◌, eq_iff}

module _ {ℓ} {V : Type ℓ} where
  -- find, with `none` for end ()
  unfoldable pub lookup : String → List (String × V) → Option V
  lookup key [] = none
  lookup key ((other, value) ∷ entries) = if other == key then some value else lookup key entries

  -- entries[key] = value
  unfoldable pub assign : String → V → List (String × V) → List (String × V)
  assign key value [] = (key, value) ∷ []
  assign key value ((other, old) ∷ entries) =
      if other == key then (key, value) ∷ entries else (other, old) ∷ assign key value entries

  -- insert, which keeps the entry that is there
  unfoldable pub insert : String → V → List (String × V) → List (String × V)
  insert key value [] = (key, value) ∷ []
  insert key value ((other, old) ∷ entries) =
      (other, old) ∷ (if other == key then entries else insert key value entries)

  unfoldable pub erase : String → List (String × V) → List (String × V)
  erase key [] = []
  erase key ((other, old) ∷ entries) =
      let rest = erase key entries in if other == key then rest else (other, old) ∷ rest

  abbrev pub keys : List (String × V) → List String
  keys = map (λ e. e.0)

  pub lookup-assign :
      (key other : String) (value : V) (entries : List (String × V))
      → lookup other (assign key value entries)
        ≡ (if key == other then some value else lookup other entries)
  unfolding lookup assign
  lookup-assign key other value [] = refl
  lookup-assign key other value ((first_key, old) ∷ entries) = ground (
    arith,
    eq_iff key other,
    eq_iff first_key key,
    eq_iff first_key other,
    lookup-assign key other value entries,
  )

  pub lookup-erase :
      (key other : String) (entries : List (String × V))
      → lookup other (erase key entries) ≡ (if key == other then none else lookup other entries)
  unfolding lookup erase
  lookup-erase key other [] = ground arith
  lookup-erase key other ((first_key, old) ∷ entries) = ground (
    arith,
    eq_iff key other,
    eq_iff first_key key,
    eq_iff first_key other,
    lookup-erase key other entries,
  )

  pub lookup-insert :
      (key other : String) (value : V) (entries : List (String × V))
      → lookup other (insert key value entries) ≡ (elim (lookup other entries) [
        | some old ↦ some old
        | none ↦ if key == other then some value else none
      ])
  unfolding lookup insert
  lookup-insert key other value [] = refl
  lookup-insert key other value ((first_key, old) ∷ entries) = ground (
    arith,
    eq_iff key other,
    eq_iff first_key key,
    eq_iff first_key other,
    lookup-insert key other value entries,
  )

  -- What holds of every entry holds of what is found.
  pub All-lookup {κ} :
      (P : String → V → Type κ) (key : String) (entries : List (String × V)) {value : V}
      → All (λ e. P e.0 e.1) entries
      → lookup key entries ≡ some value
      → P key value
  unfolding lookup
  All-lookup P key [] h e = cc
  All-lookup P key ((other, old) ∷ entries) {value} (p, h) e = elim (Bool-cases (other == key)) [
    | inl hit ↦ subst (λ x. P x value) ((eq_iff other key).0 hit) (subst (P other) (first hit) p)
    | inr miss ↦ All-lookup P key entries h (ground arith)
  ]
    where
      first : (other == key) ≡ true → old ≡ value
      first hit = ground arith

  pub All-assign {κ} :
      (P : String → V → Type κ) (key : String) (value : V) (entries : List (String × V))
      → All (λ e. P e.0 e.1) entries
      → P key value
      → All (λ e. P e.0 e.1) (assign key value entries)
  unfolding assign
  All-assign P key value [] h p = (p, tt)
  All-assign P key value ((other, old) ∷ entries) (q, h) p =
      ground (arith, All-assign P key value entries h p)

  pub All-erase {κ} :
      (P : String × V → Type κ) (key : String) (entries : List (String × V))
      → All P entries
      → All P (erase key entries)
  unfolding erase
  All-erase P key [] h = tt
  All-erase P key ((other, old) ∷ entries) (q, h) = ground (arith, All-erase P key entries h)

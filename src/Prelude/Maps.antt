-- ===== src/Prelude/Maps.antt =====
-- A Go map with string keys as an association list, and a set of numbers as its test.
-- `lookup` is `m[k]` with its `ok`, `insert` is `m[k] = v`, `erase` is `delete(m, k)`.
use Prim.Native.Nat.{ℕ}
use Prim.Native.String.{String}
use mathlib.Core.Path.{◌≡◌, refl}
use mathlib.Core.Bool.{Bool, true, false}
use mathlib.Core.Option.{Option, none, some}
use mathlib.Core.List.{List, [], ◌∷◌}
use native.Mathlib.Omega.{arith}
use text.Mathlib.Text.{◌==◌ as str_eq}
use text.Mathlib.TextEquality.{eq_iff}
use micro_hosted.Prelude.Tests.{◌==◌, if◌then◌else◌}

abbrev pub Dict {ℓ} : Type ℓ → Type ℓ
Dict V = List (String × V)

module _ {ℓ} {V : Type ℓ} where
  unfoldable pub lookup : String → Dict V → Option V
  lookup key [] = none
  lookup key (entry ∷ rest) = if str_eq entry.0 key then some entry.1 else lookup key rest

  -- An entry with the key is replaced where it stands; a new one comes last.
  unfoldable pub insert : String → V → Dict V → Dict V
  insert key value [] = (key, value) ∷ []
  insert key value (entry ∷ rest) =
      if str_eq entry.0 key then (key, value) ∷ rest else entry ∷ insert key value rest

  unfoldable pub erase : String → Dict V → Dict V
  erase key [] = []
  erase key (entry ∷ rest) =
      let others = erase key rest in if str_eq entry.0 key then others else entry ∷ others

  pub lookup-erase :
      (gone key : String) (d : Dict V)
      → lookup key (erase gone d) ≡ (if str_eq gone key then none else lookup key d)
  unfolding lookup erase
  lookup-erase gone key [] = ground arith
  lookup-erase gone key (entry ∷ rest) =
      let ih = lookup-erase gone key rest in
      ground (arith, ih, eq_iff entry.0 gone, eq_iff entry.0 key, eq_iff gone key)

  pub lookup-insert :
      (new key : String) (value : V) (d : Dict V)
      → lookup key (insert new value d) ≡ (if str_eq new key then some value else lookup key d)
  unfolding lookup insert
  lookup-insert new key value [] = refl
  lookup-insert new key value (entry ∷ rest) =
      let ih = lookup-insert new key value rest in
      ground (arith, ih, eq_iff entry.0 new, eq_iff entry.0 key, eq_iff new key)

module _ {ℓ} {V : Type ℓ} where
  -- No key stands twice.
  abbrev pub Unique : Dict V → Type ℓ
  Unique [] = Unit
  Unique ((k, v) ∷ m) = (lookup k m ≡ none) × Unique m

  pub insert-Unique : (k : String) (v : V) (m : Dict V) → Unique m → Unique (insert k v m)
  unfolding lookup insert
  insert-Unique k v [] u = (refl, tt)
  insert-Unique k v ((i, w) ∷ m) u =
      ground (arith, eq_iff i k, eq_iff k i, lookup-insert k i v m, insert-Unique k v m)

  pub erase-Unique : (k : String) (m : Dict V) → Unique m → Unique (erase k m)
  unfolding lookup erase
  erase-Unique k [] u = tt
  erase-Unique k ((i, w) ∷ m) u = ground (arith, lookup-erase k i m, eq_iff k i, erase-Unique k m)

pub ruleset map_laws = (lookup-insert, lookup-erase)

-- A `map[uint32]bool`, read as the set of the keys that it holds with `true`.
abbrev pub NatSet : Type 0
NatSet = ℕ → Bool

abbrev pub with_elem : ℕ → NatSet → NatSet
with_elem a s x = if a == x then true else s x

abbrev pub without_elem : ℕ → NatSet → NatSet
without_elem a s x = if a == x then false else s x

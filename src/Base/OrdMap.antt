-- ===== src/Base/OrdMap.antt =====
-- `std::map` as a list of its entries in ascending order of the keys. `rank` puts the keys, which
-- are bit patterns, in the order of the key type.
use Prim.Native.Nat.{ℕ}
use mathlib.Core.Path.{◌≡◌, refl}
use mathlib.Core.List.{List, [], ◌∷◌}
use mathlib.Core.Option.{Option, none, some}
use native.Mathlib.Omega.{arith}
use real_time_monitor_agent.Base.Tests.{ltb, ◌==◌, if◌then◌else◌}
use real_time_monitor_agent.Base.Lists.{length}
use Prim.Native.Nat.{◌≤◌}

module _ {ℓ} {V : Type ℓ} where
  -- `find`.
  unfoldable pub lookup : ℕ → List (ℕ × V) → Option V
  lookup k [] = none
  lookup k ((j, v) ∷ m) = if j == k then some v else lookup k m

  -- `insert`, which leaves an entry that is there.
  unfoldable pub insert : (ℕ → ℕ) → ℕ → V → List (ℕ × V) → List (ℕ × V)
  insert rank k v [] = (k, v) ∷ []
  insert rank k v ((j, w) ∷ m) =
      let later = (j, w) ∷ insert rank k v m in
      if j == k then (j, w) ∷ m else if ltb (rank k) (rank j) then (k, v) ∷ ((j, w) ∷ m) else later

  unfoldable pub erase : ℕ → List (ℕ × V) → List (ℕ × V)
  erase k [] = []
  erase k ((j, v) ∷ m) = let kept = (j, v) ∷ erase k m in if j == k then m else kept

  -- The iterator that `erase` returns: the entries behind the erased one.
  unfoldable pub behind : ℕ → List (ℕ × V) → List (ℕ × V)
  behind k [] = []
  behind k ((j, v) ∷ m) = if j == k then m else behind k m

  -- A new key is added and the others keep their values.
  pub lookup-insert :
      (rank : ℕ → ℕ) (k j : ℕ) (v : V) (m : List (ℕ × V))
      → lookup k m ≡ none
      → lookup j (insert rank k v m) ≡ (if k == j then some v else lookup j m)
  unfolding lookup insert
  lookup-insert rank k j v [] h = refl
  lookup-insert rank k j v ((i, w) ∷ m) h = ground (arith, lookup-insert rank k j v m)

  -- Keys in a map are distinct.
  abbrev pub Absent : ℕ → List (ℕ × V) → Type ℓ
  Absent k m = lookup k m ≡ none

  abbrev pub IsMap : List (ℕ × V) → Type ℓ
  IsMap [] = Unit {ℓ}
  IsMap ((k, v) ∷ m) = Absent k m × IsMap m

  pub lookup-erase :
      (k j : ℕ) (m : List (ℕ × V))
      → IsMap m
      → lookup j (erase k m) ≡ (if k == j then none else lookup j m)
  unfolding lookup erase
  lookup-erase k j [] h = ground arith
  lookup-erase k j ((i, w) ∷ m) (h, hs) = ground (arith, lookup-erase k j m hs)

  pub insert-IsMap :
      (rank : ℕ → ℕ) (k : ℕ) (v : V) (m : List (ℕ × V))
      → lookup k m ≡ none
      → IsMap m
      → IsMap (insert rank k v m)
  unfolding lookup insert
  insert-IsMap rank k v [] h hs = (refl, tt)
  insert-IsMap rank k v ((i, w) ∷ m) h (hi, hs) =
      ground (arith, insert-IsMap rank k v m, lookup-insert rank k i v m)

  pub erase-IsMap : (k : ℕ) (m : List (ℕ × V)) → IsMap m → IsMap (erase k m)
  unfolding lookup erase
  erase-IsMap k [] h = tt
  erase-IsMap k ((i, w) ∷ m) (hi, hs) = ground (arith, erase-IsMap k m hs, lookup-erase k i m hs)

  pub length-erase : (k : ℕ) (m : List (ℕ × V)) → length (erase k m) ≤ length m
  unfolding erase
  length-erase k [] = omega arith
  length-erase k ((i, w) ∷ m) = ground (arith, length-erase k m)

-- ===== src/Prelude/Counts.antt =====
-- How often a key stands in a table.
use Prim.Native.Nat.{ℕ, ◌+◌, ◌≤◌}
use mathlib.Core.Path.{◌≡◌, refl}
use mathlib.Core.Option.{none, some}
use mathlib.Core.List.{List, [], ◌∷◌, ◌++◌}
use native.Mathlib.Omega.{arith}
use tudou.Prelude.Tests.{◌==◌, if◌then◌else◌}
use tudou.Prelude.Maps.{lookup, insert, erase, number_eq}
use tudou.Prelude.Lists.{length}

module _ {ℓ} {A : Type ℓ} where
  unfoldable pub count_key : ℕ → List (ℕ × A) → ℕ
  count_key k [] = 0
  count_key k ((j, v) ∷ m) = (if j == k then 1 else 0) + count_key k m

  pub count_key-append :
      (k : ℕ) (m m' : List (ℕ × A)) → count_key k (m ++ m') ≡ count_key k m + count_key k m'
  unfolding count_key
  count_key-append k [] m' = omega arith
  count_key-append k ((j, v) ∷ m) m' = omega (arith, count_key-append k m m')

  pub count_key-erase :
      (k j : ℕ) (m : List (ℕ × A)) → count_key j (erase k m) ≡ (if k == j then 0 else count_key j m)
  unfolding count_key erase
  count_key-erase k j [] = ground arith
  count_key-erase k j ((i, v) ∷ m) = ground (arith, count_key-erase k j m)

  pub count_key-insert :
      (k j : ℕ) (v : A) (m : List (ℕ × A))
      → count_key k m ≡ 0
      → count_key j (insert k v m) ≡ (if k == j then 1 else count_key j m)
  unfolding count_key insert
  count_key-insert k j v [] h = ground arith
  count_key-insert k j v ((i, w) ∷ m) h = ground (arith, count_key-insert k j v m)

  pub count_key-lookup :
      (k : ℕ) (v : A) (m : List (ℕ × A)) → lookup k m ≡ some v → 1 ≤ count_key k m
  unfolding count_key lookup
  count_key-lookup k v [] h = ground arith
  count_key-lookup k v ((i, w) ∷ m) h = ground (arith, count_key-lookup k v m)

  pub count_key_one : (k j : ℕ) (v : A) → count_key k ((j, v) ∷ []) ≡ (if j == k then 1 else 0)
  unfolding count_key
  count_key_one k j v = omega arith

  pub length-erase : (k : ℕ) (m : List (ℕ × A)) → length (erase k m) + count_key k m ≡ length m
  unfolding count_key erase
  length-erase k [] = omega arith
  length-erase k ((j, v) ∷ m) = ground (arith, length-erase k m)

  pub length-insert :
      (k : ℕ) (v : A) (m : List (ℕ × A)) → count_key k m ≡ 0 → length (insert k v m) ≡ length m + 1
  unfolding count_key insert
  length-insert k v [] h = omega arith
  length-insert k v ((j, w) ∷ m) h = ground (arith, length-insert k v m)

  pub count_key-none : (k : ℕ) (m : List (ℕ × A)) → lookup k m ≡ none → count_key k m ≡ 0
  unfolding count_key lookup
  count_key-none k [] h = refl
  count_key-none k ((j, v) ∷ m) h = ground (arith, count_key-none k m)

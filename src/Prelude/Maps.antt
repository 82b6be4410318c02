-- ===== src/Prelude/Maps.antt =====
-- `std::map` and `std::unordered_map` as association lists, over an equality test of the keys.
use Prim.Native.Nat.{ℕ}
use mathlib.Core.Path.{◌≡◌, refl, ap, ◌∙◌}
use mathlib.Core.Logic.{◌↔◌}
use mathlib.Core.Bool.{Bool, true, ◌&&◌}
use mathlib.Core.Option.{Option, none, some}
use mathlib.Core.List.{List, [], ◌∷◌}
use native.Mathlib.Omega.{arith}
use tudou.Prelude.Tests.{◌==◌, ==_iff, if◌then◌else◌}
use tudou.Prelude.Strings.{Text, text_eq, text_eq_iff}

pub record Eq {ℓ} (K : Type ℓ) : Type ℓ where
  pub beq : K → K → Bool
  pub beq_iff : (a b : K) → (beq a b ≡ true) ↔ (a ≡ b)

instance abbrev pub number_eq : Eq ℕ
number_eq = record { beq = ◌==◌; beq_iff = ==_iff }

instance abbrev pub text_key : Eq Text
text_key = record { beq = text_eq; beq_iff = text_eq_iff }

pub beq_refl {ℓ} : {K : Type ℓ} ⦃e : Eq K⦄ (k : K) → e.beq k k ≡ true
beq_refl ⦃e⦄ k = (e.beq_iff k k).1 refl

module _ {ℓ κ} {K : Type ℓ} {V : Type κ} ⦃e : Eq K⦄ where
  unfoldable pub lookup : K → List (K × V) → Option V
  lookup k [] = none
  lookup k ((j, v) ∷ m) = if e.beq j k then some v else lookup k m

  unfoldable pub insert : K → V → List (K × V) → List (K × V)
  insert k v [] = (k, v) ∷ []
  insert k v ((j, w) ∷ m) = if e.beq j k then (k, v) ∷ m else (j, w) ∷ insert k v m

  unfoldable pub erase : K → List (K × V) → List (K × V)
  erase k [] = []
  erase k ((j, w) ∷ m) = if e.beq j k then erase k m else (j, w) ∷ erase k m

  pub lookup-insert :
      (k j : K) (v : V) (m : List (K × V))
      → lookup j (insert k v m) ≡ (if e.beq k j then some v else lookup j m)
  unfolding lookup insert
  lookup-insert k j v [] = refl
  lookup-insert k j v ((i, w) ∷ m) =
      ground (arith, e.beq_iff k j, e.beq_iff i k, e.beq_iff i j, lookup-insert k j v m)

  pub lookup-erase :
      (k j : K) (m : List (K × V)) → lookup j (erase k m) ≡ (if e.beq k j then none else lookup j m)
  unfolding lookup erase
  lookup-erase k j [] = ground arith
  lookup-erase k j ((i, w) ∷ m) =
      ground (arith, e.beq_iff k j, e.beq_iff i k, e.beq_iff i j, lookup-erase k j m)

  pub insert-insert :
      (k : K) (v w : V) (m : List (K × V)) → insert k w (insert k v m) ≡ insert k w m
  unfolding insert
  insert-insert k v w [] = rw (beq_refl k) refl
  insert-insert k v w ((j, u) ∷ m) = ground (arith, beq_refl k, insert-insert k v w m)

  pub erase-insert : (k : K) (v : V) (m : List (K × V)) → erase k (insert k v m) ≡ erase k m
  unfolding erase insert
  erase-insert k v [] = rw (beq_refl k) refl
  erase-insert k v ((j, u) ∷ m) = ground (arith, beq_refl k, erase-insert k v m)

  pub erase-erase : (k : K) (m : List (K × V)) → erase k (erase k m) ≡ erase k m
  unfolding erase
  erase-erase k [] = refl
  erase-erase k ((j, u) ∷ m) = ground (arith, erase-erase k m)

  pub lookup_inserted : (k : K) (v : V) (m : List (K × V)) → lookup k (insert k v m) ≡ some v
  lookup_inserted k v m =
      lookup-insert k k v m ∙ ap (λ b. if b then some v else lookup k m) (beq_refl k)

  pub lookup_erased : (k : K) (m : List (K × V)) → lookup k (erase k m) ≡ none
  lookup_erased k m = lookup-erase k k m ∙ ap (λ b. if b then none else lookup k m) (beq_refl k)

pub pair_eq_iff : (a b : Text × Text) → ((text_eq a.0 b.0 && text_eq a.1 b.1) ≡ true) ↔ (a ≡ b)
pair_eq_iff (a, a') (b, b') = (
  λ h i. ((text_eq_iff a b).0 (ground (arith, h)) i, (text_eq_iff a' b').0 (ground (arith, h)) i),
  λ e. rw ((text_eq_iff a b).1 (ap (λ p. p.0) e), (text_eq_iff a' b').1 (ap (λ p. p.1) e)) refl,
)

instance abbrev pub pair_key : Eq (Text × Text)
pair_key = record { beq = λ a b. text_eq a.0 b.0 && text_eq a.1 b.1; beq_iff = pair_eq_iff }

-- ===== src/Http/Router/Allow.antt =====
-- src/tudou/http/HttpRouter.cpp: the methods of the Allow header.
use tudou.Prelude.{
  ◌≡◌, refl, ap, ◌∙◌, inl, inr, Bool, true, false, ◌||◌, List, [], ◌∷◌, arith, Bool-cases, Text,
  text_eq,
}
use Prim.{Unit, tt}
use tudou.Http.Router.{has, insert_sorted, sort, text_lt}
use tudou.Http.Router.Refine.{Registration, build, last_route, methods_at_iff, is_some_handler}
use tudou.Http.Router.{methods_at}

abbrev IsBelow : Text → List Text → Type 0
IsBelow x [] = Unit
IsBelow x (y ∷ ys) = text_lt y x ≡ false

abbrev IsSorted : List Text → Type 0
IsSorted [] = Unit
IsSorted (x ∷ xs) = IsBelow x xs × IsSorted xs

text_lt_asym : (s t : Text) → text_lt s t ≡ true → text_lt t s ≡ false
unfolding text_lt
text_lt_asym s [] h = absurd (ground (arith, h))
text_lt_asym [] (y ∷ ys) h = refl
text_lt_asym (x ∷ xs) (y ∷ ys) h = ground (arith, h, text_lt_asym xs ys)

insert_sorted-IsSorted : (m : Text) (xs : List Text) → IsSorted xs → IsSorted (insert_sorted m xs)
unfolding insert_sorted
insert_sorted-IsSorted m [] v = (tt, tt)
insert_sorted-IsSorted m (x ∷ xs) v = elim (Bool-cases (text_lt x m)) [
  | inl e ↦ rw e (below xs v.0 (text_lt_asym x m e), insert_sorted-IsSorted m xs v.1)
  | inr e ↦ rw e (e, v)
]
  where
    below : (ys : List Text) → IsBelow x ys → text_lt m x ≡ false → IsBelow x (insert_sorted m ys)
    below [] b h = h
    below (y ∷ ys) b h = elim (Bool-cases (text_lt y m)) [ inl e ↦ rw e b | inr e ↦ rw e h ]

sort-IsSorted : (methods : List Text) → IsSorted (sort methods)
unfolding sort
sort-IsSorted [] = tt
sort-IsSorted (m ∷ methods) = insert_sorted-IsSorted m (sort methods) (sort-IsSorted methods)

has-insert_sorted :
    (x m : Text) (xs : List Text) → has x (insert_sorted m xs) ≡ (text_eq m x || has x xs)
unfolding insert_sorted
has-insert_sorted x m [] = refl
has-insert_sorted x m (y ∷ ys) = elim (Bool-cases (text_lt y m)) [
  | inl e ↦ rw (e, has-insert_sorted x m ys) (swap (text_eq y x) (text_eq m x) (has x ys))
  | inr e ↦ rw e refl
]
  where
    swap : (a b c : Bool) → (a || (b || c)) ≡ (b || (a || c))
    swap true true c = refl
    swap true false c = refl
    swap false b c = refl

has-sort : (x : Text) (methods : List Text) → has x (sort methods) ≡ has x methods
unfolding sort
has-sort x [] = refl
has-sort x (m ∷ methods) =
    has-insert_sorted x m (sort methods) ∙ ap (λ b. text_eq m x || b) (has-sort x methods)

-- The Allow header of a path lists, in order, exactly the methods for which a handler is registered
-- on that path, whatever was registered and in which order.
allow_header_lem :
    (rs : List Registration) (path method : Text)
    → let listed = sort (methods_at path (build rs).allowed_methods_by_path) in
      IsSorted listed × (has method listed ≡ is_some_handler (last_route method path rs))
allow_header_lem rs path method =
    (sort-IsSorted _, has-sort method _ ∙ methods_at_iff method path rs)

-- ===== src/Timer/Queue/Entries.antt =====
-- src/tudou/timer/TimerQueue.cpp: the set of the times, by the time that it has for a timer.
use tudou.Prelude.{
  ℕ, ◌≤◌, ◌<◌, ◌≡◌, ◌||◌, ◌&&◌, refl, ap, subst, ◌∙◌, sym, inl, inr, Bool, true, false, List, [],
  ◌∷◌, Option, none, some, arith, if◌then◌else◌, ltb, ◌==◌, ==_iff, ==_refl, Bool-cases,
}
use Prim.{Unit, tt}
use tudou.Timer.Queue.{set_erase, set_insert, collect}

unfoldable pub time_of : ℕ → List (ℕ × ℕ) → Option ℕ
time_of j [] = none
time_of j ((t, i) ∷ s) = if i == j then some t else time_of j s

-- Each timer once, the earliest time first.
abbrev pub IsOrdered : List (ℕ × ℕ) → Type 0
IsOrdered [] = Unit
IsOrdered ((t, i) ∷ s) =
    ((j u : ℕ) → time_of j s ≡ some u → t ≤ u) × (time_of i s ≡ none) × IsOrdered s

abbrev pub member : ℕ → List ℕ → Bool
member j [] = false
member j (i ∷ ids) = (i == j) || member j ids

time_of_free :
    (i u k : ℕ) (s : List (ℕ × ℕ))
    → time_of i ((u, k) ∷ s) ≡ none
    → ((k == i) ≡ false) × (time_of i s ≡ none)
unfolding time_of
time_of_free i u k s free = ground arith

module _ (address : ℕ → ℕ) where
  pub time_of-set_insert :
      (t i j : ℕ) (s : List (ℕ × ℕ))
      → time_of i s ≡ none
      → time_of j (set_insert address t i s) ≡ (if i == j then some t else time_of j s)
  unfolding time_of set_insert
  time_of-set_insert t i j [] free = refl
  time_of-set_insert t i j ((u, k) ∷ s) free =
      let (other, free_s) = time_of_free i u k s free in
      elim (Bool-cases (ltb u t || ((u == t) && ltb (address k) (address i)))) [
        | inl before ↦ rw before (ground (arith, other, time_of-set_insert t i j s free_s))
        | inr after ↦ rw (after, other) (ground (arith, other))
      ]

pub time_of-set_erase :
    (t i j : ℕ) (s : List (ℕ × ℕ))
    → IsOrdered s
    → ((u : ℕ) → time_of i s ≡ some u → u ≡ t)
    → time_of j (set_erase t i s) ≡ (if i == j then none else time_of j s)
unfolding time_of set_erase
time_of-set_erase t i j [] v only = ground arith
time_of-set_erase t i j ((u, k) ∷ s) v only = elim (Bool-cases (k == i)) [
  | inl here ↦
      let same : k ≡ i = ground arith in
      let when : u ≡ t = only u (rw here refl) in
      let later : time_of i s ≡ none = subst (λ n. time_of n s ≡ none) same v.1 in
      rw (here, when, same, ==_refl t)
        (elim (Bool-cases (i == j)) [
          | inl e ↦ rw (e, subst (λ n. time_of n s ≡ none) (to_eq e) later) refl
          | inr e ↦ rw e refl
        ])
  | inr other ↦
      let rest =
        time_of-set_erase t i j s v.2
          (λ w e. only w (ap (λ b. if b then some u else time_of i s) other ∙ e)) in
      rw other (ground (arith, other, rest, ==_iff k i, ==_iff k j, ==_iff i j))
]
  where
    to_eq : i == j ≡ true → i ≡ j
    to_eq e = ground arith

kept :
    (b : Bool) (o : Option ℕ) {r : Option ℕ} {w : ℕ}
    → r ≡ (if b then none else o)
    → r ≡ some w
    → o ≡ some w
kept b o e f = ground arith

lost : (b : Bool) (o : Option ℕ) → o ≡ none → (if b then none else o) ≡ none
lost b o e = ground arith

pub IsOrdered-set_erase :
    (t i : ℕ) (s : List (ℕ × ℕ))
    → IsOrdered s
    → ((u : ℕ) → time_of i s ≡ some u → u ≡ t)
    → IsOrdered (set_erase t i s)
unfolding set_erase
IsOrdered-set_erase t i [] v only = v
IsOrdered-set_erase t i ((u, k) ∷ s) v only = elim (Bool-cases (k == i)) [
  | inl here ↦
      let when : u ≡ t = only u (unfold time_of in rw here refl) in rw (here, when, ==_refl t) v.2
  | inr other ↦
      let only_s : (w : ℕ) → time_of i s ≡ some w → w ≡ t =
        λ w e. only w (unfold time_of in ap (λ b. if b then some u else time_of i s) other ∙ e) in
      let at : (j : ℕ) → time_of j (set_erase t i s) ≡ (if i == j then none else time_of j s) =
        λ j. time_of-set_erase t i j s v.2 only_s in
      subst IsOrdered (ap (λ b. if b then s else (u, k) ∷ set_erase t i s) (sym (no_match other))) (
        λ j w e. v.0 j w (kept (i == j) (time_of j s) (at j) e),
        at k ∙ lost (i == k) (time_of k s) v.1,
        IsOrdered-set_erase t i s v.2 only_s,
      )
]
  where
    no_match : k == i ≡ false → ((u == t) && (k == i)) ≡ false
    no_match e = ground arith

least :
    {t u w : ℕ} (b : Bool) (o : Option ℕ) {r : Option ℕ}
    → u ≤ t
    → (o ≡ some w → u ≤ w)
    → r ≡ (if b then some t else o)
    → r ≡ some w
    → u ≤ w
least b o h later e f = ground arith

module _ (address : ℕ → ℕ) where
  pub IsOrdered-set_insert :
      (t i : ℕ) (s : List (ℕ × ℕ))
      → IsOrdered s
      → time_of i s ≡ none
      → IsOrdered (set_insert address t i s)
  unfolding set_insert time_of
  IsOrdered-set_insert t i [] v free =
      (λ j u e. absurd (unfold time_of in ground (arith, e)), unfold time_of in refl, tt)
  IsOrdered-set_insert t i ((u, k) ∷ s) v free =
      let (other, free_s) = time_of_free i u k s free in
      elim (Bool-cases (ltb u t || ((u == t) && ltb (address k) (address i)))) [
        | inl before ↦
            let at : (j : ℕ)
                → time_of j (set_insert address t i s) ≡ (if i == j then some t else time_of j s) =
              λ j. time_of-set_insert address t i j s free_s in
            rw before (
              λ j w e. least (i == j) (time_of j s) (ground arith) (v.0 j w) (at j) e,
              at k ∙ rw (apart other) v.1,
              IsOrdered-set_insert t i s v.2 free_s,
            )
        | inr after ↦
            subst IsOrdered
              (sym (
                ap
                  (λ b.
                    if b
                    then (u, k) ∷ set_insert address t i s
                    else (if (u == t) && (k == i) then (u, k) ∷ s else (t, i) ∷ (u, k) ∷ s))
                  after
                ∙ ap (λ b. if b then (u, k) ∷ s else (t, i) ∷ (u, k) ∷ s) (no_match other)))
              (
                λ j w e.
                    least (k == j) (time_of j s) (before_u after)
                      (λ f. omega (arith, before_u after, v.0 j w f)) refl e,
                free,
                v,
              )
      ]
    where
      before_u : (ltb u t || ((u == t) && ltb (address k) (address i))) ≡ false → t ≤ u
      before_u e = ground arith

      apart : k == i ≡ false → i == k ≡ false
      apart e = ground arith

      no_match : k == i ≡ false → ((u == t) && (k == i)) ≡ false
      no_match e = ground arith

abbrev pub IsDistinct : List ℕ → Type 0
IsDistinct [] = Unit
IsDistinct (i ∷ ids) = (member i ids ≡ false) × IsDistinct ids

-- The timers that are due by `n` are taken out of the set, each once, and no other is.
pub record Collects (n : ℕ) (s : List (ℕ × ℕ)) : Type 0 where
  pub set : IsOrdered (collect n s).1
  pub stays :
      (j : ℕ) → time_of j (collect n s).1 ≡ (if member j (collect n s).0 then none else time_of j s)
  pub due : (j : ℕ) → member j (collect n s).0 ≡ true → (u : ℕ) × (time_of j s ≡ some u) × (u ≤ n)
  pub later : (j u : ℕ) → time_of j (collect n s).1 ≡ some u → n < u
  pub distinct : IsDistinct (collect n s).0

due_also :
    {n t : ℕ} {m : Bool} {o : Option ℕ} (b : Bool)
    → t ≤ n
    → (m ≡ true → (u : ℕ) × (o ≡ some u) × (u ≤ n))
    → (b || m) ≡ true
    → (u : ℕ) × ((if b then some t else o) ≡ some u) × (u ≤ n)
due_also {t = t} true h f e = (t, refl, h)
due_also false h f e = f e

unlisted :
    {n : ℕ} (i : ℕ) (s : List (ℕ × ℕ)) (ids : List ℕ)
    → (member i ids ≡ true → (u : ℕ) × (time_of i s ≡ some u) × (u ≤ n))
    → time_of i s ≡ none
    → member i ids ≡ false
unlisted i s ids f e = elim (Bool-cases (member i ids)) [
  | inl m ↦ absurd (ground (arith, (f m).1, e))
  | inr m ↦ m
]

pub collect-Collects : (n : ℕ) (s : List (ℕ × ℕ)) → IsOrdered s → Collects n s
unfolding collect time_of
collect-Collects n [] v = record {
  set = tt;
  stays = λ j. refl;
  due = λ j e. absurd (ground (arith, e));
  later = λ j u e. absurd (ground (arith, e));
  distinct = tt;
}
collect-Collects n ((t, i) ∷ s) v = elim (Bool-cases (ltb n t)) [
  | inl early ↦ record {
    set = rw early v;
    stays = λ j. rw early refl;
    due = λ j. rw early (λ e. absurd (ground (arith, e)));
    later = λ j u. rw early (λ e. ground (arith, v.0 j u, e));
    distinct = rw early tt;
  }
  | inr now ↦
      let c = collect-Collects n s v.2 in
      record {
        set = rw now c.set;
        stays = λ j. rw now (ground (arith, c.stays j));
        due = λ j. rw now (due_also (i == j) (ground arith) (c.due j));
        later = λ j u. rw now (c.later j u);
        distinct = rw now (unlisted i s (collect n s).0 (c.due i) v.1, c.distinct);
      }
]

-- ===== src/Tcp/Server/Table.antt =====
-- src/tudou/tcp/TcpServer.cpp: how many connections the tables of the loops hold.
use tudou.Prelude.{
  ℕ, ◌+◌, ◌-◌, ◌≤◌, ◌<◌, ◌≡◌, refl, ap, sym, subst, ◌∙◌, lookup-insert, true, false, List, [], ◌∷◌,
  some, arith, lookup, insert, erase, number_eq, ◌==◌, if◌then◌else◌, length, count_key,
  count_key-lookup, count_key-none, Option-cases, count_key-erase, count_key-insert, size_mod,
  sub_size, Bool-cases, inl, inr,
}
use tudou.Tcp.Server.{ConnectionRecord, ConnectionRecords, count_down, empty_records}

unfoldable pub total : List (ℕ × ConnectionRecords) → ℕ
total [] = 0
total ((loop, local_records) ∷ m) = length local_records + total m

pub total-insert :
    (loop : ℕ) (old new : ConnectionRecords) (m : List (ℕ × ConnectionRecords))
    → lookup loop m ≡ some old
    → total (insert loop new m) + length old ≡ total m + length new
unfolding total lookup insert
total-insert loop old new [] e = cc e
total-insert loop old new ((l, r) ∷ m) e = elim (Bool-cases (l == loop)) [
  | inl same ↦ rw same (omega (arith, ap length (held same e)))
  | inr other ↦ rw other (omega (arith, total-insert loop old new m (later other e)))
]
  where
    held : (l == loop) ≡ true → (if l == loop then some r else lookup loop m) ≡ some old → r ≡ old
    held same e = ground (arith, same, e)

    later :
        (l == loop) ≡ false
        → (if l == loop then some r else lookup loop m) ≡ some old
        → lookup loop m ≡ some old
    later other e = ground (arith, other, e)

pub length-le-total :
    (loop : ℕ) (local_records : ConnectionRecords) (m : List (ℕ × ConnectionRecords))
    → lookup loop m ≡ some local_records
    → length local_records ≤ total m
length-le-total loop local_records m e = omega (arith, total-insert loop local_records [] m e)

pub count_down_lem :
    (rest : ConnectionRecords) (n : ℕ)
    → length rest ≤ n
    → n < size_mod
    → count_down rest n ≡ n - length rest
count_down_lem [] n h small = omega arith
count_down_lem (r ∷ rest) n h small =
    count_down_lem rest (sub_size n 1) (omega arith) (omega arith) ∙ omega arith

-- Each connection stands once in the table of a loop, and was allocated before.
pub record Tidy (allocated : ℕ) (local_records : ConnectionRecords) : Type 0 where
  pub once : (k : ℕ) → count_key k local_records ≤ 1
  pub older : (k : ℕ) → allocated ≤ k → count_key k local_records ≡ 0

pub []-Tidy : (n : ℕ) → Tidy n []
unfolding count_key
[]-Tidy n = record { once = λ k. omega arith; older = λ k h. refl }

pub insert-Tidy :
    (n : ℕ) (r : ConnectionRecord) (m : ConnectionRecords) → Tidy n m → Tidy (n + 1) (insert n r m)
insert-Tidy n r m t = record {
  once = λ k. ground (arith, new k, t.once k);
  older = λ k h. ground (arith, new k, t.older k);
}
  where
    new : (k : ℕ) → count_key k (insert n r m) ≡ (if n == k then 1 else count_key k m)
    new k = count_key-insert n k r m (t.older n (omega arith))

pub erase-Tidy : (n conn : ℕ) (m : ConnectionRecords) → Tidy n m → Tidy n (erase conn m)
erase-Tidy n conn m t = record {
  once = λ k. ground (arith, count_key-erase conn k m, t.once k);
  older = λ k h. ground (arith, count_key-erase conn k m, t.older k h);
}

pub Tidy-le : (n n' : ℕ) (m : ConnectionRecords) → n ≤ n' → Tidy n m → Tidy n' m
Tidy-le n n' m h t = record { once = t.once; older = λ k l. t.older k (omega arith) }

-- The tables of all loops.
abbrev pub Tidies : ℕ → List (ℕ × ConnectionRecords) → Type 0
Tidies n m =
    (loop : ℕ) (local_records : ConnectionRecords)
    → lookup loop m ≡ some local_records
    → Tidy n local_records

pub insert-Tidies :
    (n n' loop : ℕ) (new : ConnectionRecords) (m : List (ℕ × ConnectionRecords))
    → n ≤ n'
    → Tidies n m
    → Tidy n' new
    → Tidies n' (insert loop new m)
insert-Tidies n n' loop new m h ts t l r e = elim (Bool-cases (loop == l)) [
  | inl same ↦ subst (Tidy n') (got same) t
  | inr other ↦ Tidy-le n n' r h (ts l r (kept other))
]
  where
    found : (if loop == l then some new else lookup l m) ≡ some r
    found = sym (lookup-insert loop l new m) ∙ e

    got : (loop == l) ≡ true → new ≡ r
    got same = ground (arith, same, found)

    kept : (loop == l) ≡ false → lookup l m ≡ some r
    kept other = ground (arith, other, found)

-- A loop that has a table keeps one place.
pub count_key-insert_old :
    (k j : ℕ) (old new : ConnectionRecords) (m : List (ℕ × ConnectionRecords))
    → lookup k m ≡ some old
    → count_key j (insert k new m) ≡ count_key j m
unfolding count_key insert lookup
count_key-insert_old k j old new [] e = cc e
count_key-insert_old k j old new ((l, r) ∷ m) e =
    ground (arith, e, count_key-insert_old k j old new m)

pub total-eq-zero :
    (m : List (ℕ × ConnectionRecords))
    → ((loop : ℕ) → count_key loop m ≤ 1)
    → ((loop : ℕ) (r : ConnectionRecords) → lookup loop m ≡ some r → r ≡ [])
    → total m ≡ 0
unfolding total lookup count_key
total-eq-zero [] once e = refl
total-eq-zero ((l, r) ∷ m) once e =
    omega (arith, ap length (e l r (ground arith)), total-eq-zero m tail_once tail)
  where
    tail_once : (loop : ℕ) → count_key loop m ≤ 1
    tail_once loop = omega (arith, once loop)

    tail : (loop : ℕ) (r' : ConnectionRecords) → lookup loop m ≡ some r' → r' ≡ []
    tail loop r' f = e loop r' (ground (arith, once loop, count_key-lookup loop r' m f, f))

total-insert_empty :
    (loop : ℕ) (m : List (ℕ × ConnectionRecords)) → total (insert loop [] m) ≤ total m
unfolding total insert
total-insert_empty loop [] = omega arith
total-insert_empty loop ((l, r) ∷ m) = ground (arith, total-insert_empty loop m)

count_key-insert_once :
    (k j : ℕ) (new : ConnectionRecords) (m : List (ℕ × ConnectionRecords))
    → ((i : ℕ) → count_key i m ≤ 1)
    → count_key j (insert k new m) ≤ 1
count_key-insert_once k j new m once = elim (Option-cases (lookup k m)) [
  | inl absent ↦ ground (arith, once j, count_key-insert k j new m (count_key-none k m absent))
  | inr (old, there) ↦ omega (arith, once j, count_key-insert_old k j old new m there)
]

pub Tidies-empty_records : (loops : List ℕ) → Tidies 0 (empty_records loops)
unfolding lookup
Tidies-empty_records [] = λ loop r e. cc e
Tidies-empty_records (l ∷ loops) =
    insert-Tidies 0 0 l [] (empty_records loops) (omega arith) (Tidies-empty_records loops)
      ([]-Tidy 0)

pub empty_records_lem :
    (loops : List ℕ)
    → (total (empty_records loops) ≡ 0) × ((loop : ℕ) → count_key loop (empty_records loops) ≤ 1)
unfolding total count_key
empty_records_lem [] = (refl, λ loop. omega arith)
empty_records_lem (l ∷ loops) =
    let (none_yet, once) = empty_records_lem loops in
    (
      omega (arith, total-insert_empty l (empty_records loops), none_yet),
      λ loop. count_key-insert_once l loop [] (empty_records loops) once,
    )

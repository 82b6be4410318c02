-- ===== src/Tcp/Buffer/Read.antt =====
-- src/tudou/tcp/Buffer.cpp: maintain_read_index and the calls that consume bytes.
use tudou.Prelude.{
  ℕ, ◌+◌, ◌-◌, ◌≤◌, ◌≡◌, ap, ◌∙◌, sym, inl, inr, [], arith, ltb, ltb→lt, true, Bool-cases, length,
  take, drop, take_all, drop_all, take-take, drop-take, drop-drop, add_size,
}
use tudou.Tcp.Buffer.{
  Buffer, readable_bytes, readable_start_ptr, maintain_read_index, read_from_buffer, read_all,
  advance_read_index,
}
use tudou.Tcp.Buffer.Contents.{IsValid, contents, length-contents}

pub maintain_read_index-IsValid :
    {b : Buffer} (n : ℕ) → IsValid b → IsValid (maintain_read_index b n)
unfolding maintain_read_index
maintain_read_index-IsValid n v = ground arith

pub contents-maintain_read_index :
    {b : Buffer} (n : ℕ) → IsValid b → contents (maintain_read_index b n) ≡ drop n (contents b)
unfolding maintain_read_index
contents-maintain_read_index {b} n v = elim (Bool-cases (ltb n (readable_bytes b))) [
  | inl part ↦ rw part (
      ap (λ k. take k (drop (add_size b.read_index n) b.buffer)) (left (ground arith))
      ∙ ap (λ k. take (b.write_index - b.read_index - n) (drop k b.buffer)) (index (ground arith))
      ∙ ap (take (b.write_index - b.read_index - n)) (sym (drop-drop n b.read_index b.buffer))
      ∙ sym (drop-take n (b.write_index - b.read_index) (drop b.read_index b.buffer)))
  | inr full ↦ rw full (sym (drop_all n (contents b) (ground (arith, length-contents v))))
]
  where
    index : n ≤ b.write_index - b.read_index → add_size b.read_index n ≡ b.read_index + n
    index h = omega arith

    left :
        n ≤ b.write_index - b.read_index
        → b.write_index - add_size b.read_index n ≡ b.write_index - b.read_index - n
    left h = omega arith

-- Consuming `n` bytes of a valid buffer drops the first `n` readable ones (all, if there are fewer)
-- and keeps the order of the indices.
pub advance_read_index_drops :
    {b : Buffer} (n : ℕ)
    → IsValid b
    → IsValid (advance_read_index b n) × (contents (advance_read_index b n) ≡ drop n (contents b))
unfolding advance_read_index
advance_read_index_drops n v = (maintain_read_index-IsValid n v, contents-maintain_read_index n v)

-- The bytes that the code copies from the read pointer are readable bytes.
pub take-readable :
    {b : Buffer} (n : ℕ)
    → IsValid b
    → n ≤ b.write_index - b.read_index
    → take n (readable_start_ptr b) ≡ take n (contents b)
take-readable {b} n v h = sym (take-take n (b.write_index - b.read_index) (readable_start_ptr b) h)

-- A read of `n` bytes from a valid buffer returns the first `n` readable bytes (all of them, if
-- there are fewer), and leaves a valid buffer with the others.
pub read_from_buffer_lem :
    {b : Buffer} (n : ℕ)
    → IsValid b
    → let (text, rest) = read_from_buffer b n in
      (text ≡ take n (contents b)) × (contents rest ≡ drop n (contents b)) × IsValid rest
unfolding read_from_buffer
read_from_buffer_lem {b} n v = elim (Bool-cases (ltb (readable_bytes b) n)) [
  | inl more ↦ rw more (
    take-readable (readable_bytes b) v (omega arith) ∙ all_taken ∙ sym (take_all n _ (few more)),
    contents-maintain_read_index (readable_bytes b) v
        ∙ drop_all (readable_bytes b) (contents b) size
        ∙ sym (drop_all n (contents b) (few more)),
    maintain_read_index-IsValid (readable_bytes b) v,
  )
  | inr enough ↦ rw enough (
    take-readable n v (ground arith),
    contents-maintain_read_index n v,
    maintain_read_index-IsValid n v,
  )
]
  where
    size : length (contents b) ≤ readable_bytes b
    size = omega (arith, length-contents v)

    all_taken : take (readable_bytes b) (contents b) ≡ contents b
    all_taken = take_all (readable_bytes b) (contents b) size

    few : ltb (readable_bytes b) n ≡ true → length (contents b) ≤ n
    few h = omega (arith, size, ltb→lt (readable_bytes b) n h)

-- A read of everything returns the readable bytes of a valid buffer and leaves none.
pub read_all_lem :
    {b : Buffer}
    → IsValid b
    → let (text, rest) = read_all b in (text ≡ contents b) × (contents rest ≡ []) × IsValid rest
unfolding read_all
read_all_lem {b} v =
    let (text, left, valid) = read_from_buffer_lem (readable_bytes b) v in
    (text ∙ take_all _ (contents b) bound, left ∙ drop_all _ (contents b) bound, valid)
  where
    bound : length (contents b) ≤ readable_bytes b
    bound = omega (arith, length-contents v)

-- Reading moves the indices only.
pub buffer-maintain_read_index : (b : Buffer) (n : ℕ) → (maintain_read_index b n).buffer ≡ b.buffer
unfolding maintain_read_index
buffer-maintain_read_index b n = ground arith

pub buffer-read_from_buffer : (b : Buffer) (n : ℕ) → (read_from_buffer b n).1.buffer ≡ b.buffer
unfolding read_from_buffer
buffer-read_from_buffer b n = buffer-maintain_read_index b _

pub buffer-advance_read_index : (b : Buffer) (n : ℕ) → (advance_read_index b n).buffer ≡ b.buffer
unfolding advance_read_index
buffer-advance_read_index b n = buffer-maintain_read_index b n

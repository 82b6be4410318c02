-- ===== src/Tcp/Buffer/Contents.antt =====
-- src/tudou/tcp/Buffer.h: the order of the indices, and the readable bytes as a list.
use tudou.Prelude.{
  ℕ, ◌+◌, ◌-◌, ◌^◌, ◌≤◌, ◌≡◌, refl, List, [], ◌++◌, arith, length, take, drop, replicate,
  length-take, length-drop, length-replicate, length-append,
}
use tudou.Tcp.Buffer.{
  Buffer, copy_at, resize, new_buffer, readable_bytes, writable_bytes, cheap_prepend,
}

-- `PTRDIFF_MAX`, the largest size of a `std::vector<char>`.
abbrev pub max_size : ℕ
max_size = 2 ^ 63 - 1

-- The picture in Buffer.h: 0 <= readerIndex <= writerIndex <= size, behind the prepend bytes.
pub record IsValid (b : Buffer) : Type 0 where
  pub prepend : cheap_prepend ≤ b.read_index
  pub ordered : b.read_index ≤ b.write_index
  pub inside : b.write_index ≤ length b.buffer
  pub small : length b.buffer ≤ max_size

abbrev pub contents : Buffer → List ℕ
contents b = take (b.write_index - b.read_index) (drop b.read_index b.buffer)

-- No subtraction of a valid buffer wraps.
pub no_wrap :
    {b : Buffer}
    → IsValid b
    → (readable_bytes b ≡ b.write_index - b.read_index)
      × (writable_bytes b ≡ length b.buffer - b.write_index)
no_wrap v = omega arith

pub length-contents : {b : Buffer} → IsValid b → length (contents b) ≡ b.write_index - b.read_index
length-contents {b} v = omega (
  arith,
  length-take (b.write_index - b.read_index) (drop b.read_index b.buffer),
  length-drop b.read_index b.buffer,
)

pub length-copy_at :
    (dst : List ℕ) (i : ℕ) (src : List ℕ)
    → i + length src ≤ length dst
    → length (copy_at dst i src) ≡ length dst
unfolding copy_at
length-copy_at dst i src h = omega (
  arith,
  length-append (take i dst) (src ++ drop (i + length src) dst),
  length-append src (drop (i + length src) dst),
  length-take i dst,
  length-drop (i + length src) dst,
)

pub length-resize : (xs : List ℕ) (n : ℕ) → length (resize xs n) ≡ n
unfolding resize
length-resize xs n = omega (
  arith,
  length-append (take n xs) (replicate (n - length xs) 0),
  length-take n xs,
  length-replicate {A = ℕ} (n - length xs) 0,
)

pub new_buffer-IsValid : (size : ℕ) → cheap_prepend + size ≤ max_size → IsValid (new_buffer size)
unfolding new_buffer
new_buffer-IsValid size h = record {
  prepend = omega arith;
  ordered = omega arith;
  inside = omega (arith, length-replicate {A = ℕ} (cheap_prepend + size) 0);
  small = omega (arith, length-replicate {A = ℕ} (cheap_prepend + size) 0);
}

pub contents-new_buffer : (size : ℕ) → contents (new_buffer size) ≡ []
unfolding new_buffer
contents-new_buffer size = refl

-- ===== src/Tcp/Buffer/Append.antt =====
-- src/tudou/tcp/Buffer.cpp: bytes behind the write index.
use tudou.Prelude.{
  ℕ, ◌+◌, ◌-◌, ◌≤◌, ◌≡◌, ap, ◌∙◌, sym, List, ◌++◌, arith, length, take, drop, length-take,
  length-drop, take-append_add, drop-append_le, drop-take, take-append, add_size,
}
use tudou.Tcp.Buffer.{Buffer, copy_at, append_at_write_index}
use tudou.Tcp.Buffer.Contents.{IsValid, contents, length-copy_at}

-- Room for `n` more bytes behind the write index.
abbrev pub HasRoom : Buffer → ℕ → Type 0
HasRoom b n = b.write_index + n ≤ length b.buffer

pub append_at_write_index-IsValid :
    {b : Buffer} (bytes : List ℕ)
    → IsValid b
    → HasRoom b (length bytes)
    → IsValid (append_at_write_index b bytes)
unfolding append_at_write_index
append_at_write_index-IsValid {b} bytes v room =
    let same = length-copy_at b.buffer b.write_index bytes room in
    record { prepend = v.prepend; ordered = omega arith; inside = omega arith; small = omega arith }

-- What stands before index `w` is kept by a write at `w`, and the bytes follow it.
window-copy_at :
    (buf bytes : List ℕ) (r w : ℕ)
    → r ≤ w
    → w + length bytes ≤ length buf
    → take (w - r + length bytes) (drop r (copy_at buf w bytes))
      ≡ take (w - r) (drop r buf) ++ bytes
unfolding copy_at
window-copy_at buf bytes r w h room =
    ap (take (w - r + length bytes)) (drop-append_le r (take w buf) rest front)
    ∙ ap (λ c. take (w - r + length bytes) (c ++ rest)) (drop-take r w buf)
    ∙ ap (λ n. take (n + length bytes) (kept ++ rest)) (sym size)
    ∙ take-append_add (length bytes) kept rest
    ∙ ap (◌++◌ kept) (take-append bytes _)
  where
    rest : List ℕ
    rest = bytes ++ drop (w + length bytes) buf

    kept : List ℕ
    kept = take (w - r) (drop r buf)

    front : r ≤ length (take w buf)
    front = omega (arith, length-take w buf)

    size : length kept ≡ w - r
    size = omega (arith, length-take (w - r) (drop r buf), length-drop r buf)

pub contents-append_at_write_index :
    {b : Buffer} (bytes : List ℕ)
    → IsValid b
    → HasRoom b (length bytes)
    → contents (append_at_write_index b bytes) ≡ contents b ++ bytes
unfolding append_at_write_index
contents-append_at_write_index {b} bytes v room =
    ap (λ n. take n (drop b.read_index (copy_at b.buffer b.write_index bytes))) index
    ∙ window-copy_at b.buffer bytes b.read_index b.write_index v.ordered room
  where
    index :
        add_size b.write_index (length bytes) - b.read_index
        ≡ b.write_index - b.read_index + length bytes
    index = omega arith

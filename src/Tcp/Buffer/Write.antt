-- ===== src/Tcp/Buffer/Write.antt =====
-- src/tudou/tcp/Buffer.cpp: write_to_buffer and make_space.
use tudou.Prelude.{
  ℕ, ◌+◌, ◌-◌, ◌≤◌, ◌<◌, ◌≡◌, refl, ap, ◌∙◌, sym, inl, inr, List, [], ◌∷◌, ◌++◌, arith, ltb, ◌⊎◌,
  Bool-cases, length, take, drop, replicate, length-take, length-drop, take_all, drop_all,
  drop-append_le, take-append_le, take-append, append-nil, add_size,
}
use tudou.Tcp.Buffer.{
  Buffer, copy_at, resize, readable_bytes, writable_bytes, cheap_prepend, make_space,
  append_at_write_index, write_to_buffer,
}
use tudou.Tcp.Buffer.Contents.{
  IsValid, contents, max_size, length-contents, length-copy_at, length-resize,
}
use tudou.Tcp.Buffer.Append.{HasRoom, append_at_write_index-IsValid, contents-append_at_write_index}

-- What `make_space` gives `write_to_buffer`: the same bytes, with room for `n` more.
record Roomy (b : Buffer) (n : ℕ) (room : Buffer) : Type 0 where
  valid : IsValid room
  fits : HasRoom room n
  same : contents room ≡ contents b

grown-Roomy :
    {b : Buffer} (n : ℕ)
    → IsValid b
    → b.write_index + n ≤ max_size
    → length b.buffer < b.write_index + n
    → Roomy b n (record b { buffer = resize b.buffer (add_size b.write_index n) })
unfolding resize
grown-Roomy {b} n v small more = record {
  valid = record {
    prepend = v.prepend;
    ordered = v.ordered;
    inside = omega (arith, size);
    small = omega (arith, size);
  };
  fits = omega (arith, size);
  same =
      ap (λ c. take m (drop r (c ++ zeros))) (take_all (add_size w n) b.buffer (omega arith))
      ∙ ap (take m) (drop-append_le r b.buffer zeros (omega arith))
      ∙ take-append_le m (drop r b.buffer) zeros (omega (arith, length-drop r b.buffer));
}
  where
    r : ℕ
    r = b.read_index

    w : ℕ
    w = b.write_index

    m : ℕ
    m = w - r

    zeros : List ℕ
    zeros = replicate (add_size w n - length b.buffer) 0

    size : length (resize b.buffer (add_size w n)) ≡ add_size w n
    size = length-resize b.buffer (add_size w n)

moved-Roomy :
    {b : Buffer} (n : ℕ)
    → IsValid b
    → n + cheap_prepend ≤ length b.buffer - b.write_index + b.read_index
    → Roomy b n (record {
      buffer = copy_at b.buffer cheap_prepend (contents b);
      read_index = cheap_prepend;
      write_index = cheap_prepend + (b.write_index - b.read_index);
    })
unfolding copy_at
moved-Roomy {b} n v enough = record {
  valid = record {
    prepend = omega arith;
    ordered = omega arith;
    inside = omega (arith, size);
    small = omega (arith, size, v.small);
  };
  fits = omega (arith, size);
  same =
      ap (take (cheap_prepend + m - cheap_prepend))
        (drop-append_le cheap_prepend (take cheap_prepend b.buffer) rest (omega (arith, eight)))
      ∙ ap (λ c. take (cheap_prepend + m - cheap_prepend) (c ++ rest))
          (drop_all cheap_prepend (take cheap_prepend b.buffer) (omega (arith, eight)))
      ∙ ap (λ k. take k rest) count
      ∙ take-append (contents b) _;
}
  where
    m : ℕ
    m = b.write_index - b.read_index

    rest : List ℕ
    rest = contents b ++ drop (cheap_prepend + length (contents b)) b.buffer

    count : cheap_prepend + m - cheap_prepend ≡ length (contents b)
    count = omega (arith, length-contents v)

    eight : length (take cheap_prepend b.buffer) ≡ 8
    eight = omega (arith, length-take cheap_prepend b.buffer, v.prepend, v.ordered, v.inside)

    size : length (copy_at b.buffer cheap_prepend (contents b)) ≡ length b.buffer
    size =
        length-copy_at b.buffer cheap_prepend (contents b)
          (omega (arith, length-contents v, v.prepend, v.ordered, v.inside))

make_space-Roomy :
    {b : Buffer} (n : ℕ)
    → IsValid b
    → b.write_index + n ≤ max_size
    → length b.buffer < b.write_index + n
    → Roomy b n (make_space b n)
unfolding make_space
make_space-Roomy {b} n v small more =
    elim (Bool-cases (ltb (add_size (writable_bytes b) b.read_index) (add_size n cheap_prepend))) [
      | inl short ↦ rw short (grown-Roomy n v small more)
      | inr enough ↦ rw (enough, readable, index) (moved-Roomy n v (ground arith))
    ]
  where
    readable : readable_bytes b ≡ b.write_index - b.read_index
    readable = omega arith

    index :
        add_size cheap_prepend (b.write_index - b.read_index)
        ≡ cheap_prepend + (b.write_index - b.read_index)
    index = omega arith

write_to_buffer-cases :
    {b : Buffer} (x : ℕ) (bytes : List ℕ)
    → IsValid b
    → b.write_index + length (x ∷ bytes) ≤ max_size
    → (room : Buffer) × (write_to_buffer b (x ∷ bytes) ≡ append_at_write_index room (x ∷ bytes))
      × Roomy b (length (x ∷ bytes)) room
unfolding write_to_buffer
write_to_buffer-cases {b} x bytes v small =
    elim (Bool-cases (ltb (writable_bytes b) (length (x ∷ bytes)))) [
      | inl short ↦ (
        make_space b (length (x ∷ bytes)),
        rw short,
        make_space-Roomy (length (x ∷ bytes)) v small (ground arith),
      )
      | inr enough ↦ (b, rw enough, record { valid = v; fits = ground arith; same = refl })
    ]

-- On a valid buffer, and up to the largest vector size, `write_to_buffer` keeps the order of the
-- indices and leaves exactly the old readable bytes followed by the new ones, whichever way it
-- makes room.
pub write_to_buffer_appends :
    {b : Buffer} (bytes : List ℕ)
    → IsValid b
    → b.write_index + length bytes ≤ max_size
    → IsValid (write_to_buffer b bytes) × (contents (write_to_buffer b bytes) ≡ contents b ++ bytes)
unfolding write_to_buffer
write_to_buffer_appends {b} [] v small = (v, sym (append-nil (contents b)))
write_to_buffer_appends {b} (x ∷ bytes) v small =
    let (room, same, r) = write_to_buffer-cases x bytes v small in
    rw same (
      append_at_write_index-IsValid (x ∷ bytes) r.valid r.fits,
      contents-append_at_write_index (x ∷ bytes) r.valid r.fits ∙ ap (λ c. c ++ x ∷ bytes) r.same,
    )

length-make_space :
    {b : Buffer} (n : ℕ)
    → IsValid b
    → b.write_index + n ≤ max_size
    → length b.buffer < b.write_index + n
    → ((n + cheap_prepend ≤ length b.buffer - b.write_index + b.read_index)
        × (length (make_space b n).buffer ≡ length b.buffer))
      ⊎ ((length b.buffer - b.write_index + b.read_index < n + cheap_prepend)
          × (length (make_space b n).buffer ≡ b.write_index + n))
unfolding make_space
length-make_space {b} n v small more =
    elim (Bool-cases (ltb (add_size (writable_bytes b) b.read_index) (add_size n cheap_prepend))) [
      | inl short ↦ inr (
        ground arith,
        rw short (omega (arith, length-resize b.buffer (add_size b.write_index n))),
      )
      | inr enough ↦ inl (
        ground arith,
        rw (enough, readable)
            (length-copy_at b.buffer cheap_prepend (contents b) (fits (ground arith))),
      )
    ]
  where
    readable : readable_bytes b ≡ b.write_index - b.read_index
    readable = omega arith

    fits :
        n + cheap_prepend ≤ length b.buffer - b.write_index + b.read_index
        → cheap_prepend + length (contents b) ≤ length b.buffer
    fits h = omega (arith, length-contents v, v.prepend, v.ordered, v.inside)

-- The storage of a valid buffer grows only where the writable and the consumed bytes together do
-- not hold the new bytes and the prepend bytes, and then to just the size that is needed.
pub length-write_to_buffer :
    {b : Buffer} (bytes : List ℕ)
    → IsValid b
    → b.write_index + length bytes ≤ max_size
    → let size = length (write_to_buffer b bytes).buffer in
      (size ≡ length b.buffer)
      ⊎ ((length b.buffer - b.write_index + b.read_index < length bytes + cheap_prepend)
          × (length b.buffer < b.write_index + length bytes)
          × (size ≡ b.write_index + length bytes))
unfolding write_to_buffer append_at_write_index
length-write_to_buffer {b} [] v small = inl refl
length-write_to_buffer {b} (x ∷ bytes) v small =
    elim (Bool-cases (ltb (writable_bytes b) (length (x ∷ bytes)))) [
      | inl short ↦
          let n = length (x ∷ bytes) in
          let more : length b.buffer < b.write_index + n = ground arith in
          let r = make_space-Roomy n v small more in
          let same = length-copy_at _ _ (x ∷ bytes) r.fits in
          elim (length-make_space n v small more) [
            | inl (_, e) ↦ inl (rw short (same ∙ e))
            | inr (h, e) ↦ inr (h, more, rw short (same ∙ e))
          ]
      | inr enough ↦
          inl (rw enough (length-copy_at b.buffer b.write_index (x ∷ bytes) (ground arith)))
    ]

pub length-write_to_buffer_le :
    {b : Buffer} (bytes : List ℕ)
    → IsValid b
    → b.write_index + length bytes ≤ max_size
    → length (write_to_buffer b bytes).buffer ≤ length b.buffer + length bytes
length-write_to_buffer_le bytes v small = elim (length-write_to_buffer bytes v small) [
  | inl e ↦ omega arith
  | inr (short, more, e) ↦ omega (arith, v.inside)
]

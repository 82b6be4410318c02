-- ===== src/Tcp/Buffer/Fd.antt =====
-- src/tudou/tcp/Buffer.cpp: read_from_fd and write_to_fd.
use tudou.Prelude.{
  ℕ, ◌+◌, ◌-◌, ◌≤◌, ◌≡◌, refl, ap, ◌∙◌, sym, subst, inl, inr, List, ◌++◌, arith, leb, Bool-cases,
  length, take, drop, length-take, length-drop, take-append-drop, add_size, append_assoc,
}
use tudou.Tcp.Buffer.{
  Buffer, copy_at, readable_bytes, writable_bytes, readable_start_ptr, stack_buf_size,
  append_at_write_index, write_to_buffer, take_in, read_from_fd, write_to_fd, read_capacity,
  ReadOutcome, read_error, received, WriteOutcome, write_error, wrote, maintain_read_index,
}
use tudou.Tcp.Buffer.Contents.{IsValid, contents, max_size, length-copy_at}
use tudou.Tcp.Buffer.Read.{
  buffer-maintain_read_index, maintain_read_index-IsValid, contents-maintain_read_index,
}
use tudou.Tcp.Buffer.Write.{write_to_buffer_appends, length-write_to_buffer_le}
use tudou.Tcp.Buffer.Append.{append_at_write_index-IsValid, contents-append_at_write_index}

-- The state in which `readv` has filled the storage: all writable bytes are taken.
filled : Buffer → List ℕ → Buffer
filled b bytes = record b {
  buffer = copy_at b.buffer b.write_index (take (writable_bytes b) bytes);
  write_index = length b.buffer;
}

filled-eq-append :
    {b : Buffer} (bytes : List ℕ)
    → IsValid b
    → writable_bytes b ≤ length bytes
    → filled b bytes ≡ append_at_write_index b (take (writable_bytes b) bytes)
unfolding filled append_at_write_index
filled-eq-append {b} bytes v h =
    ap
      (λ i. record b {
        buffer = copy_at b.buffer b.write_index (take (writable_bytes b) bytes);
        write_index = i;
      })
      index
  where
    index : length b.buffer ≡ add_size b.write_index (length (take (writable_bytes b) bytes))
    index = omega (arith, length-take (writable_bytes b) bytes, v.ordered, v.inside, v.small)

-- Bytes that fit the storage and the stack buffer are appended in order.
pub take_in_appends :
    {b : Buffer} (bytes : List ℕ)
    → IsValid b
    → b.write_index + length bytes ≤ max_size
    → IsValid (take_in b bytes) × (contents (take_in b bytes) ≡ contents b ++ bytes)
unfolding take_in filled append_at_write_index
take_in_appends {b} bytes v small = elim (Bool-cases (leb (length bytes) (writable_bytes b))) [
  | inl fits ↦
      let room : b.write_index + length bytes ≤ length b.buffer = ground arith in
      rw fits
        (append_at_write_index-IsValid bytes v room, contents-append_at_write_index bytes v room)
  | inr over ↦
      let more : writable_bytes b ≤ length bytes = ground arith in
      rw over (
        subst
          (λ m.
            let after = write_to_buffer m rest in
            IsValid after × (contents after ≡ contents b ++ bytes))
          (sym (filled-eq-append bytes v more)) (spilled more))
]
  where
    first : List ℕ
    first = take (writable_bytes b) bytes

    rest : List ℕ
    rest = drop (writable_bytes b) bytes

    room : b.write_index + length first ≤ length b.buffer
    room = omega (arith, length-take (writable_bytes b) bytes, v.ordered, v.inside, v.small)

    small_rest : add_size b.write_index (length first) + length rest ≤ max_size
    small_rest = omega (
      arith,
      length-take (writable_bytes b) bytes,
      length-drop (writable_bytes b) bytes,
      v.ordered,
      v.inside,
      v.small,
    )

    spilled :
        writable_bytes b ≤ length bytes
        → let after = write_to_buffer (append_at_write_index b first) rest in
          IsValid after × (contents after ≡ contents b ++ bytes)
    spilled more =
        let (valid, appended) =
          write_to_buffer_appends rest (append_at_write_index-IsValid first v room) small_rest in
        (
          valid,
          appended
              ∙ ap (λ c. c ++ rest) (contents-append_at_write_index first v room)
              ∙ append_assoc (contents b) first rest
              ∙ ap (◌++◌ (contents b)) (take-append-drop (writable_bytes b) bytes),
        )

-- What a caller of `read_from_fd` finds: an error changes nothing, and received bytes are appended.
abbrev pub ReadAfter : Buffer → ReadOutcome → Buffer → Type 0
ReadAfter b (read_error errno) after = after ≡ b
ReadAfter b (received bytes) after = contents after ≡ contents b ++ bytes

-- `readv` stores no more than it is offered.
abbrev pub ObeysCapacity : (ℕ → ReadOutcome) → Type 0
ObeysCapacity readv =
    (room : ℕ) (bytes : List ℕ) → readv room ≡ received bytes → length bytes ≤ room

outcome_cases :
    {b : Buffer} (o : ReadOutcome)
    → IsValid b
    → length b.buffer + stack_buf_size ≤ max_size
    → ((bytes : List ℕ) → o ≡ received bytes → length bytes ≤ read_capacity b)
    → let after : Buffer = elim o [ read_error errno ↦ b | received bytes ↦ take_in b bytes ] in
      IsValid after × ReadAfter b o after
outcome_cases (read_error errno) v small obeys = (v, refl)
outcome_cases {b} (received bytes) v small obeys =
    take_in_appends bytes v (bound (obeys bytes refl))
  where
    bound : length bytes ≤ read_capacity b → b.write_index + length bytes ≤ max_size
    bound h = ground arith

-- `read_from_fd` on a valid buffer, with a kernel that stores no more than it is offered: the
-- buffer stays valid, an error leaves it alone, and received bytes are appended in order, also
-- where they spill over into the stack buffer.
read_from_fd_lem :
    {b : Buffer} (readv : ℕ → ReadOutcome)
    → ObeysCapacity readv
    → IsValid b
    → length b.buffer + stack_buf_size ≤ max_size
    → let (outcome, after) = read_from_fd readv b in IsValid after × ReadAfter b outcome after
unfolding read_from_fd
read_from_fd_lem {b} readv obeys v small =
    outcome_cases (readv (read_capacity b)) v small (obeys (read_capacity b))

abbrev pub WriteAfter : Buffer → WriteOutcome → Buffer → Type 0
WriteAfter b (write_error errno) after = after ≡ b
WriteAfter b (wrote n) after = contents after ≡ drop n (contents b)

flush_cases :
    {b : Buffer} (o : WriteOutcome)
    → IsValid b
    → let after : Buffer = elim o [ write_error errno ↦ b | wrote n ↦ maintain_read_index b n ] in
      IsValid after × WriteAfter b o after
flush_cases (write_error errno) v = (v, refl)
flush_cases {b} (wrote n) v = (maintain_read_index-IsValid n v, contents-maintain_read_index n v)

-- `write_to_fd` on a valid buffer offers the kernel exactly the readable bytes, keeps the buffer
-- valid, leaves it alone after an error, and drops as many bytes as the kernel took.
pub write_to_fd_lem :
    {b : Buffer} (write : List ℕ → WriteOutcome)
    → IsValid b
    → let (outcome, after) = write_to_fd write b in
      (outcome ≡ write (contents b)) × IsValid after × WriteAfter b outcome after
unfolding write_to_fd
write_to_fd_lem {b} write v =
    let (valid, after) = flush_cases (write (take (readable_bytes b) (readable_start_ptr b))) v in
    (ap (λ n. write (take n (readable_start_ptr b))) readable, valid, after)
  where
    readable : readable_bytes b ≡ b.write_index - b.read_index
    readable = omega arith

pub length-take_in :
    {b : Buffer} (bytes : List ℕ)
    → IsValid b
    → b.write_index + length bytes ≤ max_size
    → length (take_in b bytes).buffer ≤ length b.buffer + length bytes
unfolding take_in filled append_at_write_index
length-take_in {b} bytes v small = elim (Bool-cases (leb (length bytes) (writable_bytes b))) [
  | inl fits ↦ rw fits (omega (arith, length-copy_at b.buffer b.write_index bytes (ground arith)))
  | inr over ↦
      let spilled =
        length-write_to_buffer_le rest (append_at_write_index-IsValid first v room) small_rest in
      let moved =
        subst (λ m. length (write_to_buffer m rest).buffer ≤ length m.buffer + length rest)
          (sym (filled-eq-append bytes v (ground arith))) spilled in
      rw over (
        omega (
          arith,
          moved,
          length-drop (writable_bytes b) bytes,
          length-copy_at b.buffer b.write_index first room,
        ))
]
  where
    first : List ℕ
    first = take (writable_bytes b) bytes

    rest : List ℕ
    rest = drop (writable_bytes b) bytes

    room : b.write_index + length first ≤ length b.buffer
    room = omega (arith, length-take (writable_bytes b) bytes, v.ordered, v.inside, v.small)

    small_rest : add_size b.write_index (length first) + length rest ≤ max_size
    small_rest = omega (
      arith,
      length-take (writable_bytes b) bytes,
      length-drop (writable_bytes b) bytes,
      v.ordered,
      v.inside,
      v.small,
    )

pub buffer-write_to_fd :
    (b : Buffer) (write : List ℕ → WriteOutcome) → (write_to_fd write b).1.buffer ≡ b.buffer
unfolding write_to_fd
buffer-write_to_fd b write = flushed (write (take (readable_bytes b) (readable_start_ptr b)))
  where
    flushed :
        (o : WriteOutcome)
        → let after : Buffer = elim o [
          | write_error errno ↦ b
          | wrote n ↦ maintain_read_index b n
        ] in
          after.buffer ≡ b.buffer
    flushed (write_error errno) = refl
    flushed (wrote n) = buffer-maintain_read_index b n

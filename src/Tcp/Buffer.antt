-- ===== src/Tcp/Buffer.antt =====
-- src/tudou/tcp/Buffer.h and Buffer.cpp: the byte buffer between an fd and the application.
-- A byte is a number. The vector's storage is a list, an index into it a `size_t`; a pointer into
-- the storage is the list of the bytes from there on. `assert` and the log lines do nothing, as in
-- a release build, and an allocation does not fail.
pub mod Contents
pub mod Read
pub mod Append
pub mod Write
pub mod Fd
pub mod Queue
pub mod Tests
use tudou.Prelude.{
  ℕ, ◌+◌, ◌-◌, List, [], ◌∷◌, ◌++◌, ltb, leb, if◌then◌else◌, length, take, drop, replicate,
  add_size, sub_size,
}

pub record Buffer : Type 0 where
  pub buffer : List ℕ
  pub read_index : ℕ
  pub write_index : ℕ

abbrev pub cheap_prepend : ℕ
cheap_prepend = 8

abbrev pub initial_size : ℕ
initial_size = 1024

abbrev pub stack_buf_size : ℕ
stack_buf_size = 65536

-- `std::copy` or `memmove` of the bytes `src` to index `i` of `dst`.
unfoldable pub copy_at : List ℕ → ℕ → List ℕ → List ℕ
copy_at dst i src = take i dst ++ (src ++ drop (i + length src) dst)

-- `std::vector::resize`: new bytes are zero.
unfoldable pub resize : List ℕ → ℕ → List ℕ
resize xs n = take n xs ++ replicate (n - length xs) 0

unfoldable pub new_buffer : ℕ → Buffer
new_buffer size = record {
  buffer = replicate (cheap_prepend + size) 0;
  read_index = cheap_prepend;
  write_index = cheap_prepend;
}

abbrev pub readable_bytes : Buffer → ℕ
readable_bytes b = sub_size b.write_index b.read_index

abbrev pub writable_bytes : Buffer → ℕ
writable_bytes b = sub_size (length b.buffer) b.write_index

abbrev pub prependable_bytes : Buffer → ℕ
prependable_bytes b = b.read_index

abbrev pub readable_start_ptr : Buffer → List ℕ
readable_start_ptr b = drop b.read_index b.buffer

abbrev pub maintain_all_index : Buffer → Buffer
maintain_all_index b = record b { read_index = cheap_prepend; write_index = cheap_prepend }

unfoldable pub maintain_read_index : Buffer → ℕ → Buffer
maintain_read_index b len =
    if ltb len (readable_bytes b)
    then record b { read_index = add_size b.read_index len }
    else maintain_all_index b

-- The string and the buffer after the call.
unfoldable pub read_from_buffer : Buffer → ℕ → List ℕ × Buffer
read_from_buffer b len =
    let len' = if ltb (readable_bytes b) len then readable_bytes b else len in
    (take len' (readable_start_ptr b), maintain_read_index b len')

-- The overload with no argument.
unfoldable pub read_all : Buffer → List ℕ × Buffer
read_all b = read_from_buffer b (readable_bytes b)

unfoldable pub advance_read_index : Buffer → ℕ → Buffer
advance_read_index b len = maintain_read_index b len

unfoldable pub make_space : Buffer → ℕ → Buffer
make_space b len =
    if ltb (add_size (writable_bytes b) (prependable_bytes b)) (add_size len cheap_prepend)
    then record b { buffer = resize b.buffer (add_size b.write_index len) }
    else record {
      buffer = copy_at b.buffer cheap_prepend (take (readable_bytes b) (readable_start_ptr b));
      read_index = cheap_prepend;
      write_index = add_size cheap_prepend (readable_bytes b);
    }

-- The copy into the writable bytes, and the index moved behind it.
unfoldable pub append_at_write_index : Buffer → List ℕ → Buffer
append_at_write_index b bytes = record b {
  buffer = copy_at b.buffer b.write_index bytes;
  write_index = add_size b.write_index (length bytes);
}

-- The bytes stand for `data` and `len`; an empty list is also the null pointer.
unfoldable pub write_to_buffer : Buffer → List ℕ → Buffer
write_to_buffer b [] = b
write_to_buffer b (x ∷ bytes) =
    let len = length (x ∷ bytes) in
    append_at_write_index (if ltb (writable_bytes b) len then make_space b len else b) (x ∷ bytes)

-- What `readv` answers: an errno, or the bytes that it stored.
pub data ReadOutcome : Type 0 where
  read_error : ℕ → ReadOutcome
  received : List ℕ → ReadOutcome

-- What `write`, `writev` and `sendfile` answer: an errno, or the count of bytes taken.
pub data WriteOutcome : Type 0 where
  write_error : ℕ → WriteOutcome
  wrote : ℕ → WriteOutcome

-- `iov_len` of the entries that are handed to `readv`, added up.
abbrev pub read_capacity : Buffer → ℕ
read_capacity b =
    if ltb (writable_bytes b) stack_buf_size
    then writable_bytes b + stack_buf_size
    else writable_bytes b

-- `readv` fills the writable bytes first and the stack buffer with the rest.
unfoldable pub take_in : Buffer → List ℕ → Buffer
take_in b bytes =
    if leb (length bytes) (writable_bytes b)
    then append_at_write_index b bytes
    else write_to_buffer
        (record b {
          buffer = copy_at b.buffer b.write_index (take (writable_bytes b) bytes);
          write_index = length b.buffer;
        })
        (drop (writable_bytes b) bytes)

-- The kernel is a function of the room that it is offered.
unfoldable pub read_from_fd : (ℕ → ReadOutcome) → Buffer → ReadOutcome × Buffer
read_from_fd readv b =
    let outcome = readv (read_capacity b) in
    (outcome, elim outcome [ read_error errno ↦ b | received bytes ↦ take_in b bytes ])

-- The kernel is a function of the bytes that it is offered.
unfoldable pub write_to_fd : (List ℕ → WriteOutcome) → Buffer → WriteOutcome × Buffer
write_to_fd write b =
    let outcome = write (take (readable_bytes b) (readable_start_ptr b)) in
    (outcome, elim outcome [ write_error errno ↦ b | wrote n ↦ maintain_read_index b n ])

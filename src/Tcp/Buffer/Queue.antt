-- ===== src/Tcp/Buffer/Queue.antt =====
-- src/tudou/tcp/Buffer.h: the contract of the class as a queue of bytes, and the calls of a client.
use tudou.Prelude.{
  ℕ, ◌+◌, ◌≤◌, ◌≡◌, refl, ap, ap₂, ◌∙◌, List, [], ◌∷◌, ◌++◌, arith, length, take, drop,
}
use tudou.Tcp.Buffer.{
  Buffer, read_from_buffer, read_all, advance_read_index, write_to_buffer, write_to_fd, take_in,
  WriteOutcome, write_error, wrote, readable_bytes,
}
use tudou.Tcp.Buffer.Contents.{IsValid, contents, max_size}
use tudou.Tcp.Buffer.Read.{
  buffer-read_from_buffer, buffer-advance_read_index, read_from_buffer_lem, read_all_lem,
  advance_read_index_drops,
}
use tudou.Tcp.Buffer.Write.{write_to_buffer_appends, length-write_to_buffer_le}
use tudou.Tcp.Buffer.Fd.{
  take_in_appends, length-take_in, write_to_fd_lem, WriteAfter, buffer-write_to_fd,
}

-- What can be asked of a buffer. `fill` is a `readv` that stored the bytes, `flush` a `write` with
-- the kernel's answer to the bytes that it is offered.
pub data Call : Type 0 where
  put : List ℕ → Call
  get : ℕ → Call
  get_all : Call
  advance : ℕ → Call
  fill : List ℕ → Call
  flush : (List ℕ → WriteOutcome) → Call

-- What a call lets its caller see.
pub data Reply : Type 0 where
  nothing : Reply
  text : List ℕ → Reply
  outcome : WriteOutcome → Reply

pub step : Buffer → Call → Reply × Buffer
step b (put bytes) = (nothing, write_to_buffer b bytes)
step b (get n) = let (s, rest) = read_from_buffer b n in (text s, rest)
step b get_all = let (s, rest) = read_all b in (text s, rest)
step b (advance n) = (nothing, advance_read_index b n)
step b (fill bytes) = (nothing, take_in b bytes)
step b (flush write) = let (o, rest) = write_to_fd write b in (outcome o, rest)

pub run : Buffer → List Call → List Reply
run b [] = []
run b (c ∷ cs) = let (r, b') = step b c in r ∷ run b' cs

-- The same calls on a plain queue of bytes.
abbrev left_after : List ℕ → WriteOutcome → List ℕ
left_after q (write_error errno) = q
left_after q (wrote n) = drop n q

unfoldable pub queue_step : List ℕ → Call → Reply × List ℕ
queue_step q (put bytes) = (nothing, q ++ bytes)
queue_step q (get n) = (text (take n q), drop n q)
queue_step q get_all = (text q, [])
queue_step q (advance n) = (nothing, drop n q)
queue_step q (fill bytes) = (nothing, q ++ bytes)
queue_step q (flush write) = (outcome (write q), left_after q (write q))

unfoldable pub queue_run : List ℕ → List Call → List Reply
queue_run q [] = []
queue_run q (c ∷ cs) = let (r, q') = queue_step q c in r ∷ queue_run q' cs

-- The bytes that the calls bring in.
abbrev brought : Call → ℕ
brought (put bytes) = length bytes
brought (fill bytes) = length bytes
brought _ = 0

abbrev pub brought_by : List Call → ℕ
brought_by [] = 0
brought_by (c ∷ cs) = brought c + brought_by cs

-- One call does on the buffer what it does on the queue of its readable bytes.
record Refines (b : Buffer) (c : Call) : Type 0 where
  reply : (step b c).0 ≡ (queue_step (contents b) c).0
  rest : contents (step b c).1 ≡ (queue_step (contents b) c).1
  valid : IsValid (step b c).1
  storage : length (step b c).1.buffer ≤ length b.buffer + brought c

storage_kept : (xs ys : List ℕ) → ys ≡ xs → length ys ≤ length xs + 0
storage_kept xs ys e = omega (arith, ap length e)

step-Refines :
    {b : Buffer} (c : Call) → IsValid b → length b.buffer + brought c ≤ max_size → Refines b c
unfolding step queue_step
step-Refines {b} (put bytes) v small =
    let (valid, same) = write_to_buffer_appends bytes v (omega arith) in
    record {
      reply = refl;
      rest = same;
      valid = valid;
      storage = length-write_to_buffer_le bytes v (omega arith);
    }
step-Refines {b} (get n) v small =
    let (s, rest, valid) = read_from_buffer_lem n v in
    record {
      reply = ap text s;
      rest = rest;
      valid = valid;
      storage = storage_kept b.buffer _ (buffer-read_from_buffer b n);
    }
step-Refines {b} get_all v small =
    let (s, rest, valid) = read_all_lem v in
    record {
      reply = ap text s;
      rest = rest;
      valid = valid;
      storage =
          unfold read_all in
          storage_kept b.buffer (read_from_buffer b (readable_bytes b)).1.buffer
            (buffer-read_from_buffer b (readable_bytes b));
    }
step-Refines {b} (advance n) v small =
    let (valid, rest) = advance_read_index_drops n v in
    record {
      reply = refl;
      rest = rest;
      valid = valid;
      storage = storage_kept b.buffer _ (buffer-advance_read_index b n);
    }
step-Refines {b} (fill bytes) v small =
    let (valid, same) = take_in_appends bytes v (omega arith) in
    record {
      reply = refl;
      rest = same;
      valid = valid;
      storage = length-take_in bytes v (omega arith);
    }
step-Refines {b} (flush write) v small =
    let (answer, valid, after) = write_to_fd_lem write v in
    record {
      reply = ap outcome answer;
      rest = left (write_to_fd write b).0 _ after ∙ ap (left_after (contents b)) answer;
      valid = valid;
      storage = storage_kept b.buffer _ (buffer-write_to_fd b write);
    }
  where
    left :
        (o : WriteOutcome) (after : Buffer)
        → WriteAfter b o after
        → contents after ≡ left_after (contents b) o
    left (write_error errno) _ e = ap contents e
    left (wrote n) _ e = e

-- No sequence of calls whose bytes stay below the largest vector size can tell a valid buffer from
-- the plain queue of its readable bytes.
pub run_refines :
    (cs : List Call) {b : Buffer}
    → IsValid b
    → length b.buffer + brought_by cs ≤ max_size
    → run b cs ≡ queue_run (contents b) cs
unfolding run queue_run
run_refines [] {b} v small = refl
run_refines (c ∷ cs) {b} v small =
    let r = step-Refines c v (omega arith) in
    ap₂ ◌∷◌ r.reply
      (run_refines cs r.valid (omega (arith, r.storage)) ∙ ap (λ q. queue_run q cs) r.rest)

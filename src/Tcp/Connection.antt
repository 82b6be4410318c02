-- ===== src/Tcp/Connection.antt =====
-- src/tudou/tcp/TcpConnection.cpp, on the thread of the loop. The kernel and the files are
-- parameters. A callback of the client is an entry of `calls`: what it does to the connection comes
-- as later operations. `wire` has the bytes that the kernel has taken.
pub mod Outgoing
pub mod Send
pub mod Flush
pub mod File
pub mod Close
pub mod Threads
mod Tests
use tudou.Prelude.{
  ℕ, ◌+◌, ◌-◌, ◌*◌, Bool, true, false, not, ◌&&◌, List, [], ◌∷◌, ◌++◌, Option, none, some,
  if◌then◌else◌, length, take, drop, ltb, leb, ◌==◌, sub_size,
}
use tudou.Tcp.Buffer.{
  Buffer, new_buffer, initial_size, readable_bytes, readable_start_ptr, advance_read_index,
  write_to_buffer, read_all, ReadOutcome, read_error, received, WriteOutcome, write_error, wrote,
  read_from_fd, write_to_fd,
}

pub data Callback : Type 0 where
  message closed failed write_complete high_water : Callback

pub record PendingFileSend : Type 0 where
  pub file : ℕ
  pub offset : ℕ
  pub remaining : ℕ

-- `has_close` and the like tell whether the client has set the callback.
pub record TcpConnection : Type 0 where
  pub read_buffer : Buffer
  pub write_buffer : Buffer
  pub high_water_mark : ℕ
  pub pending_file : Option PendingFileSend
  pub is_reading : Bool
  pub is_writing : Bool
  pub is_closed : Bool
  pub has_close : Bool
  pub has_error : Bool
  pub has_write_complete : Bool
  pub has_high_water : Bool
  pub calls : List Callback
  pub wire : List ℕ

abbrev pub new_connection : TcpConnection
new_connection = record {
  read_buffer = new_buffer initial_size;
  write_buffer = new_buffer initial_size;
  high_water_mark = 64 * 1024 * 1024;
  pending_file = none;
  is_reading = true;
  is_writing = false;
  is_closed = false;
  has_close = false;
  has_error = false;
  has_write_complete = false;
  has_high_water = false;
  calls = [];
  wire = [];
}

abbrev pub handle_callback : Bool → Callback → TcpConnection → TcpConnection
handle_callback true callback c = record c { calls = c.calls ++ callback ∷ [] }
handle_callback false callback c = c

abbrev pub handle_write_complete : TcpConnection → TcpConnection
handle_write_complete c = handle_callback c.has_write_complete write_complete c

-- `close_connection` on a connection that is closed already or not.
abbrev pub close_unless : Bool → TcpConnection → TcpConnection
close_unless true c = c
close_unless false c =
    handle_callback c.has_close closed
      (record c { is_closed = true; is_reading = false; is_writing = false })

unfoldable pub close_connection : TcpConnection → TcpConnection
close_connection c = close_unless c.is_closed c

-- The way out of every error.
unfoldable pub fail : TcpConnection → TcpConnection
fail c = close_connection (handle_callback c.has_error failed c)

-- `EAGAIN`, which is `EWOULDBLOCK` on Linux.
abbrev pub is_retry : ℕ → Bool
is_retry errno = errno == 11

abbrev pub is_pending : Option PendingFileSend → Bool
is_pending none = false
is_pending (some f) = true

abbrev pub has_pending_file : TcpConnection → Bool
has_pending_file c = is_pending c.pending_file

-- The callback of the high-water mark is for the crossing only.
abbrev pub crosses : ℕ → TcpConnection → Bool
crosses old_len c =
    c.has_high_water
    && (ltb old_len c.high_water_mark && leb c.high_water_mark (readable_bytes c.write_buffer))

unfoldable pub cross : ℕ → TcpConnection → TcpConnection
cross old_len c = handle_callback (crosses old_len c) high_water c

abbrev pub queued : Buffer → List ℕ → ℕ → Buffer
queued b msg written = if ltb written (length msg) then write_to_buffer b (drop written msg) else b

-- The end of `send_in_loop`: what was not written goes to the buffer.
unfoldable pub queue : TcpConnection → ℕ → List ℕ → ℕ → TcpConnection
queue c old_len msg written =
    cross old_len (record c { write_buffer = queued c.write_buffer msg written; is_writing = true })

abbrev pub to_wire : List ℕ → TcpConnection → TcpConnection
to_wire bytes c = record c { wire = c.wire ++ bytes }

-- Nothing waits: `write` takes the new bytes themselves.
unfoldable pub send_directly : TcpConnection → List ℕ → WriteOutcome → TcpConnection
send_directly c msg (write_error errno) = if is_retry errno then queue c 0 msg 0 else fail c
send_directly c msg (wrote n) =
    if n == length msg
    then handle_write_complete (to_wire (take n msg) c)
    else queue (to_wire (take n msg) c) 0 msg n

-- `writev` takes the bytes that wait and the new ones.
unfoldable pub send_gathered : TcpConnection → ℕ → List ℕ → List ℕ → WriteOutcome → TcpConnection
send_gathered c old_len old msg (write_error errno) =
    if is_retry errno then queue c old_len msg 0 else fail c
send_gathered c old_len old msg (wrote n) =
    let c1 = to_wire (take n (old ++ msg)) c in
    if leb old_len n
    then (let c2 = record c1 { write_buffer = advance_read_index c.write_buffer old_len } in
        if n - old_len == length msg
        then handle_write_complete (record c2 { is_writing = false })
        else queue c2 old_len msg (n - old_len))
    else queue (record c1 { write_buffer = advance_read_index c.write_buffer n }) old_len msg 0

-- The three ways to send, behind `old_len` bytes `old` that wait.
abbrev pub send_now : (List ℕ → WriteOutcome) → TcpConnection → ℕ → List ℕ → List ℕ → TcpConnection
send_now write c old_len old msg =
    if (old_len == 0) && not c.is_writing
    then send_directly c msg (write msg)
    else if ltb 0 old_len
    then send_gathered c old_len old msg (write (old ++ msg))
    else queue c old_len msg 0

unfoldable pub send_in_loop : (List ℕ → WriteOutcome) → TcpConnection → List ℕ → TcpConnection
send_in_loop write c msg =
    let old_len = readable_bytes c.write_buffer in
    if c.is_closed
    then c
    else if has_pending_file c
    then fail c
    else send_now write c old_len (take old_len (readable_start_ptr c.write_buffer)) msg

unfoldable pub force_close_in_loop : TcpConnection → TcpConnection
force_close_in_loop c = close_connection c

unfoldable pub on_close : TcpConnection → TcpConnection
on_close c = close_connection c

unfoldable pub on_error : TcpConnection → TcpConnection
on_error c = fail c

unfoldable pub receive : TcpConnection → List ℕ × TcpConnection
receive c = let (bytes, rest) = read_all c.read_buffer in (bytes, record c { read_buffer = rest })

abbrev pub after_read : TcpConnection → ReadOutcome → TcpConnection
after_read c (read_error errno) = if is_retry errno then c else fail c
after_read c (received []) = close_connection c
after_read c (received (x ∷ bytes)) = handle_callback true message c

unfoldable pub on_read : (ℕ → ReadOutcome) → TcpConnection → TcpConnection
on_read readv c =
    let (outcome, b) = read_from_fd readv c.read_buffer in
    after_read (record c { read_buffer = b }) outcome

module _ (content : ℕ → List ℕ) (sendfile : ℕ → ℕ → ℕ → WriteOutcome) where
  -- A `sendfile` of `n` bytes moves the offset by `n`.
  unfoldable pub after_sendfile : TcpConnection → PendingFileSend → WriteOutcome → TcpConnection
  after_sendfile c f (write_error errno) =
      if is_retry errno then record c { is_writing = true } else fail c
  after_sendfile c f (wrote n) =
      let c1 = to_wire (take n (drop f.offset (content f.file))) c in
      let left = sub_size f.remaining n in
      if n == 0
      then record c { pending_file = none }
      else if left == 0
      then record c1 { pending_file = none }
      else record c1 {
        pending_file = some (record { file = f.file; offset = f.offset + n; remaining = left });
        is_writing = true;
      }

  abbrev pub send_pending : Option PendingFileSend → TcpConnection → TcpConnection
  send_pending none c = c
  send_pending (some f) c = after_sendfile c f (sendfile f.file f.offset f.remaining)

  unfoldable pub send_pending_file_in_loop : TcpConnection → TcpConnection
  send_pending_file_in_loop c = send_pending c.pending_file c

  -- The buffer is empty: the file goes on, and behind it the writing ends.
  unfoldable pub flush_file : TcpConnection → TcpConnection
  flush_file c =
      let c1 = send_pending_file_in_loop c in
      if has_pending_file c1 then c1 else handle_write_complete (record c1 { is_writing = false })

  unfoldable pub after_write : TcpConnection → List ℕ → WriteOutcome × Buffer → TcpConnection
  after_write c old (write_error errno, b) = if is_retry errno then c else fail c
  after_write c old (wrote n, b) =
      let c1 = record c { write_buffer = b; wire = c.wire ++ take n old } in
      if ltb 0 (readable_bytes b) then c1 else flush_file c1

  unfoldable pub on_write : (List ℕ → WriteOutcome) → TcpConnection → TcpConnection
  on_write write c =
      let old = take (readable_bytes c.write_buffer) (readable_start_ptr c.write_buffer) in
      if ltb 0 (readable_bytes c.write_buffer)
      then after_write c old (write_to_fd write c.write_buffer)
      else flush_file c

  module _ (is_regular_file : ℕ → Bool) where
    -- The checks of a file to be sent: it is there and valid, it is a regular file, and no other
    -- waits.
    abbrev pub accepts_file : TcpConnection → Option (ℕ × Bool) → Option ℕ
    accepts_file c none = none
    accepts_file c (some (fd, valid)) =
        if valid && (is_regular_file fd && not (has_pending_file c)) then some fd else none

    unfoldable pub send_file_in_loop : TcpConnection → Option (ℕ × Bool) → ℕ → ℕ → TcpConnection
    send_file_in_loop c file size offset =
        if c.is_closed then c else if size == 0 then c else elim (accepts_file c file) [
          | none ↦ fail c
          | some fd ↦
              let c1 = record c {
                pending_file = some (record { file = fd; offset = offset; remaining = size });
              } in
              if ltb 0 (readable_bytes c.write_buffer)
              then record c1 { is_writing = true }
              else if c.is_writing
              then c1
              else (let c2 = send_pending_file_in_loop c1 in
                  if has_pending_file c2 then c2 else handle_write_complete c2)
        ]

    unfoldable pub send_file_with_header_in_loop :
        (List ℕ → WriteOutcome) → TcpConnection → List ℕ → Option (ℕ × Bool) → ℕ → ℕ → TcpConnection
    send_file_with_header_in_loop write c header file size offset =
        if c.is_closed
        then c
        else if size == 0
        then send_in_loop write c header
        else elim (accepts_file c file) [
          | none ↦ fail c
          | some fd ↦ cross (readable_bytes c.write_buffer) (record c {
            write_buffer = write_to_buffer c.write_buffer header;
            pending_file = some (record { file = fd; offset = offset; remaining = size });
            is_writing = true;
          })
        ]

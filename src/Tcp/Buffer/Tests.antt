-- ===== src/Tcp/Buffer/Tests.antt =====
-- Tcp/Buffer at concrete inputs.
use tudou.Prelude.{◌≡◌, refl, [], ◌∷◌, arith}
use tudou.Tcp.Buffer.{Buffer, write_to_buffer, make_space, append_at_write_index, wrote}
use tudou.Tcp.Buffer.Contents.{IsValid}
use tudou.Tcp.Buffer.Queue.{run_refines, run, queue_run, put, get, get_all, flush}

-- Two bytes consumed, two readable, two writable.
abbrev pub half_used : Buffer
half_used = record {
  buffer = 0 ∷ 0 ∷ 0 ∷ 0 ∷ 0 ∷ 0 ∷ 0 ∷ 0 ∷ 1 ∷ 2 ∷ 3 ∷ 4 ∷ 0 ∷ 0 ∷ [];
  read_index = 10;
  write_index = 12;
}

pub half_used-IsValid : IsValid half_used
half_used-IsValid = omega arith

-- The consumed bytes are used again before the storage grows.
write_moves_down : (write_to_buffer half_used (5 ∷ 6 ∷ 7 ∷ 8 ∷ [])).read_index ≡ 8
unfolding write_to_buffer make_space append_at_write_index
write_moves_down = refl

run_refines_example :
    run half_used (put (5 ∷ 6 ∷ 7 ∷ []) ∷ get 2 ∷ flush (λ offered. wrote 1) ∷ get_all ∷ [])
    ≡ queue_run
        (3 ∷ 4 ∷ [])
        (put (5 ∷ 6 ∷ 7 ∷ []) ∷ get 2 ∷ flush (λ offered. wrote 1) ∷ get_all ∷ [])
run_refines_example =
    run_refines (put (5 ∷ 6 ∷ 7 ∷ []) ∷ get 2 ∷ flush (λ offered. wrote 1) ∷ get_all ∷ [])
      half_used-IsValid (omega arith)

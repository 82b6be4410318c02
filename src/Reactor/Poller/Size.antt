-- ===== src/Reactor/Poller/Size.antt =====
-- src/tudou/reactor/EpollPoller.cpp: the size of the event list.
use tudou.Prelude.{ℕ, ◌*◌, ◌≤◌, ◌<◌, ◌≡◌, ◌&&◌, arith, Bool-cases, inl, inr, ltb, leb}
use tudou.Reactor.Poller.{resize_event_list, init_event_list_size}

-- The event list has room for eight events at least, if it had, and grows whenever it was full. But
-- one that shrinks goes to the initial size or below, however large it was.
pub resize_event_list_lem :
    (size num_ready : ℕ)
    → 8 ≤ size
    → num_ready ≤ size
    → let size' = resize_event_list size num_ready in
      (8 ≤ size')
      × (num_ready ≡ size → size < size')
      × (size' < size → size' ≤ init_event_list_size)
unfolding resize_event_list
resize_event_list_lem size num_ready room few =
    elim (Bool-cases (leb (9 * size) (10 * num_ready))) [
      | inl full ↦
          let f : 9 * size ≤ 10 * num_ready = ground arith in
          rw full (omega (arith, f), λ e. omega (arith, f), λ h. absurd (omega (arith, h, room)))
      | inr part ↦ elim (Bool-cases (ltb init_event_list_size size && leb (4 * num_ready) size)) [
        | inl idle ↦
            let f : 10 * num_ready < 9 * size = ground arith in
            let large : init_event_list_size < size = ground arith in
            rw (part, idle)
              (omega (arith, large), λ e. absurd (omega (arith, e, f, room)), λ h. omega arith)
        | inr busy ↦
            let f : 10 * num_ready < 9 * size = ground arith in
            rw (part, busy)
              (room, λ e. absurd (omega (arith, e, f, room)), λ h. absurd (omega (arith, h)))
      ]
    ]

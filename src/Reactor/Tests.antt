-- ===== src/Reactor/Tests.antt =====
-- Reactor/Channel and Reactor/Poller at concrete inputs.
use tudou.Prelude.{ℕ, ◌≤◌, ◌<◌, ◌≡◌, refl, true, ◌&&◌, [], ◌∷◌, some, arith}
use tudou.Reactor.Channel.{
  Channel, none_event, new_channel, EventCallback, read, close, error, handle_events,
  handle_events_with_guard,
}
use tudou.Reactor.Channel.Order.{times, once_if, ascends, wanted, handle_events_lem}
use tudou.Reactor.Poller.{resize_event_list, init_event_list_size}
use tudou.Reactor.Poller.Size.{resize_event_list_lem}

-- An error and bytes to read at once.
abbrev broken : Channel
broken = record (new_channel 7) {
  revents = record none_event { readable = true; error = true };
  has_error = true;
  has_close = true;
}

read_behind_error : handle_events broken ≡ error ∷ read ∷ []
unfolding handle_events handle_events_with_guard
read_behind_error = refl

-- The owner is alive, the other end has hung up, and there is nothing to read.
abbrev hung_up_alone : Channel
hung_up_alone = record broken {
  revents = record none_event { hung_up = true; error = true; writable = true };
  has_write = true;
  tie = some true;
}

handle_events_lem_example :
    ((k : EventCallback)
      → times k (handle_events hung_up_alone) ≡ once_if (true && wanted hung_up_alone k))
    × (ascends (handle_events hung_up_alone) ≡ true)
handle_events_lem_example = handle_events_lem hung_up_alone

closes_only : handle_events hung_up_alone ≡ close ∷ []
unfolding handle_events handle_events_with_guard
closes_only = refl

shrinks_below_the_start : resize_event_list 24 0 ≡ 12
unfolding resize_event_list
shrinks_below_the_start = refl

resize_event_list_lem_example :
    let few : ℕ = 3 in
    let size = resize_event_list 1000 few in
    (8 ≤ size) × (few ≡ 1000 → 1000 < size) × (size < 1000 → size ≤ init_event_list_size)
resize_event_list_lem_example = resize_event_list_lem 1000 3 (omega arith) (omega arith)

-- ===== src/Reactor/Poller.antt =====
-- src/tudou/reactor/EpollPoller.cpp: the channels by fd, what the kernel watches, and the list that
-- `epoll_wait` fills. A channel is known by its fd; `epoll_ctl` succeeds, as the asserts demand.
pub mod Sync
pub mod Size
use tudou.Prelude.{
  ℕ, ◌*◌, ◌/◌, Bool, true, false, ◌&&◌, List, [], ◌∷◌, map, Option, none, some, if◌then◌else◌,
  length, take, ltb, leb, min, lookup, insert, erase, number_eq,
}
use tudou.Reactor.Channel.{Channel, Events, set_revents}

abbrev pub init_event_list_size : ℕ
init_event_list_size = 16

-- `watched` is the interest list of the kernel.
pub record EpollPoller : Type 0 where
  pub channels : List (ℕ × Channel)
  pub watched : List (ℕ × Events)
  pub event_list_size : ℕ
  pub active_channels : List ℕ

abbrev pub new_poller : EpollPoller
new_poller = record {
  channels = [];
  watched = [];
  event_list_size = init_event_list_size;
  active_channels = [];
}

abbrev pub has_entry {ℓ} : {V : Type ℓ} → Option V → Bool
has_entry none = false
has_entry (some v) = true

-- ADD or MOD: either sets what the kernel watches for. The table has pointers, and here the channels
-- that they point to, as they are now.
unfoldable pub update_channel : EpollPoller → Channel → EpollPoller
update_channel p c = record p {
  watched = insert c.fd c.events p.watched;
  channels = insert c.fd c p.channels;
}

unfoldable pub remove_channel : EpollPoller → Channel → EpollPoller
remove_channel p c = record p { watched = erase c.fd p.watched; channels = erase c.fd p.channels }

abbrev pub has_channel : EpollPoller → Channel → Bool
has_channel p c = has_entry (lookup c.fd p.channels)

-- The events that `epoll_wait` reports, as many as the list has room for: an error reports none.
abbrev pub ready_events : EpollPoller → Option (List (ℕ × Events)) → List (ℕ × Events)
ready_events p none = []
ready_events p (some events) = take p.event_list_size events

abbrev pub fds : List (ℕ × Events) → List ℕ
fds [] = []
fds ((fd, events) ∷ ready) = fd ∷ fds ready

-- `set_revents` on the channel of an fd.
abbrev pub mark : ℕ → Events → List (ℕ × Channel) → List (ℕ × Channel)
mark fd events channels = elim (lookup fd channels) [
  | none ↦ channels
  | some c ↦ insert fd (set_revents c events) channels
]

unfoldable pub mark_all : List (ℕ × Events) → List (ℕ × Channel) → List (ℕ × Channel)
mark_all [] channels = channels
mark_all ((fd, events) ∷ ready) channels = mark_all ready (mark fd events channels)

unfoldable pub collect_active_channels : EpollPoller → List (ℕ × Events) → EpollPoller
collect_active_channels p ready = record p {
  active_channels = fds ready;
  channels = mark_all ready p.channels;
}

-- The load factors 0.9 and 0.25 and the ratios 1.5 and 0.5 in whole numbers.
unfoldable pub resize_event_list : ℕ → ℕ → ℕ
resize_event_list size num_ready =
    if leb (9 * size) (10 * num_ready)
    then size * 3 / 2
    else if ltb init_event_list_size size && leb (4 * num_ready) size
    then min init_event_list_size (size / 2)
    else size

unfoldable pub poll : EpollPoller → Option (List (ℕ × Events)) → EpollPoller
poll p events =
    let ready = ready_events p events in
    let collected = collect_active_channels p ready in
    record collected { event_list_size = resize_event_list p.event_list_size (length ready) }

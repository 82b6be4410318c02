-- ===== src/Reactor/Channel.antt =====
-- src/tudou/reactor/Channel.cpp: the events of an fd, and the order of their callbacks.
pub mod Order
use tudou.Prelude.{
  ℕ, Bool, true, false, not, ◌&&◌, ◌||◌, List, [], ◌∷◌, ◌++◌, Option, none, some, if◌then◌else◌,
}

-- The bits of an event mask: EPOLLIN, EPOLLPRI, EPOLLOUT, EPOLLERR and EPOLLHUP.
pub record Events : Type 0 where
  pub readable : Bool
  pub urgent : Bool
  pub writable : Bool
  pub error : Bool
  pub hung_up : Bool

abbrev pub none_event : Events
none_event = record {
  readable = false;
  urgent = false;
  writable = false;
  error = false;
  hung_up = false;
}

-- `tie` is the owner, if there is one, and whether it is still alive.
pub record Channel : Type 0 where
  pub fd : ℕ
  pub events : Events
  pub revents : Events
  pub tie : Option Bool
  pub has_write : Bool
  pub has_close : Bool
  pub has_error : Bool

abbrev pub new_channel : ℕ → Channel
new_channel fd = record {
  fd = fd;
  events = none_event;
  revents = none_event;
  tie = none;
  has_write = false;
  has_close = false;
  has_error = false;
}

pub data EventCallback : Type 0 where
  read write close error : EventCallback

unfoldable pub enable_reading : Channel → Channel
enable_reading c = record c { events = record c.events { readable = true; urgent = true } }

unfoldable pub enable_writing : Channel → Channel
enable_writing c = record c { events = record c.events { writable = true } }

unfoldable pub disable_reading : Channel → Channel
disable_reading c = record c { events = record c.events { readable = false; urgent = false } }

unfoldable pub disable_writing : Channel → Channel
disable_writing c = record c { events = record c.events { writable = false } }

unfoldable pub disable_all : Channel → Channel
disable_all c = record c { events = none_event }

abbrev pub is_writing : Channel → Bool
is_writing c = c.events.writable

abbrev pub is_reading : Channel → Bool
is_reading c = c.events.readable || c.events.urgent

abbrev pub set_revents : Channel → Events → Channel
set_revents c revents = record c { revents = revents }

-- A callback that is not set is passed over; that of reading is always set.
abbrev pub callback_if : Bool → EventCallback → List EventCallback
callback_if true callback = callback ∷ []
callback_if false callback = []

unfoldable pub handle_events_with_guard : Channel → List EventCallback
handle_events_with_guard c =
    if c.revents.hung_up && not c.revents.readable
    then callback_if c.has_close close
    else callback_if (c.revents.error && c.has_error) error
      ++ (callback_if (c.revents.readable || c.revents.urgent) read
          ++ callback_if (c.revents.writable && c.has_write) write)

-- A channel that is tied to an owner runs nothing when the owner is gone.
abbrev pub if_alive : Option Bool → List EventCallback → List EventCallback
if_alive none callbacks = callbacks
if_alive (some true) callbacks = callbacks
if_alive (some false) callbacks = []

-- The callbacks that are run, in order.
unfoldable pub handle_events : Channel → List EventCallback
handle_events c = if_alive c.tie (handle_events_with_guard c)

-- ===== src/Reactor/Poller/Sync.antt =====
-- src/tudou/reactor/EpollPoller.cpp: the table and the interest list of the kernel.
use tudou.Prelude.{ℕ, ◌≡◌, refl, List, [], ◌∷◌, Option, lookup, number_eq}
use tudou.Reactor.Channel.{Channel, Events}
use tudou.Reactor.Poller.{EpollPoller, new_poller, has_entry, update_channel, remove_channel, poll}

pub data Operation : Type 0 where
  updates removes : Channel → Operation
  polls : Option (List (ℕ × Events)) → Operation

abbrev pub operate : EpollPoller → Operation → EpollPoller
operate p (updates c) = update_channel p c
operate p (removes c) = remove_channel p c
operate p (polls events) = poll p events

abbrev pub operations : EpollPoller → List Operation → EpollPoller
operations p [] = p
operations p (op ∷ ops) = operations (operate p op) ops

-- The kernel watches exactly the fds that the table has.
pub record InStep (p : EpollPoller) : Type 0 where
  pub same : (fd : ℕ) → has_entry (lookup fd p.watched) ≡ has_entry (lookup fd p.channels)

pub new_poller-InStep : InStep new_poller
unfolding lookup
new_poller-InStep = record { same = λ fd. refl }

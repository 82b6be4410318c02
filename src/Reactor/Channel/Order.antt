-- ===== src/Reactor/Channel/Order.antt =====
-- src/tudou/reactor/Channel.cpp: which callbacks run, how often and in which order.
use tudou.Prelude.{
  ℕ, ◌+◌, ◌≡◌, refl, ap, ◌∙◌, Bool, true, false, not, ◌&&◌, ◌||◌, List, [], ◌∷◌, ◌++◌, Option, none,
  some, arith, if◌then◌else◌, ltb,
}
use tudou.Reactor.Channel.{
  Channel, EventCallback, read, write, close, error, handle_events, handle_events_with_guard,
  callback_if, if_alive,
}

-- The place of a callback when several run.
abbrev pub place : EventCallback → ℕ
place error = 0
place read = 1
place write = 2
place close = 3

abbrev pub once_if : Bool → ℕ
once_if true = 1
once_if false = 0

abbrev pub is_callback : EventCallback → EventCallback → Bool
is_callback k j = not (ltb (place k) (place j)) && not (ltb (place j) (place k))

-- How often a callback runs.
abbrev pub times : EventCallback → List EventCallback → ℕ
times k [] = 0
times k (j ∷ js) = once_if (is_callback k j) + times k js

-- Each callback is before those of a higher place.
abbrev pub ascends : List EventCallback → Bool
ascends [] = true
ascends (j ∷ []) = true
ascends (j ∷ (k ∷ ks)) = ltb (place j) (place k) && ascends (k ∷ ks)

abbrev pub is_alive : Option Bool → Bool
is_alive none = true
is_alive (some alive) = alive

-- Only a hang-up with nothing to read closes.
abbrev pub is_close_only : Channel → Bool
is_close_only c = c.revents.hung_up && not c.revents.readable

-- Whether the events ask for a callback, and it is set.
abbrev pub wanted : Channel → EventCallback → Bool
wanted c read = (c.revents.readable || c.revents.urgent) && not (is_close_only c)
wanted c write = (c.revents.writable && c.has_write) && not (is_close_only c)
wanted c error = (c.revents.error && c.has_error) && not (is_close_only c)
wanted c close = c.has_close && is_close_only c

-- Which callback stands for which of three flags.
abbrev chosen : Bool → Bool → Bool → EventCallback → Bool
chosen x y z error = x
chosen x y z read = y
chosen x y z write = z
chosen x y z close = false

abbrev three : Bool → Bool → Bool → List EventCallback
three x y z = callback_if x error ++ (callback_if y read ++ callback_if z write)

times-three : (x y z : Bool) (k : EventCallback) → times k (three x y z) ≡ once_if (chosen x y z k)
times-three x y z read = ground arith
times-three x y z write = ground arith
times-three x y z close = ground arith
times-three x y z error = ground arith

ascends-three : (x y z : Bool) → ascends (three x y z) ≡ true
ascends-three true true true = refl
ascends-three true true false = refl
ascends-three true false true = refl
ascends-three true false false = refl
ascends-three false true true = refl
ascends-three false true false = refl
ascends-three false false true = refl
ascends-three false false false = refl

-- A list of callbacks is what a choice among them asks for.
abbrev RunsAs : List EventCallback → (EventCallback → Bool) → Type 0
RunsAs cs chosen_callbacks =
    ((k : EventCallback) → times k cs ≡ once_if (chosen_callbacks k)) × (ascends cs ≡ true)

-- What runs without an owner, with the close callback only or with the other three.
guarded_lem :
    (c : Channel) (only : Bool)
    → is_close_only c ≡ only
    → RunsAs
        (if only
          then callback_if c.has_close close
          else three
              (c.revents.error && c.has_error)
              (c.revents.readable || c.revents.urgent)
              (c.revents.writable && c.has_write))
        (wanted c)
guarded_lem c true e = (counts, ascending c.has_close)
  where
    counts : (k : EventCallback) → times k (callback_if c.has_close close) ≡ once_if (wanted c k)
    counts read = ground (arith, e)
    counts write = ground (arith, e)
    counts close = ground (arith, e)
    counts error = ground (arith, e)

    ascending : (set : Bool) → ascends (callback_if set close) ≡ true
    ascending true = refl
    ascending false = refl
guarded_lem c false e = (λ k. times-three _ _ _ k ∙ ap once_if (asked k), ascends-three _ _ _)
  where
    asked :
        (k : EventCallback)
        → chosen
            (c.revents.error && c.has_error)
            (c.revents.readable || c.revents.urgent)
            (c.revents.writable && c.has_write)
            k
          ≡ wanted c k
    asked read = ground (arith, e)
    asked write = ground (arith, e)
    asked close = ground (arith, e)
    asked error = ground (arith, e)

-- Each callback runs once if the events ask for it, it is set and the owner is not gone, and not
-- otherwise; those that run do so in the order error, read, write. A hang-up with nothing to read
-- asks for the close callback and for no other. In every other case an error asks for the error
-- callback, a readable or urgent event for that of reading, also with an error, and a writable event
-- for that of writing, and nothing asks for the close callback.
pub handle_events_lem :
    (c : Channel)
    → ((k : EventCallback) → times k (handle_events c) ≡ once_if (is_alive c.tie && wanted c k))
      × (ascends (handle_events c) ≡ true)
unfolding handle_events handle_events_with_guard
handle_events_lem c = tied c.tie
  where
    tied :
        (t : Option Bool)
        → RunsAs (if_alive t (handle_events_with_guard c)) (λ k. is_alive t && wanted c k)
    tied none = guarded_lem c (is_close_only c) refl
    tied (some true) = guarded_lem c (is_close_only c) refl
    tied (some false) = ((λ k. refl), refl)

-- ===== src/Timer/Queue/Live.antt =====
-- src/tudou/timer/TimerQueue.cpp: any sequence of calls and timerfd events.
use tudou.Prelude.{
  ℕ, suc, ◌+◌, ◌-◌, ◌≤◌, ◌<◌, ◌≡◌, refl, ◌∙◌, sym, inl, inr, Bool, List, [], ◌∷◌, Option, none,
  some, arith, if◌then◌else◌, ◌==◌, ==_iff, ==_refl, Bool-cases, Option-cases, lookup, number_eq,
}
use tudou.Timer.Queue.{
  Timer, TimerQueue, Command, add, remove, arm, sync_timerfd, add_timer, erase_timer, command,
  commands, run_callback, after_run, run_timer, run_expired, on_timerfd_read, to_timespec, collect,
  is_repeat,
}
use tudou.Timer.Queue.Entries.{time_of, IsOrdered}
use tudou.Timer.Queue.Valid.{IsValid, Valid-add_timer, Valid-erase_timer, on_timerfd_read-IsValid}
use tudou.Timer.Queue.Expires.{expires, expires-insert, expires-erase, expires_lem}
use tudou.Timer.Queue.Runs.{count, count-snoc}

-- What the thread of the loop does with the queue.
pub data Event : Type 0 where
  asks : Command → Event
  fires : Event

-- The timerfd is set for the earliest time, by a reading `k` of the clock, or not at all if there
-- is no timer.
pub data Arms (now : ℕ → ℕ) (q : TimerQueue) : Type 0 where
  off : ((j : ℕ) → expires j q.timers_by_id ≡ none) → q.armed ≡ none → Arms now q
  on :
      (i t k : ℕ)
      → expires i q.timers_by_id ≡ some t
      → ((j u : ℕ) → expires j q.timers_by_id ≡ some u → t ≤ u)
      → q.armed ≡ some (to_timespec (t - now k))
      → q.reads ≡ suc k
      → Arms now q

-- The timer `i` is cancelled, or done, and has run `n` times.
record Gone (i n : ℕ) (q : TimerQueue) : Type 0 where
  used : i < q.next_timer_id
  missing : expires i q.timers_by_id ≡ none
  runs : count i q.ran ≡ n

module _ (address now : ℕ → ℕ) where
  pub sync_timerfd-Arms : (q : TimerQueue) → IsValid q → Arms now (sync_timerfd address now q)
  unfolding sync_timerfd
  sync_timerfd-Arms q v = go q.expire_set v.ordered v.same
    where
      first :
          {t u : ℕ} {o : Option ℕ} (b : Bool)
          → (o ≡ some u → t ≤ u)
          → (if b then some t else o) ≡ some u
          → t ≤ u
      first b f e = ground arith

      go :
          (s : List (ℕ × ℕ))
          → IsOrdered s
          → ((j : ℕ) → time_of j s ≡ expires j q.timers_by_id)
          → Arms now (arm address now s q)
      go [] o same = off (λ j. sym (same j) ∙ unfold time_of in refl) refl
      go ((t, i) ∷ s) o same =
          on i t q.reads (sym (same i) ∙ unfold time_of in rw (==_refl i) refl)
            (λ j u e. first (i == j) (o.0 j u) (unfold time_of in same j ∙ e)) refl refl

  IsValid-sync_timerfd : (q : TimerQueue) → IsValid (sync_timerfd address now q) → IsValid q
  unfolding sync_timerfd
  IsValid-sync_timerfd q = go q.expire_set
    where
      go : (s : List (ℕ × ℕ)) → IsValid (arm address now s q) → IsValid q
      go [] v = record { ordered = v.ordered; same = v.same; fresh = v.fresh; old = v.old }
      go (e ∷ s) v = record { ordered = v.ordered; same = v.same; fresh = v.fresh; old = v.old }

  Gone-sync_timerfd :
      {i n : ℕ} (q : TimerQueue) → Gone i n q → Gone i n (sync_timerfd address now q)
  unfolding sync_timerfd
  Gone-sync_timerfd {i} {n} q g = go q.expire_set
    where
      go : (s : List (ℕ × ℕ)) → Gone i n (arm address now s q)
      go [] = record { used = g.used; missing = g.missing; runs = g.runs }
      go (e ∷ s) = record { used = g.used; missing = g.missing; runs = g.runs }

  Gone-command :
      {i n : ℕ} (q : TimerQueue) (c : Command) → Gone i n q → Gone i n (command address now q c)
  unfolding command add_timer erase_timer
  Gone-command {i} q (add callback when interval) g = Gone-sync_timerfd _ (record {
    used = omega (arith, g.used);
    missing = ground (
      arith,
      g.used,
      g.missing,
      expires-insert q.next_timer_id i
          (record { callback = callback; expiration = when; interval = interval }) q.timers_by_id,
    );
    runs = g.runs;
  })
  Gone-command {i} q (remove id) g = elim (Option-cases (lookup id q.timers_by_id)) [
    | inl e ↦ rw (erase_timer, e) (Gone-sync_timerfd q g)
    | inr (timer, e) ↦
        rw (erase_timer, e)
          (Gone-sync_timerfd _ (record {
            used = g.used;
            missing = ground (arith, g.missing, expires-erase id i q.timers_by_id);
            runs = g.runs;
          }))
  ]

  Gone-commands :
      {i n : ℕ} (cs : List Command) {q : TimerQueue}
      → Gone i n q
      → Gone i n (commands address now q cs)
  Gone-commands [] g = g
  Gone-commands (c ∷ cs) {q} g = Gone-commands cs (Gone-command q c g)

  Gone-after_run :
      {i n : ℕ} (q : TimerQueue) (id : ℕ) (timer : Timer)
      → Gone i n q
      → Gone i n (after_run address now q id timer)
  unfolding after_run
  Gone-after_run {i} {n} q id timer g = elim (Option-cases (lookup id q.timers_by_id)) [
    | inl e ↦ rw (after_run, e) g
    | inr (old, e) ↦ elim (Bool-cases (is_repeat timer)) [
      | inl r ↦
          rw (after_run, e, r)
            (record {
              used = g.used;
              missing = ground (
                arith,
                g.missing,
                expires_lem id q.timers_by_id e,
                ==_iff id i,
                expires-insert id i (record timer { expiration = now q.reads + timer.interval })
                    q.timers_by_id,
              );
              runs = g.runs;
            })
      | inr r ↦
          rw (after_run, e, r)
            (record {
              used = g.used;
              missing = ground (arith, g.missing, expires-erase id i q.timers_by_id);
              runs = g.runs;
            })
    ]
  ]

  module _ (calls : ℕ → TimerQueue → List Command) where
    Gone-run_callback :
        {i n : ℕ} (q : TimerQueue) (callback : Option ℕ)
        → Gone i n q
        → Gone i n (run_callback address now calls q callback)
    unfolding run_callback
    Gone-run_callback q none g = g
    Gone-run_callback q (some callback) g = Gone-commands (calls callback q) g

    Gone-run_timer :
        {i n : ℕ} (q : TimerQueue) (id : ℕ)
        → Gone i n q
        → Gone i n (run_timer address now calls q id)
    unfolding run_timer
    Gone-run_timer {i} q id g = elim (Option-cases (lookup id q.timers_by_id)) [
      | inl e ↦ rw (run_timer, e) g
      | inr (timer, e) ↦
          rw (run_timer, e)
            (Gone-after_run _ id timer (
              Gone-run_callback _ timer.callback (record {
                used = g.used;
                missing = g.missing;
                runs = ground (
                  arith,
                  g.runs,
                  g.missing,
                  expires_lem id q.timers_by_id e,
                  ==_iff id i,
                  count-snoc i id q.ran,
                );
              })))
    ]

    Gone-run_expired :
        {i n : ℕ} (ids : List ℕ) {q : TimerQueue}
        → Gone i n q
        → Gone i n (run_expired address now calls q ids)
    unfolding run_expired
    Gone-run_expired [] g = g
    Gone-run_expired (id ∷ ids) {q} g = Gone-run_expired ids (Gone-run_timer q id g)

    abbrev pub event : TimerQueue → Event → TimerQueue
    event q (asks c) = command address now q c
    event q fires = on_timerfd_read address now calls q

    abbrev pub events : TimerQueue → List Event → TimerQueue
    events q [] = q
    events q (e ∷ es) = events (event q e) es

    event-IsValid : (q : TimerQueue) (e : Event) → IsValid q → IsValid (event q e)
    unfolding command
    event-IsValid q (asks (add callback when interval)) v =
        Valid-add_timer address now q callback when interval v
    event-IsValid q (asks (remove id)) v = Valid-erase_timer address now q id v
    event-IsValid q fires v = on_timerfd_read-IsValid address now calls q v

    -- Any sequence of calls and timerfd events, with callbacks that may do both, keeps the two indices
    -- of the timers in agreement and the set in order.
    pub events-IsValid : (es : List Event) {q : TimerQueue} → IsValid q → IsValid (events q es)
    events-IsValid [] v = v
    events-IsValid (e ∷ es) {q} v = events-IsValid es (event-IsValid q e v)

    Gone-event : {i n : ℕ} (q : TimerQueue) (e : Event) → Gone i n q → Gone i n (event q e)
    unfolding on_timerfd_read
    Gone-event q (asks c) g = Gone-command q c g
    Gone-event q fires g = Gone-sync_timerfd _ (
        Gone-run_expired (collect (now q.reads) q.expire_set).0
          (record { used = g.used; missing = g.missing; runs = g.runs }))

    Gone-events : {i n : ℕ} (es : List Event) {q : TimerQueue} → Gone i n q → Gone i n (events q es)
    Gone-events [] g = g
    Gone-events (e ∷ es) {q} g = Gone-events es (Gone-event q e g)

    -- A timer that has been cancelled never runs again, whatever is asked of the queue later and
    -- whatever the callbacks do. Its id was handed out before.
    pub erased_never_runs :
        (q : TimerQueue) (i : ℕ) (es : List Event)
        → i < q.next_timer_id
        → count i (events (erase_timer address now q i) es).ran ≡ count i q.ran
    unfolding erase_timer
    erased_never_runs q i es used = (Gone-events es gone).runs
      where
        gone : Gone i (count i q.ran) (erase_timer address now q i)
        gone = elim (Option-cases (lookup i q.timers_by_id)) [
          | inl e ↦
              rw (erase_timer, e)
                (Gone-sync_timerfd q
                  (record { used = used; missing = expires_lem i q.timers_by_id e; runs = refl }))
          | inr (timer, e) ↦
              rw (erase_timer, e)
                (Gone-sync_timerfd _ (record {
                  used = used;
                  missing = ground (arith, ==_refl i, expires-erase i i q.timers_by_id);
                  runs = refl;
                }))
        ]

    -- After any sequence of calls and events, and whatever the callbacks do, the timerfd is set for
    -- the earliest of the timers by the last reading of the clock, and is off if there is none.
    pub events-Arms :
        (es : List Event) (e : Event) {q : TimerQueue}
        → IsValid q
        → Arms now (events (event q e) es)
    unfolding command add_timer erase_timer on_timerfd_read
    events-Arms [] (asks (add callback when interval)) {q} v =
        sync_timerfd-Arms _
          (IsValid-sync_timerfd _ (Valid-add_timer address now q callback when interval v))
    events-Arms [] (asks (remove id)) {q} v =
        sync_timerfd-Arms _ (IsValid-sync_timerfd _ (Valid-erase_timer address now q id v))
    events-Arms [] fires {q} v =
        sync_timerfd-Arms _ (IsValid-sync_timerfd _ (on_timerfd_read-IsValid address now calls q v))
    events-Arms (e' ∷ es) e {q} v = events-Arms es e' (event-IsValid q e v)

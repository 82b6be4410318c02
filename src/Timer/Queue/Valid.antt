-- ===== src/Timer/Queue/Valid.antt =====
-- src/tudou/timer/TimerQueue.cpp: the two indices of the timers hold the same timers.
use tudou.Prelude.{
  ℕ, suc, ◌+◌, ◌≤◌, ◌<◌, ◌≡◌, refl, ap, ◌∙◌, inl, inr, Bool, true, false, List, [], ◌∷◌, Option,
  none, some, arith, if◌then◌else◌, ltb, ==_iff, ==_refl, Bool-cases, Option-cases, lookup, insert,
  erase, number_eq, not, max, ◌*◌,
}
use Prim.{tt}
use tudou.Timer.Queue.{
  Timer, TimerQueue, new_queue, Command, add, remove, is_repeat, set_insert, arm, sync_timerfd,
  add_timer, erase_timer, command, commands, run_callback, after_run, run_timer, run_expired,
  collect, on_timerfd_read, to_timespec,
}
use tudou.Timer.Queue.Entries.{
  time_of, IsOrdered, member, time_of-set_insert, time_of-set_erase, IsOrdered-set_insert,
  IsOrdered-set_erase, IsDistinct, collect-Collects,
}
use tudou.Timer.Queue.Expires.{expiration_of, expires, expires-insert, expires-erase}

-- Every timer of `timersById_` stands in `expireSet_` under its time, except those that wait in
-- `ids` for their callbacks; ids are not used twice.
pub record Valid (ids : List ℕ) (q : TimerQueue) : Type 0 where
  pub ordered : IsOrdered q.expire_set
  pub same :
      (j : ℕ) → time_of j q.expire_set ≡ (if member j ids then none else expires j q.timers_by_id)
  pub fresh : (j : ℕ) → q.next_timer_id ≤ j → expires j q.timers_by_id ≡ none
  pub old : (j : ℕ) → member j ids ≡ true → j < q.next_timer_id

abbrev pub IsValid : TimerQueue → Type 0
IsValid q = Valid [] q

module _ (address now : ℕ → ℕ) where
  pub Valid-sync_timerfd :
      {ids : List ℕ} (q : TimerQueue) → Valid ids q → Valid ids (sync_timerfd address now q)
  unfolding sync_timerfd
  Valid-sync_timerfd {ids} q v = keep q.expire_set
    where
      keep : (s : List (ℕ × ℕ)) → Valid ids (arm address now s q)
      keep [] = record { ordered = v.ordered; same = v.same; fresh = v.fresh; old = v.old }
      keep ((t, i) ∷ s) = record {
        ordered = v.ordered;
        same = v.same;
        fresh = v.fresh;
        old = v.old;
      }

  pub Valid-add_timer :
      {ids : List ℕ} (q : TimerQueue) (callback : Option ℕ) (when interval : ℕ)
      → Valid ids q
      → Valid ids (add_timer address now q callback when interval).1
  unfolding add_timer
  Valid-add_timer {ids} q callback when interval v =
      let id = q.next_timer_id in
      let timer : Timer = record { callback = callback; expiration = when; interval = interval } in
      let free : time_of id q.expire_set ≡ none =
        v.same id ∙ none_both (member id ids) (v.fresh id (omega arith)) in
      Valid-sync_timerfd _ (record {
        ordered = IsOrdered-set_insert address when id q.expire_set v.ordered free;
        same = λ j. ground (
          arith,
          time_of-set_insert address when id j q.expire_set free,
          v.same j,
          v.old j,
          expires-insert id j timer q.timers_by_id,
          ==_iff id j,
        );
        fresh = λ j h. ground (
          arith,
          v.fresh j (omega (arith, h)),
          expires-insert id j timer q.timers_by_id,
          ==_iff id j,
          h,
        );
        old = λ j m. omega (arith, v.old j m);
      })
    where
      none_both : (b : Bool) {o : Option ℕ} → o ≡ none → (if b then none else o) ≡ none
      none_both b e = ground arith

  pub Valid-erase_timer :
      {ids : List ℕ} (q : TimerQueue) (id : ℕ)
      → Valid ids q
      → Valid ids (erase_timer address now q id)
  unfolding erase_timer
  Valid-erase_timer {ids} q id v = elim (Option-cases (lookup id q.timers_by_id)) [
    | inl missing ↦ rw missing (Valid-sync_timerfd q v)
    | inr (timer, found) ↦
        let at : expires id q.timers_by_id ≡ some timer.expiration =
          unfold expires in ap expiration_of found in
        let only : (u : ℕ) → time_of id q.expire_set ≡ some u → u ≡ timer.expiration =
          λ u e. ground (arith, e, v.same id, at) in
        rw found (
          Valid-sync_timerfd _ (record {
            ordered = IsOrdered-set_erase timer.expiration id q.expire_set v.ordered only;
            same = λ j. ground (
              arith,
              time_of-set_erase timer.expiration id j q.expire_set v.ordered only,
              v.same j,
              expires-erase id j q.timers_by_id,
              ==_iff id j,
            );
            fresh = λ j h. ground (arith, v.fresh j h, expires-erase id j q.timers_by_id);
            old = v.old;
          }))
  ]

  Valid-commands :
      {ids : List ℕ} (cs : List Command) {q : TimerQueue}
      → Valid ids q
      → Valid ids (commands address now q cs)
  unfolding command
  Valid-commands [] v = v
  Valid-commands (add callback when interval ∷ cs) {q} v =
      Valid-commands cs (Valid-add_timer q callback when interval v)
  Valid-commands (remove id ∷ cs) {q} v = Valid-commands cs (Valid-erase_timer q id v)

  -- Behind its callback a timer waits no more.
  Valid-after_run :
      {ids : List ℕ} (q : TimerQueue) (id : ℕ) (timer : Timer)
      → member id ids ≡ false
      → Valid (id ∷ ids) q
      → Valid ids (after_run address now q id timer)
  unfolding after_run
  Valid-after_run {ids} q id timer last v = elim (Option-cases (lookup id q.timers_by_id)) [
    | inl missing ↦
        let at : expires id q.timers_by_id ≡ none = unfold expires in ap expiration_of missing in
        rw (after_run, missing)
          (record {
            ordered = v.ordered;
            same = λ j. ground (arith, v.same j, at, ==_iff id j);
            fresh = v.fresh;
            old = λ j m. v.old j (ground (arith, m));
          })
    | inr (_, found) ↦ rw (after_run, found) (again (is_repeat timer))
  ]
    where
      free : time_of id q.expire_set ≡ none
      free = ground (arith, v.same id, ==_refl id)

      known : id < q.next_timer_id
      known = v.old id (ground (arith, ==_refl id))

      next : Timer
      next = record timer { expiration = now q.reads + timer.interval }

      again :
          (r : Bool)
          → Valid ids (
              if not r then record q { timers_by_id = erase id q.timers_by_id } else record q {
                reads = suc q.reads;
                timers_by_id = insert id next q.timers_by_id;
                expire_set = set_insert address (now q.reads + timer.interval) id q.expire_set;
              })
      again false = record {
        ordered = v.ordered;
        same = λ j. ground (arith, v.same j, expires-erase id j q.timers_by_id, ==_iff id j, last);
        fresh = λ j h. ground (arith, v.fresh j h, expires-erase id j q.timers_by_id);
        old = λ j m. v.old j (ground (arith, m));
      }
      again true = record {
        ordered = IsOrdered-set_insert address next.expiration id q.expire_set v.ordered free;
        same = λ j. ground (
          arith,
          time_of-set_insert address next.expiration id j q.expire_set free,
          v.same j,
          expires-insert id j next q.timers_by_id,
          ==_iff id j,
          last,
        );
        fresh = λ j h.
            ground
              (arith, v.fresh j h, expires-insert id j next q.timers_by_id, ==_iff id j, known, h);
        old = λ j m. v.old j (ground (arith, m));
      }

  module _ (calls : ℕ → TimerQueue → List Command) where
    Valid-run_callback :
        {ids : List ℕ} (q : TimerQueue) (callback : Option ℕ)
        → Valid ids q
        → Valid ids (run_callback address now calls q callback)
    unfolding run_callback
    Valid-run_callback q none v = v
    Valid-run_callback q (some callback) v = Valid-commands (calls callback q) v

    Valid-run_timer :
        {ids : List ℕ} (q : TimerQueue) (id : ℕ)
        → member id ids ≡ false
        → Valid (id ∷ ids) q
        → Valid ids (run_timer address now calls q id)
    unfolding run_timer
    Valid-run_timer {ids} q id last v = elim (Option-cases (lookup id q.timers_by_id)) [
      | inl missing ↦
          let at : expires id q.timers_by_id ≡ none = unfold expires in ap expiration_of missing in
          rw (run_timer, missing)
            (record {
              ordered = v.ordered;
              same = λ j. ground (arith, v.same j, at, ==_iff id j);
              fresh = v.fresh;
              old = λ j m. v.old j (ground (arith, m));
            })
      | inr (timer, found) ↦
          rw (run_timer, found)
            (Valid-after_run _ id timer last (
              Valid-run_callback _ timer.callback
                (record { ordered = v.ordered; same = v.same; fresh = v.fresh; old = v.old })))
    ]

    Valid-run_expired :
        (ids : List ℕ) {q : TimerQueue}
        → IsDistinct ids
        → Valid ids q
        → IsValid (run_expired address now calls q ids)
    unfolding run_expired
    Valid-run_expired [] once v = v
    Valid-run_expired (id ∷ ids) {q} once v =
        Valid-run_expired ids once.1 (Valid-run_timer q id once.0 v)

    -- Whatever the callbacks do, the two indices agree again when the timerfd event is handled.
    pub on_timerfd_read-IsValid :
        (q : TimerQueue) → IsValid q → IsValid (on_timerfd_read address now calls q)
    unfolding on_timerfd_read
    on_timerfd_read-IsValid q v =
        let c = collect-Collects (now q.reads) q.expire_set v.ordered in
        Valid-sync_timerfd _ (
          Valid-run_expired (collect (now q.reads) q.expire_set).0 c.distinct (record {
            ordered = c.set;
            same = λ j.
                c.stays j
                ∙ ap (λ o. if member j (collect (now q.reads) q.expire_set).0 then none else o)
                    (v.same j);
            fresh = v.fresh;
            old = λ j m. known_before j (c.due j m);
          }))
      where
        known_before :
            (j : ℕ)
            → (u : ℕ) × (time_of j q.expire_set ≡ some u) × (u ≤ now q.reads)
            → j < q.next_timer_id
        known_before j (u, at, _) = elim (Bool-cases (ltb j q.next_timer_id)) [
          | inl below ↦ ground arith
          | inr above ↦ absurd (ground (arith, v.same j, v.fresh j (ground arith), at))
        ]

pub new_queue-IsValid : IsValid new_queue
unfolding time_of expires lookup
new_queue-IsValid = record {
  ordered = tt;
  same = λ j. refl;
  fresh = λ j h. refl;
  old = λ j m. absurd (ground (arith, m));
}

-- The delay for the kernel is in range, and is the duration or a millisecond, whichever is longer.
pub to_timespec_lem :
    (duration : ℕ)
    → let ts = to_timespec duration in
      (ts.tv_nsec < 1000000000) × (ts.tv_sec * 1000000000 + ts.tv_nsec ≡ max 1000000 duration)
unfolding to_timespec
to_timespec_lem duration = elim (Bool-cases (ltb duration 1000000)) [
  | inl short ↦
      let few : duration < 1000000 = ground arith in rw short (omega arith, omega (arith, few))
  | inr long ↦
      let enough : 1000000 ≤ duration = ground arith in rw long (omega arith, omega (arith, enough))
]

-- ===== src/Timer/Queue/Due.antt =====
-- src/tudou/timer/TimerQueue.cpp: every timer whose time has come runs.
use tudou.Prelude.{
  ℕ, suc, ◌+◌, ◌≤◌, ◌<◌, ◌≡◌, refl, ap, subst, ◌∙◌, sym, inl, inr, Bool, true, false, List, [], ◌∷◌,
  ◌++◌, Option, none, some, arith, if◌then◌else◌, ◌==◌, Bool-cases, Option-cases, lookup,
  lookup-insert, lookup-erase, number_eq,
}
use tudou.Timer.Queue.{
  Timer, TimerQueue, Command, add, remove, is_repeat, arm, sync_timerfd, add_timer, command,
  commands, run_callback, after_run, run_timer, run_expired, collect, on_timerfd_read,
}
use tudou.Timer.Queue.Entries.{time_of, member, IsDistinct, collect-Collects}
use tudou.Timer.Queue.Valid.{IsValid}
use tudou.Timer.Queue.Expires.{expires, expiration_of}
use tudou.Timer.Queue.Runs.{
  count, count-snoc, ran-sync_timerfd, ran-run_timer, run_timer_other, run_expired_at_most,
}

-- A callback that cancels no timer.
abbrev pub adds_only : List Command → Bool
adds_only [] = true
adds_only (add callback when interval ∷ cs) = adds_only cs
adds_only (remove id ∷ cs) = false

abbrev pub is_some {ℓ} : {A : Type ℓ} → Option A → Bool
is_some none = false
is_some (some x) = true

unfoldable pub is_known : ℕ → TimerQueue → Bool
is_known i q = is_some (lookup i q.timers_by_id)

module _ (address now : ℕ → ℕ) where
  known-sync_timerfd :
      (i : ℕ) (q : TimerQueue) → is_known i (sync_timerfd address now q) ≡ is_known i q
  unfolding sync_timerfd is_known
  known-sync_timerfd i q = go q.expire_set
    where
      go : (s : List (ℕ × ℕ)) → is_known i (arm address now s q) ≡ is_known i q
      go [] = refl
      go (e ∷ s) = refl

  known-commands :
      (i : ℕ) (cs : List Command) (q : TimerQueue)
      → adds_only cs ≡ true
      → is_known i q ≡ true
      → is_known i (commands address now q cs) ≡ true
  unfolding command add_timer
  known-commands i [] q only k = k
  known-commands i (add callback when interval ∷ cs) q only k =
      known-commands i cs (command address now q (add callback when interval)) only (
        known-sync_timerfd i _
        ∙ unfold is_known in
          ground (
            arith,
            lookup-insert q.next_timer_id i
                (record { callback = callback; expiration = when; interval = interval })
                q.timers_by_id,
            k,
          ))
  known-commands i (remove id ∷ cs) q only k = absurd (ground (arith, only))

  known-after_run :
      (i : ℕ) (q : TimerQueue) (id : ℕ) (timer : Timer)
      → (id == i) ≡ false
      → is_known i q ≡ true
      → is_known i (after_run address now q id timer) ≡ true
  unfolding after_run is_known
  known-after_run i q id timer other k = elim (Option-cases (lookup id q.timers_by_id)) [
    | inl missing ↦ rw (after_run, missing) k
    | inr (_, found) ↦ elim (Bool-cases (is_repeat timer)) [
      | inl r ↦
          rw
            (
              after_run,
              found,
              r,
              lookup-insert id i (record timer { expiration = now q.reads + timer.interval })
                  q.timers_by_id,
              other,
            )
            k
      | inr r ↦ rw (after_run, found, r, lookup-erase id i q.timers_by_id, other) k
    ]
  ]

  module _ (calls : ℕ → TimerQueue → List Command)
      (patient : (callback : ℕ) (q : TimerQueue) → adds_only (calls callback q) ≡ true) where
    known-run_timer :
        (i : ℕ) (q : TimerQueue) (id : ℕ)
        → (id == i) ≡ false
        → is_known i q ≡ true
        → is_known i (run_timer address now calls q id) ≡ true
    unfolding run_timer run_callback
    known-run_timer i q id other k = elim (Option-cases (lookup id q.timers_by_id)) [
      | inl missing ↦ rw (run_timer, missing) k
      | inr (timer, found) ↦
          rw (run_timer, found) (known-after_run i _ id timer other (called timer.callback))
    ]
      where
        called :
            (callback : Option ℕ)
            → is_known i
                (run_callback address now calls (record q { ran = q.ran ++ id ∷ [] }) callback)
              ≡ true
        called none = unfold is_known in k
        called (some callback) =
            known-commands i (calls callback _) _ (patient callback _) (unfold is_known in k)

    run_expired_all :
        (i : ℕ) (ids : List ℕ) (q : TimerQueue)
        → IsDistinct ids
        → member i ids ≡ true
        → is_known i q ≡ true
        → count i (run_expired address now calls q ids).ran ≡ suc (count i q.ran)
    unfolding run_expired
    run_expired_all i [] q once m k = absurd (ground (arith, m))
    run_expired_all i (id ∷ ids) q once m k = elim (Bool-cases (id == i)) [
      | inl same ↦
          let eq : id ≡ i = ground arith in
          let free : member i ids ≡ false = subst (λ n. member n ids ≡ false) eq once.0 in
          let now_run = runs id (subst (λ n. is_known n q ≡ true) (sym eq) k) same in
          ground (
            arith,
            run_expired_at_most address now calls i ids (run_timer address now calls q id) once.1,
            free,
            now_run,
          )
      | inr other ↦
          run_expired_all i ids (run_timer address now calls q id) once.1 (ground (arith, m, other))
            (known-run_timer i q id other k)
          ∙ ap suc (run_timer_other address now calls q id i other)
    ]
      where
        runs :
            (id : ℕ)
            → is_known id q ≡ true
            → id == i ≡ true
            → count i (run_timer address now calls q id).ran ≡ suc (count i q.ran)
        runs id k same = elim (Option-cases (lookup id q.timers_by_id)) [
          | inl missing ↦ absurd (unfold is_known in ground (arith, k, missing))
          | inr (_, found) ↦
              rw (ran-run_timer address now calls q id, found, count-snoc i id q.ran, same) refl
        ]

    -- If no callback cancels a timer, each timer whose time has come runs exactly once while the
    -- timerfd event is handled.
    pub on_timerfd_read_runs_due :
        (q : TimerQueue) (i u : ℕ)
        → IsValid q
        → expires i q.timers_by_id ≡ some u
        → u ≤ now q.reads
        → count i (on_timerfd_read address now calls q).ran ≡ suc (count i q.ran)
    unfolding on_timerfd_read
    on_timerfd_read_runs_due q i u v at due =
        let c = collect-Collects (now q.reads) q.expire_set v.ordered in
        let ids = (collect (now q.reads) q.expire_set).0 in
        let q1 : TimerQueue = record q {
          expire_set = (collect (now q.reads) q.expire_set).1;
          reads = suc q.reads;
        } in
        let here : time_of i q.expire_set ≡ some u = v.same i ∙ at in
        ap (count i) (ran-sync_timerfd address now (run_expired address now calls q1 ids))
        ∙ run_expired_all i ids q1 c.distinct
            (listed (member i ids) refl (c.stays i) here (c.later i u))
            (unfold is_known in known (lookup i q.timers_by_id) (unfold expires in at))
      where
        known : (o : Option Timer) → expiration_of o ≡ some u → is_some o ≡ true
        known none e = absurd (ground (arith, e))
        known (some timer) e = refl

        listed :
            {o r : Option ℕ} {m : Bool} (b : Bool)
            → m ≡ b
            → r ≡ (if m then none else o)
            → o ≡ some u
            → (r ≡ some u → now q.reads < u)
            → m ≡ true
        listed true e stays h later = e
        listed false e stays h later = absurd (ground (arith, e, stays, h, later, due))

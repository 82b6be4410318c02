-- ===== src/Timer/Queue/Runs.antt =====
-- src/tudou/timer/TimerQueue.cpp: which timers run when the timerfd event is handled.
use tudou.Prelude.{
  ℕ, suc, ◌≤◌, ◌≡◌, ◌⊎◌, refl, ap, subst, ◌∙◌, sym, inl, inr, true, false, List, [], ◌∷◌, ◌++◌,
  Option, none, some, arith, if◌then◌else◌, ◌==◌, Bool-cases, Option-cases, lookup, number_eq,
}
use tudou.Timer.Queue.{
  Timer, TimerQueue, Command, add, remove, is_repeat, arm, sync_timerfd, add_timer, erase_timer,
  command, commands, run_callback, after_run, run_timer, run_expired, collect, on_timerfd_read,
}
use tudou.Timer.Queue.Entries.{member, IsDistinct, collect-Collects}
use tudou.Timer.Queue.Valid.{IsValid}
use tudou.Timer.Queue.Expires.{expires}

unfoldable pub count : ℕ → List ℕ → ℕ
count i [] = 0
count i (j ∷ ids) = if j == i then suc (count i ids) else count i ids

pub count-snoc :
    (i j : ℕ) (ids : List ℕ)
    → count i (ids ++ j ∷ []) ≡ (if j == i then suc (count i ids) else count i ids)
unfolding count
count-snoc i j [] = refl
count-snoc i j (k ∷ ids) = ground (arith, count-snoc i j ids)

module _ (address now : ℕ → ℕ) where
  pub ran-sync_timerfd : (q : TimerQueue) → (sync_timerfd address now q).ran ≡ q.ran
  unfolding sync_timerfd
  ran-sync_timerfd q = go q.expire_set
    where
      go : (s : List (ℕ × ℕ)) → (arm address now s q).ran ≡ q.ran
      go [] = refl
      go (e ∷ s) = refl

  pub ran-erase_timer : (q : TimerQueue) (id : ℕ) → (erase_timer address now q id).ran ≡ q.ran
  unfolding erase_timer
  ran-erase_timer q id = elim (Option-cases (lookup id q.timers_by_id)) [
    | inl missing ↦ rw (erase_timer, missing) (ran-sync_timerfd q)
    | inr (timer, found) ↦ rw (erase_timer, found) (ran-sync_timerfd _)
  ]

  pub ran-command : (q : TimerQueue) (c : Command) → (command address now q c).ran ≡ q.ran
  unfolding command add_timer
  ran-command q (add callback when interval) = ran-sync_timerfd _
  ran-command q (remove id) = ran-erase_timer q id

  pub ran-commands : (cs : List Command) (q : TimerQueue) → (commands address now q cs).ran ≡ q.ran
  ran-commands [] q = refl
  ran-commands (c ∷ cs) q = ran-commands cs (command address now q c) ∙ ran-command q c

  pub ran-after_run :
      (q : TimerQueue) (id : ℕ) (timer : Timer) → (after_run address now q id timer).ran ≡ q.ran
  unfolding after_run
  ran-after_run q id timer = elim (Option-cases (lookup id q.timers_by_id)) [
    | inl missing ↦ rw (after_run, missing) refl
    | inr (_, found) ↦ elim (Bool-cases (is_repeat timer)) [
      | inl r ↦ rw (after_run, found, r) refl
      | inr r ↦ rw (after_run, found, r) refl
    ]
  ]

  module _ (calls : ℕ → TimerQueue → List Command) where
    pub ran-run_callback :
        (q : TimerQueue) (callback : Option ℕ)
        → (run_callback address now calls q callback).ran ≡ q.ran
    unfolding run_callback
    ran-run_callback q none = refl
    ran-run_callback q (some callback) = ran-commands (calls callback q) q

    -- A timer that is still known runs once, another one does not.
    pub ran-run_timer :
        (q : TimerQueue) (id : ℕ)
        → (run_timer address now calls q id).ran
          ≡ elim (lookup id q.timers_by_id) [ none ↦ q.ran | some _ ↦ q.ran ++ id ∷ [] ]
    unfolding run_timer
    ran-run_timer q id = elim (Option-cases (lookup id q.timers_by_id)) [
      | inl missing ↦ rw (run_timer, missing) refl
      | inr (timer, found) ↦
          rw (run_timer, found) (ran-after_run _ id timer ∙ ran-run_callback _ timer.callback)
    ]

    pub run_timer_other :
        (q : TimerQueue) (id i : ℕ)
        → (id == i) ≡ false
        → count i (run_timer address now calls q id).ran ≡ count i q.ran
    run_timer_other q id i other = elim (Option-cases (lookup id q.timers_by_id)) [
      | inl missing ↦ rw (ran-run_timer q id, missing) refl
      | inr (_, found) ↦ rw (ran-run_timer q id, found, count-snoc i id q.ran, other) refl
    ]

    run_timer_at_most :
        (q : TimerQueue) (id i : ℕ)
        → (count i (run_timer address now calls q id).ran ≡ count i q.ran)
          ⊎ (count i (run_timer address now calls q id).ran ≡ suc (count i q.ran))
    run_timer_at_most q id i = elim (Option-cases (lookup id q.timers_by_id)) [
      | inl missing ↦ inl (rw (ran-run_timer q id, missing) refl)
      | inr (_, found) ↦ elim (Bool-cases (id == i)) [
        | inl same ↦ inr (rw (ran-run_timer q id, found, count-snoc i id q.ran, same) refl)
        | inr other ↦ inl (run_timer_other q id i other)
      ]
    ]

    pub run_expired_at_most :
        (i : ℕ) (ids : List ℕ) (q : TimerQueue)
        → IsDistinct ids
        → (count i (run_expired address now calls q ids).ran ≡ count i q.ran)
          ⊎ ((member i ids ≡ true)
              × (count i (run_expired address now calls q ids).ran ≡ suc (count i q.ran)))
    unfolding run_expired
    run_expired_at_most i [] q once = inl refl
    run_expired_at_most i (id ∷ ids) q once =
        let rest = run_expired_at_most i ids (run_timer address now calls q id) once.1 in
        elim (Bool-cases (id == i)) [
          | inl same ↦
              let free : member i ids ≡ false =
                subst (λ n. member n ids ≡ false) (to_eq same) once.0 in
              ground (arith, rest, free, run_timer_at_most q id i, same)
          | inr other ↦ ground (arith, rest, run_timer_other q id i other)
        ]
      where
        to_eq : id == i ≡ true → id ≡ i
        to_eq e = ground arith

    -- While the timerfd event is handled a timer runs at most once, and only if its time has come.
    pub on_timerfd_read_at_most :
        (q : TimerQueue) (i : ℕ)
        → IsValid q
        → let after = on_timerfd_read address now calls q in
          (count i after.ran ≡ count i q.ran)
          ⊎ ((count i after.ran ≡ suc (count i q.ran))
              × (u : ℕ) × (expires i q.timers_by_id ≡ some u)
              × (u ≤ now q.reads))
    unfolding on_timerfd_read
    on_timerfd_read_at_most q i v =
        let c = collect-Collects (now q.reads) q.expire_set v.ordered in
        let q1 : TimerQueue = record q {
          expire_set = (collect (now q.reads) q.expire_set).1;
          reads = suc q.reads;
        } in
        let ids = (collect (now q.reads) q.expire_set).0 in
        let synced = ran-sync_timerfd (run_expired address now calls q1 ids) in
        elim (run_expired_at_most i ids q1 c.distinct) [
          | inl e ↦ inl (ap (count i) synced ∙ e)
          | inr (m, e) ↦
              let (u, at, due) = c.due i m in
              inr (ap (count i) synced ∙ e, u, sym (v.same i) ∙ at, due)
        ]

-- ===== src/Tcp/Heartbeat/Timers.antt =====
-- src/tudou/timer/TimerQueue.cpp: which timers of a loop call a function.
use tudou.Prelude.{
  ℕ, zero, suc, ◌≡◌, refl, sym, ap, ◌∙◌, Bool, true, false, List, [], ◌∷◌, Option, none, some,
  Bool-cases, inl, inr, if◌then◌else◌, ◌==◌, ==_iff, lookup, erase, lookup-insert, lookup-erase,
  number_eq,
}
use tudou.Timer.Queue.{Timer, TimerQueue, arm, set_erase, sync_timerfd, add_timer, erase_timer}
use tudou.Reactor.Timers.{cancel}
use tudou.Tcp.Heartbeat.{}

abbrev pub calls : ℕ → Option ℕ → Bool
calls callback none = false
calls callback (some c) = c == callback

-- Whether there is a timer that calls a function.
abbrev pub is_for : ℕ → Option Timer → Bool
is_for callback none = false
is_for callback (some timer) = calls callback timer.callback

module _ (address now : ℕ → ℕ) where
  table-sync_timerfd : (q : TimerQueue) → (sync_timerfd address now q).timers_by_id ≡ q.timers_by_id
  unfolding sync_timerfd
  table-sync_timerfd q = armed q.expire_set
    where
      armed : (s : List (ℕ × ℕ)) → (arm address now s q).timers_by_id ≡ q.timers_by_id
      armed [] = refl
      armed (x ∷ s) = refl

  next-sync_timerfd :
      (q : TimerQueue) → (sync_timerfd address now q).next_timer_id ≡ q.next_timer_id
  unfolding sync_timerfd
  next-sync_timerfd q = armed q.expire_set
    where
      armed : (s : List (ℕ × ℕ)) → (arm address now s q).next_timer_id ≡ q.next_timer_id
      armed [] = refl
      armed (x ∷ s) = refl

  module _ (callback : ℕ) where
    is_for-either :
        (b : Bool) (timer : Timer) (o : Option Timer)
        → is_for callback (if b then some timer else o)
          ≡ (if b then calls callback timer.callback else is_for callback o)
    is_for-either true timer o = refl
    is_for-either false timer o = refl

    is_for-erased :
        (b : Bool) (o : Option Timer)
        → is_for callback (if b then none else o) ≡ (if b then false else is_for callback o)
    is_for-erased true o = refl
    is_for-erased false o = refl

    pub is_for-add_timer :
        (q : TimerQueue) (c : Option ℕ) (when interval id : ℕ)
        → is_for callback (lookup id (add_timer address now q c when interval).1.timers_by_id) ≡ (
            if q.next_timer_id == id
            then calls callback c
            else is_for callback (lookup id q.timers_by_id))
    unfolding add_timer
    is_for-add_timer q c when interval id =
        ap (λ m. is_for callback (lookup id m)) (table-sync_timerfd _)
        ∙ ap (is_for callback) (
            lookup-insert q.next_timer_id id
              (record { callback = c; expiration = when; interval = interval }) q.timers_by_id)
        ∙ is_for-either (q.next_timer_id == id) _ (lookup id q.timers_by_id)

    pub is_for-cancel :
        (q : TimerQueue) (id j : ℕ)
        → is_for callback (lookup j (cancel address now q (suc id)).timers_by_id)
          ≡ (if suc id == j then false else is_for callback (lookup j q.timers_by_id))
    unfolding cancel erase_timer
    is_for-cancel q id j =
        ap (λ m. is_for callback (lookup j m)) (table-sync_timerfd _)
        ∙ found (lookup (suc id) q.timers_by_id) refl
      where
        found :
            (o : Option Timer)
            → lookup (suc id) q.timers_by_id ≡ o
            → is_for callback (
                lookup j
                  (elim o as (λ _. TimerQueue) [
                    | none ↦ q
                    | some timer ↦ record q {
                      expire_set = set_erase timer.expiration (suc id) q.expire_set;
                      timers_by_id = erase (suc id) q.timers_by_id;
                    }
                  ]).timers_by_id)
              ≡ (if suc id == j then false else is_for callback (lookup j q.timers_by_id))
        found none h = elim (Bool-cases (suc id == j)) [
          | inl same ↦
              ap (is_for callback)
                (ap (λ k. lookup k q.timers_by_id) (sym ((==_iff (suc id) j).0 same)) ∙ h)
              ∙ sym (ap (λ b. if b then false else is_for callback (lookup j q.timers_by_id)) same)
          | inr other ↦
              sym (ap (λ b. if b then false else is_for callback (lookup j q.timers_by_id)) other)
        ]
        found (some timer) h =
            ap (is_for callback) (lookup-erase (suc id) j q.timers_by_id)
            ∙ is_for-erased (suc id == j) (lookup j q.timers_by_id)

  pub next-add_timer :
      (q : TimerQueue) (c : Option ℕ) (when interval : ℕ)
      → (add_timer address now q c when interval).1.next_timer_id ≡ suc q.next_timer_id
  unfolding add_timer
  next-add_timer q c when interval = next-sync_timerfd _

  pub next-cancel :
      (q : TimerQueue) (id : ℕ) → (cancel address now q id).next_timer_id ≡ q.next_timer_id
  unfolding cancel erase_timer
  next-cancel q zero = refl
  next-cancel q (suc id) = next-sync_timerfd _ ∙ found (lookup (suc id) q.timers_by_id)
    where
      found :
          (o : Option Timer)
          → (elim o as (λ _. TimerQueue) [
            | none ↦ q
            | some timer ↦ record q {
              expire_set = set_erase timer.expiration (suc id) q.expire_set;
              timers_by_id = erase (suc id) q.timers_by_id;
            }
          ]).next_timer_id
            ≡ q.next_timer_id
      found none = refl
      found (some timer) = refl

-- ===== src/Tcp/Heartbeat/Single.antt =====
-- src/tudou/tcp/ConnectionHeartbeat.cpp: which timers of the loop are those of a heartbeat.
use tudou.Prelude.{
  ℕ, zero, suc, ◌<◌, ◌≡◌, refl, sym, ap, ◌∙◌, subst, false, not, ◌&&◌, List, [], ◌∷◌, Option, some,
  if◌then◌else◌, ◌==◌, arith, lookup, number_eq, by_both, by_cases,
}
use tudou.Timer.Queue.{add_timer}
use tudou.Reactor.Timers.{no_timer, run_at, run_every, cancel}
use tudou.Tcp.Heartbeat.{
  Beating, cancelled, stop, started, start_stopped, start, refresh, is_timeout, check_alive,
  check_timeout,
}
use tudou.Tcp.Heartbeat.Timers.{
  calls, is_for, is_for-add_timer, is_for-cancel, next-add_timer, next-cancel,
}

-- What is done to the heartbeat, or with other timers: these call other functions, and nobody
-- cancels a timer of the heartbeat but itself.
pub data Operation : Type 0 where
  starts stops refreshes checks conn_dies : Operation
  others_add : Option ℕ → ℕ → Operation
  others_cancel : ℕ → Operation

-- A heartbeat that runs has one timer, which it can cancel; one that does not run has none.
pub record IsSingle (b : Beating) : Type 0 where
  pub one :
      (id : ℕ)
      → is_for b.heartbeat.callback (lookup id b.timers.timers_by_id)
        ≡ (b.heartbeat.running && (b.heartbeat.timer_id == id))
  pub known : b.heartbeat.running ≡ not (b.heartbeat.timer_id == no_timer)
  pub fresh : b.heartbeat.timer_id < b.timers.next_timer_id

module _ (address now : ℕ → ℕ) where
  abbrev pub cancel_other : Beating → ℕ → Beating
  cancel_other b id =
      if is_for b.heartbeat.callback (lookup id b.timers.timers_by_id)
      then b
      else record b { timers = cancel address now b.timers id }

  abbrev pub add_other : Beating → Option ℕ → ℕ → Beating
  add_other b callback when =
      if calls b.heartbeat.callback callback
      then b
      else record b { timers = (run_at address now b.timers callback when).1 }

  abbrev pub operate : Beating → Operation → Beating
  operate b starts = start address now b
  operate b stops = stop address now b
  operate b refreshes = refresh address now b
  operate b checks = check_timeout address now b
  operate b conn_dies = record b { heartbeat = record b.heartbeat { conn_alive = false } }
  operate b (others_add callback when) = add_other b callback when
  operate b (others_cancel id) = cancel_other b id

  abbrev pub operate_all : Beating → List Operation → Beating
  operate_all b [] = b
  operate_all b (o ∷ os) = operate_all (operate b o) os

  cancelled-IsSingle :
      (b : Beating) (id : ℕ)
      → b.heartbeat.timer_id ≡ id
      → IsSingle b
      → IsSingle (cancelled address now b id)
  cancelled-IsSingle b zero h v =
      let off = v.known ∙ ap (λ k. not (k == no_timer)) h in
      record {
        one = λ i. v.one i ∙ ap (λ r. r && (b.heartbeat.timer_id == i)) off;
        known = sym (ap (λ k. not (k == no_timer)) h);
        fresh = v.fresh;
      }
  cancelled-IsSingle b (suc id) h v = record {
    one = λ i.
        is_for-cancel address now b.heartbeat.callback b.timers id i
        ∙ ap (λ r. if suc id == i then false else r) (v.one i)
        ∙ ground arith;
    known = refl;
    fresh = subst (λ n. 0 < n) (sym (next-cancel address now b.timers (suc id))) (ground arith);
  }

  -- Without a timer, one is added.
  started-IsSingle :
      (b : Beating) → b.heartbeat.running ≡ false → IsSingle b → IsSingle (started address now b)
  unfolding run_every add_timer
  started-IsSingle b off v = record {
    one = λ i.
        is_for-add_timer address now b.heartbeat.callback _ (some b.heartbeat.callback) _ _ i
        ∙ ground (arith, off, v.one i, v.fresh);
    known = ground (arith, v.fresh);
    fresh =
        subst (λ n. b.timers.next_timer_id < n) (sym (next-add_timer address now _ _ _ _))
          (ground arith);
  }

  stop-IsSingle : (b : Beating) → IsSingle b → IsSingle (stop address now b)
  unfolding stop
  stop-IsSingle b = cancelled-IsSingle b b.heartbeat.timer_id refl

  stop-off : (b : Beating) → (stop address now b).heartbeat.running ≡ false
  unfolding stop
  stop-off b = off b.heartbeat.timer_id
    where
      off : (id : ℕ) → (cancelled address now b id).heartbeat.running ≡ false
      off zero = refl
      off (suc id) = refl

  start-IsSingle : (b : Beating) → IsSingle b → IsSingle (start address now b)
  unfolding start
  start-IsSingle b v =
      valid (if b.heartbeat.running then stop address now b else b)
        (by_cases (λ (c : Beating). c.heartbeat.running ≡ false) b.heartbeat.running
          (λ on. stop-off b) (λ off. off))
        (by_both IsSingle b.heartbeat.running (stop-IsSingle b v) v)
    where
      valid :
          (b : Beating)
          → b.heartbeat.running ≡ false
          → IsSingle b
          → IsSingle (start_stopped address now b)
      valid b off v =
          by_both IsSingle
            (b.heartbeat.check_interval_positive && b.heartbeat.idle_timeout_positive)
            (started-IsSingle b off v) v

  refresh-IsSingle : (b : Beating) → IsSingle b → IsSingle (refresh address now b)
  unfolding refresh
  refresh-IsSingle b v = record { one = v.one; known = v.known; fresh = v.fresh }

  check_timeout-IsSingle : (b : Beating) → IsSingle b → IsSingle (check_timeout address now b)
  unfolding check_timeout
  check_timeout-IsSingle b v =
      by_both IsSingle b.heartbeat.running
        (by_both IsSingle b.heartbeat.conn_alive alive (stop-IsSingle b v)) v
    where
      alive : IsSingle (check_alive address now b)
      alive =
          by_both
            (λ h.
              IsSingle
                (record { heartbeat = h; timers = record b.timers { reads = suc b.timers.reads } }))
            (is_timeout address now b.heartbeat (now b.timers.reads))
            (record { one = v.one; known = v.known; fresh = v.fresh })
            (record { one = v.one; known = v.known; fresh = v.fresh })

  add_other-IsSingle :
      (b : Beating) (callback : Option ℕ) (when : ℕ)
      → IsSingle b
      → IsSingle (add_other b callback when)
  unfolding run_at
  add_other-IsSingle b callback when v =
      by_cases IsSingle (calls b.heartbeat.callback callback) (λ own. v) other
    where
      other :
          calls b.heartbeat.callback callback ≡ false
          → IsSingle (record b { timers = (run_at address now b.timers callback when).1 })
      other not_own = record {
        one = λ i.
            is_for-add_timer address now b.heartbeat.callback b.timers callback when 0 i
            ∙ ground (arith, not_own, v.one i, v.one b.timers.next_timer_id, v.fresh);
        known = v.known;
        fresh =
            subst (λ n. b.heartbeat.timer_id < n) (sym (next-add_timer address now _ _ _ _))
              (ground arith);
      }

  cancel_other-IsSingle : (b : Beating) (id : ℕ) → IsSingle b → IsSingle (cancel_other b id)
  unfolding cancel
  cancel_other-IsSingle b zero v =
      by_both IsSingle (is_for b.heartbeat.callback (lookup 0 b.timers.timers_by_id)) v v
  cancel_other-IsSingle b (suc id) v =
      by_cases IsSingle (is_for b.heartbeat.callback (lookup (suc id) b.timers.timers_by_id))
        (λ own. v) other
    where
      other :
          is_for b.heartbeat.callback (lookup (suc id) b.timers.timers_by_id) ≡ false
          → IsSingle (record b { timers = cancel address now b.timers (suc id) })
      other not_own = record {
        one = λ i.
            is_for-cancel address now b.heartbeat.callback b.timers id i
            ∙ ap (λ r. if suc id == i then false else r) (v.one i)
            ∙ ground (arith, sym (v.one (suc id)) ∙ not_own);
        known = v.known;
        fresh =
            subst (λ n. b.heartbeat.timer_id < n) (sym (next-cancel address now b.timers (suc id)))
              v.fresh;
      }

  operate-IsSingle : (b : Beating) (o : Operation) → IsSingle b → IsSingle (operate b o)
  operate-IsSingle b starts v = start-IsSingle b v
  operate-IsSingle b stops v = stop-IsSingle b v
  operate-IsSingle b refreshes v = refresh-IsSingle b v
  operate-IsSingle b checks v = check_timeout-IsSingle b v
  operate-IsSingle b conn_dies v = record { one = v.one; known = v.known; fresh = v.fresh }
  operate-IsSingle b (others_add callback when) v = add_other-IsSingle b callback when v
  operate-IsSingle b (others_cancel id) v = cancel_other-IsSingle b id v

  -- However a heartbeat is started, stopped, refreshed and checked, also when its connection is
  -- gone, and whatever other timers, which call other functions, are added to the loop and
  -- cancelled: the timers of the loop that call the check are one, with the id the heartbeat holds,
  -- while it runs, and none while it does not. It was so at the start.
  pub operate_all-IsSingle :
      (os : List Operation) (b : Beating) → IsSingle b → IsSingle (operate_all b os)
  operate_all-IsSingle [] b v = v
  operate_all-IsSingle (o ∷ os) b v = operate_all-IsSingle os (operate b o) (operate-IsSingle b o v)

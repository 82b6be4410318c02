-- ===== src/Reactor/Loop/Wakeup.antt =====
-- src/tudou/reactor/EventLoop.cpp: which tasks wake the loop out of poll, and that tasks keep their order.
use tudou.Prelude.{
  ℕ, suc, ◌+◌, ◌<◌, ◌≡◌, refl, ap, sym, ◌∙◌, subst, length-append, Bool, true, false, [], ◌∷◌, ◌++◌,
  append_assoc, append-nil, none, some, arith, length, if◌then◌else◌,
}
use tudou.Reactor.Loop.{
  Phase, before, testing, polling, handling, calling, finished, EventLoop, new_loop, wakeup,
  on_read, push, after_push, queue_in_loop, run_in_loop, quit, take_functors, call_front,
  functors_done, test_quit, in_callbacks, outside_loop, enter_loop, Step, enters, tests, polls,
  reads_wakeup, takes, calls, ends, queues_here, queues_outside, runs_here, quits_here,
  pushes_elsewhere, quits_elsewhere, wakes_elsewhere, Reach, start, next,
}

-- From do_pending_functors' swap to the next poll, and outside of loop().
abbrev listens : Phase → Bool
listens handling = false
listens before = true
listens testing = true
listens polling = true
listens calling = true
listens finished = true

abbrev is_calling : Phase → Bool
is_calling calling = true
is_calling before = false
is_calling testing = false
is_calling polling = false
is_calling handling = false
is_calling finished = false

-- The loop is woken, or another thread is about to wake it.
abbrev Woken : EventLoop → Type 0
Woken e = 0 < e.wakeups + e.owed

record IsAwake (e : EventLoop) : Type 0 where
  heard : listens e.phase ≡ true → e.silent < length e.pending_functors → Woken e
  told_quit : e.phase ≡ polling → e.is_quit ≡ true → Woken e
  flag : e.is_calling_pending_functors ≡ is_calling e.phase
  drained : is_calling e.phase ≡ false → e.functors ≡ []
  in_order : e.called ++ (e.functors ++ e.pending_functors) ≡ e.queued

new_loop-IsAwake : IsAwake new_loop
new_loop-IsAwake = record {
  heard = λ p h. absurd (omega arith);
  told_quit = λ p h. cc h;
  flag = refl;
  drained = λ p. refl;
  in_order = refl;
}

-- A wakeup leaves the counter above zero.
wakeup-Woken : (e : EventLoop) → 0 < (wakeup e).wakeups
unfolding wakeup
wakeup-Woken e = ground arith

pushed :
    (e : EventLoop) (f : ℕ)
    → e.called ++ (e.functors ++ e.pending_functors) ≡ e.queued
    → e.called ++ (e.functors ++ (e.pending_functors ++ f ∷ [])) ≡ e.queued ++ f ∷ []
pushed e f h =
    ap (◌++◌ e.called) (sym (append_assoc e.functors e.pending_functors (f ∷ [])))
    ∙ sym (append_assoc e.called (e.functors ++ e.pending_functors) (f ∷ []))
    ∙ ap (λ fs. fs ++ f ∷ []) h

-- A callback that runs outside of do_pending_functors runs before it.
handles : (p : Phase) → in_callbacks p ≡ true → is_calling p ≡ false → listens p ≡ true → ⊥
handles before h k l = cc h
handles testing h k l = cc h
handles polling h k l = cc h
handles handling h k l = cc l
handles calling h k l = cc k
handles finished h k l = cc h

queue_here-IsAwake :
    (e : EventLoop) (f : ℕ)
    → in_callbacks e.phase ≡ true
    → IsAwake e
    → IsAwake (after_push true (push e f))
unfolding wakeup
queue_here-IsAwake e f p a = chosen e.is_calling_pending_functors refl
  where
    chosen :
        (t : Bool)
        → e.is_calling_pending_functors ≡ t
        → IsAwake (if t then wakeup (push e f) else push e f)
    chosen true h = record {
      heard = λ q l. omega (arith, wakeup-Woken e);
      told_quit = λ q l. omega (arith, wakeup-Woken e);
      flag = a.flag;
      drained = a.drained;
      in_order = pushed e f a.in_order;
    }
    chosen false h = record {
      heard = λ q l. absurd (handles e.phase p (sym a.flag ∙ h) q);
      told_quit = λ q l. cc (p, q);
      flag = a.flag;
      drained = a.drained;
      in_order = pushed e f a.in_order;
    }

-- Outside of loop() nothing is called and nobody polls.
outside-is_calling : (p : Phase) → outside_loop p ≡ true → is_calling p ≡ false
outside-is_calling before h = refl
outside-is_calling testing h = refl
outside-is_calling polling h = refl
outside-is_calling handling h = refl
outside-is_calling calling h = cc h
outside-is_calling finished h = refl

queue_outside-IsAwake :
    (e : EventLoop) (f : ℕ)
    → outside_loop e.phase ≡ true
    → IsAwake e
    → IsAwake (record (after_push true (push e f)) { silent = suc e.silent })
unfolding wakeup
queue_outside-IsAwake e f p a =
    subst
      (λ t. IsAwake (record (if t then wakeup (push e f) else push e f) { silent = suc e.silent }))
      (sym (a.flag ∙ outside-is_calling e.phase p))
      (record {
        heard = λ q l. a.heard q (omega (arith, l, length-append e.pending_functors (f ∷ [])));
        told_quit = λ q l. cc (p, q);
        flag = a.flag;
        drained = a.drained;
        in_order = pushed e f a.in_order;
      })

Step-IsAwake : {e e' : EventLoop} → Step e e' → IsAwake e → IsAwake e'
unfolding enter_loop test_quit on_read take_functors call_front functors_done queue_in_loop
    run_in_loop quit wakeup
Step-IsAwake (enters e p) a = record {
  heard = λ q h. a.heard (ap listens p) h;
  told_quit = λ q h. cc q;
  flag = a.flag ∙ ap is_calling p;
  drained = λ q. a.drained (ap is_calling p);
  in_order = a.in_order;
}
Step-IsAwake (tests e p) a = record {
  heard = λ q h. a.heard (ap listens p) h;
  told_quit = λ q h. ground (arith, p, q, h);
  flag = ground (arith, p, a.flag);
  drained = λ q. a.drained (ap is_calling p);
  in_order = a.in_order;
}
Step-IsAwake (polls e p) a = record {
  heard = λ q h. cc q;
  told_quit = λ q h. cc q;
  flag = a.flag ∙ ap is_calling p;
  drained = λ q. a.drained (ap is_calling p);
  in_order = a.in_order;
}
Step-IsAwake (reads_wakeup e p) a = record {
  heard = λ q h. cc (p, q);
  told_quit = λ q h. cc (p, q);
  flag = a.flag;
  drained = a.drained;
  in_order = a.in_order;
}
Step-IsAwake (takes e p) a = record {
  heard = λ q h. absurd (omega arith);
  told_quit = λ q h. cc q;
  flag = refl;
  drained = λ q. cc q;
  in_order =
      ap (◌++◌ e.called) (
        append-nil e.pending_functors
        ∙ ap (λ fs. fs ++ e.pending_functors) (sym (a.drained (ap is_calling p))))
      ∙ a.in_order;
}
Step-IsAwake (calls e f fs p q) a = record {
  heard = a.heard;
  told_quit = a.told_quit;
  flag = a.flag;
  drained = λ r. cc (p, r);
  in_order =
      append_assoc e.called (f ∷ []) (fs ++ e.pending_functors)
      ∙ ap (λ gs. e.called ++ (gs ++ e.pending_functors)) (sym q)
      ∙ a.in_order;
}
Step-IsAwake (ends e p q) a = record {
  heard = λ r h. a.heard (ap listens p) h;
  told_quit = λ r h. cc r;
  flag = refl;
  drained = λ r. q;
  in_order = a.in_order;
}
Step-IsAwake (queues_here e none p) a = a
Step-IsAwake (queues_here e (some f) p) a = queue_here-IsAwake e f p a
Step-IsAwake (queues_outside e f p) a = queue_outside-IsAwake e f p a
Step-IsAwake (runs_here e none p) a = a
Step-IsAwake (runs_here e (some f) p) a = record {
  heard = a.heard;
  told_quit = a.told_quit;
  flag = a.flag;
  drained = a.drained;
  in_order = a.in_order;
}
Step-IsAwake (quits_here e p) a = record {
  heard = a.heard;
  told_quit = λ q h. cc (p, q);
  flag = a.flag;
  drained = a.drained;
  in_order = a.in_order;
}
Step-IsAwake (pushes_elsewhere e f) a = record {
  heard = λ q h. omega arith;
  told_quit = λ q h. omega arith;
  flag = a.flag;
  drained = a.drained;
  in_order = pushed e f a.in_order;
}
Step-IsAwake (quits_elsewhere e) a = record {
  heard = λ q h. omega arith;
  told_quit = λ q h. omega arith;
  flag = a.flag;
  drained = a.drained;
  in_order = a.in_order;
}
Step-IsAwake (wakes_elsewhere e n p) a = record {
  heard = λ q h. omega (arith, wakeup-Woken e);
  told_quit = λ q h. omega (arith, wakeup-Woken e);
  flag = a.flag;
  drained = a.drained;
  in_order = a.in_order;
}

Reach-IsAwake : {e : EventLoop} → Reach e → IsAwake e
Reach-IsAwake start = new_loop-IsAwake
Reach-IsAwake (next r s) = Step-IsAwake s (Reach-IsAwake r)

-- In every reachable state in which the loop is to wait in poll and no other thread is on its way
-- to wake it: if quit was called, or a task is pending besides those that the loop's own thread
-- queued before it called loop(), the eventfd is readable, so that poll returns.
pub Reach_wakes :
    {e : EventLoop}
    → Reach e
    → e.phase ≡ polling
    → e.owed ≡ 0
    → (e.silent < length e.pending_functors → 0 < e.wakeups) × (e.is_quit ≡ true → 0 < e.wakeups)
Reach_wakes r p owes_none =
    let a = Reach-IsAwake r in
    (λ h. omega (arith, a.heard (ap listens p) h), λ h. omega (arith, a.told_quit p h))

-- In every reachable state the functors that were queued, from whichever thread, are in this order
-- those that have been called, those that the loop has taken and those that are pending.
pub Reach_in_order :
    {e : EventLoop} → Reach e → e.called ++ (e.functors ++ e.pending_functors) ≡ e.queued
Reach_in_order r = (Reach-IsAwake r).in_order

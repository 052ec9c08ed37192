-- ===== src/EventLoop/Order.antt =====
-- EventLoop.cpp: threads and the loop, in any order of their steps.
use event_loop.Prelude.{
  ℕ, suc, ◌+◌, ◌<◌, ◌≡◌, sym, ap, ◌∙◌, Bool, true, List, [], ◌∷◌, ◌++◌, append_assoc, append-nil,
  length, length-append, arith,
}
use event_loop.EventLoop.{
  Phase, polling, handling, stopped, calling, EventLoop, wakeup, handle_read, push, queue_in_loop,
  set_quit, quit_loop, start, begin_functors, call_functor, end_functors,
}

-- The loop's thread is inside `loop` and not waiting.
abbrev pub IsBusy : Phase → Type 0
IsBusy polling = ⊥
IsBusy handling = Unit {0}
IsBusy stopped = ⊥
IsBusy (calling fs) = Unit {0}

-- One step of the loop's thread, or of another. Another thread's `queueInLoop` and `quit` are two steps
-- each: the change, and the wakeup. The loop's thread queues and quits only inside `loop`: before it,
-- `queueInLoop` in this thread wakes nothing, and the loop would wait with the functor pending.
pub data Step (l m : EventLoop) : Type 0 where
  starts : l.phase ≡ stopped → m ≡ start l → Step l m
  wakes : l.phase ≡ polling → m ≡ record l { phase = handling } → Step l m
  reads : l.phase ≡ handling → m ≡ handle_read l → Step l m
  queues : IsBusy l.phase → (f : ℕ) → m ≡ queue_in_loop true l f → Step l m
  quits : IsBusy l.phase → m ≡ quit_loop true l → Step l m
  begins : l.phase ≡ handling → m ≡ begin_functors l → Step l m
  calls : (f : ℕ) (fs : List ℕ) → l.phase ≡ calling (f ∷ fs) → m ≡ call_functor l f fs → Step l m
  ends : l.phase ≡ calling [] → m ≡ end_functors l → Step l m
  other_pushes : (f : ℕ) → m ≡ record (push l f) { late = suc l.late } → Step l m
  other_quits : m ≡ record (set_quit l) { late = suc l.late } → Step l m
  other_wakes : (n : ℕ) → l.late ≡ suc n → m ≡ record (wakeup l) { late = n } → Step l m

pub data Reach (l : EventLoop) : EventLoop → Type 0 where
  here : Reach l l
  next : {m n : EventLoop} → Reach l m → Step m n → Reach l n

-- The functors that the loop has taken and not called.
abbrev pub taken : Phase → List ℕ
taken polling = []
taken handling = []
taken stopped = []
taken (calling fs) = fs

-- A loop that waits, or that will wait without looking again at what is pending, is about to be woken if
-- something is pending, or if it is to quit.
abbrev pub IsAwakeAt : Phase → Bool → EventLoop → Type 0
IsAwakeAt polling c l =
    (0 < length l.pending → 0 < l.counter + l.late) × (l.quit ≡ true → 0 < l.counter + l.late)
IsAwakeAt handling c l = Unit {0}
IsAwakeAt stopped c l = 0 < length l.pending → 0 < l.counter + l.late
IsAwakeAt (calling fs) c l = (c ≡ true) × (0 < length l.pending → 0 < l.counter + l.late)

pub record IsSound (l : EventLoop) : Type 0 where
  pub in_order : l.run ++ (taken l.phase ++ l.pending) ≡ l.posted
  pub awake : IsAwakeAt l.phase l.calling_pending l

-- What is queued comes after all that was.
queued_last :
    (run fs pending posted : List ℕ) (f : ℕ)
    → run ++ (fs ++ pending) ≡ posted
    → run ++ (fs ++ (pending ++ f ∷ [])) ≡ posted ++ f ∷ []
queued_last run fs pending posted f e =
    ap (◌++◌ run) (sym (append_assoc fs pending (f ∷ [])))
    ∙ sym (append_assoc run (fs ++ pending) (f ∷ []))
    ∙ ap (λ x. x ++ f ∷ []) e

Step-in_order :
    {l m : EventLoop}
    → Step l m
    → l.run ++ (taken l.phase ++ l.pending) ≡ l.posted
    → m.run ++ (taken m.phase ++ m.pending) ≡ m.posted
unfolding start handle_read queue_in_loop quit_loop push wakeup set_quit begin_functors call_functor
    end_functors
Step-in_order {l} (starts e g) v = ground arith
Step-in_order {l} (wakes e g) v = ground arith
Step-in_order {l} (reads e g) v = ground arith
Step-in_order {l} (queues b f g) v =
    ground (arith, queued_last l.run (taken l.phase) l.pending l.posted f)
Step-in_order {l} (quits b g) v = ground arith
Step-in_order {l} (begins e g) v = ground (arith, append-nil l.pending)
Step-in_order {l} (calls f fs e g) v = ground (arith, append_assoc l.run (f ∷ []) (fs ++ l.pending))
Step-in_order {l} (ends e g) v = ground arith
Step-in_order {l} (other_pushes f g) v =
    ground (arith, queued_last l.run (taken l.phase) l.pending l.posted f)
Step-in_order {l} (other_quits g) v = ground arith
Step-in_order {l} (other_wakes n e g) v = ground arith

Step-awake :
    {l m : EventLoop}
    → Step l m
    → IsAwakeAt l.phase l.calling_pending l
    → IsAwakeAt m.phase m.calling_pending m
unfolding start handle_read queue_in_loop quit_loop push wakeup set_quit begin_functors call_functor
    end_functors
Step-awake {l} (starts e g) v = ground arith
Step-awake {l} (wakes e g) v = ground arith
Step-awake {l} (reads e g) v = ground arith
Step-awake {l} (queues b f g) v = ground (arith, length-append l.pending (f ∷ []))
Step-awake {l} (quits b g) v = ground arith
Step-awake {l} (begins e g) v = ground arith
Step-awake {l} (calls f fs e g) v = ground arith
Step-awake {l} (ends e g) v = ground arith
Step-awake {l} (other_pushes f g) v = ground arith
Step-awake {l} (other_quits g) v = ground arith
Step-awake {l} (other_wakes n e g) v = ground arith

-- Whatever functors other threads queue and whenever they quit, and whatever the loop's thread queues and runs
-- and when it quits inside `loop`, in whatever order, from a loop where this holds, such as a new one: the functors
-- called, those taken and those pending are together those queued, in their order, so that each is
-- called once. A loop that waits with something pending, or that is to quit, has its eventfd readable,
-- or another thread is about to write to it.
pub Reach-IsSound : {l m : EventLoop} → Reach l m → IsSound l → IsSound m
Reach-IsSound here v = v
Reach-IsSound (next r s) v =
    let w = Reach-IsSound r v in
    record { in_order = Step-in_order s w.in_order; awake = Step-awake s w.awake }

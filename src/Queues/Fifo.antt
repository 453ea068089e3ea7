-- ===== src/Queues/Fifo.antt =====
-- The worker against a first-in first-out queue of tasks (Monitor/Monitor/MessageQueue.hpp,
-- PoolThread.hpp).
use real_time_monitor_agent.Base.{
  ◌≡◌, refl, sym, ap, ◌∙◌, List, [], ◌∷◌, ◌++◌, some, length, ◌⊎◌, inl, inr, arith, List-cases,
  length-append,
}
use mathlib.Core.Path.{subst}
use mathlib.Core.List.{append_assoc, append-nil}
use real_time_monitor_agent.Queues.{
  Package, job, stop, MessageQueue, push, splice, queue_size, Point, testing, waiting, woken,
  popping, checking, ended, thrown, Worker, started, call_package, advance, work, push_task, notify,
  Step, works, pushes, notifies, wakes, Runs, here, next,
}

-- The abstract view: the tasks to do, and those that were run.
pub record Fifo : Type 0 where
  pub todo : List Package
  pub ran : List Package

-- A task is put at the end, or taken from the front and run.
pub data FifoStep (f f' : Fifo) : Type 0 where
  put : (t : Package) → f'.todo ≡ f.todo ++ (t ∷ []) → f'.ran ≡ f.ran → FifoStep f f'
  run : (t : Package) → f.todo ≡ t ∷ f'.todo → f'.ran ≡ f.ran ++ (t ∷ []) → FifoStep f f'

pub data FifoRuns (f : Fifo) : Fifo → Type 0 where
  begin : FifoRuns f f
  then_step : (f₁ f₂ : Fifo) → FifoRuns f f₁ → FifoStep f₁ f₂ → FifoRuns f f₂

abbrev pub contents : MessageQueue → List Package
contents q = q.msg_proc_list ++ q.msg_wait_list

abbrev pub view : Worker → Fifo
view w = record { todo = contents w.queue; ran = w.ran }

contents-push : (t : Package) (q : MessageQueue) → contents (push t q) ≡ contents q ++ (t ∷ [])
unfolding push
contents-push t q = sym (append_assoc q.msg_proc_list q.msg_wait_list (t ∷ []))

contents-splice : (q : MessageQueue) → contents (splice q) ≡ contents q
unfolding splice
contents-splice q = elim (List-cases q.msg_wait_list) [
  | inl e ↦ ground arith
  | inr (x, xs, e) ↦ rw e (append-nil _)
]

queue_queue_size-length : (q : MessageQueue) → queue_size q ≡ length (contents q)
unfolding queue_size
queue_queue_size-length q = omega (arith, length-append q.msg_proc_list q.msg_wait_list)

-- A step of the thread: the view stays, or the first task is run.
abbrev Taken : Fifo → Fifo → Type 0
Taken f f' = (f ≡ f') ⊎ ((t : Package) × (f.todo ≡ t ∷ f'.todo) × (f'.ran ≡ f.ran ++ (t ∷ [])))

call_package-Taken :
    (t : Package) (w : Worker) (q : MessageQueue)
    → contents w.queue ≡ t ∷ contents q
    → Taken (view w) (view (call_package t (record w { queue = q })))
unfolding call_package
call_package-Taken (job n) w q e = inr (job n, e, refl)
call_package-Taken stop w q e = inr (stop, e, refl)

same-Taken :
    (w w' : Worker)
    → contents w'.queue ≡ contents w.queue
    → w'.ran ≡ w.ran
    → Taken (view w) (view w')
same-Taken w w' e r = inl (ground arith)

-- `Pop` and `package()`.
pub popping-call_package :
    (t : Package) (ts : List Package) (w : Worker)
    → w.queue.msg_proc_list ≡ t ∷ ts
    → advance popping w
      ≡ some (call_package t (record w { queue = record w.queue { msg_proc_list = ts } }))
unfolding advance
popping-call_package t ts w e = ground arith

advance-Taken : (p : Point) (w w' : Worker) → advance p w ≡ some w' → Taken (view w) (view w')
unfolding advance
advance-Taken testing w w' e = same-Taken w w' (ground arith) (ground arith)
advance-Taken waiting w w' e = absurd (cc)
advance-Taken woken w w' e =
    same-Taken w w' (ground (arith, contents-splice w.queue)) (ground arith)
advance-Taken popping w w' e = elim (List-cases w.queue.msg_proc_list) [
  | inl none_left ↦ same-Taken w w' (ground arith) (ground arith)
  | inr (t, ts, some_left) ↦
      let w₁ : Worker =
        call_package t (record w { queue = record w.queue { msg_proc_list = ts } }) in
      let e₁ : w₁ ≡ w' = cc (e, popping-call_package t ts w some_left) in
      subst (λ z. Taken (view w) (view z)) e₁
        (call_package-Taken t w (record w.queue { msg_proc_list = ts }) (ground arith))
]
advance-Taken checking w w' e = same-Taken w w' (ground arith) (ground arith)
advance-Taken ended w w' e = absurd (cc)
advance-Taken thrown w w' e = absurd (cc)

advance-pushed : (p : Point) (w w' : Worker) → advance p w ≡ some w' → w'.pushed ≡ w.pushed
unfolding advance
advance-pushed testing w w' e = ground arith
advance-pushed waiting w w' e = absurd (cc)
advance-pushed woken w w' e = ground arith
advance-pushed popping w w' e = ground arith
advance-pushed checking w w' e = ground arith
advance-pushed ended w w' e = absurd (cc)
advance-pushed thrown w w' e = absurd (cc)

-- What holds in a run: the abstract queue ran the same, and every task that was pushed was run or
-- is still to do, in this order.
record Agrees (w : Worker) : Type 0 where
  runs : FifoRuns (record { todo = []; ran = [] }) (view w)
  kept : w.pushed ≡ w.ran ++ contents w.queue

Taken-Agrees :
    (w w' : Worker) → Taken (view w) (view w') → w'.pushed ≡ w.pushed → Agrees w → Agrees w'
Taken-Agrees w w' (inl same) e a = record {
  runs = subst (FifoRuns (record { todo = []; ran = [] })) same a.runs;
  kept = e ∙ a.kept ∙ ap (λ f. f.ran ++ f.todo) same;
}
Taken-Agrees w w' (inr (t, first, last)) e a = record {
  runs = then_step (view w) (view w') a.runs (run t first last);
  kept = cc (e, a.kept, first, last, append_assoc w.ran (t ∷ []) (contents w'.queue));
}

Step-Agrees : (w w' : Worker) → Step w w' → Agrees w → Agrees w'
unfolding work push_task notify
Step-Agrees w w' (works _ e) a =
    Taken-Agrees w w' (advance-Taken w.point w w' e) (advance-pushed w.point w w' e) a
Step-Agrees w w' (pushes t) a = record {
  runs = then_step (view w) _ a.runs (put t (contents-push t w.queue) refl);
  kept =
      ap (λ ts. ts ++ (t ∷ [])) a.kept
      ∙ append_assoc w.ran (contents w.queue) (t ∷ [])
      ∙ ap (λ ts. w.ran ++ ts) (sym (contents-push t w.queue));
}
Step-Agrees w w' (notifies left e) a = record { runs = a.runs; kept = a.kept }
Step-Agrees w w' (wakes e) a = record { runs = a.runs; kept = a.kept }

Runs-Agrees : (w w' : Worker) → Agrees w → Runs w w' → Agrees w'
Runs-Agrees w w' a here = a
Runs-Agrees w w' a (next w₁ _ before step) = Step-Agrees w₁ w' step (Runs-Agrees w w₁ a before)

-- Whatever the threads do and in whatever order, the queue of the thread refines a first-in first-out
-- queue: each run of it is one of the abstract queue, that puts tasks at the end and runs the first.
-- The tasks run, then those still in the two lists, are the tasks pushed, in this order; and Size is
-- the number of those still to do.
pub Runs-FifoRuns :
    (w : Worker)
    → Runs started w
    → FifoRuns (record { todo = []; ran = [] }) (view w)
      × (w.pushed ≡ w.ran ++ contents w.queue)
      × (queue_size w.queue ≡ length (contents w.queue))
Runs-FifoRuns w steps =
    let a = Runs-Agrees started w (record { runs = begin; kept = refl }) steps in
    (a.runs, a.kept, queue_queue_size-length w.queue)

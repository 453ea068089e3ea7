-- ===== src/Queues/Wakeups.antt =====
-- What `msg_queue_cv_.wait` without a condition brings about (Monitor/Monitor/MessageQueue.hpp).
use mathlib.Core.Path.{subst}
use real_time_monitor_agent.Base.{
  ℕ, suc, ◌≡◌, ◌≢◌, refl, sym, List, [], ◌∷◌, ◌++◌, some, true, ◌⊎◌, inl, inr, arith, append-nil,
  append_assoc,
}
use real_time_monitor_agent.Queues.{
  Package, job, Point, testing, waiting, woken, popping, checking, ended, thrown, Worker, started,
  work, push_task, notify, pushes, notifies, Runs, here, next,
}
use real_time_monitor_agent.Queues.Fifo.{contents}

-- Runs in which nothing more is pushed, and no wait ends for no reason.
pub data Quiet (w : Worker) : Worker → Type 0 where
  begin : Quiet w w
  goes_on : (w₁ w₂ : Worker) → Quiet w w₁ → work w₁ ≡ some w₂ → Quiet w w₂
  wakes_one :
      (w₁ : Worker) (left : ℕ) → Quiet w w₁ → w₁.pending ≡ suc left → Quiet w (notify left w₁)

-- The tasks are pushed and the producers gone before the thread first waits.
abbrev pub early : List Package → Worker
early ts = record started { queue = record { msg_wait_list = ts; msg_proc_list = [] }; pushed = ts }

early-push :
    (t : Package) (ts : List Package) → notify 0 (push_task t (early ts)) ≡ early (ts ++ (t ∷ []))
unfolding notify push_task
early-push t ts = refl

early-Runs : (us ts : List Package) → Runs started (early ts) → Runs started (early (ts ++ us))
early-Runs [] ts r = subst (λ l. Runs started (early l)) (sym (append-nil ts)) r
early-Runs (t ∷ us) ts r =
    subst (λ l. Runs started (early l)) (append_assoc ts (t ∷ []) us)
      (early-Runs us (ts ++ (t ∷ [])) (
        subst (Runs started) (early-push t ts)
          (next _ _ (next _ _ r (pushes t)) (notifies 0 (unfold push_task in refl)))))

record Asleep (ts : List Package) (w : Worker) : Type 0 where
  before : (w.point ≡ testing) ⊎ (w.point ≡ waiting)
  active : w.active ≡ true
  quiet : w.pending ≡ 0
  queue : w.queue ≡ record { msg_wait_list = ts; msg_proc_list = [] }
  ran : w.ran ≡ []

work-Asleep : (ts : List Package) (w w' : Worker) → Asleep ts w → work w ≡ some w' → Asleep ts w'
unfolding work
work-Asleep ts w w' (a) e = elim a.before [
  | inl h ↦ record {
    before = inr (ground arith);
    active = ground arith;
    quiet = ground arith;
    queue = ground arith;
    ran = ground arith;
  }
  | inr h ↦ absurd (ground arith)
]

Quiet-Asleep : (ts : List Package) (w w' : Worker) → Asleep ts w → Quiet w w' → Asleep ts w'
Quiet-Asleep ts w w' a begin = a
Quiet-Asleep ts w w' a (goes_on w₁ _ r e) = work-Asleep ts w₁ w' (Quiet-Asleep ts w w₁ a r) e
Quiet-Asleep ts w w' a (wakes_one w₁ left r e) =
    absurd (omega (arith, (Quiet-Asleep ts w w₁ a r).quiet))

-- Whatever tasks are pushed before the thread first waits, there is a run to a state in which all
-- have been pushed and notified, and from which the thread runs none of them and does not end as long
-- as nothing more is pushed and no wait ends spuriously: each notification was lost, and only another
-- push or a spurious wakeup can start the tasks.
pub early_tasks-lost :
    (ts : List Package)
    → (w : Worker) × Runs started w
      × (w.pushed ≡ ts)
      × (contents w.queue ≡ ts)
      × (w.pending ≡ 0)
      × ((w' : Worker) → Quiet w w' → (w'.ran ≡ []) × (contents w'.queue ≡ ts) × (w'.point ≢ ended))
early_tasks-lost ts = (
  early ts,
  early-Runs ts [] here,
  refl,
  refl,
  refl,
  λ w' r.
      let a =
        Quiet-Asleep ts (early ts) w'
          (record { before = inl refl; active = refl; quiet = refl; queue = refl; ran = refl }) r in
      (a.ran, ground (arith, a.queue), ground (arith, a.before)),
)

-- Runs with one producer, that notifies before it pushes again; no wait ends for no reason.
pub data Serial (w : Worker) : Worker → Type 0 where
  first : Serial w w
  steps : (w₁ w₂ : Worker) → Serial w w₁ → work w₁ ≡ some w₂ → Serial w w₂
  produces : (w₁ : Worker) (t : Package) → Serial w w₁ → w₁.pending ≡ 0 → Serial w (push_task t w₁)
  signals :
      (w₁ : Worker) (left : ℕ) → Serial w w₁ → w₁.pending ≡ suc left → Serial w (notify left w₁)

abbrev pub at : Point → List Package → List Package → List Package → ℕ → Worker
at p wait proc ran pending = record {
  queue = record { msg_wait_list = wait; msg_proc_list = proc };
  active = true;
  point = p;
  pending = pending;
  ran = ran;
  pushed = ran ++ (proc ++ wait);
}

module _ (x y : ℕ) where
  abbrev pub both : List Package
  both = job x ∷ (job y ∷ [])

  -- Both tasks are pushed; the notification of the second is still to come.
  second_pushed : Serial started (at woken both [] [] 1)
  unfolding work push_task notify
  second_pushed =
      produces (at woken (job x ∷ []) [] [] 0) (job y)
        (signals (at waiting (job x ∷ []) [] [] 1) 0
          (produces (at waiting [] [] [] 0) (job x)
            (steps started (at waiting [] [] [] 0) first refl) refl)
          refl)
        refl

  -- The thread has run both and waits again.
  both_ran : Serial started (at waiting [] [] both 1)
  unfolding work
  both_ran =
      steps (at testing [] [] both 1) _
        (steps (at checking [] [] both 1) _
          (steps (at popping [] (job y ∷ []) (job x ∷ []) 1) _
            (steps (at checking [] (job y ∷ []) (job x ∷ []) 1) _
              (steps (at popping [] both [] 1) _
                (steps (at woken both [] [] 1) _ second_pushed refl) refl)
              refl)
            refl)
          refl)
        refl

  -- With one producer that pushes any two tasks, there is a run in which the thread has run both and
  -- then calls the empty function: the second notification comes after it waits again.
  pub empty_function-called :
      (w : Worker) × Serial started w
      × (w.ran ≡ both)
      × (contents w.queue ≡ [])
      × (w.pending ≡ 0)
      × (w.point ≡ thrown)
  unfolding work notify
  empty_function-called = (
    at thrown [] [] both 0,
    steps (at popping [] [] both 0) _
        (steps (at woken [] [] both 0) _ (signals (at waiting [] [] both 1) 0 both_ran refl) refl)
        refl,
    refl,
    refl,
    refl,
    refl,
  )

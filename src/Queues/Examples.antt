-- ===== src/Queues/Examples.antt =====
-- Runs of the worker thread.
use real_time_monitor_agent.Base.{ℕ, ◌≡◌, ◌≢◌, refl, [], ◌∷◌, ◌++◌, some, length, if◌then◌else◌}
use real_time_monitor_agent.Queues.{
  job, stop, queue_size, waiting, woken, popping, checking, ended, thrown, Worker, started, work,
  push_task, notify, works, pushes, notifies, Runs, here, next,
}
use real_time_monitor_agent.Queues.Fifo.{FifoRuns, contents, view, Runs-FifoRuns}
use real_time_monitor_agent.Queues.Progress.{works_on, goes_on, woken-runs_all}
use real_time_monitor_agent.Queues.Wakeups.{
  Quiet, early_tasks-lost, Serial, at, both, empty_function-called,
}

-- The thread waits, a task is pushed and notified, and the thread runs it.
abbrev one_ran : Worker
one_ran = at checking [] [] (job 7 ∷ []) 0

one_runs : Runs started one_ran
unfolding work push_task notify
one_runs =
    next (at popping [] (job 7 ∷ []) [] 0) _
      (next (at woken (job 7 ∷ []) [] [] 0) _
        (next (at waiting (job 7 ∷ []) [] [] 1) _
          (next (at waiting [] [] [] 0) _ (next started (at waiting [] [] [] 0) here (works _ refl))
            (pushes (job 7)))
          (notifies 0 refl))
        (works _ refl))
      (works _ refl)

Runs-FifoRuns_example :
    FifoRuns (record { todo = []; ran = [] }) (view one_ran)
    × (one_ran.pushed ≡ one_ran.ran ++ contents one_ran.queue)
    × (queue_size one_ran.queue ≡ length (contents one_ran.queue))
Runs-FifoRuns_example = Runs-FifoRuns one_ran one_runs

-- A job, Stop, and a job behind it.
abbrev stopped : Worker
stopped = at woken (job 1 ∷ (stop ∷ (job 2 ∷ []))) [] [] 0

woken-runs_all_example :
    (n : ℕ) × (w' : Worker) × (works_on n stopped ≡ some w')
    × (w'.ran ≡ stopped.ran ++ contents stopped.queue)
    × (contents w'.queue ≡ [])
    × (w'.point ≡ (if goes_on (contents stopped.queue) stopped.active then waiting else ended))
woken-runs_all_example = woken-runs_all stopped refl (cc)

-- Stop before the thread first waits: Join does not return.
early_tasks-lost_example :
    (w : Worker) × Runs started w
    × (w.pushed ≡ stop ∷ [])
    × (contents w.queue ≡ stop ∷ [])
    × (w.pending ≡ 0)
    × ((w' : Worker)
        → Quiet w w'
        → (w'.ran ≡ []) × (contents w'.queue ≡ stop ∷ []) × (w'.point ≢ ended))
early_tasks-lost_example = early_tasks-lost (stop ∷ [])

empty_function-called_example :
    (w : Worker) × Serial started w
    × (w.ran ≡ both 3 4)
    × (contents w.queue ≡ [])
    × (w.pending ≡ 0)
    × (w.point ≡ thrown)
empty_function-called_example = empty_function-called 3 4

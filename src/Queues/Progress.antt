-- ===== src/Queues/Progress.antt =====
-- What the thread does on its own after it is woken (Monitor/Monitor/PoolThread.hpp).
use real_time_monitor_agent.Base.{
  ℕ, zero, suc, ◌≡◌, ◌≢◌, refl, sym, ap, ◌∙◌, List, [], ◌∷◌, ◌++◌, Option, none, some, Bool, false,
  if◌then◌else◌, inl, inr, arith, append-nil, append_assoc, List-cases,
}
use real_time_monitor_agent.Queues.{
  Package, job, stop, no_messages, waiting, woken, popping, checking, ended, Worker, work,
}
use real_time_monitor_agent.Queues.Fifo.{contents}

-- `n` steps of the thread, with no other thread in between.
unfoldable pub works_on : ℕ → Worker → Option Worker
works_on zero w = some w
works_on (suc n) w = elim (work w) [ none ↦ none | some w' ↦ works_on n w' ]

-- Whether the thread goes on after these tasks.
abbrev pub goes_on : List Package → Bool → Bool
goes_on [] active = active
goes_on (job n ∷ ts) active = goes_on ts active
goes_on (stop ∷ ts) active = goes_on ts false

-- What the thread leaves when it has run the tasks `ts`.
abbrev finished : List Package → Worker → Worker
finished ts w = record w {
  queue = no_messages;
  active = goes_on ts w.active;
  point = if goes_on ts w.active then waiting else ended;
  ran = w.ran ++ ts;
}

works_on-step :
    (n : ℕ) (w w₁ w₂ : Worker)
    → work w ≡ some w₁
    → works_on n w₁ ≡ some w₂
    → works_on (suc n) w ≡ some w₂
unfolding works_on
works_on-step n w w₁ w₂ e rest = ground (arith, e, rest)

-- `package()` on the task `t`, with `ts` left.
abbrev called : Package → List Package → Worker → Worker
called t ts w = record w {
  queue = record { msg_wait_list = []; msg_proc_list = ts };
  active = goes_on (t ∷ []) w.active;
  point = checking;
  ran = w.ran ++ (t ∷ []);
}

work-called :
    (t : Package) (ts : List Package) (w : Worker)
    → w.point ≡ popping
    → w.queue ≡ record { msg_wait_list = []; msg_proc_list = t ∷ ts }
    → work w ≡ some (called t ts w)
unfolding work
work-called (job n) ts w e q = ground arith
work-called stop ts w e q = ground arith

-- `!Empty()`, then `active_`.
checks-last :
    (w : Worker)
    → w.point ≡ checking
    → w.queue ≡ no_messages
    → works_on 2 w ≡ some (record w { point = if w.active then waiting else ended })
unfolding work works_on
checks-last w e q = ground arith

checks-more :
    (t : Package) (ts : List Package) (w : Worker)
    → w.point ≡ checking
    → w.queue ≡ record { msg_wait_list = []; msg_proc_list = t ∷ ts }
    → work w ≡ some (record w { point = popping })
unfolding work
checks-more t ts w e q = ground arith

goes_on-cons :
    (t : Package) (ts : List Package) (active : Bool)
    → goes_on ts (goes_on (t ∷ []) active) ≡ goes_on (t ∷ ts) active
goes_on-cons (job n) ts active = refl
goes_on-cons stop ts active = refl

finished-called :
    (t u : Package) (ts : List Package) (w : Worker)
    → finished (u ∷ ts) (record (called t (u ∷ ts) w) { point = popping })
      ≡ finished (t ∷ (u ∷ ts)) w
finished-called t u ts w =
    ground (arith, goes_on-cons t (u ∷ ts) w.active, append_assoc w.ran (t ∷ []) (u ∷ ts))

-- The inner loop, before `Pop`, and the test of the outer one behind it.
drains :
    (ts : List Package) (t : Package) (w : Worker)
    → w.point ≡ popping
    → w.queue ≡ record { msg_wait_list = []; msg_proc_list = t ∷ ts }
    → (n : ℕ) × (works_on n w ≡ some (finished (t ∷ ts) w))
drains [] t w e q = (
  3,
  works_on-step 2 w (called t [] w) (finished (t ∷ []) w) (work-called t [] w e q)
      (checks-last (called t [] w) refl refl),
)
drains (u ∷ ts) t w e q =
    let w₁ : Worker = record (called t (u ∷ ts) w) { point = popping } in
    let (k, done) = drains ts u w₁ refl refl in
    (
      suc (suc k),
      works_on-step (suc k) w (called t (u ∷ ts) w) _ (work-called t (u ∷ ts) w e q) (
          works_on-step k (called t (u ∷ ts) w) w₁ _
            (checks-more u ts (called t (u ∷ ts) w) refl refl)
            (done ∙ ap some (finished-called t u ts w))),
    )

splices :
    (t : Package) (ts : List Package) (w : Worker)
    → w.point ≡ woken
    → contents w.queue ≡ t ∷ ts
    → work w
      ≡ some (record w {
        queue = record { msg_wait_list = []; msg_proc_list = t ∷ ts };
        point = popping;
      })
unfolding work
splices t ts w e q = elim (List-cases w.queue.msg_wait_list) [
  | inl no_wait ↦ ground (arith, append-nil w.queue.msg_proc_list)
  | inr (u, us, some_wait) ↦ ground arith
]

-- Once the thread is woken with tasks to do, it runs all of them in their order on its own, also those
-- behind the one of Stop; then it waits again with both lists empty, or ends if it has been stopped.
pub woken-runs_all :
    (w : Worker)
    → w.point ≡ woken
    → contents w.queue ≢ []
    → (n : ℕ) × (w' : Worker) × (works_on n w ≡ some w')
      × (w'.ran ≡ w.ran ++ contents w.queue)
      × (contents w'.queue ≡ [])
      × (w'.point ≡ (if goes_on (contents w.queue) w.active then waiting else ended))
woken-runs_all w e some_left = elim (List-cases (contents w.queue)) [
  | inl nothing ↦ absurd (some_left nothing)
  | inr (t, ts, q) ↦
      let w₁ : Worker = record w {
        queue = record { msg_wait_list = []; msg_proc_list = t ∷ ts };
        point = popping;
      } in
      let (k, done) = drains ts t w₁ refl refl in
      (
        suc k,
        finished (t ∷ ts) w,
        works_on-step k w w₁ (finished (t ∷ ts) w) (splices t ts w e q) done,
        ap (λ l. w.ran ++ l) (sym q),
        refl,
        ap (λ l. if goes_on l w.active then waiting else ended) (sym q),
      )
]

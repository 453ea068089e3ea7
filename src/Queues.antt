-- ===== src/Queues.antt =====
-- The queue of a worker thread and the loop of the thread, with the producers that push tasks
-- (Monitor/Monitor/MessageQueue.hpp and InternalThread of PoolThread.hpp).
-- Each step runs from one point where the locks let another thread in to the next.
pub mod Fifo
pub mod Progress
pub mod Wakeups
mod Examples
use real_time_monitor_agent.Base.{
  ℕ, suc, ◌+◌, ◌≡◌, List, [], ◌∷◌, ◌++◌, Option, none, some, Bool, true, false, length,
  if◌then◌else◌,
}

-- A `std::function<void ()>`: one that Schedule got, or that of Stop.
pub data Package : Type 0 where
  job : ℕ → Package
  stop : Package

pub record MessageQueue : Type 0 where
  pub msg_wait_list : List Package
  pub msg_proc_list : List Package

abbrev pub no_messages : MessageQueue
no_messages = record { msg_wait_list = []; msg_proc_list = [] }

-- `Push` up to the unlock; `notify_one` is a step of its own.
unfoldable pub push : Package → MessageQueue → MessageQueue
push msg q = record q { msg_wait_list = q.msg_wait_list ++ (msg ∷ []) }

-- `Wait` from the return of `msg_queue_cv_.wait` on.
unfoldable pub splice : MessageQueue → MessageQueue
splice q = elim q.msg_wait_list [
  | [] ↦ q
  | x ∷ xs ↦ record { msg_wait_list = []; msg_proc_list = q.msg_proc_list ++ q.msg_wait_list }
]

-- `none` is the value of `T t;`, the function that is empty.
unfoldable pub pop : MessageQueue → Option Package × MessageQueue
pop q = elim q.msg_proc_list [ [] ↦ (none, q) | x ∷ xs ↦ (some x, record q { msg_proc_list = xs }) ]

unfoldable pub is_empty : MessageQueue → Bool
is_empty q = elim q.msg_proc_list [ [] ↦ true | x ∷ xs ↦ false ]

unfoldable pub queue_size : MessageQueue → ℕ
queue_size q = length q.msg_wait_list + length q.msg_proc_list

-- Where the thread is: before `while (active_)`, inside `msg_queue_cv_.wait`, behind it, before
-- `Pop`, before `!Empty()`, behind the loop, and ended by the exception of an empty function.
pub data Point : Type 0 where
  testing waiting woken popping checking ended thrown : Point

-- `pending` counts the producers between the unlock of `Push` and `notify_one`; `ran` and `pushed`
-- are the tasks that were run and pushed up to now.
pub record Worker : Type 0 where
  pub queue : MessageQueue
  pub active : Bool
  pub point : Point
  pub pending : ℕ
  pub ran : List Package
  pub pushed : List Package

-- Behind `active_ = PJ_TRUE` of Start.
abbrev pub started : Worker
started = record {
  queue = no_messages;
  active = true;
  point = testing;
  pending = 0;
  ran = [];
  pushed = [];
}

-- `package()`.
unfoldable pub call_package : Package → Worker → Worker
call_package (job n) w = record w { ran = w.ran ++ (job n ∷ []); point = checking }
call_package stop w = record w { ran = w.ran ++ (stop ∷ []); point = checking; active = false }

-- The next step of the thread; `none` where it has none of its own.
unfoldable pub advance : Point → Worker → Option Worker
unfolding splice pop is_empty call_package
advance testing w =
    if w.active then some (record w { point = waiting }) else some (record w { point = ended })
advance waiting w = none
advance woken w = some (record w { queue = splice w.queue; point = popping })
advance popping w =
    let (msg, q) = pop w.queue in
    elim msg [
      | none ↦ some (record w { point = thrown })
      | some t ↦ some (call_package t (record w { queue = q }))
    ]
advance checking w =
    if is_empty w.queue
    then some (record w { point = testing })
    else some (record w { point = popping })
advance ended w = none
advance thrown w = none

unfoldable pub work : Worker → Option Worker
unfolding advance
work w = advance w.point w

unfoldable pub push_task : Package → Worker → Worker
unfolding push
push_task t w = record w {
  queue = push t w.queue;
  pending = suc w.pending;
  pushed = w.pushed ++ (t ∷ []);
}

-- `notify_one` wakes the thread if it waits, and is lost else.
unfoldable pub woken_from : Point → Point
woken_from waiting = woken
woken_from other = other

unfoldable pub notify : ℕ → Worker → Worker
unfolding woken_from
notify left w = record w { pending = left; point = woken_from w.point }

-- What the threads do, in any order. A wait may also end for no reason.
pub data Step (w : Worker) : Worker → Type 0 where
  works : (w' : Worker) → work w ≡ some w' → Step w w'
  pushes : (t : Package) → Step w (push_task t w)
  notifies : (left : ℕ) → w.pending ≡ suc left → Step w (notify left w)
  wakes : w.point ≡ waiting → Step w (record w { point = woken })

pub data Runs (w : Worker) : Worker → Type 0 where
  here : Runs w w
  next : (w₁ w₂ : Worker) → Runs w w₁ → Step w₁ w₂ → Runs w w₂

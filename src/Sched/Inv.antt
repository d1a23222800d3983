-- ===== src/Sched/Inv.antt =====
-- The shape of the task queue of ntoskrnl/ps/sched.c, and `PsLoadTask`.
use open_lib.Common.{
  ℕ, zero, suc, ◌+◌, ◌≤◌, ◌<◌, ◌≡◌, ◌≢◌, refl, arith, for_range, for_range_inv, update, ◌==◌,
  if◌then◌else◌, ltb, Bool-cases, inl, inr, false,
}
use open_lib.Sched.{
  Task, Sched, Status, stopped, running, no_init, max_tasks, is_empty, clear_task, load_from,
  load_task, threads_init,
}

-- The tasks loaded so far fill the queue from its start.
pub record IsLoaded (s : Sched) : Type 0 where
  pub room : s.task_count ≤ max_tasks
  pub live : (i : ℕ) → i < s.task_count → (s.tasks i).status ≢ no_init
  pub empty : (i : ℕ) → s.task_count ≤ i → i < max_tasks → (s.tasks i).status ≡ no_init

-- Before the first tick no task runs.
abbrev pub AllStopped : Sched → Type 0
AllStopped s = (i : ℕ) → i < s.task_count → (s.tasks i).status ≡ stopped

-- One task runs, and all the others that are loaded are stopped.
pub record RunsAt (s : Sched) (r : ℕ) : Type 0 where
  pub in_queue : r < s.task_count
  pub runs : (s.tasks r).status ≡ running
  pub others : (i : ℕ) → i < s.task_count → i ≢ r → (s.tasks i).status ≡ stopped

-- `PsThreadsInit` makes an empty queue of a task count of 0.
pub threads_init-IsLoaded :
    (memory : ℕ → Task) (s : Sched) → s.task_count ≡ 0 → IsLoaded (threads_init memory s)
unfolding threads_init
threads_init-IsLoaded memory s e = record {
  room = rw e (omega arith);
  live = λ i h. absurd (omega arith);
  empty = λ i lo hi. cleared i hi;
}
  where
    cleared : (i : ℕ) → i < max_tasks → (for_range max_tasks 0 clear_task memory i).status ≡ no_init
    cleared =
        for_range_inv (λ k t. (i : ℕ) → i < k → (t i).status ≡ no_init) clear_task max_tasks 0
          max_tasks memory
          (λ k t lo hi p i h. elim (Bool-cases (k == i)) [
            | inl e ↦ ground arith
            | inr e ↦ ground (arith, p i)
          ])
          refl (λ i h. absurd (omega arith))

-- The queue after `task` went into the first empty place.
abbrev pub appended : Task → Sched → Sched
appended task s = record s {
  tasks = update s.tasks s.task_count (record task { status = stopped });
  task_count = s.task_count + 1;
}

not_empty : (st : Status) → st ≢ no_init → is_empty st ≡ false
not_empty stopped h = refl
not_empty running h = refl
not_empty no_init h = absurd (h refl)

load_from_lem :
    (task : Task) (s : Sched) (left i : ℕ)
    → IsLoaded s
    → i ≤ s.task_count
    → i + left ≡ max_tasks
    → load_from task left i s ≡ (if ltb s.task_count max_tasks then appended task s else s)
unfolding load_from
load_from_lem task s zero i w p e = ground (arith, w.room)
load_from_lem task s (suc left) i w p e = elim (Bool-cases (i == s.task_count)) [
  | inl at ↦ ground (arith, w.empty i)
  | inr before ↦ ground (
    arith,
    not_empty (s.tasks i).status (w.live i (ground arith)),
    load_from_lem task s left (i + 1) w,
  )
]

-- `PsLoadTask` puts a task behind the ones that are loaded, stopped, and drops it when all 64
-- places are taken.
pub load_task_lem :
    (task : Task) (s : Sched)
    → IsLoaded s
    → load_task task s ≡ (if ltb s.task_count max_tasks then appended task s else s)
unfolding load_task
load_task_lem task s w = load_from_lem task s max_tasks 0 w (omega arith) refl

appended-IsLoaded :
    (task : Task) (s : Sched) → IsLoaded s → s.task_count < max_tasks → IsLoaded (appended task s)
appended-IsLoaded task s w h = record {
  room = omega arith;
  live = λ i p. ground (arith, w.live i);
  empty = λ i lo hi. ground (arith, w.empty i);
}

-- Loading keeps the shape of the queue, and the task that runs.
pub load_task-IsLoaded : (task : Task) (s : Sched) → IsLoaded s → IsLoaded (load_task task s)
load_task-IsLoaded task s w =
    rw (load_task_lem task s w) (elim (Bool-cases (ltb s.task_count max_tasks)) [
      | inl h ↦ rw h (appended-IsLoaded task s w (ground arith))
      | inr h ↦ rw h w
    ])

appended-RunsAt : (task : Task) (s : Sched) (r : ℕ) → RunsAt s r → RunsAt (appended task s) r
appended-RunsAt task s r a = record {
  in_queue = omega (arith, a.in_queue);
  runs = ground (arith, a.in_queue, a.runs);
  others = λ i p ne. ground (arith, a.others i);
}

pub load_task-RunsAt :
    (task : Task) (s : Sched) (r : ℕ) → IsLoaded s → RunsAt s r → RunsAt (load_task task s) r
load_task-RunsAt task s r w a =
    rw (load_task_lem task s w) (elim (Bool-cases (ltb s.task_count max_tasks)) [
      | inl h ↦ rw h (appended-RunsAt task s r a)
      | inr h ↦ rw h a
    ])

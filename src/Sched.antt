-- ===== src/Sched.antt =====
-- The round-robin scheduler, ntoskrnl/ps/sched.c, and thread creation, ntoskrnl/ps/ps.c. The task
-- queue is the array behind `tasks`; the printed messages leave no trace in the state.
pub mod Loops
pub mod Inv
pub mod RoundRobin
pub mod Threads
mod Tests
use open_lib.Common.{
  ℕ, zero, suc, ◌+◌, ◌-◌, ◌%◌, ◌^◌, ◌<◌, Bool, true, false, Option, none, some, ◌==◌, ltb,
  if◌then◌else◌, update, for_range,
}

-- `struct InterruptRegisters`: the fields that thread creation sets, and all the others together.
pub record Registers : Type 0 where
  pub rip : ℕ
  pub cs : ℕ
  pub rflags : ℕ
  pub rsp : ℕ
  pub ss : ℕ
  pub others : ℕ → ℕ

-- TASK_STOPPED, TASK_RUNNING and TASK_NO_INIT.
pub data Status : Type 0 where
  stopped running no_init : Status

abbrev pub is_stopped : Status → Bool
is_stopped stopped = true
is_stopped _ = false

abbrev pub is_running : Status → Bool
is_running running = true
is_running _ = false

abbrev pub is_empty : Status → Bool
is_empty no_init = true
is_empty _ = false

pub record Task : Type 0 where
  pub pid : ℕ
  pub status : Status
  pub regs : Registers
  pub page_map : ℕ
  pub flags : ℕ

pub record Sched : Type 0 where
  pub tasks : ℕ → Task
  pub task_count : ℕ

abbrev pub max_tasks : ℕ
max_tasks = 64

abbrev pub set_status : Sched → ℕ → Status → Sched
set_status s i st = record s { tasks = update s.tasks i (record (s.tasks i) { status = st }) }

-- The loop over `k`: the first stopped task from `k` on, in `left` rounds.
unfoldable pub find_again : (ℕ → Task) → ℕ → ℕ → Option ℕ
find_again tasks zero k = none
find_again tasks (suc left) k =
    let rest = find_again tasks left (k + 1) in if is_stopped (tasks k).status then some k else rest

-- The loop over `j`, for the running task `i`; the last round starts the loop over `k`.
unfoldable pub find_next : (ℕ → Task) → ℕ → ℕ → ℕ → Option ℕ
find_next tasks i zero j = none
find_next tasks i (suc left) j =
    let rest = find_next tasks i left (j + 1) in
    let again = find_again tasks (i + 1) 0 in
    if is_stopped (tasks j).status
    then some j
    else if j == max_tasks - 1
    then elim again [ some k ↦ some k | none ↦ rest ]
    else rest

-- The running task is stopped and its registers are saved.
unfoldable pub suspend : Sched → ℕ → Registers → Sched
suspend s i regs = record s {
  tasks = update s.tasks i (record (s.tasks i) { status = stopped; regs = regs });
}

-- The loop over `i`, with the `iNext` that it leaves: 0 if no `goto end` is reached.
unfoldable pub rotate : Registers → ℕ → ℕ → Sched → Sched × ℕ
rotate regs zero i s = (s, 0)
rotate regs (suc left) i s =
    let skip = rotate regs left (i + 1) s in
    let s' = suspend s i regs in
    let more = rotate regs left (i + 1) s' in
    if is_running (s.tasks i).status
    then elim (find_next s'.tasks i (max_tasks - 1 - i) (i + 1)) [ some j ↦ (s', j) | none ↦ more ]
    else skip

-- From the label `end` on. `some i`: `pop_regs` leaves the handler with the registers of task `i`.
unfoldable pub resume : Sched → ℕ → Sched × Option ℕ
resume s next =
    if is_running (s.tasks next).status then (s, none) else (set_status s next running, some next)

-- `PsScheduleThreads`.
unfoldable pub schedule_threads : Registers → Sched → Sched × Option ℕ
schedule_threads regs s =
    if s.task_count == 0
    then (s, none)
    else if ltb 1 s.task_count
    then resume (rotate regs max_tasks 0 s).0 (rotate regs max_tasks 0 s).1
    else resume s 0

-- The loop of `PsLoadTask`.
unfoldable pub load_from : Task → ℕ → ℕ → Sched → Sched
load_from task zero i s = s
load_from task (suc left) i s =
    let rest = load_from task left (i + 1) s in
    if is_empty (s.tasks i).status
    then record s {
      tasks = update s.tasks i (record task { status = stopped });
      task_count = s.task_count + 1;
    }
    else rest

unfoldable pub load_task : Task → Sched → Sched
load_task task s = load_from task max_tasks 0 s

abbrev pub clear_task : ℕ → (ℕ → Task) → ℕ → Task
clear_task i t = update t i (record (t i) { status = no_init })

-- `PsThreadsInit` over the memory that `malloc` returns; `iTaskCount` is left as it is.
unfoldable pub threads_init : (ℕ → Task) → Sched → Sched
threads_init memory s = record s { tasks = for_range max_tasks 0 clear_task memory }

abbrev pub stack_size : ℕ
stack_size = 0x10000

-- The task that `PspCreateThread` fills in; `memory` is what the new record holds before. The
-- stack's address is cut to a UINT before the size is added.
unfoldable pub new_task : ℕ → Task → ℕ → ℕ → ℕ → Task
new_task rip memory stack page_map pid = record memory {
  flags = 2;
  pid = pid;
  page_map = page_map;
  regs = record (memory.regs) {
    rip = rip;
    rflags = 2 ^ 9 + 2;
    cs = 0x28;
    ss = 0x30;
    rsp = (stack % 2 ^ 32 + stack_size) % 2 ^ 32;
  };
}

-- `PspCreateThread`, with the new `iPidCount`. The results of the two `malloc` calls and of
-- `vmm_create_new_pagemap` are arguments.
unfoldable pub create_thread : ℕ → Task → ℕ → ℕ → ℕ → Sched → Sched × ℕ
create_thread rip memory stack page_map pid_count s =
    (load_task (new_task rip memory stack page_map pid_count) s, pid_count + 1)

-- ===== src/Sched/Threads.antt =====
-- `PspCreateThread` of ntoskrnl/ps/ps.c and the queue.
use open_lib.Common.{ℕ, ◌+◌, ◌^◌, ◌≤◌, ◌<◌, ◌≡◌, ◌≢◌, refl, arith}
use open_lib.Sched.{Task, Sched, stopped, max_tasks, load_task, new_task, create_thread, stack_size}
use open_lib.Sched.Inv.{IsLoaded, appended, load_task_lem, load_task-IsLoaded}

load_task_room :
    (task : Task) (s : Sched)
    → IsLoaded s
    → s.task_count < max_tasks
    → load_task task s ≡ appended task s
load_task_room task s w h = ground (arith, load_task_lem task s w)

module _ (rip : ℕ) (memory : Task) (stack page_map pids : ℕ) (s : Sched) where
  -- While a place is free, the new thread stands behind the loaded tasks, stopped, with the next
  -- process id, its entry point and its page map; the queue keeps its shape.
  pub create_thread_lem :
      IsLoaded s
      → s.task_count < max_tasks
      → let (s', next) = create_thread rip memory stack page_map pids s in
        IsLoaded s'
        × (s'.task_count ≡ s.task_count + 1)
        × ((s'.tasks s.task_count).status ≡ stopped)
        × ((s'.tasks s.task_count).pid ≡ pids)
        × ((s'.tasks s.task_count).regs.rip ≡ rip)
        × ((s'.tasks s.task_count).page_map ≡ page_map)
        × (next ≡ pids + 1)
  unfolding create_thread new_task
  create_thread_lem w h =
      let loads = load_task_room (new_task rip memory stack page_map pids) s w h in
      (
        load_task-IsLoaded (new_task rip memory stack page_map pids) s w,
        ground arith,
        ground arith,
        ground arith,
        ground arith,
        ground arith,
        refl,
      )

  -- The stack pointer of the new thread is wrong whenever its stack lies above 4 GiB, as every
  -- address of the direct map does.
  pub create_thread_stack_cut :
      IsLoaded s
      → s.task_count < max_tasks
      → 2 ^ 32 ≤ stack
      → ((create_thread rip memory stack page_map pids s).0.tasks s.task_count).regs.rsp
        ≢ stack + stack_size
  unfolding create_thread new_task
  create_thread_stack_cut w h high =
      let loads = load_task_room (new_task rip memory stack page_map pids) s w h in
      λ e. ground arith

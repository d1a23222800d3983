-- ===== src/Sched/Tests.antt =====
-- Runs of the scheduler on a queue of three tasks, and its theorems at those inputs.
use open_lib.Common.{
  ℕ, ◌+◌, ◌≡◌, ◌≢◌, refl, arith, some, none, List, [], ◌∷◌, ltb, if◌then◌else◌, ◌==◌,
}
use open_lib.Sched.{
  Task, Sched, Registers, Status, stopped, running, no_init, stack_size, set_status, find_again,
  find_next, suspend, rotate, resume, schedule_threads, create_thread,
}
use open_lib.Sched.Inv.{IsLoaded, RunsAt, AllStopped}
use open_lib.Sched.RoundRobin.{
  Turn, schedule_threads-Turn, schedule_threads_start, run_ticks, run_ticks-round,
}
use open_lib.Sched.Threads.{create_thread_stack_cut}

abbrev regs_at : ℕ → Registers
regs_at a = record { rip = a; cs = 0x28; rflags = 0x202; rsp = 0x9000; ss = 0x30; others = λ i. a }

abbrev task : Status → Task
task st = record { pid = 7; status = st; regs = regs_at 0; page_map = 0; flags = 2 }

abbrev queue : (ℕ → Status) → Sched
queue st = record { tasks = λ i. task (st i); task_count = 3 }

-- Three tasks, none of which runs yet.
abbrev fresh : Sched
fresh = queue (λ i. if ltb i 3 then stopped else no_init)

-- The same with the last one running.
abbrev busy : Sched
busy = queue (λ i. if i == 2 then running else if ltb i 3 then stopped else no_init)

busy_turns :
    ((schedule_threads (regs_at 5) busy).1 ≡ some 0)
    × ((schedule_threads (regs_at 5) (schedule_threads (regs_at 5) busy).0).1 ≡ some 1)
    × (((schedule_threads (regs_at 5) busy).0.tasks 2).regs.rip ≡ 5)
unfolding schedule_threads rotate find_next find_again suspend resume
busy_turns = (refl, refl, refl)

fresh-IsLoaded : IsLoaded fresh
fresh-IsLoaded = record {
  room = omega arith;
  live = λ i h. ground arith;
  empty = λ i lo hi. ground arith;
}

fresh-AllStopped : AllStopped fresh
fresh-AllStopped i h = ground arith

busy-IsLoaded : IsLoaded busy
busy-IsLoaded = record {
  room = omega arith;
  live = λ i h. ground arith;
  empty = λ i lo hi. ground arith;
}

busy-RunsAt : RunsAt busy 2
busy-RunsAt = record { in_queue = omega arith; runs = refl; others = λ i h ne. ground arith }

schedule_threads-Turn_example : Turn busy 2 (regs_at 5) (schedule_threads (regs_at 5) busy) 0
schedule_threads-Turn_example =
    schedule_threads-Turn busy 2 (regs_at 5) busy-IsLoaded busy-RunsAt (omega arith)

schedule_threads_start_example :
    schedule_threads (regs_at 5) fresh ≡ (set_status fresh 0 running, some 0)
schedule_threads_start_example =
    schedule_threads_start fresh (regs_at 5) fresh-IsLoaded fresh-AllStopped (omega arith)

abbrev two_more : List Registers
two_more = regs_at 6 ∷ regs_at 7 ∷ []

run_ticks-round_example :
    RunsAt (run_ticks (regs_at 5 ∷ two_more) (busy, none)).0 2
    × ((run_ticks (regs_at 5 ∷ two_more) (busy, none)).1 ≡ some 2)
    × (((run_ticks (regs_at 5 ∷ two_more) (busy, none)).0.tasks 2).regs ≡ regs_at 5)
run_ticks-round_example =
    run_ticks-round (regs_at 5) two_more busy 2 none busy-IsLoaded busy-RunsAt (omega arith) refl

create_thread_stack_cut_example :
    ((create_thread 0x401000 (task no_init) 0xffff800000100000 0x5000 4 busy).0.tasks 3).regs.rsp
    ≢ 0xffff800000100000 + stack_size
create_thread_stack_cut_example =
    create_thread_stack_cut 0x401000 (task no_init) 0xffff800000100000 0x5000 4 busy busy-IsLoaded
      (omega arith) (omega arith)

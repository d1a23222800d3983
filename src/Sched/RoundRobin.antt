-- ===== src/Sched/RoundRobin.antt =====
-- The ticks of the timer: `PsScheduleThreads` of ntoskrnl/ps/sched.c.
use mathlib.Core.Path.{subst}
use native.Mathlib.Nat.{add-zero, mod-eq_of_lt, add-mod_left, add-mod_right}
use open_lib.Common.{
  ℕ, zero, suc, ◌+◌, ◌-◌, ◌%◌, ◌≤◌, ◌<◌, ◌≡◌, ◌≢◌, refl, arith, Option, some, none, List, [], ◌∷◌,
  length, ap, sym, ◌∙◌, leb, ==_iff, ◌==◌, if◌then◌else◌, ltb, Bool-cases, inl, inr,
}
use open_lib.Sched.{
  Sched, Registers, stopped, running, max_tasks, set_status, suspend, rotate, resume,
  schedule_threads,
}
use open_lib.Sched.Inv.{IsLoaded, RunsAt, AllStopped}
use open_lib.Sched.Loops.{next_of, rotate_lem, suspend-stopped}

-- The queue after the registers of task `r` were saved and task `t` was started.
abbrev pub switched : Sched → ℕ → Registers → ℕ → Sched
switched s r regs t = set_status (suspend s r regs) t running

next_of-lt : (n r : ℕ) → r < n → next_of n r < n
next_of-lt n r h = ground arith

-- With two tasks or more, a tick saves the running task `r`, and resumes the next one in the ring.
pub schedule_threads_lem :
    (s : Sched) (r : ℕ) (regs : Registers)
    → IsLoaded s
    → RunsAt s r
    → 2 ≤ s.task_count
    → schedule_threads regs s
      ≡ (switched s r regs (next_of s.task_count r), some (next_of s.task_count r))
unfolding schedule_threads resume
schedule_threads_lem s r regs w a two =
    let t = next_of s.task_count r in
    let idle = suspend-stopped s r regs w a two t (next_of-lt s.task_count r a.in_queue) in
    ground (arith, rotate_lem s r regs w a two max_tasks 0, idle)

-- After the tick, with the task that `pop_regs` loads: the next task runs, no other does, and the
-- queue keeps its shape.
pub record Turn (s : Sched) (r : ℕ) (regs : Registers) (after : Sched × Option ℕ) (t : ℕ)
    : Type 0 where
  pub loaded : IsLoaded after.0
  pub turn : RunsAt after.0 t
  pub same_count : after.0.task_count ≡ s.task_count
  pub popped : after.1 ≡ some t
  pub saved : after.0.tasks r ≡ record (s.tasks r) { status = stopped; regs = regs }
  pub resumed : after.0.tasks t ≡ record (s.tasks t) { status = running }
  pub kept : (i : ℕ) → i ≢ r → i ≢ t → after.0.tasks i ≡ s.tasks i

switched-Turn :
    (s : Sched) (r : ℕ) (regs : Registers) (t : ℕ)
    → IsLoaded s
    → RunsAt s r
    → t < s.task_count
    → t ≢ r
    → Turn s r regs (switched s r regs t, some t) t
unfolding suspend
switched-Turn s r regs t w a h ne = record {
  loaded = record {
    room = w.room;
    live = λ i p. ground (arith, w.live i);
    empty = λ i lo hi. ground (arith, w.empty i, a.in_queue);
  };
  turn = record {
    in_queue = h;
    runs = ground arith;
    others = λ i p other. ground (arith, a.others i);
  };
  same_count = refl;
  popped = refl;
  saved = let off : r ≢ t = λ e. ne (sym e) in ground arith;
  resumed = ground arith;
  kept = λ i off off'. ground arith;
}

next_of-ne : (n r : ℕ) → 2 ≤ n → r < n → next_of n r ≢ r
next_of-ne n r two h e = ground arith

-- With two tasks or more, a tick loads the registers of the next task in the ring, which becomes
-- the only one that runs. The task that ran is stopped with its registers saved and is else as
-- before, the next one changes its status alone, and every other task and the number of tasks stay
-- as they are.
pub schedule_threads-Turn :
    (s : Sched) (r : ℕ) (regs : Registers)
    → IsLoaded s
    → RunsAt s r
    → 2 ≤ s.task_count
    → Turn s r regs (schedule_threads regs s) (next_of s.task_count r)
schedule_threads-Turn s r regs w a two = rw (schedule_threads_lem s r regs w a two) (
    switched-Turn s r regs (next_of s.task_count r) w a (next_of-lt s.task_count r a.in_queue)
      (next_of-ne s.task_count r two a.in_queue))

-- A tick leaves the registers of the tasks that did not run.
other_regs :
    (s : Sched) (r : ℕ) (regs : Registers) (after : Sched × Option ℕ) (t i : ℕ)
    → Turn s r regs after t
    → i ≢ r
    → (after.0.tasks i).regs ≡ (s.tasks i).regs
other_regs s r regs after t i turn ne = elim (Bool-cases (i == t)) [
  | inl next ↦ let same : i ≡ t = (==_iff i t).0 next in rw (same, turn.resumed) refl
  | inr off ↦ rw (turn.kept i ne (λ e. ground (arith, e, off))) refl
]

-- A lone task that runs is left running.
pub schedule_threads_alone :
    (s : Sched) (regs : Registers)
    → RunsAt s 0
    → s.task_count ≡ 1
    → schedule_threads regs s ≡ (s, none)
unfolding schedule_threads resume
schedule_threads_alone s regs a one = ground (arith, a.runs)

rotate-none :
    (s : Sched) (regs : Registers) (left i : ℕ)
    → IsLoaded s
    → AllStopped s
    → i + left ≡ max_tasks
    → rotate regs left i s ≡ (s, 0)
unfolding rotate
rotate-none s regs zero i w idle e = refl
rotate-none s regs (suc left) i w idle e = elim (Bool-cases (ltb i s.task_count)) [
  | inl below ↦ ground (arith, idle i, rotate-none s regs left (i + 1) w idle (omega arith))
  | inr above ↦ ground (arith, w.empty i, rotate-none s regs left (i + 1) w idle (omega arith))
]

-- The first tick after tasks were loaded starts the task at the front.
pub schedule_threads_start :
    (s : Sched) (regs : Registers)
    → IsLoaded s
    → AllStopped s
    → 1 ≤ s.task_count
    → schedule_threads regs s ≡ (set_status s 0 running, some 0)
unfolding schedule_threads resume
schedule_threads_start s regs w idle one =
    ground (arith, idle 0, rotate-none s regs max_tasks 0 w idle refl)

-- The queue after a row of ticks, each with the registers that the interrupt found, and the task
-- whose registers the last one loads.
abbrev pub run_ticks : List Registers → Sched × Option ℕ → Sched × Option ℕ
run_ticks [] st = st
run_ticks (regs ∷ later) st = run_ticks later (schedule_threads regs st.0)

next_of-mod : (n r k : ℕ) → r < n → (next_of n r + k) % n ≡ (r + suc k) % n
next_of-mod n r k h = elim (Bool-cases (r + 1 == n)) [
  | inl last ↦ rw last (
      ap (λ t. t % n) (omega arith)
      ∙ sym (add-mod_left n k)
      ∙ ap (λ t. t % n) (let full = (==_iff (r + 1) n).0 last in omega arith))
  | inr inner ↦ rw inner (ap (λ t. t % n) (omega arith))
]

-- The task `t` runs alone, and its registers are the ones that were loaded.
abbrev pub HasTurn : Sched × Option ℕ → ℕ → Type 0
HasTurn st t = RunsAt st.0 t × (st.1 ≡ some t)

-- The tasks take turns: after `k` ticks from task `r` the task `(r + k) % n` runs alone.
pub run_ticks-HasTurn :
    (later : List Registers) (st : Sched × Option ℕ) (r : ℕ)
    → IsLoaded st.0
    → HasTurn st r
    → 2 ≤ st.0.task_count
    → HasTurn (run_ticks later st) ((r + length later) % st.0.task_count)
run_ticks-HasTurn [] st r w a two = rw (add-zero, mod-eq_of_lt a.0.in_queue) a
run_ticks-HasTurn (regs ∷ later) st r w a two =
    let s = st.0 in
    let turn = schedule_threads-Turn s r regs w a.0 two in
    let st' = schedule_threads regs s in
    let rest =
      run_ticks-HasTurn later st' (next_of s.task_count r) turn.loaded (turn.turn, turn.popped)
        (rw turn.same_count two) in
    let place : (next_of s.task_count r + length later) % st'.0.task_count
        ≡ (r + suc (length later)) % s.task_count =
      rw turn.same_count (next_of-mod s.task_count r (length later) a.0.in_queue) in
    subst (λ m. HasTurn (run_ticks later st') m) place rest

-- The ticks before the turn of `r` comes, from the turn of `t`.
abbrev dist : ℕ → ℕ → ℕ → ℕ
dist n t r = if leb t r then r - t else r + n - t

dist-next_of :
    (n t r : ℕ) → t < n → r < n → 0 < dist n t r → dist n (next_of n t) r + 1 ≡ dist n t r
dist-next_of n t r ht hr h = ground arith

regs_kept :
    (later : List Registers) (st : Sched × Option ℕ) (t r : ℕ)
    → IsLoaded st.0
    → RunsAt st.0 t
    → 2 ≤ st.0.task_count
    → r < st.0.task_count
    → length later ≤ dist st.0.task_count t r
    → ((run_ticks later st).0.tasks r).regs ≡ (st.0.tasks r).regs
regs_kept [] st t r w a two hr h = refl
regs_kept (regs ∷ later) st t r w a two hr h =
    let s = st.0 in
    let turn = schedule_threads-Turn s t regs w a two in
    let st' = schedule_threads regs s in
    let nearer = dist-next_of s.task_count t r a.in_queue hr (omega arith) in
    let other : r ≢ t = λ e. ground arith in
    regs_kept later st' (next_of s.task_count t) r turn.loaded turn.turn (rw turn.same_count two)
      (rw turn.same_count hr) (rw turn.same_count (omega arith))
    ∙ other_regs s t regs st' (next_of s.task_count t) r turn other

-- Every task gets its turn with its own registers: when a tick takes the processor from task `r`
-- of `n`, with two tasks or more, then the last of `n` ticks in all loads the registers of task
-- `r`, which runs alone, and these are the ones that the first tick saved.
pub run_ticks-round :
    (regs : Registers) (later : List Registers) (s : Sched) (r : ℕ) (last : Option ℕ)
    → IsLoaded s
    → RunsAt s r
    → 2 ≤ s.task_count
    → length (regs ∷ later) ≡ s.task_count
    → RunsAt (run_ticks (regs ∷ later) (s, last)).0 r
      × ((run_ticks (regs ∷ later) (s, last)).1 ≡ some r)
      × (((run_ticks (regs ∷ later) (s, last)).0.tasks r).regs ≡ regs)
run_ticks-round regs later s r last w a two e =
    let turn = schedule_threads-Turn s r regs w a two in
    let st' = schedule_threads regs s in
    let n = s.task_count in
    let next = next_of n r in
    let around : (next + length later) % st'.0.task_count ≡ r = rw turn.same_count (
      next_of-mod n r (length later) a.in_queue
      ∙ rw e (add-mod_right r n ∙ mod-eq_of_lt a.in_queue)) in
    let at =
      subst (λ m. HasTurn (run_ticks later st') m) around
        (run_ticks-HasTurn later st' next turn.loaded (turn.turn, turn.popped)
          (rw turn.same_count two)) in
    (
      at.0,
      at.1,
      regs_kept later st' next r turn.loaded turn.turn (rw turn.same_count two)
            (rw turn.same_count a.in_queue) (rw turn.same_count (ground (arith, a.in_queue)))
          ∙ rw turn.saved refl,
    )

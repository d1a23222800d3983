-- ===== src/Sched/Loops.antt =====
-- The three nested loops of `PsScheduleThreads` in a queue whose task `r` runs.
use mathlib.Core.Path.{subst}
use open_lib.Common.{
  sym, ℕ, zero, suc, ◌+◌, ◌-◌, ◌≤◌, ◌<◌, ◌≡◌, refl, arith, some, none, ◌==◌, if◌then◌else◌, ==_iff,
  Bool-cases, inl, inr,
}
use open_lib.Sched.{
  Task, Sched, Registers, stopped, no_init, max_tasks, find_again, find_next, suspend, rotate,
}
use open_lib.Sched.Inv.{IsLoaded, RunsAt}

-- The task after `r` in a ring of `n`.
abbrev pub next_of : ℕ → ℕ → ℕ
next_of n r = if r + 1 == n then 0 else r + 1

find_again-first :
    (tasks : ℕ → Task) (left : ℕ)
    → (tasks 0).status ≡ stopped
    → find_again tasks (suc left) 0 ≡ some 0
unfolding find_again
find_again-first tasks left h = rw h

-- A stopped neighbour is found in the first round.
find_next-neighbour :
    (tasks : ℕ → Task) (i left j : ℕ)
    → 0 < left
    → (tasks j).status ≡ stopped
    → find_next tasks i left j ≡ some j
unfolding find_next
find_next-neighbour tasks i zero j pos h = absurd (omega arith)
find_next-neighbour tasks i (suc left) j pos h = rw h

find_next-no_round : (tasks : ℕ → Task) (i j : ℕ) → find_next tasks i 0 j ≡ none
unfolding find_next
find_next-no_round tasks i j = refl

-- Over empty places the search goes on to the last round, which starts again at the front.
find_next-around :
    (tasks : ℕ → Task) (i left j : ℕ)
    → 0 < left
    → j + left ≡ max_tasks
    → ((k : ℕ) → j ≤ k → k < max_tasks → (tasks k).status ≡ no_init)
    → (tasks 0).status ≡ stopped
    → find_next tasks i left j ≡ some 0
unfolding find_next
find_next-around tasks i zero j pos e empty h = absurd (omega arith)
find_next-around tasks i (suc zero) j pos e empty h =
    let last : j ≡ 63 = omega arith in
    rw (last, empty 63 (omega arith) (omega arith), at_front i) refl
  where
    at_front : (m : ℕ) → find_again tasks (m + 1) 0 ≡ some 0
    at_front m = ground (arith, find_again-first tasks m h)
find_next-around tasks i (suc (suc left)) j pos e empty h = ground (
  arith,
  empty j (omega arith) (omega arith),
  find_next-around tasks i (suc left) (j + 1) (omega arith) (omega arith)
      (λ k lo hi. empty k (omega arith) hi) h,
)

module _ (s : Sched) (r : ℕ) (regs : Registers) (w : IsLoaded s) (a : RunsAt s r)
    (two : 2 ≤ s.task_count) where
  pub suspend-stopped : (i : ℕ) → i < s.task_count → ((suspend s r regs).tasks i).status ≡ stopped
  unfolding suspend
  suspend-stopped i h = ground (arith, a.others i)

  suspend-empty :
      (i : ℕ) → s.task_count ≤ i → i < max_tasks → ((suspend s r regs).tasks i).status ≡ no_init
  unfolding suspend
  suspend-empty i lo hi = ground (arith, a.in_queue, w.empty i)

  find_next-suspend :
      (left : ℕ)
      → 0 < left
      → r + 1 + left ≡ max_tasks
      → find_next (suspend s r regs).tasks r left (r + 1) ≡ some (next_of s.task_count r)
  find_next-suspend left pos e = elim (Bool-cases (r + 1 == s.task_count)) [
    | inl last ↦ rw last (
        find_next-around (suspend s r regs).tasks r left (r + 1) pos e
          (λ k lo hi. suspend-empty k (ground arith) hi) (suspend-stopped 0 (omega arith)))
    | inr inner ↦ rw inner (
        find_next-neighbour (suspend s r regs).tasks r left (r + 1) pos
          (suspend-stopped (r + 1) (ground (arith, a.in_queue))))
  ]

  rotate-at :
      (left : ℕ)
      → r + suc left ≡ max_tasks
      → rotate regs (suc left) r s ≡ (suspend s r regs, next_of s.task_count r)
  unfolding rotate
  rotate-at zero e =
      let no_room : max_tasks - 1 - r ≡ 0 = omega arith in
      let full : next_of s.task_count r ≡ 0 = ground (arith, w.room, a.in_queue) in
      rw (a.runs, no_room, find_next-no_round (suspend s r regs).tasks r (r + 1), full)
  rotate-at (suc left) e =
      let room : max_tasks - 1 - r ≡ suc left = omega arith in
      rw (a.runs, room, find_next-suspend (suc left) (omega arith) (omega arith))

  -- The walk to the running task passes over the stopped ones.
  pub rotate_lem :
      (left i : ℕ)
      → i ≤ r
      → i + left ≡ max_tasks
      → rotate regs left i s ≡ (suspend s r regs, next_of s.task_count r)
  unfolding rotate
  rotate_lem zero i h e = absurd (omega (arith, w.room, a.in_queue))
  rotate_lem (suc left) i h e = elim (Bool-cases (i == r)) [
    | inl here ↦
        let same : i ≡ r = (==_iff i r).0 here in
        subst (λ k. rotate regs (suc left) k s ≡ (suspend s r regs, next_of s.task_count r))
          (sym same) (rotate-at left (omega arith))
    | inr before ↦ ground (arith, a.others i, a.in_queue, rotate_lem left (i + 1))
  ]

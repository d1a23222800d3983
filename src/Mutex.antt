-- ===== src/Mutex.antt =====
-- The mutex of ntoskrnl/ke/mutex.c. Both functions take the `KMUTEX_OBJECT` by value: the atomic
-- instructions act on the callee's copy, and the word of the caller is never written.
mod Tests
use open_lib.Common.{
  ℕ, zero, suc, ◌+◌, ◌<◌, ◌≡◌, ◌≢◌, refl, arith, List, [], ◌∷◌, ◌++◌, Option, none, some, ◌==◌,
  if◌then◌else◌, length, Option-cases,
}

-- The two nested `while` loops of `KeTryAcquireMutex`.
pub data Loop : Type 0 where
  swapping waiting : Loop

-- The loops over the copy, one test for each unit of fuel: the copy when they are left, or `none`.
unfoldable pub acquire_from : ℕ → Loop → ℕ → Option ℕ
acquire_from zero loop copy = none
acquire_from (suc fuel) swapping copy =
    let rest = acquire_from fuel waiting copy in if copy == 0 then some 1 else rest
acquire_from (suc fuel) waiting copy =
    let swap = acquire_from fuel swapping copy in
    let wait = acquire_from fuel waiting copy in if copy == 0 then swap else wait

-- The word of the caller after the call, if the call returns.
unfoldable pub try_acquire_mutex : ℕ → ℕ → Option ℕ
try_acquire_mutex fuel mutex = elim (acquire_from fuel swapping mutex) [
  | none ↦ none
  | some copy ↦ some mutex
]

-- `__sync_lock_release` clears the copy.
unfoldable pub release_mutex : ℕ → ℕ
release_mutex mutex = mutex

-- Threads that share one mutex: those that `KeTryAcquireMutex` let in stand in `inside`.
pub record Shared : Type 0 where
  pub mutex : ℕ
  pub inside : List ℕ

pub data Call : Type 0 where
  acquire release : ℕ → Call

abbrev remove : ℕ → List ℕ → List ℕ
remove t [] = []
remove t (u ∷ us) = if u == t then us else u ∷ remove t us

abbrev pub step : ℕ → Call → Shared → Option Shared
step fuel (acquire t) s = elim (try_acquire_mutex fuel s.mutex) [
  | none ↦ none
  | some m ↦ some (record { mutex = m; inside = t ∷ s.inside })
]
step fuel (release t) s =
    some (record { mutex = release_mutex s.mutex; inside = remove t s.inside })

-- A row of calls in the order in which they run; `none` as soon as one of them does not return.
abbrev pub steps : ℕ → List Call → Shared → Option Shared
steps fuel [] s = some s
steps fuel (c ∷ cs) s = elim (step fuel c s) [ none ↦ none | some s' ↦ steps fuel cs s' ]

abbrev pub acquires : List ℕ → List Call
acquires [] = []
acquires (t ∷ ts) = acquire t ∷ acquires ts

abbrev pub releases : List ℕ → List Call
releases [] = []
releases (t ∷ ts) = release t ∷ releases ts

acquire_from-nonzero : (fuel copy : ℕ) (loop : Loop) → copy ≢ 0 → acquire_from fuel loop copy ≡ none
unfolding acquire_from
acquire_from-nonzero zero copy loop ne = refl
acquire_from-nonzero (suc fuel) copy swapping ne =
    ground (arith, acquire_from-nonzero fuel copy waiting ne)
acquire_from-nonzero (suc fuel) copy waiting ne =
    ground (arith, acquire_from-nonzero fuel copy waiting ne)

-- The mutex excludes nobody: while its word is 0, any number of threads enter one after the other
-- with no release between them, and the word stays 0.
pub steps-acquires :
    (fuel : ℕ) (ts : List ℕ) (s : Shared)
    → 0 < fuel
    → s.mutex ≡ 0
    → (s' : Shared) × (steps fuel (acquires ts) s ≡ some s')
      × (s'.mutex ≡ 0)
      × (length s'.inside ≡ length s.inside + length ts)
unfolding try_acquire_mutex acquire_from
steps-acquires fuel [] s pos free = (s, refl, free, omega arith)
steps-acquires zero (t ∷ ts) s pos free = absurd (omega arith)
steps-acquires (suc fuel) (t ∷ ts) s pos free =
    let entered : Shared = record { mutex = 0; inside = t ∷ s.inside } in
    let (s', e, z, n) = steps-acquires (suc fuel) ts entered pos refl in
    (s', ground (arith, e), z, omega (arith, n))

-- A word that is not 0 is never cleared: after any number of releases an acquire still does not
-- return, however long it runs.
pub steps-releases :
    (fuel t : ℕ) (ts : List ℕ) (cs : List Call) (s : Shared)
    → s.mutex ≢ 0
    → steps fuel (releases ts ++ (acquire t ∷ cs)) s ≡ none
unfolding try_acquire_mutex release_mutex
steps-releases fuel t [] cs s ne = ground (arith, acquire_from-nonzero fuel s.mutex swapping ne)
steps-releases fuel t (u ∷ ts) cs s ne =
    steps-releases fuel t ts cs (record { mutex = s.mutex; inside = remove u s.inside }) ne

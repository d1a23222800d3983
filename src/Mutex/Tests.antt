-- ===== src/Mutex/Tests.antt =====
-- Threads that share a mutex of ntoskrnl/ke/mutex.c.
use open_lib.Common.{◌≡◌, refl, arith, [], ◌∷◌, some, length}
use open_lib.Mutex.{Shared, steps, acquires, steps-acquires}

abbrev free_mutex : Shared
free_mutex = record { mutex = 0; inside = [] }

steps-acquires_example :
    (s' : Shared) × (steps 1 (acquires (1 ∷ 2 ∷ [])) free_mutex ≡ some s')
    × (s'.mutex ≡ 0)
    × (length s'.inside ≡ 2)
steps-acquires_example = steps-acquires 1 (1 ∷ 2 ∷ []) free_mutex (omega arith) refl

-- ===== src/Common/Loops.antt =====
-- Counted loops with one invariant rule.
use Prim.Native.Nat.{ℕ, zero, suc, ◌+◌, ◌≤◌, ◌<◌}
use mathlib.Core.Path.{◌≡◌}
use native.Mathlib.Omega.{arith}

-- `rounds` rounds of a counted loop whose counter starts at `first`.
unfoldable pub for_range {ℓ} : {S : Type ℓ} → ℕ → ℕ → (ℕ → S → S) → S → S
for_range zero first round state = state
for_range (suc rounds) first round state = for_range rounds (first + 1) round (round first state)

-- What a round keeps at its index, the loop keeps to its end.
pub for_range_inv {ℓ κ} :
    {S : Type ℓ} (Keeps : ℕ → S → Type κ) (round : ℕ → S → S) (rounds first end : ℕ) (state : S)
    → ((k : ℕ) (t : S) → first ≤ k → k < end → Keeps k t → Keeps (k + 1) (round k t))
    → first + rounds ≡ end
    → Keeps first state
    → Keeps end (for_range rounds first round state)
unfolding for_range
for_range_inv Keeps round zero first end state keep count start =
    let over : first ≡ end = omega arith in rw (← over) start
for_range_inv Keeps round (suc rounds) first end state keep count start =
    for_range_inv Keeps round rounds (first + 1) end (round first state)
      (λ k t lo hi holds. keep k t (omega arith) hi holds) (omega arith)
      (keep first state (omega arith) (omega arith) start)

-- ===== src/Slot/Counts.antt =====
-- What the cells of a slot hold, and a call that ends with a result.
use uprobe_tests.Base.{ℕ, zero, suc, ◌+◌, ◌<◌, ◌≡◌, some, arith, ℤ}
use uprobe_tests.Slot.{Probed, ucount_at, kcount_at}
use uprobe_tests.Slot.Memory.{Mem, Arch, get_ulong}
use uprobe_tests.Slot.User.{Outcome, and_then, nth_call}

-- `ktid` is mapped, with any value.
pub record Counts (a : Arch) (slot utid ucount kcount : ℕ) (m : Mem) : Type 0 where
  pub ktid : ℕ
  pub holds_utid : m slot ≡ some utid
  pub holds_ktid : m (slot + 1) ≡ some ktid
  pub holds_ucount : get_ulong a m (slot + ucount_at) ≡ some ucount
  pub holds_kcount : get_ulong a m (slot + kcount_at a) ≡ some kcount

abbrev pub Ends : (ℤ → Probed → Type 0) → Outcome → Type 0
Ends P (Outcome.returned v s) = P v s
Ends P (Outcome.exited _) = ⊥
Ends P Outcome.fault = ⊥
Ends P Outcome.oops = ⊥

pub Ends-and_then :
    (P Q : ℤ → Probed → Type 0) (f : Probed → Outcome) (o : Outcome)
    → Ends P o
    → ((v : ℤ) (s : Probed) → P v s → Ends Q (f s))
    → Ends Q (and_then o f)
Ends-and_then P Q f (Outcome.returned v s) p next = next v s p
Ends-and_then P Q f (Outcome.exited _) p next = absurd p
Ends-and_then P Q f Outcome.fault p next = absurd p
Ends-and_then P Q f Outcome.oops p next = absurd p

-- Induction over calls, as long as they stay below a bound.
pub Ends-nth_call :
    (bound : ℕ) (P : ℕ → ℤ → Probed → Type 0) (f : Probed → Outcome) (s : Probed)
    → Ends (P 0) (f s)
    → ((n : ℕ) (v : ℤ) (t : Probed) → suc n < bound → P n v t → Ends (P (suc n)) (f t))
    → (n : ℕ) → n < bound
    → Ends (P n) (nth_call n f s)
unfolding nth_call
Ends-nth_call bound P f s first later zero lt = first
Ends-nth_call bound P f s first later (suc n) lt =
    Ends-and_then (P n) (P (suc n)) f (nth_call n f s)
      (Ends-nth_call bound P f s first later n (omega arith)) (λ v t p. later n v t lt p)

pub Ends-mono :
    (P Q : ℤ → Probed → Type 0) (o : Outcome)
    → Ends P o
    → ((v : ℤ) (s : Probed) → P v s → Q v s)
    → Ends Q o
Ends-mono P Q (Outcome.returned v s) p weaken = weaken v s p
Ends-mono P Q (Outcome.exited _) p weaken = absurd p
Ends-mono P Q Outcome.fault p weaken = absurd p
Ends-mono P Q Outcome.oops p weaken = absurd p

-- ===== src/Existing/Common.antt =====
-- What the modules share: an `int` counter, and whether a run took back all that it made.
use uprobe_tests.Base.{
  ℕ, ◌+◌, ◌%◌, ◌≡◌, refl, Bool, true, false, ◌||◌, String, List, [], ◌∷◌, arith, Bool-cases, inl,
  inr, if◌then◌else◌, ℤ, is_zero, eq_int, neg_einprogress,
}
use uprobe_tests.Udbgfs.{test_printk}
use uprobe_tests.Udbgfs.Session.{IsOpen, test_printk-IsOpen}
use uprobe_tests.Kernel.{Arg, Trace, Uprobe, Kernel, World}
use uprobe_tests.Kernel.Count.{allocs, frees, entries, removes, registers, unregisters}

-- `n++` on an `int`, as a bit pattern of 32 bits.
abbrev pub inc : ℕ → ℕ
inc n = (n + 1) % 4294967296

-- The `struct uprobe` of a module stands at this address.
abbrev pub usp_addr : ℕ
usp_addr = 1

-- Per address as much was taken back as was made: blocks, debugfs entries and probes.
pub record TakenBack (before after : Trace) : Type 0 where
  pub memory : (p : ℕ) → allocs p after + frees p before ≡ allocs p before + frees p after
  pub files : (d : ℕ) → entries d after + removes d before ≡ entries d before + removes d after
  pub probes :
      (a : ℕ) → registers a after + unregisters a before ≡ registers a before + unregisters a after

-- The kernel answers -EINPROGRESS only to a registration from a handler, which these are not.
pub record IsImmediate (K : Kernel) : Type 0 where
  pub uprobe : (t : Trace) (u : Uprobe) → eq_int (K.register t u) neg_einprogress ≡ false
  pub uretprobe : (t : Trace) (u : Uprobe) → eq_int (K.register_ret t u) neg_einprogress ≡ false

-- `if (verbose) test_printk(…)`.
unfoldable pub say_if : Kernel → Bool → String → List Arg → World → World
say_if K true fmt args w = (test_printk K fmt args w).1
say_if K false fmt args w = w

-- What a handler does with the answer to its registration: the flag is set only if the kernel has put
-- the registration off, and any other answer is reported.
unfoldable pub note_answer : Kernel → String → ℤ → Bool → World → Bool × World
note_answer K fmt r flag w =
    if eq_int r neg_einprogress then (true, w) else (flag, (test_printk K fmt (Arg.int r ∷ []) w).1)

-- To a registration from a handler the kernel does not answer 0: it puts it off or refuses it.
pub record IsDeferred (H : Kernel) : Type 0 where
  pub uprobe : (t : Trace) (u : Uprobe) → is_zero (H.register t u) ≡ false
  pub uretprobe : (t : Trace) (u : Uprobe) → is_zero (H.register_ret t u) ≡ false

pub say_if-IsOpen :
    (K : Kernel) (verbose : Bool) (fmt : String) (args : List Arg) (b w : World)
    → IsOpen b w
    → IsOpen b (say_if K verbose fmt args w)
unfolding say_if
say_if-IsOpen K true fmt args b w o = test_printk-IsOpen K fmt args b w o
say_if-IsOpen K false fmt args b w o = o

pub say_if-trace :
    (K : Kernel) (verbose : Bool) (fmt : String) (args : List Arg) (w : World)
    → (say_if K verbose fmt args w).trace ≡ w.trace
unfolding say_if
say_if-trace K true fmt args w = refl
say_if-trace K false fmt args w = refl

pub note_answer-IsOpen :
    (K : Kernel) (fmt : String) (r : ℤ) (flag : Bool) (b w : World)
    → IsOpen b w
    → IsOpen b (note_answer K fmt r flag w).1
unfolding note_answer
note_answer-IsOpen K fmt r flag b w o = elim (Bool-cases (eq_int r neg_einprogress)) [
  | inl later ↦ simp later o
  | inr refused ↦ simp refused (test_printk-IsOpen K fmt _ b w o)
]

pub note_answer_flag :
    (K : Kernel) (fmt : String) (r : ℤ) (flag : Bool) (w : World)
    → (note_answer K fmt r flag w).0 ≡ (flag || eq_int r neg_einprogress)
unfolding note_answer
note_answer_flag K fmt r flag w = ground arith

pub note_answer-trace :
    (K : Kernel) (fmt : String) (r : ℤ) (flag : Bool) (w : World)
    → (note_answer K fmt r flag w).1.trace ≡ w.trace
unfolding note_answer
note_answer-trace K fmt r flag w = ground arith

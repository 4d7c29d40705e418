-- ===== src/Existing/Probe5/Report.antt =====
-- probe5.c put on probeme4.c: what the file `data` of debugfs says at the end.
pub mod Hits
pub mod Whole
use uprobe_tests.Base.{
  ℕ, zero, suc, ◌+◌, ◌%◌, min, ◌<◌, ◌≤◌, ◌≡◌, refl, ap, ◌∙◌, Bool, true, false, Option, none, some,
  List, [], ◌∷◌, ◌++◌, String, arith, Bool-cases, inl, inr, ◌==◌, if◌then◌else◌, length,
  length-append, All, pos, is_zero, ltb, take-length,
}
use mathlib.Core.List.{append-nil, append_assoc}
use uprobe_tests.Kernel.{Arg, Trace, Kernel, World}
use uprobe_tests.Udbgfs.{data_buf_size, u_dbfs_init, test_printk, SimpleRead, write_cleanup}
use uprobe_tests.Udbgfs.Buffer.{IsVsnprintf, IsSimpleRead}
use uprobe_tests.Udbgfs.Cleanup.{write_cleanup_first}
use uprobe_tests.Udbgfs.Shows.{
  Shows, u_dbfs_init-Shows, u_dbfs_init_entry, test_printk-Shows, file_data, file_data-Shows,
}
use uprobe_tests.Existing.Common.{inc}
use uprobe_tests.Existing.Probe5.{
  Params, Probe5, placed, add_inst, child_exit, register_usp, init_module,
}
use uprobe_tests.Existing.Probed.{Fn, Work, do_add, no_work, add_loop, End, probeme4}
use uprobe_tests.Existing.Probed.Sums.{add_loop_adds}

-- Where the functions of the program stand.
abbrev pub Addresses : Type 0
Addresses = Fn → ℕ

module _ (K : Kernel) (c : Params) (address : Addresses) where
  -- A call of a function of the program: the kernel runs the handler if the probe stands there.
  unfoldable pub on_call : Fn → Probe5 → Probe5
  unfolding add_inst
  on_call f s = if s.usp.vaddr == address f then add_inst K c s else s

  -- The calls of a program, of which the newest stands first.
  unfoldable pub on_calls : List Fn → Probe5 → Probe5
  unfolding on_call
  on_calls [] s = s
  on_calls (f ∷ older) s = on_call f (on_calls older s)

  -- The program ends, and a write to the file `cleanup` calls `child_exit`.
  unfoldable pub probe_and_report : (count : ℕ) → End → Probe5 → World
  unfolding on_calls child_exit
  probe_and_report count End.test_failed s = s.world
  probe_and_report count (End.exits status w) s =
      let hit = on_calls w.calls s in
      (write_cleanup K (λ v. (tt, (child_exit K c (record hit { world = v })).world)) count
        hit.world).1

module _ (render : String → List Arg → List ℕ) (c : Params) where
  abbrev pub copies : ℕ → List ℕ → List ℕ
  copies zero text = []
  copies (suc n) text = copies n text ++ text

  -- What the file says after `n` calls of `add`.
  abbrev pub registering : (vaddr : ℕ) → List ℕ
  registering vaddr =
      render "Registering uprobe on pid %d, vaddr %#lx\n" (Arg.num c.pid ∷ Arg.num vaddr ∷ [])

  abbrev pub called : ℕ → List ℕ
  called n = if c.verbose then copies n (render "add() called\n" []) else []

  abbrev pub whole_report : (vaddr n : ℕ) → List ℕ
  whole_report vaddr n = (registering vaddr ++ called n) ++ render "ncalls=%d\n" (Arg.num n ∷ [])

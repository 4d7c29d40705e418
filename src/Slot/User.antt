-- ===== src/Slot/User.antt =====
-- The user side of a slot, from include/u_test_common.h: `PROBE_FUN`, `BUILD_PROBE_TABLE` and what
-- happens at a breakpoint between them and the handler.
use uprobe_tests.Base.{
  ℕ, zero, suc, ◌+◌, ◌-◌, ◌*◌, ◌/◌, ◌%◌, Bool, true, false, ◌||◌, Option, none, some, ◌==◌, ltb,
  if◌then◌else◌, ℤ, pos, negsuc,
}
use uprobe_tests.Kernel.{Kernel}
use uprobe_tests.Slot.Memory.{
  Mem, Arch, i386, x86_64, other, ulong_max, cell_mod, store, get_ulong, put_ulong,
}
use uprobe_tests.Slot.{Regs, Probed, ucount_at, kcount_at, probe_handler}

-- How a call ends: with a result, by `exit`, by SIGSEGV in the user code, or by an oops in the handler.
pub data Outcome : Type 0 where
  returned : ℤ → Probed → Outcome
  exited : (status : ℕ) → Outcome
  fault : Outcome
  oops : Outcome

-- What follows a call that returned.
abbrev pub and_then : Outcome → (Probed → Outcome) → Outcome
and_then (Outcome.returned v s) f = f s
and_then (Outcome.exited status) f = Outcome.exited status
and_then Outcome.fault f = Outcome.fault
and_then Outcome.oops f = Outcome.oops

-- The last of `n + 1` calls.
unfoldable pub nth_call : ℕ → (Probed → Outcome) → Probed → Outcome
nth_call zero f s = f s
nth_call (suc n) f s = and_then (nth_call n f s) f

-- The conversion of an `unsigned long` to `int`.
abbrev pub to_int : ℕ → ℤ
to_int v = let r = v % cell_mod in if ltb r 2147483648 then pos r else negsuc (cell_mod - 1 - r)

-- The C calling conventions: the argument in %rdi, or on the stack above the return address.
abbrev pub call_regs : ℕ → ℕ → Regs
call_regs sp slot = record { di = 4 * slot; sp = 4 * sp }

abbrev pub push_arg : Arch → ℕ → ℕ → Mem → Mem
push_arg i386 sp slot m = store m (sp + 1) (4 * slot)
push_arg x86_64 sp slot m = m
push_arg other sp slot m = m

-- Whether a probe is registered on the called function.
unfoldable pub breakpoint : Kernel → Arch → Bool → ℕ → ℕ → ℕ → Probed → Option Probed
breakpoint K a false tid sp slot s = some s
breakpoint K a true tid sp slot s = probe_handler K a tid (call_regs sp slot) s

abbrev pub compare_counts : Arch → ℕ → ℕ → ℤ
compare_counts a kcount ucount =
    if kcount == ulong_max a || kcount == ucount then to_int kcount else negsuc 1

abbrev pub with_kcount : Arch → ℕ → Option ℕ → Probed → Outcome
with_kcount a ucount none s = Outcome.fault
with_kcount a ucount (some kcount) s = Outcome.returned (compare_counts a kcount ucount) s

abbrev pub with_stored : Arch → ℕ → ℕ → Option Mem → Probed → Outcome
with_stored a slot ucount none s = Outcome.fault
with_stored a slot ucount (some m) s =
    with_kcount a ucount (get_ulong a m (slot + kcount_at a)) (record s { mem = m })

abbrev pub with_ucount : Arch → ℕ → Option ℕ → Probed → Outcome
with_ucount a slot none s = Outcome.fault
with_ucount a slot (some old) s =
    let ucount = (old + 1) % (ulong_max a + 1) in
    with_stored a slot ucount (put_ulong a s.mem (slot + ucount_at) ucount) s

-- `_probe_##id`, from its first instruction on.
unfoldable pub probe_body : Arch → ℕ → Probed → Outcome
probe_body a slot s = with_ucount a slot (get_ulong a s.mem (slot + ucount_at)) s

abbrev pub after_breakpoint : Arch → ℕ → Option Probed → Outcome
after_breakpoint a slot none = Outcome.oops
after_breakpoint a slot (some s) = probe_body a slot s

module _ (K : Kernel) (a : Arch) (registered : Bool) (tid sp : ℕ) where
  -- The call of `_probe_##id`.
  unfoldable pub call_probe : ℕ → Probed → Outcome
  unfolding breakpoint probe_body
  call_probe slot s =
      after_breakpoint a slot
        (breakpoint K a registered tid sp slot (record s { mem = push_arg a sp slot s.mem }))

  abbrev pub with_utid : ℕ → Option ℕ → Probed → Outcome
  with_utid slot none s = Outcome.fault
  with_utid slot (some utid) s =
      if utid == 0
      then call_probe slot (record s { mem = store s.mem slot tid })
      else if utid == tid
      then call_probe slot s
      else Outcome.exited 1

  -- `probe_##id`; `gettid` gives `tid`, and a thread id that does not fit ends the process by
  -- `report_test_fail`.
  unfoldable pub probe : ℕ → Probed → Outcome
  unfolding call_probe
  probe slot s = with_utid slot (s.mem slot) s

-- `BUILD_PROBE_TABLE`: `calloc` has zeroed the block; `slot_cells` is `sizeof(struct uinfo) / 4`.
abbrev pub slot_cells : Arch → ℕ
slot_cells i386 = 5
slot_cells _ = 8

abbrev pub fill_ulong : Arch → Mem → ℕ → ℕ → Mem
fill_ulong i386 m p v = store m p v
fill_ulong _ m p v = store (store m p (v % cell_mod)) (p + 1) (v / cell_mod)

unfoldable pub init_slot : Arch → ℕ → Mem → Mem
init_slot a slot m =
    let m1 = fill_ulong a m (slot + kcount_at a) (ulong_max a) in
    let m2 = fill_ulong a m1 (slot + ucount_at) (ulong_max a) in
    store (store m2 slot 0) (slot + 1) 0

unfoldable pub build_probe_table : Arch → (size table : ℕ) → Mem → Mem
unfolding init_slot
build_probe_table a zero table m = m
build_probe_table a (suc n) table m =
    build_probe_table a n (table + slot_cells a) (init_slot a table m)

-- ===== src/Slot.antt =====
-- The slot `struct uinfo` that a user thread and the probe handler share, in user memory.
-- `get_first_arg` and `probe_handler` are those of include/u_mod_common.h, the probe functions and
-- `BUILD_PROBE_TABLE` those of include/u_test_common.h.
pub mod Memory
pub mod User
pub mod Counts
pub mod I386
pub mod X86_64
pub mod Uncounted
pub mod Frame
pub mod Race
pub mod Wide
use uprobe_tests.Base.{
  ℕ, zero, suc, ◌+◌, ◌-◌, ◌*◌, ◌/◌, ◌%◌, ◌^◌, ◌≡◌, Bool, true, false, not, ◌||◌, Option, none, some,
  List, [], ◌∷◌, ◌==◌, ltb, if◌then◌else◌, ℤ, pos, negsuc,
}
use uprobe_tests.Kernel.{Kernel, Arg, World}
use uprobe_tests.Udbgfs.{test_printk}
use uprobe_tests.Slot.Memory.{
  Mem, Arch, i386, x86_64, other, ulong_cells, ulong_max, store, get_ulong, put_ulong,
}

-- Offsets of the fields of `struct uinfo` in cells of four bytes; `utid` is at 0.
abbrev pub ktid_at : ℕ
ktid_at = 1

abbrev pub ucount_at : ℕ
ucount_at = 2

abbrev pub kcount_at : Arch → ℕ
kcount_at a = 2 + ulong_cells a

-- The registers that `get_first_arg` reads.
pub record Regs : Type 0 where
  pub di : ℕ
  pub sp : ℕ

-- The address of the slot in bytes, or `none` where the stack cannot be read. The placeholders of
-- ia64, powerpc and s390 give NULL.
unfoldable pub get_first_arg : Arch → Regs → Mem → Option ℕ
get_first_arg i386 regs m = m (regs.sp / 4 + 1)
get_first_arg x86_64 regs m = some regs.di
get_first_arg other regs m = some 0

-- What the handler changes: the memory of the task and what the module keeps.
pub record Probed : Type 0 where
  pub mem : Mem
  pub world : World

module _ (K : Kernel) (a : Arch) where
  -- After a `put_user` that gave this memory, or failed.
  abbrev pub put_done : Option Mem → Probed → Probed
  put_done none s = record s {
    world = (test_printk K " put_user returned an error!\n" [] s.world).1;
  }
  put_done (some m) s = record s { mem = m }

  abbrev pub put_ktid : ℕ → ℕ → Probed → Probed
  put_ktid pid slot s = put_done (put_ulong a s.mem (slot + ktid_at) pid) s

  -- A failed `get_user` leaves 0.
  abbrev pub fetched : Option ℕ → ℕ
  fetched none = 0
  fetched (some v) = v

  abbrev pub get_failed : Option ℕ → World → World
  get_failed none w = (test_printk K " get_user returned an error!\n" [] w).1
  get_failed (some _) w = w

  abbrev pub check_utid : ℕ → ℕ → Probed → Probed
  check_utid pid slot s =
      let got = get_ulong a s.mem slot in
      let utid = fetched got % 2 ^ 32 in
      let w = get_failed got s.world in
      if pid == utid then record s { world = w } else record s {
        world =
            (test_printk K "kthread: utid=%d ktid=%d\n" (Arg.num utid ∷ Arg.num pid ∷ [])
              (test_printk K "kthread: ERROR ktid and utid don't match!! " [] w).1).1;
      }

  abbrev pub put_ucount : ℕ → ℕ → Probed → Probed
  put_ucount kcount slot s =
      if not (kcount == ulong_max a)
      then s
      else put_done (put_ulong a s.mem (slot + ucount_at) kcount) s

  abbrev pub put_kcount : ℕ → ℕ → Probed → Probed
  put_kcount kcount slot s = put_done (put_ulong a s.mem (slot + kcount_at a) kcount) s

  -- `slot` counts cells; `pid` is `current->pid`. The handler returns 0.
  unfoldable pub handle_slot : ℕ → ℕ → Probed → Probed
  handle_slot pid slot s =
      let s1 = check_utid pid slot (put_ktid pid slot s) in
      let got = get_ulong a s1.mem (slot + kcount_at a) in
      let s2 = record s1 { world = get_failed got s1.world } in
      let kcount = fetched got in
      let s3 = put_ucount kcount slot s2 in
      let s4 = put_kcount ((kcount + 1) % (ulong_max a + 1)) slot s3 in
      record s4 {
        world = record (s4.world) { num_probes = (s4.world.num_probes + 1) % (ulong_max a + 1) };
      }

  abbrev pub at_slot : ℕ → Option ℕ → Probed → Option Probed
  at_slot pid none s = none
  at_slot pid (some slot) s = some (handle_slot pid (slot / 4) s)

  -- `none` is an oops.
  unfoldable pub probe_handler : ℕ → Regs → Probed → Option Probed
  unfolding get_first_arg
  probe_handler pid regs s = at_slot pid (get_first_arg a regs s.mem) s

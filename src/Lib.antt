-- ===== src/Lib.antt =====
-- The uprobe tests: kernel modules that put probes on user programs, the programs that they probe,
-- and the shared memory and debugfs files by which the two report to each other.
--
-- How the parts interact. A user program keeps a table of slots (`struct uinfo`) and calls its probe
-- functions with a slot; a kernel module of uprobes.w looks the functions up in a generated symbol
-- table, resolves the kernel's registration functions, and registers `probe_handler` on each. At a hit
-- the handler counts in the slot, and the probe function compares its own count with that. Every
-- module prints into a buffer that the debugfs file `data` shows; a write to the debugfs file
-- `cleanup` calls the module's `child_exit`. The modules of uprobes.existing register probes of their
-- own and count the hits.
--
-- What stands where:
--   Base       lists, integers and Boolean tests that all files share.
--   Kernel     what the code calls and does not define: a record of answers, each a function of the
--              calls made before; a World holds the calls so far with the static variables of
--              include/udbgfs.c. Kernel.Count counts per address what a trace makes and takes back.
--   Udbgfs     include/udbgfs.c: test_printk, read_data, write_cleanup, u_dbfs_init, u_dbfs_cleanup.
--              Udbgfs.Session has the invariant that the modules keep between the last two, and
--              Udbgfs.Shows what the file `data` shows. Udbgfs.Stream runs test_printk statement by
--              statement beside a reader.
--   Slot       include/u_mod_common.h (get_first_arg, probe_handler); Slot.Memory is user memory in
--              cells of 32 bits; Slot.User is include/u_test_common.h (PROBE_FUN, BUILD_PROBE_TABLE).
--              Slot.Race is the increment of num_probes by several threads; Slot.Wide has what a call
--              on x86_64 leaves alone.
--   Symbols    uprobes.w/symbols.h: find_inode, find_offset, glob_names, for_each_glob.
--              Symbols.Listing is uprobes.w/sym2loc.c.
--   Resolve    include/uprobes-inode.c: _init_uprobe.
--   Kmods      uprobes.w/kthread.c, kfork_thread.c, kdie.c, kexec.c, kfork_and_defunc.c, ksuicide.c,
--              ksuicide2.c; Kmods.Kunreg is uprobes.w/kunreg.c, of which
--              Kmods.Kunreg.Callback is the build with UPROBES_REG_CALLBACK. Kmods.Files has what each
--              file does at a write to `cleanup` and when it is unloaded.
--   Existing   uprobes.existing: Probe5 is probe5.c, Probe5lim is probe5lim.c, Probe6 is probe6.c,
--              Rprobe6 is rprobe6.c, Suicide is suicide.c; Infos has the loops over an array of
--              probes that the last three share. Pong is pong.c, Blink is blink.c and blink2.c, and
--              Probe5ag is probe5ag.c. Calls from handlers have a Kernel of their own there, since the
--              kernel puts a registration off only when a handler makes it. PongWa7 is the part of
--              pong_wa7.c that three threads share, as a step relation on its atomic accesses, and
--              PongWa7.Plain its build without UPROBES_REG_CALLBACK. Probed has the programs that are
--              probed: probeme4.c, probeme4s.c, probeme6.c, probe7-thread.c and probe8-fork.c.
--              Probe5.Report puts probe5.c on probeme4.c, and Probe6.Report probe6.c on probeme6.c:
--              the kernel brings each call of the program to the handlers of the probes at its
--              address, and `child_exit` runs by a write to `cleanup`.
--   Programs   the user programs of uprobes.w. Programs itself has the thread functions of uthread.c,
--              tdie.c, texec.c, suicide.c, unreg.c, fork_thread.c and fork_and_defunc.c; Programs.Main
--              has their `main`, as a function of what pthread answers; Programs.Files says which
--              thread of which file runs what. Programs.Schedule has `thread_1` of uthread.c as steps
--              that the threads take in any order, each step a call of a probe function. Programs.Wide
--              is `thread_1` of uthread.c on x86_64.
--              Programs.System puts kthread.c and uthread.c together.
--   Tests      concrete runs.
--
-- Choices. `main` of the user programs is modelled as on i386, where the pointer that pthread_join
-- stores has the size of `results`; a store behind `thread`, which the code does not prevent, ends
-- the model. The array of kunreg.c is a function, and `overrun` is set by an access behind its 100
-- elements. A forked child runs before its parent goes on, each with its own memory, and the module
-- counts for both. A handler of pong.c and blink.c is one step, and what the kernel has put off
-- counts as made; PongWa7 has the kernel's list as a count of its own. Numbers of the machine wrap
-- where the code lets them: counters of `int` at 2 ^ 32, an `unsigned long` at its size on the
-- architecture, `size_t` at 2 ^ 64. A pointer is a number, NULL is 0. The rounds of for_each_glob
-- are on fuel, one more than the table has entries, since every round moves the cursor. A NULL print
-- buffer that is followed sets `oops`; a fault of the user program or an oops of the handler is an
-- outcome of its own. A step of a thread under a schedule is a call of a probe function with its
-- handler: a slot is used by one thread only, and the increment of num_probes, which the threads
-- share, is taken to be whole there, which the code does not ensure: see Slot.Race. `2 + cnt * (1 +
-- n)` steps are what a thread takes for `cnt` rounds of `n` calls. `read_to_end` may make one read
-- more than there are bytes.
--
-- Not modelled: `printk`, which only logs; the spinlock of the print buffer, whose section is one
-- step outside of Udbgfs.Stream; the kernel, pthread, debugfs and kallsyms, which answer as the
-- records Kernel and Pthread say;
-- the generated symbol tables; the times that the probed programs measure; scripts
-- and build files.
pub mod Base
pub mod Kernel
pub mod Udbgfs
pub mod Slot
pub mod Symbols
pub mod Resolve
pub mod Kmods
pub mod Existing
pub mod Programs
pub mod Tests

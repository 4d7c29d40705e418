-- ===== src/Kmods/Files.antt =====
-- What each module of uprobes.w does at a write to `cleanup`, when it is unloaded, and at a hit of the
-- second probe of ksuicide.c and ksuicide2.c.
use uprobe_tests.Base.{true}
use uprobe_tests.Kernel.{Event, Kernel, Io, call}
use uprobe_tests.Kmods.{child_exit, cleanup_module}

module _ (K : Kernel) where
  abbrev pub kthread_child_exit : Io (Unit {0})
  kthread_child_exit = child_exit K "num_probes = %ld\n"

  abbrev pub kfork_thread_child_exit : Io (Unit {0})
  kfork_thread_child_exit = child_exit K "num_probes = %ld\n"

  abbrev pub kdie_child_exit : Io (Unit {0})
  kdie_child_exit = child_exit K "num_probes=%ld\n"

  abbrev pub kexec_child_exit : Io (Unit {0})
  kexec_child_exit = child_exit K "num_probes=%ld\n"

  abbrev pub kfork_and_defunc_child_exit : Io (Unit {0})
  kfork_and_defunc_child_exit = child_exit K "num_probes=%ld\n"

  abbrev pub ksuicide_child_exit : Io (Unit {0})
  ksuicide_child_exit = child_exit K "num_probes=%ld\n"

  abbrev pub ksuicide2_child_exit : Io (Unit {0})
  ksuicide2_child_exit = child_exit K "num_probes=%ld\n"

  abbrev pub kunreg_child_exit : Io (Unit {0})
  kunreg_child_exit = child_exit K "num_probes=%ld\n"

-- `do_exit(SIGFPE)`, which does not return.
abbrev pub ksuicide_handler : Io (Unit {0})
ksuicide_handler = call (Event.do_exit 8)

-- A store through a pointer that is NULL.
abbrev pub ksuicide2_handler : Io (Unit {0})
ksuicide2_handler w = (tt, record w { oops = true })

abbrev pub kfork_thread_cleanup : Io (Unit {0})
kfork_thread_cleanup = cleanup_module

abbrev pub kdie_cleanup : Io (Unit {0})
kdie_cleanup = cleanup_module

abbrev pub kexec_cleanup : Io (Unit {0})
kexec_cleanup = cleanup_module

abbrev pub kfork_and_defunc_cleanup : Io (Unit {0})
kfork_and_defunc_cleanup = cleanup_module

abbrev pub ksuicide_cleanup : Io (Unit {0})
ksuicide_cleanup = cleanup_module

abbrev pub ksuicide2_cleanup : Io (Unit {0})
ksuicide2_cleanup = cleanup_module

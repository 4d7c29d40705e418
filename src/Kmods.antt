-- ===== src/Kmods.antt =====
-- The kernel modules of uprobes.w: kthread.c, kfork_thread.c, kdie.c, kexec.c, kfork_and_defunc.c,
-- ksuicide.c and ksuicide2.c. The first four differ in their names alone. `printk` is left out.
pub mod Registered
pub mod Init
pub mod Kunreg
pub mod Suicide
pub mod Files
use uprobe_tests.Base.{
  ℕ, zero, suc, String, Bool, true, false, not, Option, none, some, List, [], ◌∷◌, ◌==◌,
  if◌then◌else◌, length, ℤ, pos, is_zero, is_neg, minus_one, neg_enomem,
}
use uprobe_tests.Kernel.{
  Name, codes, Handler, Arg, Event, Kernel, World, Io, pure, ◌>>=◌, ◌>>◌, call, kmalloc_call,
  uprobe_register_call,
}
use uprobe_tests.Udbgfs.{test_printk, u_dbfs_init, u_dbfs_cleanup}
use uprobe_tests.Resolve.{Config, Pointers, init_uprobe}
use uprobe_tests.Symbols.{Table, find_offset, find_inode, Body, for_each_glob}

-- `sizeof(struct uprobe_consumer)`.
abbrev pub sizeof_consumer : ℕ
sizeof_consumer = 24

abbrev pub probe_prefix : Name
probe_prefix = codes "_probe"

abbrev pub no_pointers : Pointers
no_pointers = record { regset_view = 0; register = 0; unregister = 0; get_swbp_addr = 0 }

-- `_init_uprobe() < 0`; the calls of the kernel go through the pointers that it sets.
abbrev pub init_uprobe_failed : Kernel → Config → Bool
init_uprobe_failed K cfg = is_neg (init_uprobe K.lookup_name cfg no_pointers).0

abbrev pub child_exit : Kernel → String → Io (Unit {0})
child_exit K fmt w = (tt, (test_printk K fmt (Arg.num w.num_probes ∷ []) w).1)

abbrev pub value_or_zero : Option ℤ → ℤ
value_or_zero none = pos 0
value_or_zero (some r) = r

abbrev pub zero_num_probes : World → World
zero_num_probes w = record w { num_probes = 0 }

module _ (K : Kernel) (table : Table) where
  -- Finds the function, announces the probe and registers it with a fresh consumer.
  unfoldable pub register_named : Handler → Name → (consumer : ℕ) → Io ℤ
  register_named h found usp = do
    inode ← find_inode K table found
    test_printk K "Registering uprobe on inode %d, offset %#lx[%s]\n"
        (Arg.num inode ∷ Arg.num (find_offset table found) ∷ Arg.str found ∷ [])
    uprobe_register_call K inode (find_offset table found) usp h

  -- The body of the loop over the probe functions, and the registration after it in ksuicide.c.
  unfoldable pub register_probe : Handler → Body World
  unfolding register_named
  register_probe h found = do
    usp ← kmalloc_call K sizeof_consumer
    if usp == 0 then (u_dbfs_cleanup >> pure (some neg_enomem)) else do
      ret ← register_named h found usp
      if is_zero ret then pure none else (u_dbfs_cleanup >> pure (some minus_one))

  unfoldable pub register_probes : Handler → Io (Option ℤ)
  unfolding register_probe
  register_probes h = for_each_glob (suc (length table)) table probe_prefix (register_probe h) 0

  -- `init_module`, with the part that follows the set-up.
  unfoldable pub init_with : Config → String → Io (Option ℤ) → Io ℤ
  init_with cfg name rest w =
      if init_uprobe_failed K cfg
      then (minus_one, zero_num_probes w)
      else (do
        r ← u_dbfs_init K name
        if is_neg r then pure minus_one else (do v ← rest; pure (value_or_zero v)))
          (zero_num_probes w)

  unfoldable pub kthread_init : Config → Io ℤ
  unfolding init_with register_probes
  kthread_init cfg = init_with cfg "kthread" (register_probes Handler.probe_handler)

  unfoldable pub kfork_thread_init : Config → Io ℤ
  unfolding init_with register_probes
  kfork_thread_init cfg = init_with cfg "kfork_thread" (register_probes Handler.probe_handler)

  unfoldable pub kdie_init : Config → Io ℤ
  unfolding init_with register_probes
  kdie_init cfg = init_with cfg "kdie" (register_probes Handler.probe_handler)

  unfoldable pub kexec_init : Config → Io ℤ
  unfolding init_with register_probes
  kexec_init cfg = init_with cfg "kexec" (register_probes Handler.probe_handler)

  -- `usp->handler` is not set.
  unfoldable pub kfork_and_defunc_init : Config → Io ℤ
  unfolding init_with register_probes
  kfork_and_defunc_init cfg =
      init_with cfg "kfork_and_defunc" (register_probes Handler.null_handler)

  abbrev pub register_suicide : Option ℤ → Io (Option ℤ)
  register_suicide none = register_probe Handler.suicide_handler (codes "_probe_9")
  register_suicide (some r) = pure (some r)

  -- After the loop `_probe_9` gets a second probe, whose handler ends the task.
  unfoldable pub suicide_probes : Io (Option ℤ)
  unfolding register_probes
  suicide_probes = do v ← register_probes Handler.probe_handler; register_suicide v

  unfoldable pub ksuicide_init : Config → Io ℤ
  unfolding init_with suicide_probes
  ksuicide_init cfg = init_with cfg "ksuicide" suicide_probes

  unfoldable pub ksuicide2_init : Config → Io ℤ
  unfolding init_with suicide_probes
  ksuicide2_init cfg = init_with cfg "ksuicide2" suicide_probes

-- The modules with one loop, and what they put into `usp->handler`.
pub data Module : Type 0 where
  kthread kfork_thread kdie kexec kfork_and_defunc : Module

abbrev pub handler_of : Module → Handler
handler_of Module.kfork_and_defunc = Handler.null_handler
handler_of _ = Handler.probe_handler

unfoldable pub init_module : Kernel → Table → Config → Module → Io ℤ
unfolding kthread_init kfork_thread_init kdie_init kexec_init kfork_and_defunc_init
init_module K table cfg Module.kthread = kthread_init K table cfg
init_module K table cfg Module.kfork_thread = kfork_thread_init K table cfg
init_module K table cfg Module.kdie = kdie_init K table cfg
init_module K table cfg Module.kexec = kexec_init K table cfg
init_module K table cfg Module.kfork_and_defunc = kfork_and_defunc_init K table cfg

-- `cleanup_module` of all seven.
unfoldable pub cleanup_module : Io (Unit {0})
cleanup_module = u_dbfs_cleanup

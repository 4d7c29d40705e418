-- ===== src/Existing/Suicide.antt =====
-- uprobes.existing/suicide.c: a probe whose handler ends the probed process.
use uprobe_tests.Base.{ℕ, ◌≡◌, ◌⊎◌, List, [], ◌∷◌, ℤ, pos, minus_one}
use uprobe_tests.Kernel.{Event, Handler, Kernel, World}
use uprobe_tests.Udbgfs.{u_dbfs_init}
use uprobe_tests.Existing.Common.{TakenBack, IsImmediate}
use uprobe_tests.Existing.Infos.{Info, Infos, init, exit}
use uprobe_tests.Existing.Infos.Rollback.{init-IsUndone}
use uprobe_tests.Existing.Probe6.{named, register_entry, unregister_entry}
use uprobe_tests.Existing.Probe6.Undo.{register_entry-IsUndoable}

abbrev pub probes_init : List Info
probes_init = named 10 "add" ∷ []

-- `do_exit(SIGFPE)`.
unfoldable pub u_handler : World → World
u_handler w = record w { trace = Event.do_exit 8 ∷ w.trace }

module _ (K : Kernel) (pid : ℕ) where
  unfoldable pub register_probes : Info → World → ℤ × Info × World
  unfolding register_entry
  register_probes = register_entry K pid Handler.suicide_handler

  unfoldable pub suicide_init : Infos → ℤ × Infos
  unfolding register_probes unregister_entry init
  suicide_init = init K register_probes unregister_entry "suicide"

  unfoldable pub suicide_exit : Infos → Infos
  unfolding register_probes unregister_entry exit
  suicide_exit = exit K register_probes unregister_entry

-- Once its debugfs entries are made, suicide.c either loads, and unloading it unregisters every probe
-- that it registered and takes back its memory and its entries, or fails with -1 and has taken them
-- back; the kernel must not answer -EINPROGRESS.
pub suicide_init-suicide_exit :
    (K : Kernel) (immediate : IsImmediate K) (pid : ℕ) (s : Infos)
    → (u_dbfs_init K "suicide" s.world).0 ≡ pos 0
    → (((suicide_init K pid s).0 ≡ pos 0)
        × TakenBack s.world.trace (suicide_exit K pid (suicide_init K pid s).1).world.trace)
      ⊎ (((suicide_init K pid s).0 ≡ minus_one)
          × TakenBack s.world.trace (suicide_init K pid s).1.world.trace)
unfolding suicide_init suicide_exit
suicide_init-suicide_exit K immediate pid s made =
    init-IsUndone K (register_entry-IsUndoable K immediate pid Handler.suicide_handler) "suicide" s
      made

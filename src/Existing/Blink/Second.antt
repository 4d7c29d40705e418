-- ===== src/Existing/Blink/Second.antt =====
-- uprobes.existing/blink2.c, but for its `init_module`: the text is that of blink.c.
use uprobe_tests.Base.{Bool, ℤ}
use uprobe_tests.Kernel.{Uprobe, Kernel, World}
use uprobe_tests.Existing.Blink.{
  Params, Blink, reg_callback, blink, steady, child_exit, cleanup_module,
}

module _ (H : Kernel) (c : Params) where
  abbrev pub blink2_callback : Uprobe → Bool → ℤ → World → World
  blink2_callback = reg_callback H c

  abbrev pub blink2_blink : Blink → Blink
  blink2_blink = blink H c

  abbrev pub blink2_steady : Blink → Blink
  blink2_steady = steady H c

  abbrev pub blink2_child_exit : Blink → Blink
  blink2_child_exit = child_exit H c

abbrev pub blink2_cleanup : Blink → Blink
blink2_cleanup = cleanup_module

-- ===== src/Existing/Probe6.antt =====
-- uprobes.existing/probe6.c: six probes that count, in an array. The registration of an entry is also
-- that of suicide.c, which only names another handler.
pub mod Undo
pub mod Report
use uprobe_tests.Base.{
  ℕ, ◌+◌, String, Bool, true, false, List, [], ◌∷◌, ◌==◌, if◌then◌else◌, ℤ, pos, is_zero, minus_one,
}
use uprobe_tests.Kernel.{codes, Name, Arg, Event, Handler, Uprobe, Kernel, World, register_call}
use uprobe_tests.Udbgfs.{test_printk}
use uprobe_tests.Existing.Common.{inc}
use uprobe_tests.Existing.Infos.{Info, Infos, init, exit}

-- The module's parameters.
pub record Params : Type 0 where
  pub pid : ℕ
  pub verbose : Bool

abbrev pub no_probe : ℕ → Uprobe
no_probe a = record { addr = a; pid = 0; vaddr = 0; handler = Handler.null_handler }

-- An entry that the array's initialiser leaves zero but for its name; `u` stands at `a` and `rp`
-- right after it.
abbrev pub named : ℕ → String → Info
named a name = record {
  fname = codes name;
  ncalls = 0;
  nret = 0;
  registered = false;
  u = no_probe a;
  rp = no_probe (a + 1);
}

abbrev pub probes_init : List Info
probes_init =
    named 10 "add"
    ∷ named 20 "bye"
    ∷ named 30 "adios"
    ∷ named 40 "au_revoir"
    ∷ named 50 "auf_wiedersehen"
    ∷ named 60 "arrivederci"
    ∷ []

module _ (K : Kernel) (pid : ℕ) (h : Handler) where
  abbrev pub placed : Info → Info
  placed x = record x { u = record (x.u) { pid = pid; vaddr = K.find_vaddr x.fname } }

  abbrev pub handled : Info → Info
  handled x = record x { u = record ((placed x).u) { handler = h } }

  -- From the call of `register_uprobe` on.
  unfoldable pub register_handled : Info → World → ℤ × Info × World
  register_handled x w =
      let r = register_call K x.u w in
      if is_zero r.0 then (pos 0, record x { registered = true }, r.1) else (
        minus_one,
        x,
        (test_printk K "register_uprobe for %s returned %d\n" (Arg.str x.fname ∷ Arg.int r.0 ∷ [])
            r.1).1,
      )

  unfoldable pub register_entry : Info → World → ℤ × Info × World
  unfolding register_handled
  register_entry x w =
      if K.find_vaddr x.fname == 0
      then (minus_one, placed x, (test_printk K "Unknown function %s\n" (Arg.str x.fname ∷ []) w).1)
      else register_handled (handled x) w

unfoldable pub unregister_entry : Info → World → World
unregister_entry x w = record w { trace = Event.unregister_uprobe x.u ∷ w.trace }

module _ (K : Kernel) (c : Params) where
  -- The entry that holds the probe, which `container_of` finds, counts.
  unfoldable pub count_entry : ℕ → List Info → List Info
  count_entry a [] = []
  count_entry a (x ∷ xs) =
      let rest = count_entry a xs in
      if x.u.addr == a then record x { ncalls = inc x.ncalls } ∷ xs else x ∷ rest

  -- `u_handler`, on the probe of the entry `x`.
  unfoldable pub u_handler : Info → Infos → Infos
  unfolding count_entry
  u_handler x s = record {
    world =
        if c.verbose
        then (test_printk K "%s called\n" (Arg.str x.fname ∷ []) s.world).1
        else s.world;
    probes = count_entry x.u.addr s.probes;
  }

  unfoldable pub register_probes : Info → World → ℤ × Info × World
  unfolding register_entry
  register_probes = register_entry K c.pid Handler.u_handler

  unfoldable pub report : List Info → World → World
  report [] w = w
  report (x ∷ xs) w =
      report xs (test_printk K "probe6 %s=%d calls\n" (Arg.str x.fname ∷ Arg.num x.ncalls ∷ []) w).1

  unfoldable pub child_exit : Infos → Infos
  unfolding report
  child_exit s = record s { world = report s.probes s.world }

  unfoldable pub probe6_init : Infos → ℤ × Infos
  unfolding register_probes unregister_entry init
  probe6_init = init K register_probes unregister_entry "probe6"

  unfoldable pub probe6_exit : Infos → Infos
  unfolding register_probes unregister_entry exit
  probe6_exit = exit K register_probes unregister_entry

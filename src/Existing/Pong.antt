-- ===== src/Existing/Pong.antt =====
-- uprobes.existing/pong.c, built with UPROBES_REG_CALLBACK: an entry probe and a return probe whose
-- handlers register each other and unregister themselves. A handler is one step, and what the kernel
-- has put off counts as made from the call on: the kernel's list of what it has still to do is not
-- modelled here, as it is in PongWa7.
pub mod Turns
pub mod Run
use uprobe_tests.Base.{
  ℕ, String, Bool, true, false, List, [], ◌∷◌, ◌==◌, not, if◌then◌else◌, ℤ, pos, is_zero, minus_one,
}
use uprobe_tests.Kernel.{
  codes, Arg, Event, Handler, Uprobe, Kernel, World, register_call, register_ret_call,
  init_ret_call,
}
use uprobe_tests.Udbgfs.{test_printk, u_dbfs_init, u_dbfs_cleanup}
use uprobe_tests.Existing.Common.{inc, say_if, note_answer}

-- The parameters of the module, and whether UPROBES_INIT_URETPROBES is set.
pub record Params : Type 0 where
  pub pid : ℕ
  pub verbose : Bool
  pub vaddr : ℕ
  pub tramp : ℕ
  pub inits_ret : Bool

pub record Pong : Type 0 where
  pub world : World
  pub ncalls : ℕ
  pub nreturns : ℕ
  pub entry_registered : Bool
  pub return_registered : Bool
  pub entry_probe : Uprobe
  pub return_probe : Uprobe

abbrev pub entry_probe_init : Uprobe
entry_probe_init = record { addr = 1; pid = 0; vaddr = 0x080484a8; handler = Handler.null_handler }

abbrev pub return_probe_init : Uprobe
return_probe_init = record { addr = 2; pid = 0; vaddr = 0x080484a8; handler = Handler.null_handler }

-- `H` answers the calls from handlers.
module _ (H : Kernel) (c : Params) where
  -- `reg_callback`, which the kernel calls when a registration or a removal is done.
  unfoldable pub reg_callback : Uprobe → (reg ret : Bool) → ℤ → World → World
  reg_callback u reg ret result w =
      if not c.verbose
      then w
      else (let told =
            (test_printk H "%sregistration of %s on pid %d, vaddr %#lx was "
              (Arg.str (if reg then [] else codes "un")
                ∷ Arg.str (if ret then codes "uretprobe" else codes "uprobe")
                ∷ Arg.num u.pid
                ∷ Arg.num u.vaddr
                ∷ [])
              w).1 in
          if is_zero result
          then (test_printk H "successful\n" [] told).1
          else (test_printk H "unsuccessful; status = %d\n" (Arg.int result ∷ []) told).1)

  unfoldable pub entry_handler : Pong → Pong
  entry_handler s =
      let told =
        say_if H c.verbose "ncalls = %d: Registering return handler\n" (Arg.num (inc s.ncalls) ∷ [])
          s.world in
      let r = register_ret_call H s.return_probe told in
      let noted =
        note_answer H "Entry handler's register_uretprobe() failed; returned %d\n" r.0
          s.return_registered r.1 in
      let w = say_if H c.verbose "Unregistering entry handler\n" [] noted.1 in
      record s {
        ncalls = inc s.ncalls;
        return_registered = noted.0;
        entry_registered = false;
        world = record w { trace = Event.unregister_uprobe s.entry_probe ∷ w.trace };
      }

  unfoldable pub return_handler : Pong → Pong
  return_handler s =
      let told =
        say_if H c.verbose "returns = %d: Unregistering return handler\n"
          (Arg.num (inc s.nreturns) ∷ []) s.world in
      let gone : World = record told {
        trace = Event.unregister_uretprobe s.return_probe ∷ told.trace;
      } in
      let w = say_if H c.verbose "Registering entry handler\n" [] gone in
      let r = register_call H s.entry_probe w in
      let noted =
        note_answer H "Return handler's register_uprobe() failed; returned %d\n" r.0
          s.entry_registered r.1 in
      record s {
        nreturns = inc s.nreturns;
        return_registered = false;
        entry_registered = noted.0;
        world = noted.1;
      }

  unfoldable pub child_exit : Pong → Pong
  child_exit s = record s {
    world =
        (test_printk H "ncalls=%d, nreturns=%d\n" (Arg.num s.ncalls ∷ Arg.num s.nreturns ∷ [])
          s.world).1;
  }

module _ (K : Kernel) (c : Params) where
  abbrev pub placed : Handler → Uprobe → Uprobe
  placed h u = record u {
    pid = c.pid;
    vaddr = if c.vaddr == 0 then u.vaddr else c.vaddr;
    handler = h;
  }

  -- `init_module` from the registration on, with its answer.
  unfoldable pub finish : ℤ → Pong → ℤ × Pong
  finish r s =
      if is_zero r
      then (pos 0, record s { entry_registered = true })
      else (minus_one, record s { world = (u_dbfs_cleanup s.world).1 })

  unfoldable pub register_entry : Pong → ℤ × Pong
  unfolding finish
  register_entry s =
      let u = placed Handler.entry_handler s.entry_probe in
      let told =
        (test_printk K "Registering entry handler on pid %d, vaddr %#lx\n"
          (Arg.num u.pid ∷ Arg.num u.vaddr ∷ []) s.world).1 in
      let r = register_call K u told in
      finish r.0 (record s {
        world = r.1;
        entry_probe = u;
        return_probe = placed Handler.return_handler s.return_probe;
      })

  -- The part under UPROBES_INIT_URETPROBES.
  unfoldable pub prepare : World → Bool × World
  prepare w =
      let tramp = if c.tramp == 0 then 0x080484bc else c.tramp in
      let r = init_ret_call K c.pid tramp w in if c.inits_ret then (is_zero r.0, r.1) else (true, w)

  unfoldable pub prepared : Pong → Bool × World → ℤ × Pong
  unfolding register_entry
  prepared s (true, w) = register_entry (record s { world = w })
  prepared s (false, w) = (minus_one, record s { world = (u_dbfs_cleanup w).1 })

  -- `init_module` of pong.c and pong_wa7.c, which differ in their name.
  unfoldable pub load : (name : String) → Pong → ℤ × Pong
  unfolding prepare prepared
  load name s =
      let d = u_dbfs_init K name s.world in
      if is_zero d.0 then prepared s (prepare d.1) else (minus_one, record s { world = d.1 })

  unfoldable pub init_module : Pong → ℤ × Pong
  unfolding load
  init_module s = load "pong" s

unfoldable pub unregister_if : Bool → Event → World → World
unregister_if true e w = record w { trace = e ∷ w.trace }
unregister_if false e w = w

unfoldable pub cleanup_module : Pong → Pong
unfolding unregister_if
cleanup_module s =
    let w1 = unregister_if s.entry_registered (Event.unregister_uprobe s.entry_probe) s.world in
    let w2 = unregister_if s.return_registered (Event.unregister_uretprobe s.return_probe) w1 in
    record s { world = (u_dbfs_cleanup w2).1 }

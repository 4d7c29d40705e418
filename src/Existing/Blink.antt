-- ===== src/Existing/Blink.antt =====
-- uprobes.existing/blink.c and blink2.c: a steady probe whose handler registers a second probe from
-- time to time. The two differ in where they put the probes.
pub mod Steps
pub mod Run
pub mod Period
pub mod Second
use uprobe_tests.Base.{
  ℕ, ◌-◌, ◌%◌, String, Bool, true, false, not, ◌&&◌, List, [], ◌∷◌, ◌==◌, ltb, if◌then◌else◌, ℤ,
  pos, is_zero, minus_one,
}
use uprobe_tests.Kernel.{codes, Arg, Event, Handler, Uprobe, Kernel, World, register_call}
use uprobe_tests.Udbgfs.{test_printk, u_dbfs_init, u_dbfs_cleanup}
use uprobe_tests.Existing.Common.{inc, say_if, note_answer}

-- The parameters of the modules, of which blink2.c has no `vaddr`, and whether UPROBES_REG_CALLBACK is
-- set.
pub record Params : Type 0 where
  pub pid : ℕ
  pub verbose : Bool
  pub vaddr : ℕ
  pub has_callback : Bool

pub record Blink : Type 0 where
  pub world : World
  pub ncalls : ℕ
  pub registered : Bool
  pub usp_steady : Uprobe
  pub usp_blink : Uprobe

abbrev pub usp_steady_init : Uprobe
usp_steady_init = record { addr = 1; pid = 0; vaddr = 0x080484a8; handler = Handler.steady }

abbrev pub usp_blink_init : Uprobe
usp_blink_init = record { addr = 2; pid = 0; vaddr = 0; handler = Handler.blink }

-- `n % k == 0` on an `int`, which is negative from 2 ^ 31 on.
abbrev pub divides : ℕ → ℕ → Bool
divides k n = if ltb n 2147483648 then n % k == 0 else (4294967296 - n) % k == 0

-- `H` answers the calls from handlers.
module _ (H : Kernel) (c : Params) where
  unfoldable pub reg_callback : Uprobe → Bool → ℤ → World → World
  reg_callback u reg result w =
      if not c.verbose
      then w
      else (let told =
            (test_printk H "%sregistration of uprobe on pid %d, vaddr %#lx was "
              (Arg.str (if reg then [] else codes "un") ∷ Arg.num u.pid ∷ Arg.num u.vaddr ∷ [])
              w).1 in
          if is_zero result
          then (test_printk H "successful\n" [] told).1
          else (test_printk H "unsuccessful; status = %d\n" (Arg.int result ∷ []) told).1)

  unfoldable pub blink : Blink → Blink
  blink s =
      if divides 5 s.ncalls
      then (let told =
            say_if H c.verbose "ncalls = %d: Unregistering blink handler\n" (Arg.num s.ncalls ∷ [])
              s.world in
          record s {
            world = record told { trace = Event.unregister_uprobe s.usp_blink ∷ told.trace };
            registered = false;
          })
      else s

  -- The part under UPROBES_REG_CALLBACK.
  unfoldable pub register_blink : Blink → Blink
  register_blink s =
      let r = register_call H s.usp_blink s.world in
      let noted =
        note_answer H "steady handler's register_uprobe() failed; returned %d\n" r.0 s.registered
          r.1 in
      record s { world = noted.1; registered = noted.0 }

  -- `steady` from the test on, after `ncalls++`.
  unfoldable pub register_third : Blink → Blink
  register_third s =
      if not s.registered && divides 3 s.ncalls
      then (let told = record s {
        world =
            say_if H c.verbose "ncalls = %d: Registering blink handler\n" (Arg.num s.ncalls ∷ [])
              s.world;
      } in
          if c.has_callback then register_blink told else told)
      else s

  unfoldable pub steady : Blink → Blink
  steady s = register_third (record s { ncalls = inc s.ncalls })

  unfoldable pub child_exit : Blink → Blink
  child_exit s = record s {
    world = (test_printk H "ncalls=%d\n" (Arg.num s.ncalls ∷ []) s.world).1;
  }

module _ (K : Kernel) (c : Params) where
  -- `init_module` from the announcement on, with the probes placed. The handlers are set before.
  unfoldable pub register_steady : Blink → ℤ × Blink
  register_steady s =
      let told =
        (test_printk K "Registering steady handler on pid %d, vaddr %#lx\n"
          (Arg.num s.usp_steady.pid ∷ Arg.num s.usp_steady.vaddr ∷ []) s.world).1 in
      let r = register_call K s.usp_steady told in
      if is_zero r.0
      then (pos 0, record s { world = r.1 })
      else (minus_one, record s { world = (u_dbfs_cleanup r.1).1 })

  abbrev pub steady_vaddr : Uprobe → ℕ
  steady_vaddr u = if c.vaddr == 0 then u.vaddr else c.vaddr

  -- blink.c: both probes at one address; `usp_blink` is placed only after a success, which is told
  -- apart in `init_module`.
  abbrev pub place_steady : Blink → Blink
  place_steady s = record s {
    usp_steady = record (s.usp_steady) { pid = c.pid; vaddr = steady_vaddr s.usp_steady };
  }

  abbrev pub place_blink : ℤ × Blink → ℤ × Blink
  place_blink r =
      if is_zero r.0
      then (
        r.0,
        record (r.1) {
          usp_blink = record (r.1.usp_blink) {
            pid = r.1.usp_steady.pid;
            vaddr = r.1.usp_steady.vaddr;
          };
        },
      )
      else r

  unfoldable pub init_module : Blink → ℤ × Blink
  unfolding register_steady
  init_module s =
      let d = u_dbfs_init K "blink" s.world in
      if is_zero d.0
      then place_blink (register_steady (place_steady (record s { world = d.1 })))
      else (minus_one, record s { world = d.1 })

  -- blink2.c.
  abbrev pub fail : Blink → ℤ × Blink
  fail s = (minus_one, record s { world = (u_dbfs_cleanup s.world).1 })

  abbrev pub at : ℕ → Uprobe → Uprobe
  at vaddr u = record u { pid = c.pid; vaddr = vaddr }

  unfoldable pub place_two : (add subtract : ℕ) → Blink → ℤ × Blink
  unfolding register_steady
  place_two add subtract s =
      let s1 = record s { usp_steady = at add s.usp_steady } in
      let s2 = record s1 { usp_blink = at subtract s.usp_blink } in
      if add == 0 then fail s1 else if subtract == 0 then fail s2 else register_steady s2

  unfoldable pub blink2_init : Blink → ℤ × Blink
  unfolding place_two
  blink2_init s =
      let d = u_dbfs_init K "blink2" s.world in
      if is_zero d.0
      then place_two (K.find_vaddr (codes "add")) (K.find_vaddr (codes "subtract"))
          (record s { world = d.1 })
      else (minus_one, record s { world = d.1 })

unfoldable pub unregister_blink : Bool → Blink → World → World
unregister_blink true s w = record w { trace = Event.unregister_uprobe s.usp_blink ∷ w.trace }
unregister_blink false s w = w

-- The same in both.
unfoldable pub cleanup_module : Blink → Blink
unfolding unregister_blink
cleanup_module s =
    let gone : World = record (s.world) {
      trace = Event.unregister_uprobe s.usp_steady ∷ s.world.trace;
    } in
    record s { world = (u_dbfs_cleanup (unregister_blink s.registered s gone)).1 }

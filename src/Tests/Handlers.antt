-- ===== src/Tests/Handlers.antt =====
-- Concrete runs of the modules whose handlers register probes, and of the array of probes.
use uprobe_tests.Base.{
  ◌⊎◌, ◌≤◌, ◌*◌, ℕ, ◌+◌, ◌%◌, ◌≡◌, refl, true, false, some, [], arith, ◌==◌, neg_enomem,
}
use uprobe_tests.Kernel.{Uprobe, Kernel}
use uprobe_tests.Kernel.Count.{add_if, registers, unregisters}
use uprobe_tests.Udbgfs.{u_dbfs_init}
use uprobe_tests.Existing.Common.{TakenBack, IsImmediate, note_answer}
use uprobe_tests.Existing.Pong
use uprobe_tests.Existing.Pong.Turns.{Turn, enters, returns, done, and_step}
use uprobe_tests.Existing.Pong.Run.{pong_run}
use uprobe_tests.Existing.Blink
use uprobe_tests.Existing.Blink.Steps
use uprobe_tests.Existing.Blink.Run.{blink_run}
use uprobe_tests.Existing.Blink.Period.{in_period, hits_registered}
use uprobe_tests.Existing.PongWa7
use uprobe_tests.Existing.PongWa7.Plain
use uprobe_tests.Existing.PongWa7.Pending.{counted, pending_regs_zero}
use uprobe_tests.Existing.PongWa7.Quiet.{stays_done, wakes_too_early}
use uprobe_tests.Existing.PongWa7.Ends.{works, entries, as_work, wait_ends}
use uprobe_tests.Existing.Probe5ag
use uprobe_tests.Existing.Probe5ag.Array.{last_tried}
use uprobe_tests.Existing.Probe5ag.Run.{probe5ag_run, with_block_refused}
use uprobe_tests.Tests.{kernel, deferring, deferring-IsDeferred, start}

abbrev pong_params : Pong.Params
pong_params = record { pid = 3243; verbose = true; vaddr = 0; tramp = 0; inits_ret = true }

abbrev pong : Pong.Pong
pong = record {
  world = start;
  ncalls = 0;
  nreturns = 0;
  entry_registered = false;
  return_registered = false;
  entry_probe = Pong.entry_probe_init;
  return_probe = Pong.return_probe_init;
}

abbrev pong_loaded : Pong.Pong
pong_loaded = (Pong.init_module kernel pong_params pong).1

abbrev pong_returned : Pong.Pong
pong_returned =
    Pong.return_handler deferring pong_params (Pong.entry_handler deferring pong_params pong_loaded)

pong_run_example :
    Turn pong_returned × TakenBack start.trace (Pong.cleanup_module pong_returned).world.trace
unfolding Pong.init_module u_dbfs_init Pong.entry_handler note_answer
pong_run_example =
    pong_run kernel deferring deferring-IsDeferred pong_params pong pong_returned refl refl refl
      (and_step (and_step done (enters refl)) (returns refl))

plain_leaks_example :
    registers 1
        (Plain.cleanup_module
          (Plain.hits 20 (Plain.init_module kernel pong_params pong).1)).world.trace
      + unregisters 1 start.trace
    ≡ registers 1 start.trace
      + unregisters 1
          (Plain.cleanup_module
            (Plain.hits 20 (Plain.init_module kernel pong_params pong).1)).world.trace
      + add_if (1 == (Plain.init_module kernel pong_params pong).1.entry_probe.addr) 0
unfolding Plain.init_module u_dbfs_init
plain_leaks_example = Plain.plain_leaks kernel pong_params pong 19 refl refl refl 1

abbrev blink_params : Blink.Params
blink_params = record { pid = 3243; verbose = false; vaddr = 0; has_callback = true }

abbrev blinking : Blink.Blink
blinking = record {
  world = start;
  ncalls = 0;
  registered = false;
  usp_steady = Blink.usp_steady_init;
  usp_blink = Blink.usp_blink_init;
}

abbrev steady_once : Blink.Blink → Blink.Blink
steady_once s = Blink.steady deferring blink_params s

blink_run_example :
    TakenBack start.trace
      (Blink.cleanup_module
        (steady_once (Blink.init_module kernel blink_params blinking).1)).world.trace
unfolding Blink.init_module u_dbfs_init
blink_run_example =
    blink_run kernel deferring deferring-IsDeferred blink_params blinking
      (steady_once (Blink.init_module kernel blink_params blinking).1) refl refl
      (Steps.steady_hit Steps.done)

hits_registered_example :
    ((Blink.Period.hits deferring blink_params 7 blinking).ncalls ≡ 7)
    × ((Blink.Period.hits deferring blink_params 7 blinking).registered
        ≡ in_period deferring blink_params (7 % 15))
hits_registered_example =
    hits_registered deferring blink_params refl (λ t u. refl) 7 blinking (omega arith) refl refl

abbrev ag_params : Probe5ag.Params
ag_params = record { pid = 3243; nprobes = 2; verbose = true; vaddr = 4096 }

abbrev probe5ag : Probe5ag.Probe5ag
probe5ag = record { world = start; nhits = 0; block = 0; probes = [] }

abbrev ag_hits : Probe5ag.Probe5ag
ag_hits = Probe5ag.Run.hits kernel ag_params 4 (Probe5ag.init_module kernel ag_params probe5ag).1

probe5ag_run_example :
    TakenBack start.trace (Probe5ag.cleanup_module ag_hits).world.trace
    × (ag_hits.nhits ≡ 4 % 4294967296)
unfolding Probe5ag.init_module u_dbfs_init
probe5ag_run_example = probe5ag_run kernel ag_params 4 probe5ag (ground arith) refl refl

-- A kernel that refuses every probe with -ENOMEM.
abbrev refusing : Kernel
refusing = record kernel { register = λ t u. neg_enomem }

refusing-IsImmediate : IsImmediate refusing
refusing-IsImmediate = record { uprobe = λ t u. refl; uretprobe = λ t u. refl }

with_block_refused_example :
    (refused : Uprobe) × (last_tried
        (Probe5ag.with_block refusing ag_params 640 probe5ag).1.world.trace
      ≡ some (refused, (Probe5ag.with_block refusing ag_params 640 probe5ag).0))
    × ((a : ℕ)
        → registers a (Probe5ag.with_block refusing ag_params 640 probe5ag).1.world.trace
            + unregisters a start.trace
            + add_if (a == refused.addr) 0
          ≡ registers a start.trace
            + unregisters a (Probe5ag.with_block refusing ag_params 640 probe5ag).1.world.trace)
unfolding Probe5ag.with_block
with_block_refused_example =
    with_block_refused refusing ag_params 640 probe5ag refusing-IsImmediate (ground arith)
      (ground arith) refl

-- Loaded, with the entry probe registered and no handler running.
abbrev wa7 : PongWa7.PongWa7
wa7 = record {
  ncalls = 0;
  nreturns = 0;
  entry_registered = true;
  return_registered = false;
  pending_regs = 0;
  cleaning_up = false;
  ops = 0;
  pc = PongWa7.idle;
  cleanup = PongWa7.not_started;
}

abbrev wa7_entered : PongWa7.PongWa7
wa7_entered = PongWa7.enter wa7

pending_regs_zero_example : (wa7_entered.ops ≡ 0) × (counted wa7_entered.pc ≡ 0)
unfolding PongWa7.enter
pending_regs_zero_example =
    pending_regs_zero wa7 wa7_entered refl refl refl
      (PongWa7.and_step PongWa7.done (PongWa7.enters refl)) refl

abbrev wa7_cleaning : PongWa7.PongWa7
wa7_cleaning = record wa7 { cleaning_up = true; cleanup = PongWa7.waiting }

stays_done_example :
    ((PongWa7.enter wa7_cleaning).ops ≡ 0) × ((PongWa7.enter wa7_cleaning).pending_regs ≡ 0)
stays_done_example =
    stays_done wa7_cleaning (PongWa7.enter wa7_cleaning) refl refl refl refl refl
      (PongWa7.and_step PongWa7.done (PongWa7.enters refl))

abbrev wa7_checked : PongWa7.PongWa7
wa7_checked = record wa7 { pc = PongWa7.entry_add }

-- The handler has found `cleaning_up` clear when cleanup_module sets it.
abbrev wa7_caught : PongWa7.PongWa7
wa7_caught =
    PongWa7.start_cleanup (PongWa7.handler_step true PongWa7.entry_check (PongWa7.enter wa7))

abbrev wa7_waits : PongWa7.Steps wa7 wa7_caught
unfolding PongWa7.start_cleanup PongWa7.handler_step PongWa7.enter
wa7_waits =
    PongWa7.and_step
      (PongWa7.and_step (PongWa7.and_step PongWa7.done (PongWa7.enters refl))
        (PongWa7.handles true))
      (PongWa7.starts_cleanup refl)

-- cleanup_module tests, and sleeps or goes on.
abbrev wa7_tests : PongWa7.Steps wa7_caught (PongWa7.test_pending wa7_caught)
unfolding PongWa7.start_cleanup PongWa7.handler_step PongWa7.enter
wa7_tests = PongWa7.and_step PongWa7.done (PongWa7.tests refl)

wait_ends_example :
    (works wa7_tests ≤ 17 + 2 * wa7_caught.ops + 4 * entries wa7_tests)
    × (((PongWa7.test_pending wa7_caught).cleanup ≡ PongWa7.woken)
        ⊎ ((v : PongWa7.PongWa7) × (st : PongWa7.Step (PongWa7.test_pending wa7_caught) v)
            × (as_work st ≡ 1)))
unfolding PongWa7.start_cleanup PongWa7.handler_step PongWa7.enter
wait_ends_example =
    wait_ends wa7 wa7_caught (PongWa7.test_pending wa7_caught) refl refl refl refl wa7_waits refl
      wa7_tests

wakes_too_early_example :
    (t : PongWa7.PongWa7) × PongWa7.Steps wa7_checked t × (t.cleanup ≡ PongWa7.woken) × (t.ops ≡ 1)
wakes_too_early_example = wakes_too_early wa7_checked refl refl refl refl

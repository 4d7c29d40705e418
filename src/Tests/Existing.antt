-- ===== src/Tests/Existing.antt =====
-- Concrete runs of the modules of uprobes.existing.
use uprobe_tests.Base.{if◌then◌else◌, ℕ, ltb, ◌⊎◌, ◌≡◌, refl, true, false, arith, pos, minus_one}
use uprobe_tests.Udbgfs.{u_dbfs_init}
use uprobe_tests.Existing.Common.{TakenBack}
use uprobe_tests.Existing.Infos.{Infos}
use uprobe_tests.Existing.Probe5lim
use uprobe_tests.Existing.Probe5lim.Run.{the_limit, probe5lim_run}
use uprobe_tests.Existing.Probe6
use uprobe_tests.Existing.Probe6.Undo.{probe6_init-probe6_exit}
use uprobe_tests.Existing.Rprobe6
use uprobe_tests.Existing.Rprobe6.Undo.{rprobe6_init-rprobe6_exit}
use uprobe_tests.Existing.Suicide
use uprobe_tests.Existing.Suicide.{suicide_init-suicide_exit}
use uprobe_tests.Existing.Probed.{
  Fn, Work, End, probeme4, probeme4s, probeme6, probe7_thread, probe8_fork,
}
use uprobe_tests.Existing.Probed.Sums.{
  AddsUp, calls_of, with_farewell, add_or_subtract, probed_programs,
}
use uprobe_tests.Tests.{kernel, kernel-IsImmediate, start}

abbrev lim_params : Probe5lim.Params
lim_params = record { pid = 3243; verbose = false; vaddr = 0; limit = 2 }

abbrev probe5lim : Probe5lim.Probe5lim
probe5lim = record {
  world = start;
  ncalls = 0;
  registered = false;
  limit = 0;
  usp = Probe5lim.usp_init;
}

abbrev limited_hits : ℕ → Probe5lim.Probe5lim
limited_hits n =
    Probe5lim.Run.hits kernel lim_params n (Probe5lim.init_module kernel lim_params probe5lim).1

probe5lim_run_example :
    ((limited_hits 3).ncalls ≡ 3)
    × ((limited_hits 3).registered ≡ ltb 3 (the_limit kernel lim_params))
    × TakenBack start.trace (Probe5lim.cleanup_module (limited_hits 3)).world.trace
unfolding Probe5lim.init_module u_dbfs_init
probe5lim_run_example = probe5lim_run kernel lim_params 3 probe5lim refl refl (omega arith)

abbrev probe6 : Infos
probe6 = record { world = start; probes = Probe6.probes_init }

abbrev probe6_params : Probe6.Params
probe6_params = record { pid = 3243; verbose = true }

probe6_init-probe6_exit_example :
    (((Probe6.probe6_init kernel probe6_params probe6).0 ≡ pos 0)
      × TakenBack start.trace
          (Probe6.probe6_exit kernel probe6_params
            (Probe6.probe6_init kernel probe6_params probe6).1).world.trace)
    ⊎ (((Probe6.probe6_init kernel probe6_params probe6).0 ≡ minus_one)
        × TakenBack start.trace (Probe6.probe6_init kernel probe6_params probe6).1.world.trace)
unfolding u_dbfs_init
probe6_init-probe6_exit_example =
    probe6_init-probe6_exit kernel kernel-IsImmediate probe6_params probe6 refl

abbrev rprobe6_params : Rprobe6.Params
rprobe6_params = record { pid = 3243; verbose = true; has_ret = true; inits_ret = true }

rprobe6_init-rprobe6_exit_example :
    (((Rprobe6.rprobe6_init kernel rprobe6_params probe6).0 ≡ pos 0)
      × TakenBack start.trace
          (Rprobe6.rprobe6_exit kernel rprobe6_params
            (Rprobe6.rprobe6_init kernel rprobe6_params probe6).1).world.trace)
    ⊎ (((Rprobe6.rprobe6_init kernel rprobe6_params probe6).0 ≡ minus_one)
        × TakenBack start.trace (Rprobe6.rprobe6_init kernel rprobe6_params probe6).1.world.trace)
unfolding u_dbfs_init
rprobe6_init-rprobe6_exit_example =
    rprobe6_init-rprobe6_exit kernel kernel-IsImmediate rprobe6_params probe6 refl

abbrev suicide : Infos
suicide = record { world = start; probes = Suicide.probes_init }

probed_programs_example :
    ((w : Work) × AddsUp 100 w
      × (probeme4 2 (pos 100) ≡ End.exits 0 w)
      × (probe7_thread 2 (pos 100) ≡ (End.exits 0 w, End.exits 0 w))
      × (probe8_fork 2 (pos 100) (pos 4871) ≡ (End.exits 0 w, End.exits 0 w)))
    × ((w : Work) × (w.sum ≡ 5050)
        × ((f : Fn) → calls_of f w.calls ≡ with_farewell 100 f)
        × (probeme6 2 (pos 100) ≡ End.exits 0 w))
    × ((w : Work) × (w.sum ≡ 0)
        × ((f : Fn) → calls_of f w.calls ≡ (if add_or_subtract f then 100 else 0))
        × (probeme4s 2 (pos 100) ≡ End.exits 0 w))
probed_programs_example = probed_programs 100 4871 (omega arith) (omega arith)

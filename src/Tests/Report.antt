-- ===== src/Tests/Report.antt =====
-- The modules probe5.c and probe6.c with their programs, from load to report.
use uprobe_tests.Base.{ℕ, ◌+◌, ◌≡◌, refl, true, some, [], ◌∷◌, arith}
use uprobe_tests.Kernel.{Name, Kernel}
use uprobe_tests.Udbgfs.{u_dbfs_init}
use uprobe_tests.Udbgfs.Buffer.{texts, IsVsnprintf}
use uprobe_tests.Udbgfs.Shows.{file_data}
use uprobe_tests.Existing.Probed.{Fn, probeme4, probeme6}
use uprobe_tests.Existing.Probe5.{Probe5, usp_init, init_module, register_usp}
use uprobe_tests.Existing.Probe5
use uprobe_tests.Existing.Probe5.Report.{
  probe_and_report as probe5_and_report, whole_report as probe5_report,
}
use uprobe_tests.Existing.Probe5.Report.Whole.{probe5-probeme4}
use uprobe_tests.Existing.Probe6.{probes_init, probe6_init, register_probes}
use uprobe_tests.Existing.Probe6
use uprobe_tests.Existing.Probe6.Report.{probe_and_report as probe6_and_report}
use uprobe_tests.Existing.Probe6.Report.Whole.{whole_report, probe6-probeme6}
use uprobe_tests.Tests.{start, simple_read, simple_read-IsSimpleRead}
use uprobe_tests.Tests.Stream.{verbatim, verbatim_kernel, verbatim_kernel-IsVsnprintf}
use uprobe_tests.Base.{pos}

abbrev sum_of : Name → ℕ
sum_of [] = 0
sum_of (x ∷ xs) = x + sum_of xs

-- Every function of the program has an address of its own.
abbrev probing : Kernel
probing = record verbatim_kernel { find_vaddr = sum_of }

probing-IsVsnprintf : IsVsnprintf probing verbatim
probing-IsVsnprintf =
    let v = verbatim_kernel-IsVsnprintf in
    record { len = v.len; stored = v.stored; refused = v.refused }

abbrev at_addresses : Fn → ℕ
at_addresses Fn.add = 0x080484a8
at_addresses _ = 0

abbrev params5 : Probe5.Params
params5 = record { pid = 42; verbose = true; vaddr = 0 }

abbrev before5 : Probe5
before5 = record { world = start; ncalls = 0; usp = usp_init }

probe5-probeme4_example :
    file_data simple_read 200 16 (
      probe5_and_report probing params5 at_addresses 1
        (probeme4 2 (pos 3))
        (init_module probing params5 before5).1)
    ≡ some (probe5_report verbatim params5 0x080484a8 3)
unfolding init_module u_dbfs_init
probe5-probeme4_example =
    probe5-probeme4 probing-IsVsnprintf simple_read-IsSimpleRead params5 at_addresses 3 1 200 16
      before5 refl refl refl refl (λ t len. refl) (omega arith) (omega arith) (omega arith)
      (omega arith) (omega arith)

abbrev params6 : Probe6.Params
params6 = record { pid = 42; verbose = true }

probe6-probeme6_example :
    file_data simple_read 500 16 (
      probe6_and_report probing params6 1
        (probeme6 2 (pos 3))
        (probe6_init probing params6 (record { world = start; probes = probes_init })).1)
    ≡ some (texts verbatim (whole_report params6 3))
unfolding probe6_init texts u_dbfs_init
probe6-probeme6_example =
    probe6-probeme6 probing-IsVsnprintf simple_read-IsSimpleRead params6 3 1 500 16 start refl refl
      (ground arith) (λ t len. refl) (omega arith) (omega arith) (omega arith) (omega arith)
      (omega arith)

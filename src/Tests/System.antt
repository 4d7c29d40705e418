-- ===== src/Tests/System.antt =====
-- A concrete run of kthread.c and uthread.c together.
use uprobe_tests.Base.{
  ℕ, ◌+◌, ◌*◌, ◌%◌, ◌≡◌, refl, true, none, some, Option, [], ◌∷◌, arith, pos, All,
}
use uprobe_tests.Kernel.{codes, World}
use uprobe_tests.Udbgfs.{u_dbfs_init}
use uprobe_tests.Resolve.{init_uprobe}
use uprobe_tests.Symbols.{Symbol, Table, strcmp_eq, for_each_glob, find_inode}
use uprobe_tests.Kmods
use uprobe_tests.Kmods.{Module}
use uprobe_tests.Slot.{Probed}
use uprobe_tests.Slot.Memory.{i386, cell_mod}
use uprobe_tests.Programs.{ids_from}
use uprobe_tests.Programs.Main.{Report, main}
use uprobe_tests.Programs.Schedule.{System, run}
use uprobe_tests.Programs.Schedule.Run.{Survives, start_with}
use uprobe_tests.Programs.Schedule.Passed.{AllDone, run-AllDone}
use uprobe_tests.Programs.System.{probe_name, has_symbol, are_probed, every_probe, kthread-uthread}
use uprobe_tests.Tests.{kernel, start}
use uprobe_tests.Tests.Programs.{config}
use uprobe_tests.Tests.Threads.{
  threads, threads-IsDisjoint, schedule, schedule-All, enough, all_fine,
}

abbrev placed : ℕ → ℕ → Symbol
placed offset id = record { path = codes "/tmp/uthread"; offset = offset; name = probe_name id }

abbrev symbols : Table
symbols =
    placed 16 0
    ∷ placed 32 1
    ∷ placed 48 2
    ∷ placed 64 3
    ∷ placed 80 4
    ∷ placed 96 5
    ∷ placed 112 6
    ∷ placed 128 7
    ∷ placed 144 8
    ∷ placed 160 9
    ∷ []

symbols-All : All (λ id. has_symbol symbols (probe_name id) ≡ true) (ids_from 0 10)
unfolding has_symbol strcmp_eq
symbols-All = (refl, (refl, (refl, (refl, (refl, (refl, (refl, (refl, (refl, (refl, tt))))))))))

loaded : (Kmods.init_module kernel symbols config Module.kthread start).0 ≡ pos 0
unfolding Kmods.init_module init_uprobe u_dbfs_init for_each_glob find_inode
loaded = refl

abbrev world : World
world = (Kmods.init_module kernel symbols config Module.kthread start).1

abbrev fresh : Probed
fresh = record { mem = λ q. none; world = world }

system_of :
    (P : System → Type 0) (o : Option System) → Survives P o → (y : System) × ((o ≡ some y) × P y)
system_of P none p = absurd p
system_of P (some y) p = (y, (refl, p))

final :
    (y : System) × ((run kernel i386
          (are_probed symbols world.trace (ids_from 0 10))
          10
          1
          threads
          schedule
          (start_with fresh)
        ≡ some y)
      × AllDone kernel 10 1 2 threads threads-IsDisjoint (omega arith) (omega arith) fresh y)
final =
    let probed = every_probe kernel symbols config start loaded (ids_from 0 10) symbols-All in
    rw probed (
      system_of _ _ (
        run-AllDone kernel 10 1 2 threads threads-IsDisjoint (omega arith) (omega arith) fresh
          schedule schedule-All enough))

kthread-uthread_example :
    (main all_fine 3 (pos 2) (pos 1) (pos 9) ≡ Report.passed)
    × (final.0.shared.world.num_probes % cell_mod ≡ (world.num_probes + 2 * (1 * 10)) % cell_mod)
kthread-uthread_example =
    kthread-uthread kernel symbols config start all_fine 2 1 (pos 9) threads (λ q. none) schedule
      final.0 loaded symbols-All (omega arith) (omega arith) (omega arith) (omega arith)
      threads-IsDisjoint schedule-All final.1.0 final.1.1.results (λ i lt. refl) (λ i lt. refl)

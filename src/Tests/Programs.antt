-- ===== src/Tests/Programs.antt =====
-- Concrete runs of the slot, of the symbol table and of the modules of uprobes.w.
use mathlib.Core.List.{reverse_aux}
use uprobe_tests.Base.{
  ℕ, ℤ, suc, ◌<◌, ◌+◌, String, min, ltb, ◌⊎◌, ◌≡◌, refl, inl, true, false, none, some, [], ◌∷◌,
  ◌++◌, List, arith, ◌==◌, if◌then◌else◌, length, take, pos, negsuc, is_neg,
}
use uprobe_tests.Kernel.{codes, World}
use uprobe_tests.Slot.{Probed, ucount_at, kcount_at}
use uprobe_tests.Slot.Memory.{i386, x86_64, get_ulong}
use uprobe_tests.Slot.User.{nth_call, probe, init_slot}
use uprobe_tests.Slot.Counts.{Counts, Ends}
use uprobe_tests.Slot.I386.{nth_call-Counts}
use uprobe_tests.Slot.X86_64.{nth_call_miscounts}
use uprobe_tests.Symbols.{Symbol, Table, Body, for_each_glob, find_inode}
use uprobe_tests.Symbols.Loop.{matching, starts_with, run_all, for_each_glob-run_all}
use uprobe_tests.Resolve.{Config, init_uprobe}
use uprobe_tests.Udbgfs.{u_dbfs_init}
use uprobe_tests.Kmods
use uprobe_tests.Kmods.{Module, handler_of, probe_prefix}
use uprobe_tests.Kmods.Registered.{registrations, removals}
use uprobe_tests.Kmods.Init.{probes_of, init_module-matching, cleanup_module_leaks}
use uprobe_tests.Kmods.Kunreg
use uprobe_tests.Kmods.Kunreg.{max_probes}
use uprobe_tests.Kmods.Kunreg.Kept.{kept, taken}
use uprobe_tests.Kmods.Kunreg.Removal.{IsFresh, cleanup_module-init_module}
use uprobe_tests.Programs.{ids_from, thread_1}
use uprobe_tests.Programs.Wide.{thread_1-fails}
use uprobe_tests.Kmods.Kunreg.Callback
use uprobe_tests.Kmods.Kunreg.Callback.Twice.{round, twice, takes_back_twice}
use uprobe_tests.Kernel.Count.{unregisters}
use uprobe_tests.Kmods.Kunreg.Callback.Answers.{HasFiles, NoFiles, placed, Left, load-answers}
use uprobe_tests.Tests.{kernel, start}

-- Nothing is mapped but what is stored.
abbrev probed : Probed
probed = record { mem = λ q. none; world = start }

nth_call-Counts_example :
    Ends
      (λ v t. (v ≡ pos 5) × Counts i386 100 7 5 5 t.mem)
      (nth_call 5
        (probe kernel i386 true 7 10 100)
        (record probed { mem = init_slot i386 100 probed.mem }))
nth_call-Counts_example =
    nth_call-Counts kernel 7 100 (omega arith) 10 probed 5 (inl (omega arith)) (omega arith)

nth_call_miscounts_example :
    Ends
      (λ v t.
        (v ≡ (if ltb 5 2 then pos 5 else negsuc 1))
        × (get_ulong x86_64 t.mem (100 + ucount_at) ≡ some (min 5 1))
        × (get_ulong x86_64 t.mem (100 + kcount_at x86_64) ≡ some 5))
      (nth_call 5
        (probe kernel x86_64 true 7 10 100)
        (record probed { mem = init_slot x86_64 100 probed.mem }))
nth_call_miscounts_example = nth_call_miscounts kernel 7 100 (omega arith) 10 probed 5 (omega arith)

thread_1-fails_example :
    Ends
      (λ v t. v ≡ (if ltb 5 3 then pos 0 else negsuc 1))
      (thread_1 kernel x86_64 true 7 10 100 (ids_from 0 10) 5 probed)
thread_1-fails_example = thread_1-fails kernel 7 10 100 (omega arith) 5 probed

abbrev named : String → ℕ → Symbol
named name offset = record { path = codes "/tmp/uthread"; offset = offset; name = codes name }

abbrev symbols : Table
symbols = named "main" 16 ∷ named "_probe_0" 32 ∷ named "probe_0" 48 ∷ named "_probe_1" 64 ∷ []

-- A body that counts its rounds and returns at the second.
abbrev two_rounds : Body ℕ
two_rounds found n = if n == 1 then (some (pos 9), 2) else (none, n + 1)

for_each_glob-run_all_example :
    for_each_glob (suc (length symbols)) symbols probe_prefix two_rounds 0 0
    ≡ run_all (matching symbols probe_prefix) two_rounds 0
for_each_glob-run_all_example =
    for_each_glob-run_all symbols probe_prefix two_rounds (omega arith) 0

abbrev pub config : Config
config = record {
  regset_view_exported = true;
  utrace_regset = false;
  register_exported = false;
  unregister_exported = false;
  get_swbp_addr_exported = true;
}

abbrev loaded : World
loaded = (Kmods.init_module kernel symbols config Module.kthread start).1

init_module-matching_example :
    ((((Kmods.init_module kernel symbols config Module.kthread start).0 ≡ pos 0)
        × (registrations loaded.trace
            ≡ reverse_aux
                (probes_of symbols (handler_of Module.kthread) (matching symbols probe_prefix))
                (registrations start.trace)))
      ⊎ ((is_neg (Kmods.init_module kernel symbols config Module.kthread start).0 ≡ true)
          × (count : ℕ) × (registrations loaded.trace
              ≡ reverse_aux
                  (probes_of symbols
                    (handler_of Module.kthread)
                    (take count (matching symbols probe_prefix)))
                  (registrations start.trace))))
    × (removals loaded.trace ≡ removals start.trace)
    × (loaded.oops ≡ start.oops)
init_module-matching_example = init_module-matching kernel symbols config Module.kthread start

cleanup_module_leaks_example :
    (registrations (Kmods.cleanup_module loaded).1.trace
      ≡ reverse_aux
          (probes_of symbols (handler_of Module.kthread) (matching symbols probe_prefix))
          (registrations start.trace))
    × (removals (Kmods.cleanup_module loaded).1.trace ≡ removals start.trace)
unfolding Kmods.init_module init_uprobe u_dbfs_init for_each_glob find_inode
cleanup_module_leaks_example = cleanup_module_leaks kernel symbols config Module.kthread start refl

few_symbols : length (matching symbols probe_prefix) < max_probes
unfolding matching starts_with
few_symbols = let two : length (matching symbols probe_prefix) ≡ 2 = refl in omega (arith, two)

abbrev unloaded : Kunreg.Kunreg
unloaded = record {
  world = start;
  num_reg_probes = 0;
  probes = λ i. Kunreg.no_probe;
  overrun = false;
}

unloaded-IsFresh : IsFresh unloaded
unfolding kept taken
unloaded-IsFresh = record {
  no_kept = refl;
  no_taken = refl;
  zeros = λ i. refl;
  none_yet = refl;
  within = refl;
}

cleanup_module-init_module_example :
    (taken (Kunreg.cleanup_module (Kunreg.init_module kernel symbols config unloaded).1).world.trace
      ≡ Kunreg.no_probe ∷ kept (Kunreg.init_module kernel symbols config unloaded).1.world.trace)
    × ((Kunreg.cleanup_module (Kunreg.init_module kernel symbols config unloaded).1).overrun
        ≡ false)
cleanup_module-init_module_example =
    cleanup_module-init_module kernel symbols config unloaded few_symbols unloaded-IsFresh

abbrev recorded : Kunreg.Kunreg
recorded =
    Callback.hits kernel symbols (Callback.Hit.reg_all ∷ Callback.Hit.unreg_all ∷ [])
      (Callback.load kernel 3243 length 40 config unloaded).1

takes_back_twice_example :
    ((new : List Kunreg.RegProbe) × (kept
          (Callback.hit kernel symbols Callback.Hit.reg_all recorded).world.trace
        ≡ new ++ kept recorded.world.trace)
      × (taken (Kunreg.cleanup_module (round kernel symbols recorded)).world.trace
          ≡ twice kernel symbols new (recorded.probes (length new)) (taken recorded.world.trace)))
    × (unregisters 1 (Kunreg.cleanup_module (round kernel symbols recorded)).world.trace
        ≡ unregisters 1 unloaded.world.trace)
    × ((Kunreg.cleanup_module (round kernel symbols recorded)).overrun ≡ false)
takes_back_twice_example =
    takes_back_twice kernel symbols 3243 length 40 config unloaded
      (Callback.Hit.reg_all ∷ Callback.Hit.unreg_all ∷ []) recorded 1 few_symbols refl refl refl

abbrev started : ℤ × Kunreg.Kunreg
started = Callback.load kernel 3243 length 40 config unloaded

load-answers_example :
    (unregisters 1 started.1.world.trace ≡ unregisters 1 start.trace)
    × (((started.0 ≡ pos 0)
          × HasFiles start started.1.world
          × (placed started.1.world.trace ≡ 9 ∷ 7 ∷ placed start.trace))
        ⊎ ((is_neg started.0 ≡ true)
            × NoFiles start started.1.world
            × Left kernel 3243 length 40 start.trace started.1.world.trace))
unfolding u_dbfs_init init_uprobe
load-answers_example = load-answers kernel 3243 length 40 config unloaded 1 refl refl

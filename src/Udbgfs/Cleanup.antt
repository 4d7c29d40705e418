-- ===== src/Udbgfs/Cleanup.antt =====
-- The debugfs file `cleanup`: `child_exit` runs at the first write only.
use uprobe_tests.Base.{ℕ, ◌+◌, min, ◌≡◌, ◌≢◌, refl, ◌∙◌, List, [], ◌∷◌, arith, ◌==◌, if◌then◌else◌}
use uprobe_tests.Kernel.{Event, Kernel, World, Io}
use uprobe_tests.Udbgfs.{write_cleanup}

-- Writes of the given lengths, one after another.
pub writes : Kernel → Io (Unit {0}) → List ℕ → World → World
writes K child_exit [] w = w
writes K child_exit (c ∷ cs) w = writes K child_exit cs (write_cleanup K child_exit c w).1

writes_after :
    (K : Kernel) (child_exit : Io (Unit {0})) (cs : List ℕ) (w : World)
    → w.entry ≢ 0
    → writes K child_exit cs w ≡ w
unfolding writes write_cleanup
writes_after K child_exit [] w used = refl
writes_after K child_exit (c ∷ cs) w used = ground (arith, writes_after K child_exit cs w)

-- Of any number of writes to `cleanup` only the first counts. It copies at most 31 bytes; if they
-- arrive, `child_exit` runs, this once, and if they do not it never runs.
pub writes_once :
    (K : Kernel) (child_exit : Io (Unit {0})) (c : ℕ) (cs : List ℕ) (w : World)
    → ((v : World) → (child_exit v).1.entry ≡ v.entry)
    → w.entry ≡ 0
    → writes K child_exit (c ∷ cs) w ≡ (
        let left = K.copy w.trace (min c 31) in
        let first = record w {
          entry = 1;
          trace = Event.copy_from_user (min c 31) left ∷ w.trace;
        } in
        if left == 0 then (child_exit first).1 else first)
unfolding writes write_cleanup
writes_once K child_exit c cs w keeps unused =
    writes_after K child_exit cs (write_cleanup K child_exit c w).1 (ground (arith, keeps first))
    ∙ ground arith
  where
    first : World
    first = record w {
      entry = 1;
      trace = Event.copy_from_user (min c 31) (K.copy w.trace (min c 31)) ∷ w.trace;
    }

-- The first write, where its bytes arrive.
pub write_cleanup_first :
    (K : Kernel) (child_exit : Io (Unit {0})) (count : ℕ) (w : World)
    → w.entry ≡ 0
    → K.copy w.trace (min count 31) ≡ 0
    → (write_cleanup K child_exit count w).1
      ≡ (child_exit (record w {
        entry = w.entry + 1;
        trace = Event.copy_from_user (min count 31) (K.copy w.trace (min count 31)) ∷ w.trace;
      })).1
unfolding write_cleanup
write_cleanup_first K child_exit count w unused arrives = ground (arith, unused, arrives)

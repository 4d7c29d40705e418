-- ===== src/Symbols/Listing.antt =====
-- uprobes.w/sym2loc.c: a program that lists the probe functions of the symbol table.
use uprobe_tests.Base.{ℕ, suc, ◌≡◌, ◌∙◌, ap, none, List, [], ◌∷◌, ◌++◌, map, length, arith}
use mathlib.Core.List.{append-nil, append_assoc}
use uprobe_tests.Kernel.{Name, codes}
use uprobe_tests.Symbols.{Table, Body, for_each_glob}
use uprobe_tests.Symbols.Loop.{matching, run_all, for_each_glob-run_all}

-- A line `%s  %lx`.
abbrev pub Line : Type 0
Line = Name × ℕ

-- `find_vaddr` is not in the repository.
module _ (find_vaddr : Name → ℕ) where
  abbrev pub print_line : Body (List Line)
  print_line found out = (none, out ++ (found, find_vaddr found) ∷ [])

  unfoldable pub sym2loc : Table → List Line
  unfolding for_each_glob
  sym2loc table = (for_each_glob (suc (length table)) table (codes "_probe") print_line 0 []).1

  run_all-print_line :
      (names : List Name) (out : List Line)
      → (run_all names print_line out).1 ≡ out ++ map (λ n. (n, find_vaddr n)) names
  unfolding run_all
  run_all-print_line [] out = rw append-nil
  run_all-print_line (n ∷ names) out =
      run_all-print_line names (out ++ (n, find_vaddr n) ∷ [])
      ∙ append_assoc out ((n, find_vaddr n) ∷ []) _

  -- The program prints a line for each symbol that starts with `_probe`, in the order of the table.
  pub sym2loc-matching :
      (table : Table)
      → sym2loc table ≡ map (λ n. (n, find_vaddr n)) (matching table (codes "_probe"))
  unfolding sym2loc
  sym2loc-matching table =
      ap (λ r. r.1) (for_each_glob-run_all table (codes "_probe") print_line (omega arith) [])
      ∙ run_all-print_line (matching table (codes "_probe")) []

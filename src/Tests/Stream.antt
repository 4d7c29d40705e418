-- ===== src/Tests/Stream.antt =====
-- Runs of the print buffer beside a reader.
use uprobe_tests.Base.{
  ℕ, zero, suc, ap, ◌<◌, ◌≤◌, ◌⊎◌, String, ◌≡◌, refl, some, List, [], ◌∷◌, ◌++◌, arith, ltb,
  if◌then◌else◌, length, take,
}
use uprobe_tests.Kernel.{codes, Arg, Kernel}
use uprobe_tests.Udbgfs.{overlay, fresh_buf}
use uprobe_tests.Udbgfs.Buffer.{texts, IsVsnprintf}
use uprobe_tests.Udbgfs.Whole.{read_to_end}
use uprobe_tests.Udbgfs.Stream.{at_rest, Turn, run}
use uprobe_tests.Udbgfs.Stream.Stages.{under_way}
use uprobe_tests.Udbgfs.Stream.Order.{reads-printed}
use uprobe_tests.Slot.Memory.{i386}
use uprobe_tests.Slot.Race.{no_hits, count_all, overtaken, num_probes_bounds}
use uprobe_tests.Tests.{kernel, simple_read, simple_read-IsSimpleRead}

-- A format stands for itself.
abbrev pub verbatim : String → List Arg → List ℕ
verbatim fmt args = codes fmt

abbrev pub verbatim_kernel : Kernel
verbatim_kernel = record kernel {
  vsnprintf = λ n fmt args.
      if ltb n 2147483648
      then record { len = length (codes fmt); stored = take n (codes fmt ++ 0 ∷ []) }
      else record { len = 0; stored = [] };
}

take_nil : (n : ℕ) → take n [] ≡ let nil : List ℕ = [] in nil
take_nil zero = refl
take_nil (suc n) = refl

take-append_fits : (n : ℕ) (xs : List ℕ) → length xs < n → take n (xs ++ 0 ∷ []) ≡ xs ++ 0 ∷ []
take-append_fits zero xs h = absurd (omega arith)
take-append_fits (suc n) [] h = ap (◌∷◌ 0) (take_nil n)
take-append_fits (suc n) (x ∷ xs) h = ap (◌∷◌ x) (take-append_fits n xs (omega arith))

pub verbatim_kernel-IsVsnprintf : IsVsnprintf verbatim_kernel verbatim
verbatim_kernel-IsVsnprintf = record {
  len = λ n fmt args h. ground arith;
  stored = λ n fmt args h fits. ground (arith, take-append_fits n (codes fmt) fits);
  refused = λ n fmt args h. (ground arith, ground arith);
}

-- The reader comes too early, then copies while the second call is under way.
abbrev turns : List Turn
turns =
    Turn.locks ("a\n", [])
    ∷ Turn.prints
    ∷ Turn.begins 5
    ∷ Turn.prints
    ∷ Turn.prints
    ∷ Turn.begins 1
    ∷ Turn.prints
    ∷ Turn.locks ("bc\n", [])
    ∷ Turn.reads
    ∷ Turn.prints
    ∷ Turn.reads
    ∷ Turn.prints
    ∷ []

reads-printed_example :
    let s = run verbatim_kernel simple_read turns (at_rest (fresh_buf 1 2)) in
    (s.got ≡ take s.ppos (texts verbatim s.calls))
    × (rest : List ℕ) × (pending : List ℕ) × (read_to_end simple_read s.buf 20 3 s.ppos ≡ some rest)
    × (length pending ≡ under_way verbatim s.printer)
    × (s.got ++ (rest ++ pending) ≡ texts verbatim s.calls)
unfolding texts run
reads-printed_example =
    reads-printed verbatim_kernel-IsVsnprintf simple_read-IsSimpleRead 1 2 turns 20 3 (omega arith)
      (omega arith) (omega arith)

turns_got : (run verbatim_kernel simple_read turns (at_rest (fresh_buf 1 2))).got ≡ codes "a"
unfolding run overlay
turns_got = refl

-- Two handlers that load before either stores.
num_probes_bounds_example :
    (((count_all i386 (0 ∷ 1 ∷ 0 ∷ 1 ∷ []) no_hits).num_probes
        ≤ (count_all i386 (0 ∷ 1 ∷ 0 ∷ 1 ∷ []) no_hits).hits)
      × (((count_all i386 (0 ∷ 1 ∷ 0 ∷ 1 ∷ []) no_hits).hits ≡ 0)
          ⊎ (0 < (count_all i386 (0 ∷ 1 ∷ 0 ∷ 1 ∷ []) no_hits).num_probes)))
    × ((count_all i386 (overtaken 0 1 5) no_hits).hits ≡ 6)
    × ((count_all i386 (overtaken 0 1 5) no_hits).num_probes ≡ 1)
unfolding count_all
num_probes_bounds_example =
    num_probes_bounds i386 (0 ∷ 1 ∷ 0 ∷ 1 ∷ []) 0 1 5 (omega arith) (omega arith)

-- ===== src/Existing/Probe6/Report/Whole.antt =====
-- The whole test of probe6.c and probeme6.c.
use uprobe_tests.Base.{
  ℕ, zero, suc, ◌%◌, ◌≡◌, ◌<◌, refl, ap, ◌∙◌, some, List, [], ◌∷◌, ◌++◌, map, arith, String, true,
  length, pos, All, ltb,
}
use mathlib.Core.Path.{fun_ext}
use mathlib.Core.List.{append_assoc}
use uprobe_tests.Kernel.{Arg, Trace, Kernel, World}
use uprobe_tests.Udbgfs.{data_buf_size, SimpleRead}
use uprobe_tests.Udbgfs.Buffer.{texts, IsVsnprintf, IsSimpleRead}
use uprobe_tests.Udbgfs.Shows.{file_data, file_data-Shows}
use uprobe_tests.Existing.Probe6.{Params, probes_init, probe6_init}
use uprobe_tests.Existing.Probed.{Fn, Work, no_work, add_loop, farewell, say_bye, probeme6}
use uprobe_tests.Existing.Probed.Sums.{
  with_farewell, farewell_calls, add_loop-AddsUp, add_loop_adds,
}
use uprobe_tests.Existing.Probe6.Report.{
  has_entry, on_calls, probe_and_report, places, AreApart, Line, first_lines, called, if_verbose,
}
use uprobe_tests.Existing.Probe6.Report.Load.{Ready, probe6_init-Ready}
use uprobe_tests.Existing.Probe6.Report.Steps.{
  said, count_lines, counts, counts-calls_of, on_calls-Ready, probe_and_report-Shows, fits_before,
}

-- `n` lines on `add`, and then these.
abbrev pub adds_then : ℕ → List Line → List Line
adds_then zero ps = ps
adds_then (suc n) ps = called Fn.add ∷ adds_then n ps

abbrev pub farewell_lines : List Line
farewell_lines =
    map called (Fn.bye ∷ Fn.adios ∷ Fn.au_revoir ∷ Fn.auf_wiedersehen ∷ Fn.arrivederci ∷ [])

-- What the file `data` says after `n` rounds.
abbrev pub whole_report : Params → ℕ → List Line
whole_report c n =
    (first_lines ++ if_verbose c (adds_then n farewell_lines))
    ++ count_lines (with_farewell n) places

adds_then_comm :
    (n : ℕ) (ps : List Line) → adds_then n (called Fn.add ∷ ps) ≡ called Fn.add ∷ adds_then n ps
adds_then_comm zero ps = refl
adds_then_comm (suc n) ps = ap (◌∷◌ (called Fn.add)) (adds_then_comm n ps)

said_adds :
    (calls : List Fn) (ps : List Line)
    → All (λ f. f ≡ Fn.add) calls
    → said calls ++ ps ≡ adds_then (length calls) ps
said_adds [] ps all = refl
said_adds (f ∷ older) ps (is_add, all) =
    append_assoc (said older) (called f ∷ []) ps
    ∙ said_adds older (called f ∷ ps) all
    ∙ rw is_add (adds_then_comm (length older) ps)

said-farewell :
    (w : Work)
    → All (λ f. f ≡ Fn.add) w.calls
    → said (farewell w).calls ≡ adds_then (length w.calls) farewell_lines
said-farewell w all = simp append_assoc (said_adds w.calls farewell_lines all)

All-has_entry :
    (calls : List Fn) → All (λ f. f ≡ Fn.add) calls → All (λ f. has_entry f ≡ true) calls
All-has_entry [] all = tt
All-has_entry (f ∷ calls) (e, all) = (ap has_entry e, All-has_entry calls all)

module _ {K : Kernel} {render : String → List Arg → List ℕ} (V : IsVsnprintf K render) (c : Params)
    (apart : AreApart K c) (n : ℕ) (small : n < 2147483647) where
  abbrev work : Work
  work = add_loop n 1 no_work

  -- The counts of the module are those of the calls.
  counts_lem : counts V c apart (farewell work).calls ≡ with_farewell n
  counts_lem = fun_ext λ f.
      counts-calls_of V c apart (farewell work).calls f
      ∙ ap (λ (k : ℕ). k % 4294967296) (farewell_calls n work f (add_loop-AddsUp n))
      ∙ small_count f
    where
      small_count : (f : Fn) → with_farewell n f % 4294967296 ≡ with_farewell n f
      small_count Fn.add = omega arith
      small_count Fn.subtract = omega arith
      small_count Fn.bye = omega arith
      small_count Fn.adios = omega arith
      small_count Fn.au_revoir = omega arith
      small_count Fn.auf_wiedersehen = omega arith
      small_count Fn.arrivederci = omega arith

  all_counted :
      (w : World)
      → w.entry ≡ 0
      → length (texts render (whole_report c n)) < data_buf_size
      → (probe6_init K c (record { world = w; probes = probes_init })).0 ≡ pos 0
      → Ready V c
          (on_calls K c
            (farewell work).calls
            (probe6_init K c (record { world = w; probes = probes_init })).1)
          (with_farewell n)
          (first_lines ++ if_verbose c (adds_then n farewell_lines))
  all_counted w unused fits ok =
      let adds = add_loop_adds n 1 no_work tt in
      let there : All (λ f. has_entry f ≡ true) (farewell work).calls =
        (refl, (refl, (refl, (refl, (refl, All-has_entry work.calls adds.0))))) in
      let many : length work.calls ≡ n = omega (arith, adds.1) in
      let told : said (farewell work).calls ≡ adds_then n farewell_lines =
        said-farewell work adds.0 ∙ ap (λ (k : ℕ). adds_then k farewell_lines) many in
      let before =
        fits_before V c apart (first_lines ++ if_verbose c (adds_then n farewell_lines))
          (count_lines (with_farewell n) places) fits in
      let loaded =
        probe6_init-Ready V c w unused
          (fits_before V c apart first_lines (if_verbose c (adds_then n farewell_lines)) before)
          ok in
      rw (counts_lem, told) at
        (on_calls-Ready V c apart (farewell work).calls first_lines
          (probe6_init K c (record { world = w; probes = probes_init })).1 there loaded
          (rw told before))

-- The whole test of probe6.c: it loads, probeme6 runs with `n` rounds, and a write to the debugfs file
-- `cleanup` calls `child_exit`. Then the file `data`, read to its end, names the six functions as they
-- were registered; if `verbose`, it names each call in the order of the program, `n` of `add` and then
-- the five farewells; and it ends with a count for each function, `n` for `add` and 1 for the others.
-- Nothing else is in it. The functions stand at different addresses, `entry` starts at 0, the kernel takes
-- the bytes written, `n` is from 1 to 2 ^ 31 - 2, the text fits the block with one byte to spare, and
-- `reads` reads of `chunk` bytes are enough for it.
pub probe6-probeme6 :
    {K : Kernel} {render : String → List Arg → List ℕ} (V : IsVsnprintf K render)
    {simple_read : SimpleRead} (S : IsSimpleRead simple_read) (c : Params) (n count reads chunk : ℕ)
    (w : World)
    → (probe6_init K c (record { world = w; probes = probes_init })).0 ≡ pos 0
    → w.entry ≡ 0
    → AreApart K c
    → ((t : Trace) (len : ℕ) → K.copy t len ≡ 0)
    → 0 < n
    → n < 2147483647
    → length (texts render (whole_report c n)) < data_buf_size
    → length (texts render (whole_report c n)) < reads
    → 0 < chunk
    → file_data simple_read reads chunk (
        probe_and_report K c count
          (probeme6 2 (pos n))
          (probe6_init K c (record { world = w; probes = probes_init })).1)
      ≡ some (texts render (whole_report c n))
unfolding probeme6 say_bye
probe6-probeme6 V S c n count reads zero w ok unused apart arrives some_rounds small fits enough
      some_bytes =
    absurd (omega arith)
probe6-probeme6 {render} V S c n count reads (suc chunk) w ok unused apart arrives some_rounds small
      fits enough some_bytes =
    let ready = all_counted V c apart n small w unused fits ok in
    let positive_n : ltb 0 n ≡ true = ground arith in
    rw positive_n (
      file_data-Shows S reads chunk _ (texts render (whole_report c n))
        (probe_and_report-Shows V c apart count (farewell (add_loop n 1 no_work)) (with_farewell n)
          (first_lines ++ if_verbose c (adds_then n farewell_lines)) _ ready arrives fits)
        enough)

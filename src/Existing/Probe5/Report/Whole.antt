-- ===== src/Existing/Probe5/Report/Whole.antt =====
-- The whole test of probe5.c and probeme4.c.
use uprobe_tests.Base.{
  ℕ, zero, suc, ◌+◌, ◌<◌, ◌≡◌, refl, true, some, List, [], ◌∷◌, ◌++◌, String, arith, length,
  length-append, pos, ltb,
}
use uprobe_tests.Kernel.{Arg, Trace, Kernel}
use uprobe_tests.Udbgfs.{data_buf_size, SimpleRead}
use uprobe_tests.Udbgfs.Buffer.{IsVsnprintf, IsSimpleRead}
use uprobe_tests.Udbgfs.Shows.{file_data, file_data-Shows}
use uprobe_tests.Existing.Probe5.{Params, Probe5, placed, init_module}
use uprobe_tests.Existing.Probed.{Fn, Work, no_work, add_loop, End, probeme4}
use uprobe_tests.Existing.Probed.Sums.{add_loop_adds}
use uprobe_tests.Existing.Probe5.Report.{
  Addresses, on_calls, probe_and_report, registering, called, whole_report,
}
use uprobe_tests.Existing.Probe5.Report.Hits.{
  AfterHits, on_calls-AfterHits, init_module-AfterHits, reported,
}

-- The whole test of probe5.c: it loads with the probe on the address of `add`, probeme4 runs with `n`
-- rounds, and a write to the debugfs file `cleanup` calls `child_exit`. Then the file `data`, read to
-- its end, says where the probe was put, `add() called` once for each of the `n` calls if `verbose`, and
-- `ncalls=n`, in this order and nothing else. The counter and `entry` start at 0, the kernel takes the
-- bytes written, `n` is from 1 to 2 ^ 31 - 2, the text fits the block with one byte to spare, and
-- `reads` reads of `chunk` bytes are enough for it.
pub probe5-probeme4 :
    {K : Kernel} {render : String → List Arg → List ℕ} (V : IsVsnprintf K render)
    {simple_read : SimpleRead} (S : IsSimpleRead simple_read) (c : Params) (address : Addresses)
    (n count reads chunk : ℕ) (s : Probe5)
    → (init_module K c s).0 ≡ pos 0
    → s.ncalls ≡ 0
    → s.world.entry ≡ 0
    → address Fn.add ≡ (placed K c s.usp).vaddr
    → ((t : Trace) (len : ℕ) → K.copy t len ≡ 0)
    → 0 < n
    → n < 2147483647
    → length (whole_report render c (address Fn.add) n) < data_buf_size
    → length (whole_report render c (address Fn.add) n) < reads
    → 0 < chunk
    → file_data simple_read reads chunk
        (probe_and_report K c address count (probeme4 2 (pos n)) (init_module K c s).1)
      ≡ some (whole_report render c (address Fn.add) n)
unfolding probeme4
probe5-probeme4 V S c address n count reads zero s ok none_yet unused place arrives some_rounds
      small fits enough some_bytes =
    absurd (omega arith)
probe5-probeme4 {K} {render} V S c address n count reads (suc chunk) s ok none_yet unused place
      arrives some_rounds small fits enough some_bytes =
    let w : Work = add_loop n 1 no_work in
    let (adds, how_many) = add_loop_adds n 1 no_work tt in
    let many : length w.calls ≡ n = omega (arith, how_many) in
    let first : List ℕ = registering render c (address Fn.add) in
    let all : length (whole_report render c (address Fn.add) n)
        ≡ length (first ++ called render c n) + length (render "ncalls=%d\n" (Arg.num n ∷ [])) =
      length-append (first ++ called render c n) (render "ncalls=%d\n" (Arg.num n ∷ [])) in
    let loaded : AfterHits V c address (address Fn.add) first 0 (init_module K c s).1 = rw place (
      init_module-AfterHits V c address s ok none_yet unused
        (rw (← place) (omega (arith, fits, all, length-append first (called render c n))))) in
    let hit : AfterHits V c address (address Fn.add) first n
        (on_calls K c address w.calls (init_module K c s).1) =
      rw many at (
        on_calls-AfterHits V c address first w.calls (init_module K c s).1 adds loaded
          (rw many (omega (arith, fits, all)))) in
    let runs : probeme4 2 (pos n) ≡ End.exits 0 w =
      let positive_n : ltb 0 n ≡ true = ground arith in rw positive_n refl in
    rw runs (
      file_data-Shows S reads chunk _ (whole_report render c (address Fn.add) n)
        (reported V c address count n (address Fn.add) w (init_module K c s).1 hit arrives small
          fits)
        enough)

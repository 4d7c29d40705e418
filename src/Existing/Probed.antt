-- ===== src/Existing/Probed.antt =====
-- The programs that the modules of uprobes.existing probe: probeme4.c, probeme4s.c, probeme6.c,
-- probe7-thread.c and probe8-fork.c. An `int` is a bit pattern of 32 bits; the calls of the functions
-- that can be probed are kept, the newest first. What the programs print is left out but for `sum`.
pub mod Sums
use uprobe_tests.Base.{
  ℕ, zero, suc, ◌+◌, ◌-◌, ◌%◌, Bool, true, false, ◌&&◌, not, List, [], ◌∷◌, ltb, ◌==◌,
  if◌then◌else◌, ℤ, pos, negsuc, is_neg,
}
use uprobe_tests.Programs.Main.{positive}

pub data Fn : Type 0 where
  add subtract bye adios au_revoir auf_wiedersehen arrivederci : Fn

pub record Work : Type 0 where
  pub sum : ℕ
  pub calls : List Fn

abbrev pub int_mod : ℕ
int_mod = 4294967296

-- `sum = add(sum, i)`, and likewise for `subtract`.
unfoldable pub do_add : (i : ℕ) → Work → Work
do_add i w = record { sum = (w.sum + i) % int_mod; calls = Fn.add ∷ w.calls }

unfoldable pub do_subtract : (i : ℕ) → Work → Work
do_subtract i w = record {
  sum = (w.sum + int_mod - i % int_mod) % int_mod;
  calls = Fn.subtract ∷ w.calls;
}

abbrev pub no_work : Work
no_work = record { sum = 0; calls = [] }

-- The loop from `i` on, `left` rounds; one that starts at 1 ends with `i` one above the bound, which an
-- `int` must be able to hold.
unfoldable pub add_loop : (left i : ℕ) → Work → Work
unfolding do_add
add_loop zero i w = w
add_loop (suc left) i w = add_loop left (suc i) (do_add i w)

unfoldable pub add_subtract_loop : (left i : ℕ) → Work → Work
unfolding do_add do_subtract
add_subtract_loop zero i w = w
add_subtract_loop (suc left) i w = add_subtract_loop left (suc i) (do_subtract i (do_add i w))

-- How a program ends, with its work: by `report_test_fail` or with the exit status.
pub data End : Type 0 where
  test_failed : End
  exits : (status : ℕ) → Work → End

-- `argc != 2 || (n = atoi(argv[1])) <= 0`.
abbrev pub good_args : (argc : ℕ) → (n : ℤ) → Bool
good_args argc n = argc == 2 && ltb 0 (positive n)

unfoldable pub probeme4 : (argc : ℕ) → (n : ℤ) → End
unfolding add_loop
probeme4 argc n =
    if good_args argc n then End.exits 0 (add_loop (positive n) 1 no_work) else End.test_failed

unfoldable pub probeme4s : (argc : ℕ) → (n : ℤ) → End
unfolding add_subtract_loop
probeme4s argc n =
    if good_args argc n
    then End.exits 0 (add_subtract_loop (positive n) 1 no_work)
    else End.test_failed

-- `bye` calls the next, and so on to `arrivederci`, which exits.
abbrev pub farewell : Work → Work
farewell w = record w {
  calls = Fn.arrivederci ∷ Fn.auf_wiedersehen ∷ Fn.au_revoir ∷ Fn.adios ∷ Fn.bye ∷ w.calls;
}

unfoldable pub say_bye : Work → End
say_bye w = End.exits 0 (farewell w)

unfoldable pub probeme6 : (argc : ℕ) → (n : ℤ) → End
unfolding add_loop say_bye
probeme6 argc n =
    if good_args argc n then say_bye (add_loop (positive n) 1 no_work) else End.test_failed

-- probe7-thread.c: `niter` is unsigned, so that only 0 is refused, and each of the two threads has a
-- `sum` of its own.
abbrev pub to_unsigned : ℤ → ℕ
to_unsigned (pos n) = n % int_mod
to_unsigned (negsuc n) = int_mod - 1 - n % int_mod

unfoldable pub start_thread : (niter : ℕ) → Work
unfolding add_loop
start_thread niter = add_loop niter 1 no_work

unfoldable pub probe7_thread : (argc : ℕ) → (n : ℤ) → End × End
unfolding start_thread
probe7_thread argc n =
    if argc == 2 && not (to_unsigned n == 0)
    then (End.exits 0 (start_thread (to_unsigned n)), End.exits 0 (start_thread (to_unsigned n)))
    else (End.test_failed, End.test_failed)

-- probe8-fork.c: how the parent and the child end, where `fork` gives `pid`; -1 is a failure. The
-- child that the parent waits for has exited with 0.
unfoldable pub calc_sum : (niter : ℕ) → Work
unfolding add_loop
calc_sum niter = add_loop niter 1 no_work

unfoldable pub probe8_fork : (argc : ℕ) → (n : ℤ) → (pid : ℤ) → End × End
unfolding calc_sum
probe8_fork argc n pid =
    if good_args argc n && not (is_neg pid)
    then (End.exits 0 (calc_sum (positive n)), End.exits 0 (calc_sum (positive n)))
    else (End.test_failed, End.test_failed)

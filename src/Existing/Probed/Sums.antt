-- ===== src/Existing/Probed/Sums.antt =====
-- What the probed programs compute, and how often they call each function.
use uprobe_tests.Base.{
  ℕ, zero, suc, ◌+◌, ◌*◌, ◌/◌, ◌%◌, ◌<◌, ltb, ◌==◌, ◌≡◌, ◌∙◌, ap, refl, Bool, true, false, ◌&&◌,
  ◌||◌, List, [], ◌∷◌, All, length, arith, if◌then◌else◌, pos,
}
use uprobe_tests.Existing.Probed.{
  Fn, Work, int_mod, do_add, do_subtract, no_work, add_loop, add_subtract_loop, End, probeme4,
  probeme4s, farewell, say_bye, probeme6, start_thread, probe7_thread, calc_sum, probe8_fork,
}

-- Calls of one function.
abbrev pub is_fn : Fn → Fn → Bool
is_fn Fn.add Fn.add = true
is_fn Fn.subtract Fn.subtract = true
is_fn Fn.bye Fn.bye = true
is_fn Fn.adios Fn.adios = true
is_fn Fn.au_revoir Fn.au_revoir = true
is_fn Fn.auf_wiedersehen Fn.auf_wiedersehen = true
is_fn Fn.arrivederci Fn.arrivederci = true
is_fn _ _ = false

unfoldable pub calls_of : Fn → List Fn → ℕ
calls_of f [] = 0
calls_of f (g ∷ fs) = if is_fn f g then suc (calls_of f fs) else calls_of f fs

-- `i`, `i + 1` and so on, `n` of them, added up.
rising : ℕ → ℕ → ℕ
rising i zero = 0
rising i (suc n) = i + rising (suc i) n

rising_closed : (n i : ℕ) → 2 * rising i n + n ≡ 2 * (i * n) + n * n
unfolding rising
rising_closed zero i = grind arith
rising_closed (suc n) i = grind (arith, rising_closed n (suc i))

rising_1 : (n : ℕ) → rising 1 n ≡ n * (n + 1) / 2
rising_1 n =
    let both : 2 * rising 1 n ≡ n * (n + 1) = grind (arith, rising_closed n 1) in
    omega (arith, both)

add_loop_sum :
    (left i : ℕ) (w : Work)
    → w.sum < int_mod
    → (add_loop left i w).sum ≡ (w.sum + rising i left) % int_mod
unfolding add_loop rising do_add
add_loop_sum zero i w small = omega arith
add_loop_sum (suc left) i w small =
    omega (arith, add_loop_sum left (suc i) (do_add i w) (omega arith))

add_loop_calls :
    (f : Fn) (left i : ℕ) (w : Work)
    → calls_of f (add_loop left i w).calls
      ≡ (if is_fn f Fn.add then left else 0) + calls_of f w.calls
unfolding add_loop do_add calls_of
add_loop_calls f zero i w = ground arith
add_loop_calls f (suc left) i w = ground (arith, add_loop_calls f left (suc i) (do_add i w))

-- The loop calls `add` alone.
pub add_loop_adds :
    (left i : ℕ) (w : Work)
    → All (λ f. f ≡ Fn.add) w.calls
    → All (λ f. f ≡ Fn.add) (add_loop left i w).calls
      × (length (add_loop left i w).calls ≡ left + length w.calls)
unfolding add_loop do_add
add_loop_adds zero i w all = (all, omega arith)
add_loop_adds (suc left) i w all =
    let later = add_loop_adds left (suc i) (do_add i w) (refl, all) in
    (later.0, omega (arith, later.1))

add_subtract_loop_sum :
    (left i : ℕ) (w : Work) → w.sum < int_mod → (add_subtract_loop left i w).sum ≡ w.sum
unfolding add_subtract_loop do_add do_subtract
add_subtract_loop_sum zero i w small = refl
add_subtract_loop_sum (suc left) i w small =
    let there : (do_subtract i (do_add i w)).sum ≡ w.sum = omega arith in
    add_subtract_loop_sum left (suc i) (do_subtract i (do_add i w)) (omega arith) ∙ there

abbrev pub add_or_subtract : Fn → Bool
add_or_subtract f = is_fn f Fn.add || is_fn f Fn.subtract

add_subtract_loop_calls :
    (f : Fn) (left i : ℕ) (w : Work)
    → calls_of f (add_subtract_loop left i w).calls
      ≡ (if add_or_subtract f then left else 0) + calls_of f w.calls
unfolding add_subtract_loop do_add do_subtract calls_of
add_subtract_loop_calls f zero i w = ground arith
add_subtract_loop_calls f (suc left) i w =
    let later = add_subtract_loop_calls f left (suc i) (do_subtract i (do_add i w)) in
    let one = not_both f in ground (arith, later, one)
  where
    not_both : (f : Fn) → (is_fn f Fn.add && is_fn f Fn.subtract) ≡ false
    not_both Fn.add = refl
    not_both Fn.subtract = refl
    not_both Fn.bye = refl
    not_both Fn.adios = refl
    not_both Fn.au_revoir = refl
    not_both Fn.auf_wiedersehen = refl
    not_both Fn.arrivederci = refl

-- The work of one loop of `n` rounds: the sum of 1 to `n`, and `n` calls of `add` alone.
pub record AddsUp (n : ℕ) (w : Work) : Type 0 where
  pub sum : w.sum ≡ n * (n + 1) / 2 % int_mod
  pub calls : (f : Fn) → calls_of f w.calls ≡ (if is_fn f Fn.add then n else 0)

pub add_loop-AddsUp : (n : ℕ) → AddsUp n (add_loop n 1 no_work)
unfolding calls_of
add_loop-AddsUp n = record {
  sum = omega (arith, add_loop_sum n 1 no_work (omega arith), rising_1 n);
  calls = λ f. omega (arith, add_loop_calls f n 1 no_work);
}

-- The calls of probeme6.c: each farewell once.
abbrev pub with_farewell : (n : ℕ) → Fn → ℕ
with_farewell n Fn.add = n
with_farewell n Fn.subtract = 0
with_farewell n _ = 1

pub farewell_calls :
    (n : ℕ) (w : Work) (f : Fn) → AddsUp n w → calls_of f (farewell w).calls ≡ with_farewell n f
unfolding calls_of
farewell_calls n w Fn.add u = u.calls Fn.add
farewell_calls n w Fn.subtract u = u.calls Fn.subtract
farewell_calls n w Fn.bye u = ap suc (u.calls Fn.bye)
farewell_calls n w Fn.adios u = ap suc (u.calls Fn.adios)
farewell_calls n w Fn.au_revoir u = ap suc (u.calls Fn.au_revoir)
farewell_calls n w Fn.auf_wiedersehen u = ap suc (u.calls Fn.auf_wiedersehen)
farewell_calls n w Fn.arrivederci u = ap suc (u.calls Fn.arrivederci)

-- With one argument `n`, positive and below 2 ^ 31 - 1, probeme4.c, each thread of probe7-thread.c, and
-- the parent and the child of probe8-fork.c add 1 to `n` up, modulo 2 ^ 32, by `n` calls of `add`, and
-- end with 0. So does probeme6.c, which calls each of the five farewells once as well. probeme4s.c
-- calls `add` and `subtract` `n` times each, and its sum is 0.
pub probed_programs :
    (n pid : ℕ)
    → 0 < n
    → n < 2147483647
    → ((w : Work) × AddsUp n w
        × (probeme4 2 (pos n) ≡ End.exits 0 w)
        × (probe7_thread 2 (pos n) ≡ (End.exits 0 w, End.exits 0 w))
        × (probe8_fork 2 (pos n) (pos pid) ≡ (End.exits 0 w, End.exits 0 w)))
      × ((w : Work) × (w.sum ≡ n * (n + 1) / 2 % int_mod)
          × ((f : Fn) → calls_of f w.calls ≡ with_farewell n f)
          × (probeme6 2 (pos n) ≡ End.exits 0 w))
      × ((w : Work) × (w.sum ≡ 0)
          × ((f : Fn) → calls_of f w.calls ≡ (if add_or_subtract f then n else 0))
          × (probeme4s 2 (pos n) ≡ End.exits 0 w))
unfolding probeme4 probe7_thread probe8_fork calc_sum start_thread probeme6 say_bye probeme4s
    calls_of
probed_programs n pid some_rounds fit =
    let u = add_loop-AddsUp n in
    let positive_n : ltb 0 n ≡ true = ground arith in
    let same : n % int_mod ≡ n = omega arith in
    let some_n : (n == 0) ≡ false = ground arith in
    (
      (add_loop n 1 no_work, u, rw positive_n refl, rw (same, some_n) refl, rw positive_n refl),
      (
        farewell (add_loop n 1 no_work),
        u.sum,
        λ f. farewell_calls n (add_loop n 1 no_work) f u,
        rw positive_n refl,
      ),
      (
        add_subtract_loop n 1 no_work,
        add_subtract_loop_sum n 1 no_work (omega arith),
        λ f. omega (arith, add_subtract_loop_calls f n 1 no_work),
        rw positive_n refl,
      ),
    )

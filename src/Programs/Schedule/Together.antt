-- ===== src/Programs/Schedule/Together.antt =====
-- The invariant of the threads of uthread.c on i386 with a probe on every function that they call.
use uprobe_tests.Base.{
  ℕ, zero, suc, ◌+◌, ◌*◌, ◌-◌, ◌%◌, ◌≤◌, ◌<◌, ◌≡◌, refl, true, false, Option, none, some, List, [],
  ◌∷◌, arith, length, ℤ, pos, is_neg,
}
use uprobe_tests.Kernel.{Kernel}
use uprobe_tests.Slot.{Probed}
use uprobe_tests.Slot.Memory.{Mem, i386, cell_mod}
use uprobe_tests.Slot.User.{Outcome}
use uprobe_tests.Slot.Counts.{Ends}
use uprobe_tests.Programs.{ids_from, call_id}
use uprobe_tests.Programs.Tally.{Held, StackApart, elsewhere, call_id-Tally}
use uprobe_tests.Programs.Counted.{midway, called_on, with_table-Tally}
use uprobe_tests.Programs.Schedule.{At, Thread, after_call, advance}
use uprobe_tests.Programs.Schedule.Alone.{length-ids_from, ahead}

abbrev pub SlotsHold : Thread → (f : ℕ → ℕ) → Mem → Type 0
SlotsHold th f m = (id : ℕ) → id < 10 → Held (th.table + id * 5) th.tid (f id) m

-- The calls per slot before the `i`-th call of the round that was started last, of `started` many.
abbrev pub so_far : (total started i j : ℕ) → ℕ
so_far total zero i j = 0
so_far total (suc k) i j = midway total i k j

-- A thread in its loop: `n` calls of this round are left.
pub record InLoop (total cnt : ℕ) (th : Thread) (left : ℕ) (ids : List ℕ) (error : ℤ) (m : Mem)
    : Type 0 where
  pub started : ℕ
  pub i : ℕ
  pub n : ℕ
  pub rounds_left : started + left ≡ cnt
  pub to_call : ids ≡ ids_from i n
  pub round_size : i + n ≡ total
  pub no_call_first : (started ≡ 0) → n ≡ 0
  pub no_error : is_neg error ≡ false
  pub slots : SlotsHold th (so_far total started i) m

abbrev pub Stands : (total cnt : ℕ) → Thread → At → Mem → Type 0
Stands total cnt th At.starting m = Unit
Stands total cnt th (At.calling left ids error) m = InLoop total cnt th left ids error m
Stands total cnt th (At.finished v) m = (v ≡ pos 0) × SlotsHold th (called_on total cnt) m

-- The calls that a thread has still to make.
abbrev pub calls_ahead : (total cnt : ℕ) → At → ℕ
calls_ahead total cnt At.starting = cnt * total
calls_ahead total cnt (At.calling left ids error) = length ids + left * total
calls_ahead total cnt (At.finished v) = 0

-- A step of the thread: `hits` were counted, and nothing of others changed.
pub record Moved (total cnt : ℕ) (th : Thread) (p : At) (s : Probed) (p1 : At) (s1 : Probed)
    : Type 0 where
  pub hits : ℕ
  pub stands : Stands total cnt th p1 s1.mem
  pub made : hits + calls_ahead total cnt p1 ≡ calls_ahead total cnt p
  pub closer : ahead total cnt p1 ≡ ahead total cnt p - 1
  pub counted : s1.world.num_probes % cell_mod ≡ (s.world.num_probes + hits) % cell_mod
  pub others : (q : ℕ) → elsewhere th.sp th.table q ≡ true → s1.mem q ≡ s.mem q

abbrev pub Goes : (At → Probed → Type 0) → Option (At × Probed) → Type 0
Goes P none = ⊥
Goes P (some (p, s)) = P p s

so_far-called_on : (total started j : ℕ) → called_on total started j ≡ so_far total started total j
so_far-called_on total zero j = ground arith
so_far-called_on total (suc k) j = ground arith

so_far-next : (total started j : ℕ) → midway total 0 started j ≡ so_far total started total j
so_far-next total zero j = ground arith
so_far-next total (suc k) j = ground arith

uncons :
    (id : ℕ) (ids : List ℕ) (i n : ℕ)
    → id ∷ ids ≡ ids_from i n
    → (n1 : ℕ) × (n ≡ suc n1) × (id ≡ i) × (ids ≡ ids_from (suc i) n1)
uncons id ids i zero e = absurd (ground (arith, e))
uncons id ids i (suc n1) e = (n1, refl, ground (arith, e), ground (arith, e))

some_round : (started n n1 : ℕ) → ((started ≡ 0) → n ≡ 0) → n ≡ suc n1 → (k : ℕ) × (started ≡ suc k)
some_round zero n n1 first e = absurd (omega (arith, first refl))
some_round (suc k) n n1 first e = (k, refl)

none_left : (i n : ℕ) → [] ≡ ids_from i n → n ≡ 0
none_left i zero e = refl
none_left i (suc n) e = absurd (ground (arith, e))

module _ (K : Kernel) (total cnt : ℕ) (th : Thread) (small : th.tid < cell_mod)
    (apart : StackApart th.sp th.table) (fit : total ≤ 10) (few : cnt ≤ 2147483648) where
  Goes-after_call :
      (P : At → Probed → Type 0) (Q : ℤ → Probed → Type 0) (left : ℕ) (ids : List ℕ) (o : Outcome)
      → Ends Q o
      → ((e : ℤ) (s : Probed) → Q e s → (is_neg e ≡ false) × P (At.calling left ids e) s)
      → Goes P (after_call K i386 true total cnt left ids o)
  Goes-after_call P Q left ids (Outcome.returned e s) q next =
      let (good, p) = next e s q in rw good p
  Goes-after_call P Q left ids (Outcome.exited _) q next = absurd q
  Goes-after_call P Q left ids Outcome.fault q next = absurd q
  Goes-after_call P Q left ids Outcome.oops q next = absurd q

  call_id-Moved :
      (k i n left : ℕ) (error : ℤ) (s : Probed)
      → suc k + left ≡ cnt
      → i + suc n ≡ total
      → SlotsHold th (midway total i k) s.mem
      → Goes (Moved total cnt th (At.calling left (i ∷ ids_from (suc i) n) error) s) (
          after_call K i386 true total cnt left
            (ids_from (suc i) n)
            (call_id K i386 true th.tid th.sp th.table i s))
  call_id-Moved k i n left error s rounds_left size slots =
      Goes-after_call _ _ left (ids_from (suc i) n) (call_id K i386 true th.tid th.sp th.table i s)
        (call_id-Tally K th.tid th.sp th.table small apart i (midway total i k)
          (midway total (suc i) k) 0 s s (omega arith) (ground (arith, size, rounds_left, few))
          (ground (arith, size)) (λ j differ. ground (arith, differ))
          (record { slots = slots; others = λ q out. refl; hits_counted = omega arith }))
        (λ v t (e, y).
          let good : is_neg v ≡ false = ground (arith, e) in
          (
            good,
            record {
              hits = 1;
              stands = record {
                started = suc k;
                i = suc i;
                n = n;
                rounds_left = rounds_left;
                to_call = refl;
                round_size = omega (arith, size);
                no_call_first = λ e1. absurd (omega (arith, e1));
                no_error = good;
                slots = y.slots;
              };
              made = omega arith;
              closer = omega arith;
              counted = y.hits_counted;
              others = y.others;
            },
          ))

  pub advance-Moved :
      (p : At) (s : Probed)
      → Stands total cnt th p s.mem
      → Goes (Moved total cnt th p s) (advance K i386 true total cnt th p s)
  unfolding advance
  advance-Moved At.starting s h =
      let y = with_table-Tally K th.tid th.sp th.table small apart total s in
      record {
        hits = 0;
        stands = record {
          started = 0;
          i = total;
          n = 0;
          rounds_left = omega arith;
          to_call = refl;
          round_size = omega arith;
          no_call_first = λ e. refl;
          no_error = refl;
          slots = λ id lt.
              let none_yet : midway total 0 0 id ≡ 0 = ground arith in
              rw none_yet at (y.slots id lt);
        };
        made = omega arith;
        closer = omega arith;
        counted = omega arith;
        others = y.others;
      }
  advance-Moved (At.calling zero [] error) s h =
      let n_0 = none_left h.i h.n h.to_call in
      let at_end : h.i ≡ total = omega (arith, h.round_size) in
      let all_started : h.started ≡ cnt = omega (arith, h.rounds_left) in
      record {
        hits = 0;
        stands = (
          refl,
          λ id lt. rw (so_far-called_on total cnt id) (rw (at_end, all_started) at (h.slots id lt)),
        );
        made = omega arith;
        closer = omega arith;
        counted = omega arith;
        others = λ q out. refl;
      }
  advance-Moved (At.calling (suc left) [] error) s h =
      let n_0 = none_left h.i h.n h.to_call in
      let at_end : h.i ≡ total = omega (arith, h.round_size) in
      let len = length-ids_from 0 total in
      record {
        hits = 0;
        stands = record {
          started = suc h.started;
          i = 0;
          n = total;
          rounds_left = omega (arith, h.rounds_left);
          to_call = refl;
          round_size = omega arith;
          no_call_first = λ e. absurd (omega arith);
          no_error = h.no_error;
          slots = λ id lt. rw (so_far-next total h.started id) (rw at_end at (h.slots id lt));
        };
        made = grind (arith, len);
        closer = grind (arith, len);
        counted = omega arith;
        others = λ q out. refl;
      }
  advance-Moved (At.calling left (id ∷ ids) error) s h =
      let (n1, n_n1, id_i, rest) = uncons id ids h.i h.n h.to_call in
      let (k, begun) = some_round h.started h.n n1 h.no_call_first n_n1 in
      rw (id_i, rest)
        (call_id-Moved k h.i n1 left error s (rw begun at h.rounds_left) (rw n_n1 at h.round_size)
          (rw begun at h.slots))
  advance-Moved (At.finished v) s h = record {
    hits = 0;
    stands = h;
    made = refl;
    closer = refl;
    counted = omega arith;
    others = λ q out. refl;
  }

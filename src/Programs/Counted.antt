-- ===== src/Programs/Counted.antt =====
-- The threads of the user programs on i386, with a probe on every function that they call.
use uprobe_tests.Base.{
  ℕ, zero, suc, ◌+◌, ◌*◌, ◌≤◌, ◌<◌, ◌≡◌, ◌∙◌, refl, ◌⊎◌, inl, true, false, ltb, if◌then◌else◌,
  arith, ℤ, pos, is_neg,
}
use uprobe_tests.Kernel.{Kernel}
use uprobe_tests.Slot.{Probed}
use uprobe_tests.Slot.Memory.{Mem, i386, cell_mod}
use uprobe_tests.Slot.User.{Outcome, init_slot, build_probe_table}
use uprobe_tests.Slot.Counts.{Ends}
use uprobe_tests.Slot.I386.{init_slot-Counts}
use uprobe_tests.Programs.{
  ids_from, bind, with_table, call_id, round, rounds, thread_1, unreg_thread_1,
}
use uprobe_tests.Programs.Tally.{Held, Held-frame, StackApart, Tally, Tally-cong, call_id-Tally}

-- `bind` in a proof.
pub Ends-bind :
    (P Q : ℤ → Probed → Type 0) (o : Outcome) (f : ℤ → Probed → Outcome)
    → Ends P o
    → ((v : ℤ) (s : Probed) → P v s → Ends Q (f v s))
    → Ends Q (bind o f)
Ends-bind P Q (Outcome.returned v s) f p next = next v s p
Ends-bind P Q (Outcome.exited _) f p next = absurd p
Ends-bind P Q Outcome.fault f p next = absurd p
Ends-bind P Q Outcome.oops f p next = absurd p

pub bind-eq :
    (P : ℤ → Probed → Type 0) (o o' : Outcome) (f : ℤ → Probed → Outcome)
    → Ends P o
    → ((v : ℤ) (s : Probed) → P v s → f v s ≡ o')
    → bind o f ≡ o'
bind-eq P (Outcome.returned v s) o' f p next = next v s p
bind-eq P (Outcome.exited _) o' f p next = absurd p
bind-eq P Outcome.fault o' f p next = absurd p
bind-eq P Outcome.oops o' f p next = absurd p

pub build_probe_table_below :
    (n table : ℕ) (m : Mem) (q : ℕ)
    → (q < table) ⊎ (table + n * 5 ≤ q)
    → build_probe_table i386 n table m q ≡ m q
unfolding build_probe_table
build_probe_table_below zero table m q out = refl
build_probe_table_below (suc n) table m q out =
    build_probe_table_below n (table + 5) (init_slot i386 table m) q (ground (arith, out))
    ∙ ground (arith, out)

pub build_probe_table-Held :
    (K : Kernel) (tid n table : ℕ) (m : Mem) (id : ℕ)
    → id < n
    → Held (table + id * 5) tid 0 (build_probe_table i386 n table m)
unfolding build_probe_table
build_probe_table-Held K tid zero table m id lt = absurd (omega arith)
build_probe_table-Held K tid (suc n) table m zero lt =
    let there : table + 0 * 5 ≡ table = omega arith in
    rw there (
      Held-frame table tid 0 (init_slot i386 table m) _
        (λ q lo hi.
          build_probe_table_below n (table + 5) (init_slot i386 table m) q (inl (omega arith)))
        (init_slot-Counts K 0 table (omega arith) m))
build_probe_table-Held K tid (suc n) table m (suc id) lt =
    let there : table + suc id * 5 ≡ table + 5 + id * 5 = omega arith in
    rw there (build_probe_table-Held K tid n (table + 5) (init_slot i386 table m) id (omega arith))

-- Calls per slot inside round `k` of `total` functions, before the `i`-th of them.
abbrev pub midway : (total i k j : ℕ) → ℕ
midway total i k j = if ltb j i then suc k else if ltb j total then k else 0

-- The calls after `k` full rounds.
abbrev pub after : (total k j : ℕ) → ℕ
after total k = midway total 0 k

-- `cnt` calls of each of the first `total` functions.
abbrev pub called_on : (total cnt j : ℕ) → ℕ
called_on total cnt j = if ltb j total then cnt else 0

module _ (K : Kernel) (tid sp table : ℕ) (small : tid < cell_mod)
    (apart : StackApart sp table) where
  pub with_table-Tally :
      (total : ℕ) (s : Probed)
      → Tally sp table tid (midway total 0 0) 0 s (with_table K i386 true tid sp table s)
  with_table-Tally total s = record {
    slots = λ id lt.
        let none_yet : midway total 0 0 id ≡ 0 = ground arith in
        rw none_yet (build_probe_table-Held K tid 10 table s.mem id lt);
    others = λ q out. build_probe_table_below 10 table s.mem q (ground (arith, out));
    hits_counted = omega arith;
  }

  -- After so many hits, the last result not being negative.
  abbrev pub Fine : (f : ℕ → ℕ) (hits : ℕ) → Probed → ℤ → Probed → Type 0
  Fine f hits b v t = (is_neg v ≡ false) × Tally sp table tid f hits b t

  round-Fine :
      (total n i k hits : ℕ) (error : ℤ) (b s : Probed)
      → i + n ≡ total
      → total ≤ 10
      → k < 2147483648
      → Fine (midway total i k) hits b error s
      → Ends
          (Fine (midway total total k) (hits + n) b)
          (round K i386 true tid sp table (ids_from i n) error s)
  unfolding round
  round-Fine total zero i k hits error b s all fit few (e, y) =
      let i_total : i ≡ total = omega arith in
      let more : hits + 0 ≡ hits = omega arith in rw more (e, rw i_total at y)
  round-Fine total (suc n) i k hits error b s all fit few (e, y) =
      let called =
        call_id-Tally K tid sp table small apart i (midway total i k) (midway total (suc i) k) hits
          b s (omega arith) (ground (arith, few, all)) (ground (arith, all))
          (λ j differ. ground (arith, differ)) y in
      Ends-bind _ _ (call_id K i386 true tid sp table i s) _ called (λ v t (e1, y1).
        let same : hits + 1 + n ≡ hits + suc n = omega arith in
        let good : is_neg v ≡ false = ground (arith, e1) in
        rw good (
          rw same at
            (round-Fine total n (suc i) k (hits + 1) v b t (omega arith) fit few (good, y1))))

  pub rounds-Fine :
      (total cnt k hits : ℕ) (error : ℤ) (b s : Probed)
      → total ≤ 10
      → k + cnt ≤ 2147483648
      → Fine (after total k) hits b error s
      → Ends
          (Fine (after total (k + cnt)) (hits + cnt * total) b)
          (rounds K i386 true tid sp table cnt (ids_from 0 total) error s)
  unfolding rounds
  rounds-Fine total zero k hits error b s fit few h =
      let more : hits + 0 * total ≡ hits = omega arith in
      let same : k + 0 ≡ k = omega arith in rw (more, same) h
  rounds-Fine total (suc cnt) k hits error b s fit few h =
      Ends-bind _ _ (round K i386 true tid sp table (ids_from 0 total) error s) _
        (round-Fine total total 0 k hits error b s (omega arith) fit (omega arith) h)
        (λ v t (good, y).
          let sum : hits + suc cnt * total ≡ hits + total + cnt * total = grind arith in
          let rounds_so_far : k + suc cnt ≡ suc k + cnt = omega arith in
          let y1 =
            Tally-cong sp table tid (midway total total k) (after total (suc k)) (hits + total) b t
              (λ j. ground arith) y in
          let rest =
            rounds-Fine total cnt (suc k) (hits + total) v b t fit (rw rounds_so_far at few)
              (good, y1) in
          rw (good, sum, rounds_so_far) rest)

  called_on_lem : (total cnt j : ℕ) → called_on total cnt j ≡ after total cnt j
  called_on_lem total cnt j = ground arith

  -- On i386, with a probe on each of the first `total` functions, `thread_1` returns 0: the user code
  -- and the kernel count the same. Its slots then hold `cnt` calls each, the hits counted in the
  -- module are `cnt * total`, and no memory of others has changed. There are at most 2 ^ 31 rounds, the
  -- thread id has 32 bits, and the stack is outside the table.
  pub thread_1-passes :
      (total cnt : ℕ) (s : Probed)
      → total ≤ 10
      → cnt ≤ 2147483648
      → Ends
          (λ v t. (v ≡ pos 0) × Tally sp table tid (called_on total cnt) (cnt * total) s t)
          (thread_1 K i386 true tid sp table (ids_from 0 total) cnt s)
  unfolding thread_1
  thread_1-passes total cnt s fit few =
      Ends-bind _ _ (rounds K i386 true tid sp table cnt (ids_from 0 total) (pos 0) _) _
        (rounds-Fine total cnt 0 0 (pos 0) s (with_table K i386 true tid sp table s) fit
          (omega arith) (refl, with_table-Tally total s))
        (λ v t (good, y).
          let start : 0 + cnt * total ≡ cnt * total = omega arith in
          let start_k : 0 + cnt ≡ cnt = omega arith in
          rw good (
            refl,
            Tally-cong sp table tid _ (called_on total cnt) (cnt * total) s t
                (called_on_lem total cnt) (rw (start, start_k) at y),
          ))

  -- On i386, with a probe on each of the ten functions, the first thread of unreg.c returns 0, with one
  -- call in each slot and ten hits counted in the module; no memory of others has changed. The thread id
  -- has 32 bits, and the stack is outside the table.
  pub unreg_thread_1-passes :
      (s : Probed)
      → Ends
          (λ v t. (v ≡ pos 0) × Tally sp table tid (called_on 10 1) 10 s t)
          (unreg_thread_1 K i386 true tid sp table s)
  unfolding unreg_thread_1
  unreg_thread_1-passes s =
      Ends-bind _ _ (round K i386 true tid sp table (ids_from 0 10) (pos 0) _) _
        (round-Fine 10 10 0 0 0 (pos 0) s (with_table K i386 true tid sp table s) refl (omega arith)
          (omega arith) (refl, with_table-Tally 10 s))
        (λ v t (good, y).
          rw good (refl, Tally-cong sp table tid _ (called_on 10 1) 10 s t (λ j. ground arith) y))

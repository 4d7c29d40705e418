-- ===== src/Programs/Wide.antt =====
-- `thread_1` of the user programs on x86_64, with a probe on every function that it calls.
use uprobe_tests.Base.{
  ℕ, zero, suc, ◌+◌, ◌*◌, ◌≤◌, ◌<◌, min, ◌≡◌, ◌≢◌, ◌∙◌, refl, ◌⊎◌, inl, inr, true, false, ◌==◌, not,
  ltb, if◌then◌else◌, Bool-cases, arith, ℤ, pos, negsuc, is_neg,
}
use uprobe_tests.Kernel.{Kernel}
use uprobe_tests.Slot.{Probed}
use uprobe_tests.Slot.Memory.{Mem, x86_64, cell_mod}
use uprobe_tests.Slot.User.{probe, init_slot, build_probe_table}
use uprobe_tests.Slot.Counts.{Ends, Ends-mono}
use uprobe_tests.Slot.Frame.{Ends-Leaves}
use uprobe_tests.Slot.X86_64.{
  Cells, last, Stuck, call_probe_first, call_probe_later, probe_Stuck, init_slot-Cells,
}
use uprobe_tests.Slot.Wide.{outside, Keeps, probe-Keeps}
use uprobe_tests.Programs.{ids_from, with_table, call_id, round, rounds, thread_1}
use uprobe_tests.Programs.Counted.{Ends-bind, midway, after}

-- The slot after `calls` calls.
abbrev Held : (slot tid calls : ℕ) → Mem → Type 0
Held slot tid zero m = Cells slot 0 last last last last m
Held slot tid (suc k) m = Cells slot tid (min k 1) 0 k 0 m

Cells-frame :
    {slot utid ulo uhi klo khi : ℕ} {m m' : Mem}
    → ((q : ℕ) → slot ≤ q → q ≤ slot + 5 → m' q ≡ m q)
    → Cells slot utid ulo uhi klo khi m
    → Cells slot utid ulo uhi klo khi m'
Cells-frame {slot} same c = record {
  ktid = c.ktid;
  cell_utid = same slot (omega arith) (omega arith) ∙ c.cell_utid;
  cell_ktid = same (slot + 1) (omega arith) (omega arith) ∙ c.cell_ktid;
  cell_ulo = same (slot + 2) (omega arith) (omega arith) ∙ c.cell_ulo;
  cell_uhi = same (slot + 3) (omega arith) (omega arith) ∙ c.cell_uhi;
  cell_klo = same (slot + 4) (omega arith) (omega arith) ∙ c.cell_klo;
  cell_khi = same (slot + 5) (omega arith) (omega arith) ∙ c.cell_khi;
}

Held-frame :
    (slot tid calls : ℕ) (m m' : Mem)
    → ((q : ℕ) → slot ≤ q → q ≤ slot + 5 → m' q ≡ m q)
    → Held slot tid calls m
    → Held slot tid calls m'
Held-frame slot tid zero m m' same h = Cells-frame same h
Held-frame slot tid (suc k) m m' same h = Cells-frame same h

-- What the call after `calls` others returns.
abbrev answer : ℕ → ℤ
answer calls = if ltb calls 2 then pos calls else negsuc 1

module _ (K : Kernel) (tid sp table : ℕ) (small : tid < cell_mod) where
  probe-Held :
      (slot calls : ℕ) (s : Probed)
      → calls < last
      → Held slot tid calls s.mem
      → Ends
          (λ v t. (v ≡ answer calls) × Held slot tid (suc calls) t.mem × Keeps slot s.mem t.mem)
          (probe K x86_64 true tid sp slot s)
  probe-Held slot calls s lt h =
      Ends-mono _ _ (probe K x86_64 true tid sp slot s)
        (Ends-Leaves _ _ (probe K x86_64 true tid sp slot s) (counted calls lt h)
          (probe-Keeps K tid sp slot small s))
        (λ v t ((e, c), k). (e, c, k))
    where
      counted :
          (calls : ℕ)
          → calls < last
          → Held slot tid calls s.mem
          → Ends
              (λ v t. (v ≡ answer calls) × Held slot tid (suc calls) t.mem)
              (probe K x86_64 true tid sp slot s)
      counted zero lt h =
          probe_Stuck K tid slot small sp (Stuck K tid slot small 0) s 0 last last last last
            (inl refl) h (λ t c. call_probe_first K tid slot small sp t c)
      counted (suc k) lt h =
          probe_Stuck K tid slot small sp (Stuck K tid slot small (suc k)) s tid (min k 1) 0 k 0
            (inr refl) h (λ t c. call_probe_later K tid slot small sp t k lt c)

  -- The slots of the table, with `f` calls each.
  Slots : (f : ℕ → ℕ) → Mem → Type 0
  Slots f m = (id : ℕ) → id < 10 → Held (table + id * 8) tid (f id) m

  slot_outside :
      (id j q : ℕ)
      → (j < id) ⊎ (id < j)
      → table + j * 8 ≤ q
      → q ≤ table + j * 8 + 5
      → outside (table + id * 8) q ≡ true
  slot_outside id j q order lo hi = elim order [
    | inl below ↦ let under : ltb q (table + id * 8) ≡ true = ground arith in rw under refl
    | inr above ↦
        let under : ltb q (table + id * 8) ≡ false = ground arith in
        let over : ltb (table + id * 8 + 5) q ≡ true = ground arith in rw (under, over) refl
  ]

  call_id-Slots :
      (id : ℕ) (f g : ℕ → ℕ) (s : Probed)
      → id < 10
      → f id < last
      → g id ≡ suc (f id)
      → ((j : ℕ) → j ≢ id → g j ≡ f j)
      → Slots f s.mem
      → Ends (λ v t. (v ≡ answer (f id)) × Slots g t.mem) (call_id K x86_64 true tid sp table id s)
  unfolding Slots
  call_id-Slots id f g s lt few here there y =
      Ends-mono _ _ (call_id K x86_64 true tid sp table id s)
        (probe-Held (table + id * 8) (f id) s few (y id lt))
        (λ v t (e, h, k). (e, λ j j_lt. slot_of t h k j j_lt))
    where
      slot_of :
          (t : Probed)
          → Held (table + id * 8) tid (suc (f id)) t.mem
          → Keeps (table + id * 8) s.mem t.mem
          → (j : ℕ) → j < 10
          → Held (table + j * 8) tid (g j) t.mem
      slot_of t h k j j_lt = elim (Bool-cases (j == id)) [
        | inl same ↦ let j_id : j ≡ id = ground (arith, same) in rw (j_id, here) h
        | inr differ ↦ rw (there j (ground (arith, differ))) (
            Held-frame (table + j * 8) tid (f j) s.mem t.mem
              (λ q lo hi. k q (slot_outside id j q (ground (arith, differ)) lo hi)) (y j j_lt))
      ]

  Slots-cong : (f g : ℕ → ℕ) (m : Mem) → ((j : ℕ) → g j ≡ f j) → Slots f m → Slots g m
  unfolding Slots
  Slots-cong f g m same y = λ id lt. rw (same id) (y id lt)

  -- The first two rounds: the calls of round `k` answer `k`.
  round-Slots :
      (n i k : ℕ) (error : ℤ) (s : Probed)
      → i + n ≡ 10
      → k < 2
      → is_neg error ≡ false
      → Slots (midway 10 i k) s.mem
      → Ends
          (λ v t. (is_neg v ≡ false) × Slots (midway 10 10 k) t.mem)
          (round K x86_64 true tid sp table (ids_from i n) error s)
  unfolding round
  round-Slots zero i k error s all few good y =
      let i_total : i ≡ 10 = omega arith in (good, rw i_total at y)
  round-Slots (suc n) i k error s all few good y =
      Ends-bind _ _ (call_id K x86_64 true tid sp table i s) _
        (call_id-Slots i (midway 10 i k) (midway 10 (suc i) k) s (omega arith)
          (ground (arith, few, all)) (ground (arith, all)) (λ j differ. ground (arith, differ)) y)
        (λ v t (e, y1).
          let fine : is_neg v ≡ false = rw e (ground (arith, few, all)) in
          rw fine (round-Slots n (suc i) k v t (omega arith) few fine y1))

  -- The third: its first call answers -2.
  round_fails :
      (error : ℤ) (s : Probed)
      → Slots (midway 10 0 2) s.mem
      → Ends (λ v t. v ≡ negsuc 1) (round K x86_64 true tid sp table (ids_from 0 10) error s)
  unfolding round
  round_fails error s y =
      Ends-bind _ _ (call_id K x86_64 true tid sp table 0 s) _
        (call_id-Slots 0 (midway 10 0 2) (midway 10 1 2) s (omega arith) (omega arith) (omega arith)
          (λ j differ. ground (arith, differ)) y)
        (λ v t (e, y1). rw e refl)

  -- After `total` rounds.
  abbrev Verdict : (total : ℕ) → ℤ → Type 0
  Verdict total v = v ≡ (if ltb total 3 then v else negsuc 1) × (is_neg v ≡ not (ltb total 3))

  rounds-Verdict :
      (cnt k : ℕ) (error : ℤ) (s : Probed)
      → k ≤ 2
      → is_neg error ≡ false
      → Slots (after 10 k) s.mem
      → Ends
          (λ v t. Verdict (k + cnt) v)
          (rounds K x86_64 true tid sp table cnt (ids_from 0 10) error s)
  unfolding rounds
  rounds-Verdict zero k error s few good y =
      let early : ltb (k + 0) 3 ≡ true = ground (arith, few) in rw early (refl, good)
  rounds-Verdict (suc cnt) k error s few good y = elim (Bool-cases (k == 2)) [
    | inl third ↦
        let k_2 : k ≡ 2 = ground (arith, third) in
        let late : ltb (k + suc cnt) 3 ≡ false = ground (arith, k_2) in
        Ends-bind _ _ (round K x86_64 true tid sp table (ids_from 0 10) error s) _
          (round_fails error s (rw k_2 at y)) (λ v t e. rw (e, late) (refl, refl))
    | inr early ↦
        let next : k + suc cnt ≡ suc k + cnt = omega arith in
        Ends-bind _ _ (round K x86_64 true tid sp table (ids_from 0 10) error s) _
          (round-Slots 10 0 k error s refl (ground (arith, early, few)) good y)
          (λ v t (fine, y1).
            rw (fine, next)
              (rounds-Verdict cnt (suc k) v t (ground (arith, early, few)) fine
                (Slots-cong (midway 10 10 k) (after 10 (suc k)) t.mem (λ j. ground arith) y1)))
  ]

  build_probe_table_below :
      (n base : ℕ) (m : Mem) (q : ℕ) → q < base → build_probe_table x86_64 n base m q ≡ m q
  unfolding build_probe_table init_slot
  build_probe_table_below zero base m q out = refl
  build_probe_table_below (suc n) base m q out =
      build_probe_table_below n (base + 8) (init_slot x86_64 base m) q (omega arith)
      ∙ ground (arith, out)

  build_probe_table-Held :
      (n base : ℕ) (m : Mem) (id : ℕ)
      → id < n
      → Held (base + id * 8) tid 0 (build_probe_table x86_64 n base m)
  unfolding build_probe_table
  build_probe_table-Held zero base m id lt = absurd (omega arith)
  build_probe_table-Held (suc n) base m zero lt =
      let there : base + 0 * 8 ≡ base = omega arith in
      rw there (
        Held-frame base tid 0 (init_slot x86_64 base m) _
          (λ q lo hi.
            build_probe_table_below n (base + 8) (init_slot x86_64 base m) q (omega arith))
          (init_slot-Cells K tid base small m))
  build_probe_table-Held (suc n) base m (suc id) lt =
      let there : base + suc id * 8 ≡ base + 8 + id * 8 = omega arith in
      rw there (build_probe_table-Held n (base + 8) (init_slot x86_64 base m) id (omega arith))

  with_table-Slots : (s : Probed) → Slots (after 10 0) (with_table K x86_64 true tid sp table s).mem
  unfolding Slots
  with_table-Slots s = λ id lt.
      let none_yet : after 10 0 id ≡ 0 = ground arith in
      rw none_yet (build_probe_table-Held 10 table s.mem id lt)

  -- On x86_64, with a probe on each of the ten functions and a thread id of 32 bits, `thread_1` returns 0
  -- for up to two rounds, and -2, a failure, for three or more.
  pub thread_1-fails :
      (cnt : ℕ) (s : Probed)
      → Ends
          (λ v t. v ≡ (if ltb cnt 3 then pos 0 else negsuc 1))
          (thread_1 K x86_64 true tid sp table (ids_from 0 10) cnt s)
  unfolding thread_1
  thread_1-fails cnt s =
      Ends-bind _ _ (rounds K x86_64 true tid sp table cnt (ids_from 0 10) (pos 0) _) _
        (rounds-Verdict cnt 0 (pos 0) (with_table K x86_64 true tid sp table s) (omega arith) refl
          (with_table-Slots s))
        (λ v t h.
          let start : 0 + cnt ≡ cnt = omega arith in
          let h' : Verdict cnt v = rw start at h in
          elim (Bool-cases (ltb cnt 3)) [
            | inl few ↦ let fine : is_neg v ≡ false = h'.1 ∙ rw few refl in rw (fine, few) refl
            | inr many ↦ let failed : v ≡ negsuc 1 = (rw many at h').0 in rw (failed, many) refl
          ])

-- ===== src/Programs/Tally.antt =====
-- What the table of a thread holds on i386, between its calls of the probe functions.
use uprobe_tests.Base.{
  ℕ, zero, suc, ◌+◌, ◌*◌, ◌%◌, ◌≤◌, ◌<◌, ◌≡◌, ◌≢◌, ◌∙◌, not, ◌&&◌, ◌||◌, ◌⊎◌, inl, inr, refl, Bool,
  true, false, ◌==◌, ltb, Bool-cases, arith, ℤ, pos,
}
use uprobe_tests.Kernel.{Kernel}
use uprobe_tests.Slot.{Probed}
use uprobe_tests.Slot.Memory.{Mem, i386, cell_mod, ulong_max}
use uprobe_tests.Slot.User.{probe}
use uprobe_tests.Slot.Counts.{Counts, Ends, Ends-mono}
use uprobe_tests.Slot.I386.{probe-Agree}
use uprobe_tests.Slot.Frame.{outside, Kept, Ends-Leaves, probe-Leaves}
use uprobe_tests.Programs.{call_id}

-- The slot after `calls` calls that the kernel counted.
abbrev pub Held : (slot tid calls : ℕ) → Mem → Type 0
Held slot tid zero m = Counts i386 slot 0 (ulong_max i386) (ulong_max i386) m
Held slot tid (suc k) m = Counts i386 slot tid k k m

Counts-frame :
    (slot utid ucount kcount : ℕ) (m m' : Mem)
    → ((q : ℕ) → slot ≤ q → q ≤ slot + 3 → m' q ≡ m q)
    → Counts i386 slot utid ucount kcount m
    → Counts i386 slot utid ucount kcount m'
Counts-frame slot utid ucount kcount m m' same c = record {
  ktid = c.ktid;
  holds_utid = same slot (omega arith) (omega arith) ∙ c.holds_utid;
  holds_ktid = same (slot + 1) (omega arith) (omega arith) ∙ c.holds_ktid;
  holds_ucount = same (slot + 2) (omega arith) (omega arith) ∙ c.holds_ucount;
  holds_kcount = same (slot + 3) (omega arith) (omega arith) ∙ c.holds_kcount;
}

pub Held-frame :
    (slot tid calls : ℕ) (m m' : Mem)
    → ((q : ℕ) → slot ≤ q → q ≤ slot + 3 → m' q ≡ m q)
    → Held slot tid calls m
    → Held slot tid calls m'
Held-frame slot tid zero m m' same h = Counts-frame slot 0 _ _ m m' same h
Held-frame slot tid (suc k) m m' same h = Counts-frame slot tid k k m m' same h

-- One call on a slot that has seen fewer than 2 ^ 31 of them.
abbrev CallEnd : (sp slot tid calls : ℕ) → Probed → ℤ → Probed → Type 0
CallEnd sp slot tid calls s v t =
    (v ≡ pos calls) × Held slot tid (suc calls) t.mem × Kept sp slot 1 s t

probe-Held :
    (K : Kernel) (tid sp slot : ℕ)
    → tid < cell_mod
    → (sp + 1 < slot) ⊎ (slot + 3 < sp + 1)
    → (calls : ℕ) (s : Probed) → calls < 2147483648
    → Held slot tid calls s.mem
    → Ends (CallEnd sp slot tid calls s) (probe K i386 true tid sp slot s)
probe-Held K tid sp slot small apart calls s lt h =
    Ends-mono _ _ (probe K i386 true tid sp slot s)
      (Ends-Leaves _ _ (probe K i386 true tid sp slot s) (agree calls lt h)
        (probe-Leaves sp slot s K true tid small))
      (λ v t ((e, c), k). (e, c, k))
  where
    agree :
        (calls : ℕ)
        → calls < 2147483648
        → Held slot tid calls s.mem
        → Ends
            (λ v t. (v ≡ pos calls) × Counts i386 slot tid calls calls t.mem)
            (probe K i386 true tid sp slot s)
    agree zero lt h =
        probe-Agree K tid slot small sp s 0 4294967295 apart (omega arith) (inl refl) h
    agree (suc k) lt h =
        let next : (k + 1) % 4294967296 ≡ suc k = omega arith in
        Ends-mono _ _ (probe K i386 true tid sp slot s)
          (probe-Agree K tid slot small sp s tid k apart (omega arith) (inr refl) h)
          (λ v t (e, c). (e ∙ ground (arith, next), rw next at c))

-- The argument is pushed outside the table.
abbrev pub StackApart : (sp table : ℕ) → Type 0
StackApart sp table = (sp + 1 < table) ⊎ (table + 50 ≤ sp + 1)

-- A cell that is neither in the table nor where the argument is pushed.
abbrev pub elsewhere : (sp table q : ℕ) → Bool
elsewhere sp table q = not (q == sp + 1) && (ltb q table || ltb (table + 49) q)

-- The slots of the table, the other cells, and the hits counted, since `b`. `f` gives the calls per slot.
pub record Tally (sp table tid : ℕ) (f : ℕ → ℕ) (hits : ℕ) (b s : Probed) : Type 0 where
  pub slots : (id : ℕ) → id < 10 → Held (table + id * 5) tid (f id) s.mem
  pub others : (q : ℕ) → elsewhere sp table q ≡ true → s.mem q ≡ b.mem q
  pub hits_counted : s.world.num_probes % cell_mod ≡ (b.world.num_probes + hits) % cell_mod

pub Tally-cong :
    (sp table tid : ℕ) (f g : ℕ → ℕ) (hits : ℕ) (b s : Probed)
    → ((j : ℕ) → g j ≡ f j)
    → Tally sp table tid f hits b s
    → Tally sp table tid g hits b s
Tally-cong sp table tid f g hits b s same y = record {
  slots = λ id lt. rw (same id) (y.slots id lt);
  others = y.others;
  hits_counted = y.hits_counted;
}

module _ (K : Kernel) (tid sp table : ℕ) (small : tid < cell_mod)
    (apart : StackApart sp table) where
  pub apart_slot : (id : ℕ) → id < 10 → (sp + 1 < table + id * 5) ⊎ (table + id * 5 + 3 < sp + 1)
  apart_slot id lt = elim apart [ inl below ↦ inl (omega arith) | inr above ↦ inr (omega arith) ]

  pub slot_outside :
      (id j q : ℕ)
      → id < 10
      → j < 10
      → (j < id) ⊎ (id < j)
      → table + j * 5 ≤ q
      → q ≤ table + j * 5 + 3
      → outside sp (table + id * 5) q ≡ true
  slot_outside id j q lt j_lt order lo hi =
      let pushed : (q == sp + 1) ≡ false = ground (arith, apart, lo, hi, j_lt) in
      elim order [
        | inl below ↦
            let under : ltb q (table + id * 5) ≡ true = ground arith in rw (pushed, under) refl
        | inr above ↦
            let under : ltb q (table + id * 5) ≡ false = ground arith in
            let over : ltb (table + id * 5 + 3) q ≡ true = ground arith in
            rw (pushed, under, over) refl
      ]

  pub call_id-Tally :
      (id : ℕ) (f g : ℕ → ℕ) (hits : ℕ) (b s : Probed)
      → id < 10
      → f id < 2147483648
      → g id ≡ suc (f id)
      → ((j : ℕ) → j ≢ id → g j ≡ f j)
      → Tally sp table tid f hits b s
      → Ends
          (λ v t. (v ≡ pos (f id)) × Tally sp table tid g (hits + 1) b t)
          (call_id K i386 true tid sp table id s)
  call_id-Tally id f g hits b s lt few here there y =
      Ends-mono _ _ (call_id K i386 true tid sp table id s)
        (probe-Held K tid sp (table + id * 5) small (apart_slot id lt) (f id) s few (y.slots id lt))
        (λ v t (e, h, k). (
          e,
          record {
            slots = λ j j_lt. slot_of t h k j j_lt;
            others = λ q out. k.cells q (ground (arith, out)) ∙ y.others q out;
            hits_counted = ground (arith, k.hits_counted, y.hits_counted);
          },
        ))
    where
      slot_of :
          (t : Probed)
          → Held (table + id * 5) tid (suc (f id)) t.mem
          → Kept sp (table + id * 5) 1 s t
          → (j : ℕ) → j < 10
          → Held (table + j * 5) tid (g j) t.mem
      slot_of t h k j j_lt = elim (Bool-cases (j == id)) [
        | inl same ↦ let j_id : j ≡ id = ground (arith, same) in rw (j_id, here) h
        | inr differ ↦ rw (there j (ground (arith, differ))) (
            Held-frame (table + j * 5) tid (f j) s.mem t.mem
              (λ q lo hi. k.cells q (slot_outside id j q lt j_lt (ground (arith, differ)) lo hi))
              (y.slots j j_lt))
      ]

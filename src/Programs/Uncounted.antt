-- ===== src/Programs/Uncounted.antt =====
-- The threads of the user programs on i386 that call functions without a probe.
use uprobe_tests.Base.{
  ℕ, zero, suc, ◌+◌, ◌*◌, ◌%◌, ◌≤◌, ◌<◌, ◌≡◌, ◌∙◌, refl, inl, inr, true, false, ◌==◌, Bool-cases,
  arith, ℤ, pos, minus_one,
}
use uprobe_tests.Kernel.{Kernel}
use uprobe_tests.Slot.{Probed}
use uprobe_tests.Slot.Memory.{Mem, i386, cell_mod, ulong_max}
use uprobe_tests.Slot.User.{Outcome}
use uprobe_tests.Slot.Counts.{Ends, Ends-mono}
use uprobe_tests.Slot.Uncounted.{Idle, probe-Idle}
use uprobe_tests.Slot.Frame.{Kept, Ends-Leaves, probe-Leaves}
use uprobe_tests.Programs.{ids_from, with_table, call_id, all_uncounted, unreg_thread_2, child_loop}
use uprobe_tests.Programs.Tally.{Held, StackApart, elsewhere, apart_slot, slot_outside}
use uprobe_tests.Programs.Counted.{
  Ends-bind, bind-eq, build_probe_table_below, build_probe_table-Held,
}

Held-Idle : (slot tid : ℕ) (m : Mem) → Held slot tid 0 m → Idle tid slot m
Held-Idle slot tid m c = record {
  utid = 0;
  ucount = ulong_max i386;
  whose = inl refl;
  holds_utid = c.holds_utid;
  holds_ucount = c.holds_ucount;
  holds_kcount = c.holds_kcount;
}

Idle-frame :
    (slot tid : ℕ) (m m' : Mem)
    → ((q : ℕ) → slot ≤ q → q ≤ slot + 3 → m' q ≡ m q)
    → Idle tid slot m
    → Idle tid slot m'
Idle-frame slot tid m m' same c = record {
  utid = c.utid;
  ucount = c.ucount;
  whose = c.whose;
  holds_utid = same slot (omega arith) (omega arith) ∙ c.holds_utid;
  holds_ucount = same (slot + 2) (omega arith) (omega arith) ∙ c.holds_ucount;
  holds_kcount = same (slot + 3) (omega arith) (omega arith) ∙ c.holds_kcount;
}

-- No slot of the table counts, and nothing else has changed since `b`.
pub record Quiet (sp table tid : ℕ) (b s : Probed) : Type 0 where
  pub slots : (id : ℕ) → id < 10 → Idle tid (table + id * 5) s.mem
  pub others : (q : ℕ) → elsewhere sp table q ≡ true → s.mem q ≡ b.mem q
  pub no_hit : s.world.num_probes % cell_mod ≡ b.world.num_probes % cell_mod

module _ (K : Kernel) (tid sp table : ℕ) (small : tid < cell_mod)
    (apart : StackApart sp table) where
  pub with_table-Quiet :
      (s : Probed) → Quiet sp table tid s (with_table K i386 false tid sp table s)
  with_table-Quiet s = record {
    slots = λ id lt.
        Held-Idle (table + id * 5) tid _ (build_probe_table-Held K tid 10 table s.mem id lt);
    others = λ q out. build_probe_table_below 10 table s.mem q (ground (arith, out));
    no_hit = refl;
  }

  abbrev pub QuietEnd : Probed → ℤ → Probed → Type 0
  QuietEnd b v t = (v ≡ minus_one) × Quiet sp table tid b t

  pub call_id-Quiet :
      (id : ℕ) (b s : Probed)
      → id < 10
      → Quiet sp table tid b s
      → Ends (QuietEnd b) (call_id K i386 false tid sp table id s)
  call_id-Quiet id b s lt y =
      Ends-mono _ _ (call_id K i386 false tid sp table id s)
        (Ends-Leaves _ _ (call_id K i386 false tid sp table id s)
          (probe-Idle tid (table + id * 5) K sp s (apart_slot K tid sp table small apart id lt)
            (y.slots id lt))
          (probe-Leaves sp (table + id * 5) s K false tid small))
        (λ v t ((e, c), k). (
          e,
          record {
            slots = λ j j_lt. slot_of t c k j j_lt;
            others = λ q out. k.cells q (ground (arith, out)) ∙ y.others q out;
            no_hit = ground (arith, k.hits_counted, y.no_hit);
          },
        ))
    where
      slot_of :
          (t : Probed)
          → Idle tid (table + id * 5) t.mem
          → Kept sp (table + id * 5) 0 s t
          → (j : ℕ) → j < 10
          → Idle tid (table + j * 5) t.mem
      slot_of t c k j j_lt = elim (Bool-cases (j == id)) [
        | inl same ↦ let j_id : j ≡ id = ground (arith, same) in rw j_id c
        | inr differ ↦
            Idle-frame (table + j * 5) tid s.mem t.mem
              (λ q lo hi. k.cells q (
                slot_outside K tid sp table small apart id j q lt j_lt (ground (arith, differ)) lo
                  hi))
              (y.slots j j_lt)
      ]

  all_uncounted-Quiet :
      (n i : ℕ) (b s : Probed)
      → i + n ≤ 10
      → Quiet sp table tid b s
      → Ends
          (λ v t. (v ≡ pos 0) × Quiet sp table tid b t)
          (all_uncounted K i386 false tid sp table (ids_from i n) s)
  unfolding all_uncounted
  all_uncounted-Quiet zero i b s fit y = (refl, y)
  all_uncounted-Quiet (suc n) i b s fit y =
      Ends-bind (QuietEnd b) _ (call_id K i386 false tid sp table i s) _
        (call_id-Quiet i b s (omega arith) y)
        (λ v t (e, y1). rw e (all_uncounted-Quiet n (suc i) b t (omega arith) y1))

  -- On i386, with no probe registered, the second thread of unreg.c returns 0: each of its ten calls
  -- gives -1. No slot counts, no hit is counted in the module, and no memory of others has changed. The
  -- thread id has 32 bits, and the stack is outside the table.
  pub unreg_thread_2-passes :
      (s : Probed)
      → Ends
          (λ v t. (v ≡ pos 0) × Quiet sp table tid s t)
          (unreg_thread_2 K i386 false tid sp table s)
  unfolding unreg_thread_2
  unreg_thread_2-passes s = all_uncounted-Quiet 10 0 s _ (omega arith) (with_table-Quiet s)

  pub child_loop-Quiet :
      (n : ℕ) (b s : Probed)
      → Quiet sp table tid b s
      → child_loop K i386 false tid sp table n s ≡ Outcome.exited 0
  unfolding child_loop
  child_loop-Quiet zero b s y = refl
  child_loop-Quiet (suc n) b s y =
      bind-eq (QuietEnd b) (call_id K i386 false tid sp table 0 s) _ _
        (call_id-Quiet 0 b s (omega arith) y) (λ v t (e, y1). rw e (child_loop-Quiet n b t y1))

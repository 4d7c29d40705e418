-- ===== src/Slot/Frame.antt =====
-- What a call of a probe function leaves alone on i386, and that it is counted in `num_probes`.
use uprobe_tests.Base.{
  ℕ, ◌+◌, ◌*◌, ◌%◌, ◌<◌, ◌≡◌, refl, Bool, true, false, not, ◌&&◌, ◌||◌, Option, none, some, ltb,
  arith, ◌==◌, Bool-cases, Option-cases, inl, inr, if◌then◌else◌, ℤ,
}
use uprobe_tests.Kernel.{Kernel}
use uprobe_tests.Slot.{Probed, handle_slot}
use uprobe_tests.Slot.Memory.{i386, cell_mod, store, get_ulong}
use uprobe_tests.Slot.User.{
  Outcome, with_kcount, with_ucount, probe_body, call_probe, with_utid, probe,
}
use uprobe_tests.Slot.Counts.{Ends}
use uprobe_tests.Slot.I386.{breakpoint_lem}

-- A cell that is neither in the slot nor where the argument is pushed.
abbrev pub outside : (sp slot q : ℕ) → Bool
outside sp slot q = not (q == sp + 1) && (ltb q slot || ltb (slot + 3) q)

-- From `s` to `t` only the slot and the argument have changed, and `hits` have been counted.
pub record Kept (sp slot hits : ℕ) (s t : Probed) : Type 0 where
  pub cells : (q : ℕ) → outside sp slot q ≡ true → t.mem q ≡ s.mem q
  pub hits_counted : t.world.num_probes % cell_mod ≡ (s.world.num_probes + hits) % cell_mod

-- If the call returns.
abbrev pub Leaves : (Probed → Type 0) → Outcome → Type 0
Leaves P (Outcome.returned v t) = P t
Leaves P (Outcome.exited _) = Unit
Leaves P Outcome.fault = Unit
Leaves P Outcome.oops = Unit

pub Ends-Leaves :
    (P : ℤ → Probed → Type 0) (Q : Probed → Type 0) (o : Outcome)
    → Ends P o
    → Leaves Q o
    → Ends (λ v t. P v t × Q t) o
Ends-Leaves P Q (Outcome.returned v t) p q = (p, q)
Ends-Leaves P Q (Outcome.exited _) p q = p
Ends-Leaves P Q Outcome.fault p q = p
Ends-Leaves P Q Outcome.oops p q = p

module _ (sp slot : ℕ) (b : Probed) where
  with_kcount-Leaves :
      (ucount hits : ℕ) (o : Option ℕ) (s : Probed)
      → Kept sp slot hits b s
      → Leaves (Kept sp slot hits b) (with_kcount i386 ucount o s)
  with_kcount-Leaves ucount hits none s k = tt
  with_kcount-Leaves ucount hits (some _) s k = k

  with_ucount-Leaves :
      (hits : ℕ) (o : Option ℕ) (s : Probed)
      → Kept sp slot hits b s
      → Leaves (Kept sp slot hits b) (with_ucount i386 slot o s)
  with_ucount-Leaves hits none s k = tt
  with_ucount-Leaves hits (some old) s k = elim (Option-cases (s.mem (slot + 2))) [
    | inl e ↦ rw e tt
    | inr (v, e) ↦ rw e (
        with_kcount-Leaves _ hits _ _ (record {
          cells = λ q out. ground (arith, out, k.cells q out);
          hits_counted = k.hits_counted;
        }))
  ]

  probe_body-Leaves :
      (hits : ℕ) (s : Probed)
      → Kept sp slot hits b s
      → Leaves (Kept sp slot hits b) (probe_body i386 slot s)
  unfolding probe_body
  probe_body-Leaves hits s k = with_ucount-Leaves hits (get_ulong i386 s.mem (slot + 2)) s k

  handle_slot-Kept :
      (K : Kernel) (tid : ℕ) (s : Probed)
      → Kept sp slot 0 b s
      → Kept sp slot 1 b (handle_slot K i386 tid slot s)
  unfolding handle_slot
  handle_slot-Kept K tid s k = record {
    cells = λ q out. ground (arith, out, k.cells q out);
    hits_counted = ground (arith, k.hits_counted);
  }

  abbrev hits_of : Bool → ℕ
  hits_of registered = if registered then 1 else 0

  call_probe-Leaves :
      (K : Kernel) (registered : Bool) (tid : ℕ) (small : tid < cell_mod) (s : Probed)
      → Kept sp slot 0 b s
      → Leaves (Kept sp slot (hits_of registered) b) (call_probe K i386 registered tid sp slot s)
  unfolding call_probe
  call_probe-Leaves K registered tid small s k = go registered
    where
      pushed : Probed
      pushed = record s { mem = store s.mem (sp + 1) (4 * slot) }

      there : pushed.mem (sp + 1) ≡ some (4 * slot)
      there = ground arith

      near : Kept sp slot 0 b pushed
      near = record {
        cells = λ q out. ground (arith, out, k.cells q out);
        hits_counted = k.hits_counted;
      }

      go :
          (registered : Bool)
          → Leaves
              (Kept sp slot (hits_of registered) b)
              (call_probe K i386 registered tid sp slot s)
      go true = rw (breakpoint_lem K tid slot small sp pushed there) (
          probe_body-Leaves 1 (handle_slot K i386 tid slot pushed)
            (handle_slot-Kept K tid pushed near))
      go false = probe_body-Leaves 0 pushed near

  with_utid-Leaves :
      (K : Kernel) (registered : Bool) (tid : ℕ) (small : tid < cell_mod) (o : Option ℕ)
      → Leaves (Kept sp slot (hits_of registered) b) (with_utid K i386 registered tid sp slot o b)
  with_utid-Leaves K registered tid small none = tt
  with_utid-Leaves K registered tid small (some utid) = elim (Bool-cases (utid == 0)) [
    | inl unset ↦ rw unset (
        call_probe-Leaves K registered tid small (record b { mem = store b.mem slot tid })
          (record { cells = λ q out. ground (arith, out); hits_counted = omega arith }))
    | inr set ↦ rw set (elim (Bool-cases (utid == tid)) [
      | inl own ↦ rw own (
          call_probe-Leaves K registered tid small b
            (record { cells = λ q out. refl; hits_counted = omega arith }))
      | inr other ↦ rw other tt
    ])
  ]

  -- One call of a probe function.
  pub probe-Leaves :
      (K : Kernel) (registered : Bool) (tid : ℕ)
      → tid < cell_mod
      → Leaves
          (Kept sp slot (if registered then 1 else 0) b)
          (probe K i386 registered tid sp slot b)
  unfolding probe
  probe-Leaves K registered tid small = with_utid-Leaves K registered tid small (b.mem slot)

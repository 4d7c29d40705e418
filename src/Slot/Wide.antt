-- ===== src/Slot/Wide.antt =====
-- What a call of a probe function leaves alone on x86_64, where a slot has six cells that are used.
use uprobe_tests.Base.{
  ℕ, ◌+◌, ◌≤◌, ◌<◌, ◌≡◌, refl, Bool, true, ◌||◌, Option, none, some, ltb, arith, ◌==◌, Bool-cases,
  inl, inr,
}
use uprobe_tests.Kernel.{Kernel}
use uprobe_tests.Slot.{Probed, put_done, put_ktid, check_utid, put_ucount, put_kcount, handle_slot}
use uprobe_tests.Slot.Memory.{Mem, x86_64, cell_mod, put_two, store}
use uprobe_tests.Slot.User.{
  with_kcount, with_stored, with_ucount, probe_body, call_probe, with_utid, probe,
}
use uprobe_tests.Slot.Frame.{Leaves}
use uprobe_tests.Slot.X86_64.{breakpoint_lem}

abbrev pub outside : (slot q : ℕ) → Bool
outside slot q = ltb q slot || ltb (slot + 5) q

module _ (slot : ℕ) (b : Mem) where
  -- Since `b` only the slot has changed.
  abbrev pub Keeps : Mem → Type 0
  Keeps m = (q : ℕ) → outside slot q ≡ true → m q ≡ b q

  abbrev KeepsIf : Option Mem → Type 0
  KeepsIf none = Unit
  KeepsIf (some m) = Keeps m

  put_two-Keeps :
      (o o' : Option ℕ) (m : Mem) (p v : ℕ)
      → slot ≤ p
      → p + 1 ≤ slot + 5
      → Keeps m
      → KeepsIf (put_two o o' m p v)
  put_two-Keeps none o' m p v lo hi k = tt
  put_two-Keeps (some _) none m p v lo hi k = tt
  put_two-Keeps (some _) (some _) m p v lo hi k = λ q out. ground (arith, out, lo, hi, k q out)

  module _ (K : Kernel) where
    put_done-Keeps :
        (o : Option Mem) (s : Probed) → KeepsIf o → Keeps s.mem → Keeps (put_done K x86_64 o s).mem
    put_done-Keeps none s k k' = k'
    put_done-Keeps (some m) s k k' = k

    put_ktid-Keeps : (tid : ℕ) (s : Probed) → Keeps s.mem → Keeps (put_ktid K x86_64 tid slot s).mem
    put_ktid-Keeps tid s k =
        put_done-Keeps _ s
          (put_two-Keeps (s.mem (slot + 1)) (s.mem (slot + 1 + 1)) s.mem (slot + 1) tid
            (omega arith) (omega arith) k)
          k

    put_ucount-Keeps : (v : ℕ) (s : Probed) → Keeps s.mem → Keeps (put_ucount K x86_64 v slot s).mem
    put_ucount-Keeps v s k = elim (Bool-cases (v == 18446744073709551615)) [
      | inl first ↦ rw first (
          put_done-Keeps _ s
            (put_two-Keeps (s.mem (slot + 2)) (s.mem (slot + 2 + 1)) s.mem (slot + 2) v
              (omega arith) (omega arith) k)
            k)
      | inr later ↦ rw later k
    ]

    put_kcount-Keeps : (v : ℕ) (s : Probed) → Keeps s.mem → Keeps (put_kcount K x86_64 v slot s).mem
    put_kcount-Keeps v s k =
        put_done-Keeps _ s
          (put_two-Keeps (s.mem (slot + 4)) (s.mem (slot + 4 + 1)) s.mem (slot + 4) v (omega arith)
            (omega arith) k)
          k

    check_utid-Keeps :
        (tid : ℕ) (s : Probed) → Keeps s.mem → Keeps (check_utid K x86_64 tid slot s).mem
    check_utid-Keeps tid s k =
        let same : (check_utid K x86_64 tid slot s).mem ≡ s.mem = ground arith in rw same k

    handle_slot-Keeps :
        (tid : ℕ) (s : Probed) → Keeps s.mem → Keeps (handle_slot K x86_64 tid slot s).mem
    unfolding handle_slot
    handle_slot-Keeps tid s k =
        put_kcount-Keeps _ _
          (put_ucount-Keeps _ _ (check_utid-Keeps tid _ (put_ktid-Keeps tid s k)))

    with_kcount-Keeps :
        (ucount : ℕ) (o : Option ℕ) (s : Probed)
        → Keeps s.mem
        → Leaves (λ t. Keeps t.mem) (with_kcount x86_64 ucount o s)
    with_kcount-Keeps ucount none s k = tt
    with_kcount-Keeps ucount (some _) s k = k

    with_stored-Keeps :
        (ucount : ℕ) (o : Option Mem) (s : Probed)
        → KeepsIf o
        → Leaves (λ t. Keeps t.mem) (with_stored x86_64 slot ucount o s)
    with_stored-Keeps ucount none s k = tt
    with_stored-Keeps ucount (some m) s k = with_kcount-Keeps ucount _ (record s { mem = m }) k

    with_ucount-Keeps :
        (o : Option ℕ) (s : Probed)
        → Keeps s.mem
        → Leaves (λ t. Keeps t.mem) (with_ucount x86_64 slot o s)
    with_ucount-Keeps none s k = tt
    with_ucount-Keeps (some old) s k = with_stored-Keeps _ _ s (
        put_two-Keeps (s.mem (slot + 2)) (s.mem (slot + 2 + 1)) s.mem (slot + 2) _ (omega arith)
          (omega arith) k)

    call_probe-Keeps :
        (tid sp : ℕ) (small : tid < cell_mod) (s : Probed)
        → Keeps s.mem
        → Leaves (λ t. Keeps t.mem) (call_probe K x86_64 true tid sp slot s)
    unfolding call_probe probe_body
    call_probe-Keeps tid sp small s k =
        rw (breakpoint_lem K tid slot small sp s)
          (with_ucount-Keeps _ (handle_slot K x86_64 tid slot s) (handle_slot-Keeps tid s k))

    with_utid-Keeps :
        (tid sp : ℕ) (small : tid < cell_mod) (o : Option ℕ) (s : Probed)
        → Keeps s.mem
        → Leaves (λ t. Keeps t.mem) (with_utid K x86_64 true tid sp slot o s)
    with_utid-Keeps tid sp small none s k = tt
    with_utid-Keeps tid sp small (some utid) s k = elim (Bool-cases (utid == 0)) [
      | inl unset ↦ rw unset (
          call_probe-Keeps tid sp small (record s { mem = store s.mem slot tid })
            (λ q out. ground (arith, out, k q out)))
      | inr set ↦ rw set (elim (Bool-cases (utid == tid)) [
        | inl own ↦ rw own (call_probe-Keeps tid sp small s k)
        | inr other ↦ rw other tt
      ])
    ]

-- A call of a probe function writes to its slot alone.
pub probe-Keeps :
    (K : Kernel) (tid sp slot : ℕ) (small : tid < cell_mod) (s : Probed)
    → Leaves (λ t. Keeps slot s.mem t.mem) (probe K x86_64 true tid sp slot s)
unfolding probe
probe-Keeps K tid sp slot small s =
    with_utid-Keeps slot s.mem K tid sp small (s.mem slot) s (λ q out. refl)

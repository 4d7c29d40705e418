-- ===== src/Existing/Probe5ag/Array.antt =====
-- The array of probe5ag.c: which of its elements stand for a registration.
use uprobe_tests.Base.{
  ℕ, zero, suc, ◌+◌, ◌≡◌, ◌≢◌, ◌∙◌, refl, true, false, not, ◌&&◌, List, [], ◌∷◌, All, arith,
  Bool-cases, inl, inr, ◌==◌, is_zero, Option, some, none, ℤ,
}
use uprobe_tests.Kernel.{Event, Uprobe, Trace, Kernel, World}
use uprobe_tests.Kernel.Count.{add_if, allocs, frees, entries, removes, registers, unregisters}
use uprobe_tests.Udbgfs.Session.{IsOpen, ProbeEvent, ProbeEvent-IsOpen, u_dbfs_cleanup-Closed}
use uprobe_tests.Existing.Common.{IsImmediate}
use uprobe_tests.Existing.Probe5ag.{
  Params, Probe5ag, zeroed, unregister_set, placed, register_each, cleanup_module,
}

-- The elements at `a` that `shut_down` unregisters.
unfoldable pub set_at : ℕ → List Uprobe → ℕ
set_at a [] = 0
set_at a (u ∷ us) = add_if (a == u.addr && not (u.vaddr == 0)) (set_at a us)

abbrev pub AllUnset : List Uprobe → Type 0
AllUnset = All (λ u. u.vaddr ≡ 0)

pub zeroed-AllUnset : (addr n : ℕ) → AllUnset (zeroed addr n)
unfolding zeroed
zeroed-AllUnset addr zero = tt
zeroed-AllUnset addr (suc n) = (refl, zeroed-AllUnset (addr + 64) n)

set_at_unset : (a : ℕ) (us : List Uprobe) → AllUnset us → set_at a us ≡ 0
unfolding set_at
set_at_unset a [] h = refl
set_at_unset a (u ∷ us) h = ground (arith, h.0, set_at_unset a us h.1)

pub unregister_set-counted :
    (a : ℕ) (us : List Uprobe) (w : World)
    → (registers a (unregister_set us w).trace ≡ registers a w.trace)
      × (unregisters a (unregister_set us w).trace ≡ unregisters a w.trace + set_at a us)
unfolding unregister_set set_at registers unregisters
unregister_set-counted a [] w = (refl, omega arith)
unregister_set-counted a (u ∷ us) w = elim (Bool-cases (u.vaddr == 0)) [
  | inl unset ↦
      let (r, n) = unregister_set-counted a us w in (simp unset r, ground (arith, unset, n))
  | inr set ↦
      let gone : World = record w { trace = Event.unregister_uprobe u ∷ w.trace } in
      let (r, n) = unregister_set-counted a us gone in (simp set r, ground (arith, set, n))
]

unregister_set-IsOpen :
    (b : World) (us : List Uprobe) (w : World) → IsOpen b w → IsOpen b (unregister_set us w)
unfolding unregister_set
unregister_set-IsOpen b [] w o = o
unregister_set-IsOpen b (u ∷ us) w o = elim (Bool-cases (u.vaddr == 0)) [
  | inl unset ↦ simp unset (unregister_set-IsOpen b us w o)
  | inr set ↦ simp set (unregister_set-IsOpen b us _ (ProbeEvent-IsOpen ProbeEvent.unregister o))
]

-- The state before the array was allocated at `block`, with the allocation put in front.
abbrev pub with_array : ℕ → World → World
with_array block b = record b { trace = Event.kmalloc 0 block ∷ b.trace }

pub kmalloc-IsOpen :
    (b w : World) (size block : ℕ)
    → IsOpen b w
    → IsOpen (with_array block b) (record w { trace = Event.kmalloc size block ∷ w.trace })
unfolding allocs frees entries removes
kmalloc-IsOpen b w size block o = record {
  memory = λ p. ground (arith, o.memory p);
  files = o.files;
  has = o.has;
  fine = o.fine;
}

kfree-IsOpen :
    (b w : World) (block : ℕ)
    → IsOpen (with_array block b) w
    → IsOpen b (record w { trace = Event.kfree block ∷ w.trace })
unfolding allocs frees entries removes
kfree-IsOpen b w block o = record {
  memory = λ p. ground (arith, o.memory p);
  files = o.files;
  has = o.has;
  fine = o.fine;
}

-- The array is allocated, and the registrations are those of its set elements, up to one at each
-- address in `extra`.
pub record IsLoaded (b : World) (extra : ℕ → ℕ) (s : Probe5ag) : Type 0 where
  pub opened : IsOpen (with_array s.block b) s.world
  pub probes :
      (a : ℕ)
      → registers a s.world.trace + unregisters a b.trace + extra a
        ≡ registers a b.trace + unregisters a s.world.trace + set_at a s.probes

pub cleanup_module_lem :
    (b : World) (extra : ℕ → ℕ) (s : Probe5ag)
    → IsLoaded b extra s
    → ((p : ℕ)
        → allocs p (cleanup_module s).world.trace + frees p b.trace
          ≡ allocs p b.trace + frees p (cleanup_module s).world.trace)
      × ((d : ℕ)
          → entries d (cleanup_module s).world.trace + removes d b.trace
            ≡ entries d b.trace + removes d (cleanup_module s).world.trace)
      × ((a : ℕ)
          → registers a (cleanup_module s).world.trace + unregisters a b.trace + extra a
            ≡ registers a b.trace + unregisters a (cleanup_module s).world.trace)
unfolding cleanup_module registers unregisters
cleanup_module_lem b extra s l =
    let w : World = unregister_set s.probes s.world in
    let gone : World = record w { trace = Event.kfree s.block ∷ w.trace } in
    let d =
      u_dbfs_cleanup-Closed b gone
        (kfree-IsOpen b w s.block (unregister_set-IsOpen _ s.probes s.world l.opened)) in
    (
      d.memory,
      d.files,
      λ a.
          let (r, n) = unregister_set-counted a s.probes s.world in
          omega (arith, l.probes a, r, n, d.registers_same a, d.unregisters_same a),
    )

-- The latest call of `register_uprobe`, and what the kernel answered.
unfoldable pub last_tried : Trace → Option (Uprobe × ℤ)
last_tried [] = none
last_tried (Event.register_uprobe u r ∷ t) = some (u, r)
last_tried (_ ∷ t) = last_tried t

pub unregister_set-last_tried :
    (us : List Uprobe) (w : World) → last_tried (unregister_set us w).trace ≡ last_tried w.trace
unfolding unregister_set last_tried
unregister_set-last_tried [] w = refl
unregister_set-last_tried (u ∷ us) w = unregister_set-last_tried us _ ∙ ground arith

module _ (K : Kernel) (c : Params) where
  pub register_each-IsOpen :
      (b : World) (us : List Uprobe) (w : World) → IsOpen b w → IsOpen b (register_each K c us w).2
  unfolding register_each
  register_each-IsOpen b [] w o = o
  register_each-IsOpen b (u ∷ us) w o =
      let o' = ProbeEvent-IsOpen ProbeEvent.register o in
      elim (Bool-cases (is_zero (K.register w.trace (placed K c u)))) [
        | inl ok ↦ simp ok (register_each-IsOpen b us _ o')
        | inr refused ↦ simp refused o'
      ]

  -- If all are accepted, each element stands for one registration.
  pub register_each-counted :
      (a : ℕ) (us : List Uprobe) (w : World)
      → c.vaddr ≢ 0
      → is_zero (register_each K c us w).0 ≡ true
      → (registers a (register_each K c us w).2.trace
          ≡ registers a w.trace + set_at a (register_each K c us w).1)
        × (unregisters a (register_each K c us w).2.trace ≡ unregisters a w.trace)
  unfolding register_each set_at registers unregisters
  register_each-counted a [] w some_vaddr all = (omega arith, refl)
  register_each-counted a (u ∷ us) w some_vaddr all =
      elim (Bool-cases (is_zero (K.register w.trace (placed K c u)))) [
        | inl ok ↦
            let after : World = record w {
              trace =
                  Event.register_uprobe (placed K c u) (K.register w.trace (placed K c u))
                  ∷ w.trace;
            } in
            let (r, n) = register_each-counted a us after some_vaddr (simp ok at all) in
            (simp ok (ground (arith, r, ok)), simp ok n)
        | inr refused ↦ absurd (ground (arith, refused))
      ]

  -- The probe that was refused, the last one tried, is set in the array.
  pub register_each_refused :
      (us : List Uprobe) (w : World)
      → IsImmediate K
      → AllUnset us
      → c.vaddr ≢ 0
      → is_zero (register_each K c us w).0 ≡ false
      → (refused : Uprobe) × (last_tried (register_each K c us w).2.trace
          ≡ some (refused, (register_each K c us w).0))
        × ((a : ℕ)
            → (registers a (register_each K c us w).2.trace + add_if (a == refused.addr) 0
                ≡ registers a w.trace + set_at a (register_each K c us w).1)
              × (unregisters a (register_each K c us w).2.trace ≡ unregisters a w.trace))
  unfolding register_each set_at registers unregisters last_tried
  register_each_refused [] w immediate unset some_vaddr bad = absurd (ground arith)
  register_each_refused (u ∷ us) w immediate unset some_vaddr bad =
      elim (Bool-cases (is_zero (K.register w.trace (placed K c u)))) [
        | inl ok ↦
            let after : World = record w {
              trace =
                  Event.register_uprobe (placed K c u) (K.register w.trace (placed K c u))
                  ∷ w.trace;
            } in
            let (refused, tried, rest) =
              register_each_refused us after immediate unset.1 some_vaddr (simp ok at bad) in
            (
              refused,
              simp ok tried,
              λ a. let (r, n) = rest a in (simp ok (ground (arith, r, ok)), simp ok n),
            )
        | inr refused ↦
            let now = immediate.uprobe w.trace (placed K c u) in
            (
              placed K c u,
              simp refused refl,
              λ a. (
                simp refused (ground (arith, refused, now, set_at_unset a us unset.1)),
                simp refused refl,
              ),
            )
      ]

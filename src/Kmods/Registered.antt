-- ===== src/Kmods/Registered.antt =====
-- Which probes a trace has registered, and what one registration adds.
use uprobe_tests.Base.{
  ℕ, suc, ◌≡◌, refl, true, none, some, List, [], ◌∷◌, arith, Bool-cases, if◌then◌else◌, is_some,
  inl, inr, ℤ, is_zero, is_neg,
}
use uprobe_tests.Kernel.{Name, Handler, Event, Trace, Kernel, World}
use uprobe_tests.Udbgfs.{u_dbfs_cleanup}
use uprobe_tests.Symbols.{Table, strcmp_eq, find_offset, find_inode}
use uprobe_tests.Kmods.{sizeof_consumer, register_named, register_probe}

abbrev pub add_if_zero : ℤ → ℕ × Handler → List (ℕ × Handler) → List (ℕ × Handler)
add_if_zero r p ps = if is_zero r then p ∷ ps else ps

-- Offset and handler of each registration that the kernel accepted, the latest first.
unfoldable pub registrations : Trace → List (ℕ × Handler)
registrations [] = []
registrations (Event.uprobe_register inode offset usp h r ∷ t) =
    add_if_zero r (offset, h) (registrations t)
registrations (_ ∷ t) = registrations t

-- Calls of `uprobe_unregister`.
unfoldable pub removals : Trace → ℕ
removals [] = 0
removals (Event.uprobe_unregister inode offset usp ∷ t) = suc (removals t)
removals (_ ∷ t) = removals t

-- What looking up an inode leaves alone.
pub record SameProbes (v w : World) : Type 0 where
  pub registered : registrations v.trace ≡ registrations w.trace
  pub removed : removals v.trace ≡ removals w.trace
  pub buffer : v.print_buf ≡ w.print_buf
  pub fine : v.oops ≡ w.oops

pub find_inode-SameProbes :
    (K : Kernel) (table : Table) (name : Name) (w : World)
    → SameProbes (find_inode K table name w).1 w
unfolding find_inode registrations removals
find_inode-SameProbes K [] name w = record {
  registered = refl;
  removed = refl;
  buffer = refl;
  fine = refl;
}
find_inode-SameProbes K (s ∷ table) name w = elim (Bool-cases (strcmp_eq name s.name)) [
  | inl same ↦ rw same (record {
    registered = ground arith;
    removed = ground arith;
    buffer = ground arith;
    fine = ground arith;
  })
  | inr other ↦ rw other (find_inode-SameProbes K table name w)
]

pub record Cleaned (v w : World) : Type 0 where
  pub registered : registrations v.trace ≡ registrations w.trace
  pub removed : removals v.trace ≡ removals w.trace

pub u_dbfs_cleanup-Cleaned : (w : World) → Cleaned (u_dbfs_cleanup w).1 w
unfolding u_dbfs_cleanup registrations removals
u_dbfs_cleanup-Cleaned w = record { registered = ground arith; removed = ground arith }

pub u_dbfs_cleanup-fine :
    (w : World) → is_some w.print_buf ≡ true → (u_dbfs_cleanup w).1.oops ≡ w.oops
unfolding u_dbfs_cleanup
u_dbfs_cleanup-fine w has = ground arith

module _ (K : Kernel) (table : Table) (h : Handler) (name : Name) (w : World)
    (has : is_some w.print_buf ≡ true) where
  -- The world in which the inode is looked up.
  abbrev allocated : World
  allocated = record w {
    trace = Event.kmalloc sizeof_consumer (K.alloc w.trace sizeof_consumer) ∷ w.trace;
  }

  -- The loop goes on: one more registration, at the offset of the name and with the handler.
  pub register_probe-none :
      (register_probe K table h name w).0 ≡ none
      → (registrations (register_probe K table h name w).1.trace
          ≡ (find_offset table name, h) ∷ registrations w.trace)
        × (removals (register_probe K table h name w).1.trace ≡ removals w.trace)
        × (is_some (register_probe K table h name w).1.print_buf ≡ true)
        × ((register_probe K table h name w).1.oops ≡ w.oops)
  unfolding register_probe registrations removals
  register_probe-none e =
      let f = find_inode-SameProbes K table name allocated in
      (
        ground (arith, f.registered),
        ground (arith, f.removed),
        ground (arith, f.buffer),
        ground (arith, f.fine, f.buffer),
      )

  -- The loop returns: a negative result, no registration, and the debugfs files are gone.
  pub register_probe-some :
      {r : ℤ}
      → (register_probe K table h name w).0 ≡ some r
      → (is_neg r ≡ true)
        × (registrations (register_probe K table h name w).1.trace ≡ registrations w.trace)
        × (removals (register_probe K table h name w).1.trace ≡ removals w.trace)
        × ((register_probe K table h name w).1.oops ≡ w.oops)
  unfolding register_probe registrations removals
  register_probe-some e =
      let f = find_inode-SameProbes K table name allocated in
      let tried = (register_named K table h name (K.alloc w.trace sizeof_consumer) allocated).1 in
      let a = u_dbfs_cleanup-Cleaned allocated in
      let b = u_dbfs_cleanup-Cleaned tried in
      (
        ground arith,
        ground (arith, f.registered, a.registered, b.registered),
        ground (arith, f.removed, a.removed, b.removed),
        ground (arith, f.fine, f.buffer, u_dbfs_cleanup-fine allocated, u_dbfs_cleanup-fine tried),
      )

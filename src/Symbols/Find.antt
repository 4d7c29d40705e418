-- ===== src/Symbols/Find.antt =====
-- `find_offset` and `find_inode` give the first entry with the name.
use uprobe_tests.Base.{◌≡◌, refl, true, false, [], ◌∷◌, ◌++◌, All, arith}
use uprobe_tests.Kernel.{Name, Kernel, World, kern_path_call}
use uprobe_tests.Symbols.{Symbol, Table, strcmp_eq, or_null, find_offset, find_inode}

strcmp_eq_refl : (a : Name) → strcmp_eq a a ≡ true
unfolding strcmp_eq
strcmp_eq_refl [] = refl
strcmp_eq_refl (x ∷ a) = ground (arith, strcmp_eq_refl a)

-- No entry has the name.
abbrev pub Lacks : Name → Table → Type 0
Lacks name = All (λ s. strcmp_eq name s.name ≡ false)

-- For the first entry with its name, `find_offset` gives the entry's offset and `find_inode` what the
-- entry's path leads to: the two look-ups agree on the entry. `kern_path` is called once, on that path,
-- and a failure gives NULL.
pub find_first :
    (K : Kernel) (before : Table) (s : Symbol) (after : Table) (w : World)
    → Lacks s.name before
    → (find_offset (before ++ s ∷ after) s.name ≡ s.offset)
      × (find_inode K (before ++ s ∷ after) s.name w ≡ or_null (kern_path_call K s.path w))
unfolding find_offset find_inode
find_first K [] s after w h = (rw (strcmp_eq_refl s.name), rw (strcmp_eq_refl s.name))
find_first K (t ∷ before) s after w h = rw h.0 (find_first K before s after w h.1)

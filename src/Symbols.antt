-- ===== src/Symbols.antt =====
-- uprobes.w/symbols.h: look-up in the table `user_symbols`, which the build generates, and the loop
-- over the symbols with a prefix.
pub mod Loop
pub mod Find
pub mod Listing
use uprobe_tests.Base.{
  ℕ, zero, suc, min, ◌≡◌, Bool, true, false, ◌&&◌, Option, none, some, List, [], ◌∷◌, ◌==◌,
  if◌then◌else◌, length, drop, ℤ,
}
use uprobe_tests.Kernel.{Name, Event, Kernel, World, Io, kern_path_call}

-- `struct symbol`.
pub record Symbol : Type 0 where
  pub path : Name
  pub offset : ℕ
  pub name : Name

abbrev pub Table : Type 0
Table = List Symbol

-- `strcmp(a, b) == 0` and `strncmp(a, b, n) == 0`.
unfoldable pub strcmp_eq : Name → Name → Bool
strcmp_eq [] [] = true
strcmp_eq [] (y ∷ b) = false
strcmp_eq (x ∷ a) [] = false
strcmp_eq (x ∷ a) (y ∷ b) = x == y && strcmp_eq a b

unfoldable pub strncmp_eq : Name → Name → ℕ → Bool
strncmp_eq a b zero = true
strncmp_eq [] [] (suc n) = true
strncmp_eq [] (y ∷ b) (suc n) = false
strncmp_eq (x ∷ a) [] (suc n) = false
strncmp_eq (x ∷ a) (y ∷ b) (suc n) = x == y && strncmp_eq a b n

abbrev pub strnlen : Name → ℕ → ℕ
strnlen a n = min (length a) n

unfoldable pub find_offset : Table → Name → ℕ
unfolding strcmp_eq
find_offset [] name = 0
find_offset (s ∷ table) name = if strcmp_eq name s.name then s.offset else find_offset table name

abbrev pub or_null : Option ℕ × World → ℕ × World
or_null (none, w) = (0, w)
or_null (some inode, w) = (inode, w)

-- The inode, with a reference to it, or NULL.
unfoldable pub find_inode : Kernel → Table → Name → Io ℕ
unfolding strcmp_eq
find_inode K [] name w = (0, w)
find_inode K (s ∷ table) name w =
    if strcmp_eq name s.name then or_null (kern_path_call K s.path w) else find_inode K table name w

-- The loop of `glob_names` over the rest of the table, from index `i` on.
unfoldable pub glob_loop : Table → (i : ℕ) → Name → ℕ → Option (ℕ × Name)
unfolding strncmp_eq
glob_loop [] i name size = none
glob_loop (s ∷ rest) i name size =
    if strncmp_eq s.name name size then some (i, s.name) else glob_loop rest (suc i) name size

-- The symbol found, with the new value of `*next`.
unfoldable pub glob_names : Table → Name → ℕ → ℕ → Option (ℕ × Name)
unfolding glob_loop
glob_names table name next size = glob_loop (drop next table) next name size

-- The body of a loop over a state: `some r` is `return r`.
abbrev pub Body : Type 0 → Type 0
Body S = Name → S → Option ℤ × S

module _ {S : Type 0} where
  abbrev pub unless_returned : Option ℤ × S → (S → Option ℤ × S) → Option ℤ × S
  unless_returned (some r, s) rest = (some r, s)
  unless_returned (none, s) rest = rest s

  -- A round of the loop: the body for the symbol found, then the loop from the index after it.
  abbrev pub round : Option (ℕ × Name) → Body S → (ℕ → S → Option ℤ × S) → S → Option ℤ × S
  round none body next s = (none, s)
  round (some (i, found)) body next s = unless_returned (body found s) (next (suc i))

  -- `for_each_glob(next, glob, found) body`, on fuel for the rounds.
  unfoldable pub for_each_glob : ℕ → Table → Name → Body S → (next : ℕ) → S → Option ℤ × S
  unfolding glob_names
  for_each_glob zero table glob body next s = (none, s)
  for_each_glob (suc fuel) table glob body next s =
      round (glob_names table glob next (strnlen glob 20)) body
        (λ i. for_each_glob fuel table glob body i) s

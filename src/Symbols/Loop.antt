-- ===== src/Symbols/Loop.antt =====
-- `for_each_glob` visits the symbols with the prefix, each once and in order.
use uprobe_tests.Base.{
  ℕ, zero, suc, ◌<◌, ◌≤◌, ◌≡◌, refl, ap, Bool, true, false, ◌&&◌, Option, none, some, List, [], ◌∷◌,
  inl, inr, Bool-cases, arith, ◌==◌, if◌then◌else◌, length, drop, ℤ,
}
use mathlib.Core.Path.{fun_ext}
use uprobe_tests.Kernel.{Name}
use uprobe_tests.Symbols.{
  Symbol, Table, strncmp_eq, strnlen, glob_loop, glob_names, Body, unless_returned, for_each_glob,
}

unfoldable pub starts_with : Name → Name → Bool
starts_with [] name = true
starts_with (c ∷ glob) [] = false
starts_with (c ∷ glob) (x ∷ name) = x == c && starts_with glob name

unfoldable pub matching : Table → Name → List Name
matching [] glob = []
matching (s ∷ table) glob =
    if starts_with glob s.name then s.name ∷ matching table glob else matching table glob

-- The body for each name in turn, up to the first that returns.
unfoldable pub run_all : {S : Type 0} → List Name → Body S → S → Option ℤ × S
run_all [] body w = (none, w)
run_all (x ∷ xs) body w = unless_returned (body x w) (λ v. run_all xs body v)

strncmp_eq-starts_with :
    (glob name : Name) → strncmp_eq name glob (length glob) ≡ starts_with glob name
unfolding strncmp_eq starts_with
strncmp_eq-starts_with [] name = refl
strncmp_eq-starts_with (c ∷ glob) [] = refl
strncmp_eq-starts_with (c ∷ glob) (x ∷ name) = rw (strncmp_eq-starts_with glob name)

drop-suc :
    (n : ℕ) (table : Table) {s : Symbol} {rest : Table}
    → drop n table ≡ s ∷ rest
    → drop (suc n) table ≡ rest
drop-suc zero [] e = cc
drop-suc zero (t ∷ table) e = cc
drop-suc (suc n) [] e = cc
drop-suc (suc n) (t ∷ table) e = drop-suc n table e

size_lem : (glob : Name) → length glob ≤ 20 → strnlen glob 20 ≡ length glob
size_lem glob short = omega arith

module _ {S : Type 0} (table : Table) (glob : Name) (body : Body S) (short : length glob ≤ 20) where
  glob_names_lem :
      (s : Symbol) (rest : Table) (next : ℕ)
      → drop next table ≡ s ∷ rest
      → glob_names table glob next (strnlen glob 20) ≡ (
          if starts_with glob s.name
          then some (next, s.name)
          else glob_names table glob (suc next) (strnlen glob 20))
  unfolding glob_names glob_loop
  glob_names_lem s rest next e =
      rw (e, drop-suc next table e, size_lem glob short, strncmp_eq-starts_with glob s.name)

  for_each_glob_from :
      (rest : Table) (fuel next : ℕ) (w : S)
      → drop next table ≡ rest
      → length rest < fuel
      → for_each_glob fuel table glob body next w ≡ run_all (matching rest glob) body w
  unfolding for_each_glob matching run_all glob_loop
  for_each_glob_from rest zero next w e h = absurd (omega arith)
  for_each_glob_from [] (suc fuel) next w e h = rw e
  for_each_glob_from (s ∷ rest) (suc fuel) next w e h =
      elim (Bool-cases (starts_with glob s.name)) [
        | inl hit ↦
            rw (glob_names_lem s rest next e, hit)
              (ap (unless_returned (body s.name w)) (
                fun_ext λ v.
                  for_each_glob_from rest fuel (suc next) v (drop-suc next table e) (omega arith)))
        | inr miss ↦
            rw (glob_names_lem s rest next e, miss)
              (for_each_glob_from rest (suc fuel) (suc next) w (drop-suc next table e)
                (omega arith))
      ]

  -- The loop macro runs its body on just the symbols that start with the prefix, in the order of the
  -- table, until the body returns; one round more than the table has entries is enough. The prefix has
  -- at most 20 characters.
  pub for_each_glob-run_all :
      (w : S)
      → for_each_glob (suc (length table)) table glob body 0 w
        ≡ run_all (matching table glob) body w
  for_each_glob-run_all w = for_each_glob_from table (suc (length table)) 0 w refl (omega arith)

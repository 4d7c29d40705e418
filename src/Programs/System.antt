-- ===== src/Programs/System.antt =====
-- kthread.c and uthread.c together: the module puts its probes where the program calls.
use mathlib.Core.List.{reverse_aux}
use uprobe_tests.Base.{
  ℕ, ◌+◌, ◌*◌, ◌%◌, ◌≤◌, ◌<◌, ◌≡◌, ◌∙◌, refl, inl, inr, Bool, true, false, ◌&&◌, ◌||◌, some, List,
  [], ◌∷◌, ◌++◌, ◌==◌, Bool-cases, All, arith, ℤ, pos,
}
use uprobe_tests.Kernel.{Name, codes, Handler, Trace, Kernel, World}
use uprobe_tests.Resolve.{Config}
use uprobe_tests.Symbols.{Table, strcmp_eq, find_offset}
use uprobe_tests.Symbols.Loop.{starts_with, matching}
use uprobe_tests.Kmods.{probe_prefix, Module, handler_of}
use uprobe_tests.Kmods
use uprobe_tests.Kmods.Registered.{registrations}
use uprobe_tests.Kmods.Init.{probes_of, init_module-matching}
use uprobe_tests.Slot.Memory.{Mem, i386, cell_mod}
use uprobe_tests.Programs.{ids_from}
use uprobe_tests.Programs.Main.{Report, Pthread, main}
use uprobe_tests.Programs.Schedule.{At, Thread, System, run}
use uprobe_tests.Programs.Schedule.Run.{IsDisjoint, start_with}
use uprobe_tests.Programs.Schedule.Passed.{uthread-passes}

-- Whether the handler of include/u_mod_common.h is registered at the offset.
abbrev is_probe_handler : Handler → Bool
is_probe_handler Handler.probe_handler = true
is_probe_handler _ = false

abbrev listed : (offset : ℕ) → List (ℕ × Handler) → Bool
listed offset [] = false
listed offset ((o, h) ∷ ps) = (o == offset && is_probe_handler h) || listed offset ps

unfoldable pub is_probed : Trace → (offset : ℕ) → Bool
is_probed t offset = listed offset (registrations t)

-- `_probe_0` to `_probe_9`.
abbrev pub probe_name : (id : ℕ) → Name
probe_name id = codes "_probe_" ++ (48 + id) ∷ []

abbrev pub are_probed : Table → Trace → List ℕ → Bool
are_probed table t [] = true
are_probed table t (id ∷ ids) =
    is_probed t (find_offset table (probe_name id)) && are_probed table t ids

-- Whether the generated table has the symbol.
unfoldable pub has_symbol : Table → Name → Bool
has_symbol [] name = false
has_symbol (s ∷ table) name = strcmp_eq name s.name || has_symbol table name

eq_of_strcmp : (a b : Name) → strcmp_eq a b ≡ true → a ≡ b
unfolding strcmp_eq
eq_of_strcmp [] [] e = refl
eq_of_strcmp [] (y ∷ b) e = absurd (ground (arith, e))
eq_of_strcmp (x ∷ a) [] e = absurd (ground (arith, e))
eq_of_strcmp (x ∷ a) (y ∷ b) e =
    let head : x ≡ y = ground (arith, e) in
    let tail = eq_of_strcmp a b (ground (arith, e)) in rw (head, tail) refl

listed-reverse_aux :
    (offset : ℕ) (ps qs : List (ℕ × Handler))
    → listed offset (reverse_aux ps qs) ≡ (listed offset ps || listed offset qs)
listed-reverse_aux offset [] qs = refl
listed-reverse_aux offset ((o, h) ∷ ps) qs =
    ground (arith, listed-reverse_aux offset ps ((o, h) ∷ qs))

-- A symbol with the prefix is among those that the module registers.
listed-matching :
    (table whole : Table) (name : Name)
    → starts_with probe_prefix name ≡ true
    → has_symbol table name ≡ true
    → listed
        (find_offset whole name)
        (probes_of whole Handler.probe_handler (matching table probe_prefix))
      ≡ true
unfolding has_symbol matching
listed-matching [] whole name prefix has = absurd (ground (arith, has))
listed-matching (s ∷ table) whole name prefix has = elim (Bool-cases (strcmp_eq name s.name)) [
  | inl here ↦
      let same = eq_of_strcmp name s.name here in
      let hit = rw same at prefix in rw (same, hit) (ground arith)
  | inr there ↦
      let later = listed-matching table whole name prefix (ground (arith, there, has)) in
      elim (Bool-cases (starts_with probe_prefix s.name)) [
        | inl hit ↦ rw hit (ground (arith, later))
        | inr miss ↦ rw miss later
      ]
]

prefix_lem : (id : ℕ) → starts_with probe_prefix (probe_name id) ≡ true
unfolding starts_with
prefix_lem id = refl

module _ (K : Kernel) (table : Table) (cfg : Config) (w : World)
    (loaded : (Kmods.init_module K table cfg Module.kthread w).0 ≡ pos 0) where
  abbrev pub trace_after : Trace
  trace_after = (Kmods.init_module K table cfg Module.kthread w).1.trace

  kthread_probes :
      (name : Name)
      → starts_with probe_prefix name ≡ true
      → has_symbol table name ≡ true
      → is_probed trace_after (find_offset table name) ≡ true
  unfolding is_probed
  kthread_probes name prefix has = elim ((init_module-matching K table cfg Module.kthread w).0) [
    | inl (_, all) ↦ rw all (
        listed-reverse_aux (find_offset table name)
          (probes_of table Handler.probe_handler (matching table probe_prefix))
          (registrations w.trace)
        ∙ ground (arith, listed-matching table table name prefix has))
    | inr (neg, _, _) ↦ absurd (ground (arith, neg, loaded))
  ]

  pub every_probe :
      (ids : List ℕ)
      → All (λ id. has_symbol table (probe_name id) ≡ true) ids
      → are_probed table trace_after ids ≡ true
  every_probe [] all = refl
  every_probe (id ∷ ids) (has, all) =
      rw (kthread_probes (probe_name id) (prefix_lem id) has) (every_probe ids all)

-- kthread.c and uthread.c on i386. If the module has loaded, with a symbol table that has `_probe_0` to
-- `_probe_9`, and pthread starts the threads of the program, runs them in any order, call by call, each
-- to its end, and joins them with their results, then the program reports a pass, and the module has
-- counted `n * cnt * 10` hits more, modulo 2 ^ 32. There are 1 to 1000 threads and 1 to 2 ^ 31 rounds;
-- the ids have 32 bits, the tables do not overlap, and the stacks are outside of them.
pub kthread-uthread :
    (K : Kernel) (table : Table) (cfg : Config) (w : World) (P : Pthread) (n cnt : ℕ) (stale : ℤ)
    (threads : ℕ → Thread) (m : Mem) (schedule : List ℕ) (y : System)
    → (Kmods.init_module K table cfg Module.kthread w).0 ≡ pos 0
    → All (λ id. has_symbol table (probe_name id) ≡ true) (ids_from 0 10)
    → 0 < n
    → n ≤ 1000
    → 0 < cnt
    → cnt ≤ 2147483648
    → IsDisjoint n threads
    → All (λ i. i < n) schedule
    → run K i386
        (are_probed table (Kmods.init_module K table cfg Module.kthread w).1.trace (ids_from 0 10))
        10
        cnt
        threads
        schedule
        (start_with
          (record { mem = m; world = (Kmods.init_module K table cfg Module.kthread w).1 }))
      ≡ some y
    → ((i : ℕ) → i < n → y.at i ≡ At.finished (P.result i))
    → ((i : ℕ) → i < n → P.create i ≡ 0)
    → ((i : ℕ) → i < n → P.join i ≡ 0)
    → (main P 3 (pos n) (pos cnt) stale ≡ Report.passed)
      × (y.shared.world.num_probes % cell_mod
          ≡ ((Kmods.init_module K table cfg Module.kthread w).1.num_probes + n * (cnt * 10))
            % cell_mod)
kthread-uthread K table cfg w P n cnt stale threads m schedule y loaded names some_threads fit
      some_rounds few apart all ran results created joined =
    let probed = every_probe K table cfg w loaded (ids_from 0 10) names in
    uthread-passes K P n cnt stale threads
      (record { mem = m; world = (Kmods.init_module K table cfg Module.kthread w).1 }) schedule y
      some_threads fit some_rounds few apart all (rw probed at ran) results created joined

-- ===== src/Slot/Race.antt =====
-- `num_probes++` of include/u_mod_common.h, which the handlers of all threads share and which no lock
-- protects: a load, and a store of what was loaded plus one.
use uprobe_tests.Base.{
  ℕ, zero, suc, ◌+◌, ◌%◌, ◌≤◌, ◌<◌, ◌≡◌, ◌≢◌, ◌∙◌, refl, ap, true, false, Option, none, some, List,
  [], ◌∷◌, Bool-cases, inl, inr, ◌⊎◌, arith, ◌==◌, if◌then◌else◌,
}
use native.Mathlib.Nat.{mod-eq_of_lt}
use uprobe_tests.Slot.Memory.{Arch, ulong_max}

-- `loaded i` is what the handler of thread `i` has loaded and not stored; `hits` counts the handlers
-- that have stored.
pub record Counter : Type 0 where
  pub num_probes : ℕ
  pub loaded : ℕ → Option ℕ
  pub hits : ℕ

abbrev pub no_hits : Counter
no_hits = record { num_probes = 0; loaded = λ i. none; hits = 0 }

abbrev pub set_loaded : ℕ → Option ℕ → (ℕ → Option ℕ) → ℕ → Option ℕ
set_loaded i v loaded j = if i == j then v else loaded j

-- Thread `j` counts `n` hits between the load and the store of thread `i`.
abbrev pub times : ℕ → ℕ → List ℕ → List ℕ
times zero j is = is
times (suc n) j is = j ∷ j ∷ times n j is

abbrev pub overtaken : (i j n : ℕ) → List ℕ
overtaken i j n = i ∷ times n j (i ∷ [])

module _ (a : Arch) where
  -- The next access of thread `i`, in `num_probes++`.
  unfoldable pub count_access : (i : ℕ) → Option ℕ → Counter → Counter
  count_access i none s = record s { loaded = set_loaded i (some s.num_probes) s.loaded }
  count_access i (some v) s = record s {
    num_probes = (v + 1) % (ulong_max a + 1);
    loaded = set_loaded i none s.loaded;
    hits = suc s.hits;
  }

  -- The accesses of the threads in the order of the list.
  unfoldable pub count_all : List ℕ → Counter → Counter
  unfolding count_access
  count_all [] s = s
  count_all (i ∷ is) s = count_all is (count_access i (s.loaded i) s)

  -- No count is ahead of the hits, and after a hit none is 0.
  record IsBehind (s : Counter) : Type 0 where
    behind : s.num_probes ≤ s.hits
    some_hit : 0 < s.hits → 0 < s.num_probes
    loads : (i v : ℕ) → s.loaded i ≡ some v → v ≤ s.hits

  count_access-IsBehind :
      (i : ℕ) (o : Option ℕ) (s : Counter)
      → s.loaded i ≡ o
      → (count_access i o s).hits ≤ ulong_max a
      → IsBehind s
      → IsBehind (count_access i o s)
  unfolding count_access
  count_access-IsBehind i none s e few b = record {
    behind = b.behind;
    some_hit = b.some_hit;
    loads = λ j v h. elim (Bool-cases (i == j)) [
      | inl same ↦ let here : s.num_probes ≡ v = cc (rw same at h) in omega (arith, here, b.behind)
      | inr other ↦ b.loads j v (rw other at h)
    ];
  }
  count_access-IsBehind i (some v) s e few b =
      let next : (v + 1) % (ulong_max a + 1) ≡ v + 1 =
        mod-eq_of_lt (omega (arith, few, b.loads i v e)) in
      record {
        behind = omega (arith, next, b.loads i v e);
        some_hit = λ h. omega (arith, next);
        loads = λ j u h. elim (Bool-cases (i == j)) [
          | inl same ↦ absurd (cc (rw same at h))
          | inr other ↦ omega (arith, b.loads j u (rw other at h))
        ];
      }

  hits_grow : (i : ℕ) (o : Option ℕ) (s : Counter) → s.hits ≤ (count_access i o s).hits
  unfolding count_access
  hits_grow i none s = omega arith
  hits_grow i (some v) s = omega arith

  hits_grow_all : (is : List ℕ) (s : Counter) → s.hits ≤ (count_all is s).hits
  unfolding count_all
  hits_grow_all [] s = omega arith
  hits_grow_all (i ∷ is) s =
      let t : Counter = count_access i (s.loaded i) s in
      omega (arith, hits_grow i (s.loaded i) s, hits_grow_all is t)

  count_all-IsBehind :
      (is : List ℕ) (s : Counter)
      → (count_all is s).hits ≤ ulong_max a
      → IsBehind s
      → IsBehind (count_all is s)
  unfolding count_all
  count_all-IsBehind [] s few b = b
  count_all-IsBehind (i ∷ is) s few b =
      let t : Counter = count_access i (s.loaded i) s in
      count_all-IsBehind is t few
        (count_access-IsBehind i (s.loaded i) s refl (omega (arith, few, hits_grow_all is t)) b)

  -- A hit that nothing interrupts.
  abbrev counted : ℕ → Counter → Counter
  counted j s = record {
    num_probes = (s.num_probes + 1) % (ulong_max a + 1);
    loaded = set_loaded j none (set_loaded j (some s.num_probes) s.loaded);
    hits = suc s.hits;
  }

  count_one :
      (j : ℕ) (is : List ℕ) (s : Counter)
      → s.loaded j ≡ none
      → count_all (j ∷ j ∷ is) s ≡ count_all is (counted j s)
  unfolding count_all count_access
  count_one j is s free = let self : (j == j) ≡ true = ground arith in rw (free, self) refl

  times_lem :
      (i j v n : ℕ) (s : Counter)
      → (j == i) ≡ false
      → s.loaded j ≡ none
      → s.loaded i ≡ some v
      → ((count_all (times n j (i ∷ [])) s).num_probes ≡ (v + 1) % (ulong_max a + 1))
        × ((count_all (times n j (i ∷ [])) s).hits ≡ s.hits + n + 1)
  unfolding count_all count_access
  times_lem i j v zero s apart free has = rw has (refl, omega arith)
  times_lem i j v (suc n) s apart free has =
      let self : (j == j) ≡ true = ground arith in
      let one = count_one j (times n j (i ∷ [])) s free in
      let later : ((count_all (times n j (i ∷ [])) (counted j s)).num_probes
            ≡ (v + 1) % (ulong_max a + 1))
          × ((count_all (times n j (i ∷ [])) (counted j s)).hits ≡ suc s.hits + n + 1) =
        times_lem i j v n (counted j s) apart (rw self refl) (rw apart has) in
      (ap Counter.num_probes one ∙ later.0, ap Counter.hits one ∙ later.1 ∙ omega arith)

-- However the accesses of the threads interleave, `num_probes` is at most the number of hits, and not 0
-- after the first, as long as there are fewer hits than an `unsigned long` has values. It can fall
-- behind all the way: where one thread hits `n` times while another is between its load and its store,
-- `n + 1` hits leave it at 1.
pub num_probes_bounds :
    (a : Arch) (schedule : List ℕ) (i j n : ℕ)
    → (count_all a schedule no_hits).hits ≤ ulong_max a
    → i ≢ j
    → (((count_all a schedule no_hits).num_probes ≤ (count_all a schedule no_hits).hits)
        × (((count_all a schedule no_hits).hits ≡ 0)
            ⊎ (0 < (count_all a schedule no_hits).num_probes)))
      × ((count_all a (overtaken i j n) no_hits).hits ≡ n + 1)
      × ((count_all a (overtaken i j n) no_hits).num_probes ≡ 1)
unfolding count_all count_access
num_probes_bounds a schedule i j n few apart =
    let nothing : IsBehind a no_hits = record {
      behind = omega arith;
      some_hit = λ h. absurd (omega arith);
      loads = λ i v h. absurd (cc h);
    } in
    let b : IsBehind a (count_all a schedule no_hits) =
      count_all-IsBehind a schedule no_hits few nothing in
    let ji : (j == i) ≡ false = ground arith in
    let ij : (i == j) ≡ false = ground arith in
    let self : (i == i) ≡ true = ground arith in
    let lost = times_lem a i j 0 n (count_access a i none no_hits) ji (rw ij refl) (rw self refl) in
    let one : (0 + 1) % (ulong_max a + 1) ≡ 1 = one_mod a in
    ((b.behind, ground (arith, b.some_hit)), lost.1 ∙ omega arith, lost.0 ∙ one)
  where
    one_mod : (a : Arch) → (0 + 1) % (ulong_max a + 1) ≡ 1
    one_mod Arch.i386 = refl
    one_mod Arch.x86_64 = refl
    one_mod Arch.other = refl

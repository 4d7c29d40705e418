-- ===== src/Programs/Schedule/Run.antt =====
-- The threads of uthread.c under any schedule, on i386 with a probe on every function that they call.
use uprobe_tests.Base.{
  ℕ, suc, ◌+◌, ◌*◌, ◌-◌, ◌%◌, ◌≤◌, ◌<◌, ◌≡◌, ◌≢◌, ap, refl, ◌⊎◌, inl, inr, true, false, Option,
  none, some, List, [], ◌∷◌, ◌==◌, if◌then◌else◌, Bool-cases, arith, All,
}
use uprobe_tests.Kernel.{Kernel}
use uprobe_tests.Slot.{Probed}
use uprobe_tests.Slot.Memory.{Mem, i386, cell_mod}
use uprobe_tests.Programs.Tally.{Held-frame, StackApart, elsewhere}
use uprobe_tests.Programs.Schedule.{At, Thread, System, and_next, advance, put_back, step, run}
use uprobe_tests.Programs.Schedule.Sum.{sum, sum-change}
use uprobe_tests.Programs.Schedule.Alone.{ahead}
use uprobe_tests.Programs.Schedule.Together.{
  SlotsHold, Stands, calls_ahead, Moved, Goes, advance-Moved,
}

-- What `gettid`, `calloc` and the stacks give the first `n` threads.
pub record IsDisjoint (n : ℕ) (threads : ℕ → Thread) : Type 0 where
  pub small : (i : ℕ) → i < n → (threads i).tid < cell_mod
  pub stacks : (i j : ℕ) → i < n → j < n → StackApart (threads i).sp (threads j).table
  pub tables :
      (i j : ℕ)
      → i < n
      → j < n
      → i ≢ j
      → ((threads i).table + 50 ≤ (threads j).table) ⊎ ((threads j).table + 50 ≤ (threads i).table)

-- The threads stand well, and the hits counted since `b` are the calls made.
pub record Sound (total cnt n : ℕ) (threads : ℕ → Thread) (b : Probed) (y : System) : Type 0 where
  pub hits : ℕ
  pub stands : (i : ℕ) → i < n → Stands total cnt (threads i) (y.at i) y.shared.mem
  pub balance : hits + sum n (λ i. calls_ahead total cnt (y.at i)) ≡ sum n (λ i. cnt * total)
  pub counted : y.shared.world.num_probes % cell_mod ≡ (b.world.num_probes + hits) % cell_mod

abbrev pub start_with : Probed → System
start_with b = record { at = λ i. At.starting; shared = b }

pub start_with-Sound :
    (total cnt n : ℕ) (threads : ℕ → Thread) (b : Probed)
    → Sound total cnt n threads b (start_with b)
start_with-Sound total cnt n threads b = record {
  hits = 0;
  stands = λ i lt. tt;
  balance = omega arith;
  counted = omega arith;
}

slots_kept :
    (th : Thread) (f : ℕ → ℕ) (m m' : Mem)
    → ((q : ℕ) → th.table ≤ q → q ≤ th.table + 49 → m' q ≡ m q)
    → SlotsHold th f m
    → SlotsHold th f m'
slots_kept th f m m' same h id lt =
    Held-frame (th.table + id * 5) th.tid (f id) m m'
      (λ q lo hi. same q (omega arith) (omega arith)) (h id lt)

Stands-frame :
    (total cnt : ℕ) (th : Thread) (p : At) (m m' : Mem)
    → ((q : ℕ) → th.table ≤ q → q ≤ th.table + 49 → m' q ≡ m q)
    → Stands total cnt th p m
    → Stands total cnt th p m'
Stands-frame total cnt th At.starting m m' same h = tt
Stands-frame total cnt th (At.calling left ids error) m m' same h = record {
  started = h.started;
  i = h.i;
  n = h.n;
  rounds_left = h.rounds_left;
  to_call = h.to_call;
  round_size = h.round_size;
  no_call_first = h.no_call_first;
  no_error = h.no_error;
  slots = slots_kept th _ m m' same h.slots;
}
Stands-frame total cnt th (At.finished v) m m' same (e, h) = (e, slots_kept th _ m m' same h)

abbrev pub Survives : (System → Type 0) → Option System → Type 0
Survives P none = ⊥
Survives P (some y) = P y

pub Survives-mono :
    (P Q : System → Type 0) (o : Option System)
    → Survives P o
    → ((y : System) → P y → Q y)
    → Survives Q o
Survives-mono P Q none p weaken = absurd p
Survives-mono P Q (some y) p weaken = weaken y p

-- The steps that a schedule gives thread `i`.
abbrev pub times : ℕ → List ℕ → ℕ
times i [] = 0
times i (j ∷ schedule) = if j == i then suc (times i schedule) else times i schedule

module _ (K : Kernel) (total cnt n : ℕ) (threads : ℕ → Thread) (apart : IsDisjoint n threads)
    (fit : total ≤ 10) (few : cnt ≤ 2147483648) where
  -- Thread `i` has taken a step.
  record Stepped (b : Probed) (i : ℕ) (y y1 : System) : Type 0 where
    sound : Sound total cnt n threads b y1
    closer : ahead total cnt (y1.at i) ≡ ahead total cnt (y.at i) - 1
    rest : (j : ℕ) → j ≢ i → y1.at j ≡ y.at j

  -- The cells of one table are elsewhere for the thread of another.
  far :
      (i j q : ℕ)
      → i < n
      → j < n
      → i ≢ j
      → (threads j).table ≤ q
      → q ≤ (threads j).table + 49
      → elsewhere (threads i).sp (threads i).table q ≡ true
  far i j q lt j_lt differ lo hi =
      ground (arith, apart.stacks i j lt j_lt, apart.tables i j lt j_lt differ, lo, hi)

  put_back-Sound :
      (b : Probed) (i : ℕ) (y : System) (o : Option (At × Probed))
      → i < n
      → Sound total cnt n threads b y
      → Goes (Moved total cnt (threads i) (y.at i) y.shared) o
      → Survives (Stepped b i y) (put_back K i386 true total cnt y i o)
  put_back-Sound b i y none lt h g = absurd g
  put_back-Sound b i y (some (p, s)) lt h g =
      let itself : (i == i) ≡ true = ground arith in
      let not_i : (j : ℕ) → j ≢ i → (j == i) ≡ false = λ j differ. ground (arith, differ) in
      record {
        sound = record {
          hits = h.hits + g.hits;
          stands = λ j j_lt. stands_of j j_lt (y.at j) (h.stands j j_lt);
          balance =
              let moved =
                sum-change n i g.hits (λ j. calls_ahead total cnt (y.at j))
                  (λ j. calls_ahead total cnt (at1 j)) lt (rw itself g.made)
                  (λ j differ. rw (not_i j differ) refl) in
              omega (arith, h.balance, moved);
          counted = omega (arith, h.counted, g.counted);
        };
        closer = rw itself g.closer;
        rest = λ j differ. rw (not_i j differ) refl;
      }
    where
      at1 : ℕ → At
      at1 j = if j == i then p else y.at j

      stands_of :
          (j : ℕ)
          → j < n
          → (pj : At) → Stands total cnt (threads j) pj y.shared.mem
          → Stands total cnt (threads j) (if j == i then p else pj) s.mem
      stands_of j j_lt pj st = elim (Bool-cases (j == i)) [
        | inl same ↦ let j_i : j ≡ i = ground (arith, same) in rw (same, j_i) g.stands
        | inr differ ↦ rw differ (
            Stands-frame total cnt (threads j) pj y.shared.mem s.mem
              (λ q lo hi. g.others q (far i j q lt j_lt (ground (arith, differ)) lo hi)) st)
      ]

  step-Stepped :
      (b : Probed) (i : ℕ) (y : System)
      → i < n
      → Sound total cnt n threads b y
      → Survives (Stepped b i y) (step K i386 true total cnt threads i y)
  unfolding step
  step-Stepped b i y lt h =
      put_back-Sound b i y (advance K i386 true total cnt (threads i) (y.at i) y.shared) lt h (
        advance-Moved K total cnt (threads i) (apart.small i lt) (apart.stacks i i lt lt) fit few
          (y.at i) y.shared (h.stands i lt))

  -- After a schedule: what each thread has still to do is shorter by its steps.
  pub record Ran (b : Probed) (schedule : List ℕ) (y y1 : System) : Type 0 where
    pub sound : Sound total cnt n threads b y1
    pub closer : (i : ℕ) → ahead total cnt (y1.at i) ≡ ahead total cnt (y.at i) - times i schedule

  run_after :
      (b : Probed) (i : ℕ) (schedule : List ℕ) (y : System) (o : Option System)
      → Survives (Stepped b i y) o
      → ((y1 : System)
          → Sound total cnt n threads b y1
          → Survives (Ran b schedule y1) (run K i386 true total cnt threads schedule y1))
      → Survives (Ran b (i ∷ schedule) y) (and_next o (run K i386 true total cnt threads schedule))
  run_after b i schedule y none st later = absurd st
  run_after b i schedule y (some y1) st later =
      Survives-mono _ _ (run K i386 true total cnt threads schedule y1) (later y1 st.sound) (λ y2 r.
        record {
          sound = r.sound;
          closer = λ j. elim (Bool-cases (i == j)) [
            | inl same ↦
                let i_j : i ≡ j = ground (arith, same) in
                rw same (omega (arith, r.closer j, rw i_j at st.closer))
            | inr differ ↦
                let kept = ap (ahead total cnt) (st.rest j (ground (arith, differ))) in
                rw differ (omega (arith, r.closer j, kept))
          ];
        })

  pub run-Ran :
      (b : Probed) (schedule : List ℕ) (y : System)
      → All (λ i. i < n) schedule
      → Sound total cnt n threads b y
      → Survives (Ran b schedule y) (run K i386 true total cnt threads schedule y)
  unfolding run
  run-Ran b [] y all h = record { sound = h; closer = λ i. omega arith }
  run-Ran b (i ∷ schedule) y (lt, all) h =
      run_after b i schedule y (step K i386 true total cnt threads i y) (step-Stepped b i y lt h)
        (λ y1 h1. run-Ran b schedule y1 all h1)

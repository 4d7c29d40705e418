-- ===== src/Existing/Probe6/Report.antt =====
-- probe6.c put on probeme6.c: the calls of the program as the kernel brings them to the module's
-- handlers, and what the file `data` of debugfs is to say at the end.
pub mod Calls
pub mod Load
pub mod Steps
pub mod Whole
use uprobe_tests.Base.{
  ℕ, zero, suc, ◌+◌, ◌≡◌, refl, Bool, true, false, ◌&&◌, String, List, [], ◌∷◌, ◌++◌, map, All,
  arith, Bool-cases, inl, inr, ◌==◌, if◌then◌else◌,
}
use uprobe_tests.Kernel.{codes, Name, Arg, Handler, Kernel, World}
use uprobe_tests.Udbgfs.{test_printk, write_cleanup}
use uprobe_tests.Existing.Common.{inc}
use uprobe_tests.Existing.Infos.{Info, Infos}
use uprobe_tests.Existing.Probe6.{Params, no_probe, probes_init, count_entry, u_handler, child_exit}
use uprobe_tests.Existing.Probed.{Fn, End}
use uprobe_tests.Existing.Probed.Sums.{is_fn}

abbrev pub fn_name : Fn → String
fn_name Fn.add = "add"
fn_name Fn.subtract = "subtract"
fn_name Fn.bye = "bye"
fn_name Fn.adios = "adios"
fn_name Fn.au_revoir = "au_revoir"
fn_name Fn.auf_wiedersehen = "auf_wiedersehen"
fn_name Fn.arrivederci = "arrivederci"

-- Whether the array has an entry for the function.
abbrev pub has_entry : Fn → Bool
has_entry Fn.subtract = false
has_entry _ = true

-- Where the function stands in the program.
abbrev pub address : Kernel → Fn → ℕ
address K f = K.find_vaddr (codes (fn_name f))

-- The functions with an entry, and where their entries stand.
abbrev pub places : List (ℕ × Fn)
places =
    (10, Fn.add)
    ∷ (20, Fn.bye)
    ∷ (30, Fn.adios)
    ∷ (40, Fn.au_revoir)
    ∷ (50, Fn.auf_wiedersehen)
    ∷ (60, Fn.arrivederci)
    ∷ []

module _ (K : Kernel) (c : Params) where
  -- A call of the function at `v`: the handlers of the probes that are registered there run.
  unfoldable pub run_handlers : (v : ℕ) → List Info → Infos → Infos
  unfolding u_handler
  run_handlers v [] s = s
  run_handlers v (x ∷ xs) s =
      run_handlers v xs (if x.registered && x.u.vaddr == v then u_handler K c x s else s)

  unfoldable pub on_call : Fn → Infos → Infos
  unfolding run_handlers
  on_call f s = run_handlers (address K f) s.probes s

  -- The calls of a program, of which the newest stands first.
  unfoldable pub on_calls : List Fn → Infos → Infos
  unfolding on_call
  on_calls [] s = s
  on_calls (f ∷ older) s = on_call f (on_calls older s)

  -- The program ends, and a write to the file `cleanup` calls `child_exit`.
  unfoldable pub probe_and_report : (count : ℕ) → End → Infos → World
  unfolding on_calls child_exit
  probe_and_report count End.test_failed s = s.world
  probe_and_report count (End.exits status w) s =
      let hit = on_calls w.calls s in
      (write_cleanup K (λ v. (tt, (child_exit K c (record hit { world = v })).world)) count
        hit.world).1

  -- The array with every probe registered and these counts.
  abbrev pub armed_entry : (Fn → ℕ) → ℕ → Fn → Info
  armed_entry ns a f = record {
    fname = codes (fn_name f);
    ncalls = ns f;
    nret = 0;
    registered = true;
    u = record { addr = a; pid = c.pid; vaddr = address K f; handler = Handler.u_handler };
    rp = no_probe (a + 1);
  }

  abbrev pub armed_all : (Fn → ℕ) → List (ℕ × Fn) → List Info
  armed_all ns [] = []
  armed_all ns ((a, f) ∷ ps) = armed_entry ns a f ∷ armed_all ns ps

  abbrev pub armed : (Fn → ℕ) → List Info
  armed ns = armed_all ns places

  abbrev pub bump : Fn → (Fn → ℕ) → Fn → ℕ
  bump f ns g = if is_fn g f then inc (ns g) else ns g

  -- The functions that have a probe stand at different addresses.
  abbrev pub AreApart : Type 0
  AreApart = All (λ p. All (λ q. (address K q.1 == address K p.1) ≡ is_fn q.1 p.1) places) places

  -- `if (verbose) test_printk(…)` of the handler.
  abbrev pub told : Fn → World → World
  told f w =
      if c.verbose then (test_printk K "%s called\n" (Arg.str (codes (fn_name f)) ∷ []) w).1 else w

-- The lines of the module, each as its call of `test_printk`.
abbrev pub Line : Type 0
Line = String × List Arg

abbrev pub registering : Name → Line
registering name = ("Registering probes for %s\n", Arg.str name ∷ [])

abbrev pub lines : List Info → List Line
lines [] = []
lines (x ∷ xs) = registering x.fname ∷ lines xs

abbrev pub first_lines : List Line
first_lines = lines probes_init

abbrev pub called : Fn → Line
called f = ("%s called\n", Arg.str (codes (fn_name f)) ∷ [])

abbrev pub count_line : (Fn → ℕ) → Fn → Line
count_line ns f = ("probe6 %s=%d calls\n", Arg.str (codes (fn_name f)) ∷ Arg.num (ns f) ∷ [])

abbrev pub if_verbose : Params → List Line → List Line
if_verbose c ps = if c.verbose then ps else []

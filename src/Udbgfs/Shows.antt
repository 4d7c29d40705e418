-- ===== src/Udbgfs/Shows.antt =====
-- What a module's world shows in its debugfs file `data`, from `u_dbfs_init` on.
use uprobe_tests.Base.{
  ℕ, suc, ◌+◌, ◌<◌, String, ◌≡◌, refl, ◌∙◌, true, Option, none, some, List, [], ◌∷◌, ◌++◌, arith,
  length, length-append, is_zero, ap,
}
use mathlib.Core.List.{append-nil}
use uprobe_tests.Kernel.{Arg, Trace, Event, Kernel, World, DataBuf}
use uprobe_tests.Udbgfs.{
  data_buf_size, sizeof_print_buf, fresh_buf, u_dbfs_init, test_printk, SimpleRead,
}
use uprobe_tests.Udbgfs.Buffer.{
  IsVsnprintf, IsSimpleRead, IsLog, fresh_buf-IsLog, print_into-IsLog, texts, texts-append,
}
use uprobe_tests.Udbgfs.Whole.{read_to_end, read_to_end-IsLog}

pub record Shows (w : World) (log : List ℕ) : Type 0 where
  pub buf : DataBuf
  pub is_buf : w.print_buf ≡ some buf
  pub is_log : IsLog buf log

pub u_dbfs_init-Shows :
    (K : Kernel) (path : String) (w : World)
    → is_zero (u_dbfs_init K path w).0 ≡ true
    → Shows (u_dbfs_init K path w).1 []
unfolding u_dbfs_init
u_dbfs_init-Shows K path w ok =
    let d : ℕ = K.new_dir w.trace path in
    let t : Trace = Event.create_dir path d ∷ w.trace in
    let t' : Trace = Event.create_file "data" d (K.new_file t "data" d) ∷ t in
    let p : ℕ = K.alloc t' sizeof_print_buf in
    let q : ℕ = K.alloc (Event.kmalloc sizeof_print_buf p ∷ t') data_buf_size in
    record { buf = fresh_buf p q; is_buf = ground (arith, ok); is_log = fresh_buf-IsLog p q }

pub u_dbfs_init_entry :
    (K : Kernel) (path : String) (w : World) → (u_dbfs_init K path w).1.entry ≡ w.entry
unfolding u_dbfs_init
u_dbfs_init_entry K path w = ground arith

module _ {K : Kernel} {render : String → List Arg → List ℕ} (V : IsVsnprintf K render) where
  pub test_printk-Shows :
      (fmt : String) (args : List Arg) (w : World) (log : List ℕ)
      → Shows w log
      → length log + length (render fmt args) < data_buf_size
      → Shows (test_printk K fmt args w).1 (log ++ render fmt args)
  test_printk-Shows fmt args w log s fits = record {
    buf = _;
    is_buf = rw s.is_buf refl;
    is_log = print_into-IsLog V s.buf log fmt args s.is_log fits;
  }

  -- The same with the log given by the calls that made it.
  pub test_printk-Shows_texts :
      (fmt : String) (args : List Arg) (w : World) (ps : List (String × List Arg))
      → Shows w (texts render ps)
      → length (texts render (ps ++ (fmt, args) ∷ [])) < data_buf_size
      → Shows (test_printk K fmt args w).1 (texts render (ps ++ (fmt, args) ∷ []))
  unfolding texts
  test_printk-Shows_texts fmt args w ps s fits =
      let both : texts render (ps ++ (fmt, args) ∷ []) ≡ texts render ps ++ render fmt args =
        texts-append render ps ((fmt, args) ∷ [])
        ∙ ap (◌++◌ (texts render ps)) (append-nil (render fmt args)) in
      rw both (
        test_printk-Shows fmt args w (texts render ps) s
          (omega (arith, fits, ap length both, length-append (texts render ps) (render fmt args))))

-- The bytes that a user reads from the file `data`.
abbrev pub file_data : SimpleRead → (reads count : ℕ) → World → Option (List ℕ)
file_data simple_read reads count w = elim (w.print_buf) [
  | none ↦ none
  | some b ↦ read_to_end simple_read b reads count 0
]

pub file_data-Shows :
    {simple_read : SimpleRead} (S : IsSimpleRead simple_read) (reads c : ℕ) (w : World)
    (log : List ℕ)
    → Shows w log
    → length log < reads
    → file_data simple_read reads (suc c) w ≡ some log
file_data-Shows S reads c w log s enough =
    rw s.is_buf (read_to_end-IsLog S s.buf log reads c 0 s.is_log (omega arith))

-- ===== src/Kernel.antt =====
-- What the tests use of the kernel: an oracle that answers each call from the calls made before it,
-- and the state of the world that a module sees.
pub mod Count
use uprobe_tests.Base.{ℕ, String, ◌≡◌, Bool, true, false, Option, none, some, List, [], ◌∷◌, ℤ}
use Prim.Native.Char.{code}

-- A C string, without its final NUL.
abbrev pub Name : Type 0
Name = List ℕ

abbrev pub codes : String → Name
codes String.[] = []
codes (String.◌∷◌ c s) = code c ∷ codes s

-- The handlers that the modules put into their probes; `null_handler` is a field left zero.
pub data Handler : Type 0 where
  null_handler probe_handler suicide_handler add_inst steady blink : Handler
  register_all unregister_all : Handler
  entry_handler return_handler u_handler rp_handler : Handler

-- `struct uprobe` and the `u` of a `struct uretprobe`: `addr` is the address of the structure.
pub record Uprobe : Type 0 where
  pub addr : ℕ
  pub pid : ℕ
  pub vaddr : ℕ
  pub handler : Handler

-- An argument of a format.
pub data Arg : Type 0 where
  num : ℕ → Arg
  int : ℤ → Arg
  str : Name → Arg

-- A call of the kernel, with its answer last.
pub data Event : Type 0 where
  kmalloc : (size ptr : ℕ) → Event
  kfree : (ptr : ℕ) → Event
  create_dir : (name : String) (dentry : ℕ) → Event
  create_file : (name : String) (dir dentry : ℕ) → Event
  remove : (dentry : ℕ) → Event
  copy_from_user : (len left : ℕ) → Event
  uprobe_register : (inode offset consumer : ℕ) → Handler → ℤ → Event
  uprobe_unregister : (inode offset consumer : ℕ) → Event
  register_uprobe : Uprobe → ℤ → Event
  unregister_uprobe : Uprobe → Event
  register_uretprobe : Uprobe → ℤ → Event
  unregister_uretprobe : Uprobe → Event
  init_uretprobes : (pid tramp : ℕ) → ℤ → Event
  kern_path : Name → Option ℕ → Event
  do_exit : (signal : ℕ) → Event

-- The calls made so far, the latest first.
abbrev pub Trace : Type 0
Trace = List Event

-- What `vsnprintf` returns and what it stores, the NUL included.
pub record Written : Type 0 where
  pub len : ℕ
  pub stored : List ℕ

-- `kern_path` gives the inode that the path leads to, or fails; a pointer 0 is NULL. `find_vaddr` is
-- generated with the symbol table of the probed program.
pub record Kernel : Type 0 where
  pub alloc : Trace → ℕ → ℕ
  pub new_dir : Trace → String → ℕ
  pub new_file : Trace → String → ℕ → ℕ
  pub copy : Trace → ℕ → ℕ
  pub uregister : Trace → ℕ → ℕ → ℕ → Handler → ℤ
  pub register : Trace → Uprobe → ℤ
  pub register_ret : Trace → Uprobe → ℤ
  pub init_ret : Trace → ℕ → ℕ → ℤ
  pub path : Trace → Name → Option ℕ
  pub find_vaddr : Name → ℕ
  pub lookup_name : String → ℕ
  pub vsnprintf : ℕ → String → List Arg → Written

-- `struct data_buf_info`: `cur` is an offset from `data`, and `bytes` is the block at `data`.
pub record DataBuf : Type 0 where
  pub ptr : ℕ
  pub bytes_in_buf : ℕ
  pub bytes_left : ℕ
  pub cur : ℕ
  pub data_ptr : ℕ
  pub bytes : List ℕ

-- The calls so far, the static variables of udbgfs.c and `num_probes` of u_mod_common.h; `none` for `print_buf` is NULL or a freed
-- block, and `oops` is set when such a pointer is followed: what is computed after that means nothing.
pub record World : Type 0 where
  pub trace : Trace
  pub print_buf : Option DataBuf
  pub data_file : ℕ
  pub cleanup_file : ℕ
  pub dir : ℕ
  pub entry : ℕ
  pub num_probes : ℕ
  pub oops : Bool

abbrev pub Io : Type 0 → Type 0
Io A = World → A × World

abbrev pub pure : {A : Type 0} → A → Io A
pure a w = (a, w)

infixl 5 ◌>>=◌ ◌>>◌
abbrev pub ◌>>=◌ : {A B : Type 0} → Io A → (A → Io B) → Io B
◌>>=◌ m f w = let r = m w in f r.0 r.1

abbrev pub ◌>>◌ : {A B : Type 0} → Io A → Io B → Io B
m >> k = m >>= λ _. k

-- A call that gives no answer.
abbrev pub call : Event → Io (Unit {0})
call e w = (tt, record w { trace = e ∷ w.trace })

module _ (K : Kernel) where
  abbrev pub kmalloc_call : ℕ → Io ℕ
  kmalloc_call size w =
      let p = K.alloc w.trace size in (p, record w { trace = Event.kmalloc size p ∷ w.trace })

  abbrev pub create_dir_call : String → Io ℕ
  create_dir_call name w =
      let d = K.new_dir w.trace name in (d, record w { trace = Event.create_dir name d ∷ w.trace })

  abbrev pub create_file_call : String → ℕ → Io ℕ
  create_file_call name dir w =
      let d = K.new_file w.trace name dir in
      (d, record w { trace = Event.create_file name dir d ∷ w.trace })

  abbrev pub copy_call : ℕ → Io ℕ
  copy_call len w =
      let n = K.copy w.trace len in (n, record w { trace = Event.copy_from_user len n ∷ w.trace })

  abbrev pub uprobe_register_call : ℕ → ℕ → ℕ → Handler → Io ℤ
  uprobe_register_call inode offset consumer h w =
      let r = K.uregister w.trace inode offset consumer h in
      (r, record w { trace = Event.uprobe_register inode offset consumer h r ∷ w.trace })

  abbrev pub register_call : Uprobe → Io ℤ
  register_call u w =
      let r = K.register w.trace u in (r, record w { trace = Event.register_uprobe u r ∷ w.trace })

  abbrev pub register_ret_call : Uprobe → Io ℤ
  register_ret_call u w =
      let r = K.register_ret w.trace u in
      (r, record w { trace = Event.register_uretprobe u r ∷ w.trace })

  abbrev pub init_ret_call : ℕ → ℕ → Io ℤ
  init_ret_call pid tramp w =
      let r = K.init_ret w.trace pid tramp in
      (r, record w { trace = Event.init_uretprobes pid tramp r ∷ w.trace })

  abbrev pub kern_path_call : Name → Io (Option ℕ)
  kern_path_call p w =
      let r = K.path w.trace p in (r, record w { trace = Event.kern_path p r ∷ w.trace })

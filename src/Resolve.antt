-- ===== src/Resolve.antt =====
-- include/uprobes-inode.c: the addresses of the kernel functions that are not exported.
pub mod Laws
use uprobe_tests.Base.{
  ℕ, String, Bool, true, false, not, ◌&&◌, ◌==◌, if◌then◌else◌, ℤ, pos, minus_one,
}

-- The macros of the build; `CONFIG_UPROBES` is always set, since without it the file does not compile.
pub record Config : Type 0 where
  pub regset_view_exported : Bool
  pub utrace_regset : Bool
  pub register_exported : Bool
  pub unregister_exported : Bool
  pub get_swbp_addr_exported : Bool

-- The four static pointers.
pub record Pointers : Type 0 where
  pub regset_view : ℕ
  pub register : ℕ
  pub unregister : ℕ
  pub get_swbp_addr : ℕ

-- A name, and the older name where the first is not known.
unfoldable pub lookup_either : (String → ℕ) → String → String → ℕ
lookup_either lookup new old = if lookup new == 0 then lookup old else lookup new

module _ (lookup : String → ℕ) (cfg : Config) where
  unfoldable pub resolve_swbp : Pointers → ℤ × Pointers
  resolve_swbp p =
      if cfg.get_swbp_addr_exported
      then (pos 0, p)
      else (let a = lookup "uprobe_get_swbp_addr" in
          (if a == 0 then minus_one else pos 0, record p { get_swbp_addr = a }))

  unfoldable pub resolve_unregister : Pointers → ℤ × Pointers
  unfolding lookup_either resolve_swbp
  resolve_unregister p =
      if cfg.unregister_exported
      then resolve_swbp p
      else (let a = lookup_either lookup "uprobe_unregister" "unregister_uprobe" in
          if a == 0
          then (minus_one, record p { unregister = a })
          else resolve_swbp (record p { unregister = a }))

  unfoldable pub resolve_register : Pointers → ℤ × Pointers
  unfolding lookup_either resolve_unregister
  resolve_register p =
      if cfg.register_exported
      then resolve_unregister p
      else (let a = lookup_either lookup "uprobe_register" "register_uprobe" in
          if a == 0
          then (minus_one, record p { register = a })
          else resolve_unregister (record p { register = a }))

  -- `_init_uprobe`. A missing `task_user_regset_view` is no error.
  unfoldable pub init_uprobe : Pointers → ℤ × Pointers
  unfolding resolve_register
  init_uprobe p = resolve_register (
      if not cfg.regset_view_exported && not cfg.utrace_regset
      then record p { regset_view = lookup "task_user_regset_view" }
      else p)

-- ===== src/Resolve/Laws.antt =====
-- `_init_uprobe` succeeds just when every pointer that it needs is found.
use uprobe_tests.Base.{
  ℕ, String, ◌≡◌, ◌≢◌, Bool, false, not, ◌&&◌, ◌||◌, ◌==◌, arith, if◌then◌else◌, pos, minus_one,
}
use uprobe_tests.Resolve.{Config, Pointers, lookup_either, init_uprobe}

-- A function is exported, or known under one of two names.
abbrev pub found : (String → ℕ) → Bool → String → String → Bool
found lookup exported new old = exported || not (lookup new == 0) || not (lookup old == 0)

module _ (lookup : String → ℕ) (cfg : Config) (p : Pointers) where
  -- `_init_uprobe` returns 0 if the registration and the removal of a probe are each exported or
  -- found under their new or their old name, and `uprobe_get_swbp_addr` is exported or found;
  -- otherwise it returns -1. Neither depends on `task_user_regset_view`.
  pub init_uprobe-found : (init_uprobe lookup cfg p).0 ≡ (
      if found lookup cfg.register_exported "uprobe_register" "register_uprobe"
        && found lookup cfg.unregister_exported "uprobe_unregister" "unregister_uprobe"
        && (cfg.get_swbp_addr_exported || not (lookup "uprobe_get_swbp_addr" == 0))
      then pos 0
      else minus_one)
  unfolding init_uprobe
  init_uprobe-found = ground arith

  -- When `_init_uprobe` returns 0 and neither function is exported, the pointers that the module's
  -- registrations and removals go through are not NULL, and each is the address of the new name
  -- where that is known, and else of the old one.
  pub init_uprobe_pointers :
      (init_uprobe lookup cfg p).0 ≡ pos 0
      → cfg.register_exported ≡ false
      → cfg.unregister_exported ≡ false
      → ((init_uprobe lookup cfg p).1.register ≢ 0)
        × ((init_uprobe lookup cfg p).1.unregister ≢ 0)
        × ((init_uprobe lookup cfg p).1.register
            ≡ lookup_either lookup "uprobe_register" "register_uprobe")
        × ((init_uprobe lookup cfg p).1.unregister
            ≡ lookup_either lookup "uprobe_unregister" "unregister_uprobe")
  unfolding init_uprobe
  init_uprobe_pointers e r u = (ground arith, ground arith, ground arith, ground arith)

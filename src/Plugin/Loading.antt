-- ===== src/Plugin/Loading.antt =====
-- What loading and unloading does to the plugins of src/base/plugin.cpp.
use mifsa_base.Base.{
  ℕ, true, false, ◌||◌, List, [], ◌∷◌, ◌++◌, Option, none, some, ◌≡◌, refl, Bytes, equal,
  equal_refl, if_elim,
}
use mifsa_base.Plugin.{
  Plugin, Libraries, Opened, thrown, null_function, function, has_loaded, holds_id, load, unload,
  erase_id, is_empty, plugin_path, create_handle, keep_handle,
}

-- What a shared object that was opened makes for an id and a version.
abbrev pub created : Opened → Bytes → ℕ → ℕ → Option ℕ
created (function create) id major minor = create id major minor
created _ id major minor = none

-- Nothing is loaded and nothing changes, for one of four reasons; or a plugin that was not loaded is, with
-- the handle that was made, and the others stay.
pub data Loads (id path : Bytes) (made : Option ℕ) (p : Plugin) : Option ℕ × Plugin → Type 0 where
  no_id : id ≡ [] → Loads id path made p (none, p)
  loaded_before : has_loaded p id ≡ true → Loads id path made p (none, p)
  no_file : path ≡ [] → Loads id path made p (none, p)
  no_handle : made ≡ none → Loads id path made p (none, p)
  loads :
      (handle : ℕ) (q : Plugin)
      → made ≡ some handle
      → is_empty id ≡ false
      → is_empty path ≡ false
      → has_loaded p id ≡ false
      → ((j : Bytes) → has_loaded q j ≡ (equal id j || has_loaded p j))
      → (unload id q ≡ (true, p))
      → Loads id path made p (some handle, q)

is_empty_lem : (s : Bytes) → is_empty s ≡ true → s ≡ []
is_empty_lem [] e = refl
is_empty_lem (c ∷ s) e = absurd cc

unload-new :
    (id path : Bytes) (p : Plugin)
    → is_empty id ≡ false
    → unload id (record { plugins = (id, path) ∷ p.plugins }) ≡ (true, p)
unfolding unload has_loaded holds_id erase_id
unload-new id path p e = rw (e, equal_refl id) refl

keep_handle-Loads :
    (id path : Bytes) (made : Option ℕ) (p : Plugin)
    → is_empty id ≡ false
    → is_empty path ≡ false
    → has_loaded p id ≡ false
    → Loads id path made p (keep_handle id path made p)
unfolding has_loaded holds_id
keep_handle-Loads id path none p e there new = no_handle refl
keep_handle-Loads id path (some handle) p e there new =
    loads handle _ refl e there new
      (λ j.
        if_elim (λ r. r ≡ (equal id j || holds_id j p.plugins)) (equal id j) (λ h. rw h refl)
          (λ h. rw h refl))
      (unload-new id path p e)

create_handle-Loads :
    (id path : Bytes) (opened : Opened) (major minor : ℕ) (p : Plugin)
    → is_empty id ≡ false
    → is_empty path ≡ false
    → has_loaded p id ≡ false
    → Loads id path (created opened id major minor) p (create_handle id path opened major minor p)
create_handle-Loads id path thrown major minor p e there new = no_handle refl
create_handle-Loads id path null_function major minor p e there new = no_handle refl
create_handle-Loads id path (function create) major minor p e there new =
    keep_handle-Loads id path (create id major minor) p e there new

-- `load` gives no handle and changes nothing where the id is empty or loaded already, or no shared object is
-- found, or it makes no handle; otherwise it gives the handle that was made, the id is loaded
-- besides those that were, and `unload` of it leads back.
pub load-Loads :
    (L : Libraries) (id lib_name : Bytes) (search_paths : List Bytes)
    (dir_name function_name : Bytes) (major minor : ℕ) (p : Plugin)
    → Loads id
        (plugin_path L.exists dir_name (lib_name ++ L.suffix) search_paths)
        (created
          (L.open_function
            (plugin_path L.exists dir_name (lib_name ++ L.suffix) search_paths)
            function_name)
          id
          major
          minor)
        p
        (load L id lib_name search_paths dir_name function_name major minor p)
unfolding load
load-Loads L id lib_name search_paths dir_name function_name major minor p =
    let path = plugin_path L.exists dir_name (lib_name ++ L.suffix) search_paths in
    let opened = L.open_function path function_name in
    let goal = Loads id path (created opened id major minor) p in
    if_elim goal (is_empty id) (λ e. no_id (is_empty_lem id e))
      (λ e. if_elim goal (has_loaded p id) loaded_before (λ new.
        if_elim goal (is_empty path) (λ gone. no_file (is_empty_lem path gone))
          (λ there. create_handle-Loads id path opened major minor p e there new)))

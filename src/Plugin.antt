-- ===== src/Plugin.antt =====
-- src/base/plugin.cpp with include/mifsa/base/plugin.h. The library that opens shared objects
-- (src/importlib/dylib.hpp) and the file system are the parameter `Libraries`.
pub mod Loading
use mifsa_base.Base.{
  ℕ, Bool, true, false, not, ◌&&◌, List, [], ◌∷◌, ◌++◌, Option, none, some, Bytes, codes, equal,
  if◌then◌else◌,
}

-- What opening a shared object and looking up a function in it gives: an exception, a null pointer, or a
-- function from an id and two version numbers to a handle, which is null or an address.
pub data Opened : Type 0 where
  thrown null_function : Opened
  function : (Bytes → ℕ → ℕ → Option ℕ) → Opened

pub record Libraries : Type 0 where
  pub suffix : Bytes
  pub exists : Bytes → Bool
  pub open_function : Bytes → Bytes → Opened

-- `pluginMap`, as the pairs of an id and the path of its shared object, of which none has an id twice.
pub record Plugin : Type 0 where
  pub plugins : List (Bytes × Bytes)

abbrev pub make_plugin : Plugin
make_plugin = record { plugins = [] }

abbrev pub default_search_path : List Bytes
default_search_path =
    codes "."
    ∷ codes "/lib64"
    ∷ codes "/lib"
    ∷ codes "../lib64"
    ∷ codes "../lib"
    ∷ codes "./lib64"
    ∷ codes "./lib"
    ∷ []

unfoldable pub clear : Plugin → Plugin
clear p = record { plugins = [] }

unfoldable pub holds_id : Bytes → List (Bytes × Bytes) → Bool
holds_id id [] = false
holds_id id ((j, path) ∷ rest) = if equal j id then true else holds_id id rest

unfoldable pub has_loaded : Plugin → Bytes → Bool
unfolding holds_id
has_loaded p id = holds_id id p.plugins

unfoldable pub erase_id : Bytes → List (Bytes × Bytes) → List (Bytes × Bytes)
erase_id id [] = []
erase_id id ((j, path) ∷ rest) = if equal j id then rest else (j, path) ∷ erase_id id rest

abbrev pub is_empty : Bytes → Bool
is_empty [] = true
is_empty (c ∷ s) = false

unfoldable pub unload : Bytes → Plugin → Bool × Plugin
unfolding has_loaded erase_id
unload id p =
    if is_empty id
    then (false, p)
    else if not (has_loaded p id)
    then (false, p)
    else (true, record { plugins = erase_id id p.plugins })

-- The loop over the search paths: the second place has no slash between the path and the name.
unfoldable pub plugin_path : (Bytes → Bool) → Bytes → Bytes → List Bytes → Bytes
plugin_path exists dir_name plugin_name [] = []
plugin_path exists dir_name plugin_name (path ∷ paths) =
    if not (is_empty dir_name) && exists (path ++ b'/' ∷ dir_name ++ b'/' ∷ plugin_name)
    then path ++ b'/' ∷ dir_name ++ b'/' ∷ plugin_name
    else if exists (path ++ plugin_name)
    then path ++ plugin_name
    else plugin_path exists dir_name plugin_name paths

abbrev pub keep_handle : Bytes → Bytes → Option ℕ → Plugin → Option ℕ × Plugin
keep_handle id path none p = (none, p)
keep_handle id path (some handle) p = (some handle, record { plugins = (id, path) ∷ p.plugins })

abbrev pub create_handle : Bytes → Bytes → Opened → ℕ → ℕ → Plugin → Option ℕ × Plugin
create_handle id path thrown major minor p = (none, p)
create_handle id path null_function major minor p = (none, p)
create_handle id path (function create) major minor p =
    keep_handle id path (create id major minor) p

-- `load`: the handle, or none, and the plugins.
unfoldable pub load :
    Libraries → Bytes → Bytes → List Bytes → Bytes → Bytes → ℕ → ℕ → Plugin → Option ℕ × Plugin
unfolding has_loaded plugin_path
load L id lib_name search_paths dir_name function_name major minor p =
    if is_empty id
    then (none, p)
    else if has_loaded p id
    then (none, p)
    else let path = plugin_path L.exists dir_name (lib_name ++ L.suffix) search_paths in
      if is_empty path
      then (none, p)
      else create_handle id path (L.open_function path function_name) major minor p

-- ===== src/Module/Platform.antt =====
-- include/mifsa/module/platform.hpp: a platform is a plugin that checks its id and version.
use mifsa_base.Base.{
  ℕ, ◌≤◌, true, not, ◌||◌, List, [], ◌∷◌, ◌++◌, Option, none, some, ◌≡◌, ◌≢◌, refl, ◌↔◌, arith,
  Bytes, codes, equal, equal_iff, ltb, ◌==◌, if◌then◌else◌,
}
use mifsa_base.Plugin.{Plugin, Libraries, load, is_empty, default_search_path}

-- `createPlatform` of an implementation: its id, its version, and the address of a new object.
unfoldable pub create_platform : Bytes → ℕ → ℕ → ℕ → Bytes → ℕ → ℕ → Option ℕ
create_platform real_id rv_major rv_minor new plugin_id version_major version_minor =
    if is_empty real_id || not (equal real_id plugin_id)
    then none
    else if not (rv_major == version_major) || ltb rv_minor version_minor
    then none
    else some new

-- `PlatformProxy`: its plugins and its platform.
pub record PlatformProxy : Type 0 where
  pub plugin : Plugin
  pub platform : Option ℕ

abbrev pub search_path : Option Bytes → List Bytes
search_path none = default_search_path
search_path (some path) = path ∷ default_search_path

-- The exit of the program, or the proxy with its platform.
pub data LoadEnd : Type 0 where
  exits : LoadEnd
  continues : PlatformProxy → LoadEnd

abbrev pub with_platform : Option ℕ × Plugin → LoadEnd
with_platform (none, p) = exits
with_platform (some handle, p) = continues (record { plugin = p; platform = some handle })

-- `loadPlatform`; `path` is `getenv ("MIFSA_PLATFORM_PATH")`. A platform that is already there is a
-- warning only.
unfoldable pub load_platform :
    Libraries → Bytes → Option Bytes → Bytes → Bytes → ℕ → ℕ → PlatformProxy → LoadEnd
unfolding load
load_platform L plugin_id path lib_name platform_name version_major version_minor proxy =
    with_platform (
      load L plugin_id (codes "mifsa_" ++ lib_name ++ codes "_platform_" ++ platform_name)
        (search_path path) (codes "mifsa") (codes "create_mifsa_handle") version_major version_minor
        proxy.plugin)

id_test : (c : ℕ) (id plugin_id : Bytes) → (equal (c ∷ id) plugin_id ≡ true) ↔ (c ∷ id ≡ plugin_id)
id_test c id plugin_id = equal_iff (c ∷ id) plugin_id

-- A platform is made exactly for its own id, which is not empty, its own major version, and a minor version
-- that is not newer than its own.
pub create_platform_iff :
    (real_id : Bytes) (rv_major rv_minor new : ℕ) (plugin_id : Bytes)
    (version_major version_minor : ℕ)
    → (create_platform real_id rv_major rv_minor new plugin_id version_major version_minor
        ≡ some new)
      ↔ ((real_id ≢ [])
          × (real_id ≡ plugin_id)
          × (rv_major ≡ version_major)
          × (version_minor ≤ rv_minor))
unfolding create_platform
create_platform_iff [] rv_major rv_minor new plugin_id version_major version_minor =
    (λ h. absurd cc, λ h. absurd (h.0 refl))
create_platform_iff (c ∷ id) rv_major rv_minor new plugin_id version_major version_minor = (
  λ h. (λ e. absurd cc, ground (arith, id_test c id plugin_id), ground arith, ground arith),
  λ h. ground (arith, id_test c id plugin_id, h.1, h.2, h.3),
)

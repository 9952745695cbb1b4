-- ===== src/Host.antt =====
-- src/utils/host.cpp: what it does with the answers of the operating system, which are arguments.
pub mod Exe
use mifsa_base.Base.{
  ℕ, zero, suc, ◌+◌, ◌-◌, Bool, true, false, not, ◌&&◌, ◌||◌, List, [], ◌∷◌, ◌++◌, Option, none,
  some, Bytes, codes, equal, if◌then◌else◌, ◌==◌, length, take, drop,
}

-- `getExePath`, not on Windows: `link` is what `readlink` or the file gave, if they gave anything.
unfoldable pub get_exe_path : Option Bytes → Bytes
get_exe_path none = codes "./"
get_exe_path (some link) = link

-- `rfind ('/')`, from the position `i` of the string on.
unfoldable pub rfind_slash : Bytes → ℕ → Option ℕ
rfind_slash [] i = none
rfind_slash (c ∷ s) i = elim (rfind_slash s (i + 1)) [
  | none ↦ if c == b'/' then some i else none
  | some j ↦ some j
]

-- `substr (0, npos)` is the whole string, and `npos + 1` is 0.
abbrev pub dir_at : Bytes → Option ℕ → Bytes
dir_at path none = path
dir_at path (some pos) = take pos path

abbrev pub name_at : Bytes → Option ℕ → Bytes
name_at path none = path
name_at path (some pos) = drop (pos + 1) path

abbrev pub or_exe : Bytes → Bytes → Bytes
or_exe exe [] = exe
or_exe exe (c ∷ path) = c ∷ path

unfoldable pub get_exe_dir : Bytes → Bytes → Bytes
unfolding rfind_slash
get_exe_dir exe path = dir_at (or_exe exe path) (rfind_slash (or_exe exe path) 0)

unfoldable pub get_exe_name : Bytes → Bytes → Bytes
unfolding rfind_slash
get_exe_name exe path = name_at (or_exe exe path) (rfind_slash (or_exe exe path) 0)

-- `ifconfig_t`
pub record Ifconfig : Type 0 where
  pub name : Bytes
  pub ip : Bytes
  pub mask : Bytes
  pub mac : Bytes

-- The test that `_ifconfig` leaves an interface out by.
abbrev pub is_left_out : Ifconfig → Bool
is_left_out dev =
    equal dev.ip (codes "0.0.0.0")
    || equal dev.ip (codes "127.0.0.1")
    || equal dev.mac (codes "00:00:00:00:00:00")

-- The end of the loop of `_ifconfig`, over the interfaces that the system names.
unfoldable pub kept_devices : List Ifconfig → List Ifconfig
kept_devices [] = []
kept_devices (dev ∷ devs) = if is_left_out dev then kept_devices devs else dev ∷ kept_devices devs

-- The loop of `getIpAddress`.
unfoldable pub find_ip : Bytes → List Ifconfig → Bytes
find_ip eth_name [] = []
find_ip [] (dev ∷ devs) = dev.ip
find_ip (c ∷ eth_name) (dev ∷ devs) =
    if equal dev.name (c ∷ eth_name) then dev.ip else find_ip (c ∷ eth_name) devs

-- `getIpAddress`; the interfaces are none where `_ifconfig` fails.
unfoldable pub get_ip_address : Option (List Ifconfig) → Bytes → Bytes
unfolding kept_devices find_ip
get_ip_address none eth_name = []
get_ip_address (some devs) eth_name = find_ip eth_name (kept_devices devs)

-- `getEnvironment`, not on Windows: `getenv` is the argument.
unfoldable pub get_environment : (Bytes → Option Bytes) → Bytes → Bytes → Bytes
get_environment getenv key default = elim (getenv key) [ none ↦ default | some value ↦ value ]

-- ===== src/Tests/Systems.antt =====
-- The directories, the plugins, the host, the application and the modules.
use mifsa_base.Base.{
  ℕ, true, false, List, [], ◌∷◌, ◌++◌, Option, some, none, ◌≡◌, refl, Bytes, codes, equal, drop,
  if◌then◌else◌,
}
use mifsa_base.Base.Int.{ℤ, pos, pos_part}
use mifsa_base.Dir.{
  Files, Listing, file, directory, exists, get_dirs_by_name, get_all_files, remove_sub_old_dirs,
  get_cfg_path, cut_slash, paths_of, get_by_name, remove_from, remove_all, progress_all,
  progress_entries,
}
use mifsa_base.Dir.Removal.{remove_each, remove_sub_old_dirs-drop}
use mifsa_base.Plugin.{Libraries, function, make_plugin, load, plugin_path}
use mifsa_base.Plugin.Loading.{Loads, load-Loads}
use mifsa_base.Host.{Ifconfig, get_exe_dir, get_exe_name, get_ip_address, or_exe}
use mifsa_base.Host.Exe.{IsSplit, get_exe_dir-get_exe_name}
use mifsa_base.Variant.Data.{int}
use mifsa_base.Application.{Arg, Options, invalid, absent, found, get_arg_value}
use mifsa_base.Module.Platform.{create_platform}

-- A file system in which a path is the byte of its name: directory 1 holds directory 2 and file 3, and
-- directory 2 holds file 4. The disk is the list of the directories that were removed.
abbrev entries : List ℕ → Bytes → Listing
entries gone path =
    if equal path (1 ∷ [])
    then record {
      found =
          record { path = 2 ∷ []; kind = directory } ∷ record { path = 3 ∷ []; kind = file } ∷ [];
      ended = true;
    }
    else if equal path (2 ∷ [])
    then record { found = record { path = 4 ∷ []; kind = file } ∷ []; ended = true }
    else record { found = []; ended = false }

abbrev number : Bytes → Option ℤ
number [] = none
number (c ∷ s) = some (pos c)

abbrev files : Files
files = record {
  Disk = List ℕ;
  entries = entries;
  exists = λ d path. some true;
  create_directories = λ d path. (some true, d);
  remove = λ d path. (some true, path ++ d);
  remove_all = λ d path. (some 1, path ++ d);
  is_regular_file = λ d path. some false;
  is_directory = λ d path. some true;
  extension = λ path. [];
  stem = λ path. path;
  filename = λ path. path;
  number = number;
  sort = λ less paths. paths;
  temp_directory_path = some (codes "/tmp/");
}

all_files : get_all_files files 2 [] (1 ∷ []) [] ≡ some ((4 ∷ []) ∷ (3 ∷ []) ∷ [])
unfolding get_all_files progress_all progress_entries equal
all_files = refl

temp_dir : cut_slash (codes "/tmp/") ≡ some (codes "/tmp")
unfolding cut_slash
temp_dir = refl

old_dirs : remove_sub_old_dirs files [] (1 ∷ []) (pos 0) ≡ 2 ∷ []
unfolding remove_sub_old_dirs remove_from remove_all get_dirs_by_name get_by_name paths_of exists
    equal
old_dirs = refl

-- The configuration is looked for in `/etc` after three relative places.
cfg_path :
    get_cfg_path (λ path. equal path (codes "/etc/a")) (λ key. []) (codes "a") [] []
    ≡ codes "/etc/a"
unfolding get_cfg_path equal
cfg_path = refl

remove_sub_old_dirs-drop_example : remove_sub_old_dirs files [] (1 ∷ []) (pos 0) ≡ (
    if exists files [] (1 ∷ [])
    then remove_each files (drop (pos_part (pos 0)) (get_dirs_by_name files [] (1 ∷ []) true)) []
    else [])
remove_sub_old_dirs-drop_example = remove_sub_old_dirs-drop files [] (1 ∷ []) (pos 0)

-- Shared objects in one place, which make the handle 9 for any id.
abbrev libraries : Libraries
libraries = record {
  suffix = codes ".so";
  exists = λ path. equal path (codes "./mifsa/x.so");
  open_function = λ path name. function (λ id major minor. some 9);
}

load_x :
    (load libraries
      (codes "id")
      (codes "x")
      (codes "." ∷ [])
      (codes "mifsa")
      (codes "f")
      1
      0
      make_plugin).0
    ≡ some 9
unfolding load equal
load_x = refl

load-Loads_example :
    Loads
      (codes "id")
      (plugin_path libraries.exists (codes "mifsa") (codes "x" ++ codes ".so") (codes "." ∷ []))
      (some 9)
      make_plugin
      (load libraries
        (codes "id")
        (codes "x")
        (codes "." ∷ [])
        (codes "mifsa")
        (codes "f")
        1
        0
        make_plugin)
load-Loads_example =
    load-Loads libraries (codes "id") (codes "x") (codes "." ∷ []) (codes "mifsa") (codes "f") 1 0
      make_plugin

get_exe_dir-get_exe_name_example :
    IsSplit
      (or_exe (codes "/usr/bin/mifsa") [])
      (get_exe_dir (codes "/usr/bin/mifsa") [])
      (get_exe_name (codes "/usr/bin/mifsa") [])
get_exe_dir-get_exe_name_example = get_exe_dir-get_exe_name (codes "/usr/bin/mifsa") []

exe_parts :
    (get_exe_dir (codes "/usr/bin/mifsa") [] ≡ codes "/usr/bin")
    × (get_exe_name (codes "/usr/bin/mifsa") [] ≡ codes "mifsa")
unfolding get_exe_dir get_exe_name
exe_parts = (refl, refl)

abbrev loopback : Ifconfig
loopback = record { name = codes "lo"; ip = codes "127.0.0.1"; mask = []; mac = [] }

abbrev ethernet : Ifconfig
ethernet = record { name = codes "eth0"; ip = codes "10.0.0.2"; mask = []; mac = [] }

first_address : get_ip_address (some (loopback ∷ ethernet ∷ [])) [] ≡ codes "10.0.0.2"
unfolding get_ip_address equal
first_address = refl

-- One option, an integer.
abbrev options : Options
options = record {
  get_bool = λ name. invalid;
  get_int = λ name. found (pos 5);
  get_double = λ name. invalid;
  get_string = λ name. invalid;
  get_switch = λ name. absent;
}

abbrev count_arg : Arg
count_arg = record {
  short_name = codes "c";
  long_name = codes "count";
  description = [];
  default_value = int (pos 1);
}

count_value : get_arg_value options count_arg ≡ int (pos 5)
unfolding get_arg_value
count_value = refl

platform_made : create_platform (codes "p") 1 4 7 (codes "p") 1 2 ≡ some 7
unfolding create_platform equal
platform_made = refl

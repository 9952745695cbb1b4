-- ===== src/Log.antt =====
-- src/base/log.cpp with include/mifsa/base/log.h, built without DLT: the streams, their mutex, and what is
-- written to the console. What `operator<<` writes of a value is its text.
pub mod Printing
use mifsa_base.Base.{
  ℕ, Bool, true, false, not, List, [], ◌∷◌, ◌++◌, Option, none, some, Bytes, codes, ◌==◌,
  if◌then◌else◌,
}

pub data Stream : Type 0 where
  debug warning critical property : Stream

pub data Console : Type 0 where
  out err : Console

-- `mifsaLogMutex_`, the four streams, and what the console has got so far.
pub record Log : Type 0 where
  pub locked : Bool
  pub debug_text : Bytes
  pub warning_text : Bytes
  pub critical_text : Bytes
  pub property_text : Bytes
  pub console : List (Console × Bytes)

abbrev pub text : Stream → Log → Bytes
text debug l = l.debug_text
text warning l = l.warning_text
text critical l = l.critical_text
text property l = l.property_text

abbrev pub set_text : Stream → Bytes → Log → Log
set_text debug s l = record l { debug_text = s }
set_text warning s l = record l { warning_text = s }
set_text critical s l = record l { critical_text = s }
set_text property s l = record l { property_text = s }

-- MIFSA_LOG_METHOD_NO_CONSOLE
abbrev pub no_console : ℕ
no_console = 12

abbrev pub to_console : ℕ → Console → Bytes → Log → Log
to_console method c s l =
    if method == no_console then l else record l { console = l.console ++ (c, s) ∷ [] }

abbrev escape_code : Bytes → Bytes
escape_code s = 27 ∷ s

abbrev reset : Bytes
reset = escape_code (codes "[0m")

abbrev end_line : Bytes
end_line = 10 ∷ []

-- The switch of `_mifsa_print_start`, with the colour.
unfoldable pub begin_stream : ℕ → ℕ → Log → Stream × Log
begin_stream type method l =
    if type == 0
    then (debug, l)
    else if type == 1
    then (warning, to_console method err (escape_code (codes "[31m")) l)
    else if type == 2
    then (
      critical,
      to_console method err (escape_code (codes "[1m") ++ escape_code (codes "[31m")) l,
    )
    else if type == 3
    then (
      property,
      to_console method out (escape_code (codes "[1m") ++ escape_code (codes "[32m")) l,
    )
    else (debug, l)

-- `_mifsa_print_start`; `none` is that it waits for the mutex.
unfoldable pub print_start : ℕ → ℕ → Log → Option (Stream × Log)
unfolding begin_stream
print_start type method l =
    if l.locked then none else some (begin_stream type method (record l { locked = true }))

-- How `_mifsa_print_final` ends: it returns, or it throws a `runtime_error`.
pub data Ending : Type 0 where
  returns : Log → Ending
  throws : Bytes → Log → Ending

abbrev pub unlock : Log → Log
unlock l = record l { locked = false }

-- `_mifsa_print_final`; the code behind the `throw` is never run.
unfoldable pub print_final : Stream → ℕ → Log → Ending
print_final debug method l =
    returns (unlock (to_console method out (l.debug_text ++ end_line) (set_text debug [] l)))
print_final warning method l =
    returns
      (unlock (to_console method err (l.warning_text ++ reset ++ end_line) (set_text warning [] l)))
print_final critical method l =
    throws l.critical_text
      (to_console method err (l.critical_text ++ reset ++ end_line) (set_text critical [] l))
print_final property method l =
    returns (
      unlock
        (to_console method out (l.property_text ++ reset ++ end_line) (set_text property [] l)))

-- `_mifsa_print_expand`
unfoldable pub print_expand : Stream → ℕ → List Bytes → Log → Ending
unfolding print_final
print_expand stream method [] l = print_final stream method l
print_expand stream method (value ∷ args) l =
    print_expand stream method args (set_text stream (text stream l ++ value) l)

abbrev pub expanded : ℕ → List Bytes → Option (Stream × Log) → Option Ending
expanded method args none = none
expanded method args (some (stream, l)) = some (print_expand stream method args l)

-- The macros `LOG_DEBUG` to `LOG_PROPERTY_NO_CONSOLE`, up to the `terminate` behind a critical message.
unfoldable pub log : ℕ → ℕ → List Bytes → Log → Option Ending
unfolding print_start print_expand
log type method args l = expanded method args (print_start type method l)

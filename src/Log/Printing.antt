-- ===== src/Log/Printing.antt =====
-- What a message leaves behind in the log of src/base/log.cpp.
use mathlib.Core.List.{append_assoc, append-nil}
use mifsa_base.Base.{
  ℕ, true, false, List, [], ◌∷◌, ◌++◌, none, some, ◌≡◌, ◌≢◌, refl, sym, ap, arith, Bytes, ◌==◌,
  if◌then◌else◌, if_elim, subst,
}
use mifsa_base.Log.{
  Log, Stream, debug, warning, critical, property, Console, Ending, returns, throws, text, set_text,
  to_console, begin_stream, print_start, print_final, print_expand, log, no_console,
}

-- No message is under way: the mutex is free and the streams are empty.
abbrev pub IsIdle : Log → Type 0
IsIdle l =
    (l.locked ≡ false)
    × (l.debug_text ≡ [])
    × (l.warning_text ≡ [])
    × (l.critical_text ≡ [])
    × (l.property_text ≡ [])

-- A message is under way in one stream, and the others are empty.
abbrev pub Holds : Stream → Bytes → Log → Type 0
Holds debug s l =
    (l.locked ≡ true)
    × (l.debug_text ≡ s)
    × (l.warning_text ≡ [])
    × (l.critical_text ≡ [])
    × (l.property_text ≡ [])
Holds warning s l =
    (l.locked ≡ true)
    × (l.debug_text ≡ [])
    × (l.warning_text ≡ s)
    × (l.critical_text ≡ [])
    × (l.property_text ≡ [])
Holds critical s l =
    (l.locked ≡ true)
    × (l.debug_text ≡ [])
    × (l.warning_text ≡ [])
    × (l.critical_text ≡ s)
    × (l.property_text ≡ [])
Holds property s l =
    (l.locked ≡ true)
    × (l.debug_text ≡ [])
    × (l.warning_text ≡ [])
    × (l.critical_text ≡ [])
    × (l.property_text ≡ s)

abbrev pub joined : List Bytes → Bytes
joined [] = []
joined (s ∷ ss) = s ++ joined ss

-- The log is idle again; or the message was critical, its text is thrown, and every later message waits.
pub data Ends (message : Bytes) : Stream → Ending → Type 0 where
  goes_on :
      {stream : Stream} (l : Log) → stream ≢ critical → IsIdle l → Ends message stream (returns l)
  fails :
      (l : Log)
      → ((type method : ℕ) (args : List Bytes) → log type method args l ≡ none)
      → Ends message critical (throws message l)

log-waits :
    (l : Log)
    → l.locked ≡ true
    → (type method : ℕ) (args : List Bytes) → log type method args l ≡ none
unfolding log print_start
log-waits l locked type method args = rw locked refl

to_console-Holds :
    (method : ℕ) (c : Console) (shown s : Bytes) (stream : Stream) (l : Log)
    → Holds stream s l
    → Holds stream s (to_console method c shown l)
to_console-Holds method c shown s debug l h =
    if_elim (Holds debug s) (method == no_console) (λ _. h) (λ _. h)
to_console-Holds method c shown s warning l h =
    if_elim (Holds warning s) (method == no_console) (λ _. h) (λ _. h)
to_console-Holds method c shown s critical l h =
    if_elim (Holds critical s) (method == no_console) (λ _. h) (λ _. h)
to_console-Holds method c shown s property l h =
    if_elim (Holds property s) (method == no_console) (λ _. h) (λ _. h)

print_final-Ends :
    (stream : Stream) (method : ℕ) (s : Bytes) (l : Log)
    → Holds stream s l
    → Ends s stream (print_final stream method l)
unfolding print_final
print_final-Ends debug method s l (locked, d, w, c, p) =
    let (_, d', w', c', p') =
      to_console-Holds method Console.out _ [] debug (set_text debug [] l)
        (locked, refl, w, c, p) in
    goes_on _ (λ e. absurd cc) (refl, d', w', c', p')
print_final-Ends warning method s l (locked, d, w, c, p) =
    let (_, d', w', c', p') =
      to_console-Holds method Console.err _ [] warning (set_text warning [] l)
        (locked, d, refl, c, p) in
    goes_on _ (λ e. absurd cc) (refl, d', w', c', p')
print_final-Ends critical method s l (locked, d, w, c, p) =
    let (locked', _, _, _, _) =
      to_console-Holds method Console.err _ [] critical (set_text critical [] l)
        (locked, d, w, refl, p) in
    rw c (fails _ (log-waits _ locked'))
print_final-Ends property method s l (locked, d, w, c, p) =
    let (_, d', w', c', p') =
      to_console-Holds method Console.out _ [] property (set_text property [] l)
        (locked, d, w, c, refl) in
    goes_on _ (λ e. absurd cc) (refl, d', w', c', p')

set_text-Holds :
    (stream : Stream) (s value : Bytes) (l : Log)
    → Holds stream s l
    → Holds stream (s ++ value) (set_text stream (text stream l ++ value) l)
set_text-Holds debug s value l (locked, d, w, c, p) = (locked, ap (λ x. x ++ value) d, w, c, p)
set_text-Holds warning s value l (locked, d, w, c, p) = (locked, d, ap (λ x. x ++ value) w, c, p)
set_text-Holds critical s value l (locked, d, w, c, p) = (locked, d, w, ap (λ x. x ++ value) c, p)
set_text-Holds property s value l (locked, d, w, c, p) = (locked, d, w, c, ap (λ x. x ++ value) p)

print_expand-Ends :
    (stream : Stream) (method : ℕ) (args : List Bytes) (s : Bytes) (l : Log)
    → Holds stream s l
    → Ends (s ++ joined args) stream (print_expand stream method args l)
unfolding print_expand
print_expand-Ends stream method [] s l h = rw (append-nil s) (print_final-Ends stream method s l h)
print_expand-Ends stream method (value ∷ args) s l h =
    rw (sym (append_assoc s value (joined args)))
      (print_expand-Ends stream method args (s ++ value) _ (set_text-Holds stream s value l h))

-- The stream of a type of message.
abbrev pub stream_of : ℕ → Stream
stream_of type =
    if type == 1
    then warning
    else if type == 2
    then critical
    else if type == 3
    then property
    else debug

begin_stream-Holds :
    (type method : ℕ) (l : Log)
    → IsIdle l
    → ((begin_stream type method (record l { locked = true })).0 ≡ stream_of type)
      × Holds
          (begin_stream type method (record l { locked = true })).0
          []
          (begin_stream type method (record l { locked = true })).1
unfolding begin_stream
begin_stream-Holds type method l (free, d, w, c, p) =
    let start = record l { locked = true } in
    let goal : Stream × Log → Type 0 = λ r. (r.0 ≡ stream_of type) × Holds r.0 [] r.1 in
    if_elim goal (type == 0) (λ e. (ground arith, (refl, d, w, c, p)))
      (λ e0.
        if_elim goal (type == 1)
          (λ e. (ground arith, to_console-Holds method _ _ [] warning start (refl, d, w, c, p)))
          (λ e1.
            if_elim goal (type == 2)
              (λ e.
                (ground arith, to_console-Holds method _ _ [] critical start (refl, d, w, c, p)))
              (λ e2.
                if_elim goal (type == 3)
                  (λ e. (
                    ground arith,
                    to_console-Holds method _ _ [] property start (refl, d, w, c, p),
                  ))
                  (λ e3. (ground arith, (refl, d, w, c, p))))))

-- A message that meets an idle log comes to its end: if it is not critical the log is idle again, and if it is,
-- its whole text is thrown and every later message waits for ever, since the mutex stays locked.
pub log-Ends :
    (type method : ℕ) (args : List Bytes) (l : Log)
    → IsIdle l
    → (r : Ending) × (log type method args l ≡ some r) × Ends (joined args) (stream_of type) r
unfolding log print_start
log-Ends type method args l idle =
    let begun = begin_stream type method (record l { locked = true }) in
    let (same, held) = begin_stream-Holds type method l idle in
    (
      print_expand begun.0 method args begun.1,
      rw idle.0 refl,
      subst (λ x. Ends (joined args) x (print_expand begun.0 method args begun.1)) same
          (print_expand-Ends begun.0 method args [] begun.1 held),
    )

-- ===== src/System/Signals.antt =====
-- `programRegisterTerminate` (src/utils/system.cpp), where a signal fails and where none does.
use mifsa_base.Base.{
  ℕ, Bool, true, false, List, [], ◌∷◌, ◌++◌, Option, some, ◌≡◌, ◌≢◌, ◌⊎◌, inl, inr, refl, ap, sym,
  ◌∙◌, if_elim, subst, All,
}
use mifsa_base.System.{
  Os, Signal, sig_hup, sig_int, sig_quit, sig_term, set_handlers, program_register_terminate,
}

-- What POSIX says of `sigaction`: `handler` is the handler of a process for a signal.
pub record Handlers {S : Type 0} (os : Os S) : Type 0 where
  pub handler : ℕ → Signal → S → Option ℕ
  pub sets :
      (pid : ℕ) (signal : Signal) (cb : ℕ) (s : S)
      → (os.set_handler pid signal cb s).0 ≡ true
      → handler pid signal (os.set_handler pid signal cb s).1 ≡ some cb
  pub fails :
      (pid : ℕ) (signal : Signal) (cb : ℕ) (s : S)
      → (os.set_handler pid signal cb s).0 ≡ false
      → handler pid signal (os.set_handler pid signal cb s).1 ≡ handler pid signal s
  pub leaves :
      (pid : ℕ) (signal other : Signal) (cb : ℕ) (s : S)
      → other ≢ signal
      → handler pid other (os.set_handler pid signal cb s).1 ≡ handler pid other s

module _ {S : Type 0} {os : Os S} (laws : Handlers os) (pid cb : ℕ) where
  open laws use {handler, sets, fails, leaves}

  abbrev pub HasHandler : S → Signal → Type 0
  HasHandler s signal = handler pid signal s ≡ some cb

  abbrev pub IsLeft : S → S → Signal → Type 0
  IsLeft s t signal = handler pid signal t ≡ handler pid signal s

  abbrev Distinct : List Signal → Type 0
  Distinct [] = Unit
  Distinct (signal ∷ later) = All (λ x. x ≢ signal) later × Distinct later

  -- The outcome for a list of signals.
  abbrev pub Outcome : List Signal → S → Bool × S → Type 0
  Outcome signals s r =
      ((r.0 ≡ true) × All (HasHandler r.1) signals)
      ⊎ ((r.0 ≡ false)
          × ((before : List Signal) × (signal : Signal) × (later : List Signal) × (signals
                ≡ before ++ signal ∷ later)
              × All (HasHandler r.1) before
              × All (IsLeft s r.1) (signal ∷ later)))

  set_handlers-other :
      (signals : List Signal) (x : Signal) (s : S)
      → All (λ y. y ≢ x) signals
      → handler pid x (set_handlers os pid signals cb s).1 ≡ handler pid x s
  unfolding set_handlers
  set_handlers-other [] x s ne = refl
  set_handlers-other (signal ∷ later) x s (ne, nes) =
      let one = os.set_handler pid signal cb s in
      let same = leaves pid signal x cb s (λ e. ne (sym e)) in
      if_elim (λ (r : Bool × S). handler pid x r.1 ≡ handler pid x s) one.0
        (λ _. set_handlers-other later x one.1 nes ∙ same) (λ _. same)

  All-IsLeft :
      (signal : Signal) (s : S) (later : List Signal)
      → All (λ x. x ≢ signal) later
      → All (IsLeft s (os.set_handler pid signal cb s).1) later
  All-IsLeft signal s [] nes = tt
  All-IsLeft signal s (x ∷ later) (ne, nes) =
      (leaves pid signal x cb s ne, All-IsLeft signal s later nes)

  All-trans :
      (s t u : S) (later : List Signal)
      → All (IsLeft s t) later
      → All (IsLeft t u) later
      → All (IsLeft s u) later
  All-trans s t u [] a b = tt
  All-trans s t u (x ∷ later) (e, a) (f, b) = (f ∙ e, All-trans s t u later a b)

  All-behind :
      (P : Signal → Type 0) (before later : List Signal) → All P (before ++ later) → All P later
  All-behind P [] later a = a
  All-behind P (x ∷ before) later (h, a) = All-behind P before later a

  set_handlers-Outcome :
      (signals : List Signal) (s : S)
      → Distinct signals
      → Outcome signals s (set_handlers os pid signals cb s)
  unfolding set_handlers
  set_handlers-Outcome [] s d = inl (refl, tt)
  set_handlers-Outcome (signal ∷ later) s (ne, d) =
      let one = os.set_handler pid signal cb s in
      let rest = set_handlers os pid later cb one.1 in
      if_elim (Outcome (signal ∷ later) s) one.0
        (λ set. elim (set_handlers-Outcome later one.1 d) [
          | inl (all, sets_all) ↦ inl (all, (kept signal later s set ne, sets_all))
          | inr (some_fail, (before, at, behind, e, sets_before, left)) ↦ inr (
            some_fail,
            (
              signal ∷ before,
              at,
              behind,
              ap (◌∷◌ signal) e,
              (kept signal later s set ne, sets_before),
              All-trans s one.1 rest.1 (at ∷ behind)
                  (All-behind (IsLeft s one.1) before (at ∷ behind)
                    (subst (All (IsLeft s one.1)) e (All-IsLeft signal s later ne)))
                  left,
            ),
          )
        ])
        (λ failed. inr (
          refl,
          (
            [],
            signal,
            later,
            refl,
            tt,
            (fails pid signal cb s failed, All-IsLeft signal s later ne),
          ),
        ))
    where
      kept :
          (x : Signal) (xs : List Signal) (t : S)
          → (os.set_handler pid x cb t).0 ≡ true
          → All (λ y. y ≢ x) xs
          → HasHandler (set_handlers os pid xs cb (os.set_handler pid x cb t).1).1 x
      kept x xs t set others =
          set_handlers-other xs x (os.set_handler pid x cb t).1 others ∙ sets pid x cb t set

  -- `programRegisterTerminate` either returns true, and each of the signals SIGHUP, SIGINT, SIGQUIT and SIGTERM has
  -- the handler, or it returns false, and there is one of them such that those before it have the
  -- handler, while it and those behind it are as they were; by what POSIX says of `sigaction`.
  pub register-Outcome :
      (s : S)
      → Outcome
          (sig_hup ∷ sig_int ∷ sig_quit ∷ sig_term ∷ [])
          s
          (program_register_terminate os pid cb s)
  unfolding program_register_terminate
  register-Outcome s = set_handlers-Outcome (sig_hup ∷ sig_int ∷ sig_quit ∷ sig_term ∷ []) s (
    ((λ e. absurd cc), ((λ e. absurd cc), ((λ e. absurd cc), tt))),
    (((λ e. absurd cc), ((λ e. absurd cc), tt)), ((((λ e. absurd cc), tt)), (tt, tt))),
  )

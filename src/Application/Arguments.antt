-- ===== src/Application/Arguments.antt =====
-- The arguments of a program (src/base/application.cpp).
use mifsa_base.Base.{◌≡◌, refl, sym, ◌⊎◌, inl, inr, ◌==◌, if_elim, ==_iff}
use mifsa_base.Variant.Data.{Variant, bool, int, double, string}
use mifsa_base.Variant.Access.{type, type_null, type_bool, type_int, type_double, type_string}
use mifsa_base.Application.{Arg, Options, Lookup, invalid, absent, found, value_or, get_arg_value}

-- The type of what comes for a default: its own, or a Boolean for the absence of one.
abbrev pub IsFor : Variant → Variant → Type 0
IsFor default v = (type v ≡ type default) ⊎ ((type default ≡ type_null) × (type v ≡ type_bool))

value_or-IsFor {ℓ} :
    {A : Type ℓ} (default : Variant) (make : A → Variant) (l : Lookup A)
    → ((a : A) → IsFor default (make a))
    → IsFor default (value_or default make l)
value_or-IsFor default make invalid h = inl refl
value_or-IsFor default make absent h = inl refl
value_or-IsFor default make (found a) h = h a

-- `getArgValue` gives a value of the type of the argument's default, whatever the options say, where a
-- null default stands for a switch and may give a Boolean.
pub get_arg_value-IsFor : (o : Options) (arg : Arg) → IsFor arg.default_value (get_arg_value o arg)
unfolding get_arg_value type
get_arg_value-IsFor o arg =
    let d = arg.default_value in
    if_elim (IsFor d) (type d == type_bool)
      (λ e. value_or-IsFor d bool (o.get_bool arg.long_name) (λ b. inl (sym ((==_iff _ _).0 e))))
      (λ _.
        if_elim (IsFor d) (type d == type_int)
          (λ e. value_or-IsFor d int (o.get_int arg.long_name) (λ n. inl (sym ((==_iff _ _).0 e))))
          (λ _.
            if_elim (IsFor d) (type d == type_double)
              (λ e.
                value_or-IsFor d double (o.get_double arg.long_name)
                  (λ x. inl (sym ((==_iff _ _).0 e))))
              (λ _.
                if_elim (IsFor d) (type d == type_string)
                  (λ e.
                    value_or-IsFor d string (o.get_string arg.long_name)
                      (λ s. inl (sym ((==_iff _ _).0 e))))
                  (λ _.
                    if_elim (IsFor d) (type d == type_null)
                      (λ e.
                        value_or-IsFor d bool (o.get_switch arg.long_name)
                          (λ b. inr ((==_iff _ _).0 e, refl)))
                      (λ _. inl refl)))))

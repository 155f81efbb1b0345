-- ===== src/Settings/Scalar.antt =====
-- settings.py, the Loader: fields whose type has no settings class in it.
use tlo.Prelude.{◌≡◌, refl, String, none, []}
use tlo.Prelude.Dict.{Dict}
use tlo.Errors.{ok}
use tlo.Settings.{Hint, direct, generic, Args, no_args, settings_arg, none_arg, other_arg}
use tlo.Settings.Lookup.{unwrap}
use tlo.Settings.Load.{load, load_hint, load_args}

module _ {F : Type 0} where
  abbrev pub HasNone : Args F → Type 0
  HasNone no_args = Unit
  HasNone (settings_arg c args) = ⊥
  HasNone (none_arg args) = HasNone args
  HasNone (other_arg args) = HasNone args

  -- `_has_settings_type_hint` does not hold.
  abbrev pub IsScalar : Hint F → Type 0
  IsScalar (direct c) = ⊥
  IsScalar (generic args) = HasNone args

  load_args-HasNone :
      (env : Dict String) (root_prefix : String) (args : Args F)
      → HasNone args
      → load_args env root_prefix args ≡ []
  unfolding load
  load_args-HasNone env p no_args h = refl
  load_args-HasNone env p (settings_arg c args) h = absurd h
  load_args-HasNone env p (none_arg args) h = load_args-HasNone env p args h
  load_args-HasNone env p (other_arg args) h = load_args-HasNone env p args h

  pub load_hint-IsScalar :
      (env : Dict String) (root_prefix : String) (hint : Hint F)
      → IsScalar hint
      → load_hint env root_prefix hint ≡ ok none
  unfolding load unwrap
  load_hint-IsScalar env p (direct c) h = absurd h
  load_hint-IsScalar env p (generic args) h = rw (load_args-HasNone env p args h) refl

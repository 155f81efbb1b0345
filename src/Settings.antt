-- ===== src/Settings.antt =====
-- settings.py: the values and the classes of settings.
use tlo.Prelude.{String, Bool, Option, List}
use tlo.Errors.{Result}
pub mod Coercers
pub mod Lookup
pub mod Load
pub mod Tlo
pub mod Scalar
pub mod Precedence
pub mod Kwargs
pub mod Children
pub mod Nested
pub mod Outcomes
pub mod Failures
pub mod Environment

-- The values that settings hold: None, texts, members of enums, numbers in a type of their own, dicts
-- and instances of settings classes.
mutual
  pub data Value (F : Type 0) : Type 0 where
    none_value : Value F
    str : String → Value F
    member : String → String → Value F
    number : F → Value F
    boolean : Bool → Value F
    dict : Entries F → Value F
    instance_of : String → Entries F → Value F

  pub data Entries (F : Type 0) : Type 0 where
    end : Entries F
    entry : String → Value F → Entries F → Entries F

-- A field's metadata, the type checks on it left to their outcome.
pub data AliasesMeta : Type 0 where
  no_aliases : AliasesMeta
  aliases : List String → AliasesMeta
  bad_aliases : AliasesMeta

pub data CoercerMeta (F : Type 0) : Type 0 where
  no_coercer : CoercerMeta F
  coercer : (String → Result (Value F)) → CoercerMeta F
  bad_coercer : CoercerMeta F

pub record Meta (F : Type 0) : Type 0 where
  pub env_aliases : AliasesMeta
  pub env_coercer : CoercerMeta F

-- A settings class: its name and its fields, each with its type, metadata and default. The type is a
-- settings class, or another type with its arguments, of which settings classes and None matter.
mutual
  pub data SettingsClass (F : Type 0) : Type 0 where
    settings_class : String → Fields F → SettingsClass F

  pub data Fields (F : Type 0) : Type 0 where
    no_fields : Fields F
    field : String → Hint F → Meta F → Option (Value F) → Fields F → Fields F

  pub data Hint (F : Type 0) : Type 0 where
    direct : SettingsClass F → Hint F
    generic : Args F → Hint F

  pub data Args (F : Type 0) : Type 0 where
    no_args : Args F
    settings_arg : SettingsClass F → Args F → Args F
    none_arg other_arg : Args F → Args F

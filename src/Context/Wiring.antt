-- ===== src/Context/Wiring.antt =====
-- context.py: what a part of a runtime is, built from its setting.
use tlo.Prelude.{
  ◌≡◌, ◌≢◌, refl, sym, ◌∙◌, String, true, Bool-cases, Option-cases, some, text_dec, if_pos, if_neg,
  List, [], ◌∷◌, All, arith, inl, inr, ◌⊎◌, ◌||◌, ap, subst,
}
use tlo.Prelude.Text.{◌<>◌}
use tlo.Prelude.Dict
use tlo.Errors.{Result, ok, raise, tlo_error, config_error, assertion_error, attribute_error}
use tlo.Settings.{Value, str, member, instance_of, none_value, number, boolean, dict, Entries}
use tlo.Settings.Coercers.{Enum}
use tlo.Settings.Lookup.{find}
use tlo.Context.{
  and_then, Kind, has_members, checked, registered, imported, initialize, initialize_by_py_path,
  initialize_setting,
}
use tlo.Context.Paths.{NoDot, initialize_by_py_path-Split}

pub ok-injective : {A : Type 0} {a b : A} → Path (Result A) (ok a) (ok b) → a ≡ b
ok-injective h = cc h

pub and_then-ok :
    {A B : Type 0} (r : Result A) (f : A → Result B) (b : B)
    → and_then r f ≡ ok b
    → (a : A) × ((r ≡ ok a) × (f a ≡ ok b))
unfolding and_then
and_then-ok (ok a) f b h = (a, (refl, h))
and_then-ok (raise e) f b h = absurd (cc h)

-- An object that the protocol admits: its class inherits from it, or each member is there.
abbrev pub IsInstance : {M A I : Type 0} → Kind M A I → List String → I → Type 0
IsInstance kind expected_type r =
    (kind.inherits r ≡ true) ⊎ All (λ m. kind.has_member r m ≡ true) expected_type

module _ {M A I : Type 0} (import_module : String → Result M) (kind : Kind M A I)
    (expected_type : List String) where
  -- An implementation that is registered under a member's name, or one that the protocol admits.
  abbrev pub IsImplementation : A → I → Type 0
  IsImplementation kwargs r =
      ((name : String) × ((class : A → Result I) × ((Dict.lookup name kind.impl_registry
              ≡ some class)
            × (class kwargs ≡ ok r))))
      ⊎ IsInstance kind expected_type r

  has_members-All :
      (r : I) (ms : List String)
      → has_members kind r ms ≡ true
      → All (λ m. kind.has_member r m ≡ true) ms
  unfolding has_members
  has_members-All r [] h = tt
  has_members-All r (m ∷ ms) h = (ground (arith, h), has_members-All r ms (ground (arith, h)))

  checked-ok : (i r : I) → checked kind expected_type i ≡ ok r → IsInstance kind expected_type r
  unfolding checked
  checked-ok i r h = elim (Bool-cases (kind.inherits i)) [
    | inl e ↦ inl (subst (λ x. kind.inherits x ≡ true) (passed (ground (arith, e))) e)
    | inr e ↦ elim (Bool-cases (has_members kind i expected_type)) [
      | inl f ↦ inr (
          subst (λ x. All (λ m. kind.has_member x m ≡ true) expected_type)
            (passed (ground (arith, f))) (has_members-All i expected_type f))
      | inr f ↦
          let k : checked kind expected_type i ≡ raise (tlo_error config_error) =
            rw (checked, e, f) refl in
          absurd (cc (k, h))
    ]
  ]
    where
      passed : (kind.inherits i || has_members kind i expected_type) ≡ true → i ≡ r
      passed e = ok-injective (ground (arith, e, h))

  checked-same : (i r : I) → checked kind expected_type i ≡ ok r → i ≡ r
  unfolding checked
  checked-same i r h = elim (Bool-cases (kind.inherits i || has_members kind i expected_type)) [
    | inl e ↦ ok-injective (ground (arith, e, h))
    | inr e ↦
        let k : checked kind expected_type i ≡ raise (tlo_error config_error) =
          rw (checked, e) refl in
        absurd (cc (k, h))
  ]

  -- What a path gives: its last segment names a class of the module that the others name, which is
  -- called, and the protocol admits the object.
  abbrev pub IsImported : String → A → I → Type 0
  IsImported path kwargs r =
      (owner : String) × ((klass : String) × ((m : M) × ((class : A → Result I) × ((path
                ≡ owner <> ("." <> klass))
              × (NoDot klass
                  × ((import_module owner ≡ ok m)
                      × ((kind.getattr m klass ≡ ok class)
                          × ((class kwargs ≡ ok r) × IsInstance kind expected_type r))))))))

  by_py_path-ok :
      (path : String) (kwargs : A) (r : I)
      → initialize_by_py_path import_module kind expected_type path kwargs ≡ ok r
      → IsImported path kwargs r
  unfolding imported
  by_py_path-ok path kwargs r h =
      elim (initialize_by_py_path-Split import_module kind expected_type path kwargs) [
        | inl (d, e) ↦ absurd (cc (e, h))
        | inr (owner, (klass, (p, (d, e)))) ↦
            let (m, (p0, h1)) = and_then-ok (import_module owner) _ r (sym e ∙ h) in
            let (class, (p1, h2)) = and_then-ok _ _ r h1 in
            let (i, (p2, h3)) = and_then-ok _ _ r h2 in
            (
              owner,
              (
                klass,
                (
                  m,
                  (
                    class,
                    (p, (d, (p0, (p1, (p2 ∙ ap ok (checked-same i r h3), checked-ok i r h3))))),
                  ),
                ),
              ),
            )
      ]

  -- What a member's name gives: the class that is registered under it is called.
  abbrev pub IsRegistered : String → A → I → Type 0
  IsRegistered name kwargs r =
      (class : A → Result I) × ((Dict.lookup name kind.impl_registry ≡ some class)
        × (class kwargs ≡ ok r))

  registered-ok :
      (name : String) (kwargs : A) (r : I)
      → registered import_module kind name kwargs ≡ ok r
      → IsRegistered name kwargs r
  unfolding registered
  registered-ok name kwargs r h = elim (Option-cases (Dict.lookup name kind.impl_registry)) [
    | inl e ↦
        let k : registered import_module kind name kwargs ≡ raise assertion_error =
          rw (registered, e) refl in
        absurd (cc (k, h))
    | inr (class, e) ↦
        let k : registered import_module kind name kwargs ≡ class kwargs =
          rw (registered, e) refl in
        (class, (e, sym k ∙ h))
  ]

  module _ {F : Type 0} (enum_type : Enum) where
    -- What a setting names: a member of the enum the class that is registered for it, and a text,
    -- or a member of another enum, the class at its path.
    pub data Names (kwargs : A) (r : I) : Value F → Type 0 where
      own_member : {m : String} → IsRegistered m kwargs r → Names kwargs r (member enum_type.name m)
      other_member :
          {e path : String}
          → e ≢ enum_type.name
          → IsImported path kwargs r
          → Names kwargs r (member e path)
      text : {path : String} → IsImported path kwargs r → Names kwargs r (str path)

    initialize-ok :
        (v : Value F) (kwargs : A) (r : I)
        → initialize import_module kind expected_type enum_type v kwargs ≡ ok r
        → Names kwargs r v
    unfolding initialize
    initialize-ok (member e name) kwargs r h = elim (text_dec e enum_type.name) [
      | yes p ↦
          subst (λ x. Names kwargs r (member x name)) (sym p)
            (own_member
              (registered-ok name kwargs r (sym (if_pos (text_dec e enum_type.name) p _ _) ∙ h)))
      | no p ↦
          other_member p
            (by_py_path-ok name kwargs r (sym (if_neg (text_dec e enum_type.name) p _ _) ∙ h))
    ]
    initialize-ok (str path) kwargs r h = text (by_py_path-ok path kwargs r h)
    initialize-ok none_value kwargs r h = absurd (cc h)
    initialize-ok (number x) kwargs r h = absurd (cc h)
    initialize-ok (boolean b) kwargs r h = absurd (cc h)
    initialize-ok (dict es) kwargs r h = absurd (cc h)
    initialize-ok (instance_of c es) kwargs r h = absurd (cc h)

    -- The part that the settings name: the setting has a value, and the part is what it names.
    abbrev pub IsPart : String → Value F → A → I → Type 0
    IsPart name settings kwargs r =
        (c : String) × ((es : Entries F) × ((v : Value F) × ((settings ≡ instance_of c es)
              × ((find name es ≡ some v) × Names kwargs r v))))

    pub initialize_setting-IsPart :
        (name : String) (settings : Value F) (kwargs : A) (r : I)
        → initialize_setting import_module kind expected_type enum_type name settings kwargs ≡ ok r
        → IsPart name settings kwargs r
    unfolding initialize_setting
    initialize_setting-IsPart name (instance_of c es) kwargs r h =
        elim (Option-cases (find name es)) [
          | inl e ↦
              let k : initialize_setting import_module kind expected_type enum_type name
                    (instance_of c es) kwargs
                  ≡ raise attribute_error =
                rw (initialize_setting, e) refl in
              absurd (cc (k, h))
          | inr (v, e) ↦
              let k : initialize_setting import_module kind expected_type enum_type name
                    (instance_of c es) kwargs
                  ≡ initialize import_module kind expected_type enum_type v kwargs =
                rw (initialize_setting, e) refl in
              (c, (es, (v, (refl, (e, initialize-ok v kwargs r (sym k ∙ h))))))
        ]
    initialize_setting-IsPart name none_value kwargs r h = absurd (cc h)
    initialize_setting-IsPart name (str s) kwargs r h = absurd (cc h)
    initialize_setting-IsPart name (member e s) kwargs r h = absurd (cc h)
    initialize_setting-IsPart name (number x) kwargs r h = absurd (cc h)
    initialize_setting-IsPart name (boolean b) kwargs r h = absurd (cc h)
    initialize_setting-IsPart name (dict es) kwargs r h = absurd (cc h)

    Names-IsImplementation :
        (v : Value F) (kwargs : A) (r : I) → Names kwargs r v → IsImplementation kwargs r
    Names-IsImplementation _ kwargs r (own_member {m} h) = inl (m, h)
    Names-IsImplementation _ kwargs r (other_member e h) = inr h.1.1.1.1.1.1.1.1.1
    Names-IsImplementation _ kwargs r (text h) = inr h.1.1.1.1.1.1.1.1.1

    -- A part that is initialized from a setting is what the constructor of a class gives that is
    -- registered under some name, or its class inherits from the protocol of its kind, or it has
    -- each member of this protocol.
    pub initialize_setting-IsImplementation :
        (name : String) (settings : Value F) (kwargs : A) (r : I)
        → initialize_setting import_module kind expected_type enum_type name settings kwargs ≡ ok r
        → IsImplementation kwargs r
    initialize_setting-IsImplementation name settings kwargs r h =
        let (c, (es, (v, (p, (e, n))))) = initialize_setting-IsPart name settings kwargs r h in
        Names-IsImplementation v kwargs r n

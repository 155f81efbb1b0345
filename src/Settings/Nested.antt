-- ===== src/Settings/Nested.antt =====
-- settings.py, the Loader: where the value of a field comes from whose type is a settings class.
use tlo.Prelude.{
  ◌≡◌, ◌≢◌, refl, sym, ◌∙◌, ap, subst, String, Bool, Bool-cases, Option, none, some, List, [], ◌∷◌,
  ◌++◌, inl, inr, text_dec, if_pos, if_neg, if◌then◌else◌,
}
use tlo.Prelude.Text.{upper}
use tlo.Prelude.Dict
use tlo.Prelude.Dict.{Dict}
use tlo.Errors.{Result, ok, raise}
use tlo.Settings.{
  Value, none_value, str, member, number, boolean, dict, instance_of, Entries, end, entry, Meta,
  Fields, Hint, settings_class,
}
use tlo.Settings.Lookup.{find, given_or, has_env_for_nested, loaded, Load}
use tlo.Settings.Children.{
  HasChild, HasNoChild, has_env_for_nested-HasChild, has_env_for_nested-HasNoChild,
}
use tlo.Settings.Load.{load, load_hint, load_field, load_nested_field, load_nested_env}
use tlo.Settings.Kwargs.{InFields, IsDistinct, load_fields-lookup, instantiate-find, built-ok}

module _ {F : Type 0} where
  -- What is given for a field of a class and does not decide: nothing, an empty dict, an instance of
  -- another class, or a value that is no dict.
  pub data PassedOver (class : String) : Option (Value F) → Type 0 where
    not_given : PassedOver class none
    empty_dict : PassedOver class (some (dict end))
    other_class :
        {c : String} {es : Entries F} → c ≢ class → PassedOver class (some (instance_of c es))
    text : {s : String} → PassedOver class (some (str s))
    enum_member : {e s : String} → PassedOver class (some (member e s))
    float : {x : F} → PassedOver class (some (number x))
    truth : {b : Bool} → PassedOver class (some (boolean b))

  -- The value of a field of a class, from what is given for it, the environment and the default.
  pub data NestedChosen (env : Dict String) (root_prefix : String) (class : String) (loads : Load F)
      (default : Option (Value F)) (segments : List String) (given : Option (Value F))
      : Value F → Type 0 where
    by_none :
        given ≡ some none_value
        → NestedChosen env root_prefix class loads default segments given none_value
    by_dict :
        {k : String} {v w : Value F} {es : Entries F}
        → given ≡ some (dict (entry k v es))
        → loads segments (entry k v es) ≡ ok w
        → NestedChosen env root_prefix class loads default segments given w
    by_instance :
        {es : Entries F}
        → given ≡ some (instance_of class es)
        → NestedChosen env root_prefix class loads default segments given (instance_of class es)
    by_env :
        {w : Value F}
        → PassedOver class given
        → HasChild env root_prefix segments
        → loads segments end ≡ ok w
        → NestedChosen env root_prefix class loads default segments given w
    by_default :
        {w : Value F}
        → PassedOver class given
        → HasNoChild env root_prefix segments
        → default ≡ some w
        → NestedChosen env root_prefix class loads default segments given w

  given_or-some :
      (v w : Value F) (d o : Option (Value F)) → o ≡ some v → given_or o d ≡ ok w → v ≡ w
  unfolding given_or
  given_or-some v w d o e h = let k : ok v ≡ ok w = subst (λ x. given_or x d ≡ ok w) e h in cc k

  given_or-none :
      (w : Value F) (d o : Option (Value F)) → o ≡ none → given_or o d ≡ ok w → d ≡ some w
  unfolding given_or
  given_or-none w (some v) o e h =
      let k : ok v ≡ ok w = subst (λ x. given_or x (some v) ≡ ok w) e h in cc k
  given_or-none w none o e h = absurd (cc (subst (λ x. given_or x none ≡ ok w) e h))

  loaded-some :
      (r : Result (Value F)) (o : Option (Value F))
      → loaded r ≡ ok o
      → (v : Value F) × ((r ≡ ok v) × (o ≡ some v))
  unfolding loaded
  loaded-some (ok v) o h = (v, (refl, cc h))
  loaded-some (raise e) o h = absurd (cc h)

  module _ (env : Dict String) (root_prefix : String) (n class : String) (loads : Load F)
      (d : Option (Value F)) (segments : List String) (w : Value F) where
    abbrev Answer : Option (Value F) → Type 0
    Answer given = NestedChosen env root_prefix class loads d segments given w

    -- The environment, or the default.
    env_or_default :
        (given o : Option (Value F))
        → PassedOver class given
        → load_nested_env env root_prefix loads segments ≡ ok o
        → given_or o d ≡ ok w
        → Answer given
    unfolding load_nested_env
    env_or_default given o p h g = elim (Bool-cases (has_env_for_nested env root_prefix segments)) [
      | inl e ↦
          let k : loaded (loads segments end) ≡ ok o =
            subst (λ b. (if b then loaded (loads segments end) else ok none) ≡ ok o) e h in
          let (v, (r, q)) = loaded-some (loads segments end) o k in
          by_env p (has_env_for_nested-HasChild env root_prefix segments e)
            (r ∙ ap ok (given_or-some v w d o q g))
      | inr e ↦
          let k : ok none ≡ ok o =
            subst (λ b. (if b then loaded (loads segments end) else ok none) ≡ ok o) e h in
          let q : o ≡ none = cc k in
          by_default p (has_env_for_nested-HasNoChild env root_prefix segments e)
            (given_or-none w d o q g)
    ]

    module _ (overrides : Entries F) (o : Option (Value F))
        (h : load_nested_field env root_prefix n (class, loads) segments overrides ≡ ok o)
        (g : given_or o d ≡ ok w) where
      passed_over :
          (given : Option (Value F))
          → load_nested_field env root_prefix n (class, loads) segments overrides
            ≡ load_nested_env env root_prefix loads segments
          → PassedOver class given
          → Answer given
      passed_over given k p = env_or_default given o p (sym k ∙ h) g

      nested_answer : (given : Option (Value F)) → find n overrides ≡ given → Answer given
      unfolding load_nested_field
      nested_answer none e = passed_over none (rw (load_nested_field, e) refl) not_given
      nested_answer (some none_value) e =
          let k : load_nested_field env root_prefix n (class, loads) segments overrides
              ≡ ok (some none_value) =
            rw (load_nested_field, e) refl in
          let same : none_value ≡ w = given_or-some none_value w d o (cc (h, k)) g in
          subst (NestedChosen env root_prefix class loads d segments (some none_value)) same
            (by_none refl)
      nested_answer (some (str t)) e = passed_over _ (rw (load_nested_field, e) refl) text
      nested_answer (some (member t u)) e =
          passed_over _ (rw (load_nested_field, e) refl) enum_member
      nested_answer (some (number x)) e = passed_over _ (rw (load_nested_field, e) refl) float
      nested_answer (some (boolean b)) e = passed_over _ (rw (load_nested_field, e) refl) truth
      nested_answer (some (dict end)) e = passed_over _ (rw (load_nested_field, e) refl) empty_dict
      nested_answer (some (dict (entry k v es))) e =
          let q : load_nested_field env root_prefix n (class, loads) segments overrides
              ≡ loaded (loads segments (entry k v es)) =
            rw (load_nested_field, e) refl in
          let (x, (r, same)) = loaded-some (loads segments (entry k v es)) o (sym q ∙ h) in
          by_dict refl (r ∙ ap ok (given_or-some x w d o same g))
      nested_answer (some (instance_of c es)) e = elim (text_dec c class) [
        | yes p ↦
            let q : load_nested_field env root_prefix n (class, loads) segments overrides
                ≡ ok (some (instance_of c es)) =
              rw (load_nested_field, e) (if_pos (text_dec c class) p _ _) in
            let same = given_or-some (instance_of c es) w d o (cc (h, q)) g in
            subst
              (λ k. NestedChosen env root_prefix class loads d segments (some (instance_of k es)) w)
              (sym p)
              (subst
                (NestedChosen env root_prefix class loads d segments (some (instance_of class es)))
                (ap (λ k. instance_of k es) (sym p) ∙ same) (by_instance refl))
        | no p ↦
            passed_over _ (rw (load_nested_field, e) (if_neg (text_dec c class) p _ _))
              (other_class p)
      ]

-- If load of a settings class whose fields have distinct names succeeds, it gives an instance of
-- that class, and a field for whose type a settings class is loaded holds None if its override is
-- None, what the class's loader makes of an override that is a dict with entries, an override that
-- is an instance of the class; and for any other override or none, what the loader makes of no
-- overrides if a variable is set whose name begins with the root prefix and an underscore, where
-- there is a root prefix, and the segments of the field's path with a double underscore behind
-- each, and the default if no such variable is set.
pub load-NestedChosen :
    {F : Type 0} (env : Dict String) (root_prefix name : String) (fields : Fields F)
    (parents : List String) (overrides : Entries F) (v : Value F) {n : String} {hint : Hint F}
    {m : Meta F} {d : Option (Value F)} (class : String) (loads : Load F)
    → load env root_prefix (settings_class name fields) parents overrides ≡ ok v
    → InFields fields n hint m d
    → IsDistinct fields
    → load_hint env root_prefix hint ≡ ok (some (class, loads))
    → (es : Entries F) × ((v ≡ instance_of name es)
        × ((w : Value F) × ((find n es ≡ some w)
              × NestedChosen env root_prefix class loads d
                  (parents ++ upper n ∷ [])
                  (find n overrides)
                  w)))
unfolding load load_field
load-NestedChosen env root_prefix name fields parents overrides v {n} {hint} {m} {d} class loads h i
      u s =
    let (kwargs, (p, (es, (q, e)))) = built-ok name fields _ v h in
    let (w, (a, b)) = instantiate-find fields kwargs es q i u in
    let k = load_fields-lookup env root_prefix fields parents overrides kwargs p i u in
    let l : load_field env root_prefix n (ok (some (class, loads))) m parents overrides
        ≡ ok (Dict.lookup n kwargs) =
      subst (λ x. load_field env root_prefix n x m parents overrides ≡ ok (Dict.lookup n kwargs)) s
        k in
    (es, (e, (w, (a, nested_answer env root_prefix n class loads d _ w overrides _ l b _ refl))))

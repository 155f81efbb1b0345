-- ===== src/Settings/Children.antt =====
-- settings.py, `_has_env_for_nested`: the variables of the children of a nested path.
use text.Mathlib.TextEquality.{starts_with_iff}
use text.Mathlib.TextPositions.{starts_with-append}
use tlo.Prelude.{
  ◌≡◌, ◌≢◌, refl, sym, ◌∙◌, subst, String, true, false, Bool-cases, none, some, List, [], ◌∷◌, inl,
  inr, text_dec, if_pos, if_neg, arith,
}
use tlo.Prelude.Text.{join, starts_with, ◌<>◌}
use tlo.Prelude.Dict
use tlo.Prelude.Dict.{Dict}
use tlo.Settings.Lookup.{any_key, with_prefix, has_env_for_nested}

-- How the name of a child's variable begins: with the segments, a double underscore behind each, and
-- before them the root prefix with one underscore, if there is one.
pub data Begins (root_prefix : String) (segments : List String) : String → Type 0 where
  unprefixed : root_prefix ≡ "" → Begins root_prefix segments (join "__" segments <> "__")
  prefixed :
      root_prefix ≢ ""
      → Begins root_prefix segments (root_prefix <> ("_" <> (join "__" segments <> "__")))

-- A variable of a child is set.
abbrev pub HasChild : Dict String → String → List String → Type 0
HasChild env root_prefix segments =
    (base : String) × (Begins root_prefix segments base
      × ((rest : String) × ((value : String) × (Dict.lookup (base <> rest) env ≡ some value))))

-- No variable of a child is set.
abbrev pub HasNoChild : Dict String → String → List String → Type 0
HasNoChild env root_prefix segments =
    (base : String) × (Begins root_prefix segments base
      × ((rest : String) → Dict.lookup (base <> rest) env ≡ none))

with_prefix-Begins :
    (root_prefix : String) (segments : List String)
    → Begins root_prefix segments (with_prefix root_prefix (join "__" segments <> "__"))
unfolding with_prefix
with_prefix-Begins root_prefix segments = elim (text_dec root_prefix "") [
  | yes p ↦
      subst (Begins root_prefix segments) (sym (if_pos (text_dec root_prefix "") p _ _))
        (unprefixed p)
  | no p ↦
      subst (Begins root_prefix segments) (sym (if_neg (text_dec root_prefix "") p _ _))
        (prefixed p)
]

any_key-set :
    (base : String) (env : Dict String)
    → any_key base env ≡ true
    → (rest : String) × ((value : String) × (Dict.lookup (base <> rest) env ≡ some value))
unfolding any_key Dict.lookup
any_key-set base [] h = absurd (ground (arith, h))
any_key-set base ((key, value) ∷ env) h = elim (Bool-cases (starts_with key base)) [
  | inl e ↦
      let (rest, p) = (starts_with_iff key base).0 e in
      (rest, (value, if_pos (text_dec key (base <> rest)) (sym p) _ _))
  | inr e ↦
      let (rest, (w, l)) = any_key-set base env (ground (arith, h, e)) in
      elim (text_dec key (base <> rest)) [
        | yes p ↦ (rest, (value, if_pos (text_dec key (base <> rest)) p _ _))
        | no p ↦ (rest, (w, if_neg (text_dec key (base <> rest)) p _ _ ∙ l))
      ]
]

any_key-unset :
    (base rest : String) (env : Dict String)
    → any_key base env ≡ false
    → Dict.lookup (base <> rest) env ≡ none
unfolding any_key Dict.lookup
any_key-unset base rest [] h = refl
any_key-unset base rest ((key, value) ∷ env) h =
    let other : key ≢ (base <> rest) = λ p. absurd (
      ground (
        arith,
        h,
        subst (λ k. starts_with k base ≡ true) (sym p) (starts_with-append base rest),
      )) in
    if_neg (text_dec key (base <> rest)) other _ _ ∙ any_key-unset base rest env (ground (arith, h))

module _ (env : Dict String) (root_prefix : String) (segments : List String) where
  pub has_env_for_nested-HasChild :
      has_env_for_nested env root_prefix segments ≡ true → HasChild env root_prefix segments
  unfolding has_env_for_nested
  has_env_for_nested-HasChild h =
      (_, (with_prefix-Begins root_prefix segments, any_key-set _ env h))

  pub has_env_for_nested-HasNoChild :
      has_env_for_nested env root_prefix segments ≡ false → HasNoChild env root_prefix segments
  unfolding has_env_for_nested
  has_env_for_nested-HasNoChild h =
      (_, (with_prefix-Begins root_prefix segments, λ rest. any_key-unset _ rest env h))

-- ===== src/Composition/Profiles/Effects.antt =====
-- The effect of the decisions of the control plane about a name, of which the last one counts.
use skill_centric_agent_syst.Base.{
  String, ◌≡◌, refl, ap, ◌∙◌, Bool, true, false, Option, none, some, List, [], ◌∷◌, ◌==◌,
  if◌then◌else◌, Dict, get, get-insert, Json, str, arr, obj, Fields, find, has_key, as_text,
  as_mapping,
}
use skill_centric_agent_syst.Base.Outcome.{Outcome, ok, bind_inv, check_inv}
use skill_centric_agent_syst.Composition.ProfileComposer.References.{CompositionError}
use skill_centric_agent_syst.Composition.ProfileComposer.Checks.{
  effects_from, read_decision, add_effect,
}

-- The first of two values that is there.
abbrev pub first_of : Option Json → Option Json → Option Json
first_of (some v) o = some v
first_of none o = o

-- The effect of a decision, where it is about a module of that name.
abbrev pub effect_if_named : String → Json → Option String → Option Json
effect_if_named x effect none = none
effect_if_named x effect (some name) = if x == name then some effect else none

abbrev pub decided : String → Fields → Option Fields → Option Json
decided x decision none = none
decided x decision (some m) = effect_if_named x (find "effect" decision) (as_text (find "name" m))

-- The effect of the last decision about the name, if there is one.
pub last_effect : String → List Fields → Option Json
last_effect x [] = none
last_effect x (d ∷ ds) = first_of (last_effect x ds) (decided x d (as_mapping (find "module" d)))

add_effect-get :
    (x : String) (name effect : Json) (d e : Dict Json)
    → add_effect name effect d ≡ ok e
    → get x e ≡ first_of (effect_if_named x effect (as_text name)) (get x d)
add_effect-get x (str name) effect d e h =
    ap (get x) (inside h) ∙ (get-insert name x effect d ∙ chosen (x == name))
  where
    inside :
        {a b : Dict Json} → ◌≡◌ {A = Outcome CompositionError (Dict Json)} (ok a) (ok b) → b ≡ a
    inside h = cc

    chosen :
        (b : Bool)
        → (if b then some effect else get x d)
          ≡ first_of (if b then some effect else none) (get x d)
    chosen true = refl
    chosen false = refl
add_effect-get x (arr vs) effect d e h = cc
add_effect-get x (obj fs) effect d e h = cc
add_effect-get x v effect d e h = cc

read_decision-get :
    (x : String) (decision : Fields) (o : Option Fields) (d e : Dict Json)
    → read_decision decision o d ≡ ok e
    → get x e ≡ first_of (decided x decision o) (get x d)
read_decision-get x decision none d e h = cc
read_decision-get x decision (some m) d e h =
    let (named, h1) = check_inv (has_key "name" m) _ _ e h in
    let (effect, h2) = check_inv (has_key "effect" decision) _ _ e h1 in
    add_effect-get x (find "name" m) (find "effect" decision) d e h2

effects_from-get :
    (x : String) (ds : List Fields) (d e : Dict Json)
    → effects_from ds d ≡ ok e
    → get x e ≡ first_of (last_effect x ds) (get x d)
unfolding effects_from last_effect
effects_from-get x [] d e h = cc
effects_from-get x (decision ∷ ds) d e h =
    let (next, read, h1) =
      bind_inv (read_decision decision (as_mapping (find "module" decision)) d) _ e h in
    effects_from-get x ds next e h1
    ∙ (ap (first_of (last_effect x ds))
          (read_decision-get x decision (as_mapping (find "module" decision)) d next read)
        ∙ first_of_sym (last_effect x ds) (decided x decision (as_mapping (find "module" decision)))
            (get x d))
  where
    first_of_sym : (a b c : Option Json) → first_of a (first_of b c) ≡ first_of (first_of a b) c
    first_of_sym none b c = refl
    first_of_sym (some v) b c = refl

-- What the composer reads of the decisions about a name is the effect of the last one.
pub effects-last :
    (x : String) (ds : List Fields) (e : Dict Json)
    → effects_from ds [] ≡ ok e
    → get x e ≡ last_effect x ds
unfolding get
effects-last x ds e h = effects_from-get x ds [] e h ∙ or_none (last_effect x ds)
  where
    or_none : (o : Option Json) → first_of o none ≡ o
    or_none none = refl
    or_none (some v) = refl

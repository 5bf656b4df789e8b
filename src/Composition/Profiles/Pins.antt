-- ===== src/Composition/Profiles/Pins.antt =====
-- Pins, texts and selections of a profile: what is a member of them.
use skill_centric_agent_syst.Base.{
  String, ◌≡◌, refl, ap, Bool, true, false, ◌||◌, List, [], ◌∷◌, ◌==◌, arith, eq_iff, keep, member,
  Dict, insert, keys, elements, text_items, ◌⊎◌, inl, inr,
}
use skill_centric_agent_syst.Base.Outcome.{ok, bind_inv}
use skill_centric_agent_syst.Runtime.Enforcement.Profile.{field_names}
use skill_centric_agent_syst.Runtime.Invariants.{texts_in}
use skill_centric_agent_syst.Composition.ProfileComposer.Context.{
  pins_from, version_for, text_object,
}

pub member-insert :
    (x k v : String) (d : Dict String)
    → member x (keys (insert k v d)) ≡ ((x == k) || member x (keys d))
unfolding member insert keys
member-insert x k v [] = ground arith
member-insert x k v ((j, w) ∷ d) =
    ground (arith, eq_iff x k, eq_iff k j, eq_iff x j, member-insert x k v d)

-- The names that are pinned are those that were asked for, and those that were there.
pub member-pins_from :
    (versions : Dict String) (task_type : String) (names : List String) (d pins : Dict String)
    (x : String)
    → pins_from versions task_type names d ≡ ok pins
    → member x (keys pins) ≡ (member x names || member x (keys d))
unfolding pins_from member
member-pins_from versions task_type [] d pins x h = ground arith
member-pins_from versions task_type (name ∷ rest) d pins x h =
    let (v, found, more) = bind_inv (version_for name versions task_type) _ pins h in
    ground (
      arith,
      member-pins_from versions task_type rest (insert name v d) pins x more,
      member-insert x name v d,
    )

pub field_names-text_object : (d : Dict String) → field_names (text_object d) ≡ keys d
unfolding keys
field_names-text_object [] = refl
field_names-text_object ((k, v) ∷ d) = ap (λ ks. k ∷ ks) (field_names-text_object d)

pub texts_in-texts : (xs : List String) → texts_in (elements (text_items xs)) ≡ xs
unfolding texts_in
texts_in-texts [] = refl
texts_in-texts (x ∷ xs) = ap (λ ys. x ∷ ys) (texts_in-texts xs)

pub member-keep :
    (p : String → Bool) (xs : List String) (x : String)
    → member x (keep p xs) ≡ true
    → member x xs ≡ true
unfolding keep member
member-keep p [] x h = cc
member-keep p (y ∷ ys) x h = ground (arith, member-keep p ys x)

pub either : (a b : Bool) → (a || b) ≡ true → (a ≡ true) ⊎ (b ≡ true)
either true b h = inl refl
either false b h = inr h

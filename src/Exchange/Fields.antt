-- ===== src/Exchange/Fields.antt =====
-- Looking up an item among those that were added.
use mm_wave_tracker.Prelude.{
  ◌≡◌, refl, ◌∙◌, List, [], ◌∷◌, Option, none, some, ◌==◌, if◌then◌else◌, Bool-cases, inl, inr,
  arith,
}
use mm_wave_tracker.Prelude.Int.{ℤ}
use mm_wave_tracker.Exchange.Items.{Key, Item, Field, Json, code, as_read, or_else, add_all}

-- The first item with a name.
abbrev pub find_field : (ℤ → ℤ) → Key → List Field → Option Item
find_field stored k [] = none
find_field stored k (f ∷ fs) =
    if code f.key == code k
    then (if f.present then some (as_read stored f.item) else find_field stored k fs)
    else find_field stored k fs

or_else_assoc : (a b c : Option Item) → or_else (or_else a b) c ≡ or_else a (or_else b c)
or_else_assoc none b c = refl
or_else_assoc (some x) b c = refl

module _ {J : Type 0} (json : Json J) where
  get-add_all_from :
      (fs : List Field) (j : J) (k : Key)
      → json.get (add_all json j fs) k ≡ or_else (json.get j k) (find_field json.stored k fs)
  unfolding add_all
  get-add_all_from [] j k = ground arith
  get-add_all_from (f ∷ fs) j k = elim (Bool-cases f.present) [
    | inl p ↦
        let step = get-add_all_from fs (json.add j f.key f.item) k in
        elim (Bool-cases (code f.key == code k)) [
          | inl e ↦
              rw (p, add_all, step, json.get-add j f.key f.item k, e)
                (or_else_assoc (json.get j k) (some (as_read json.stored f.item))
                  (find_field json.stored k fs))
          | inr e ↦
              rw (p, add_all, step, json.get-add j f.key f.item k, e)
                (or_else_assoc (json.get j k) none (find_field json.stored k fs))
        ]
    | inr p ↦ elim (Bool-cases (code f.key == code k)) [
      | inl e ↦ rw (p, add_all, e) (get-add_all_from fs j k)
      | inr e ↦ rw (p, add_all, e) (get-add_all_from fs j k)
    ]
  ]

  -- An object with added items has the first of each name.
  pub get-add_all :
      (fs : List Field) (k : Key)
      → json.get (add_all json json.create fs) k ≡ find_field json.stored k fs
  get-add_all fs k = get-add_all_from fs json.create k ∙ rw (json.get-create k) refl

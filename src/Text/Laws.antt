-- ===== src/Text/Laws.antt =====
-- That reading fields undoes joining them.
use wspace_controller.Prelude.{ℕ, ◌≡◌, refl, ap, ◌∙◌, ◌≢◌, List, [], ◌∷◌, ◌++◌, arith, ==-ne}
use wspace_controller.Text.{cons_first, fields}

-- The fields with the separator between them.
abbrev pub join : ℕ → List (List ℕ) → List ℕ
join sep [] = []
join sep (f ∷ []) = f
join sep (f ∷ g ∷ fs) = f ++ sep ∷ join sep (g ∷ fs)

abbrev pub IsWithout : ℕ → List ℕ → Type 0
IsWithout sep [] = Unit
IsWithout sep (c ∷ cs) = (c ≢ sep) × IsWithout sep cs

-- Fields that can be read back: without the separator, and the last one not empty.
abbrev pub AreFields : ℕ → List (List ℕ) → Type 0
AreFields sep [] = Unit
AreFields sep (f ∷ []) = IsWithout sep f × (f ≢ [])
AreFields sep (f ∷ g ∷ fs) = IsWithout sep f × AreFields sep (g ∷ fs)

fields-one : (sep c : ℕ) (f : List ℕ) → IsWithout sep (c ∷ f) → fields sep (c ∷ f) ≡ (c ∷ f) ∷ []
unfolding fields
fields-one sep c [] w = rw (==-ne c sep w.0)
fields-one sep c (b ∷ f) w = rw (==-ne c sep w.0) (ap (cons_first c) (fields-one sep b f w.1))

fields-more :
    (sep : ℕ) (f rest : List ℕ)
    → IsWithout sep f
    → fields sep (f ++ sep ∷ rest) ≡ f ∷ fields sep rest
unfolding fields
fields-more sep [] rest w = ground arith
fields-more sep (c ∷ f) rest w =
    rw (==-ne c sep w.0) (ap (cons_first c) (fields-more sep f rest w.1))

-- Fields none of which has the separator, and of which the last is not empty, are read back from the
-- text in which they stand with the separator between them.
pub fields-join : (sep : ℕ) (fs : List (List ℕ)) → AreFields sep fs → fields sep (join sep fs) ≡ fs
unfolding fields
fields-join sep [] a = refl
fields-join sep ([] ∷ []) a = absurd (a.1 refl)
fields-join sep ((c ∷ f) ∷ []) a = fields-one sep c f a.0
fields-join sep (f ∷ g ∷ fs) a =
    fields-more sep f (join sep (g ∷ fs)) a.0 ∙ ap (λ x. f ∷ x) (fields-join sep (g ∷ fs) a.1)

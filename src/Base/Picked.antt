-- ===== src/Base/Picked.antt =====
-- A list with some of its elements left out, and the others in their order.
use mathlib.Core.Path.{◌≡◌, refl, ap}
use mathlib.Core.Bool.{Bool, true, false}
use mathlib.Core.List.{List, [], ◌∷◌, map}
use arun_work.Base.Lists.{All}

-- Those for which the answer is `true`.
abbrev pub picked : {A : Type 0} → List Bool → List A → List A
picked [] xs = []
picked (b ∷ bs) [] = []
picked (true ∷ bs) (x ∷ xs) = x ∷ picked bs xs
picked (false ∷ bs) (x ∷ xs) = picked bs xs

pub All-picked :
    {A : Type 0} (P : A → Type 0) (bs : List Bool) (xs : List A) → All P xs → All P (picked bs xs)
All-picked P [] xs h = tt
All-picked P (b ∷ bs) [] h = tt
All-picked P (true ∷ bs) (x ∷ xs) h = (h.0, All-picked P bs xs h.1)
All-picked P (false ∷ bs) (x ∷ xs) h = All-picked P bs xs h.1

pub picked-map :
    {A B : Type 0} (f : A → B) (bs : List Bool) (xs : List A)
    → picked bs (map f xs) ≡ map f (picked bs xs)
picked-map f [] xs = refl
picked-map f (b ∷ bs) [] = refl
picked-map f (true ∷ bs) (x ∷ xs) = ap (◌∷◌ (f x)) (picked-map f bs xs)
picked-map f (false ∷ bs) (x ∷ xs) = picked-map f bs xs

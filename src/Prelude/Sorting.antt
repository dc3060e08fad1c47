-- ===== src/Prelude/Sorting.antt =====
-- Sorting by a key, with `sort_by`.
use Prim.Native.Nat.{ℕ, zero, suc, ◌≤◌}
use mathlib.Core.Path.{◌≡◌, refl}
use mathlib.Core.List.{List, [], ◌∷◌}
use mathlib.Core.Bool.{Bool, true, false}
use native.Mathlib.Omega.{arith}
use authstunt.Prelude.Tests.{if◌then◌else◌}
use authstunt.Prelude.Lists.{All, take, insert_by, sort_by, insert_by-All, take-All}

-- Each element comes no later than those after it.
abbrev pub Ascending : {A : Type 0} → (A → ℕ) → List A → Type 0
Ascending key [] = Unit {0}
Ascending key (x ∷ xs) = All (λ y. key x ≤ key y) xs × Ascending key xs

pub All-mono :
    {A : Type 0} (P Q : A → Type 0) (xs : List A) → ((x : A) → P x → Q x) → All P xs → All Q xs
All-mono P Q [] h a = tt
All-mono P Q (x ∷ xs) h a = (h x a.0, All-mono P Q xs h a.1)

module _ {A : Type 0} (key : A → ℕ) (before : A → A → Bool)
    (earlier : (x y : A) → before x y ≡ true → key x ≤ key y)
    (later : (x y : A) → before x y ≡ false → key y ≤ key x) where
  insert_by-Ascending :
      (x : A) (xs : List A) → Ascending key xs → Ascending key (insert_by before x xs)
  unfolding insert_by
  insert_by-Ascending x [] h = (tt, tt)
  insert_by-Ascending x (y ∷ ys) h = split (insert_by-Ascending x ys h.1) (before y x) refl
    where
      split :
          Ascending key (insert_by before x ys)
          → (b : Bool) → before y x ≡ b
          → Ascending key (if b then y ∷ insert_by before x ys else x ∷ y ∷ ys)
      split rest true e = (insert_by-All _ before x ys (earlier y x e) h.0, rest)
      split rest false e =
          ((later y x e, All-mono _ _ ys (λ z le. omega (arith, later y x e)) h.0), h)

  pub sort_by-Ascending : (xs : List A) → Ascending key (sort_by before xs)
  unfolding sort_by
  sort_by-Ascending [] = tt
  sort_by-Ascending (x ∷ xs) = insert_by-Ascending x _ (sort_by-Ascending xs)

pub take-Ascending :
    {A : Type 0} (key : A → ℕ) (n : ℕ) (xs : List A) → Ascending key xs → Ascending key (take n xs)
take-Ascending key zero xs h = tt
take-Ascending key (suc n) [] h = tt
take-Ascending key (suc n) (x ∷ xs) h = (take-All _ n xs h.0, take-Ascending key n xs h.1)

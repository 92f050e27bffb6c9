-- ===== src/Prelude/Memberships.antt =====
-- Membership in lists, and lists of the same members in another order.
use Prim.Native.Nat.{ℕ}
use mathlib.Core.Path.{◌≡◌, refl, sym, ap, ◌∙◌}
use mathlib.Core.Logic.{◌⊎◌, inl, inr}
use mathlib.Core.Bool.{Bool, true}
use mathlib.Core.List.{List, [], ◌∷◌, ◌++◌, map, Memᴰ, Permᴰ}
use native.Mathlib.Omega.{arith}
use cmnw.Prelude.Tests.{◌==◌, ==_iff, Bool-cases}
use cmnw.Prelude.Lists.{any, All}

pub Memᴰ-append_left : {A : Type 0} {x : A} (xs ys : List A) → Memᴰ x xs → Memᴰ x (xs ++ ys)
Memᴰ-append_left [] ys m = elim m [ ]
Memᴰ-append_left (z ∷ xs) ys (Memᴰ.head e) = Memᴰ.head e
Memᴰ-append_left (z ∷ xs) ys (Memᴰ.tail m) = Memᴰ.tail (Memᴰ-append_left xs ys m)

pub Memᴰ-append_right : {A : Type 0} {x : A} (xs ys : List A) → Memᴰ x ys → Memᴰ x (xs ++ ys)
Memᴰ-append_right [] ys m = m
Memᴰ-append_right (z ∷ xs) ys m = Memᴰ.tail (Memᴰ-append_right xs ys m)

pub Memᴰ-append_cases :
    {A : Type 0} {x : A} (xs ys : List A) → Memᴰ x (xs ++ ys) → Memᴰ x xs ⊎ Memᴰ x ys
Memᴰ-append_cases [] ys m = inr m
Memᴰ-append_cases (z ∷ xs) ys (Memᴰ.head e) = inl (Memᴰ.head e)
Memᴰ-append_cases (z ∷ xs) ys (Memᴰ.tail m) = elim (Memᴰ-append_cases xs ys m) [
  | inl l ↦ inl (Memᴰ.tail l)
  | inr r ↦ inr r
]

pub Memᴰ-map : {A B : Type 0} (f : A → B) (x : A) (xs : List A) → Memᴰ x xs → Memᴰ (f x) (map f xs)
Memᴰ-map f x [] k = elim k [ ]
Memᴰ-map f x (y ∷ xs) (Memᴰ.head e) = Memᴰ.head (ap f e)
Memᴰ-map f x (y ∷ xs) (Memᴰ.tail k) = Memᴰ.tail (Memᴰ-map f x xs k)

-- What stands in the image comes from a member.
pub Memᴰ-map_origin :
    {A B : Type 0} (f : A → B) (y : B) (xs : List A)
    → Memᴰ y (map f xs)
    → (x : A) × Memᴰ x xs × (y ≡ f x)
Memᴰ-map_origin f y [] k = elim k [ ]
Memᴰ-map_origin f y (x ∷ xs) (Memᴰ.head e) = (x, Memᴰ.head refl, e)
Memᴰ-map_origin f y (x ∷ xs) (Memᴰ.tail k) =
    let (z, m, e) = Memᴰ-map_origin f y xs k in (z, Memᴰ.tail m, e)

pub All-Memᴰ : {A : Type 0} {P : A → Type 0} (xs : List A) → ((x : A) → Memᴰ x xs → P x) → All P xs
All-Memᴰ [] h = tt
All-Memᴰ (x ∷ xs) h = (h x (Memᴰ.head refl), All-Memᴰ xs (λ y m. h y (Memᴰ.tail m)))

pub Memᴰ-of_number : (i : ℕ) (xs : List ℕ) → any (λ j. j == i) xs ≡ true → Memᴰ i xs
Memᴰ-of_number i [] h = ground arith
Memᴰ-of_number i (x ∷ xs) h = elim (Bool-cases (x == i)) [
  | inl same ↦ Memᴰ.head (sym ((==_iff x i).0 same))
  | inr other ↦ Memᴰ.tail (Memᴰ-of_number i xs (ground arith))
]

pub any-Permᴰ : {A : Type 0} (p : A → Bool) {xs ys : List A} → Permᴰ xs ys → any p xs ≡ any p ys
any-Permᴰ p Permᴰ.nil = refl
any-Permᴰ p (Permᴰ.cons e q) = ground (arith, ap p e, any-Permᴰ p q)
any-Permᴰ p (Permᴰ.swap e f) = ground (arith, ap p e, ap p f)
any-Permᴰ p (Permᴰ.trans q r) = any-Permᴰ p q ∙ any-Permᴰ p r

pub Permᴰ-map :
    {A B : Type 0} (f : A → B) {xs ys : List A} → Permᴰ xs ys → Permᴰ (map f xs) (map f ys)
Permᴰ-map f Permᴰ.nil = Permᴰ.nil
Permᴰ-map f (Permᴰ.cons e q) = Permᴰ.cons (ap f e) (Permᴰ-map f q)
Permᴰ-map f (Permᴰ.swap e g) = Permᴰ.swap (ap f e) (ap f g)
Permᴰ-map f (Permᴰ.trans q r) = Permᴰ.trans (Permᴰ-map f q) (Permᴰ-map f r)

pub Permᴰ-sym : {A : Type 0} {xs ys : List A} → Permᴰ xs ys → Permᴰ ys xs
Permᴰ-sym Permᴰ.nil = Permᴰ.nil
Permᴰ-sym (Permᴰ.cons e p) = Permᴰ.cons (sym e) (Permᴰ-sym p)
Permᴰ-sym (Permᴰ.swap e f) = Permᴰ.swap (sym f) (sym e)
Permᴰ-sym (Permᴰ.trans p q) = Permᴰ.trans (Permᴰ-sym q) (Permᴰ-sym p)

pub Memᴰ-Permᴰ : {A : Type 0} {x : A} {xs ys : List A} → Permᴰ xs ys → Memᴰ x xs → Memᴰ x ys
Memᴰ-Permᴰ Permᴰ.nil m = m
Memᴰ-Permᴰ (Permᴰ.cons e p) (Memᴰ.head h) = Memᴰ.head (h ∙ e)
Memᴰ-Permᴰ (Permᴰ.cons e p) (Memᴰ.tail m) = Memᴰ.tail (Memᴰ-Permᴰ p m)
Memᴰ-Permᴰ (Permᴰ.swap e f) (Memᴰ.head h) = Memᴰ.tail (Memᴰ.head (h ∙ e))
Memᴰ-Permᴰ (Permᴰ.swap e f) (Memᴰ.tail (Memᴰ.head h)) = Memᴰ.head (h ∙ f)
Memᴰ-Permᴰ (Permᴰ.swap e f) (Memᴰ.tail (Memᴰ.tail m)) = Memᴰ.tail (Memᴰ.tail m)
Memᴰ-Permᴰ (Permᴰ.trans p q) m = Memᴰ-Permᴰ q (Memᴰ-Permᴰ p m)

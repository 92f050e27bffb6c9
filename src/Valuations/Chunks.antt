-- ===== src/Valuations/Chunks.antt =====
-- A loop in batches does what the plain loop does.
use mathlib.Core.Path.{fun_ext}
use cmnw.Prelude.{
  ℕ, zero, suc, ◌≤◌, List, [], ◌∷◌, ◌++◌, take, drop, length, ◌≡◌, refl, sym, ap, ◌∙◌, arith,
}
use cmnw.Valuations.Items.{Run, done, threw, ◌>>=◌, for_each, for_chunks}

>>=-assoc : {S : Type 0} (r : Run S) (f g : S → Run S) → (r >>= f >>= g) ≡ (r >>= λ s. f s >>= g)
>>=-assoc (done s) f g = refl
>>=-assoc (threw s) f g = refl

pub for_each-append :
    {A S : Type 0} (body : A → S → Run S) (xs ys : List A) (s : S)
    → for_each body (xs ++ ys) s ≡ (for_each body xs s >>= for_each body ys)
unfolding for_each
for_each-append body [] ys s = refl
for_each-append body (x ∷ xs) ys s =
    ap (λ k. body x s >>= k) (fun_ext (for_each-append body xs ys))
    ∙ sym (>>=-assoc (body x s) (for_each body xs) (for_each body ys))

take-drop : {A : Type 0} (n : ℕ) (xs : List A) → take n xs ++ drop n xs ≡ xs
take-drop zero xs = refl
take-drop (suc n) [] = refl
take-drop (suc n) (x ∷ xs) = ap (λ ys. x ∷ ys) (take-drop n xs)

length-drop : {A : Type 0} (n : ℕ) (xs : List A) → length (drop n xs) ≤ length xs
length-drop zero xs = omega arith
length-drop (suc n) [] = omega arith
length-drop (suc n) (x ∷ xs) = omega (arith, length-drop n xs)

-- With a round for each element, the batches are enough, and they are the loop over all elements.
pub for_chunks-for_each :
    {A S : Type 0} (fuel size : ℕ) (body : A → S → Run S) (xs : List A) (s : S)
    → length xs ≤ fuel
    → for_chunks fuel (suc size) body xs s ≡ for_each body xs s
unfolding for_chunks for_each
for_chunks-for_each fuel size body [] s h = refl
for_chunks-for_each zero size body (x ∷ xs) s h = absurd (omega arith)
for_chunks-for_each (suc fuel) size body (x ∷ xs) s h =
    ap (λ k. for_each body (x ∷ take size xs) s >>= k)
      (fun_ext λ t.
        for_chunks-for_each fuel size body (drop size xs) t (omega (arith, length-drop size xs)))
    ∙ sym (for_each-append body (x ∷ take size xs) (drop size xs) s)
    ∙ ap (λ ys. for_each body (x ∷ ys) s) (take-drop size xs)

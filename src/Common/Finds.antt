-- ===== src/Common/Finds.antt =====
-- What a search, a filter and an ordering say of the elements of a list.
use cyandie_backend.Common.Tests.{Bool-cases}
use cyandie_backend.Common.Lists.{keep, find, any, All}
use mathlib.Core.Path.{◌≡◌, refl, sym, ap}
use mathlib.Core.Bool.{Bool, true, false, not, ◌&&◌, ◌||◌}
use mathlib.Core.List.{List, [], ◌∷◌, ◌++◌, map, Memᴰ}
use mathlib.Core.Logic.{inl, inr}
use mathlib.Core.Option.{none, some}
use native.Mathlib.Omega.{arith}

module _ {ℓ} {A : Type ℓ} where
  pub All-of_find-none : (p : A → Bool) (xs : List A) → find p xs ≡ none → All (λ x. p x ≡ false) xs
  All-of_find-none p [] h = tt
  All-of_find-none p (x ∷ xs) h = ground (arith, All-of_find-none p xs)

  pub find-none_of_All : (p : A → Bool) (xs : List A) → All (λ x. p x ≡ false) xs → find p xs ≡ none
  find-none_of_All p [] h = refl
  find-none_of_All p (x ∷ xs) h = ground (arith, find-none_of_All p xs h.1)

  pub find-some_test : (p : A → Bool) (xs : List A) {a : A} → find p xs ≡ some a → p a ≡ true
  find-some_test p [] h = cc
  find-some_test p (x ∷ xs) {a} h = elim (Bool-cases (p x)) [
    | inl hit ↦ ground (arith, find-some_test p xs {a = a})
    | inr miss ↦ find-some_test p xs (ground arith)
  ]

  pub All-append {κ} : (P : A → Type κ) (xs ys : List A) → All P xs → All P ys → All P (xs ++ ys)
  All-append P [] ys h k = k
  All-append P (x ∷ xs) ys h k = (h.0, All-append P xs ys h.1 k)

  pub All-keep {κ} : (P : A → Type κ) (p : A → Bool) (xs : List A) → All P xs → All P (keep p xs)
  All-keep P p [] h = h
  All-keep P p (x ∷ xs) h = elim (Bool-cases (p x)) [
    | inl hit ↦ rw hit (h.0, All-keep P p xs h.1)
    | inr miss ↦ rw miss (All-keep P p xs h.1)
  ]

  pub All-of_keep : (p : A → Bool) (xs : List A) → All (λ x. p x ≡ true) (keep p xs)
  All-of_keep p [] = tt
  All-of_keep p (x ∷ xs) = elim (Bool-cases (p x)) [
    | inl hit ↦ rw hit (hit, All-of_keep p xs)
    | inr miss ↦ rw miss (All-of_keep p xs)
  ]

  pub All-mono {κ μ} :
      (P : A → Type κ) (Q : A → Type μ) (imp : (x : A) → P x → Q x) (xs : List A)
      → All P xs
      → All Q xs
  All-mono P Q imp [] h = tt
  All-mono P Q imp (x ∷ xs) h = (imp x h.0, All-mono P Q imp xs h.1)

  pub any-append : (p : A → Bool) (xs ys : List A) → any p (xs ++ ys) ≡ (any p xs || any p ys)
  any-append p [] ys = refl
  any-append p (x ∷ xs) ys = ground (arith, any-append p xs ys)

  pub any-keep-not : (p : A → Bool) (xs : List A) → any p (keep (λ x. not (p x)) xs) ≡ false
  any-keep-not p [] = refl
  any-keep-not p (x ∷ xs) = elim (Bool-cases (p x)) [
    | inl hit ↦ rw hit (any-keep-not p xs)
    | inr miss ↦ rw miss (ground (arith, any-keep-not p xs))
  ]

  pub find-keep-not : (p : A → Bool) (xs : List A) → find p (keep (λ x. not (p x)) xs) ≡ none
  find-keep-not p [] = refl
  find-keep-not p (x ∷ xs) = elim (Bool-cases (p x)) [
    | inl hit ↦ rw hit (find-keep-not p xs)
    | inr miss ↦ rw miss (ground (arith, find-keep-not p xs))
  ]

  pub find-append :
      (p : A → Bool) (xs ys : List A)
      → find p (xs ++ ys) ≡ elim (find p xs) [ none ↦ find p ys | some a ↦ some a ]
  find-append p [] ys = refl
  find-append p (x ∷ xs) ys = ground (arith, find-append p xs ys)

  -- A search that finds the last element at the latest.
  pub find-snoc :
      (p : A → Bool) (xs : List A) (y : A) → p y ≡ true → (a : A) × (find p (xs ++ y ∷ []) ≡ some a)
  find-snoc p [] y h = (y, rw h)
  find-snoc p (x ∷ xs) y h = elim (Bool-cases (p x)) [
    | inl hit ↦ (x, rw hit)
    | inr miss ↦ let (a, e) = find-snoc p xs y h in (a, rw miss e)
  ]

  pub any-find :
      (p : A → Bool) (xs : List A) → any p xs ≡ elim (find p xs) [ none ↦ false | some a ↦ true ]
  any-find p [] = refl
  any-find p (x ∷ xs) = ground (arith, any-find p xs)

  pub All-of_any-false : (p : A → Bool) (xs : List A) → any p xs ≡ false → All (λ x. p x ≡ false) xs
  All-of_any-false p [] h = tt
  All-of_any-false p (x ∷ xs) h = ground (arith, All-of_any-false p xs)

  pub any-keep : (p q : A → Bool) (xs : List A) → any p (keep q xs) ≡ any (λ x. q x && p x) xs
  any-keep p q [] = refl
  any-keep p q (x ∷ xs) = ground (arith, any-keep p q xs)

pub any-map {ℓ κ} :
    {A : Type ℓ} {B : Type κ} (p : B → Bool) (f : A → B) (xs : List A)
    → any p (map f xs) ≡ any (λ x. p (f x)) xs
any-map p f [] = refl
any-map p f (x ∷ xs) = ap (◌||◌ (p (f x))) (any-map p f xs)

module _ {ℓ} {A : Type ℓ} where
  pub find-snoc_miss :
      (p : A → Bool) (xs : List A) (x : A) → p x ≡ false → find p (xs ++ x ∷ []) ≡ find p xs
  find-snoc_miss p [] x h = rw h refl
  find-snoc_miss p (y ∷ ys) x h = ground (arith, find-snoc_miss p ys x h)

  pub any-some : (p : A → Bool) (xs : List A) → any p xs ≡ true → (a : A) × Memᴰ a xs × (p a ≡ true)
  any-some p [] h = cc
  any-some p (x ∷ xs) h = elim (Bool-cases (p x)) [
    | inl hit ↦ (x, Memᴰ.head refl, hit)
    | inr miss ↦ let (a, there, holds) = any-some p xs (ground arith) in (a, Memᴰ.tail there, holds)
  ]

  pub any-of_some : (p : A → Bool) (a : A) (xs : List A) → Memᴰ a xs → p a ≡ true → any p xs ≡ true
  any-of_some p a [] m h = elim m [ ]
  any-of_some p a (x ∷ xs) (Memᴰ.head e) h = rw (sym e, h) refl
  any-of_some p a (x ∷ xs) (Memᴰ.tail m) h = ground (arith, any-of_some p a xs m h)

-- ===== src/Base/Cuts.antt =====
-- Keys of lists that are cut or put together.
use Prim.Native.Nat.{ℕ, zero, suc, ◌+◌}
use mathlib.Core.Path.{◌≡◌, refl}
use mathlib.Core.Bool.{true, false}
use mathlib.Core.Logic.{inl, inr}
use mathlib.Core.List.{List, [], ◌∷◌, ◌++◌}
use native.Mathlib.Omega.{arith}
use mini_llmcache.Base.Tests.{if◌then◌else◌, to_nat, Bool-cases}
use mini_llmcache.Base.Lists.{elem, Distinct, take, drop}

module _ {A : Type 0} (dec : Discrete A) where
  pub elem-append :
      (k : A) (xs ys : List A)
      → elem dec k (xs ++ ys) ≡ (if elem dec k xs then true else elem dec k ys)
  elem-append k [] ys = refl
  elem-append k (x ∷ xs) ys = ground (arith, elem-append k xs ys)

  pub elem-drop :
      (k : A) (n : ℕ) (xs : List A) → elem dec k xs ≡ false → elem dec k (drop n xs) ≡ false
  elem-drop k zero xs h = h
  elem-drop k (suc n) [] h = refl
  elem-drop k (suc n) (x ∷ xs) h = elem-drop k n xs (ground (arith, h))

  pub drop-Distinct : (n : ℕ) (xs : List A) → Distinct dec xs → Distinct dec (drop n xs)
  drop-Distinct zero xs h = h
  drop-Distinct (suc n) [] h = tt
  drop-Distinct (suc n) (x ∷ xs) h = drop-Distinct n xs h.1

  -- A key is not both before and after a cut.
  pub elem-cut :
      (k : A) (n : ℕ) (xs : List A)
      → Distinct dec xs
      → elem dec k (drop n xs) ≡ true
      → elem dec k (take n xs) ≡ false
  elem-cut k zero xs h at = refl
  elem-cut k (suc n) [] h at = refl
  elem-cut k (suc n) (x ∷ xs) h at = elim (dec k x) [
    | yes here ↦ absurd (let out = elem-drop x n xs h.0 in ground (arith, out, here, at))
    | no other ↦ ground (arith, other, elem-cut k n xs h.1 at)
  ]

  pub elem-of_take :
      (k : A) (n : ℕ) (xs : List A) → elem dec k (take n xs) ≡ true → elem dec k xs ≡ true
  elem-of_take k zero xs at = absurd (cc)
  elem-of_take k (suc n) [] at = absurd (cc)
  elem-of_take k (suc n) (x ∷ xs) at = ground (arith, elem-of_take k n xs, at)

  pub elem-of_drop :
      (k : A) (n : ℕ) (xs : List A) → elem dec k (drop n xs) ≡ true → elem dec k xs ≡ true
  elem-of_drop k n xs at = elim (Bool-cases (elem dec k xs)) [
    | inl there ↦ there
    | inr missing ↦ absurd (let out = elem-drop k n xs missing in ground (arith, out, at))
  ]

  -- Lists without a common key.
  pub append-Distinct :
      (xs ys : List A)
      → Distinct dec xs
      → Distinct dec ys
      → ((k : A) → elem dec k xs ≡ true → elem dec k ys ≡ false)
      → Distinct dec (xs ++ ys)
  append-Distinct [] ys h g apart = g
  append-Distinct (x ∷ xs) ys h g apart = (
    ground (arith, elem-append x xs ys, h.0, apart x (ground arith)),
    append-Distinct xs ys h.1 g (λ k at. apart k (ground (arith, at))),
  )

  pub to_nat-append :
      (k : A) (xs ys : List A)
      → (elem dec k xs ≡ true → elem dec k ys ≡ false)
      → to_nat (elem dec k (xs ++ ys)) ≡ to_nat (elem dec k xs) + to_nat (elem dec k ys)
  to_nat-append k xs ys apart = elim (Bool-cases (elem dec k xs)) [
    | inl left ↦ rw (elem-append k xs ys, left, apart left) refl
    | inr right ↦ rw (elem-append k xs ys, right) (omega arith)
  ]

  -- What is not in a list is not in its beginning.
  pub elem-take :
      (k : A) (n : ℕ) (xs : List A) → elem dec k xs ≡ false → elem dec k (take n xs) ≡ false
  elem-take k zero xs h = refl
  elem-take k (suc n) [] h = refl
  elem-take k (suc n) (x ∷ xs) h = ground (arith, elem-take k n xs)

  pub take-Distinct : (n : ℕ) (xs : List A) → Distinct dec xs → Distinct dec (take n xs)
  take-Distinct zero xs h = tt
  take-Distinct (suc n) [] h = tt
  take-Distinct (suc n) (x ∷ xs) h = (elem-take x n xs h.0, take-Distinct n xs h.1)

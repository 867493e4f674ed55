-- ===== src/Prelude/Lists.antt =====
-- Lists measured by native numbers, and membership and removal of duplicates by a Boolean test.
use Prim.Native.Nat.{ℕ, zero, suc, ◌+◌, ◌≤◌, min}
use mathlib.Core.Path.{◌≡◌, refl}
use mathlib.Core.Bool.{Bool, true, false, ◌||◌}
use mathlib.Core.List.{List, [], ◌∷◌, ◌++◌}
use mathlib.Core.Logic.{inl, inr, ◌⊎◌}
use native.Mathlib.Omega.{arith}
use k8s_ops.Prelude.Tests.{Bool-cases, Eq, ◌==◌, if◌then◌else◌, beq_self, beq_true}

module _ {ℓ} {A : Type ℓ} where
  abbrev pub length : List A → ℕ
  length [] = 0
  length (x ∷ xs) = suc (length xs)

  abbrev pub take : ℕ → List A → List A
  take zero xs = []
  take (suc n) [] = []
  take (suc n) (x ∷ xs) = x ∷ take n xs

  abbrev pub drop : ℕ → List A → List A
  drop zero xs = xs
  drop (suc n) [] = []
  drop (suc n) (x ∷ xs) = drop n xs

  pub take-append-drop : (n : ℕ) (xs : List A) → take n xs ++ drop n xs ≡ xs
  take-append-drop zero xs = refl
  take-append-drop (suc n) [] = refl
  take-append-drop (suc n) (x ∷ xs) = rw (take-append-drop n xs)

  -- `[x for x in xs if p(x)]`
  abbrev pub select : (A → Bool) → List A → List A
  select p [] = []
  select p (x ∷ xs) = let rest = select p xs in if p x then x ∷ rest else rest

  abbrev pub any : (A → Bool) → List A → Bool
  any p [] = false
  any p (x ∷ xs) = p x || any p xs

  abbrev pub is_empty : List A → Bool
  is_empty [] = true
  is_empty (x ∷ xs) = false

  pub length-append : (xs ys : List A) → length (xs ++ ys) ≡ length xs + length ys
  length-append [] ys = omega arith
  length-append (x ∷ xs) ys = omega (arith, length-append xs ys)

  pub length-take : (n : ℕ) (xs : List A) → length (take n xs) ≡ min n (length xs)
  length-take zero xs = omega arith
  length-take (suc n) [] = omega arith
  length-take (suc n) (x ∷ xs) = omega (arith, length-take n xs)

  pub length-select-le : (p : A → Bool) (xs : List A) → length (select p xs) ≤ length xs
  length-select-le p [] = omega arith
  length-select-le p (x ∷ xs) = ground (arith, length-select-le p xs)

-- Membership that can be matched on.
pub data In {ℓ} {A : Type ℓ} (a : A) : List A → Type ℓ where
  here : {xs : List A} → In a (a ∷ xs)
  there : {x : A} {xs : List A} → In a xs → In a (x ∷ xs)

module _ {ℓ} {A : Type ℓ} ⦃e : Eq A⦄ where
  -- `value in values`
  abbrev pub contains : List A → A → Bool
  contains [] a = false
  contains (x ∷ xs) a = (x == a) || contains xs a

  -- how often a value occurs
  abbrev pub count : A → List A → ℕ
  count a [] = 0
  count a (x ∷ xs) = let rest = count a xs in if x == a then suc rest else rest

  pub contains-append :
      (xs ys : List A) (a : A) → contains (xs ++ ys) a ≡ (contains xs a || contains ys a)
  contains-append [] ys a = refl
  contains-append (x ∷ xs) ys a = ground (arith, contains-append xs ys a)

  pub count-append : (a : A) (xs ys : List A) → count a (xs ++ ys) ≡ count a xs + count a ys
  count-append a [] ys = omega arith
  count-append a (x ∷ xs) ys = ground (arith, count-append a xs ys)

chosen_one :
    {A : Type 0} (p : A → Bool) (x y : A) (zs ys : List A)
    → p y ≡ true
    → (In x zs → In x ys × (p x ≡ true))
    → In x (y ∷ zs)
    → In x (y ∷ ys) × (p x ≡ true)
chosen_one p x _ zs ys t inner here = (here, t)
chosen_one p x y zs ys t inner (there i) = let (j, u) = inner i in (there j, u)

pub In-select :
    {A : Type 0} (p : A → Bool) (xs : List A) (x : A) → In x (select p xs) → In x xs × (p x ≡ true)
In-select p [] x i = elim i [ ]
In-select p (y ∷ ys) x i = elim (Bool-cases (p y)) [
  | inl chosen ↦ chosen_one p x y (select p ys) ys chosen (In-select p ys x) (rw chosen at i)
  | inr left_out ↦ let (j, u) = In-select p ys x (rw left_out at i) in (there j, u)
]

pub select-In :
    {A : Type 0} (p : A → Bool) (xs : List A) (x : A) → In x xs → p x ≡ true → In x (select p xs)
select-In p [] x i t = elim i [ ]
select-In p (y ∷ ys) x here t = rw t here
select-In p (y ∷ ys) x (there i) t = elim (Bool-cases (p y)) [
  | inl chosen ↦ rw chosen (there (select-In p ys x i t))
  | inr left_out ↦ rw left_out (select-In p ys x i t)
]

pub In-split : {A : Type 0} {x y : A} {ys : List A} → In x (y ∷ ys) → (x ≡ y) ⊎ In x ys
In-split here = inl refl
In-split (there i) = inr i

pub contains-In : {A : Type 0} ⦃e : Eq A⦄ (xs : List A) (a : A) → contains xs a ≡ true → In a xs
contains-In [] a h = absurd (cc h)
contains-In (x ∷ xs) a h = elim (Bool-cases (x == a)) [
  | inl same ↦ rw (beq_true x a same) here
  | inr other ↦ there (contains-In xs a (rw other at h))
]

pub In-contains : {A : Type 0} ⦃e : Eq A⦄ (xs : List A) (a : A) → In a xs → contains xs a ≡ true
In-contains [] a i = elim i [ ]
In-contains (x ∷ xs) a here = rw (beq_self x) refl
In-contains (x ∷ xs) a (there i) = ground (arith, In-contains xs a i)

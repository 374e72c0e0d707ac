-- ===== src/Prelude/Lists.antt =====
-- Lists measured by native numbers, membership tests of texts, and predicates on all members.
use Prim.Native.Nat.{ℕ, zero, suc, ◌+◌, ◌≤◌}
use Prim.Native.String.{String}
use mathlib.Core.Path.{◌≡◌, refl}
use mathlib.Core.Logic.{inl, inr, ite}
use mathlib.Core.Bool.{Bool, true, false, ◌||◌, ◌&&◌}
use mathlib.Core.List.{List, [], ◌∷◌, ◌++◌, map}
use native.Mathlib.Omega.{arith}
use oh_my_github_runner.Prelude.Tests.{Bool-cases, text_discrete, if◌then◌else◌}

module _ {ℓ} {A : Type ℓ} where
  abbrev pub length : List A → ℕ
  length [] = 0
  length (x ∷ xs) = suc (length xs)

  abbrev pub drop : ℕ → List A → List A
  drop zero xs = xs
  drop (suc n) [] = []
  drop (suc n) (x ∷ xs) = drop n xs

  abbrev pub take : ℕ → List A → List A
  take zero xs = []
  take (suc n) [] = []
  take (suc n) (x ∷ xs) = x ∷ take n xs

  pub length-append : (xs ys : List A) → length (xs ++ ys) ≡ length xs + length ys
  length-append [] ys = omega arith
  length-append (x ∷ xs) ys = omega (arith, length-append xs ys)

  -- `filter`, `some` and `every` of an array, with a Boolean test.
  abbrev pub keep : (A → Bool) → List A → List A
  keep p [] = []
  keep p (x ∷ xs) = let rest = keep p xs in if p x then x ∷ rest else rest

  abbrev pub any : (A → Bool) → List A → Bool
  any p [] = false
  any p (x ∷ xs) = p x || any p xs

  abbrev pub all : (A → Bool) → List A → Bool
  all p [] = true
  all p (x ∷ xs) = p x && all p xs

  pub length-keep-le : (p : A → Bool) (xs : List A) → length (keep p xs) ≤ length xs
  length-keep-le p [] = omega arith
  length-keep-le p (x ∷ xs) = ground (arith, length-keep-le p xs)

  abbrev pub All {κ} : (A → Type κ) → List A → Type κ
  All P [] = Unit
  All P (x ∷ xs) = P x × All P xs

  pub All-append {κ} : (P : A → Type κ) (xs ys : List A) → All P xs → All P ys → All P (xs ++ ys)
  All-append P [] ys hx hy = hy
  All-append P (x ∷ xs) ys hx hy = (hx.0, All-append P xs ys hx.1 hy)

  pub All-map {κ κ'} :
      (P : A → Type κ) (Q : A → Type κ') (xs : List A) → ((x : A) → P x → Q x) → All P xs → All Q xs
  All-map P Q [] f h = tt
  All-map P Q (x ∷ xs) f h = (f x h.0, All-map P Q xs f h.1)

  pub data Member (a : A) : List A → Type ℓ where
    here : {xs : List A} → Member a (a ∷ xs)
    there : {x : A} {xs : List A} → Member a xs → Member a (x ∷ xs)

  pub All-Member {κ} : (P : A → Type κ) {a : A} {xs : List A} → All P xs → Member a xs → P a
  All-Member P h here = h.0
  All-Member P h (there m) = All-Member P h.1 m

  pub Member-append_left : {a : A} {xs : List A} → Member a xs → (ys : List A) → Member a (xs ++ ys)
  Member-append_left here ys = here
  Member-append_left (there m) ys = there (Member-append_left m ys)

  pub Member-keep :
      {a : A} {xs : List A} (p : A → Bool) → Member a xs → p a ≡ true → Member a (keep p xs)
  Member-keep p here e = rw e here
  Member-keep p (there {x = x} {xs = xs} m) e = elim (Bool-cases (p x)) [
    | inl q ↦ rw q (there (Member-keep p m e))
    | inr q ↦ rw q (Member-keep p m e)
  ]

  pub any_of_Member :
      {a : A} {xs : List A} (p : A → Bool) → Member a xs → p a ≡ true → any p xs ≡ true
  any_of_Member p here e = ground arith
  any_of_Member p (there m) e = ground (arith, any_of_Member p m e)

  pub any_of_All : (p : A → Bool) (xs : List A) → All (λ x. p x ≡ false) xs → any p xs ≡ false
  any_of_All p [] h = refl
  any_of_All p (x ∷ xs) h = ground (arith, any_of_All p xs h.1)

  -- What the kept members satisfy.
  pub All-keep {κ κ'} :
      (P : A → Type κ) (Q : A → Type κ') (p : A → Bool) (xs : List A)
      → ((x : A) → p x ≡ true → P x → Q x)
      → All P xs
      → All Q (keep p xs)
  All-keep P Q p [] f h = tt
  All-keep P Q p (x ∷ xs) f h = elim (Bool-cases (p x)) [
    | inl e ↦ rw e (f x e h.0, All-keep P Q p xs f h.1)
    | inr e ↦ rw e (All-keep P Q p xs f h.1)
  ]

  -- `xs` is `ys` with some members left out, the order kept.
  pub data Picks : List A → List A → Type ℓ where
    done : Picks [] []
    kept : {x : A} {xs ys : List A} → Picks xs ys → Picks (x ∷ xs) (x ∷ ys)
    skip : {y : A} {xs ys : List A} → Picks xs ys → Picks xs (y ∷ ys)

  pub Picks-nil : (ys : List A) → Picks [] ys
  Picks-nil [] = done
  Picks-nil (y ∷ ys) = skip (Picks-nil ys)

  pub Picks-All {κ} : (P : A → Type κ) {xs ys : List A} → Picks xs ys → All P ys → All P xs
  Picks-All P done h = tt
  Picks-All P (kept p) h = (h.0, Picks-All P p h.1)
  Picks-All P (skip p) h = Picks-All P p h.1

pub length-map {ℓ κ} :
    {A : Type ℓ} {B : Type κ} (f : A → B) (xs : List A) → length (map f xs) ≡ length xs
length-map f [] = refl
length-map f (x ∷ xs) = omega (arith, length-map f xs)

-- `has` of a set of texts, `includes` of an array of texts.
unfoldable pub includes : String → List String → Bool
includes x [] = false
includes x (y ∷ ys) = ite (text_discrete y x) true (includes x ys)

pub includes-append :
    (x : String) (xs ys : List String) → includes x (xs ++ ys) ≡ (includes x xs || includes x ys)
unfolding includes
includes-append x [] ys = refl
includes-append x (y ∷ xs) ys = ground (arith, includes-append x xs ys)

-- Every member of one set of texts is in the other.
abbrev pub Within : List String → List String → Type 0
Within xs ys = (x : String) → includes x xs ≡ true → includes x ys ≡ true

pub Within-append_left : (xs ys zs : List String) → Within xs ys → Within xs (ys ++ zs)
Within-append_left xs ys zs w x h = ground (arith, w x h, includes-append x ys zs)

pub Within-append_right : (ys zs : List String) → Within zs (ys ++ zs)
Within-append_right ys zs x h = ground (arith, includes-append x ys zs)

-- Two sets of texts share no member.
abbrev pub Disjoint : List String → List String → Type 0
Disjoint xs ys = (x : String) → includes x xs ≡ true → includes x ys ≡ false

-- `some` over one set of the members of another.
abbrev pub meets : List String → List String → Bool
meets xs ys = any (λ x. includes x ys) xs

pub Disjoint-sym : (xs ys : List String) → Disjoint xs ys → Disjoint ys xs
Disjoint-sym xs ys d x h = ground (arith, d x)

pub meets-Disjoint : (xs ys : List String) → meets xs ys ≡ false → Disjoint xs ys
unfolding includes
meets-Disjoint [] ys h x m = cc
meets-Disjoint (z ∷ xs) ys h x m = ground (arith, meets-Disjoint xs ys (ground arith) x)

pub meets_of_shared :
    (x : String) (xs ys : List String)
    → includes x xs ≡ true
    → includes x ys ≡ true
    → meets xs ys ≡ true
unfolding includes
meets_of_shared x [] ys h k = cc
meets_of_shared x (z ∷ xs) ys h k = ground (arith, meets_of_shared x xs ys)

pub meets-append_left : (xs ys zs : List String) → meets xs ys ≡ true → meets xs (ys ++ zs) ≡ true
meets-append_left [] ys zs h = cc
meets-append_left (x ∷ xs) ys zs h =
    ground (arith, includes-append x ys zs, meets-append_left xs ys zs)

pub meets-append_right : (xs ys zs : List String) → meets xs zs ≡ true → meets xs (ys ++ zs) ≡ true
meets-append_right [] ys zs h = cc
meets-append_right (x ∷ xs) ys zs h =
    ground (arith, includes-append x ys zs, meets-append_right xs ys zs)

-- ===== src/Prelude/Lists.antt =====
-- Lists over the native numbers, membership by recursion, and the array methods in use.
use Prim.Native.Nat.{ℕ, zero, suc, ◌+◌, ◌<◌}
use mathlib.Core.Path.{◌≡◌, refl, sym, ap, subst}
use mathlib.Core.Logic.{◌⊎◌, inl, inr}
use mathlib.Core.Bool.{Bool, true, false, ◌||◌}
use mathlib.Core.Option.{Option, none, some}
use mathlib.Core.List.{List, [], ◌∷◌, ◌++◌, map}
use native.Mathlib.Omega.{arith}
use code_trace.Prelude.Tests.{if◌then◌else◌, Eq, ◌==◌, Bool-cases}

module _ {ℓ} {A : Type ℓ} where
  abbrev pub length : List A → ℕ
  length [] = 0
  length (_ ∷ xs) = suc (length xs)

  abbrev pub get_elem? : List A → ℕ → Option A
  get_elem? [] i = none
  get_elem? (x ∷ xs) zero = some x
  get_elem? (x ∷ xs) (suc i) = get_elem? xs i

  abbrev pub take : ℕ → List A → List A
  take zero xs = []
  take (suc n) [] = []
  take (suc n) (x ∷ xs) = x ∷ take n xs

  pub length-append : (xs ys : List A) → length (xs ++ ys) ≡ length xs + length ys
  length-append [] ys = omega arith
  length-append (x ∷ xs) ys = omega (arith, length-append xs ys)

  -- `xs.filter(p)`
  abbrev pub keep : (A → Bool) → List A → List A
  keep p [] = []
  keep p (x ∷ xs) = if p x then x ∷ keep p xs else keep p xs

  -- `xs.some(p)`
  abbrev pub any : (A → Bool) → List A → Bool
  any p [] = false
  any p (x ∷ xs) = p x || any p xs

  -- `xs.find(p)`
  abbrev pub find : (A → Bool) → List A → Option A
  find p [] = none
  find p (x ∷ xs) = if p x then some x else find p xs

module _ {A : Type 0} where
  -- `a` is one of the items.
  abbrev pub Has : A → List A → Type 0
  Has a [] = ⊥
  Has a (x ∷ xs) = (x ≡ a) ⊎ Has a xs

  pub Has-append_left : (a : A) (xs ys : List A) → Has a xs → Has a (xs ++ ys)
  Has-append_left a [] ys h = absurd h
  Has-append_left a (x ∷ xs) ys (inl e) = inl e
  Has-append_left a (x ∷ xs) ys (inr h) = inr (Has-append_left a xs ys h)

  pub Has-append_right : (a : A) (xs ys : List A) → Has a ys → Has a (xs ++ ys)
  Has-append_right a [] ys h = h
  Has-append_right a (x ∷ xs) ys h = inr (Has-append_right a xs ys h)

  pub Has-append : (a : A) (xs ys : List A) → Has a (xs ++ ys) → Has a xs ⊎ Has a ys
  Has-append a [] ys h = inr h
  Has-append a (x ∷ xs) ys (inl e) = inl (inl e)
  Has-append a (x ∷ xs) ys (inr h) = elim (Has-append a xs ys h) [
    | inl l ↦ inl (inr l)
    | inr r ↦ inr r
  ]

  abbrev pub All : (A → Type 0) → List A → Type 0
  All P [] = Unit
  All P (x ∷ xs) = P x × All P xs

  -- Exactly so many of the items satisfy `P`.
  pub data Tally (P : A → Type 0) : List A → ℕ → Type 0 where
    no_item : Tally P [] 0
    counted : (x : A) (xs : List A) (n : ℕ) → P x → Tally P xs n → Tally P (x ∷ xs) (suc n)
    passed : (x : A) (xs : List A) (n : ℕ) → (P x → ⊥) → Tally P xs n → Tally P (x ∷ xs) n

  pub keep-Tally :
      (P : A → Type 0) (p : A → Bool) (xs : List A)
      → ((x : A) → Has x xs → p x ≡ true → P x)
      → ((x : A) → Has x xs → p x ≡ false → P x → ⊥)
      → Tally P xs (length (keep p xs))
  keep-Tally P p [] holds fails = no_item
  keep-Tally P p (x ∷ xs) holds fails =
      let rest = keep-Tally P p xs (λ y h. holds y (inr h)) (λ y h. fails y (inr h)) in
      elim (Bool-cases (p x)) [
        | inl e ↦ rw e (counted x xs _ (holds x (inl refl) e) rest)
        | inr e ↦ rw e (passed x xs _ (fails x (inl refl) e) rest)
      ]

  pub Has-take : (n : ℕ) (xs : List A) (a : A) → Has a (take n xs) → Has a xs
  Has-take zero xs a h = absurd h
  Has-take (suc n) [] a h = absurd h
  Has-take (suc n) (x ∷ xs) a (inl e) = inl e
  Has-take (suc n) (x ∷ xs) a (inr h) = inr (Has-take n xs a h)

  pub All-mono_Has :
      {P Q : A → Type 0} (xs : List A) → ((x : A) → Has x xs → P x → Q x) → All P xs → All Q xs
  All-mono_Has [] f h = tt
  All-mono_Has (x ∷ xs) f (p, h) = (f x (inl refl) p, All-mono_Has xs (λ y k. f y (inr k)) h)

  pub All-append : (P : A → Type 0) (xs ys : List A) → All P xs → All P ys → All P (xs ++ ys)
  All-append P [] ys h k = k
  All-append P (x ∷ xs) ys (p, h) k = (p, All-append P xs ys h k)

  pub Has-keep : (p : A → Bool) (xs : List A) (a : A) → Has a (keep p xs) → Has a xs × (p a ≡ true)
  Has-keep p [] a h = absurd h
  Has-keep p (x ∷ xs) a h = ground (arith, Has-keep p xs a)

  pub keep-Has : (p : A → Bool) (xs : List A) (a : A) → Has a xs → p a ≡ true → Has a (keep p xs)
  keep-Has p [] a h e = absurd h
  keep-Has p (x ∷ xs) a h e = ground (arith, keep-Has p xs a)

  pub find-eq-none :
      (p : A → Bool) (xs : List A) → find p xs ≡ none → (a : A) → Has a xs → p a ≡ false
  find-eq-none p [] e a h = absurd h
  find-eq-none p (x ∷ xs) e a h = ground (arith, λ (k : find p xs ≡ none). find-eq-none p xs k a)

  pub find-eq-some :
      (p : A → Bool) (xs : List A) {a : A} → find p xs ≡ some a → Has a xs × (p a ≡ true)
  find-eq-some p [] e = cc
  find-eq-some p (x ∷ xs) {a} e = ground (arith, find-eq-some p xs {a = a})

  -- No item occurs twice.
  abbrev pub Distinct : List A → Type 0
  Distinct [] = Unit
  Distinct (x ∷ xs) = (Has x xs → ⊥) × Distinct xs

  pub Distinct-concat :
      (xs : List A) (x : A) → Distinct xs → (Has x xs → ⊥) → Distinct (xs ++ x ∷ [])
  Distinct-concat [] x d new = ((λ h. h), tt)
  Distinct-concat (y ∷ xs) x (fresh, d) new = (
    λ h. elim (Has-append y xs (x ∷ []) h) [
      | inl old ↦ fresh old
      | inr last ↦ elim last [ inl same ↦ new (inl (sym same)) | inr no_more ↦ no_more ]
    ],
    Distinct-concat xs x d (λ h. new (inr h)),
  )

module _ {A B : Type 0} where
  pub Has-map :
      (f : A → B) (b : B) (xs : List A) → Has b (map f xs) → (a : A) × Has a xs × (f a ≡ b)
  Has-map f b [] h = absurd h
  Has-map f b (x ∷ xs) (inl e) = (x, inl refl, e)
  Has-map f b (x ∷ xs) (inr h) = let (a, k, e) = Has-map f b xs h in (a, inr k, e)

  pub map-Has : (f : A → B) (a : A) (xs : List A) → Has a xs → Has (f a) (map f xs)
  map-Has f a [] h = absurd h
  map-Has f a (x ∷ xs) (inl e) = inl (ap f e)
  map-Has f a (x ∷ xs) (inr h) = inr (map-Has f a xs h)

module _ {A : Type 0} ⦃e : Eq A⦄ where
  -- `xs.includes(a)`, and `Set.has`
  abbrev pub includes : A → List A → Bool
  includes a [] = false
  includes a (x ∷ xs) = x == a || includes a xs

  pub includes→Has : (a : A) (xs : List A) → includes a xs ≡ true → Has a xs
  includes→Has a (x ∷ xs) h = ground (arith, includes→Has a xs, e.beq_iff x a)
  includes→Has a [] h = cc

  pub Has→includes : (a : A) (xs : List A) → Has a xs → includes a xs ≡ true
  Has→includes a (x ∷ xs) h = ground (arith, Has→includes a xs, e.beq_iff x a)
  Has→includes a [] h = absurd h

module _ {A : Type 0} where
  pub get_elem?-some : (xs : List A) (i : ℕ) → i < length xs → (a : A) × (get_elem? xs i ≡ some a)
  get_elem?-some [] i h = absurd (omega arith)
  get_elem?-some (x ∷ xs) zero h = (x, refl)
  get_elem?-some (x ∷ xs) (suc i) h = get_elem?-some xs i (omega arith)

  pub Distinct-keep : (p : A → Bool) (xs : List A) → Distinct xs → Distinct (keep p xs)
  Distinct-keep p [] d = tt
  Distinct-keep p (x ∷ xs) (fresh, d) = elim (Bool-cases (p x)) [
    | inl e ↦ rw e ((λ h. fresh (Has-keep p xs x h).0), Distinct-keep p xs d)
    | inr e ↦ rw e (Distinct-keep p xs d)
  ]

  pub All-mono : {P Q : A → Type 0} → ((x : A) → P x → Q x) → (xs : List A) → All P xs → All Q xs
  All-mono f [] h = tt
  All-mono f (x ∷ xs) (p, h) = (f x p, All-mono f xs h)

pub All-map :
    {A B : Type 0} (f : A → B) (P : B → Type 0) (xs : List A)
    → All P (map f xs)
    → All (λ x. P (f x)) xs
All-map f P [] h = tt
All-map f P (x ∷ xs) (p, h) = (p, All-map f P xs h)

pub All-Has : {A : Type 0} (P : A → Type 0) (xs : List A) (a : A) → All P xs → Has a xs → P a
All-Has P [] a h k = absurd k
All-Has P (x ∷ xs) a (p, h) (inl e) = subst P e p
All-Has P (x ∷ xs) a (p, h) (inr k) = All-Has P xs a h k

-- The sum of a number of each item.
abbrev pub sum_of : {A : Type 0} → (A → ℕ) → List A → ℕ
sum_of f [] = 0
sum_of f (x ∷ xs) = f x + sum_of f xs

-- ===== src/Prelude/Lists.antt =====
-- Lists measured and indexed by native numbers, under the library's names.
use Prim.Native.Nat.{ℕ, zero, suc, ◌+◌, ◌≤◌}
use mathlib.Core.Path.{◌≡◌, refl}
use mathlib.Core.Bool.{Bool, true, false, ◌&&◌, ◌||◌}
use mathlib.Core.List.{List, [], ◌∷◌, ◌++◌, map, append_assoc}
use mathlib.Core.Option.{Option, none, some}
use native.Mathlib.Omega.{arith}
use skodun.Prelude.Tests.{if◌then◌else◌}

module _ {ℓ} {A : Type ℓ} where
  abbrev pub length : List A → ℕ
  length [] = 0
  length (x ∷ xs) = suc (length xs)

  abbrev pub get_elem? : List A → ℕ → Option A
  get_elem? [] i = none
  get_elem? (x ∷ xs) zero = some x
  get_elem? (x ∷ xs) (suc i) = get_elem? xs i

  abbrev pub take : ℕ → List A → List A
  take zero xs = []
  take (suc n) [] = []
  take (suc n) (x ∷ xs) = x ∷ take n xs

  abbrev pub is_empty : List A → Bool
  is_empty [] = true
  is_empty (x ∷ xs) = false

  pub length-append : (xs ys : List A) → length (xs ++ ys) ≡ length xs + length ys
  length-append [] ys = omega arith
  length-append (x ∷ xs) ys = omega (arith, length-append xs ys)

  pub length-take-le : (n : ℕ) (xs : List A) → length (take n xs) ≤ n
  length-take-le zero xs = omega arith
  length-take-le (suc n) [] = omega arith
  length-take-le (suc n) (x ∷ xs) = omega (arith, length-take-le n xs)

  -- Python's comprehension with a condition, `any` and `all`.
  unfoldable pub keep : (A → Bool) → List A → List A
  keep p [] = []
  keep p (x ∷ xs) = if p x then x ∷ keep p xs else keep p xs

  unfoldable pub any : (A → Bool) → List A → Bool
  any p [] = false
  any p (x ∷ xs) = p x || any p xs

  unfoldable pub all : (A → Bool) → List A → Bool
  all p [] = true
  all p (x ∷ xs) = p x && all p xs

  unfoldable pub count_if : (A → Bool) → List A → ℕ
  count_if p [] = 0
  count_if p (x ∷ xs) = (if p x then 1 else 0) + count_if p xs

  pub length-keep : (p : A → Bool) (xs : List A) → length (keep p xs) ≡ count_if p xs
  unfolding keep count_if
  length-keep p [] = refl
  length-keep p (x ∷ xs) = ground (arith, length-keep p xs)

  pub count_if-append :
      (p : A → Bool) (xs ys : List A) → count_if p (xs ++ ys) ≡ count_if p xs + count_if p ys
  unfolding count_if
  count_if-append p [] ys = omega arith
  count_if-append p (x ∷ xs) ys = omega (arith, count_if-append p xs ys)

-- Every element satisfies `P`.
abbrev pub All {ℓ κ} : {A : Type ℓ} → (A → Type κ) → List A → Type κ
All P [] = Unit
All P (x ∷ xs) = P x × All P xs

-- `x` is an element.
pub data Has {ℓ} {A : Type ℓ} (x : A) : List A → Type ℓ where
  here : {xs : List A} → Has x (x ∷ xs)
  there : {y : A} {xs : List A} → Has x xs → Has x (y ∷ xs)

pub All-Has {ℓ κ} : {A : Type ℓ} (P : A → Type κ) {x : A} {xs : List A} → Has x xs → All P xs → P x
All-Has P here h = h.0
All-Has P (there m) h = All-Has P m h.1

module _ {ℓ} {A : Type ℓ} (p : A → Bool) where
  Has-if :
      {x w : A} (ws kept : List A) (b : Bool)
      → p w ≡ b
      → (Has x kept → Has x ws × (p x ≡ true))
      → Has x (if b then w ∷ kept else kept)
      → Has x (w ∷ ws) × (p x ≡ true)
  Has-if ws kept true e rest here = (here, e)
  Has-if ws kept true e rest (there m) = let r = rest m in (there r.0, r.1)
  Has-if ws kept false e rest m = let r = rest m in (there r.0, r.1)

  pub Has-keep : {x : A} (ws : List A) → Has x (keep p ws) → Has x ws × (p x ≡ true)
  unfolding keep
  Has-keep [] m = elim m [ ]
  Has-keep (w ∷ ws) m = Has-if ws (keep p ws) (p w) refl (Has-keep ws) m

  If-Has :
      {x w : A} (ws kept : List A) (b : Bool)
      → p w ≡ b
      → p x ≡ true
      → (Has x ws → Has x kept)
      → Has x (w ∷ ws)
      → Has x (if b then w ∷ kept else kept)
  If-Has ws kept true e px rest here = here
  If-Has ws kept true e px rest (there m) = there (rest m)
  If-Has ws kept false e px rest here = ground arith
  If-Has ws kept false e px rest (there m) = rest m

  pub keep-Has : {x : A} (ws : List A) → p x ≡ true → Has x ws → Has x (keep p ws)
  unfolding keep
  keep-Has [] px m = elim m [ ]
  keep-Has (w ∷ ws) px m = If-Has ws (keep p ws) (p w) refl px (keep-Has ws px) m

module _ {ℓ} {A : Type ℓ} where
  pub Has-cons :
      {x w : A} {xs ys : List A} → (Has x xs → Has x ys) → Has x (w ∷ xs) → Has x (w ∷ ys)
  Has-cons f here = here
  Has-cons f (there m) = there (f m)

  pub Has-swap : {x v w : A} {xs : List A} → Has x (v ∷ w ∷ xs) → Has x (w ∷ v ∷ xs)
  Has-swap here = there here
  Has-swap (there here) = here
  Has-swap (there (there m)) = there (there m)

-- Lemmas on `All` and on counting.
module _ {ℓ} {A : Type ℓ} where
  pub All-map {κ μ} :
      (P : A → Type κ) (Q : A → Type μ) (xs : List A) → ((x : A) → P x → Q x) → All P xs → All Q xs
  All-map P Q [] f h = tt
  All-map P Q (x ∷ xs) f h = (f x h.0, All-map P Q xs f h.1)

  pub All-append {κ} : (P : A → Type κ) (xs ys : List A) → All P xs → All P ys → All P (xs ++ ys)
  All-append P [] ys h k = k
  All-append P (x ∷ xs) ys h k = (h.0, All-append P xs ys h.1 k)

  pub All-keep :
      (p : A → Bool) (P : A → Type 0) (xs : List A)
      → All P (keep p xs)
      → All (λ x. p x ≡ true → P x) xs
  unfolding keep
  All-keep p P [] h = tt
  All-keep p P (x ∷ xs) h = go (p x) refl h (All-keep p P xs)
    where
      go :
          (b : Bool)
          → p x ≡ b
          → All P (if b then x ∷ keep p xs else keep p xs)
          → (All P (keep p xs) → All (λ y. p y ≡ true → P y) xs)
          → (p x ≡ true → P x) × All (λ y. p y ≡ true → P y) xs
      go true e k rest = (λ _. k.0, rest k.1)
      go false e k rest = (λ t. ground arith, rest k)

  pub count_if-none : (p : A → Bool) (xs : List A) → count_if p xs ≡ 0 → All (λ x. p x ≡ false) xs
  unfolding count_if
  count_if-none p [] h = tt
  count_if-none p (x ∷ xs) h = (ground arith, count_if-none p xs (ground arith))

  pub count_if-map {κ} :
      {B : Type κ} (f : A → B) (q : B → Bool) (p : A → Bool) (xs : List A)
      → ((x : A) → q (f x) ≡ p x)
      → count_if q (map f xs) ≡ count_if p xs
  unfolding count_if
  count_if-map f q p [] e = refl
  count_if-map f q p (x ∷ xs) e = ground (arith, e x, count_if-map f q p xs e)

  pub count_if-keep :
      (q p : A → Bool) (xs : List A) → count_if q (keep p xs) ≡ count_if (λ x. p x && q x) xs
  unfolding count_if keep
  count_if-keep q p [] = refl
  count_if-keep q p (x ∷ xs) = ground (arith, count_if-keep q p xs)

  pub count_if-same :
      (p q : A → Bool) (xs : List A) → ((x : A) → p x ≡ q x) → count_if p xs ≡ count_if q xs
  unfolding count_if
  count_if-same p q [] e = refl
  count_if-same p q (x ∷ xs) e = ground (arith, e x, count_if-same p q xs e)

module _ {ℓ} {A : Type ℓ} where
  -- `b"".join(lines)`
  unfoldable pub concat : List (List A) → List A
  concat [] = []
  concat (xs ∷ xss) = xs ++ concat xss

  pub concat-append : (xss yss : List (List A)) → concat (xss ++ yss) ≡ concat xss ++ concat yss
  unfolding concat
  concat-append [] yss = refl
  concat-append (xs ∷ xss) yss = simp (concat-append xss yss, append_assoc)

-- ===== src/Prelude/Lists.antt =====
-- Lists measured by native numbers, and the queries the tables are read by.
use Prim.Native.Nat.{ℕ, suc, ◌+◌}
use mathlib.Core.Path.{◌≡◌, refl, subst, sym, ◌∙◌}
use mathlib.Core.Bool.{Bool, true}
use mathlib.Core.List.{List, [], ◌∷◌, ◌++◌}
use mathlib.Core.Option.{Option, none, some}
use native.Mathlib.Omega.{arith}
use mathlib.Core.Logic.{inl, inr}
use retrievershop_suite.Prelude.Tests.{Bool-cases, if◌then◌else◌}

module _ {ℓ} {A : Type ℓ} where
  abbrev pub length : List A → ℕ
  length [] = 0
  length (x ∷ xs) = suc (length xs)

  pub length-append : (xs ys : List A) → length (xs ++ ys) ≡ length xs + length ys
  length-append [] ys = omega arith
  length-append (x ∷ xs) ys = omega (arith, length-append xs ys)

  -- `query.filter(p).first()`.
  abbrev pub find_first : (A → Bool) → List A → Option A
  find_first p [] = none
  find_first p (x ∷ xs) = if p x then some x else find_first p xs

  -- `query.filter(p).all()`.
  abbrev pub select : (A → Bool) → List A → List A
  select p [] = []
  select p (x ∷ xs) = let rest = select p xs in if p x then x ∷ rest else rest

  -- The rows that satisfy `p` are rewritten by `f`.
  abbrev pub update_where : (A → Bool) → (A → A) → List A → List A
  update_where p f [] = []
  update_where p f (x ∷ xs) = (if p x then f x else x) ∷ update_where p f xs

  -- The row that `query.filter(p).first()` finds is rewritten by `f`.
  abbrev pub update_first : (A → Bool) → (A → A) → List A → List A
  update_first p f [] = []
  update_first p f (x ∷ xs) = if p x then f x ∷ xs else x ∷ update_first p f xs

  -- Every element satisfies `P`.
  abbrev pub All {κ} : (A → Type κ) → List A → Type κ
  All P [] = Unit
  All P (x ∷ xs) = P x × All P xs

  -- Some element satisfies `P`.
  pub data Any {κ} (P : A → Type κ) : List A → Type (ℓ ⊔ κ) where
    here : {x : A} {xs : List A} → P x → Any P (x ∷ xs)
    there : {x : A} {xs : List A} → Any P xs → Any P (x ∷ xs)

  pub Any-append_left {κ} : (P : A → Type κ) (xs ys : List A) → Any P xs → Any P (xs ++ ys)
  Any-append_left P [] ys h = elim h [ ]
  Any-append_left P (x ∷ xs) ys (here p) = here p
  Any-append_left P (x ∷ xs) ys (there h) = there (Any-append_left P xs ys h)

  pub Any-append_right {κ} : (P : A → Type κ) (xs ys : List A) → Any P ys → Any P (xs ++ ys)
  Any-append_right P [] ys h = h
  Any-append_right P (x ∷ xs) ys h = there (Any-append_right P xs ys h)

  abbrev pub sum_by : (A → ℕ) → List A → ℕ
  sum_by f [] = 0
  sum_by f (x ∷ xs) = f x + sum_by f xs

  pub All-append {κ} : (P : A → Type κ) (xs ys : List A) → All P xs → All P ys → All P (xs ++ ys)
  All-append P [] ys h g = g
  All-append P (x ∷ xs) ys h g = (h.0, All-append P xs ys h.1 g)

  pub length-update_where :
      (p : A → Bool) (f : A → A) (xs : List A) → length (update_where p f xs) ≡ length xs
  length-update_where p f [] = refl
  length-update_where p f (x ∷ xs) = omega (arith, length-update_where p f xs)

  pub sum_by-append : (f : A → ℕ) (xs ys : List A) → sum_by f (xs ++ ys) ≡ sum_by f xs + sum_by f ys
  sum_by-append f [] ys = omega arith
  sum_by-append f (x ∷ xs) ys = omega (arith, sum_by-append f xs ys)

  -- A rewrite that keeps the test is seen by the query.
  pub find_first-update_where :
      (p : A → Bool) (f : A → A) (xs : List A) (a : A)
      → ((x : A) → p (f x) ≡ p x)
      → find_first p xs ≡ some a
      → find_first p (update_where p f xs) ≡ some (f a)
  find_first-update_where p f [] a keep h = cc
  find_first-update_where p f (x ∷ xs) a keep h = elim (Bool-cases (p x)) [
    | inl t ↦ let e : x ≡ a = ground (arith) in rw (t, keep x, t, e) refl
    | inr u ↦ rw (u, u) (find_first-update_where p f xs a keep (rw u at h))
  ]

  pub find_first-update_first :
      (p : A → Bool) (f : A → A) (xs : List A) (a : A)
      → p (f a) ≡ p a
      → find_first p xs ≡ some a
      → find_first p (update_first p f xs) ≡ some (f a)
  find_first-update_first p f [] a keep h = cc
  find_first-update_first p f (x ∷ xs) a keep h = elim (Bool-cases (p x)) [
    | inl t ↦
        let e : x ≡ a = ground (arith) in
        let t' : p (f x) ≡ true = subst (λ y. p (f y) ≡ true) (sym e) (keep ∙ rw e at t) in
        rw (t, t', e) refl
    | inr u ↦ rw (u, u) (find_first-update_first p f xs a keep (rw u at h))
  ]

  pub All-update_first {κ} :
      (P : A → Type κ) (p : A → Bool) (f : A → A) (xs : List A)
      → ((x : A) → P x → P (f x))
      → All P xs
      → All P (update_first p f xs)
  All-update_first P p f [] keep h = tt
  All-update_first P p f (x ∷ xs) keep h = elim (Bool-cases (p x)) [
    | inl t ↦ rw t (keep x h.0, h.1)
    | inr u ↦ rw u (h.0, All-update_first P p f xs keep h.1)
  ]

  pub All-find_first {κ} :
      (P : A → Type κ) (p : A → Bool) (xs : List A) (a : A)
      → All P xs
      → find_first p xs ≡ some a
      → P a
  All-find_first P p [] a h e = cc
  All-find_first P p (x ∷ xs) a h e = elim (Bool-cases (p x)) [
    | inl t ↦ let e' : x ≡ a = ground (arith) in subst P e' h.0
    | inr u ↦ All-find_first P p xs a h.1 (rw u at e)
  ]

  -- The row that is found passes the test.
  pub find_first_test : (p : A → Bool) (xs : List A) (a : A) → find_first p xs ≡ some a → p a ≡ true
  find_first_test p [] a e = cc
  find_first_test p (x ∷ xs) a e = elim (Bool-cases (p x)) [
    | inl t ↦ let e' : x ≡ a = ground (arith) in subst (λ y. p y ≡ true) e' t
    | inr u ↦ find_first_test p xs a (rw u at e)
  ]

  -- A rewrite of other rows, or of the row that is found, is seen by a query whose test it keeps.
  pub find_first-update_other :
      (p q : A → Bool) (f : A → A) (xs : List A) (a : A)
      → ((x : A) → p (f x) ≡ p x)
      → find_first p xs ≡ some a
      → find_first p (update_where q f xs) ≡ some (if q a then f a else a)
  find_first-update_other p q f [] a keep h = cc
  find_first-update_other p q f (x ∷ xs) a keep h = elim (Bool-cases (p x)) [
    | inl t ↦
        let e : x ≡ a = ground (arith) in
        elim (Bool-cases (q x)) [
          | inl s ↦
              rw (s, keep x, t)
                (subst (λ y. some (f x) ≡ some (if q y then f y else y)) e (rw s refl))
          | inr s ↦ rw (s, t) (subst (λ y. some x ≡ some (if q y then f y else y)) e (rw s refl))
        ]
    | inr u ↦ elim (Bool-cases (q x)) [
      | inl s ↦ rw (s, keep x, u) (find_first-update_other p q f xs a keep (rw u at h))
      | inr s ↦ rw (s, u) (find_first-update_other p q f xs a keep (rw u at h))
    ]
  ]

  -- A row at the end is not found before the others.
  pub find_first-append :
      (p : A → Bool) (xs ys : List A) (a : A)
      → find_first p xs ≡ some a
      → find_first p (xs ++ ys) ≡ some a
  find_first-append p [] ys a h = cc
  find_first-append p (x ∷ xs) ys a h = elim (Bool-cases (p x)) [
    | inl t ↦ rw t (rw t at h)
    | inr u ↦ rw u (find_first-append p xs ys a (rw u at h))
  ]

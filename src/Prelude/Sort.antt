-- ===== src/Prelude/Sort.antt =====
-- Python's `sorted`: a stable sort by a Boolean comparison, and the order of byte strings.
use mathlib.Core.Path.{◌≡◌, refl, ap, ◌∙◌}
use mathlib.Core.Bool.{Bool, true, false, ◌&&◌, ◌||◌}
use mathlib.Core.Logic.{inl, inr, ∥∥₁_elim}
use mathlib.Core.List.{List, [], ◌∷◌, Perm, Permᴰ}
use native.Mathlib.Omega.{arith}
use yubtc_python.Prelude.Tests.{ltb, ◌==◌, if◌then◌else◌, Bool-cases}
use yubtc_python.Prelude.Lists.{length, All}
use yubtc_python.Prelude.Bytes.{Bytes}

-- `a <= b` on byte strings: the first difference decides, and a prefix comes first.
unfoldable pub bytes_leb : Bytes → Bytes → Bool
bytes_leb [] b = true
bytes_leb (x ∷ a) [] = false
bytes_leb (x ∷ a) (y ∷ b) = ltb x y || (x == y && bytes_leb a b)

pub bytes_leb_refl : (a : Bytes) → bytes_leb a a ≡ true
unfolding bytes_leb
bytes_leb_refl [] = refl
bytes_leb_refl (x ∷ a) = ground (arith, bytes_leb_refl a)

pub bytes_leb_total : (a b : Bytes) → bytes_leb a b ≡ false → bytes_leb b a ≡ true
unfolding bytes_leb
bytes_leb_total [] b h = cc
bytes_leb_total (x ∷ a) [] h = refl
bytes_leb_total (x ∷ a) (y ∷ b) h = ground (arith, bytes_leb_total a b)

pub bytes_leb_antisymm : (a b : Bytes) → bytes_leb a b ≡ true → bytes_leb b a ≡ true → a ≡ b
unfolding bytes_leb
bytes_leb_antisymm [] [] h k = refl
bytes_leb_antisymm [] (y ∷ b) h k = cc
bytes_leb_antisymm (x ∷ a) [] h k = cc
bytes_leb_antisymm (x ∷ a) (y ∷ b) h k = ground (arith, bytes_leb_antisymm a b)

pub bytes_leb_trans :
    (a b c : Bytes) → bytes_leb a b ≡ true → bytes_leb b c ≡ true → bytes_leb a c ≡ true
unfolding bytes_leb
bytes_leb_trans [] b c h k = refl
bytes_leb_trans (x ∷ a) [] c h k = cc
bytes_leb_trans (x ∷ a) (y ∷ b) [] h k = cc
bytes_leb_trans (x ∷ a) (y ∷ b) (z ∷ c) h k = ground (arith, bytes_leb_trans a b c)

module _ {ℓ} {A : Type ℓ} (leq : A → A → Bool) where
  unfoldable pub insert : A → List A → List A
  insert x [] = x ∷ []
  insert x (y ∷ ys) = if leq x y then x ∷ y ∷ ys else y ∷ insert x ys

  unfoldable pub sort : List A → List A
  unfolding insert
  sort [] = []
  sort (x ∷ xs) = insert x (sort xs)

  -- Each item stands before its neighbour.
  abbrev pub Follows : A → List A → Type 0
  Follows x [] = Unit
  Follows x (y ∷ ys) = leq x y ≡ true

  abbrev pub IsSorted : List A → Type 0
  IsSorted [] = Unit
  IsSorted (x ∷ xs) = Follows x xs × IsSorted xs

  pub length-insert : (x : A) (xs : List A) → length (insert x xs) ≡ length (x ∷ xs)
  unfolding insert
  length-insert x [] = refl
  length-insert x (y ∷ ys) = ground (arith, length-insert x ys)

  pub length-sort : (xs : List A) → length (sort xs) ≡ length xs
  unfolding sort
  length-sort [] = refl
  length-sort (x ∷ xs) = ground (arith, length-insert x (sort xs), length-sort xs)

  pub All-insert {κ} : (P : A → Type κ) (x : A) (xs : List A) → P x → All P xs → All P (insert x xs)
  unfolding insert
  All-insert P x [] h k = (h, tt)
  All-insert P x (y ∷ ys) h k = elim (Bool-cases (leq x y)) [
    | inl first ↦ rw (first, insert) (h, k)
    | inr later ↦ rw (later, insert) (k.0, All-insert P x ys h k.1)
  ]

  pub All-sort {κ} : (P : A → Type κ) (xs : List A) → All P xs → All P (sort xs)
  unfolding sort
  All-sort P [] h = tt
  All-sort P (x ∷ xs) h = All-insert P x (sort xs) h.0 (All-sort P xs h.1)

  insert-Follows : (x : A) (xs : List A) → Follows x xs → insert x xs ≡ x ∷ xs
  unfolding insert
  insert-Follows x [] h = refl
  insert-Follows x (y ∷ ys) h = rw h

  -- Sorting a sorted list changes nothing.
  pub sort-IsSorted_id : (xs : List A) → IsSorted xs → sort xs ≡ xs
  unfolding sort
  sort-IsSorted_id [] h = refl
  sort-IsSorted_id (x ∷ xs) h = rw (sort-IsSorted_id xs h.1) (insert-Follows x xs h.0)

module _ {ℓ} {A : Type ℓ} (leq : A → A → Bool)
    (total : (a b : A) → leq a b ≡ false → leq b a ≡ true) where
  Follows-insert :
      (z x : A) (xs : List A) → leq z x ≡ true → Follows leq z xs → Follows leq z (insert leq x xs)
  unfolding insert
  Follows-insert z x [] h k = h
  Follows-insert z x (y ∷ ys) h k = elim (Bool-cases (leq x y)) [
    | inl first ↦ rw first h
    | inr later ↦ rw later k
  ]

  insert-IsSorted : (x : A) (xs : List A) → IsSorted leq xs → IsSorted leq (insert leq x xs)
  unfolding insert
  insert-IsSorted x [] h = (tt, tt)
  insert-IsSorted x (y ∷ ys) h = elim (Bool-cases (leq x y)) [
    | inl first ↦ rw (first, insert) (first, h)
    | inr later ↦
        rw (later, insert) (Follows-insert y x ys (total x y later) h.0, insert-IsSorted x ys h.1)
  ]

  pub sort-IsSorted : (xs : List A) → IsSorted leq (sort leq xs)
  unfolding sort
  sort-IsSorted [] = tt
  sort-IsSorted (x ∷ xs) = insert-IsSorted x (sort leq xs) (sort-IsSorted xs)

module _ where
  insert_swap :
      (x y : Bytes) (l : List Bytes)
      → insert bytes_leb x (insert bytes_leb y l) ≡ insert bytes_leb y (insert bytes_leb x l)
  unfolding insert
  insert_swap x y [] = ground (arith, bytes_leb_total x y, bytes_leb_antisymm x y)
  insert_swap x y (z ∷ l) = ground (
    arith,
    bytes_leb_total x y,
    bytes_leb_antisymm x y,
    bytes_leb_trans x y z,
    bytes_leb_trans y x z,
    bytes_leb_total y z,
    bytes_leb_total x z,
    bytes_leb_trans y z x,
    bytes_leb_trans x z y,
    insert_swap x y l,
  )

-- The order of the input does not matter.
sort-Permᴰ : {xs ys : List Bytes} → Permᴰ xs ys → sort bytes_leb xs ≡ sort bytes_leb ys
unfolding sort
sort-Permᴰ Permᴰ.nil = refl
sort-Permᴰ (Permᴰ.cons {b = b} {l₁ = l} e p) =
    ap (λ x. insert bytes_leb x (sort bytes_leb l)) e ∙ ap (insert bytes_leb b) (sort-Permᴰ p)
sort-Permᴰ (Permᴰ.swap {a' = a} {b' = b} {l = l} e f) =
    rw (e, f) (insert_swap b a (sort bytes_leb l))
sort-Permᴰ (Permᴰ.trans p q) = sort-Permᴰ p ∙ sort-Permᴰ q

Bytes-list_set : IsSet (List Bytes)
Bytes-list_set = hlevel

pub sort-perm : {xs ys : List Bytes} → Perm xs ys → sort bytes_leb xs ≡ sort bytes_leb ys
sort-perm p = ∥∥₁_elim p (Bytes-list_set _ _) sort-Permᴰ

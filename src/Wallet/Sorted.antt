-- ===== src/Wallet/Sorted.antt =====
-- Predicates on all candidates of the fee loop, and the sort by size.
use yubtc_python.Prelude.{
  ℕ, ◌≡◌, ◌≤◌, ◌∙◌, refl, ap, List, [], ◌∷◌, All, leb, Bool-cases, ◌⊎◌, inl, inr, arith,
}
use yubtc_python.Wallet.{BySize, insert_size, sort_sizes}

pub All-weaken :
    {B : Type 0} (P Q : B → Type 0) → ((b : B) → P b → Q b) → (bs : List B) → All P bs → All Q bs
All-weaken P Q h [] hs = tt
All-weaken P Q h (b ∷ bs) hs = (h b hs.0, All-weaken P Q h bs hs.1)

-- `b` is one of the `bs`.
abbrev pub In : {B : Type 0} → B → List B → Type 0
In b [] = ⊥
In b (c ∷ cs) = (b ≡ c) ⊎ In b cs

pub All-In : {B : Type 0} (bs : List B) → All (λ b. In b bs) bs
All-In [] = tt
All-In (b ∷ bs) = (inl refl, All-weaken _ _ (λ c i. inr i) bs (All-In bs))

module _ {A : Type 0} where
  -- `P` of the size, the fee and the rest of every candidate.
  abbrev pub AllCandidates : (ℕ → ℕ → A → Type 0) → BySize A → Type 0
  AllCandidates P by_size = All (λ e. All (λ c. P e.0 c.0 c.1) e.1) by_size

  module _ (P : ℕ × List (ℕ × A) → Type 0) where
    All-insert_size :
        (e : ℕ × List (ℕ × A)) (xs : BySize A) → P e → All P xs → All P (insert_size e xs)
    unfolding insert_size
    All-insert_size e [] h hs = (h, tt)
    All-insert_size e (x ∷ xs) h hs = elim (Bool-cases (leb e.0 x.0)) [
      | inl t ↦ rw t (h, hs)
      | inr f ↦ rw f (hs.0, All-insert_size e xs h hs.1)
    ]

    pub All-sort_sizes : (xs : BySize A) → All P xs → All P (sort_sizes xs)
    unfolding sort_sizes
    All-sort_sizes [] h = tt
    All-sort_sizes (x ∷ xs) h = All-insert_size x (sort_sizes xs) h.0 (All-sort_sizes xs h.1)

    insert_size_inv :
        (e : ℕ × List (ℕ × A)) (xs : BySize A) → All P (insert_size e xs) → P e × All P xs
    unfolding insert_size
    insert_size_inv e [] h = h
    insert_size_inv e (x ∷ xs) h = elim (Bool-cases (leb e.0 x.0)) [
      | inl t ↦ (rw t at h)
      | inr f ↦ let (a, b) = rw f at h in let (c, d) = insert_size_inv e xs b in (c, (a, d))
    ]

    pub sort_sizes_inv : (xs : BySize A) → All P (sort_sizes xs) → All P xs
    unfolding sort_sizes
    sort_sizes_inv [] h = tt
    sort_sizes_inv (x ∷ xs) h =
        let (a, b) = insert_size_inv x (sort_sizes xs) h in (a, sort_sizes_inv xs b)

  -- The first entry behind the sort is one of the entries, and none of them is smaller.
  abbrev pub IsLeast : ℕ × List (ℕ × A) → BySize A → Type 0
  IsLeast e xs = In e xs × All (λ (x : ℕ × List (ℕ × A)). e.0 ≤ x.0) xs

  insert_size-head :
      (e first : ℕ × List (ℕ × A)) (rest xs : BySize A)
      → IsLeast first xs
      → (head : ℕ × List (ℕ × A)) × (tail : BySize A) × (insert_size e (first ∷ rest) ≡ head ∷ tail)
        × IsLeast head (e ∷ xs)
  unfolding insert_size
  insert_size-head e first rest xs h = elim (Bool-cases (leb e.0 first.0)) [
    | inl t ↦ (
      e,
      first ∷ rest,
      rw t,
      (inl refl, (omega arith, All-weaken _ _ (λ x k. ground arith) xs h.1)),
    )
    | inr f ↦ (first, insert_size e rest, rw f, (inr h.0, (ground arith, h.1)))
  ]

  pub sort_sizes-head :
      (xs : BySize A)
      → (xs ≡ [])
        ⊎ ((head : ℕ × List (ℕ × A)) × (tail : BySize A) × (sort_sizes xs ≡ head ∷ tail)
            × IsLeast head xs)
  unfolding sort_sizes
  sort_sizes-head [] = inl refl
  sort_sizes-head (x ∷ xs) = elim (sort_sizes-head xs) [
    | inl e ↦ inr (x, [], rw e refl, (inl refl, (omega arith, rw e tt)))
    | inr (first, rest, sorted, least) ↦
        let (head, tail, inserted, least') = insert_size-head x first rest xs least in
        inr (head, tail, ap (insert_size x) sorted ∙ inserted, least')
  ]

-- ===== src/Psbt/Finalizer/Slots.antt =====
-- The slots of a tapscript spend.
use yubtc_python.Prelude.{
  ℕ, suc, ◌+◌, ◌≤◌, ◌≡◌, refl, ap, subst, List, [], ◌∷◌, inl, inr, length, ltb, ◌==◌, ==_iff, not,
  ltb→lt, true, Bool-cases, Option, none, some, All2, Result, ok, err, >>=-eq-ok, guard,
  guard-eq-ok, ok-injective, psbt, incomplete_input, arith,
}
use yubtc_python.Prelude.Bytes.{Bytes}
use yubtc_python.Psbt.Model.{TapScriptSig}
use yubtc_python.Psbt.Finalizer.{
  tap_sig_of, SlotsAndCount, fill_slot, empty_slot, next_slot, tap_slots, quorum_slots,
}

-- How many slots hold a signature.
unfoldable pub filled : List (Option Bytes) → ℕ
filled [] = 0
filled (none ∷ slots) = filled slots
filled (some sig ∷ slots) = suc (filled slots)

-- A slot is empty, or holds the signature of 64 bytes that the input has for the key and the leaf.
abbrev pub IsSlot : Bytes → List TapScriptSig → Bytes → Option Bytes → Type 0
IsSlot leaf_hash sigs key none = Unit
IsSlot leaf_hash sigs key (some sig) =
    (tap_sig_of key leaf_hash sigs ≡ some sig) × (length sig ≡ 64)

IsFilled : ℕ → Bytes → List TapScriptSig → List Bytes → ℕ → SlotsAndCount → Type 0
IsFilled m leaf_hash sigs keys taken (slots, total) =
    (total ≡ taken + filled slots) × (total ≤ m) × All2 (IsSlot leaf_hash sigs) keys slots

module _ (i m : ℕ) (leaf_hash : Bytes) (sigs : List TapScriptSig) where
  empty_slot-IsFilled :
      (key : Bytes) (keys : List Bytes) (taken : ℕ) (rest : Result SlotsAndCount)
      (r : SlotsAndCount)
      → ((r' : SlotsAndCount) → rest ≡ ok r' → IsFilled m leaf_hash sigs keys taken r')
      → empty_slot rest ≡ ok r
      → IsFilled m leaf_hash sigs (key ∷ keys) taken r
  unfolding IsFilled filled empty_slot
  empty_slot-IsFilled key keys taken (ok (slots, total)) r ih e =
      let (count, bound, all) = ih (slots, total) refl in
      subst (λ r. IsFilled m leaf_hash sigs (key ∷ keys) taken r) (ok-injective e)
        (count, bound, (tt, all))
  empty_slot-IsFilled key keys taken (err raised) r ih e = cc

  fill_slot-IsFilled :
      (key sig : Bytes) (keys : List Bytes) (taken : ℕ) (rest : Result SlotsAndCount)
      (r : SlotsAndCount)
      → tap_sig_of key leaf_hash sigs ≡ some sig
      → ((r' : SlotsAndCount) → rest ≡ ok r' → IsFilled m leaf_hash sigs keys (taken + 1) r')
      → fill_slot i sig rest ≡ ok r
      → IsFilled m leaf_hash sigs (key ∷ keys) taken r
  unfolding IsFilled filled fill_slot
  fill_slot-IsFilled key sig keys taken rest r found ih e =
      let (_, sized, e1) = >>=-eq-ok (guard (length sig == 64) (psbt (incomplete_input i))) _ e in
      let ((slots, total), more, e2) = >>=-eq-ok rest _ e1 in
      let (count, bound, all) = ih (slots, total) more in
      subst (λ r. IsFilled m leaf_hash sigs (key ∷ keys) taken r) (ok-injective e2)
        (omega arith, bound, ((found, (==_iff (length sig) 64).0 (guard-eq-ok _ _ sized)), all))

  next_slot-IsFilled :
      (key : Bytes) (keys : List Bytes) (taken : ℕ) (found : Option Bytes) (r : SlotsAndCount)
      → tap_sig_of key leaf_hash sigs ≡ found
      → taken ≤ m
      → ((t : ℕ) (r' : SlotsAndCount)
          → t ≤ m
          → tap_slots i m leaf_hash sigs keys t ≡ ok r'
          → IsFilled m leaf_hash sigs keys t r')
      → next_slot i m found taken (tap_slots i m leaf_hash sigs keys) ≡ ok r
      → IsFilled m leaf_hash sigs (key ∷ keys) taken r
  unfolding next_slot
  next_slot-IsFilled key keys taken none r f below ih e =
      empty_slot-IsFilled key keys taken _ r (λ r' more. ih taken r' below more) e
  next_slot-IsFilled key keys taken (some sig) r f below ih e = elim (Bool-cases (ltb taken m)) [
    | inl free ↦
        fill_slot-IsFilled key sig keys taken (tap_slots i m leaf_hash sigs keys (taken + 1)) r f
          (λ r' more. ih (taken + 1) r' (omega (arith, ltb→lt taken m free)) more) (rw free at e)
    | inr full ↦
        empty_slot-IsFilled key keys taken (tap_slots i m leaf_hash sigs keys taken) r
          (λ r' more. ih taken r' below more) (rw full at e)
  ]

  tap_slots-IsFilled :
      (keys : List Bytes) (taken : ℕ) (r : SlotsAndCount)
      → taken ≤ m
      → tap_slots i m leaf_hash sigs keys taken ≡ ok r
      → IsFilled m leaf_hash sigs keys taken r
  unfolding tap_slots IsFilled filled
  tap_slots-IsFilled [] taken (slots, total) below e =
      subst (λ r. IsFilled m leaf_hash sigs [] taken r) (ok-injective e) (omega arith, below, tt)
  tap_slots-IsFilled (key ∷ keys) taken r below e =
      next_slot-IsFilled key keys taken (tap_sig_of key leaf_hash sigs) r refl below
        (λ t r' b more. tap_slots-IsFilled keys t r' b more) e

  -- The slots of a tapscript spend are as many as the keys of the script, exactly `m` of them are filled,
  -- and a filled slot holds the signature of 64 bytes that the input has for the key of that slot.
  pub quorum_slots_bound :
      (keys : List Bytes) (slots : List (Option Bytes))
      → quorum_slots i m leaf_hash sigs keys ≡ ok slots
      → (filled slots ≡ m) × (length slots ≡ length keys) × All2 (IsSlot leaf_hash sigs) keys slots
  unfolding quorum_slots IsFilled
  quorum_slots_bound keys slots e =
      let ((slots', total), whole, e1) = >>=-eq-ok (tap_slots i m leaf_hash sigs keys 0) _ e in
      let (_, enough, e2) =
        >>=-eq-ok (guard (not (ltb total m)) (psbt (incomplete_input i))) _ e1 in
      let (count, bound, all) = tap_slots-IsFilled keys 0 (slots', total) (omega arith) whole in
      let least : m ≤ total = not_below total (guard-eq-ok _ _ enough) in
      subst (λ s. (filled s ≡ m) × (length s ≡ length keys) × All2 (IsSlot leaf_hash sigs) keys s)
        (ok-injective e2) (omega arith, All2-length keys slots' all, all)
    where
      not_below : (a : ℕ) → not (ltb a m) ≡ true → m ≤ a
      not_below a h = ground arith

      All2-length :
          (ks : List Bytes) (ss : List (Option Bytes))
          → All2 (IsSlot leaf_hash sigs) ks ss
          → length ss ≡ length ks
      All2-length [] [] h = refl
      All2-length [] (s ∷ ss) h = absurd h
      All2-length (k ∷ ks) [] h = absurd h
      All2-length (k ∷ ks) (s ∷ ss) h = ap suc (All2-length ks ss h.1)

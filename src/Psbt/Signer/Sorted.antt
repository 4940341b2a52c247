-- ===== src/Psbt/Signer/Sorted.antt =====
-- The order of the signatures of an input, through the insertions of the Signer.
use mathlib.Core.List.{Perm, Permᴰ}
use mathlib.Core.List.Permᴰ
use yubtc_python.Prelude.{
  ℕ, ◌≡◌, refl, sym, subst, List, [], ◌∷◌, ◌⊎◌, inl, inr, get_elem?, if◌then◌else◌, Bool, true,
  false, Bool-cases, some, ok, arith,
}
use yubtc_python.Prelude.Bytes.{Bytes, bytes_eq→eq, bytes_eq_refl, slice}
use yubtc_python.Prelude.Sort.{bytes_leb, bytes_leb_total, Follows, IsSorted}
use yubtc_python.Transaction.Signing.{Coincurve}
use yubtc_python.Transaction.Taproot.{Curve}
use yubtc_python.Psbt.KeyValue.{Pair}
use yubtc_python.Psbt.Model.{PsbtIn, Psbt, TapScriptSig}
use yubtc_python.Psbt.Merge.{insert_tap_script_sig, sig_key_leb}
use yubtc_python.Psbt.Utxo.{set_input}
use yubtc_python.Psbt.Signer.{insert_partial_sig, add_partial_sig, add_tap_sig, sign_psbt_input}
use yubtc_python.Psbt.Signer.Adds.{IsSigning, by_partial_sig, by_tap_sig}
use yubtc_python.Psbt.Signer.Again.{get_elem?-update, sign_psbt_input-IsSigning}

-- The insertion behind all items that are not greater: what the two loops have in common.
module _ {ℓ} {A : Type ℓ} (leq : A → A → Bool) where
  insert_behind : A → List A → List A
  insert_behind x [] = x ∷ []
  insert_behind x (y ∷ ys) = if leq y x then y ∷ insert_behind x ys else x ∷ y ∷ ys

  behind-Permᴰ : (x : A) (xs : List A) → Permᴰ (insert_behind x xs) (x ∷ xs)
  unfolding insert_behind
  behind-Permᴰ x [] = Permᴰ.refl (x ∷ [])
  behind-Permᴰ x (y ∷ ys) = elim (Bool-cases (leq y x)) [
    | inl behind ↦
        rw behind (Permᴰ.trans (Permᴰ.cons refl (behind-Permᴰ x ys)) (Permᴰ.swap refl refl))
    | inr before ↦ rw before (Permᴰ.refl (x ∷ y ∷ ys))
  ]

  Follows-behind :
      (z x : A) (xs : List A)
      → leq z x ≡ true
      → Follows leq z xs
      → Follows leq z (insert_behind x xs)
  unfolding insert_behind
  Follows-behind z x [] h k = h
  Follows-behind z x (y ∷ ys) h k = elim (Bool-cases (leq y x)) [
    | inl behind ↦ rw behind k
    | inr before ↦ rw before h
  ]

  behind-IsSorted :
      ((a b : A) → leq a b ≡ false → leq b a ≡ true)
      → (x : A) (xs : List A) → IsSorted leq xs
      → IsSorted leq (insert_behind x xs)
  unfolding insert_behind
  behind-IsSorted total x [] h = (tt, tt)
  behind-IsSorted total x (y ∷ ys) h = elim (Bool-cases (leq y x)) [
    | inl behind ↦
        rw (behind, insert_behind)
          (Follows-behind y x ys behind h.0, behind-IsSorted total x ys h.1)
    | inr before ↦ rw (before, insert_behind) (total y x before, h)
  ]

-- The order of partial signatures: that of the keys.
abbrev pub pubkey_leb : Pair → Pair → Bool
pubkey_leb a b = bytes_leb a.0 b.0

insert_partial_sig-behind :
    (sigs : List Pair) (pubkey sig : Bytes)
    → insert_partial_sig sigs pubkey sig ≡ insert_behind pubkey_leb (pubkey, sig) sigs
unfolding insert_partial_sig insert_behind
insert_partial_sig-behind [] pubkey sig = refl
insert_partial_sig-behind ((k, s) ∷ sigs) pubkey sig =
    rw (insert_partial_sig-behind sigs pubkey sig) refl

insert_tap_script_sig-behind :
    (sigs : List TapScriptSig) (entry : TapScriptSig)
    → insert_tap_script_sig sigs entry ≡ insert_behind sig_key_leb entry sigs
unfolding insert_tap_script_sig insert_behind
insert_tap_script_sig-behind [] entry = refl
insert_tap_script_sig-behind (s ∷ sigs) entry = rw (insert_tap_script_sig-behind sigs entry) refl

sig_key_leb_total : (a b : TapScriptSig) → sig_key_leb a b ≡ false → sig_key_leb b a ≡ true
unfolding sig_key_leb
sig_key_leb_total a b h = ground (
  arith,
  bytes_eq→eq a.x_only b.x_only,
  bytes_eq→eq b.x_only a.x_only,
  bytes_eq_refl a.x_only,
  bytes_eq_refl b.x_only,
  bytes_leb_total a.x_only b.x_only,
  bytes_leb_total a.leaf_hash b.leaf_hash,
)

-- Both lists of signatures stand in their orders.
abbrev pub AreOrdered : PsbtIn → Type 0
AreOrdered x = IsSorted pubkey_leb x.partial_sigs × IsSorted sig_key_leb x.tap_script_sigs

-- One signature more, in one of the two lists, under the key.
abbrev pub HasOneMore : Bytes → PsbtIn → PsbtIn → Type 0
HasOneMore pubkey x x' =
    ((sig : Bytes) × Perm x'.partial_sigs ((pubkey, sig) ∷ x.partial_sigs)
      × (x'.tap_script_sigs ≡ x.tap_script_sigs))
    ⊎ ((entry : TapScriptSig) × (entry.x_only ≡ slice pubkey 1 33)
        × Perm x'.tap_script_sigs (entry ∷ x.tap_script_sigs)
        × (x'.partial_sigs ≡ x.partial_sigs))

partial-Perm :
    (sigs : List Pair) (pubkey sig : Bytes)
    → Perm (insert_partial_sig sigs pubkey sig) ((pubkey, sig) ∷ sigs)
partial-Perm sigs pubkey sig =
    subst (λ l. Perm l ((pubkey, sig) ∷ sigs)) (sym (insert_partial_sig-behind sigs pubkey sig))
      ∣ behind-Permᴰ pubkey_leb (pubkey, sig) sigs ∣₁

tap-Perm :
    (sigs : List TapScriptSig) (entry : TapScriptSig)
    → Perm (insert_tap_script_sig sigs entry) (entry ∷ sigs)
tap-Perm sigs entry =
    subst (λ l. Perm l (entry ∷ sigs)) (sym (insert_tap_script_sig-behind sigs entry))
      ∣ behind-Permᴰ sig_key_leb entry sigs ∣₁

signing-HasOneMore :
    {pubkey : Bytes} {f : PsbtIn → PsbtIn}
    → IsSigning pubkey f
    → (x : PsbtIn) → HasOneMore pubkey x (f x)
unfolding add_partial_sig add_tap_sig
signing-HasOneMore {pubkey} (by_partial_sig sig) x =
    inl (sig, partial-Perm x.partial_sigs pubkey sig, refl)
signing-HasOneMore (by_tap_sig leaf_hash sig) x = inr (_, refl, tap-Perm x.tap_script_sigs _, refl)

signing-AreOrdered :
    {pubkey : Bytes} {f : PsbtIn → PsbtIn}
    → IsSigning pubkey f
    → (x : PsbtIn) → AreOrdered x
    → AreOrdered (f x)
unfolding add_partial_sig add_tap_sig
signing-AreOrdered {pubkey} (by_partial_sig sig) x h = (
  subst (IsSorted pubkey_leb) (sym (insert_partial_sig-behind x.partial_sigs pubkey sig)) (
      behind-IsSorted pubkey_leb (λ a b. bytes_leb_total a.0 b.0) (pubkey, sig) x.partial_sigs h.0),
  h.1,
)
signing-AreOrdered (by_tap_sig leaf_hash sig) x h = (
  h.0,
  subst (IsSorted sig_key_leb) (sym (insert_tap_script_sig-behind x.tap_script_sigs _))
      (behind-IsSorted sig_key_leb sig_key_leb_total _ x.tap_script_sigs h.1),
)

module _ (sha256 ripemd160 : Bytes → Bytes) (lib : Coincurve) (curve : Curve) where
  -- Where the signatures of input `i` stand in the orders of their keys, `sign_psbt_input` loses and replaces
  -- none of them: it leaves the PSBT as it was, or the input holds what it held and one signature more, under
  -- the key that signs, and the signatures stand in those orders again.
  pub sign_psbt_input-AreOrdered :
      (p p' : Psbt) (i : ℕ) (privkey : lib.PrivateKey) (b : Bool) (x : PsbtIn)
      → get_elem? p.inputs i ≡ some x
      → AreOrdered x
      → sign_psbt_input sha256 ripemd160 lib curve p i privkey ≡ ok (p', b)
      → (p' ≡ p)
        ⊎ ((x' : PsbtIn) × (get_elem? p'.inputs i ≡ some x')
            × HasOneMore (lib.public_key privkey) x x'
            × AreOrdered x')
  unfolding set_input
  sign_psbt_input-AreOrdered p p' i privkey b x at_i ordered e =
      elim (sign_psbt_input-IsSigning sha256 ripemd160 lib curve i privkey p p' b e) [
        | inl same ↦ inl same
        | inr (_, f, signing, is_set, _) ↦ inr (
          f x,
          subst (λ (q : Psbt). get_elem? q.inputs i ≡ some (f x)) (sym is_set)
              (get_elem?-update f i p.inputs x at_i),
          signing-HasOneMore signing x,
          signing-AreOrdered signing x ordered,
        )
      ]

-- ===== src/Psbt/Merge/Field.antt =====
-- The Combiner's merges of single fields and of opaque pairs.
use yubtc_python.Prelude.{◌≡◌, refl, List, true, Option, none, some, ok, ◌>>=◌, arith}
use yubtc_python.Prelude.Bytes.{Bytes, bytes_eq→eq, bytes_eq_refl}
use yubtc_python.Psbt.Model.{UnknownKv}
use yubtc_python.Psbt.Merge.{find, same_value, merge_unknown, merge_field}
use yubtc_python.Psbt.Merge.Keyed.{or_else, DistinctKeys, merge_keyed-find, merge_keyed_comm}

module _ {ℓ} {A : Type ℓ} (eq : Discrete A) where
  -- `_merge_field` treats both sides alike: swapping them gives the same field or the same refusal.
  pub merge_field_comm : (a b : Option A) → merge_field eq a b ≡ merge_field eq b a
  unfolding merge_field
  merge_field_comm none none = refl
  merge_field_comm none (some b) = refl
  merge_field_comm (some a) none = refl
  merge_field_comm (some a) (some b) = elim (eq a b) [
    | yes e ↦ ground (arith, e)
    | no d ↦ ground (arith, d)
  ]

  -- Merging a third field in gives the same however the three are grouped.
  pub merge_field_assoc :
      (a b c : Option A)
      → (merge_field eq a b >>= λ ab. merge_field eq ab c)
        ≡ (merge_field eq b c >>= λ bc. merge_field eq a bc)
  unfolding merge_field
  merge_field_assoc none none none = refl
  merge_field_assoc none none (some c) = refl
  merge_field_assoc none (some b) none = refl
  merge_field_assoc none (some b) (some c) = ground arith
  merge_field_assoc (some a) none c = refl
  merge_field_assoc (some a) (some b) none = ground arith
  merge_field_assoc (some a) (some b) (some c) = ground arith

  pub merge_field_idem : (a : Option A) → merge_field eq a a ≡ ok a
  unfolding merge_field
  merge_field_idem none = refl
  merge_field_idem (some a) = ground arith

same_value_refl : (x : UnknownKv) → same_value x x ≡ true
unfolding same_value
same_value_refl x = bytes_eq_refl x.value

same_value_lem : (x y : UnknownKv) → x.key ≡ y.key → same_value x y ≡ true → x ≡ y
unfolding same_value
same_value_lem x y k h = ground (arith, bytes_eq→eq x.value y.value)

-- Where no key stands twice in the first list and the Combiner merges two lists of opaque pairs, the
-- merge has under each key the pair of the first list, or else that of the second; the lists merge the
-- other way round too, to the same pair under every key.
pub merge_unknown_lem :
    (a b c : List UnknownKv)
    → DistinctKeys (λ u. u.key) a
    → merge_unknown a b ≡ ok c
    → ((k : Bytes)
        → find (λ u. u.key) k c ≡ or_else (find (λ u. u.key) k a) (find (λ u. u.key) k b))
      × ((c' : List UnknownKv) × (merge_unknown b a ≡ ok c')
          × ((k : Bytes) → find (λ u. u.key) k c' ≡ find (λ u. u.key) k c))
unfolding merge_unknown
merge_unknown_lem a b c d e = (
  λ k. merge_keyed-find (λ u. u.key) same_value b a c k e,
  merge_keyed_comm (λ u. u.key) same_value same_value_refl same_value_lem a b c d e,
)

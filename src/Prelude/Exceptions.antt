-- ===== src/Prelude/Exceptions.antt =====
-- The exceptions that the modelled code raises, as values, and the monad of code that may raise.
use Prim.Native.Nat.{ℕ}
use mathlib.Core.Path.{◌≡◌, refl, ap, ◌∙◌}
use mathlib.Core.Bool.{Bool, true, false}
use mathlib.Core.List.{List, [], ◌∷◌, ◌++◌}

-- psbt.py: the subclasses of `PsbtError`.
pub data PsbtError : Type 0 where
  invalid_magic truncated non_minimal_compact_size duplicate_key missing_unsigned_tx : PsbtError
  invalid_unsigned_tx map_count_mismatch invalid_field_value unsupported_input_script : PsbtError
  utxo_mismatch conflicting_field foreign_transaction not_finalized too_large : PsbtError
  invalid_key_length unsupported_version unsupported_sighash_type incomplete_input : ℕ → PsbtError

-- Python's exception classes. `out_of_fuel` is none of them: a loop of the model ran out of fuel.
pub data Error : Type 0 where
  struct_error index_error value_error overflow_error : Error
  invalid_multisig_redeem invalid_multisig_tapscript tap_tweak_error : Error
  psbt : PsbtError → Error
  out_of_fuel : Error

-- The value of code that may raise, and what becomes of the code behind it.
pub data Result {ℓ} (V : Type ℓ) : Type ℓ where
  err : Error → Result V
  ok : V → Result V

-- `if not b: raise e`
abbrev pub guard : Bool → Error → Result (Unit {0})
guard false raised = err raised
guard true _ = ok tt

infixl 5 ◌>>=◌
abbrev pub ◌>>=◌ {ℓ κ} : {V : Type ℓ} {W : Type κ} → Result V → (V → Result W) → Result W
err raised >>= next = err raised
ok v >>= next = next v

infixl 5 ◌>>◌
abbrev pub ◌>>◌ {κ} : {W : Type κ} → Result (Unit {0}) → Result W → Result W
check >> next = check >>= λ _. next

-- Where a chain ends well, its first part has a value, from which the rest goes on.
pub >>=-eq-ok {ℓ κ} :
    {V : Type ℓ} {W : Type κ} (first : Result V) (next : V → Result W) {w : W}
    → (first >>= next) ≡ ok w
    → (v : V) × (first ≡ ok v) × (next v ≡ ok w)
>>=-eq-ok (err raised) next e = cc
>>=-eq-ok (ok v) next e = (v, refl, e)

-- Chains that continue alike are alike, and chains can be regrouped.
pub >>=-cong {ℓ κ} :
    {A : Type ℓ} {B : Type κ} (m : Result A) {f g : A → Result B}
    → ((a : A) → f a ≡ g a)
    → (m >>= f) ≡ (m >>= g)
>>=-cong (ok a) h = h a
>>=-cong (err e) h = refl

pub >>=-cong_of {ℓ κ} :
    {A : Type ℓ} {B : Type κ} {m n : Result A} {f g : A → Result B}
    → m ≡ n
    → ((a : A) → f a ≡ g a)
    → (m >>= f) ≡ (n >>= g)
>>=-cong_of {n = n} {f = f} e h = ap (λ m. m >>= f) e ∙ >>=-cong n h

pub >>=_assoc {ℓ κ μ} :
    {A : Type ℓ} {B : Type κ} {C : Type μ} (m : Result A) (f : A → Result B) (g : B → Result C)
    → ((m >>= f) >>= g) ≡ (m >>= λ a. f a >>= g)
>>=_assoc (ok a) f g = refl
>>=_assoc (err e) f g = refl

pub ok-injective {ℓ} : {A : Type ℓ} {a b : A} → ok a ≡ ok b → a ≡ b
ok-injective e = cc

pub guard-eq-ok : (b : Bool) (e : Error) {u : Unit {0}} → guard b e ≡ ok u → b ≡ true
guard-eq-ok true e h = refl
guard-eq-ok false e h = cc

-- The exceptions that are a ValueError of Python's.
unfoldable pub is_value_error : Error → Bool
is_value_error value_error = true
is_value_error invalid_multisig_redeem = true
is_value_error invalid_multisig_tapscript = true
is_value_error tap_tweak_error = true
is_value_error _ = false

-- What stands for a value that was not returned: `raised`, unless the exception is no ValueError.
unfoldable pub replace_error {ℓ} : {A : Type ℓ} → Bool → Error → Error → Result A
replace_error true raised new = err new
replace_error false raised new = err raised

-- `try: … except ValueError: raise e`
unfoldable pub except_value {ℓ} : {A : Type ℓ} → Result A → Error → Result A
unfolding is_value_error replace_error
except_value (ok a) e = ok a
except_value (err raised) e = replace_error (is_value_error raised) raised e

replace_error-ok {ℓ} :
    {A : Type ℓ} (b : Bool) (raised new : Error) {a : A} → ¬ (replace_error b raised new ≡ ok a)
unfolding replace_error
replace_error-ok true raised new = λ e. cc
replace_error-ok false raised new = λ e. cc

pub except_value-eq-ok {ℓ} :
    {A : Type ℓ} (r : Result A) (raised : Error) {a : A} → except_value r raised ≡ ok a → r ≡ ok a
unfolding except_value
except_value-eq-ok (ok a) raised e = e
except_value-eq-ok (err error) raised e =
    absurd (replace_error-ok (is_value_error error) error raised e)

-- `[f(x) for x in xs]`
abbrev pub traverse {ℓ κ} : {A : Type ℓ} {B : Type κ} → (A → Result B) → List A → Result (List B)
traverse f [] = ok []
traverse f (x ∷ xs) = do y ← f x; ys ← traverse f xs; ok (y ∷ ys)

-- `for x in xs: result += f(x)`
abbrev pub concat_map {ℓ κ} :
    {A : Type ℓ} {B : Type κ} → (A → Result (List B)) → List A → Result (List B)
concat_map f [] = ok []
concat_map f (x ∷ xs) = do y ← f x; ys ← concat_map f xs; ok (y ++ ys)

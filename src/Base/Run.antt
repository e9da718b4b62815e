-- ===== src/Base/Run.antt =====
-- Runs of kernel code over a state. A run may return, halt the kernel by `panic`, do what C leaves
-- undefined (`fault`: a null or wild pointer, an index out of range, a shift by a negative count),
-- or meet the bound on the rounds of a loop (`out_of_fuel`).
use mathlib.Core.Path.{◌≡◌, refl, subst}

pub data Result {ℓ} (A : Type ℓ) : Type ℓ where
  ok : A → Result A
  panicked : Result A
  fault : Result A
  out_of_fuel : Result A

abbrev pub M : Type 0 → Type 0 → Type 0
M S A = S → Result (A × S)

abbrev pub pure : {S A : Type 0} → A → M S A
pure a s = ok (a, s)

abbrev pub panic : {S A : Type 0} → M S A
panic s = panicked

abbrev pub undefined : {S A : Type 0} → M S A
undefined s = fault

abbrev pub get : {S : Type 0} → M S S
get s = ok (s, s)

abbrev pub put : {S : Type 0} → S → M S (Unit {0})
put s _ = ok (tt, s)

abbrev pub modify : {S : Type 0} → (S → S) → M S (Unit {0})
modify f s = ok (tt, f s)

module _ {S A B : Type 0} where
  abbrev pub and_then : Result (A × S) → (A → M S B) → Result (B × S)
  and_then (ok (a, s)) k = k a s
  and_then panicked k = panicked
  and_then fault k = fault
  and_then out_of_fuel k = out_of_fuel

  infixl 5 ◌>>=◌
  abbrev pub ◌>>=◌ : M S A → (A → M S B) → M S B
  m >>= k = λ s. and_then (m s) k

infixl 5 ◌>>◌
abbrev pub ◌>>◌ : {S B : Type 0} → M S (Unit {0}) → M S B → M S B
m >> k = m >>= λ _. k

-- The part of the result that is left when the run ends well.
pub data Returns {S A : Type 0} (P : A → S → Type 0) : Result (A × S) → Type 0 where
  returns : {a : A} {s : S} → P a s → Returns P (ok (a, s))

module _ {S A : Type 0} {P : A → S → Type 0} where
  pub bind :
      {B : Type 0} {Q : B → S → Type 0} {r : Result (A × S)} {k : A → M S B}
      → Returns P r
      → ((a : A) (s : S) → P a s → Returns Q (k a s))
      → Returns Q (and_then r k)
  bind (returns p) next = next _ _ p

  pub mono :
      {Q : A → S → Type 0} {r : Result (A × S)}
      → Returns P r
      → ((a : A) (s : S) → P a s → Q a s)
      → Returns Q r
  mono (returns p) weaken = returns (weaken _ _ p)

-- A run that ends well, as an equation.
pub outcome :
    {S A : Type 0} {P : A → S → Type 0} {r : Result (A × S)}
    → Returns P r
    → (a : A) × (s : S) × (r ≡ ok (a, s)) × P a s
outcome (returns {a} {s} p) = (a, s, refl, p)

Outcome : {S A : Type 0} → (A → S → Type 0) → Result (A × S) → Type 0
Outcome P (ok (a, s)) = P a s
Outcome P panicked = Unit
Outcome P fault = Unit
Outcome P out_of_fuel = Unit

Returns-Outcome :
    {S A : Type 0} {P : A → S → Type 0} {r : Result (A × S)} → Returns P r → Outcome P r
unfolding Outcome
Returns-Outcome (returns p) = p

-- What holds of the result of a run that is known.
pub result_of :
    {S A : Type 0} {P : A → S → Type 0} {r : Result (A × S)} {a : A} {s : S}
    → Returns P r
    → r ≡ ok (a, s)
    → P a s
unfolding Outcome
result_of {P} returned e = subst (λ r. Outcome P r) e (Returns-Outcome returned)

-- Runs in a row may be grouped either way.
pub and_then_assoc :
    {S A B C : Type 0} (r : Result (A × S)) (k : A → M S B) (l : B → M S C)
    → and_then (and_then r k) l ≡ and_then r (λ a s. and_then (k a s) l)
and_then_assoc (ok (a, s)) k l = refl
and_then_assoc panicked k l = refl
and_then_assoc fault k l = refl
and_then_assoc out_of_fuel k l = refl

-- The rest of a run may be exchanged.
pub and_then_congr :
    {S A B : Type 0} (r : Result (A × S)) {k l : A → M S B}
    → ((a : A) (s : S) → k a s ≡ l a s)
    → and_then r k ≡ and_then r l
and_then_congr (ok (a, s)) e = e a s
and_then_congr panicked e = refl
and_then_congr fault e = refl
and_then_congr out_of_fuel e = refl

-- The rest of a run may be exchanged where it agrees on what the run gives.
pub and_then_agree :
    {S A B : Type 0} (r : Result (A × S)) {k l : A → M S B}
    → ((a : A) (s : S) → r ≡ ok (a, s) → k a s ≡ l a s)
    → and_then r k ≡ and_then r l
and_then_agree (ok (a, s)) e = e a s refl
and_then_agree panicked e = refl
and_then_agree fault e = refl
and_then_agree out_of_fuel e = refl

-- ===== src/Base/Tests.antt =====
-- Boolean tests on the native numbers, the conditional, and updates of an array.
use Prim.Native.Nat.{ℕ, zero, suc, ◌+◌, ◌≤◌, ◌<◌, compare, Ordering}
use mathlib.Core.Path.{◌≡◌, refl, subst}
use mathlib.Core.Logic.{◌↔◌, ◌⊎◌, inl, inr, ◌≢◌}
use mathlib.Core.Bool.{Bool, true, false}
use mathlib.Core.Option.{Option, none, some}
use native.Mathlib.Omega.{arith}

abbrev pub ltb : ℕ → ℕ → Bool
ltb a b = elim (compare a b) [ Ordering.lt ↦ true | _ ↦ false ]

abbrev pub leb : ℕ → ℕ → Bool
leb a b = elim (compare a b) [ Ordering.gt ↦ false | _ ↦ true ]

infix 50 ◌==◌
abbrev pub ◌==◌ : ℕ → ℕ → Bool
a == b = elim (compare a b) [ Ordering.eq ↦ true | _ ↦ false ]

infix 1 if◌then◌else◌
abbrev pub if◌then◌else◌ {ℓ} : {A : Type ℓ} → Bool → A → A → A
if true then x else y = x
if false then x else y = y

pub ltb→lt : (a b : ℕ) → ltb a b ≡ true → a < b
ltb→lt a b h = ground arith

pub lt→ltb : (a b : ℕ) → a < b → ltb a b ≡ true
lt→ltb a b h = ground arith

pub ge→ltb : (a b : ℕ) → b ≤ a → ltb a b ≡ false
ge→ltb a b h = ground arith

pub gt→leb : (a b : ℕ) → b < a → leb a b ≡ false
gt→leb a b h = ground arith

pub le→leb : (a b : ℕ) → a ≤ b → leb a b ≡ true
le→leb a b h = ground arith

pub ltb→ge : (a b : ℕ) → ltb a b ≡ false → b ≤ a
ltb→ge a b h = ground arith

pub ==_iff : (a b : ℕ) → ((a == b) ≡ true) ↔ (a ≡ b)
==_iff a b = ground arith

pub ==_refl : (a : ℕ) → (a == a) ≡ true
==_refl a = ground arith

pub ==_ne : (a b : ℕ) → a ≢ b → (a == b) ≡ false
==_ne a b h = ground arith

pub Bool-cases : (b : Bool) → (b ≡ true) ⊎ (b ≡ false)
Bool-cases true = inl refl
Bool-cases false = inr refl

pub Option-cases {ℓ} : {A : Type ℓ} (o : Option A) → (o ≡ none) ⊎ ((a : A) × (o ≡ some a))
Option-cases none = inl refl
Option-cases (some a) = inr (a, refl)

-- What holds of both branches holds of the conditional.
pub if_both {ℓ κ} :
    {A : Type ℓ} (P : A → Type κ) (b : Bool) {x y : A} → P x → P y → P (if b then x else y)
if_both P true p q = p
if_both P false p q = q

-- An array as a function of its index, and a write to one element.
abbrev pub update {ℓ} : {A : Type ℓ} → (ℕ → A) → ℕ → A → ℕ → A
update f i v j = if i == j then v else f j

-- `for (k = i; k < i + n; k++) s = step k s`
unfoldable pub for_range {ℓ} : {S : Type ℓ} → (rounds first : ℕ) → (ℕ → S → S) → S → S
for_range zero first step s = s
for_range (suc rounds) first step s = for_range rounds (first + 1) step (step first s)

-- What each round keeps, up to the bound `top` of the counter, holds at the end of the loop.
pub for_range_inv {ℓ κ} :
    {S : Type ℓ} (Inv : ℕ → S → Type κ) (step : ℕ → S → S) (top : ℕ)
    → ((k : ℕ) (s : S) → k < top → Inv k s → Inv (k + 1) (step k s))
    → (rounds first end : ℕ) (s : S) → first + rounds ≡ end
    → end ≤ top
    → Inv first s
    → Inv end (for_range rounds first step s)
unfolding for_range
for_range_inv Inv step top keeps zero first end s ends below start =
    subst (λ k. Inv k s) (omega (arith, ends)) start
for_range_inv Inv step top keeps (suc rounds) first end s ends below start =
    let next = keeps first s (omega arith) start in
    for_range_inv Inv step top keeps rounds (first + 1) end (step first s) (omega arith) below next

-- A test of each number below `bound`, run by evaluation.
unfoldable pub passes_below : (bound : ℕ) → (ℕ → Bool) → Bool
passes_below zero test = true
passes_below (suc k) test = if test k then passes_below k test else false

pub passes_below_each :
    (bound : ℕ) (test : ℕ → Bool) (k : ℕ)
    → passes_below bound test ≡ true
    → k < bound
    → test k ≡ true
unfolding passes_below
passes_below_each zero test k all lt = absurd (omega (arith, lt))
passes_below_each (suc b) test k all lt = ground (arith, all, passes_below_each b test k)

-- ===== src/Os/Outcomes.antt =====
-- What every result of a call satisfies.
use linux_like_os.Base.{◌≡◌, refl, subst, Option, none, some, Bool, true, false, if◌then◌else◌}

abbrev pub All {ℓ} : {A : Type ℓ} → (A → Type 0) → Option A → Type 0
All P none = Unit {0}
All P (some a) = P a

pub record Gives {ℓ} {A : Type ℓ} (P : A → Type 0) (o : Option A) : Type ℓ where
  pub all : All P o

pub nothing {ℓ} : {A : Type ℓ} {P : A → Type 0} → Gives P none
nothing = record { all = tt }

pub result {ℓ} : {A : Type ℓ} {P : A → Type 0} (a : A) → P a → Gives P (some a)
result a p = record { all = p }

pub Gives-elim {ℓ κ} :
    {A : Type ℓ} {B : Type κ} (P : B → Type 0) (o : Option A) (z : Option B) (f : A → Option B)
    → Gives P z
    → ((a : A) → o ≡ some a → Gives P (f a))
    → Gives P (elim o [ none ↦ z | some a ↦ f a ])
Gives-elim P none z f y h = y
Gives-elim P (some a) z f y h = h a refl

pub Gives-some {ℓ} :
    {A : Type ℓ} (P : A → Type 0) (o : Option A) (a : A) → Gives P o → o ≡ some a → P a
Gives-some P none a g e = absurd (cc)
Gives-some P (some b) a g e = subst P (cc) (g.all)

-- Each branch of a test, with what the test has found.
pub if_cases {ℓ κ} :
    {A : Type ℓ} (P : A → Type κ) (b : Bool) {x y : A}
    → (b ≡ true → P x)
    → (b ≡ false → P y)
    → P (if b then x else y)
if_cases P true p q = p refl
if_cases P false p q = q refl

pub Gives-map {ℓ} :
    {A : Type ℓ} {P Q : A → Type 0} {o : Option A} → Gives P o → ((a : A) → P a → Q a) → Gives Q o
Gives-map {o = none} g f = nothing
Gives-map {o = some a} g f = result a (f a g.all)

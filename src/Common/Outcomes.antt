-- ===== src/Common/Outcomes.antt =====
-- The outcomes of Rust code: a `Result` as a value, and a call that may panic.
use mathlib.Core.Path.{◌≡◌, refl}
use mathlib.Core.Bool.{Bool, true, false}

-- `Result<A, E>`.
pub data Result {ℓ κ} (A : Type ℓ) (E : Type κ) : Type (ℓ ⊔ κ) where
  ok : A → Result A E
  err : E → Result A E

-- `stuck` is no outcome of the program: the fuel of a modelled `while` loop ran out.
pub data Checked {ℓ} (A : Type ℓ) : Type ℓ where
  done : A → Checked A
  panic : Checked A
  stuck : Checked A

infixl 5 ◌>>=◌ ◌>>◌
abbrev pub ◌>>=◌ {ℓ κ} : {A : Type ℓ} {B : Type κ} → Checked A → (A → Checked B) → Checked B
done a >>= f = f a
panic >>= f = panic
stuck >>= f = stuck

abbrev pub ◌>>◌ {ℓ} : {B : Type ℓ} → Checked (Unit {0}) → Checked B → Checked B
m >> k = m >>= λ _. k

-- `assert!(test)`.
abbrev pub assert : Bool → Checked (Unit {0})
assert true = done tt
assert false = panic

-- The call returns.
abbrev pub Returns {ℓ} : {A : Type ℓ} → Checked A → Type ℓ
Returns {A} m = (a : A) × (m ≡ done a)

-- A value that satisfies `P` is returned: no panic, and no loop that runs on.
abbrev pub Ensures {ℓ} : {A : Type ℓ} → (A → Type 0) → Checked A → Type 0
Ensures P (done a) = P a
Ensures P panic = ⊥
Ensures P stuck = ⊥

pub bind_assoc {ℓ κ μ} :
    {A : Type ℓ} {B : Type κ} {C : Type μ} (m : Checked A) (f : A → Checked B) (g : B → Checked C)
    → ((m >>= f) >>= g) ≡ (m >>= λ a. f a >>= g)
bind_assoc (done a) f g = refl
bind_assoc panic f g = refl
bind_assoc stuck f g = refl

-- A value that satisfies `P` goes into a function that takes such a value to one that satisfies `Q`.
module _ {ℓ κ} {A : Type ℓ} {B : Type κ} where
  pub Ensures-bind :
      (P : A → Type 0) (Q : B → Type 0) (m : Checked A) (f : A → Checked B)
      → Ensures P m
      → ((a : A) → P a → Ensures Q (f a))
      → Ensures Q (m >>= f)
  Ensures-bind P Q panic f h k = h
  Ensures-bind P Q stuck f h k = h
  Ensures-bind P Q (done a) f h k = k a h

-- ===== src/Base.antt =====
-- The names that the other modules share: the libraries', passed on, Boolean tests on the native
-- numbers and texts, the outcome of a Go call, and in child modules Go's int64 arithmetic,
-- `fmt.Sprintf("…%06d", n)` and `map[string]V`.
pub mod Word
pub mod Sprintf
pub mod Dict
pub mod Fresh
pub mod Lists
pub mod Sorting
pub mod Time
pub mod Result
pub mod Sums
pub mod Atoi
pub use Prim.Native.Nat.{ℕ, zero, suc, ◌+◌, ◌-◌, ◌*◌, ◌/◌, ◌%◌, ◌^◌, ◌≤◌, ◌<◌}
pub use Prim.Native.String.{String}
use mathlib.Core.Option.{some-injective, none-ne-some}
pub use mathlib.Core.Path.{subst, ◌≡◌, refl, sym, ap, ◌∙◌}
pub use mathlib.Core.Logic.{◌≢◌, ◌↔◌, ◌⊎◌, inl, inr}
pub use mathlib.Core.Bool.{Bool, true, false, not, ◌&&◌, ◌||◌}
pub use mathlib.Core.Option.{Option, none, some}
pub use mathlib.Core.List.{List, [], ◌∷◌, ◌++◌}
pub use native.Mathlib.Omega.{arith}
pub use text.Mathlib.Text.{◌==◌ as str_eq}
pub use text.Mathlib.TextEquality.{eq_iff}
use Prim.Native.Nat.{compare, Ordering}

abbrev pub ltb : ℕ → ℕ → Bool
ltb a b = elim (compare a b) [ Ordering.lt ↦ true | _ ↦ false ]

abbrev pub leb : ℕ → ℕ → Bool
leb a b = elim (compare a b) [ Ordering.gt ↦ false | _ ↦ true ]

infix 50 ◌==◌
abbrev pub ◌==◌ : ℕ → ℕ → Bool
a == b = elim (compare a b) [ Ordering.eq ↦ true | _ ↦ false ]

infix 1 if◌then◌else◌
abbrev pub if◌then◌else◌ {ℓ} : {A : Type ℓ} → Bool → A → A → A
if true then x else y = x
if false then x else y = y

-- To split on a computed value and keep the equation.
pub Bool-cases : (b : Bool) → (b ≡ true) ⊎ (b ≡ false)
Bool-cases true = inl refl
Bool-cases false = inr refl

pub Option-cases {ℓ} : {A : Type ℓ} (o : Option A) → (o ≡ none) ⊎ ((a : A) × (o ≡ some a))
Option-cases none = inl refl
Option-cases (some a) = inr (a, refl)

pub ne_of_eq_false : (s t : String) → (str_eq s t) ≡ false → s ≢ t
ne_of_eq_false s t h = ground (arith, eq_iff s t)

pub eq_false_of_ne : (s t : String) → s ≢ t → (str_eq s t) ≡ false
eq_false_of_ne s t h = ground (arith, eq_iff s t)

pub some_eq {ℓ} : {A : Type ℓ} {x y : A} → some x ≡ some y → x ≡ y
some_eq e = some-injective _ _ e

-- What holds of both branches holds of the test.
pub if_either {ℓ κ} :
    {A : Type ℓ} (P : A → Type κ) (c : Bool) {x y : A} → P x → P y → P (if c then x else y)
if_either P true hx hy = hx
if_either P false hx hy = hy

-- A test that gave `none` went on.
pub else_none :
    {A : Type 0} (b : Bool) (a : A) (y : Option A) → (if b then some a else y) ≡ none → y ≡ none
else_none true a y h = absurd (none-ne-some a (sym h))
else_none false a y h = h

pub then_none :
    {A : Type 0} (b : Bool) (a : A) (y : Option A) → (if b then y else some a) ≡ none → y ≡ none
then_none true a y h = h
then_none false a y h = absurd (none-ne-some a (sym h))

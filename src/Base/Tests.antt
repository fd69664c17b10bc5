-- ===== src/Base/Tests.antt =====
-- Boolean tests on the native numbers, the conditional, and equality tests as an interface.
use Prim.Native.Nat.{ℕ, ◌≤◌, ◌<◌, compare, Ordering}
use Prim.Native.String.{String}
use mathlib.Core.Path.{◌≡◌, refl}
use mathlib.Core.Logic.{◌↔◌, ◌⊎◌, inl, inr, ◌≢◌}
use mathlib.Core.Bool.{Bool, true, false, ◌&&◌}
use mathlib.Core.Option.{Option, none, some}
use mathlib.Core.List.{List, [], ◌∷◌}
use native.Mathlib.Omega.{arith}
use text.Mathlib.Text.{◌==◌ as str_eq}
use text.Mathlib.TextEquality.{eq_iff}

abbrev pub ltb : ℕ → ℕ → Bool
ltb a b = elim (compare a b) [ Ordering.lt ↦ true | _ ↦ false ]

abbrev pub leb : ℕ → ℕ → Bool
leb a b = elim (compare a b) [ Ordering.gt ↦ false | _ ↦ true ]

abbrev pub nat_eq : ℕ → ℕ → Bool
nat_eq a b = elim (compare a b) [ Ordering.eq ↦ true | _ ↦ false ]

infix 1 if◌then◌else◌
abbrev pub if◌then◌else◌ {ℓ} : {A : Type ℓ} → Bool → A → A → A
if true then x else y = x
if false then x else y = y

pub ltb→lt : (a b : ℕ) → ltb a b ≡ true → a < b
ltb→lt a b h = ground arith

pub lt→ltb : (a b : ℕ) → a < b → ltb a b ≡ true
lt→ltb a b h = ground arith

pub leb→le : (a b : ℕ) → leb a b ≡ true → a ≤ b
leb→le a b h = ground arith

pub nat_eq_iff : (a b : ℕ) → (nat_eq a b ≡ true) ↔ (a ≡ b)
nat_eq_iff a b = ground arith

pub ruleset tests = (arith, ltb→lt, lt→ltb, leb→le)

pub Bool-cases : (b : Bool) → (b ≡ true) ⊎ (b ≡ false)
Bool-cases true = inl refl
Bool-cases false = inr refl

pub Option-cases {ℓ} : {A : Type ℓ} (o : Option A) → (o ≡ none) ⊎ ((a : A) × (o ≡ some a))
Option-cases none = inl refl
Option-cases (some a) = inr (a, refl)

-- `PartialEq`, where it is an equivalence that decides `≡`.
pub record Eq {ℓ} (A : Type ℓ) : Type ℓ where
  pub same : A → A → Bool
  pub same_iff : (x y : A) → (same x y ≡ true) ↔ (x ≡ y)

instance abbrev pub string_eq : Eq String
string_eq = record { same_iff = eq_iff; same = str_eq }

instance abbrev pub ℕ_eq : Eq ℕ
ℕ_eq = record { same_iff = nat_eq_iff; same = nat_eq }

infix 50 ◌==◌
abbrev pub ◌==◌ {ℓ} : {A : Type ℓ} ⦃c : Eq A⦄ → A → A → Bool
◌==◌ ⦃c⦄ x y = c.same x y

module _ {ℓ} {A : Type ℓ} ⦃e : Eq A⦄ where
  pub eq_self : (a : A) → (a == a) ≡ true
  eq_self a = (e.same_iff a a).1 refl

  pub eq_true : {a b : A} → (a == b) ≡ true → a ≡ b
  eq_true {a} {b} h = (e.same_iff a b).0 h

  pub eq_of_ne : {a b : A} → a ≢ b → (a == b) ≡ false
  eq_of_ne {a} {b} h = elim (Bool-cases (a == b)) [ inl t ↦ absurd (h (eq_true t)) | inr f ↦ f ]

  pub ne_of_eq_false : {a b : A} → (a == b) ≡ false → a ≢ b
  ne_of_eq_false {a} {b} h p = cc (h, (e.same_iff a b).1 p)

  abbrev pub list_beq : List A → List A → Bool
  list_beq [] [] = true
  list_beq (x ∷ xs) (y ∷ ys) = (x == y) && list_beq xs ys
  list_beq _ _ = false

module _ {ℓ} {A : Type ℓ} ⦃e : Eq A⦄ where
  list_beq→eq : (xs ys : List A) → list_beq xs ys ≡ true → xs ≡ ys
  list_beq→eq [] [] h = refl
  list_beq→eq [] (y ∷ ys) h = cc
  list_beq→eq (x ∷ xs) [] h = cc
  list_beq→eq (x ∷ xs) (y ∷ ys) h = ground (arith, e.same_iff x y, list_beq→eq xs ys)

  list_beq_self : (xs : List A) → list_beq xs xs ≡ true
  list_beq_self [] = refl
  list_beq_self (x ∷ xs) = ground (arith, eq_self x, list_beq_self xs)

  pub list_beq_iff : (xs ys : List A) → (list_beq xs ys ≡ true) ↔ (xs ≡ ys)
  list_beq_iff xs ys = (list_beq→eq xs ys, λ p. rw p (list_beq_self ys))

instance abbrev pub list_eq {ℓ} : {A : Type ℓ} ⦃e : Eq A⦄ → Eq (List A)
list_eq = record { same_iff = list_beq_iff; same = list_beq }

-- A property of both branches is one of the conditional.
pub if_both {ℓ κ} :
    {A : Type ℓ} (P : A → Type κ) (b : Bool) {x y : A} → P x → P y → P (if b then x else y)
if_both P true p q = p
if_both P false p q = q

-- The branch that a known test takes.
pub if_then {ℓ κ} :
    {A : Type ℓ} (P : A → Type κ) (b : Bool) {x : A} (y : A)
    → b ≡ true
    → P x
    → P (if b then x else y)
if_then P true y h p = p
if_then P false y h p = absurd (ground arith)

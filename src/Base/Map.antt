-- ===== src/Base/Map.antt =====
-- Go maps as association lists, over any type of keys with a Boolean equality.
use Prim.Native.Nat.{ℕ}
use mathlib.Core.Path.{◌≡◌, refl}
use mathlib.Core.Logic.{◌≢◌, ◌↔◌}
use mathlib.Core.Bool.{Bool, true, false, ◌&&◌}
use mathlib.Core.Option.{Option, none, some}
use mathlib.Core.List.{List, [], ◌∷◌}
use native.Mathlib.Omega.{arith}
use fkgo_server.Base.Tests.{◌==◌ as nat_eqb, ==_iff, if◌then◌else◌}
use fkgo_server.Base.Int.{ℤ, eqb_ℤ}

pub record Eq {ℓ} (A : Type ℓ) : Type ℓ where
  pub beq : A → A → Bool
  pub beq_iff : (a b : A) → (beq a b ≡ true) ↔ (a ≡ b)

pub eqb_ℤ_iff : (a b : ℤ) → (eqb_ℤ a b ≡ true) ↔ (a ≡ b)
eqb_ℤ_iff a b = ground arith

instance abbrev pub nat_eq : Eq ℕ
nat_eq = record { beq = nat_eqb; beq_iff = ==_iff }

instance abbrev pub int_eq : Eq ℤ
int_eq = record { beq = eqb_ℤ; beq_iff = eqb_ℤ_iff }

-- Texts as lists of bytes.
abbrev pub bytes_eqb : List ℕ → List ℕ → Bool
bytes_eqb [] [] = true
bytes_eqb [] (_ ∷ _) = false
bytes_eqb (_ ∷ _) [] = false
bytes_eqb (a ∷ s) (b ∷ t) = nat_eqb a b && bytes_eqb s t

bytes_eqb→eq : (s t : List ℕ) → bytes_eqb s t ≡ true → s ≡ t
bytes_eqb→eq [] [] h = refl
bytes_eqb→eq [] (b ∷ t) h = cc
bytes_eqb→eq (a ∷ s) [] h = cc
bytes_eqb→eq (a ∷ s) (b ∷ t) h = ground (arith, bytes_eqb→eq s t)

bytes_eqb_refl : (s : List ℕ) → bytes_eqb s s ≡ true
bytes_eqb_refl [] = refl
bytes_eqb_refl (a ∷ s) = ground (arith, bytes_eqb_refl s)

pub bytes_eqb_iff : (s t : List ℕ) → (bytes_eqb s t ≡ true) ↔ (s ≡ t)
bytes_eqb_iff s t = (bytes_eqb→eq s t, λ e. rw e (bytes_eqb_refl t))

instance abbrev pub bytes_eq : Eq (List ℕ)
bytes_eq = record { beq = bytes_eqb; beq_iff = bytes_eqb_iff }

-- A map lists its bindings in no particular order.
abbrev pub GoMap {ℓ κ} : Type ℓ → Type κ → Type (ℓ ⊔ κ)
GoMap K V = List (K × V)

pub beq_refl {ℓ} : {K : Type ℓ} ⦃e : Eq K⦄ (k : K) → e.beq k k ≡ true
beq_refl ⦃e⦄ k = (e.beq_iff k k).1 refl

module _ {ℓ κ} {K : Type ℓ} {V : Type κ} ⦃e : Eq K⦄ where
  unfoldable pub lookup : K → GoMap K V → Option V
  lookup k [] = none
  lookup k ((j, v) ∷ m) = if e.beq j k then some v else lookup k m

  unfoldable pub put : K → V → GoMap K V → GoMap K V
  put k v [] = (k, v) ∷ []
  put k v ((j, w) ∷ m) = if e.beq j k then (k, v) ∷ m else (j, w) ∷ put k v m

  unfoldable pub remove : K → GoMap K V → GoMap K V
  remove k [] = []
  remove k ((j, w) ∷ m) = if e.beq j k then remove k m else (j, w) ∷ remove k m

  pub lookup-put :
      (k j : K) (v : V) (m : GoMap K V)
      → lookup j (put k v m) ≡ (if e.beq k j then some v else lookup j m)
  unfolding lookup put
  lookup-put k j v [] = refl
  lookup-put k j v ((i, w) ∷ m) =
      ground (arith, e.beq_iff k j, e.beq_iff i k, e.beq_iff i j, lookup-put k j v m)

  pub lookup-put_self : (k : K) (v : V) (m : GoMap K V) → lookup k (put k v m) ≡ some v
  lookup-put_self k v m = rw (lookup-put, beq_refl k)

  pub lookup-put_ne : (k j : K) (v : V) (m : GoMap K V) → k ≢ j → lookup j (put k v m) ≡ lookup j m
  lookup-put_ne k j v m h = ground (arith, lookup-put k j v m, e.beq_iff k j)

  pub lookup-remove :
      (k j : K) (m : GoMap K V) → lookup j (remove k m) ≡ (if e.beq k j then none else lookup j m)
  unfolding lookup remove
  lookup-remove k j [] = ground arith
  lookup-remove k j ((i, w) ∷ m) =
      ground (arith, e.beq_iff k j, e.beq_iff i k, e.beq_iff i j, lookup-remove k j m)

  pub lookup-remove_self : (k : K) (m : GoMap K V) → lookup k (remove k m) ≡ none
  lookup-remove_self k m = rw (lookup-remove, beq_refl k)

  pub lookup-remove_ne : (k j : K) (m : GoMap K V) → k ≢ j → lookup j (remove k m) ≡ lookup j m
  lookup-remove_ne k j m h = ground (arith, lookup-remove k j m, e.beq_iff k j)

-- ===== src/Base/Search.antt =====
-- The kernel's table scans, `for (i = lo; i < lo + n; ++i) if (test(i)) { ...; break; }`, and
-- arrays as functions of their index.
use Prim.Native.Nat.{ℕ, zero, suc, ◌+◌, ◌≤◌, ◌<◌}
use mathlib.Core.Path.{◌≡◌, refl}
use mathlib.Core.Logic.{inl, inr, ◌≢◌}
use mathlib.Core.Bool.{Bool, true, false}
use mathlib.Core.Option.{Option, none, some}
use native.Mathlib.Omega.{arith}
use advanced_os.Base.Tests.{if◌then◌else◌, ◌==◌, Bool-cases}

-- An array is a function of its index, and a write changes one index.
abbrev pub update {ℓ} : {A : Type ℓ} → (ℕ → A) → ℕ → A → ℕ → A
update f j v i = if i == j then v else f i

-- The first index of `lo, lo + 1, ..., lo + n - 1` that passes the test.
unfoldable pub first_index : (ℕ → Bool) → ℕ → ℕ → Option ℕ
first_index p zero lo = none
first_index p (suc n) lo = let rest = first_index p n (lo + 1) in if p lo then some lo else rest

-- What a scan that stops at `j` has seen.
pub record IsFirst (p : ℕ → Bool) (n lo j : ℕ) : Type 0 where
  pub above : lo ≤ j
  pub below : j < lo + n
  pub passes : p j ≡ true
  pub earlier : (m : ℕ) → lo ≤ m → m < j → p m ≡ false

module _ (p : ℕ → Bool) where
  pub first_index-some : (n lo : ℕ) {j : ℕ} → first_index p n lo ≡ some j → IsFirst p n lo j
  unfolding first_index
  first_index-some zero lo e = absurd (cc)
  first_index-some (suc n) lo {j} e = elim (Bool-cases (p lo)) [
    | inl hit ↦ ground arith
    | inr miss ↦
        let r : IsFirst p n (lo + 1) j = first_index-some n (lo + 1) (ground arith) in
        record {
          above = omega arith;
          below = omega arith;
          passes = r.passes;
          earlier = λ m a b. ground (arith, r.earlier m);
        }
  ]

  pub first_index-none :
      (n lo : ℕ) → first_index p n lo ≡ none → (m : ℕ) → lo ≤ m → m < lo + n → p m ≡ false
  unfolding first_index
  first_index-none zero lo e m a b = absurd (omega arith)
  first_index-none (suc n) lo e m a b = elim (Bool-cases (p lo)) [
    | inl hit ↦ ground arith
    | inr miss ↦
        ground
          (arith, λ (h : lo + 1 ≤ m). first_index-none n (lo + 1) (ground arith) m h (omega arith))
  ]

  -- A test that passes at `j` and at nothing before it is found at `j`.
  pub first_index-found : (n lo j : ℕ) → IsFirst p n lo j → first_index p n lo ≡ some j
  unfolding first_index
  first_index-found zero lo j r = absurd (omega (arith, r.above, r.below))
  first_index-found (suc n) lo j r = elim (Bool-cases (p lo)) [
    | inl hit ↦ ground (arith, r.earlier lo)
    | inr miss ↦
        let later : lo + 1 ≤ j = ground arith in
        rw miss (
          first_index-found n (lo + 1) j (record {
            above = later;
            below = omega (arith, r.below);
            passes = r.passes;
            earlier = λ m a b. r.earlier m (omega arith) b;
          }))
  ]

  -- A scan over no passing index finds nothing.
  pub first_index-absent :
      (n lo : ℕ) → ((m : ℕ) → lo ≤ m → m < lo + n → p m ≡ false) → first_index p n lo ≡ none
  unfolding first_index
  first_index-absent zero lo h = refl
  first_index-absent (suc n) lo h =
      rw (h lo (omega arith) (omega arith))
        (first_index-absent n (lo + 1) (λ m a b. h m (omega arith) (omega arith)))

module _ {ℓ} {A : Type ℓ} (f : ℕ → A) (v : A) where
  pub update_self : (i : ℕ) → update f i v i ≡ v
  update_self i = ground arith

  pub update_ne : {i j : ℕ} → i ≢ j → update f i v j ≡ f j
  update_ne h = ground arith

-- ===== src/Dnsanitize/Slots.antt =====
-- Go's `map[int]V` as an association list, with the laws of its operations.
pub mod Sums
pub mod Replace
use dnsanity.Common.{
  ℕ, zero, suc, ◌+◌, ◌<◌, ◌≤◌, ◌≡◌, refl, ap, Bool, true, false, ◌≢◌, List, [], ◌∷◌, Option, none,
  some, arith, ==_iff, ==_refl, length, ◌==◌, if◌then◌else◌, All,
}

module _ {ℓ} {V : Type ℓ} where
  -- `m[key]`
  unfoldable pub find : ℕ → List (ℕ × V) → Option V
  find key [] = none
  find key ((k, v) ∷ m) = if k == key then some v else find key m

  -- `m[key] = v`
  unfoldable pub put : ℕ → V → List (ℕ × V) → List (ℕ × V)
  put key v [] = (key, v) ∷ []
  put key v ((k, w) ∷ m) = if k == key then (k, v) ∷ m else (k, w) ∷ put key v m

  -- `delete(m, key)`
  unfoldable pub delete : ℕ → List (ℕ × V) → List (ℕ × V)
  delete key [] = []
  delete key ((k, v) ∷ m) = if k == key then delete key m else (k, v) ∷ delete key m

  pub find-put :
      (key key' : ℕ) (v : V) (m : List (ℕ × V))
      → find key' (put key v m) ≡ (if key == key' then some v else find key' m)
  unfolding find put
  find-put key key' v [] = refl
  find-put key key' v ((k, w) ∷ m) = ground (arith, find-put key key' v m)

  pub find-delete :
      (key key' : ℕ) (m : List (ℕ × V))
      → find key' (delete key m) ≡ (if key == key' then none else find key' m)
  unfolding find delete
  find-delete key key' [] = ground arith
  find-delete key key' ((k, w) ∷ m) = ground (arith, find-delete key key' m)

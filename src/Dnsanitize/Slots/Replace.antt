-- ===== src/Dnsanitize/Slots/Replace.antt =====
-- What replacing or deleting a value does to the length and the look-ups of a map.
use dnsanity.Common.{ℕ, suc, ◌≡◌, ◌≢◌, true, false, List, none, some, arith, length, ◌==◌, ==_iff}
use dnsanity.Dnsanitize.Slots.{find, put, delete, find-put, find-delete}
use dnsanity.Dnsanitize.Slots.Sums.{Unique, total-put_old, total-delete, total-one}

module _ {V : Type 0} where
  pub length-put :
      (key : ℕ) (v old : V) (m : List (ℕ × V))
      → find key m ≡ some old
      → length (put key v m) ≡ length m
  length-put key v old m e =
      omega (arith, total-put_old (λ _. 1) key v old m e, total-one (put key v m), total-one m)

  pub length-delete :
      (key : ℕ) (old : V) (m : List (ℕ × V))
      → Unique m
      → find key m ≡ some old
      → suc (length (delete key m)) ≡ length m
  length-delete key old m u e =
      omega (arith, total-delete (λ _. 1) key old m u e, total-one (delete key m), total-one m)

  pub put-fresh :
      (key k : ℕ) (old v : V) (m : List (ℕ × V))
      → find key m ≡ some old
      → find k m ≡ none
      → find k (put key v m) ≡ none
  put-fresh key k old v m e missing = ground (arith, find-put key k v m, ==_iff key k)

  pub put-own :
      (key k : ℕ) (v x : V) (m : List (ℕ × V))
      → (key == k) ≡ true
      → find k (put key v m) ≡ some x
      → v ≡ x
  put-own key k v x m same e = ground (arith, find-put key k v m)

  pub put-other :
      (key k : ℕ) (v x : V) (m : List (ℕ × V))
      → (key == k) ≡ false
      → find k (put key v m) ≡ some x
      → find k m ≡ some x
  put-other key k v x m differs e = ground (arith, find-put key k v m)

  pub delete-none : (key k : ℕ) (m : List (ℕ × V)) → find k m ≡ none → find k (delete key m) ≡ none
  delete-none key k m e = ground (arith, find-delete key k m)

  pub delete-some :
      (key k : ℕ) (x : V) (m : List (ℕ × V))
      → find k (delete key m) ≡ some x
      → (key ≢ k) × (find k m ≡ some x)
  delete-some key k x m e = ground (arith, find-delete key k m, ==_iff key k)

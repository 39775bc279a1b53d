-- ===== src/Dnsanitize/Slots/Sums.antt =====
-- Sums over the values of a map, and the uniqueness of its keys, under the operations of a map.
use dnsanity.Common.{
  ℕ, ◌+◌, ◌≡◌, refl, sym, ap, ◌∙◌, true, false, List, [], ◌∷◌, none, some, arith, inl, inr, length,
  ◌==◌, ==_iff, Bool-cases, some-injective,
}
use dnsanity.Dnsanitize.Slots.{find, put, delete, find-put, find-delete}

module _ {V : Type 0} where
  -- Each key stands once.
  abbrev pub Unique : List (ℕ × V) → Type 0
  Unique [] = Unit
  Unique ((k, v) ∷ m) = (find k m ≡ none) × Unique m

  find_here :
      (key k : ℕ) (w : V) (m : List (ℕ × V)) → (k == key) ≡ true → find key ((k, w) ∷ m) ≡ some w
  unfolding find
  find_here key k w m e = rw e

  find_further :
      (key k : ℕ) (w : V) (m : List (ℕ × V))
      → (k == key) ≡ false
      → find key ((k, w) ∷ m) ≡ find key m
  unfolding find
  find_further key k w m e = rw e

  put_here :
      (key k : ℕ) (v w : V) (m : List (ℕ × V))
      → (k == key) ≡ true
      → put key v ((k, w) ∷ m) ≡ (k, v) ∷ m
  unfolding put
  put_here key k v w m e = rw e

  put_further :
      (key k : ℕ) (v w : V) (m : List (ℕ × V))
      → (k == key) ≡ false
      → put key v ((k, w) ∷ m) ≡ (k, w) ∷ put key v m
  unfolding put
  put_further key k v w m e = rw e

  delete_here :
      (key k : ℕ) (w : V) (m : List (ℕ × V))
      → (k == key) ≡ true
      → delete key ((k, w) ∷ m) ≡ delete key m
  unfolding delete
  delete_here key k w m e = rw e

  delete_further :
      (key k : ℕ) (w : V) (m : List (ℕ × V))
      → (k == key) ≡ false
      → delete key ((k, w) ∷ m) ≡ (k, w) ∷ delete key m
  unfolding delete
  delete_further key k w m e = rw e

  pub Unique-put : (key : ℕ) (v : V) (m : List (ℕ × V)) → Unique m → Unique (put key v m)
  Unique-put key v [] h = unfold put find in (refl, tt)
  Unique-put key v ((k, w) ∷ m) (hk, hm) = elim (Bool-cases (k == key)) [
    | inl e ↦ rw (put_here key k v w m e) (hk, hm)
    | inr e ↦ rw (put_further key k v w m e) (still e, Unique-put key v m hm)
  ]
    where
      still : (k == key) ≡ false → find k (put key v m) ≡ none
      still e = ground (arith, find-put key k v m)

  pub Unique-delete : (key : ℕ) (m : List (ℕ × V)) → Unique m → Unique (delete key m)
  Unique-delete key [] h = unfold delete in tt
  Unique-delete key ((k, w) ∷ m) (hk, hm) = elim (Bool-cases (k == key)) [
    | inl e ↦ rw (delete_here key k w m e) (Unique-delete key m hm)
    | inr e ↦ rw (delete_further key k w m e) (still e, Unique-delete key m hm)
  ]
    where
      still : (k == key) ≡ false → find k (delete key m) ≡ none
      still e = ground (arith, find-delete key k m)

  delete_missing : (key : ℕ) (m : List (ℕ × V)) → find key m ≡ none → delete key m ≡ m
  unfolding find delete
  delete_missing key [] h = refl
  delete_missing key ((k, w) ∷ m) h = ground (arith, delete_missing key m)

module _ {V : Type 0} (w : V → ℕ) where
  pub total : List (ℕ × V) → ℕ
  total [] = 0
  total ((k, v) ∷ m) = w v + total m

  pub total-empty : (m : List (ℕ × V)) → length m ≡ 0 → total m ≡ 0
  unfolding total
  total-empty [] e = refl
  total-empty (x ∷ m) e = absurd (omega arith)

  pub total-put_new :
      (key : ℕ) (v : V) (m : List (ℕ × V)) → find key m ≡ none → total (put key v m) ≡ total m + w v
  unfolding find put total
  total-put_new key v [] h = omega arith
  total-put_new key v ((k, x) ∷ m) h = ground (arith, total-put_new key v m)

  pub total-put_old :
      (key : ℕ) (v old : V) (m : List (ℕ × V))
      → find key m ≡ some old
      → total (put key v m) + w old ≡ total m + w v
  unfolding find put total
  total-put_old key v old [] h = cc
  total-put_old key v old ((k, x) ∷ m) h = ground (arith, total-put_old key v old m)

  pub total-delete :
      (key : ℕ) (old : V) (m : List (ℕ × V))
      → Unique m
      → find key m ≡ some old
      → total (delete key m) + w old ≡ total m
  unfolding total
  total-delete key old [] u h = absurd (unfold find in cc)
  total-delete key old ((k, x) ∷ m) (hk, hm) h = elim (Bool-cases (k == key)) [
    | inl e ↦
        let same : k ≡ key = (==_iff k key).0 e in
        let missing : find key m ≡ none = rw same at hk in
        let value : x ≡ old = some-injective (sym (find_here key k x m e) ∙ h) in
        rw (delete_here key k x m e)
          (omega (arith, ap total (delete_missing key m missing), ap w value))
    | inr e ↦
        rw (delete_further key k x m e)
          (omega (arith, total-delete key old m hm (sym (find_further key k x m e) ∙ h)))
  ]

module _ {V : Type 0} where
  pub total-one : (m : List (ℕ × V)) → total (λ _. 1) m ≡ length m
  unfolding total
  total-one [] = refl
  total-one ((k, v) ∷ m) = omega (arith, total-one m)

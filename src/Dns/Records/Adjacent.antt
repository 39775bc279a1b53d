-- ===== src/Dns/Records/Adjacent.antt =====
-- internal/dns/template.go, phase 3 of `matchRecords`: the values that are adjacent to the globs.
use dnsanity.Common.{
  ◌≢◌, if◌then◌else◌, ℕ, zero, suc, ◌+◌, ◌<◌, ◌≡◌, refl, sym, ap, ◌∙◌, subst, Bool, true, false,
  List, [], ◌∷◌, Option, none, some, some-injective, arith, inl, inr, length, get_elem?, Bool-cases,
  Option-cases, List-cases, All,
}
use dnsanity.Text.{Bytes}
use dnsanity.Dns.Glob.{glob_match}
use dnsanity.Dns.Records.{neighbours, adjacent, adjacency}
use dnsanity.Dns.Records.Total.{adjacency-empty, adjacency-none, adjacency-some}

-- What holds of each value that is adjacent to a pattern
adjacent-All :
    (P : ℕ → Type 0) (pattern : Bytes) (j : ℕ) (values : List Bytes)
    → ((i : ℕ) (value : Bytes)
        → get_elem? values i ≡ some value
        → glob_match pattern value ≡ true
        → P (j + i))
    → All P (adjacent pattern j values)
unfolding adjacent
adjacent-All P pattern j [] h = tt
adjacent-All P pattern j (value ∷ values) h =
    let rest : All P (adjacent pattern (suc j) values) =
      adjacent-All P pattern (suc j) values (λ i x e m. subst P (next i) (h (suc i) x e m)) in
    elim (Bool-cases (glob_match pattern value)) [
      | inl e ↦ rw e (subst P here (h 0 value refl e), rest)
      | inr e ↦ rw e rest
    ]
  where
    next : (i : ℕ) → j + suc i ≡ suc j + i
    next i = omega arith

    here : j + 0 ≡ j
    here = omega arith

-- The glob `q` matches the value `v`.
abbrev pub Fits : List Bytes → List Bytes → ℕ → ℕ → Type 0
Fits globs values q v =
    (glob value : Bytes) × (get_elem? globs q ≡ some glob)
    × (get_elem? values v ≡ some value)
    × (glob_match glob value ≡ true)

in_range :
    (values : List Bytes) (i : ℕ) {value : Bytes}
    → get_elem? values i ≡ some value
    → i < length values
in_range [] i e = absurd (cc)
in_range (x ∷ values) zero e = omega arith
in_range (x ∷ values) (suc i) e = omega (arith, in_range values i e)

pub adjacency-Fits :
    (globs values : List Bytes) {adj : List (List ℕ)}
    → adjacency globs values ≡ some adj
    → (q : ℕ) → All (λ v. (v < length values) × Fits globs values q v) (neighbours adj q)
adjacency-Fits [] values e q =
    subst (λ a. All (λ v. (v < length values) × Fits [] values q v) (neighbours a q))
      (some-injective (nil ∙ e)) tt
  where
    nil : some [] ≡ adjacency [] values
    nil = unfold adjacency in refl
adjacency-Fits (pattern ∷ globs) values {adj} e q = elim (List-cases (adjacent pattern 0 values)) [
  | inl r ↦ absurd (cc (adjacency-empty pattern globs values r))
  | inr (j, js, r) ↦ elim (Option-cases (adjacency globs values)) [
    | inl s ↦ absurd (cc (adjacency-none pattern globs values j js r s))
    | inr (rest, s) ↦
        subst
          (λ a. All (λ v. (v < length values) × Fits (pattern ∷ globs) values q v) (neighbours a q))
          (some-injective (sym (adjacency-some pattern globs values j js rest r s) ∙ e))
          (row j js rest r (adjacency-Fits globs values s) q)
  ]
]
  where
    row :
        (j : ℕ) (js : List ℕ) (rest : List (List ℕ))
        → adjacent pattern 0 values ≡ j ∷ js
        → ((q : ℕ) → All (λ v. (v < length values) × Fits globs values q v) (neighbours rest q))
        → (q : ℕ)
        → All
            (λ v. (v < length values) × Fits (pattern ∷ globs) values q v)
            (neighbours ((j ∷ js) ∷ rest) q)
    row j js rest r later zero =
        subst (All (λ v. (v < length values) × Fits (pattern ∷ globs) values 0 v)) r (
          adjacent-All (λ v. (v < length values) × Fits (pattern ∷ globs) values 0 v) pattern 0
            values
            (λ i value found m. (
              omega (arith, in_range values i found),
              (pattern, value, refl, found_at i value found, m),
            )))
      where
        found_at :
            (i : ℕ) (value : Bytes)
            → get_elem? values i ≡ some value
            → get_elem? values (0 + i) ≡ some value
        found_at i value found = ap (get_elem? values) same ∙ found
          where
            same : 0 + i ≡ i
            same = omega arith
    row j js rest r later (suc q) = later q

-- A value that a pattern matches is adjacent to it.
adjacent-member :
    (P : ℕ → Type 0) (pattern : Bytes) (j : ℕ) (values : List Bytes) (i : ℕ) {value : Bytes}
    → get_elem? values i ≡ some value
    → glob_match pattern value ≡ true
    → All P (adjacent pattern j values)
    → P (j + i)
unfolding adjacent
adjacent-member P pattern j [] i e m h = absurd (cc)
adjacent-member P pattern j (x ∷ values) zero e m h = subst P here ((rw head at h).0)
  where
    here : j ≡ j + 0
    here = omega arith

    head : glob_match pattern x ≡ true
    head = ap (glob_match pattern) (some-injective e) ∙ m
adjacent-member P pattern j (x ∷ values) (suc i) e m h =
    subst P next (adjacent-member P pattern (suc j) values i e m (rest (glob_match pattern x) h))
  where
    next : suc j + i ≡ j + suc i
    next = omega arith

    rest :
        (b : Bool)
        → All P (if b then j ∷ adjacent pattern (suc j) values else adjacent pattern (suc j) values)
        → All P (adjacent pattern (suc j) values)
    rest true h = h.1
    rest false h = h

pub adjacency-member :
    (globs values : List Bytes) {adj : List (List ℕ)}
    → adjacency globs values ≡ some adj
    → (q v : ℕ) (P : ℕ → Type 0) → Fits globs values q v
    → All P (neighbours adj q)
    → P v
adjacency-member [] values e q v P (glob, value, found, there, m) all = absurd (no_glob found)
  where
    no_glob : {glob : Bytes} → none ≡ some glob → ⊥
    no_glob found = cc
adjacency-member (pattern ∷ globs) values {adj} e q v P fits all =
    elim (List-cases (adjacent pattern 0 values)) [
      | inl r ↦ absurd (cc (adjacency-empty pattern globs values r))
      | inr (j, js, r) ↦ elim (Option-cases (adjacency globs values)) [
        | inl s ↦ absurd (cc (adjacency-none pattern globs values j js r s))
        | inr (rest, s) ↦ row j js rest r (adjacency-member globs values s) q fits (
            subst (λ a. All P (neighbours a q))
              (sym (some-injective (sym (adjacency-some pattern globs values j js rest r s) ∙ e)))
              all)
      ]
    ]
  where
    row :
        (j : ℕ) (js : List ℕ) (rest : List (List ℕ))
        → adjacent pattern 0 values ≡ j ∷ js
        → ((q v : ℕ) (P : ℕ → Type 0) → Fits globs values q v → All P (neighbours rest q) → P v)
        → (q : ℕ) → Fits (pattern ∷ globs) values q v
        → All P (neighbours ((j ∷ js) ∷ rest) q)
        → P v
    row j js rest r later zero (glob, value, found, there, m) all = subst P same (
        adjacent-member P pattern 0 values v there
          (ap (λ g. glob_match g value) (some-injective found) ∙ m) (subst (All P) (sym r) all))
      where
        same : 0 + v ≡ v
        same = omega arith
    row j js rest r later (suc q) fits all = later q v P fits all

-- Where each glob matches a value, each has a neighbour.
pub adjacency-found :
    (globs values : List Bytes)
    → ((i : ℕ) → i < length globs → (v : ℕ) × Fits globs values i v)
    → adjacency globs values ≢ none
adjacency-found [] values each e = absurd (some_nil (sym nil ∙ e))
  where
    nil : adjacency [] values ≡ some []
    nil = unfold adjacency in refl

    some_nil : ◌≡◌ {A = Option (List (List ℕ))} (some []) none → ⊥
    some_nil e = cc
adjacency-found (pattern ∷ globs) values each e = elim (List-cases (adjacent pattern 0 values)) [
  | inl r ↦
      let (v, (glob, value, found, there, m)) = each 0 (omega arith) in
      adjacent-member (λ u. ⊥) pattern 0 values v there
        (ap (λ g. glob_match g value) (some-injective found) ∙ m) (subst (All (λ u. ⊥)) (sym r) tt)
  | inr (j, js, r) ↦ elim (Option-cases (adjacency globs values)) [
    | inl s ↦ adjacency-found globs values (λ i lt. each (suc i) (omega arith)) s
    | inr (rest, s) ↦ some_row (sym (adjacency-some pattern globs values j js rest r s) ∙ e)
  ]
]
  where
    some_row :
        {row : List ℕ} {rest : List (List ℕ)}
        → ◌≡◌ {A = Option (List (List ℕ))} (some (row ∷ rest)) none
        → ⊥
    some_row e = cc

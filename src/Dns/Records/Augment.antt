-- ===== src/Dns/Records/Augment.antt =====
-- internal/dns/template.go, `tryAugment`: what a call does to the assignment.
pub mod Steps
pub mod Calls
use dnsanity.Common.{
  ◌≢◌, ◌⊎◌, ℕ, zero, suc, ◌<◌, ◌≡◌, refl, sym, ap, ◌∙◌, subst, Bool, true, false, false≢true, List,
  [], ◌∷◌, Option, none, some, some-injective, arith, inl, inr, length, set, length-set, ◌==◌,
  ==_iff, if◌then◌else◌, Bool-cases, Option-cases, All,
}
use dnsanity.Dns.Records.{
  Search, Augment, is_visited, assigned_to, neighbours, visit, assign, try_values, try_augment,
}
use dnsanity.Dns.Records.Total.{
  values-stuck, values-visited, values-free, values-moved, values-next, augment-step,
}

assigned_to-set :
    (os : List (Option ℕ)) (v w : ℕ) (x : Option ℕ)
    → v < length os
    → assigned_to (set os v x) w ≡ (if v == w then x else assigned_to os w)
assigned_to-set [] v w x lt = absurd (omega arith)
assigned_to-set (o ∷ os) zero zero x lt = refl
assigned_to-set (o ∷ os) zero (suc w) x lt = ground arith
assigned_to-set (o ∷ os) (suc v) zero x lt = ground arith
assigned_to-set (o ∷ os) (suc v) (suc w) x lt =
    ground (arith, assigned_to-set os v w x (omega arith))

pub is_visited-set :
    (bs : List Bool) (v w : ℕ)
    → v < length bs
    → is_visited (set bs v true) w ≡ (if v == w then true else is_visited bs w)
is_visited-set [] v w lt = absurd (omega arith)
is_visited-set (b ∷ bs) zero zero lt = refl
is_visited-set (b ∷ bs) zero (suc w) lt = ground arith
is_visited-set (b ∷ bs) (suc v) zero lt = ground arith
is_visited-set (b ∷ bs) (suc v) (suc w) lt = ground (arith, is_visited-set bs v w (omega arith))

-- A pattern that has a value
abbrev pub Covered : List (Option ℕ) → ℕ → Type 0
Covered os q = (v : ℕ) × (assigned_to os v ≡ some q)

-- No pattern has two values.
abbrev pub Single : List (Option ℕ) → Type 0
Single os = (v w q : ℕ) → assigned_to os v ≡ some q → assigned_to os w ≡ some q → v ≡ w

-- The values of a pattern are visited.
abbrev pub Hidden : ℕ → Search → Type 0
Hidden p st = (w : ℕ) → assigned_to st.assigned w ≡ some p → is_visited st.visited w ≡ true

-- Values that are visited
abbrev pub AllVisited : Search → List ℕ → Type 0
AllVisited st = All (λ v. is_visited st.visited v ≡ true)

pub AllVisited-map :
    (st st' : Search)
    → ((v : ℕ) → is_visited st.visited v ≡ true → is_visited st'.visited v ≡ true)
    → (vs : List ℕ) → AllVisited st vs
    → AllVisited st' vs
AllVisited-map st st' more [] h = tt
AllVisited-map st st' more (v ∷ vs) (h, hs) = (more v h, AllVisited-map st st' more vs hs)

-- `Edge q v`: the value `v` may be assigned to the pattern `q`.
module _ (n : ℕ) (Edge : ℕ → ℕ → Type 0) (adj : List (List ℕ)) where
  -- An assignment along the edges
  pub record IsAssignment (os : List (Option ℕ)) : Type 0 where
    pub assigned_length : length os ≡ n
    pub along : (v q : ℕ) → assigned_to os v ≡ some q → Edge q v

  -- What a call for `p` leaves where it has found a value: those visited before keep their patterns, `p`
  -- has a value not visited before, every pattern that had a value has one, no other pattern gets a second
  -- one, and a pattern whose values were visited gets no other.
  pub record Found (p : ℕ) (st st' : Search) : Type 0 where
    pub valid : IsAssignment st'.assigned
    pub untouched :
        (v : ℕ)
        → is_visited st.visited v ≡ true
        → assigned_to st'.assigned v ≡ assigned_to st.assigned v
    pub place : ℕ
    pub place_fresh : is_visited st.visited place ≡ false
    pub own : assigned_to st'.assigned place ≡ some p
    pub kept : (q : ℕ) → Covered st.assigned q → Covered st'.assigned q
    pub own_places :
        (w : ℕ)
        → assigned_to st'.assigned w ≡ some p
        → (place ≡ w) ⊎ (assigned_to st.assigned w ≡ some p)
    pub others_single :
        (v w r : ℕ)
        → r ≢ p
        → assigned_to st'.assigned v ≡ some r
        → assigned_to st'.assigned w ≡ some r
        → v ≡ w
    pub unmoved :
        (r : ℕ)
        → r ≢ p
        → Hidden r st
        → (w : ℕ) → assigned_to st'.assigned w ≡ some r
        → assigned_to st.assigned w ≡ some r

  -- A value visited since, whose pattern has only visited neighbours
  abbrev pub Closed : Search → Search → ℕ → Type 0
  Closed st st' w =
      (q : ℕ) × (assigned_to st.assigned w ≡ some q) × AllVisited st' (neighbours adj q)

  -- What it leaves where it has found none among `vs`
  pub record Missed (vs : List ℕ) (st st' : Search) : Type 0 where
    pub same : st'.assigned ≡ st.assigned
    pub visited_length : length st'.visited ≡ length st.visited
    pub more : (v : ℕ) → is_visited st.visited v ≡ true → is_visited st'.visited v ≡ true
    pub reached : AllVisited st' vs
    pub closed :
        (w : ℕ)
        → is_visited st'.visited w ≡ true
        → (is_visited st.visited w ≡ true) ⊎ Closed st st' w

  abbrev pub ResultOf : List ℕ → ℕ → Search → Search → Bool → Type 0
  ResultOf vs p st st' true = Found p st st'
  ResultOf vs p st st' false = Missed vs st st'

  abbrev pub Outcome : List ℕ → ℕ → Search → Option (Search × Bool) → Type 0
  Outcome vs p st none = Unit
  Outcome vs p st (some (st', b)) = ResultOf vs p st st' b

  module _ (v : ℕ) (x : Option ℕ) (os : List (Option ℕ)) (lt : v < length os) where
    pub set-own : assigned_to (set os v x) v ≡ x
    set-own = ground (arith, assigned_to-set os v v x lt, ==_iff v v)

    pub set-other : (w : ℕ) → (v == w) ≡ false → assigned_to (set os v x) w ≡ assigned_to os w
    set-other w e = ground (arith, assigned_to-set os v w x lt)

  -- A pattern other than the one that is written stands elsewhere.
  pub set-elsewhere :
      (v p : ℕ) (os : List (Option ℕ)) (lt : v < length os) (w r : ℕ)
      → r ≢ p
      → assigned_to (set os v (some p)) w ≡ some r
      → (v ≢ w) × (assigned_to os w ≡ some r)
  set-elsewhere v p os lt w r ne e = elim (Bool-cases (v == w)) [
    | inl same ↦ absurd (
        ne (
          sym (
            some-injective (
              sym (set-own v (some p) os lt)
              ∙ ap (assigned_to (set os v (some p))) ((==_iff v w).0 same)
              ∙ e))))
    | inr other ↦ (
      λ same. false≢true (sym other ∙ (==_iff v w).1 same),
      sym (set-other v (some p) os lt w other) ∙ e,
    )
  ]

  pub set-IsAssignment :
      (v p : ℕ) (os : List (Option ℕ))
      → v < n
      → Edge p v
      → IsAssignment os
      → IsAssignment (set os v (some p))
  set-IsAssignment v p os lt edge h =
      let in_os : v < length os = omega (arith, h.assigned_length) in
      record {
        assigned_length = length-set os v (some p) ∙ h.assigned_length;
        along = λ w q e. elim (Bool-cases (v == w)) [
          | inl same ↦
              let w_eq : v ≡ w = (==_iff v w).0 same in
              let q_eq : p ≡ q = some-injective (
                sym (set-own v (some p) os in_os)
                ∙ ap (assigned_to (set os v (some p))) w_eq
                ∙ e) in
              subst (λ k. Edge k w) q_eq (subst (Edge p) w_eq edge)
          | inr other ↦ h.along w q (sym (set-other v (some p) os in_os w other) ∙ e)
        ];
      }

-- ===== src/Dns/Records/Refused.antt =====
-- internal/dns/template.go, phases 2 and 3 of `matchRecords`: no refusal where the values can be given to the
-- globs.
use dnsanity.Common.{
  ℕ, zero, suc, ◌+◌, ◌<◌, ◌≤◌, ◌≡◌, ◌≢◌, ◌↔◌, refl, sym, ap, ◌∙◌, Bool, true, false, false≢true,
  List, [], ◌∷◌, Option, none, some, some-injective, arith, inl, inr, length, set, ◌==◌, ==_iff,
  if◌then◌else◌, Bool-cases, Option-cases, All,
}
use dnsanity.Text.{Bytes}
use dnsanity.Dns.Records.{
  Search, is_visited, assigned_to, neighbours, adjacency, unassigned, assign_globs, match_globs,
}
use dnsanity.Dns.Records.Total.{match_globs-Answered, globs-stuck, globs-more}
use dnsanity.Dns.Records.Augment.{Single, AllVisited, Missed, Outcome}
use dnsanity.Dns.Records.Assigned.{
  Assigned, unassigned-Assigned, fresh, round, round-Outcome, round-Assigned, none_visited,
  IsMatching, match_globs-IsMatching,
}
use dnsanity.Dns.Records.Adjacent.{Fits, adjacency-Fits, adjacency-member, adjacency-found}

-- The values that are visited
pub marks : List Bool → ℕ
marks [] = 0
marks (b ∷ bs) = (if b then 1 else 0) + marks bs

unmark :
    (bs : List Bool) (v w : ℕ)
    → is_visited (set bs v false) w ≡ (if v == w then false else is_visited bs w)
unmark [] v w = ground arith
unmark (b ∷ bs) zero zero = refl
unmark (b ∷ bs) zero (suc w) = ground arith
unmark (b ∷ bs) (suc v) zero = ground arith
unmark (b ∷ bs) (suc v) (suc w) = ground (arith, unmark bs v w)

marks-unmark :
    (bs : List Bool) (v : ℕ) → is_visited bs v ≡ true → suc (marks (set bs v false)) ≡ marks bs
unfolding marks
marks-unmark [] v e = absurd (false≢true e)
marks-unmark (b ∷ bs) zero e = rw e (omega arith)
marks-unmark (b ∷ bs) (suc v) e = omega (arith, marks-unmark bs v e)

-- A pattern cannot be refused where the patterns have places of their own: from its place, which is visited,
-- the pattern that holds it leads to another visited place, and so on without end.
module _ (count : ℕ) (place : ℕ → ℕ) (os : List (Option ℕ)) (single : Single os)
    (distinct : (i j : ℕ) → i < count → j < count → place i ≡ place j → i ≡ j) where
  -- The marked values whose patterns have marked places
  pub record Blocked (p : ℕ) (bs : List Bool) : Type 0 where
    pub small : p < count
    pub start : is_visited bs (place p) ≡ true
    pub follow :
        (w : ℕ)
        → is_visited bs w ≡ true
        → (q : ℕ) × (assigned_to os w ≡ some q) × (q < count) × (is_visited bs (place q) ≡ true)
    pub lone : (w : ℕ) → is_visited bs w ≡ true → assigned_to os w ≢ some p

  unmarked :
      (bs : List Bool) (v w : ℕ)
      → v ≢ w
      → is_visited bs w ≡ true
      → is_visited (set bs v false) w ≡ true
  unmarked bs v w ne e = ground (arith, unmark bs v w, ==_iff v w)

  was_marked :
      (bs : List Bool) (v w : ℕ)
      → is_visited (set bs v false) w ≡ true
      → (v ≢ w) × (is_visited bs w ≡ true)
  was_marked bs v w e = elim (Bool-cases (v == w)) [
    | inl same ↦
        absurd (
          false≢true
            (sym (unmark bs v w ∙ ap (λ b. if b then false else is_visited bs w) same) ∙ e))
    | inr other ↦ (
      λ same. false≢true (sym other ∙ (==_iff v w).1 same),
      sym (unmark bs v w ∙ ap (λ b. if b then false else is_visited bs w) other) ∙ e,
    )
  ]

  not-Blocked : (c p : ℕ) (bs : List Bool) → marks bs ≤ c → Blocked p bs → ⊥
  not-Blocked zero p bs le h = omega (arith, marks-unmark bs (place p) h.start)
  not-Blocked (suc c) p bs le h =
      let v = place p in
      let (q, taken, small, there) = h.follow v h.start in
      not-Blocked c q (set bs v false) (omega (arith, marks-unmark bs v h.start)) (record {
        small = small;
        start = unmarked bs v (place q) (apart q small taken) there;
        follow = λ w e.
            let (ne, e') = was_marked bs v w e in
            let (r, given, small', there') = h.follow w e' in
            (
              r,
              given,
              small',
              unmarked bs v (place r)
                  (λ same. h.lone w e' (given ∙ ap some (sym (distinct p r h.small small' same))))
                  there',
            );
        lone = λ w e given. let (ne, e') = was_marked bs v w e in ne (single v w q taken given);
      })
    where
      apart : (q : ℕ) → q < count → assigned_to os (place p) ≡ some q → place p ≢ place q
      apart q small taken same =
          h.lone (place p) h.start (taken ∙ ap some (sym (distinct p q h.small small same)))

module _ (globs values : List Bytes) (adj : List (List ℕ)) (r : adjacency globs values ≡ some adj)
    (place : ℕ → ℕ) (match : IsMatching globs values place) where
  abbrev rows : (p : ℕ) → All (λ v. (v < length values) × Fits globs values p v) (neighbours adj p)
  rows = adjacency-Fits globs values r

  abbrev IsAssigned : ℕ → List (Option ℕ) → Type 0
  IsAssigned = Assigned values (Fits globs values) adj rows

  abbrev start : List (Option ℕ) → Search
  start = fresh values (Fits globs values) adj rows

  -- The place of a pattern whose neighbours are visited
  place-visited :
      (st : Search) (q : ℕ)
      → q < length globs
      → AllVisited st (neighbours adj q)
      → is_visited st.visited (place q) ≡ true
  place-visited st q lt all =
      adjacency-member globs values r q (place q) (λ v. is_visited st.visited v ≡ true)
        (match.matched q lt) all

  -- No round is missed.
  not-Missed :
      (p : ℕ) (os : List (Option ℕ)) (st : Search)
      → p < length globs
      → IsAssigned p os
      → Missed (length values) (Fits globs values) adj (neighbours adj p) (start os) st
      → ⊥
  not-Missed p os st lt h m =
      not-Blocked (length globs) place os h.single match.distinct (marks st.visited) p st.visited
        (omega arith)
        (record {
          small = lt;
          start = place-visited st p lt m.reached;
          follow = λ w vis. elim (m.closed w vis) [
            | inl before ↦ absurd (false≢true (sym (none_visited values w) ∙ before))
            | inr (q, given, all) ↦
                (q, given, below q w given, place-visited st q (below q w given) all)
          ];
          lone = λ w vis given. omega (arith, h.below w p given);
        })
    where
      below : (q w : ℕ) → assigned_to os w ≡ some q → q < length globs
      below q w given = omega (arith, h.below w q given)

  not_refused :
      (rest : List Bytes) (p : ℕ) (os : List (Option ℕ))
      → p + length rest ≡ length globs
      → IsAssigned p os
      → assign_globs values adj p rest os ≢ some false
  not_refused [] p os e h q = absurd (false≢true (sym (some-injective (unfold assign_globs in q))))
  not_refused (glob ∷ rest) p os e h q =
      after (λ st h'. not_refused rest (suc p) st.assigned (omega arith) h')
        (round values (Fits globs values) adj rows p os) refl
        (round-Outcome values (Fits globs values) adj rows p os h)
    where
      stuck : none ≡ some false → ⊥
      stuck e = cc

      after :
          ((st : Search)
            → IsAssigned (suc p) st.assigned
            → assign_globs values adj (suc p) rest st.assigned ≢ some false)
          → (x : Option (Search × Bool)) → round values (Fits globs values) adj rows p os ≡ x
          → Outcome (length values) (Fits globs values) adj (neighbours adj p) p (start os) x
          → ⊥
      after more none s o = stuck (sym (globs-stuck values adj p glob rest os s) ∙ q)
      after more (some (st, true)) s o =
          more st (round-Assigned values (Fits globs values) adj rows p os st h o)
            (sym (globs-more values adj p glob rest os st s) ∙ q)
      after more (some (st, false)) s o = not-Missed p os st (omega arith) h o

match_globs-not_refused :
    (globs values : List Bytes) (place : ℕ → ℕ)
    → IsMatching globs values place
    → match_globs globs values ≢ some false
unfolding match_globs
match_globs-not_refused globs values place match e = elim (Option-cases (adjacency globs values)) [
  | inl r ↦ adjacency-found globs values (λ i lt. (place i, match.matched i lt)) r
  | inr (adj, r) ↦
      not_refused globs values adj r place match globs 0 (unassigned values) (omega arith)
        (unassigned-Assigned values (Fits globs values) adj (adjacency-Fits globs values r))
        (rw (same, r, match_globs) at e)
]
  where
    same : (length values == length globs) ≡ true
    same = (==_iff (length values) (length globs)).1 match.as_many

-- Phases 2 and 3 of `matchRecords` accept exactly where the values can be given to the globs: each glob one
-- value that it matches, no value to two globs, and as many values as globs.
pub match_globs_iff :
    (globs values : List Bytes)
    → (match_globs globs values ≡ some true) ↔ ((place : ℕ → ℕ) × IsMatching globs values place)
match_globs_iff globs values = (match_globs-IsMatching globs values, from)
  where
    from : (place : ℕ → ℕ) × IsMatching globs values place → match_globs globs values ≡ some true
    from (place, match) =
        let (b, answer) = match_globs-Answered globs values in
        elim (Bool-cases b) [
          | inl e ↦ answer ∙ ap some e
          | inr e ↦ absurd (match_globs-not_refused globs values place match (answer ∙ ap some e))
        ]

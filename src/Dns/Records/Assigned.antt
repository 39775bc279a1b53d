-- ===== src/Dns/Records/Assigned.antt =====
-- internal/dns/template.go, phases 2 and 3 of `matchRecords`: the values that the globs are given.
use dnsanity.Common.{
  ◌≢◌, ltb, ltb_iff, if◌then◌else◌, ℕ, zero, suc, ◌+◌, ◌<◌, ◌≡◌, refl, sym, ap, ◌∙◌, subst, Bool,
  true, false, false≢true, List, [], ◌∷◌, Option, none, some, some-injective, arith, inl, inr,
  length, ◌==◌, ==_iff, Bool-cases, Option-cases, All,
}
use dnsanity.Text.{Bytes}
use dnsanity.Dns.Records.{
  Search, is_visited, assigned_to, neighbours, adjacency, try_augment, unvisited, unassigned,
  assign_globs, match_globs,
}
use dnsanity.Dns.Records.Total.{globs-stuck, globs-more, globs-fail, length-unvisited}
use dnsanity.Dns.Records.Augment.{Covered, Single, IsAssignment, Found, Outcome}
use dnsanity.Dns.Records.Augment.Calls.{try_augment-Outcome}
use dnsanity.Dns.Records.Adjacent.{Fits, adjacency-Fits}

pub none_visited : (values : List Bytes) (v : ℕ) → is_visited (unvisited values) v ≡ false
none_visited [] v = refl
none_visited (x ∷ values) zero = refl
none_visited (x ∷ values) (suc v) = none_visited values v

none_assigned : (values : List Bytes) (v : ℕ) → assigned_to (unassigned values) v ≡ none
none_assigned [] v = refl
none_assigned (x ∷ values) zero = refl
none_assigned (x ∷ values) (suc v) = none_assigned values v

length-unassigned : (values : List Bytes) → length (unassigned values) ≡ length values
length-unassigned [] = refl
length-unassigned (x ∷ values) = ap suc (length-unassigned values)

no_value : {q : ℕ} → none ≡ some q → ⊥
no_value e = cc

module _ (values : List Bytes) (Edge : ℕ → ℕ → Type 0) (adj : List (List ℕ))
    (rows : (p : ℕ) → All (λ v. (v < length values) × Edge p v) (neighbours adj p)) where
  -- An assignment along the edges in which exactly the first `p` patterns have values, one each
  pub record Assigned (p : ℕ) (os : List (Option ℕ)) : Type 0 where
    pub valid : IsAssignment (length values) Edge adj os
    pub single : Single os
    pub covered : (q : ℕ) → q < p → Covered os q
    pub below : (w q : ℕ) → assigned_to os w ≡ some q → q < p

  pub unassigned-Assigned : Assigned 0 (unassigned values)
  unassigned-Assigned = record {
    valid = record {
      assigned_length = length-unassigned values;
      along = λ v q found. absurd (no_value (sym (none_assigned values v) ∙ found));
    };
    single = λ v w q found found'. absurd (no_value (sym (none_assigned values v) ∙ found));
    covered = λ q lt. absurd (omega arith);
    below = λ w q found. absurd (no_value (sym (none_assigned values w) ∙ found));
  }

  abbrev pub fresh : List (Option ℕ) → Search
  fresh os = record { visited = unvisited values; assigned = os }

  abbrev pub round : ℕ → List (Option ℕ) → Option (Search × Bool)
  round p os = try_augment (suc (length values)) adj p (fresh os)

  pub round-Outcome :
      (p : ℕ) (os : List (Option ℕ))
      → Assigned p os
      → Outcome (length values) Edge adj (neighbours adj p) p (fresh os) (round p os)
  round-Outcome p os h =
      try_augment-Outcome (length values) Edge adj (suc (length values)) rows p (fresh os) (record {
        valid = h.valid;
        single = h.single;
        hidden = λ w found. absurd (omega (arith, h.below w p found));
        visited_length = length-unvisited values;
      })

  pub round-Assigned :
      (p : ℕ) (os : List (Option ℕ)) (st : Search)
      → Assigned p os
      → Found (length values) Edge adj p (fresh os) st
      → Assigned (suc p) st.assigned
  round-Assigned p os st h f = record {
    valid = f.valid;
    single = λ v w q ev ew. elim (Bool-cases (q == p)) [
      | inl same ↦
          let q_eq = (==_iff q p).0 same in
          sym (own_place v (ev ∙ ap some q_eq)) ∙ own_place w (ew ∙ ap some q_eq)
      | inr other ↦ f.others_single v w q (differs q other) ev ew
    ];
    covered = λ q lt. elim (Bool-cases (q == p)) [
      | inl same ↦ subst (Covered st.assigned) (sym ((==_iff q p).0 same)) (f.place, f.own)
      | inr other ↦ f.kept q (h.covered q (ground (arith, ==_iff q p)))
    ];
    below = λ w q e. elim (Bool-cases (ltb q (suc p))) [
      | inl lt ↦ (ltb_iff q (suc p)).0 lt
      | inr ge ↦
          let high : p < q = ground (arith, ge) in
          absurd (
            omega (
              arith,
              high,
              h.below w q (
                  f.unmoved q (λ same. omega (arith, same, high))
                    (λ u found. absurd (omega (arith, h.below u q found, high))) w e),
            ))
    ];
  }
    where
      differs : (q : ℕ) → (q == p) ≡ false → q ≢ p
      differs q other same = false≢true (sym other ∙ (==_iff q p).1 same)

      own_place : (w : ℕ) → assigned_to st.assigned w ≡ some p → f.place ≡ w
      own_place w e = elim (f.own_places w e) [
        | inl same ↦ same
        | inr e' ↦ absurd (omega (arith, h.below w p e'))
      ]

  pub assign_globs-Assigned :
      (p : ℕ) (globs : List Bytes) (os : List (Option ℕ))
      → Assigned p os
      → assign_globs values adj p globs os ≡ some true
      → (os' : List (Option ℕ)) × Assigned (p + length globs) os'
  assign_globs-Assigned p [] os h e = (os, subst (λ n. Assigned n os) same h)
    where
      same : p ≡ p + 0
      same = omega arith
  assign_globs-Assigned p (glob ∷ globs) os h e =
      after (λ st. assign_globs-Assigned (suc p) globs st.assigned)
        (try_augment (suc (length values)) adj p (fresh os)) refl (round-Outcome p os h)
    where
      same : (n : ℕ) → suc p + n ≡ p + suc n
      same n = omega arith

      refused : some false ≡ some true → ⊥
      refused e = false≢true (some-injective e)

      after :
          ((st : Search)
            → Assigned (suc p) st.assigned
            → assign_globs values adj (suc p) globs st.assigned ≡ some true
            → (os' : List (Option ℕ)) × Assigned (suc p + length globs) os')
          → (r : Option (Search × Bool)) → try_augment (suc (length values)) adj p (fresh os) ≡ r
          → Outcome (length values) Edge adj (neighbours adj p) p (fresh os) r
          → (os' : List (Option ℕ)) × Assigned (p + suc (length globs)) os'
      after more none q o = absurd (stuck (sym (globs-stuck values adj p glob globs os q) ∙ e))
        where
          stuck : none ≡ some true → ⊥
          stuck e = cc
      after more (some (st, true)) q o =
          let (os', all) =
            more st (round-Assigned p os st h o)
              (sym (globs-more values adj p glob globs os st q) ∙ e) in
          (os', subst (λ n. Assigned n os') (same (length globs)) all)
      after more (some (st, false)) q o =
          absurd (refused (sym (globs-fail values adj p glob globs os st q) ∙ e))

-- The first value that is assigned to a pattern
abbrev pub position : List (Option ℕ) → ℕ → ℕ
position [] q = 0
position (none ∷ os) q = suc (position os q)
position (some k ∷ os) q = let rest = position os q in if k == q then 0 else suc rest

position-own :
    (os : List (Option ℕ)) (q v : ℕ)
    → assigned_to os v ≡ some q
    → assigned_to os (position os q) ≡ some q
position-own [] q v e = absurd (no_value e)
position-own (none ∷ os) q zero e = absurd (no_value e)
position-own (none ∷ os) q (suc v) e = position-own os q v e
position-own (some k ∷ os) q zero e = rw ((==_iff k q).1 (some-injective e)) e
position-own (some k ∷ os) q (suc v) e = elim (Bool-cases (k == q)) [
  | inl same ↦ rw same (ap some ((==_iff k q).0 same))
  | inr other ↦ rw other (position-own os q v e)
]

-- The values are given to the globs, each its own: the glob `i` is given the value at `place i`, which it
-- matches, and there are as many values as globs.
pub record IsMatching (globs values : List Bytes) (place : ℕ → ℕ) : Type 0 where
  pub as_many : length values ≡ length globs
  pub matched : (i : ℕ) → i < length globs → Fits globs values i (place i)
  pub distinct : (i j : ℕ) → i < length globs → j < length globs → place i ≡ place j → i ≡ j

pub match_globs-parts :
    (globs values : List Bytes)
    → match_globs globs values ≡ some true
    → (length values ≡ length globs)
      × (adj : List (List ℕ)) × (adjacency globs values ≡ some adj)
      × (assign_globs values adj 0 globs (unassigned values) ≡ some true)
unfolding match_globs
match_globs-parts globs values e = elim (Bool-cases (length values == length globs)) [
  | inr q ↦ absurd (refused (rw (q, match_globs) at e))
  | inl q ↦ elim (Option-cases (adjacency globs values)) [
    | inl r ↦ absurd (refused (rw (q, r, match_globs) at e))
    | inr (adj, r) ↦ ((==_iff _ _).0 q, adj, r, rw (q, r, match_globs) at e)
  ]
]
  where
    refused : some false ≡ some true → ⊥
    refused e = false≢true (some-injective e)

pub match_globs-IsMatching :
    (globs values : List Bytes)
    → match_globs globs values ≡ some true
    → (place : ℕ → ℕ) × IsMatching globs values place
match_globs-IsMatching globs values e =
    let (same, adj, r, all) = match_globs-parts globs values e in
    let rows = adjacency-Fits globs values r in
    let (os, h) =
      assign_globs-Assigned values (Fits globs values) adj rows 0 globs (unassigned values)
        (unassigned-Assigned values (Fits globs values) adj rows) all in
    (
      position os,
      record {
        as_many = same;
        matched = λ i lt.
            let (v, given) = h.covered i (omega arith) in
            h.valid.along (position os i) i (position-own os i v given);
        distinct = λ i j lt lt' same_place.
            let (v, given) = h.covered i (omega arith) in
            let (w, given') = h.covered j (omega arith) in
            some-injective (
              sym (position-own os i v given)
              ∙ ap (assigned_to os) same_place
              ∙ position-own os j w given');
      },
    )

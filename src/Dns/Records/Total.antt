-- ===== src/Dns/Records/Total.antt =====
-- internal/dns/template.go, `matchRecords` and `tryAugment`: the fuel, against the values not yet visited.
use dnsanity.Common.{
  ℕ, zero, suc, ◌+◌, ◌≤◌, ◌<◌, ◌≡◌, refl, sym, ap, ◌∙◌, Bool, true, false, ◌&&◌, List, [], ◌∷◌,
  Option, none, some, some-injective, arith, inl, inr, length, set, length-set, ◌==◌, if◌then◌else◌,
  Bool-cases, Option-cases, List-cases, All, subst,
}
use dnsanity.Text.{Bytes}
use dnsanity.Dns.Glob.{glob_match}
use dnsanity.Dns.Records.{
  Counts, count_values, consume, remaining_values, adjacent, adjacency, Search, Augment, is_visited,
  assigned_to, neighbours, visit, assign, try_values, try_augment, unvisited, unassigned,
  assign_globs, match_globs, match_rest, match_records,
}

-- The values that are not visited
pub open_count : List Bool → ℕ
open_count [] = 0
open_count (b ∷ bs) = (if b then 0 else 1) + open_count bs

open_count-set :
    (bs : List Bool) (v : ℕ)
    → is_visited bs v ≡ false
    → v < length bs
    → suc (open_count (set bs v true)) ≡ open_count bs
unfolding open_count
open_count-set [] v e h = absurd (omega arith)
open_count-set (b ∷ bs) zero e h = ground arith
open_count-set (b ∷ bs) (suc v) e h = omega (arith, open_count-set bs v e (omega arith))

-- An answer that has visited no fewer values than before
pub record Answers (st : Search) (r : Option (Search × Bool)) : Type 0 where
  state : Search
  found : Bool
  answer : r ≡ some (state, found)
  same_length : length state.visited ≡ length st.visited
  fewer : open_count state.visited ≤ open_count st.visited

module _ (again : ℕ → Augment) (p v : ℕ) (vs : List ℕ) (st : Search) where
  pub values-visited :
      is_visited st.visited v ≡ true → try_values again p (v ∷ vs) st ≡ try_values again p vs st
  unfolding try_values
  values-visited e = rw (e, try_values)

  pub values-free :
      is_visited st.visited v ≡ false
      → assigned_to st.assigned v ≡ none
      → try_values again p (v ∷ vs) st ≡ some (assign v p (visit v st), true)
  unfolding try_values
  values-free e a = rw (e, a, try_values)

  pub values-stuck :
      (q : ℕ)
      → is_visited st.visited v ≡ false
      → assigned_to st.assigned v ≡ some q
      → again q (visit v st) ≡ none
      → try_values again p (v ∷ vs) st ≡ none
  unfolding try_values
  values-stuck q e a r = rw (e, a, r, try_values)

  pub values-moved :
      (q : ℕ) (st' : Search)
      → is_visited st.visited v ≡ false
      → assigned_to st.assigned v ≡ some q
      → again q (visit v st) ≡ some (st', true)
      → try_values again p (v ∷ vs) st ≡ some (assign v p st', true)
  unfolding try_values
  values-moved q st' e a r = rw (e, a, r, try_values)

  pub values-next :
      (q : ℕ) (st' : Search)
      → is_visited st.visited v ≡ false
      → assigned_to st.assigned v ≡ some q
      → again q (visit v st) ≡ some (st', false)
      → try_values again p (v ∷ vs) st ≡ try_values again p vs st'
  unfolding try_values
  values-next q st' e a r = rw (e, a, r, try_values)

module _ (n f : ℕ) (again : ℕ → Augment)
    (answers : (q : ℕ) (st : Search)
      → length st.visited ≡ n
      → open_count st.visited < f
      → Answers st (again q st)) where
  try_values-Answers :
      (p : ℕ) (vs : List ℕ) (st : Search)
      → All (λ v. v < n) vs
      → length st.visited ≡ n
      → open_count st.visited ≤ f
      → Answers st (try_values again p vs st)
  try_values-Answers p [] st h len le = record {
    state = st;
    found = false;
    answer = unfold try_values in refl;
    same_length = refl;
    fewer = omega arith;
  }
  try_values-Answers p (v ∷ vs) st (hv, hvs) len le = elim (Bool-cases (is_visited st.visited v)) [
    | inl e ↦ rw (values-visited again p v vs st e) (try_values-Answers p vs st hvs len le)
    | inr e ↦
        let less : suc (open_count (visit v st).visited) ≡ open_count st.visited =
          open_count-set st.visited v e (omega (arith, len)) in
        let kept : length (visit v st).visited ≡ n = length-set st.visited v true ∙ len in
        elim (Option-cases (assigned_to st.assigned v)) [
          | inl a ↦ record {
            state = assign v p (visit v st);
            found = true;
            answer = values-free again p v vs st e a;
            same_length = kept ∙ sym len;
            fewer = omega (arith, less);
          }
          | inr (q, a) ↦
              let r : Answers (visit v st) (again q (visit v st)) =
                answers q (visit v st) kept (omega (arith, less, le)) in
              elim (Bool-cases r.found) [
                | inl b ↦ record {
                  state = assign v p r.state;
                  found = true;
                  answer =
                      values-moved again p v vs st q r.state e a
                        (r.answer ∙ ap (λ x. some (r.state, x)) b);
                  same_length = r.same_length ∙ kept ∙ sym len;
                  fewer = omega (arith, r.fewer, less);
                }
                | inr b ↦
                    let next : Answers r.state (try_values again p vs r.state) =
                      try_values-Answers p vs r.state hvs (r.same_length ∙ kept)
                        (omega (arith, r.fewer, less, le)) in
                    record {
                      state = next.state;
                      found = next.found;
                      answer =
                          values-next again p v vs st q r.state e a
                            (r.answer ∙ ap (λ x. some (r.state, x)) b)
                          ∙ next.answer;
                      same_length = next.same_length ∙ r.same_length ∙ kept ∙ sym len;
                      fewer = omega (arith, next.fewer, r.fewer, less);
                    }
              ]
        ]
  ]

-- Each value that is adjacent to a pattern is one of `n`.
abbrev InRange : ℕ → List (List ℕ) → Type 0
InRange n adj = All (λ row. All (λ v. v < n) row) adj

neighbours-range :
    (n : ℕ) (adj : List (List ℕ)) (p : ℕ) → InRange n adj → All (λ v. v < n) (neighbours adj p)
neighbours-range n [] p h = tt
neighbours-range n (row ∷ adj) zero (hr, h) = hr
neighbours-range n (row ∷ adj) (suc p) (hr, h) = neighbours-range n adj p h

pub augment-step :
    (f : ℕ) (adj : List (List ℕ)) (p : ℕ) (st : Search)
    → try_augment (suc f) adj p st ≡ try_values (try_augment f adj) p (neighbours adj p) st
unfolding try_augment
augment-step f adj p st = refl

try_augment-Answers :
    (f n : ℕ) (adj : List (List ℕ)) (p : ℕ) (st : Search)
    → InRange n adj
    → length st.visited ≡ n
    → open_count st.visited < f
    → Answers st (try_augment f adj p st)
try_augment-Answers zero n adj p st h len lt = absurd (omega arith)
try_augment-Answers (suc f) n adj p st h len lt = rw (augment-step f adj p st) (
    try_values-Answers n f (try_augment f adj)
      (λ q st' len' lt'. try_augment-Answers f n adj q st' h len' lt') p (neighbours adj p) st
      (neighbours-range n adj p h) len (omega arith))

adjacent-range :
    (pattern : Bytes) (j n : ℕ) (values : List Bytes)
    → j + length values ≤ n
    → All (λ v. v < n) (adjacent pattern j values)
unfolding adjacent
adjacent-range pattern j n [] h = tt
adjacent-range pattern j n (value ∷ values) h =
    let rest : All (λ v. v < n) (adjacent pattern (suc j) values) =
      adjacent-range pattern (suc j) n values (omega arith) in
    elim (Bool-cases (glob_match pattern value)) [
      | inl e ↦ rw e (omega arith, rest)
      | inr e ↦ rw e rest
    ]

module _ (pattern : Bytes) (globs values : List Bytes) where
  pub adjacency-empty : adjacent pattern 0 values ≡ [] → adjacency (pattern ∷ globs) values ≡ none
  unfolding adjacency
  adjacency-empty e = rw (e, adjacency)

  pub adjacency-none :
      (j : ℕ) (js : List ℕ)
      → adjacent pattern 0 values ≡ j ∷ js
      → adjacency globs values ≡ none
      → adjacency (pattern ∷ globs) values ≡ none
  unfolding adjacency
  adjacency-none j js e q = rw (e, q, adjacency)

  pub adjacency-some :
      (j : ℕ) (js : List ℕ) (adj : List (List ℕ))
      → adjacent pattern 0 values ≡ j ∷ js
      → adjacency globs values ≡ some adj
      → adjacency (pattern ∷ globs) values ≡ some ((j ∷ js) ∷ adj)
  unfolding adjacency
  adjacency-some j js adj e q = rw (e, q, adjacency)

adjacency-range :
    (globs values : List Bytes) {adj : List (List ℕ)}
    → adjacency globs values ≡ some adj
    → InRange (length values) adj
adjacency-range [] values {adj} e = subst (InRange (length values)) (some-injective (nil ∙ e)) tt
  where
    nil : some [] ≡ adjacency [] values
    nil = unfold adjacency in refl
adjacency-range (pattern ∷ globs) values {adj} e = elim (List-cases (adjacent pattern 0 values)) [
  | inl q ↦ absurd (cc (adjacency-empty pattern globs values q))
  | inr (j, js, q) ↦ elim (Option-cases (adjacency globs values)) [
    | inl r ↦ absurd (cc (adjacency-none pattern globs values j js q r))
    | inr (rest, r) ↦
        subst (InRange (length values))
          (some-injective (sym (adjacency-some pattern globs values j js rest q r) ∙ e))
          (
            subst (All (λ v. v < length values)) q
                (adjacent-range pattern 0 (length values) values (omega arith)),
            adjacency-range globs values r,
          )
  ]
]

pub length-unvisited : (values : List Bytes) → length (unvisited values) ≡ length values
length-unvisited [] = refl
length-unvisited (v ∷ values) = omega (arith, length-unvisited values)

open_count-unvisited : (values : List Bytes) → open_count (unvisited values) ≡ length values
unfolding open_count
open_count-unvisited [] = refl
open_count-unvisited (v ∷ values) = omega (arith, open_count-unvisited values)

-- An answer, whatever it is
abbrev pub Answered : Option Bool → Type 0
Answered o = (b : Bool) × (o ≡ some b)

module _ (values : List Bytes) (adj : List (List ℕ)) (p : ℕ) (glob : Bytes) (globs : List Bytes)
    (assigned : List (Option ℕ)) where
  abbrev round : Option (Search × Bool)
  round =
      try_augment (suc (length values)) adj p
        (record { visited = unvisited values; assigned = assigned })

  pub globs-more :
      (st : Search)
      → round ≡ some (st, true)
      → assign_globs values adj p (glob ∷ globs) assigned
        ≡ assign_globs values adj (suc p) globs st.assigned
  unfolding assign_globs
  globs-more st e = rw (e, assign_globs)

  pub globs-stuck : round ≡ none → assign_globs values adj p (glob ∷ globs) assigned ≡ none
  unfolding assign_globs
  globs-stuck e = rw (e, assign_globs)

  pub globs-fail :
      (st : Search)
      → round ≡ some (st, false)
      → assign_globs values adj p (glob ∷ globs) assigned ≡ some false
  unfolding assign_globs
  globs-fail st e = rw (e, assign_globs)

assign_globs-Answered :
    (values : List Bytes) (adj : List (List ℕ)) (p : ℕ) (globs : List Bytes)
    (assigned : List (Option ℕ))
    → InRange (length values) adj
    → Answered (assign_globs values adj p globs assigned)
assign_globs-Answered values adj p [] assigned h = (true, unfold assign_globs in refl)
assign_globs-Answered values adj p (glob ∷ globs) assigned h =
    let r : Answers (record { visited = unvisited values; assigned = assigned })
        (round values adj p glob globs assigned) =
      try_augment-Answers (suc (length values)) (length values) adj p
        (record { visited = unvisited values; assigned = assigned }) h (length-unvisited values)
        (omega (arith, open_count-unvisited values)) in
    elim (Bool-cases r.found) [
      | inl b ↦
          rw
            (globs-more values adj p glob globs assigned r.state
              (r.answer ∙ ap (λ x. some (r.state, x)) b))
            (assign_globs-Answered values adj (suc p) globs r.state.assigned h)
      | inr b ↦ (
        false,
        globs-fail values adj p glob globs assigned r.state
            (r.answer ∙ ap (λ x. some (r.state, x)) b),
      )
    ]

pub match_globs-Answered : (globs values : List Bytes) → Answered (match_globs globs values)
unfolding match_globs
match_globs-Answered globs values = elim (Bool-cases (length values == length globs)) [
  | inr e ↦ (false, rw (e, match_globs) refl)
  | inl e ↦ elim (Option-cases (adjacency globs values)) [
    | inl q ↦ (false, rw (e, q, match_globs) refl)
    | inr (adj, q) ↦
        rw (e, q, match_globs)
          (assign_globs-Answered values adj 0 globs (unassigned values)
            (adjacency-range globs values q))
  ]
]

module _ (order : Counts → Counts) where
  match_rest-Answered : (r : List Bytes × Counts) → Answered (match_rest order r)
  unfolding match_rest
  match_rest-Answered ([], counts) = (true, refl)
  match_rest-Answered (glob ∷ globs, counts) =
      match_globs-Answered (glob ∷ globs) (remaining_values (order counts))

  -- `matchRecords` answers on all records: the fuel of `tryAugment` is never used up.
  pub match_records-Answered :
      (patterns values : List Bytes) → Answered (match_records order patterns values)
  unfolding match_records
  match_records-Answered patterns values = elim (Bool-cases (length patterns == length values)) [
    | inr e ↦ (false, rw (e, match_records) refl)
    | inl e ↦ elim (Bool-cases (length patterns == 0 && length values == 0)) [
      | inl z ↦ (true, rw (e, z, match_records) refl)
      | inr z ↦ elim (Option-cases (consume patterns (count_values values []) [])) [
        | inl q ↦ (false, rw (e, z, q, match_records) refl)
        | inr (rest, q) ↦ rw (e, z, q, match_records) (match_rest-Answered rest)
      ]
    ]
  ]

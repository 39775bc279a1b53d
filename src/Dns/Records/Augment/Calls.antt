-- ===== src/Dns/Records/Augment/Calls.antt =====
-- internal/dns/template.go, `tryAugment`: each call, by induction on its fuel and its loop.
use dnsanity.Common.{
  ℕ, zero, suc, ◌<◌, ◌≡◌, refl, sym, ap, ◌∙◌, subst, Bool, true, false, List, [], ◌∷◌, Option, none,
  some, inl, inr, length, length-set, Bool-cases, Option-cases, All,
}
use dnsanity.Dns.Records.{
  Search, Augment, is_visited, assigned_to, neighbours, visit, try_values, try_augment,
}
use dnsanity.Dns.Records.Total.{
  values-stuck, values-visited, values-free, values-moved, values-next, augment-step,
}
use dnsanity.Dns.Records.Augment.{Single, Hidden, IsAssignment, Outcome}
use dnsanity.Dns.Records.Augment.Steps.{
  marked, still, free-Found, moved-Found, next-Found, next-Missed,
}

module _ (n : ℕ) (Edge : ℕ → ℕ → Type 0) (adj : List (List ℕ)) where
  -- What a call is made on
  pub record Ready (p : ℕ) (st : Search) : Type 0 where
    pub valid : IsAssignment n Edge adj st.assigned
    pub single : Single st.assigned
    pub hidden : Hidden p st
    pub visited_length : length st.visited ≡ n

  -- A call that keeps to the outcome
  abbrev Good : (ℕ → Augment) → Type 0
  Good again =
      (q : ℕ) (st : Search) → Ready q st → Outcome n Edge adj (neighbours adj q) q st (again q st)

  -- A value that is visited already
  skipped-Outcome :
      (p v : ℕ) (vs : List ℕ) (st : Search) (r : Option (Search × Bool))
      → is_visited st.visited v ≡ true
      → Outcome n Edge adj vs p st r
      → Outcome n Edge adj (v ∷ vs) p st r
  skipped-Outcome p v vs st none e o = tt
  skipped-Outcome p v vs st (some (st', true)) e o = o
  skipped-Outcome p v vs st (some (st', false)) e o = record {
    same = o.same;
    visited_length = o.visited_length;
    more = o.more;
    reached = (o.more v e, o.reached);
    closed = o.closed;
  }

  module _ (again : ℕ → Augment) (good : Good again) (p : ℕ) where
    -- A value whose pattern `q` was asked to move, with the answer `r`
    asked-Outcome :
        (v q : ℕ) (vs : List ℕ) (st : Search) (r : Option (Search × Bool))
        → v < n
        → Edge p v
        → ((st' : Search) → Ready p st' → Outcome n Edge adj vs p st' (try_values again p vs st'))
        → Ready p st
        → is_visited st.visited v ≡ false
        → assigned_to st.assigned v ≡ some q
        → again q (visit v st) ≡ r
        → Outcome n Edge adj (neighbours adj q) q (visit v st) r
        → Outcome n Edge adj (v ∷ vs) p st (try_values again p (v ∷ vs) st)
    asked-Outcome v q vs st none lt edge rest h e a r o =
        rw (values-stuck again p v vs st q e a r) tt
    asked-Outcome v q vs st (some (st', true)) lt edge rest h e a r o =
        rw (values-moved again p v vs st q st' e a r)
          (moved-Found n Edge adj p v st h.visited_length lt e q st' edge h.single h.hidden a o)
    asked-Outcome v q vs st (some (st', false)) lt edge rest h e a r o =
        rw (values-next again p v vs st q st' e a r) (
          later (try_values again p vs st') (
            rest st' (record {
              valid = subst (IsAssignment n Edge adj) (sym o.same) h.valid;
              single = subst Single (sym o.same) h.single;
              hidden = λ w found. o.more w (
                  still n Edge adj p v st h.visited_length lt e w
                    (h.hidden w (sym (ap (λ os. assigned_to os w) o.same) ∙ found)));
              visited_length = o.visited_length ∙ length-set st.visited v true ∙ h.visited_length;
            })))
      where
        later :
            (x : Option (Search × Bool))
            → Outcome n Edge adj vs p st' x
            → Outcome n Edge adj (v ∷ vs) p st x
        later none u = tt
        later (some (st'', true)) u =
            next-Found n Edge adj p v st h.visited_length lt e (neighbours adj q) st' st'' o u
        later (some (st'', false)) u =
            next-Missed n Edge adj p v st h.visited_length lt e q vs st' st'' a o u

    try_values-Outcome :
        (vs : List ℕ) (st : Search)
        → All (λ v. (v < n) × Edge p v) vs
        → Ready p st
        → Outcome n Edge adj vs p st (try_values again p vs st)
    try_values-Outcome [] st rows h =
        unfold try_values in
        (record {
          same = refl;
          visited_length = refl;
          more = λ w vis. vis;
          reached = tt;
          closed = λ w vis. inl vis;
        })
    try_values-Outcome (v ∷ vs) st ((lt, edge), rows) h =
        elim (Bool-cases (is_visited st.visited v)) [
          | inl e ↦ rw (values-visited again p v vs st e) (
              skipped-Outcome p v vs st (try_values again p vs st) e
                (try_values-Outcome vs st rows h))
          | inr e ↦ elim (Option-cases (assigned_to st.assigned v)) [
            | inl a ↦
                rw (values-free again p v vs st e a)
                  (free-Found n Edge adj p v st h.visited_length lt e edge h.valid h.single a)
            | inr (q, a) ↦
                asked-Outcome v q vs st (again q (visit v st)) lt edge
                  (λ st' h'. try_values-Outcome vs st' rows h') h e a refl
                  (good q (visit v st) (record {
                    valid = h.valid;
                    single = h.single;
                    hidden = λ w found.
                        subst (λ u. is_visited (visit v st).visited u ≡ true)
                          (h.single v w q a found) (marked n Edge adj p v st h.visited_length lt e);
                    visited_length = length-set st.visited v true ∙ h.visited_length;
                  }))
          ]
        ]

  -- Each call keeps to the outcome, whatever its fuel.
  pub try_augment-Outcome :
      (f : ℕ)
      → ((p : ℕ) → All (λ v. (v < n) × Edge p v) (neighbours adj p))
      → Good (try_augment f adj)
  try_augment-Outcome zero rows p st h = unfold try_augment in tt
  try_augment-Outcome (suc f) rows p st h = rw (augment-step f adj p st) (
      try_values-Outcome (try_augment f adj) (try_augment-Outcome f rows) p (neighbours adj p) st
        (rows p) h)

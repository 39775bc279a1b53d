-- ===== src/Dns/Records/Augment/Steps.antt =====
-- internal/dns/template.go, `tryAugment`: one value of its loop.
use dnsanity.Common.{
  ◌≢◌, ℕ, ◌<◌, ◌≡◌, sym, ap, ◌∙◌, subst, true, false, false≢true, List, ◌∷◌, none, some,
  some-injective, arith, inl, inr, length, length-set, ◌==◌, ==_iff, Bool-cases,
}
use dnsanity.Dns.Records.{Search, is_visited, assigned_to, neighbours, visit, assign}
use dnsanity.Dns.Records.Augment.{
  Covered, Single, Hidden, AllVisited-map, IsAssignment, Found, Missed, is_visited-set, set-own,
  set-other, set-elsewhere, set-IsAssignment,
}

module _ (n : ℕ) (Edge : ℕ → ℕ → Type 0) (adj : List (List ℕ)) where
  module _ (p v : ℕ) (st : Search) (len : length st.visited ≡ n) (lt : v < n)
      (fresh : is_visited st.visited v ≡ false) where
    pub marked : is_visited (visit v st).visited v ≡ true
    marked = ground (arith, is_visited-set st.visited v v (omega (arith, len)), ==_iff v v)

    pub still : (w : ℕ) → is_visited st.visited w ≡ true → is_visited (visit v st).visited w ≡ true
    still w e = ground (arith, is_visited-set st.visited v w (omega (arith, len)))

    unmarked :
        (w : ℕ) → (v == w) ≡ false → is_visited (visit v st).visited w ≡ is_visited st.visited w
    unmarked w e = ground (arith, is_visited-set st.visited v w (omega (arith, len)))

    not_visited : (w : ℕ) → is_visited st.visited w ≡ true → (v == w) ≡ false
    not_visited w e = elim (Bool-cases (v == w)) [
      | inl same ↦
          absurd (false≢true (sym fresh ∙ ap (is_visited st.visited) ((==_iff v w).0 same) ∙ e))
      | inr other ↦ other
    ]

    fresh_differs : (r : ℕ) {q : ℕ} → Hidden r st → assigned_to st.assigned v ≡ some q → r ≢ q
    fresh_differs r hid taken same = false≢true (sym fresh ∙ hid v (taken ∙ ap some (sym same)))

    pub free-Found :
        Edge p v
        → IsAssignment n Edge adj st.assigned
        → Single st.assigned
        → assigned_to st.assigned v ≡ none
        → Found n Edge adj p st (assign v p (visit v st))
    free-Found edge h single free =
        let in_os : v < length st.assigned = omega (arith, h.assigned_length) in
        record {
          valid = set-IsAssignment n Edge adj v p st.assigned lt edge h;
          untouched =
              λ w vis. set-other n Edge adj v (some p) st.assigned in_os w (not_visited w vis);
          place = v;
          place_fresh = fresh;
          own = set-own n Edge adj v (some p) st.assigned in_os;
          kept = λ q (w, e). elim (Bool-cases (v == w)) [
            | inl same ↦
                absurd
                  (no_value (sym free ∙ ap (assigned_to st.assigned) ((==_iff v w).0 same) ∙ e))
            | inr other ↦ (w, set-other n Edge adj v (some p) st.assigned in_os w other ∙ e)
          ];
          own_places = λ w e. elim (Bool-cases (v == w)) [
            | inl same ↦ inl ((==_iff v w).0 same)
            | inr other ↦ inr (sym (set-other n Edge adj v (some p) st.assigned in_os w other) ∙ e)
          ];
          others_single = λ a b r ne ea eb.
              single a b r (set-elsewhere n Edge adj v p st.assigned in_os a r ne ea).1
                (set-elsewhere n Edge adj v p st.assigned in_os b r ne eb).1;
          unmoved = λ r ne hid w e. (set-elsewhere n Edge adj v p st.assigned in_os w r ne e).1;
        }
      where
        no_value : {q : ℕ} → none ≡ some q → ⊥
        no_value e = cc

    pub moved-Found :
        (q : ℕ) (st' : Search)
        → Edge p v
        → Single st.assigned
        → Hidden p st
        → assigned_to st.assigned v ≡ some q
        → Found n Edge adj q (visit v st) st'
        → Found n Edge adj p st (assign v p st')
    moved-Found q st' edge single hidden taken f =
        let in_os : v < length st'.assigned = omega (arith, f.valid.assigned_length) in
        let other' : (v == f.place) ≡ false = differs f.place f.place_fresh in
        record {
          valid = set-IsAssignment n Edge adj v p st'.assigned lt edge f.valid;
          untouched = λ w vis.
              set-other n Edge adj v (some p) st'.assigned in_os w (not_visited w vis)
              ∙ f.untouched w (still w vis);
          place = v;
          place_fresh = fresh;
          own = set-own n Edge adj v (some p) st'.assigned in_os;
          kept = λ r covered.
              let (w, e) = f.kept r covered in
              elim (Bool-cases (v == w)) [
                | inl same ↦
                    let r_eq : q ≡ r = some-injective (
                      sym taken
                      ∙ sym (f.untouched v marked)
                      ∙ ap (assigned_to st'.assigned) ((==_iff v w).0 same)
                      ∙ e) in
                    (
                      f.place,
                      set-other n Edge adj v (some p) st'.assigned in_os f.place other'
                          ∙ f.own
                          ∙ ap some r_eq,
                    )
                | inr other ↦ (w, set-other n Edge adj v (some p) st'.assigned in_os w other ∙ e)
              ];
          own_places = λ w e. elim (Bool-cases (v == w)) [
            | inl same ↦ inl ((==_iff v w).0 same)
            | inr other ↦ inr (
                f.unmoved p (fresh_differs p hidden taken) (λ u eu. still u (hidden u eu)) w
                  (sym (set-other n Edge adj v (some p) st'.assigned in_os w other) ∙ e))
          ];
          others_single = λ a b r ne ea eb.
              let (va, a') = set-elsewhere n Edge adj v p st'.assigned in_os a r ne ea in
              let (vb, b') = set-elsewhere n Edge adj v p st'.assigned in_os b r ne eb in
              elim (Bool-cases (r == q)) [
                | inl same ↦
                    let r_eq = (==_iff r q).0 same in
                    sym (only_place a va (a' ∙ ap some r_eq)) ∙ only_place b vb (b' ∙ ap some r_eq)
                | inr other ↦
                    f.others_single a b r (λ same. false≢true (sym other ∙ (==_iff r q).1 same)) a'
                      b'
              ];
          unmoved = λ r ne hid w e.
              f.unmoved r (fresh_differs r hid taken) (λ u eu. still u (hid u eu)) w
                (set-elsewhere n Edge adj v p st'.assigned in_os w r ne e).1;
        }
      where
        differs : (v' : ℕ) → is_visited (visit v st).visited v' ≡ false → (v == v') ≡ false
        differs v' fresh' = elim (Bool-cases (v == v')) [
          | inl same ↦ absurd (
              false≢true (
                sym fresh'
                ∙ sym (ap (is_visited (visit v st).visited) ((==_iff v v').0 same))
                ∙ marked))
          | inr other ↦ other
        ]

        only_place : (w : ℕ) → v ≢ w → assigned_to st'.assigned w ≡ some q → f.place ≡ w
        only_place w ne e = elim (f.own_places w e) [
          | inl same ↦ same
          | inr e' ↦ absurd (ne (single v w q taken e'))
        ]

    -- What a later value of the loop leaves, after one that was missed
    pub next-Found :
        (rest : List ℕ) (st' st'' : Search)
        → Missed n Edge adj rest (visit v st) st'
        → Found n Edge adj p st' st''
        → Found n Edge adj p st st''
    next-Found rest st' st'' m f = record {
      valid = f.valid;
      untouched = λ w vis. f.untouched w (m.more w (still w vis)) ∙ back w;
      place = f.place;
      place_fresh = not_yet f.place f.place_fresh;
      own = f.own;
      kept = λ q covered. f.kept q (subst (λ os. Covered os q) (sym m.same) covered);
      own_places =
          λ w e. elim (f.own_places w e) [ inl same ↦ inl same | inr e' ↦ inr (sym (back w) ∙ e') ];
      others_single = f.others_single;
      unmoved = λ r ne hid w e.
          sym (back w)
          ∙ f.unmoved r ne (λ u eu. m.more u (still u (hid u (sym (back u) ∙ eu)))) w e;
    }
      where
        back : (w : ℕ) → assigned_to st'.assigned w ≡ assigned_to st.assigned w
        back w = ap (λ os. assigned_to os w) m.same

        not_yet : (v' : ℕ) → is_visited st'.visited v' ≡ false → is_visited st.visited v' ≡ false
        not_yet v' fresh' = elim (Bool-cases (is_visited st.visited v')) [
          | inl e ↦ absurd (false≢true (sym fresh' ∙ m.more v' (still v' e)))
          | inr e ↦ e
        ]

    pub next-Missed :
        (q : ℕ) (vs : List ℕ) (st' st'' : Search)
        → assigned_to st.assigned v ≡ some q
        → Missed n Edge adj (neighbours adj q) (visit v st) st'
        → Missed n Edge adj vs st' st''
        → Missed n Edge adj (v ∷ vs) st st''
    next-Missed q vs st' st'' taken m f = record {
      same = f.same ∙ m.same;
      visited_length = f.visited_length ∙ m.visited_length ∙ length-set st.visited v true;
      more = λ w vis. f.more w (m.more w (still w vis));
      reached = (f.more v (m.more v marked), f.reached);
      closed = λ w vis. elim (f.closed w vis) [
        | inl earlier ↦ elim (m.closed w earlier) [
          | inl before ↦ elim (Bool-cases (v == w)) [
            | inl same ↦ inr (
              q,
              sym (ap (assigned_to st.assigned) ((==_iff v w).0 same)) ∙ taken,
              AllVisited-map st' st'' f.more (neighbours adj q) m.reached,
            )
            | inr other ↦ inl (sym (unmarked w other) ∙ before)
          ]
          | inr (q', e, all) ↦ inr (q', e, AllVisited-map st' st'' f.more (neighbours adj q') all)
        ]
        | inr (q', e, all) ↦ inr (q', sym (ap (λ os. assigned_to os w) m.same) ∙ e, all)
      ];
    }

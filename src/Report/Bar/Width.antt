-- ===== src/Report/Bar/Width.antt =====
-- internal/report/status.go, `renderBrailleBar`: how wide the bar is.
use dnsanity.Common.{
  ℕ, zero, suc, ◌+◌, ◌-◌, ◌*◌, ◌/◌, ◌%◌, ◌^◌, ◌≤◌, ◌<◌, ◌≡◌, refl, ap, ◌∙◌, Bool, true, false, inl,
  inr, [], ◌∷◌, ◌++◌, map, some, All, length, take, get_elem?-lt, length-append, length-drop, ltb,
  leb, ltb_iff, ◌==◌, ==_iff, if◌then◌else◌, Bool-cases, arith,
}
use dnsanity.Text.{codes}
use dnsanity.Report.Dump.{esc}
use dnsanity.Report.Status.{StatusReporter, is_finished}
use dnsanity.Report.Bar.{
  Runes, Rounded, scaled, full_block, left_parts, right_parts, repeated, part, build_left,
  build_right, trim, sides, join_sides, render_braille_bar,
}

-- The result of scaling in `float64` to at most 1024 and rounding is the exact one to within a half and a
-- millionth.
abbrev pub IsNear : Rounded → Type 0
IsNear rounded =
    (value total scale : ℕ)
    → value ≤ total
    → 0 < total
    → scale ≤ 1024
    → (2 * 2 ^ 20 * (total * rounded value total scale)
        ≤ 2 * 2 ^ 20 * (scale * value) + 2 ^ 20 * total + total)
      × (2 * 2 ^ 20 * (scale * value)
          ≤ 2 * 2 ^ 20 * (total * rounded value total scale) + 2 ^ 20 * total + total)

length-repeated : (n r : ℕ) → length (repeated n r) ≡ n
length-repeated zero r = refl
length-repeated (suc n) r = ap suc (length-repeated n r)

length-part :
    (parts : Runes) (extra : ℕ)
    → length parts ≡ 7
    → extra < 8
    → length (part parts extra) ≡ (if ltb 0 extra then 1 else 0)
length-part parts extra e lt = elim (Bool-cases (ltb 0 extra)) [
  | inl some_part ↦
      let (r, found) =
        get_elem?-lt parts (extra - 1) (omega (arith, (ltb_iff 0 extra).0 some_part)) in
      rw (some_part, found) refl
  | inr no_part ↦ rw no_part refl
]

blocks : (n : ℕ) → n / 8 + (if ltb 0 (n % 8) then 1 else 0) ≡ (n + 7) / 8
blocks n = ground arith

length-build_left : (pts : ℕ) → length (build_left pts) ≡ (pts + 7) / 8
unfolding build_left
length-build_left pts =
    length-append (repeated (pts / 8) full_block) (part left_parts (pts % 8))
    ∙ omega (
      arith,
      length-repeated (pts / 8) full_block,
      length-part left_parts (pts % 8) refl (omega arith),
      blocks pts,
    )

length-build_right : (pts : ℕ) → length (build_right pts) ≡ (pts + 7) / 8
unfolding build_right
length-build_right pts =
    length-append (part right_parts (pts % 8)) (repeated (pts / 8) full_block)
    ∙ omega (
      arith,
      length-repeated (pts / 8) full_block,
      length-part right_parts (pts % 8) refl (omega arith),
      blocks pts,
    )

length-take : (n : ℕ) (xs : Runes) → n ≤ length xs → length (take n xs) ≡ n
length-take zero xs le = refl
length-take (suc n) [] le = absurd (omega arith)
length-take (suc n) (x ∷ xs) le = ap suc (length-take n xs (omega arith))

length-take_less : (xs : Runes) → length (take (length xs - 1) xs) ≡ length xs - 1
length-take_less xs = length-take (length xs - 1) xs (omega arith)

length-map : (f : ℕ → ℕ) (xs : Runes) → length (map f xs) ≡ length xs
length-map f [] = refl
length-map f (x ∷ xs) = ap suc (length-map f xs)

-- The width of two sides
abbrev pub width : Runes × Runes → ℕ
width (valid, invalid) = length valid + length invalid

trim-width :
    (more_valid : Bool) (valid invalid : Runes)
    → length valid ≤ 60
    → length invalid ≤ 60
    → length valid + length invalid ≤ 61
    → (width (trim more_valid valid invalid) ≤ 60)
      × (60 ≤ length valid + length invalid → width (trim more_valid valid invalid) ≡ 60)
unfolding trim
trim-width more_valid valid invalid v i both =
    ground (arith, length-take_less valid, length-drop 1 invalid)

cancel : (t n k : ℕ) → 0 < t → t * n < t * k → n < k
cancel t n k some_t lt = elim (Bool-cases (ltb n k)) [
  | inl e ↦ (ltb_iff n k).0 e
  | inr e ↦ absurd (omega (arith, not_less e, product (n - k) (omega (arith, not_less e))))
]
  where
    not_less : ltb n k ≡ false → k ≤ n
    not_less e = ground (arith, e)

    product : (d : ℕ) → n ≡ k + d → t * n ≡ t * k + t * d
    product d q = ap (λ m. t * m) q ∙ omega arith

module _ (rounded : Rounded) (near : IsNear rounded) where
  -- What a side of the bar takes of its 480 points
  one_side :
      (t v p : ℕ)
      → 0 < t
      → v ≤ t
      → 2 * 2 ^ 20 * (t * p) ≤ 2 * 2 ^ 20 * (480 * v) + 2 ^ 20 * t + t
      → p ≤ 480
  one_side t v p some_t le high = omega (arith, cancel t p 481 some_t (omega arith))

  two_sides :
      (t v i p q : ℕ)
      → 0 < t
      → v + i ≤ t
      → 2 * 2 ^ 20 * (t * p) ≤ 2 * 2 ^ 20 * (480 * v) + 2 ^ 20 * t + t
      → 2 * 2 ^ 20 * (t * q) ≤ 2 * 2 ^ 20 * (480 * i) + 2 ^ 20 * t + t
      → p + q ≤ 481
  two_sides t v i p q some_t le v_high i_high =
      omega (arith, cancel t (p + q) 482 some_t (omega arith))

  filled :
      (t v i p q : ℕ)
      → 0 < t
      → v + i ≡ t
      → 2 * 2 ^ 20 * (480 * v) ≤ 2 * 2 ^ 20 * (t * p) + 2 ^ 20 * t + t
      → 2 * 2 ^ 20 * (480 * i) ≤ 2 * 2 ^ 20 * (t * q) + 2 ^ 20 * t + t
      → 479 ≤ p + q
  filled t v i p q some_t e v_low i_low = omega (arith, cancel t 478 (p + q) some_t (omega arith))

  scaled-bounds :
      (v i t : ℕ)
      → v + i ≤ t
      → (scaled rounded v t 480 ≤ 480)
        × (scaled rounded v t 480 + scaled rounded i t 480 ≤ 481)
        × (v + i ≡ t → 0 < t → 479 ≤ scaled rounded v t 480 + scaled rounded i t 480)
  unfolding scaled
  scaled-bounds v i t le = elim (Bool-cases (t == 0)) [
    | inl e ↦ rw e (omega arith, omega arith, λ same lt. absurd (omega (arith, (==_iff t 0).0 e)))
    | inr e ↦
        let some_t : 0 < t = ground (arith, ==_iff t 0) in
        let (v_high, v_low) = near v t 480 (omega arith) some_t (omega arith) in
        let (i_high, i_low) = near i t 480 (omega arith) some_t (omega arith) in
        rw e (
          one_side t v _ some_t (omega arith) v_high,
          two_sides t v i _ _ some_t le v_high i_high,
          λ same lt. filled t v i _ _ some_t same v_low i_low,
        )
  ]

  module _ (s : StatusReporter) (le : s.valid_servers + s.invalid_servers ≤ s.total_servers) where
    abbrev valid_pts : ℕ
    valid_pts = scaled rounded s.valid_servers s.total_servers 480

    abbrev invalid_pts : ℕ
    invalid_pts = scaled rounded s.invalid_servers s.total_servers 480

    abbrev trimmed : Runes × Runes
    trimmed =
        trim (leb (invalid_pts % 8) (valid_pts % 8)) (build_left valid_pts)
          (build_right invalid_pts)

    trimmed-width :
        (width trimmed ≤ 60)
        × (s.valid_servers + s.invalid_servers ≡ s.total_servers
            → 0 < s.total_servers
            → width trimmed ≡ 60)
    trimmed-width =
        let (v, both, full) = scaled-bounds s.valid_servers s.invalid_servers s.total_servers le in
        let (i, both', full') =
          scaled-bounds s.invalid_servers s.valid_servers s.total_servers (omega arith) in
        let (narrow, exact) =
          trim-width (leb (invalid_pts % 8) (valid_pts % 8)) (build_left valid_pts)
            (build_right invalid_pts) (omega (arith, length-build_left valid_pts))
            (omega (arith, length-build_right invalid_pts))
            (omega (arith, length-build_left valid_pts, length-build_right invalid_pts)) in
        (
          narrow,
          λ same lt. exact (
              omega
                (arith, full same lt, length-build_left valid_pts, length-build_right invalid_pts)),
        )

    sides-width : width (sides rounded s) ≡ width trimmed
    unfolding sides
    sides-width = elim (Bool-cases (is_finished s)) [
      | inl e ↦ rw e (
          omega
            (arith, length-map (λ r. full_block) trimmed.0, length-map (λ r. full_block) trimmed.1))
      | inr e ↦ rw e refl
    ]

All-repeated : (n r : ℕ) → All (λ x. x ≡ r) (repeated n r)
All-repeated zero r = tt
All-repeated (suc n) r = (refl, All-repeated n r)

All-map : (r : ℕ) (xs : Runes) → All (λ x. x ≡ r) (map (λ x. r) xs)
All-map r [] = tt
All-map r (x ∷ xs) = (refl, All-map r xs)

join_sides-fits :
    (p : Runes × Runes)
    → width p ≤ 60
    → join_sides p
      ≡ some (
          esc (codes "32m")
          ++ (p.0 ++ (repeated (60 - width p) b' ' ++ (esc (codes "31m") ++ p.1))))
join_sides-fits (valid, invalid) le = elim (Bool-cases (ltb 60 (length valid + length invalid))) [
  | inl e ↦ absurd (omega (arith, (ltb_iff 60 _).0 e))
  | inr e ↦ rw e refl
]

-- The parts of a bar's text: the two sides with spaces between them, 60 runes together
pub record IsBar (text valid spaces invalid : Runes) : Type 0 where
  pub whole : text ≡ esc (codes "32m") ++ (valid ++ (spaces ++ (esc (codes "31m") ++ invalid)))
  pub sixty : length valid + length spaces + length invalid ≡ 60
  pub blank : All (λ r. r ≡ b' ') spaces

sides-full :
    (rounded : Rounded) (s : StatusReporter)
    → is_finished s ≡ true
    → All (λ r. r ≡ full_block) (sides rounded s).0 × All (λ r. r ≡ full_block) (sides rounded s).1
unfolding sides
sides-full rounded s e = rw e (All-map full_block _, All-map full_block _)

-- Where numbers scaled in `float64` to at most 1024 are rounded within a half and a millionth, and the valid
-- and invalid servers are not more than the total, the bar's text is made without a panic: its two sides and the
-- spaces between them are 60 runes. Where all of at least one server are done, there is no space, and
-- every rune of the two sides is a full block.
pub render_braille_bar-IsBar :
    (rounded : Rounded) (s : StatusReporter)
    → IsNear rounded
    → s.valid_servers + s.invalid_servers ≤ s.total_servers
    → (text valid spaces invalid : Runes) × (render_braille_bar rounded s ≡ some text)
      × IsBar text valid spaces invalid
      × (is_finished s ≡ true
          → 0 < s.total_servers
          → (spaces ≡ []) × All (λ r. r ≡ full_block) valid × All (λ r. r ≡ full_block) invalid)
unfolding render_braille_bar is_finished
render_braille_bar-IsBar rounded s near le =
    let p = sides rounded s in
    let (narrow, exact) = trimmed-width rounded near s le in
    let same = sides-width rounded near s le in
    (
      _,
      p.0,
      repeated (60 - width p) b' ',
      p.1,
      join_sides-fits p (omega arith),
      record {
        whole = refl;
        sixty = omega (arith, length-repeated (60 - width p) b' ');
        blank = All-repeated (60 - width p) b' ';
      },
      λ done some_server.
          let wide =
            exact ((==_iff (s.valid_servers + s.invalid_servers) s.total_servers).0 done)
              some_server in
          let no_gap : 60 - width p ≡ 0 = omega arith in
          (
            ap (λ n. repeated n b' ') no_gap,
            (sides-full rounded s done).0,
            (sides-full rounded s done).1,
          ),
    )

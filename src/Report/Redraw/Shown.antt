-- ===== src/Report/Redraw/Shown.antt =====
-- internal/report/status.go: what the terminal has shown when `Stop` and the ticks beside it have ended.
use dnsanity.Common.{
  ℕ, zero, suc, ◌+◌, ◌≤◌, ◌≡◌, refl, sym, ap, subst, ◌∙◌, Bool, true, false, List, [], ◌∷◌, ◌++◌,
  arith, inl, inr, ◌⊎◌, append_assoc, append-nil,
}
use dnsanity.Text.{Bytes}
use dnsanity.Report.Redraw.{
  Piece, eraser, bar, lines, last, Terminal, lines_of, output_of, lines_of-append,
}
use dnsanity.Report.Redraw.Stopping.{
  Phase, ready, written_out, finished, holding, Race, tick_at, stop_at, race, before_stop,
}

module _ (c : Bytes) where
  abbrev copies : ℕ → Bytes
  copies zero = []
  copies (suc n) = c ++ copies n

  copies-add : (m n : ℕ) → copies m ++ copies n ≡ copies (m + n)
  copies-add zero n = let same : n ≡ 0 + n = omega arith in ap copies same
  copies-add (suc m) n =
      let same : suc (m + n) ≡ suc m + n = omega arith in
      append_assoc c (copies m) (copies n) ∙ ap (λ s. c ++ s) (copies-add m n) ∙ ap copies same

  -- A goroutine holds `h` copies of the lines, where `q` wait and `k` are shown.
  abbrev Holds : Phase → ℕ → ℕ → ℕ → Type 0
  Holds ready h q k = h ≡ 0
  Holds (holding text) h q k = (text ≡ copies h) × (1 ≤ h + k)
  Holds written_out h q k = (h ≡ 0) × (1 ≤ k)
  Holds finished h q k = (h ≡ 0) × (q ≡ 0)

  -- Before its read, it has taken `n` copies: where lines wait, `loop` has taken none, and `Stop` none at all.
  abbrev Fresh : Phase → ℕ → ℕ → Type 0
  Fresh ready n q = n + q ≤ 1
  Fresh _ n q = n ≤ 1

  abbrev Unread : Phase → ℕ → Type 0
  Unread ready n = n ≡ 0
  Unread _ n = n ≤ 1

  Holds-later :
      (p : Phase) (h q k : ℕ) {q' k' : ℕ} → q' ≤ q → k ≤ k' → Holds p h q k → Holds p h q' k'
  Holds-later ready h q k less more e = e
  Holds-later (holding text) h q k less more (e, some) = (e, omega arith)
  Holds-later written_out h q k less more (e, some) = (e, omega arith)
  Holds-later finished h q k less more (e, none_left) = (e, omega arith)

  Fresh-later : (p : Phase) (n q : ℕ) {q' : ℕ} → q' ≤ q → Fresh p n q → Fresh p n q'
  Fresh-later ready n q less e = omega arith
  Fresh-later (holding text) n q less e = e
  Fresh-later written_out n q less e = e
  Fresh-later finished n q less e = e

  -- The copies shown (`k`), waiting (`q`), held by both (`hl`, `hs`) and taken by both (`nl`, `ns`)
  record Counted (before : Bytes) (r : Race) : Type 0 where
    k : ℕ
    q : ℕ
    hl : ℕ
    hs : ℕ
    nl : ℕ
    ns : ℕ
    shown : lines_of r.terminal.sent ≡ before ++ copies k
    waiting : r.terminal.cache_str ≡ copies q
    loop_holds : Holds r.ticking hl q k
    stop_holds : Holds r.stopping hs q k
    loop_fresh : Fresh r.ticking nl q
    stop_fresh : Unread r.stopping ns
    balance : k + hl + hs ≡ nl + ns
    one_cache : q ≤ 1
    some_left : 1 ≤ q + k

  show-shown :
      (before : Bytes) (sent : List Piece) (text : Bytes) (more : List Piece) (k h : ℕ)
      → lines_of more ≡ []
      → lines_of sent ≡ before ++ copies k
      → text ≡ copies h
      → lines_of (sent ++ eraser ∷ lines text ∷ more) ≡ before ++ copies (k + h)
  show-shown before sent text more k h none_more shown e =
      lines_of-append sent (eraser ∷ lines text ∷ more)
      ∙ ap (λ s. lines_of sent ++ (text ++ s)) none_more
      ∙ ap (λ s. lines_of sent ++ s) (append-nil text ∙ e)
      ∙ ap (λ s. s ++ copies h) shown
      ∙ append_assoc before (copies k) (copies h)
      ∙ ap (λ s. before ++ s) (copies-add k h)

  module _ (before : Bytes) where
    tick-Counted :
        (p : Phase) (r : Race) → r.ticking ≡ p → Counted before r → Counted before (tick_at p r)
    tick-Counted ready r e i =
        let holds : Holds ready i.hl i.q i.k = subst (λ p. Holds p i.hl i.q i.k) e i.loop_holds in
        let fresh : Fresh ready i.nl i.q = subst (λ p. Fresh p i.nl i.q) e i.loop_fresh in
        record {
          k = i.k;
          q = i.q;
          hl = i.q;
          hs = i.hs;
          nl = i.nl + i.q;
          ns = i.ns;
          shown = i.shown;
          waiting = i.waiting;
          loop_holds = (i.waiting, i.some_left);
          stop_holds = i.stop_holds;
          loop_fresh = fresh;
          stop_fresh = i.stop_fresh;
          balance = omega (arith, i.balance, holds);
          one_cache = i.one_cache;
          some_left = i.some_left;
        }
    tick-Counted (holding text) r e i =
        let (same, some_held) = subst (λ p. Holds p i.hl i.q i.k) e i.loop_holds in
        let fresh : Fresh (holding text) i.nl i.q = subst (λ p. Fresh p i.nl i.q) e i.loop_fresh in
        record {
          k = i.k + i.hl;
          q = i.q;
          hl = 0;
          hs = i.hs;
          nl = i.nl;
          ns = i.ns;
          shown = show-shown before r.terminal.sent text (bar ∷ []) i.k i.hl refl i.shown same;
          waiting = i.waiting;
          loop_holds = (refl, omega (arith, some_held));
          stop_holds = Holds-later r.stopping i.hs i.q i.k (omega arith) (omega arith) i.stop_holds;
          loop_fresh = fresh;
          stop_fresh = i.stop_fresh;
          balance = omega (arith, i.balance);
          one_cache = i.one_cache;
          some_left = omega (arith, i.some_left);
        }
    tick-Counted written_out r e i =
        let (none_held, some_shown) = subst (λ p. Holds p i.hl i.q i.k) e i.loop_holds in
        let fresh : Fresh written_out i.nl i.q = subst (λ p. Fresh p i.nl i.q) e i.loop_fresh in
        record {
          k = i.k;
          q = 0;
          hl = i.hl;
          hs = i.hs;
          nl = i.nl;
          ns = i.ns;
          shown = i.shown;
          waiting = refl;
          loop_holds = none_held;
          stop_holds = Holds-later r.stopping i.hs i.q i.k (omega arith) (omega arith) i.stop_holds;
          loop_fresh = omega (arith, fresh);
          stop_fresh = i.stop_fresh;
          balance = i.balance;
          one_cache = omega arith;
          some_left = omega (arith, some_shown);
        }
    tick-Counted finished r e i = i

    stop-Counted :
        (p : Phase) (r : Race) → r.stopping ≡ p → Counted before r → Counted before (stop_at p r)
    stop-Counted ready r e i =
        let holds : Holds ready i.hs i.q i.k = subst (λ p. Holds p i.hs i.q i.k) e i.stop_holds in
        let unread : Unread ready i.ns = subst (λ p. Unread p i.ns) e i.stop_fresh in
        record {
          k = i.k;
          q = i.q;
          hl = i.hl;
          hs = i.q;
          nl = i.nl;
          ns = i.q;
          shown = i.shown;
          waiting = i.waiting;
          loop_holds = i.loop_holds;
          stop_holds = (i.waiting, i.some_left);
          loop_fresh = i.loop_fresh;
          stop_fresh = i.one_cache;
          balance = omega (arith, i.balance, holds, unread);
          one_cache = i.one_cache;
          some_left = i.some_left;
        }
    stop-Counted (holding text) r e i =
        let (same, some_held) = subst (λ p. Holds p i.hs i.q i.k) e i.stop_holds in
        let unread : Unread (holding text) i.ns = subst (λ p. Unread p i.ns) e i.stop_fresh in
        record {
          k = i.k + i.hs;
          q = i.q;
          hl = i.hl;
          hs = 0;
          nl = i.nl;
          ns = i.ns;
          shown =
              show-shown before r.terminal.sent text (bar ∷ last ∷ []) i.k i.hs refl i.shown same;
          waiting = i.waiting;
          loop_holds = Holds-later r.ticking i.hl i.q i.k (omega arith) (omega arith) i.loop_holds;
          stop_holds = (refl, omega (arith, some_held));
          loop_fresh = i.loop_fresh;
          stop_fresh = unread;
          balance = omega (arith, i.balance);
          one_cache = i.one_cache;
          some_left = omega (arith, i.some_left);
        }
    stop-Counted written_out r e i =
        let (none_held, some_shown) = subst (λ p. Holds p i.hs i.q i.k) e i.stop_holds in
        let unread : Unread written_out i.ns = subst (λ p. Unread p i.ns) e i.stop_fresh in
        record {
          k = i.k;
          q = 0;
          hl = i.hl;
          hs = i.hs;
          nl = i.nl;
          ns = i.ns;
          shown = i.shown;
          waiting = refl;
          loop_holds = Holds-later r.ticking i.hl i.q i.k (omega arith) (omega arith) i.loop_holds;
          stop_holds = (none_held, refl);
          loop_fresh = Fresh-later r.ticking i.nl i.q (omega arith) i.loop_fresh;
          stop_fresh = unread;
          balance = i.balance;
          one_cache = omega arith;
          some_left = omega (arith, some_shown);
        }
    stop-Counted finished r e i = i

    race-Counted : (steps : List Bool) (r : Race) → Counted before r → Counted before (race steps r)
    unfolding race
    race-Counted [] r i = i
    race-Counted (true ∷ more) r i =
        race-Counted more (tick_at r.ticking r) (tick-Counted r.ticking r refl i)
    race-Counted (false ∷ more) r i =
        race-Counted more (stop_at r.stopping r) (stop-Counted r.stopping r refl i)

once_or_twice : (k : ℕ) → 1 ≤ k → k ≤ 2 → (k ≡ 1) ⊎ (k ≡ 2)
once_or_twice zero some few = absurd (omega arith)
once_or_twice (suc zero) some few = inl refl
once_or_twice (suc (suc zero)) some few = inr refl
once_or_twice (suc (suc (suc n))) some few = absurd (omega arith)

start-Counted : (t : Terminal) → Counted t.cache_str (lines_of t.sent) (before_stop t)
start-Counted t = record {
  k = 0;
  q = 1;
  hl = 0;
  hs = 0;
  nl = 0;
  ns = 0;
  shown = sym (append-nil (lines_of t.sent));
  waiting = sym (append-nil t.cache_str);
  loop_holds = refl;
  stop_holds = refl;
  loop_fresh = omega arith;
  stop_fresh = refl;
  balance = refl;
  one_cache = omega arith;
  some_left = omega arith;
}

-- In whatever order the steps of `Stop` and of any number of ticks come: where `Stop` has ended and no tick is
-- under way, no line waits, and the lines that waited when `Stop` was called stand once behind those shown
-- before, or twice.
pub race-shown :
    (steps : List Bool) (t : Terminal)
    → (race steps (before_stop t)).stopping ≡ finished
    → (race steps (before_stop t)).ticking ≡ ready
    → ((race steps (before_stop t)).terminal.cache_str ≡ [])
      × ((lines_of (race steps (before_stop t)).terminal.sent ≡ output_of t)
          ⊎ (lines_of (race steps (before_stop t)).terminal.sent ≡ output_of t ++ t.cache_str))
race-shown steps t stopped idle =
    let i = race-Counted t.cache_str (lines_of t.sent) steps (before_stop t) (start-Counted t) in
    let c = t.cache_str in
    let (none_held, none_left) = subst (λ p. Holds c p i.hs i.q i.k) stopped i.stop_holds in
    let not_held : Holds c ready i.hl i.q i.k =
      subst (λ p. Holds c p i.hl i.q i.k) idle i.loop_holds in
    let loop_once : Fresh c ready i.nl i.q = subst (λ p. Fresh c p i.nl i.q) idle i.loop_fresh in
    let stop_once : Unread c finished i.ns = subst (λ p. Unread c p i.ns) stopped i.stop_fresh in
    let few : (i.k ≡ 1) ⊎ (i.k ≡ 2) =
      once_or_twice i.k (omega (arith, i.some_left)) (omega (arith, i.balance)) in
    (
      i.waiting ∙ ap (copies c) none_left,
      elim few [
        | inl one ↦ inl (
            i.shown
            ∙ ap (λ n. lines_of t.sent ++ copies c n) one
            ∙ ap (λ s. lines_of t.sent ++ s) (append-nil c))
        | inr two ↦ inr (
            i.shown
            ∙ ap (λ n. lines_of t.sent ++ copies c n) two
            ∙ ap (λ s. lines_of t.sent ++ (c ++ s)) (append-nil c)
            ∙ sym (append_assoc (lines_of t.sent) c c))
      ],
    )

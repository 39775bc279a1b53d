-- ===== src/Config/ServerList/Laws.antt =====
-- internal/config/serverlist.go, `ParseServerList`: the elements of a text, and the end of its reading.
use dnsanity.Common.{
  ℕ, suc, ◌≡◌, refl, sym, ap, ◌∙◌, ◌≢◌, ◌↔◌, Bool, true, List, [], ◌∷◌, ◌++◌, Result, ok, fail,
  ◌>>=◌, bind_parts, ok-injective, if◌then◌else◌, All, inl, inr, Bool-cases, Option-cases, subst,
  ◌==◌, none, some, take,
}
use dnsanity.Text.{Bytes, codes, index, trim_space}
use dnsanity.Text.Split.{split}
use dnsanity.Text.Lines.{Input, scan_lines}
use dnsanity.Dns.Glob.{is_empty}
use dnsanity.Config.ServerList.{
  ListError, invalid_ip, empty_list, cut_comment, parse_elems, parse_lines, finish_list,
  parse_input,
}

-- The elements of a text that are not empty, in its order: those between the commas of each line, without
-- comments and space
unfoldable pub elements : List Bytes → List Bytes
elements [] = []
elements (elem ∷ elems) =
    let rest = elements elems in if is_empty (trim_space elem) then rest else trim_space elem ∷ rest

-- A line up to its first `#`, if it has one
unfoldable pub uncommented : Bytes → Bytes
uncommented [] = []
uncommented (c ∷ cs) = if c == b'#' then [] else c ∷ uncommented cs

unfoldable pub all_elements : List Bytes → List Bytes
unfolding elements uncommented
all_elements [] = []
all_elements (line ∷ lines) = elements (split (uncommented line) (codes ",")) ++ all_elements lines

cut_comment-none : (line : Bytes) → index line (codes "#") ≡ none → cut_comment line ≡ line
unfolding cut_comment
cut_comment-none line e = rw (e, cut_comment) refl

cut_comment-some :
    (line : Bytes) (i : ℕ) → index line (codes "#") ≡ some i → cut_comment line ≡ take i line
unfolding cut_comment
cut_comment-some line i e = rw (e, cut_comment) refl

pub cut_comment-uncommented : (line : Bytes) → cut_comment line ≡ uncommented line
unfolding uncommented index
cut_comment-uncommented [] = cut_comment-none [] refl
cut_comment-uncommented (c ∷ cs) = elim (Bool-cases (c == b'#')) [
  | inl same ↦ cut_comment-some (c ∷ cs) 0 (rw same refl) ∙ rw same refl
  | inr other ↦ elim (Option-cases (index cs (codes "#"))) [
    | inl e ↦
        cut_comment-none (c ∷ cs) (rw (other, e) refl)
        ∙ ap (◌∷◌ c) (sym (cut_comment-none cs e) ∙ cut_comment-uncommented cs)
        ∙ rw other refl
    | inr (i, e) ↦
        cut_comment-some (c ∷ cs) (suc i) (rw (other, e) refl)
        ∙ ap (◌∷◌ c) (sym (cut_comment-some cs i e) ∙ cut_comment-uncommented cs)
        ∙ rw other refl
  ]
]

bind-same :
    {A B : Type 0} (r : Result ListError A) (f g : A → Result ListError B)
    → ((a : A) → f a ≡ g a)
    → (r >>= f) ≡ (r >>= g)
bind-same (ok a) f g h = h a
bind-same (fail e) f g h = refl

bind_assoc :
    {A B C : Type 0} (r : Result ListError A) (f : A → Result ListError B)
    (g : B → Result ListError C)
    → (r >>= f >>= g) ≡ (r >>= λ a. f a >>= g)
bind_assoc (ok a) f g = refl
bind_assoc (fail e) f g = refl

bind-ok : {A : Type 0} (r : Result ListError A) → (r >>= ok) ≡ r
bind-ok (ok a) = refl
bind-ok (fail e) = refl

module _ (is_ip : Bytes → Bool) where
  abbrev pub AllIps : List Bytes → Type 0
  AllIps = All (λ ip. is_ip ip ≡ true)

  -- A list of elements, or the first that is no address
  abbrev pub check_all : List Bytes → Result ListError (List Bytes)
  check_all [] = ok []
  check_all (ip ∷ ips) =
      if is_ip ip then (check_all ips >>= λ rest. ok (ip ∷ rest)) else fail (invalid_ip ip)

  parse_elems-check : (elems : List Bytes) → parse_elems is_ip elems ≡ check_all (elements elems)
  unfolding parse_elems elements
  parse_elems-check [] = refl
  parse_elems-check (elem ∷ elems) = elim (Bool-cases (is_empty (trim_space elem))) [
    | inl e ↦ rw e (parse_elems-check elems)
    | inr e ↦ elim (Bool-cases (is_ip (trim_space elem))) [
      | inl q ↦
          rw (e, q) (ap (λ r. r >>= λ rest. ok (trim_space elem ∷ rest)) (parse_elems-check elems))
      | inr q ↦ rw (e, q) refl
    ]
  ]

  check_all-append :
      (xs ys : List Bytes)
      → check_all (xs ++ ys)
        ≡ (check_all xs >>= λ first. check_all ys >>= λ rest. ok (first ++ rest))
  check_all-append [] ys = sym (bind-ok (check_all ys))
  check_all-append (x ∷ xs) ys = elim (Bool-cases (is_ip x)) [
    | inr q ↦ rw q refl
    | inl q ↦ rw q (
        ap (λ r. r >>= λ rest. ok (x ∷ rest)) (check_all-append xs ys)
        ∙ bind_assoc (check_all xs) (λ first. check_all ys >>= λ rest. ok (first ++ rest))
            (λ rest. ok (x ∷ rest))
        ∙ bind-same (check_all xs) _ _ (λ first.
          bind_assoc (check_all ys) (λ rest. ok (first ++ rest)) (λ rest. ok (x ∷ rest)))
        ∙ sym (
            bind_assoc (check_all xs) (λ rest. ok (x ∷ rest))
              (λ first. check_all ys >>= λ rest. ok (first ++ rest))))
  ]

  parse_lines-check :
      (lines : List Bytes) → parse_lines is_ip lines ≡ check_all (all_elements lines)
  unfolding parse_lines all_elements
  parse_lines-check [] = refl
  parse_lines-check (line ∷ lines) =
      let elems = split (cut_comment line) (codes ",") in
      let elems' = split (uncommented line) (codes ",") in
      ap (λ r. r >>= λ first. parse_lines is_ip lines >>= λ rest. ok (first ++ rest))
        (parse_elems-check elems
          ∙ ap (λ s. check_all (elements (split s (codes ",")))) (cut_comment-uncommented line))
      ∙ ap (λ r. check_all (elements elems') >>= λ first. r >>= λ rest. ok (first ++ rest))
          (parse_lines-check lines)
      ∙ sym (check_all-append (elements elems') (all_elements lines))

  -- `ParseServerList` checks the elements of its text one by one, in order, and then that there is one.
  parse_input-check :
      (input : Input)
      → parse_input is_ip input
        ≡ (check_all (all_elements (scan_lines input).0) >>= finish_list is_ip)
  unfolding parse_input
  parse_input-check input =
      ap (λ r. r >>= finish_list is_ip) (parse_lines-check (scan_lines input).0)

  check_all-ok : (xs : List Bytes) → AllIps xs → check_all xs ≡ ok xs
  check_all-ok [] h = refl
  check_all-ok (x ∷ xs) (h, hs) = rw (h, check_all-ok xs hs) refl

  check_all-inv : (xs ys : List Bytes) → check_all xs ≡ ok ys → (ys ≡ xs) × AllIps ys
  check_all-inv [] ys q = (sym (ok-injective q), subst AllIps (ok-injective q) tt)
  check_all-inv (x ∷ xs) ys q = elim (Bool-cases (is_ip x)) [
    | inl good ↦
        let (rest, first, same) =
          bind_parts (check_all xs) (λ rest. ok (x ∷ rest)) (rw good at q) in
        let (eq, ips) = check_all-inv xs rest first in
        (sym (ok-injective same) ∙ ap (◌∷◌ x) eq, subst AllIps (ok-injective same) (good, ips))
    | inr bad ↦ absurd (no_error (rw bad at q))
  ]
    where
      no_error : ◌≡◌ {A = Result ListError (List Bytes)} (fail (invalid_ip x)) (ok ys) → ⊥
      no_error q = cc

  finish_list-inv : (xs ys : List Bytes) → finish_list is_ip xs ≡ ok ys → (ys ≡ xs) × (ys ≢ [])
  finish_list-inv [] ys q = absurd (no_error q)
    where
      no_error : ◌≡◌ {A = Result ListError (List Bytes)} (fail empty_list) (ok ys) → ⊥
      no_error q = cc
  finish_list-inv (x ∷ xs) ys q = (sym (ok-injective q), λ e. absurd (no_nil (ok-injective q ∙ e)))
    where
      no_nil : x ∷ xs ≡ [] → ⊥
      no_nil e = cc

  finish_list-some : (xs : List Bytes) → xs ≢ [] → finish_list is_ip xs ≡ ok xs
  finish_list-some [] ne = absurd (ne refl)
  finish_list-some (x ∷ xs) ne = refl

  -- The list returned is exactly the elements of the lines read, in order and with their repetitions, and
  -- one is returned exactly where each element is an address and there is at least one.
  pub parse_input_iff :
      (input : Input) (servers : List Bytes)
      → (parse_input is_ip input ≡ ok servers)
        ↔ ((servers ≡ all_elements (scan_lines input).0) × AllIps servers × (servers ≢ []))
  parse_input_iff input servers = (to, from)
    where
      to :
          parse_input is_ip input ≡ ok servers
          → (servers ≡ all_elements (scan_lines input).0) × AllIps servers × (servers ≢ [])
      to q =
          let (xs, first, last) =
            bind_parts (check_all (all_elements (scan_lines input).0)) (finish_list is_ip)
              (sym (parse_input-check input) ∙ q) in
          let (eq, ips) = check_all-inv (all_elements (scan_lines input).0) xs first in
          let (same, some_ip) = finish_list-inv xs servers last in
          (same ∙ eq, subst AllIps (sym same) ips, some_ip)

      from :
          (servers ≡ all_elements (scan_lines input).0) × AllIps servers × (servers ≢ [])
          → parse_input is_ip input ≡ ok servers
      from (eq, ips, ne) =
          parse_input-check input
          ∙ ap (λ r. r >>= finish_list is_ip) (ap check_all (sym eq) ∙ check_all-ok servers ips)
          ∙ finish_list-some servers ne

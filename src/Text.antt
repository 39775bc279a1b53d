-- ===== src/Text.antt =====
-- Go's strings and the functions of package `strings` that the program calls, over lists of bytes.
-- White space and letter case are those of ASCII.
pub mod Split
pub mod Words
pub mod Lines
pub mod Trim
use Prim.Native.Char.{code}
use Prim.Native.String.{String}
use mathlib.Core.Option
use dnsanity.Common.{
  ℕ, suc, ◌+◌, ◌≡◌, refl, ap, Bool, true, false, ◌&&◌, ◌||◌, ◌↔◌, ◌≢◌, inl, inr, Option, none, some,
  List, [], ◌∷◌, ◌++◌, map, arith, leb, ◌==◌, if◌then◌else◌, length, drop, All, Bool-cases,
}

abbrev pub Bytes : Type 0
Bytes = List ℕ

-- The bytes of an ASCII literal.
abbrev pub codes : String → Bytes
codes String.[] = []
codes (String.◌∷◌ c s) = code c ∷ codes s

-- `s == t`
abbrev pub str_eq : Bytes → Bytes → Bool
str_eq [] [] = true
str_eq (c ∷ s) (d ∷ t) = c == d && str_eq s t
str_eq _ _ = false

-- `strings.HasPrefix(s, prefix)`
abbrev pub has_prefix : Bytes → Bytes → Bool
has_prefix s [] = true
has_prefix [] (c ∷ p) = false
has_prefix (d ∷ s) (c ∷ p) = d == c && has_prefix s p

-- `strings.HasSuffix(s, suffix)`
unfoldable pub has_suffix : Bytes → Bytes → Bool
has_suffix [] p = str_eq [] p
has_suffix (c ∷ s) p = str_eq (c ∷ s) p || has_suffix s p

-- `strings.TrimPrefix(s, prefix)`
unfoldable pub trim_prefix : Bytes → Bytes → Bytes
trim_prefix s p = if has_prefix s p then drop (length p) s else s

-- `strings.Index(s, part)`; `none` is -1.
unfoldable pub index : Bytes → Bytes → Option ℕ
index [] part = if has_prefix [] part then some 0 else none
index (c ∷ s) part = if has_prefix (c ∷ s) part then some 0 else Option.map suc (index s part)

-- `strings.ContainsRune(s, c)` for an ASCII `c`
unfoldable pub contains : Bytes → ℕ → Bool
contains [] c = false
contains (d ∷ s) c = d == c || contains s c

abbrev pub lower_byte : ℕ → ℕ
lower_byte c = if leb b'A' c && leb c b'Z' then c + 32 else c

-- `strings.ToLower(s)`
abbrev pub to_lower : Bytes → Bytes
to_lower = map lower_byte

-- `strings.Join(parts, sep)`
abbrev pub join : List Bytes → Bytes → Bytes
join [] sep = []
join (p ∷ []) sep = p
join (p ∷ q ∷ ps) sep = p ++ (sep ++ join (q ∷ ps) sep)

-- `unicode.IsSpace` on ASCII
unfoldable pub is_space : ℕ → Bool
is_space c = (leb 9 c && leb c 13) || c == b' '

abbrev flush : Bytes → List Bytes
flush [] = []
flush (c ∷ word) = (c ∷ word) ∷ []

-- The loop of `strings.Fields`: `word` is the field that has been begun.
fields_loop : Bytes → Bytes → List Bytes
fields_loop [] word = flush word
fields_loop (c ∷ s) word = elim (is_space c) [
  | true ↦ flush word ++ fields_loop s []
  | false ↦ fields_loop s (word ++ c ∷ [])
]

-- `strings.Fields(s)`
unfoldable pub fields : Bytes → List Bytes
unfolding fields_loop is_space
fields s = fields_loop s []

unfoldable trim_left : Bytes → Bytes
trim_left [] = []
trim_left (c ∷ s) = if is_space c then trim_left s else c ∷ s

abbrev keep : ℕ → Bytes → Bytes
keep c [] = if is_space c then [] else c ∷ []
keep c (d ∷ s) = c ∷ d ∷ s

unfoldable trim_right : Bytes → Bytes
trim_right [] = []
trim_right (c ∷ s) = keep c (trim_right s)

-- `strings.TrimSpace(s)`
unfoldable pub trim_space : Bytes → Bytes
unfolding trim_left trim_right is_space
trim_space s = trim_right (trim_left s)

-- No byte of a text is `b`.
abbrev pub Lacks : ℕ → Bytes → Type 0
Lacks b = All (λ c. c ≢ b)

pub str_eq_iff : (s t : Bytes) → (str_eq s t ≡ true) ↔ (s ≡ t)
str_eq_iff [] [] = ground arith
str_eq_iff [] (d ∷ t) = ground arith
str_eq_iff (c ∷ s) [] = ground arith
str_eq_iff (c ∷ s) (d ∷ t) = ground (arith, str_eq_iff s t)

pub str_eq_refl : (s : Bytes) → str_eq s s ≡ true
str_eq_refl s = (str_eq_iff s s).1 refl

-- A prefix that is there can be cut off.
pub has_prefix→append : (s p : Bytes) → has_prefix s p ≡ true → s ≡ p ++ drop (length p) s
has_prefix→append s [] h = refl
has_prefix→append [] (c ∷ p) h = cc
has_prefix→append (d ∷ s) (c ∷ p) h = ground (arith, has_prefix→append s p)

pub has_prefix-append : (p s : Bytes) → has_prefix (p ++ s) p ≡ true
has_prefix-append [] s = refl
has_prefix-append (c ∷ p) s = ground (arith, has_prefix-append p s)

pub has_suffix→append : (s p : Bytes) → has_suffix s p ≡ true → (t : Bytes) × (s ≡ t ++ p)
unfolding has_suffix
has_suffix→append [] p h = ([], (str_eq_iff [] p).0 h)
has_suffix→append (c ∷ s) p h = elim (Bool-cases (str_eq (c ∷ s) p)) [
  | inl e ↦ ([], (str_eq_iff (c ∷ s) p).0 e)
  | inr e ↦ let (t, q) = has_suffix→append s p (ground arith) in (c ∷ t, ap (◌∷◌ c) q)
]

pub has_suffix_self : (p : Bytes) → has_suffix p p ≡ true
unfolding has_suffix
has_suffix_self [] = refl
has_suffix_self (c ∷ p) = ground (arith, str_eq_refl (c ∷ p))

pub has_suffix-append : (t p : Bytes) → has_suffix (t ++ p) p ≡ true
unfolding has_suffix
has_suffix-append [] p = has_suffix_self p
has_suffix-append (c ∷ t) p = ground (arith, has_suffix-append t p)

pub contains→Lacks : (s : Bytes) (c : ℕ) → contains s c ≡ false → Lacks c s
unfolding contains
contains→Lacks [] c h = tt
contains→Lacks (d ∷ s) c h = ground (arith, contains→Lacks s c)

pub Lacks→contains : (s : Bytes) (c : ℕ) → Lacks c s → contains s c ≡ false
unfolding contains
Lacks→contains [] c h = refl
Lacks→contains (d ∷ s) c h = ground (arith, Lacks→contains s c)

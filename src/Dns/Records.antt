-- ===== src/Dns/Records.antt =====
-- internal/dns/template.go, `matchRecords` and `tryAugment`: are the values, in some order, matched one
-- by one by the patterns? Exact patterns are consumed first; the globs are assigned by augmenting paths.
pub mod Total
pub mod Augment
pub mod Adjacent
pub mod Assigned
pub mod Refused
use dnsanity.Common.{
  ℕ, zero, suc, ◌-◌, Bool, true, false, not, ◌&&◌, List, [], ◌∷◌, ◌++◌, Option, none, some, length,
  ◌==◌, if◌then◌else◌, set,
}
use dnsanity.Text.{Bytes, str_eq, contains, to_lower}
use dnsanity.Dns.Glob.{glob_match}

-- `map[string]int`: each key once. The order in which the program ranges over it is a parameter below.
abbrev pub Counts : Type 0
Counts = List (Bytes × ℕ)

-- `m[key]`, 0 where the key is missing
pub count_of : Counts → Bytes → ℕ
count_of [] key = 0
count_of ((k, n) ∷ m) key = if str_eq k key then n else count_of m key

-- `m[key] = f(m[key])`
pub update_count : (ℕ → ℕ) → Bytes → Counts → Counts
update_count f key [] = (key, f 0) ∷ []
update_count f key ((k, n) ∷ m) =
    if str_eq k key then (k, f n) ∷ m else (k, n) ∷ update_count f key m

-- `for _, value := range values { valueCounts[strings.ToLower(value)]++ }`
pub count_values : List Bytes → Counts → Counts
count_values [] counts = counts
count_values (value ∷ values) counts =
    count_values values (update_count suc (to_lower value) counts)

-- Phase 1: the globs and what is left of the counts; `none` where the function returns false.
pub consume : List Bytes → Counts → List Bytes → Option (List Bytes × Counts)
consume [] counts globs = some (globs, counts)
consume (pattern ∷ patterns) counts globs =
    let p = to_lower pattern in
    let exact = consume patterns (update_count (λ n. n - 1) p counts) globs in
    let glob = consume patterns counts (globs ++ p ∷ []) in
    if not (contains p b'*') then if count_of counts p == 0 then none else exact else glob

-- Phase 2: `for value, count := range valueCounts`, over the entries in the order of that loop
abbrev copies : ℕ → Bytes → List Bytes
copies zero value = []
copies (suc n) value = value ∷ copies n value

pub remaining_values : Counts → List Bytes
remaining_values [] = []
remaining_values ((value, n) ∷ m) = copies n value ++ remaining_values m

-- Phase 3: `adj[i]`, the places of the values that a glob matches
pub adjacent : Bytes → ℕ → List Bytes → List ℕ
adjacent pattern j [] = []
adjacent pattern j (value ∷ values) =
    let rest = adjacent pattern (suc j) values in
    if glob_match pattern value then j ∷ rest else rest

-- `adj`; `none` where a glob matches no value and the function returns false.
pub adjacency : List Bytes → List Bytes → Option (List (List ℕ))
adjacency [] values = some []
adjacency (pattern ∷ globs) values = elim (adjacent pattern 0 values) [
  | [] ↦ none
  | j ∷ js ↦ elim (adjacency globs values) [ none ↦ none | some adj ↦ some ((j ∷ js) ∷ adj) ]
]

-- What `tryAugment` writes: `visited`, and `valueToPattern` with `none` for -1.
pub record Search : Type 0 where
  pub visited : List Bool
  pub assigned : List (Option ℕ)

abbrev pub is_visited : List Bool → ℕ → Bool
is_visited [] v = false
is_visited (b ∷ bs) zero = b
is_visited (b ∷ bs) (suc v) = is_visited bs v

abbrev pub assigned_to : List (Option ℕ) → ℕ → Option ℕ
assigned_to [] v = none
assigned_to (o ∷ os) zero = o
assigned_to (o ∷ os) (suc v) = assigned_to os v

abbrev pub neighbours : List (List ℕ) → ℕ → List ℕ
neighbours [] p = []
neighbours (row ∷ adj) zero = row
neighbours (row ∷ adj) (suc p) = neighbours adj p

abbrev pub visit : ℕ → Search → Search
visit v st = record st { visited = set st.visited v true }

abbrev pub assign : ℕ → ℕ → Search → Search
assign v p st = record st { assigned = set st.assigned v (some p) }

-- A run of `tryAugment`: the search and its answer, or `none` where the fuel ran out.
abbrev pub Augment : Type 0
Augment = Search → Option (Search × Bool)

-- The loop of `tryAugment` over a pattern's neighbours, with the recursive call as `again`
pub try_values : (ℕ → Augment) → ℕ → List ℕ → Augment
try_values again p [] st = some (st, false)
try_values again p (v ∷ vs) st = elim (is_visited st.visited v) [
  | true ↦ try_values again p vs st
  | false ↦ elim (assigned_to st.assigned v) [
    | none ↦ some (assign v p (visit v st), true)
    | some q ↦ elim (again q (visit v st)) [
      | none ↦ none
      | some (st', true) ↦ some (assign v p st', true)
      | some (st', false) ↦ try_values again p vs st'
    ]
  ]
]

-- `tryAugment`
pub try_augment : ℕ → List (List ℕ) → ℕ → Augment
try_augment zero adj p st = none
try_augment (suc f) adj p st = try_values (try_augment f adj) p (neighbours adj p) st

abbrev pub unvisited : List Bytes → List Bool
unvisited [] = []
unvisited (v ∷ vs) = false ∷ unvisited vs

abbrev pub unassigned : List Bytes → List (Option ℕ)
unassigned [] = []
unassigned (v ∷ vs) = none ∷ unassigned vs

-- `for patternIdx := range globs`: the rounds from `p` on. A call of `tryAugment` is given one unit of
-- fuel for each value and one more.
pub assign_globs : List Bytes → List (List ℕ) → ℕ → List Bytes → List (Option ℕ) → Option Bool
assign_globs values adj p [] assigned = some true
assign_globs values adj p (glob ∷ globs) assigned =
    elim (try_augment (suc (length values)) adj p
      (record { visited = unvisited values; assigned = assigned })) [
        | none ↦ none
        | some (st, true) ↦ assign_globs values adj (suc p) globs st.assigned
        | some (st, false) ↦ some false
      ]

-- Phases 2 and 3. The answer is `none` only if fuel ran out.
unfoldable pub match_globs : List Bytes → List Bytes → Option Bool
unfolding assign_globs try_augment try_values adjacency adjacent glob_match
match_globs globs values =
    if not (length values == length globs) then some false else elim (adjacency globs values) [
      | none ↦ some false
      | some adj ↦ assign_globs values adj 0 globs (unassigned values)
    ]

-- `matchRecords`. `order` is the order in which the program ranges over the map.
module _ (order : Counts → Counts) where
  pub match_rest : List Bytes × Counts → Option Bool
  match_rest ([], counts) = some true
  match_rest (glob ∷ globs, counts) = match_globs (glob ∷ globs) (remaining_values (order counts))

  unfoldable pub match_records : List Bytes → List Bytes → Option Bool
  unfolding match_rest match_globs assign_globs try_augment try_values adjacency adjacent
      remaining_values consume count_values update_count count_of glob_match
  match_records patterns values =
      if not (length patterns == length values)
      then some false
      else if length patterns == 0 && length values == 0
      then some true
      else elim (consume patterns (count_values values []) []) [
        | none ↦ some false
        | some rest ↦ match_rest rest
      ]

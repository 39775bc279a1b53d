-- ===== src/Dnsanitize/Once/Loads.antt =====
-- internal/dnsanitize/serverpool.go, `LoadN`: where the checks of the loaded servers are.
use dnsanity.Common.{
  ℕ, zero, suc, ◌+◌, ◌≤◌, ◌<◌, ◌≡◌, refl, subst, true, inl, inr, ◌⊎◌, [], ◌∷◌, some, arith, length,
  ◌==◌, ==_iff, Bool-cases, Option-cases, get_elem?,
}
use dnsanity.Common.Int.{ℤ}
use dnsanity.Text.{Bytes}
use dnsanity.Dns.Template.{Template}
use dnsanity.Dns.Server.{ServerContext, indices, new_server_context}
use dnsanity.Dnsanitize.Slots.{find}
use dnsanity.Dnsanitize.Slots.Replace.{put-own, put-other}
use dnsanity.Dnsanitize.Pool.{can_grow, load_one, load_loop, load_n}
use dnsanity.Dnsanitize.System.{System}
use dnsanity.Dnsanitize.Invariant.{Inv}
use dnsanity.Dnsanitize.Invariant.Grown.{loop_room, loop_full, load_one-Inv}
use dnsanity.Dnsanitize.Once.{times, Once, load-Once, times-indices}

-- A server that has every one of `t` checks pending, once, and none completed or failed
pub record IsFresh (t : ℕ) (srv : ServerContext) : Type 0 where
  pub pending : (i : ℕ) → i < t → times i srv.pending_checks ≡ 1
  pub none_completed : srv.completed_count ≡ 0
  pub none_failed : srv.failed_count ≡ 0

times-indices_all :
    (i j : ℕ) (template : Template)
    → j ≤ i
    → i < j + length template
    → times i (indices j template) ≡ 1
unfolding times
times-indices_all i j [] le lt = absurd (omega arith)
times-indices_all i j (e ∷ template) le lt = elim (Bool-cases (j == i)) [
  | inl same ↦
      rw same
        (omega (arith, (times-indices i (suc j) template).1 (omega (arith, (==_iff j i).0 same))))
  | inr other ↦ rw other (
      omega (
        arith,
        times-indices_all i (suc j) template (ground (arith, other, ==_iff j i)) (omega arith),
      ))
]

new_server_context-IsFresh :
    (ip : Bytes) (template : Template) (max_attempts : ℤ)
    → IsFresh (length template) (new_server_context ip template max_attempts)
unfolding new_server_context
new_server_context-IsFresh ip template max_attempts = record {
  pending = λ i lt. times-indices_all i 0 template (omega arith) (omega arith);
  none_completed = refl;
  none_failed = refl;
}

-- What loading leaves of a system: the invariant, each check in one place at most, and only servers that were
-- there or are fresh
pub record IsLoaded (t : ℕ) (old sys : System) : Type 0 where
  pub valid : Inv t sys
  pub once : Once sys
  pub old_or_fresh :
      (k : ℕ) (srv : ServerContext)
      → find k sys.pool.pool ≡ some srv
      → (find k old.pool.pool ≡ some srv) ⊎ IsFresh t srv

module _ (t : ℕ) (pos_t : 0 < t) (old : System) where
  load_one-IsLoaded :
      (sys : System)
      → can_grow sys.pool ≡ true
      → IsLoaded t old sys
      → IsLoaded t old (record sys { pool = load_one sys.pool })
  unfolding load_one
  load_one-IsLoaded sys room h =
      elim (Option-cases (get_elem? sys.pool.queue sys.pool.dequeue_idx)) [
        | inl e ↦ rw e h
        | inr (ip, e) ↦
            let valid' : Inv t (record sys { pool = load_one sys.pool }) =
              load_one-Inv t pos_t sys h.valid room in
            rw e (record {
              valid = rw e at valid';
              once = load-Once t ip sys h.valid h.once;
              old_or_fresh = λ k srv found. elim (Bool-cases (sys.pool.next_slot == k)) [
                | inl own ↦ inr (
                    subst (IsFresh t) (put-own sys.pool.next_slot k _ srv sys.pool.pool own found) (
                      subst
                        (λ n.
                          IsFresh n (new_server_context ip sys.pool.template sys.pool.max_attempts))
                        h.valid.pool_ok.checks
                        (new_server_context-IsFresh ip sys.pool.template sys.pool.max_attempts)))
                | inr other ↦
                    h.old_or_fresh k srv
                      (put-other sys.pool.next_slot k _ srv sys.pool.pool other found)
              ];
            })
      ]

  load_loop-IsLoaded :
      (n inserted : ℕ) (sys : System)
      → IsLoaded t old sys
      → IsLoaded t old (record sys { pool = (load_loop n inserted sys.pool).0 })
  load_loop-IsLoaded zero inserted sys h = unfold load_loop in h
  load_loop-IsLoaded (suc n) inserted sys h = elim (Bool-cases (can_grow sys.pool)) [
    | inl room ↦ rw (loop_room n inserted sys.pool room) (
        load_loop-IsLoaded n (suc inserted) (record sys { pool = load_one sys.pool })
          (load_one-IsLoaded sys room h))
    | inr full ↦ rw (loop_full n inserted sys.pool full) h
  ]

-- Where the invariant holds for `t` checks, at least one, and each check of a server in the pool is in one
-- place at most, loading up to `n` servers from the queue keeps both, and each server then in the pool was
-- there or has every check pending, once, and none completed or failed.
pub load_n-IsLoaded :
    (t : ℕ)
    → 0 < t
    → (n : ℕ) (sys : System) → Inv t sys
    → Once sys
    → IsLoaded t sys (record sys { pool = (load_n n sys.pool).0 })
unfolding load_n
load_n-IsLoaded t pos_t n sys inv h =
    load_loop-IsLoaded t pos_t sys n 0 sys
      (record { valid = inv; once = h; old_or_fresh = λ k srv found. inl found })

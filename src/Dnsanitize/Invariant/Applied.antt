-- ===== src/Dnsanitize/Invariant/Applied.antt =====
-- What `applyResults` does to a server in the pool and to the counters of the checks.
use dnsanity.Common.{
  ℕ, suc, ◌+◌, ◌-◌, ◌<◌, ◌≡◌, ◌≢◌, refl, sym, ap, ◌∙◌, true, false, ◌⊎◌, false≢true, ◌&&◌, inl, inr,
  ◌∷◌, some, arith, length, length-set, get_elem?-lt, set, Bool-cases, if◌then◌else◌,
}
use dnsanity.Common.Int.{ℤ, pos, ◌+ℤ◌, ◌-ℤ◌, ltb_ℤ, leb_ℤ, int_laws}
use dnsanity.Dns.Answer.{is_worth_retrying}
use dnsanity.Dns.Server.{CheckContext, ServerContext, finished}
use dnsanity.Report.Status.{StatusReporter, add_done_checks}
use dnsanity.Dnsanitize.System.{WorkerResult}
use dnsanity.Dnsanitize.Collect.{apply_to, apply_results}
use dnsanity.Dnsanitize.Invariant.{IsActive, open_checks}

-- The open checks of a server after its result: none if it is finished, since it leaves the pool.
abbrev pub open_after : ℕ → ServerContext → ℕ
open_after t srv = if finished srv then 0 else open_checks t srv

-- Three moves of the counters: a check done, a check done and one more planned, and a check done with
-- `c` planned ones given up.
one_done :
    (total done : ℤ) (n : ℕ) → total ≡ done +ℤ pos (suc n) → total +ℤ pos 0 ≡ done +ℤ pos 1 +ℤ pos n
one_done total done n e = rw e (omega int_laws)

one_again :
    (total done : ℤ) (n : ℕ) → total ≡ done +ℤ pos n → total +ℤ pos 1 ≡ done +ℤ pos 1 +ℤ pos n
one_again total done n e = rw e (omega int_laws)

given_up :
    (total done : ℤ) (k c n : ℕ)
    → total ≡ done +ℤ pos (suc c + n)
    → total +ℤ (pos 0 -ℤ (pos (k + c) -ℤ pos k)) ≡ done +ℤ pos 1 +ℤ pos (0 + n)
given_up total done k c n e = rw e (omega int_laws)

finished-false :
    (srv : ServerContext) → finished srv ≡ false → srv.completed_count ≢ length srv.checks
unfolding finished
finished-false srv h e = ground arith

finished-disabled : (srv : ServerContext) → srv.disabled ≡ true → finished srv ≡ true
unfolding finished
finished-disabled srv e = rw e

-- A server that is not disabled leaves the pool when no check of it is open.
open_after-enabled :
    (t : ℕ) (srv : ServerContext)
    → srv.disabled ≡ false
    → length srv.checks ≡ t
    → open_after t srv ≡ open_checks t srv
unfolding finished
open_after-enabled t srv enabled checks = ground arith

-- The counters of servers are those of before.
pub record SameServers (s s' : StatusReporter) : Type 0 where
  pub same_valid : s'.valid_servers ≡ s.valid_servers
  pub same_invalid : s'.invalid_servers ≡ s.invalid_servers
  pub same_total : s'.total_servers ≡ s.total_servers

module _ (t jobs : ℕ) where
  -- The result has been taken from the server's jobs, and the checks still open, with any other work
  -- `rest`, are still what the counters lack.
  pub record Applied (srv : ServerContext) (s : StatusReporter) (srv' : ServerContext)
      (s' : StatusReporter) : Type 0 where
    pub still_active : finished srv' ≡ false → IsActive t jobs srv'
    pub balanced :
        (rest : ℕ)
        → s.total_checks ≡ s.done_checks +ℤ pos (open_checks t srv + rest)
        → s'.total_checks ≡ s'.done_checks +ℤ pos (open_after t srv' + rest)
    pub same_servers : SameServers s s'

  -- A completed check, where the server is not disabled
  completed-Applied :
      (srv srv' : ServerContext) (s : StatusReporter)
      → IsActive t (suc jobs) srv
      → length srv'.checks ≡ t
      → srv'.completed_count ≡ srv.completed_count + 1
      → srv'.disabled ≡ false
      → srv'.pending_checks ≡ srv.pending_checks
      → Applied srv s srv' (add_done_checks (pos 1) (pos 0) s)
  unfolding add_done_checks
  completed-Applied srv srv' s h checks completed enabled pending = record {
    still_active = λ going. record {
      all_checks = checks;
      each_once = omega (arith, ap length pending);
      unfinished = omega (arith, finished-false srv' going);
      enabled = enabled;
      in_range = rw pending h.in_range;
    };
    balanced = λ rest e. rw (open_after-enabled t srv' enabled checks) (
        one_done s.total_checks s.done_checks (open_checks t srv' + rest)
          (e ∙ ap (λ n. s.done_checks +ℤ pos n) (omega (arith, h.unfinished))));
    same_servers = record { same_valid = refl; same_invalid = refl; same_total = refl };
  }

  -- A check that goes back to the front of the queue
  again-Applied :
      (srv srv' : ServerContext) (s : StatusReporter) (check_id : ℕ)
      → IsActive t (suc jobs) srv
      → check_id < t
      → length srv'.checks ≡ t
      → srv'.completed_count ≡ srv.completed_count
      → srv'.disabled ≡ false
      → srv'.pending_checks ≡ check_id ∷ srv.pending_checks
      → Applied srv s srv' (add_done_checks (pos 1) (pos 1) s)
  unfolding add_done_checks
  again-Applied srv srv' s check_id h lt checks completed enabled pending = record {
    still_active = λ going. record {
      all_checks = checks;
      each_once = omega (arith, ap length pending);
      unfinished = omega (arith, h.unfinished);
      enabled = enabled;
      in_range = rw pending (lt, h.in_range);
    };
    balanced = λ rest e. rw (open_after-enabled t srv' enabled checks) (
        one_again s.total_checks s.done_checks (open_checks t srv' + rest)
          (e ∙ ap (λ n. s.done_checks +ℤ pos (t - n + rest)) (sym completed)));
    same_servers = record { same_valid = refl; same_invalid = refl; same_total = refl };
  }

  -- A failure that reaches the threshold: the checks that are still open are given up.
  dropped-Applied :
      (srv srv' : ServerContext) (s : StatusReporter)
      → IsActive t (suc jobs) srv
      → length srv'.checks ≡ t
      → srv'.completed_count ≡ srv.completed_count + 1
      → srv'.disabled ≡ true
      → Applied srv s srv' (
          add_done_checks
            (pos 1)
            (pos 0 -ℤ (pos (length srv'.checks) -ℤ pos srv'.completed_count))
            s)
  unfolding add_done_checks
  dropped-Applied srv srv' s h checks completed disabled = record {
    still_active = λ going. absurd (false≢true (sym going ∙ finished-disabled srv' disabled));
    balanced = λ rest e.
        let c = t - srv'.completed_count in
        let k = srv'.completed_count in
        let all : length srv'.checks ≡ k + c = omega (arith, h.unfinished) in
        rw (finished-disabled srv' disabled, all)
          (given_up s.total_checks s.done_checks k c rest
            (e ∙ ap (λ n. s.done_checks +ℤ pos n) (omega (arith, h.unfinished))));
    same_servers = record { same_valid = refl; same_invalid = refl; same_total = refl };
  }

  apply_to-Applied :
      (chk : CheckContext) (srv : ServerContext) (res : WorkerResult) (srv_max_failures : ℤ)
      (s : StatusReporter)
      → IsActive t (suc jobs) srv
      → res.check_id < t
      → let r = apply_to chk srv res srv_max_failures s in Applied srv s r.0 r.1
  apply_to-Applied chk srv res srv_max_failures s h lt =
      split (Bool-cases res.passed)
        (Bool-cases (ltb_ℤ (pos 0) left && is_worth_retrying (some res.answer)))
        (Bool-cases (leb_ℤ srv_max_failures (pos (srv.failed_count + 1))))
    where
      left : ℤ
      left = chk.attempts_left -ℤ pos 1

      same_length : (c : CheckContext) → length (set srv.checks res.check_id c) ≡ t
      same_length c = length-set srv.checks res.check_id c ∙ h.all_checks

      split :
          (res.passed ≡ true) ⊎ (res.passed ≡ false)
          → ((ltb_ℤ (pos 0) left && is_worth_retrying (some res.answer)) ≡ true)
            ⊎ ((ltb_ℤ (pos 0) left && is_worth_retrying (some res.answer)) ≡ false)
          → (leb_ℤ srv_max_failures (pos (srv.failed_count + 1)) ≡ true)
            ⊎ (leb_ℤ srv_max_failures (pos (srv.failed_count + 1)) ≡ false)
          → let r = apply_to chk srv res srv_max_failures s in Applied srv s r.0 r.1
      split (inl pass) again drop =
          unfold apply_to in
          rw pass (completed-Applied srv _ s h (same_length _) refl h.enabled refl)
      split (inr fail) (inl again) drop =
          unfold apply_to in
          rw (fail, again)
            (again-Applied srv _ s res.check_id h lt (same_length _) refl h.enabled refl)
      split (inr fail) (inr last) (inl drop) =
          unfold apply_to in
          rw (fail, last, drop) (dropped-Applied srv _ s h (same_length _) refl refl)
      split (inr fail) (inr last) (inr stay) =
          unfold apply_to in
          rw (fail, last, stay) (completed-Applied srv _ s h (same_length _) refl h.enabled refl)

  -- The result of an active server, applied
  pub apply_results-Applied :
      (srv : ServerContext) (res : WorkerResult) (srv_max_failures : ℤ) (s : StatusReporter)
      → IsActive t (suc jobs) srv
      → res.check_id < t
      → let r = apply_results srv res srv_max_failures s in Applied srv s r.0 r.1
  apply_results-Applied srv res srv_max_failures s h lt =
      let (chk, found) = get_elem?-lt srv.checks res.check_id (omega (arith, h.all_checks)) in
      unfold apply_results in rw found (apply_to-Applied chk srv res srv_max_failures s h lt)

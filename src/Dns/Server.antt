-- ===== src/Dns/Server.antt =====
-- internal/dns/servercontext.go: the state of one server under test.
use dnsanity.Common.{ℕ, suc, Bool, false, ◌||◌, List, [], ◌∷◌, length, ◌==◌}
use dnsanity.Common.Int.{ℤ}
use dnsanity.Text.{Bytes, codes}
use dnsanity.Dns.Answer.{DnsAnswer}
use dnsanity.Dns.Template.{TemplateEntry, Template}

-- `CheckContext`. `Answer` is never nil.
pub record CheckContext : Type 0 where
  pub answer : DnsAnswer
  pub passed : Bool
  pub attempts_left : ℤ
  pub max_attempts : ℤ

-- `ServerContext`. `cancelled` tells whether `CancelCtx` was called; a time is a number of nanoseconds,
-- 0 for the zero time.
pub record ServerContext : Type 0 where
  pub cancelled : Bool
  pub disabled : Bool
  pub ip_address : Bytes
  pub failed_count : ℕ
  pub completed_count : ℕ
  pub next_query_at : ℕ
  pub pending_checks : List ℕ
  pub checks : List CheckContext

abbrev pub skipped : Bytes
skipped = codes "SKIPPED"

abbrev pub new_check : ℤ → TemplateEntry → CheckContext
new_check max_attempts entry = record {
  answer = record {
    domain = entry.domain;
    content = record { status = skipped; a = []; cname = [] };
    truncated = false;
  };
  passed = false;
  attempts_left = max_attempts;
  max_attempts = max_attempts;
}

-- The loop of `NewServerContext`, for the indices from `i` on
abbrev pub indices : ℕ → Template → List ℕ
indices i [] = []
indices i (entry ∷ template) = i ∷ indices (suc i) template

abbrev pub new_checks : ℤ → Template → List CheckContext
new_checks max_attempts [] = []
new_checks max_attempts (entry ∷ template) =
    new_check max_attempts entry ∷ new_checks max_attempts template

-- `NewServerContext`
unfoldable pub new_server_context : Bytes → Template → ℤ → ServerContext
new_server_context ip_address template max_attempts = record {
  cancelled = false;
  disabled = false;
  ip_address = ip_address;
  failed_count = 0;
  completed_count = 0;
  next_query_at = 0;
  pending_checks = indices 0 template;
  checks = new_checks max_attempts template;
}

-- `ServerContext.Finished`
unfoldable pub finished : ServerContext → Bool
finished srv = srv.disabled || srv.completed_count == length srv.checks

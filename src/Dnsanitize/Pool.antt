-- ===== src/Dnsanitize/Pool.antt =====
-- internal/dnsanitize/serverpool.go: servers are taken from the queue in order and loaded into slots.
use dnsanity.Common.{
  ℕ, zero, suc, ◌-◌, Bool, true, false, not, ◌&&◌, List, [], Option, none, some, length, ltb, ◌==◌,
  get_elem?,
}
use dnsanity.Common.Int.{ℤ}
use dnsanity.Text.{Bytes}
use dnsanity.Dns.Template.{Template}
use dnsanity.Dns.Server.{ServerContext, new_server_context}
use dnsanity.Dnsanitize.Slots.{find, put, delete}

-- `ServerPool`
pub record ServerPool : Type 0 where
  pub template : Template
  pub queue : List Bytes
  pub dequeue_idx : ℕ
  pub pool : List (ℕ × ServerContext)
  pub next_slot : ℕ
  pub max_pool_sz : ℕ
  pub max_attempts : ℤ

-- `NewServerPool`
unfoldable pub new_server_pool : ℕ → List Bytes → Template → ℤ → ServerPool
new_server_pool max_pool_sz server_ips template max_attempts = record {
  template = template;
  queue = server_ips;
  dequeue_idx = 0;
  pool = [];
  next_slot = 0;
  max_pool_sz = max_pool_sz;
  max_attempts = max_attempts;
}

-- `Len`
abbrev pub len : ServerPool → ℕ
len sp = length sp.pool

-- `NumPending`
abbrev pub num_pending : ServerPool → ℕ
num_pending sp = length sp.queue - sp.dequeue_idx

-- `IsDrained`
unfoldable pub is_drained : ServerPool → Bool
is_drained sp = len sp == 0 && num_pending sp == 0

-- `IsFull`
unfoldable pub is_full : ServerPool → Bool
is_full sp = len sp == sp.max_pool_sz

-- `CanGrow`
unfoldable pub can_grow : ServerPool → Bool
unfolding is_full
can_grow sp = not (is_full sp) && ltb 0 (num_pending sp)

-- `Get`
unfoldable pub get : ServerPool → ℕ → Option ServerContext
unfolding find
get sp slot = find slot sp.pool

-- `Unload`
unfoldable pub unload : ServerPool → ℕ → ServerPool
unfolding delete
unload sp slot = record sp { pool = delete slot sp.pool }

-- The body of the loop of `LoadN`. Its guard keeps the index in range, so `none` is not met.
abbrev load_at : Option Bytes → ServerPool → ServerPool
load_at none sp = sp
load_at (some ip) sp = record sp {
  dequeue_idx = suc sp.dequeue_idx;
  pool = put sp.next_slot (new_server_context ip sp.template sp.max_attempts) sp.pool;
  next_slot = suc sp.next_slot;
}

unfoldable pub load_one : ServerPool → ServerPool
unfolding put
load_one sp = load_at (get_elem? sp.queue sp.dequeue_idx) sp

-- The loop of `LoadN`, with the number of rounds that `inserted < n` still admits
unfoldable pub load_loop : ℕ → ℕ → ServerPool → ServerPool × ℕ
load_loop zero inserted sp = (sp, inserted)
load_loop (suc n) inserted sp = elim (can_grow sp) [
  | true ↦ load_loop n (suc inserted) (load_one sp)
  | false ↦ (sp, inserted)
]

-- `LoadN`: the new pool and the number of servers inserted
unfoldable pub load_n : ℕ → ServerPool → ServerPool × ℕ
unfolding load_loop load_one can_grow
load_n n sp = load_loop n 0 sp

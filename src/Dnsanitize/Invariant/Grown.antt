-- ===== src/Dnsanitize/Invariant/Grown.antt =====
-- internal/dnsanitize/serverpool.go: the invariant over `LoadN`.
use dnsanity.Common.{
  ℕ, zero, suc, ◌+◌, ◌*◌, ◌≤◌, ◌<◌, ◌≡◌, ◌≢◌, refl, sym, ap, subst, ◌∙◌, true, false, inl, inr, [],
  ◌∷◌, none, some, arith, length, ltb_iff, ◌==◌, ==_iff, All, Bool-cases, Option-cases, get_elem?,
}
use dnsanity.Common.Int.{ℤ, pos, ◌+ℤ◌}
use dnsanity.Text.{Bytes}
use dnsanity.Dns.Template.{Template}
use dnsanity.Dns.Server.{ServerContext, indices, new_checks, new_server_context}
use dnsanity.Dnsanitize.Slots.{find, put, find-put}
use dnsanity.Dnsanitize.Slots.Sums.{Unique-put, total-put_new, total-one}
use dnsanity.Dnsanitize.Pool.{
  ServerPool, len, num_pending, is_full, can_grow, load_one, load_loop, load_n,
}
use dnsanity.Dnsanitize.System.{System}
use dnsanity.Dnsanitize.Invariant.{IsActive, Inv, open_checks, open_work}
use dnsanity.Dnsanitize.Invariant.Counting.{jobs_of}

length-indices : (i : ℕ) (template : Template) → length (indices i template) ≡ length template
length-indices i [] = refl
length-indices i (e ∷ template) = omega (arith, length-indices (suc i) template)

length-new_checks : (n : ℤ) (template : Template) → length (new_checks n template) ≡ length template
length-new_checks n [] = refl
length-new_checks n (e ∷ template) = omega (arith, length-new_checks n template)

indices-in_range :
    (i n : ℕ) (template : Template)
    → i + length template ≤ n
    → All (λ k. k < n) (indices i template)
indices-in_range i n [] h = tt
indices-in_range i n (e ∷ template) h =
    (omega arith, indices-in_range (suc i) n template (omega arith))

-- A server that has just been loaded has all its checks pending.
new_server_context-IsActive :
    (t : ℕ) (ip : Bytes) (template : Template) (max_attempts : ℤ)
    → length template ≡ t
    → 0 < t
    → IsActive t 0 (new_server_context ip template max_attempts)
unfolding new_server_context
new_server_context-IsActive t ip template max_attempts e pos_t = record {
  all_checks = length-new_checks max_attempts template ∙ e;
  each_once = omega (arith, length-indices 0 template, e);
  unfinished = pos_t;
  enabled = refl;
  in_range = indices-in_range 0 t template (omega (arith, e));
}

times_suc : (n m t : ℕ) → n ≡ suc m → n * t ≡ t + m * t
times_suc n m t e = omega (arith, ap (λ k. k * t) e)

can_grow-room :
    (sp : ServerPool) → can_grow sp ≡ true → (len sp ≢ sp.max_pool_sz) × (0 < num_pending sp)
unfolding can_grow is_full
can_grow-room sp e = ground (arith, ==_iff (len sp) sp.max_pool_sz, ltb_iff 0 (num_pending sp))

pub loop_room :
    (n inserted : ℕ) (sp : ServerPool)
    → can_grow sp ≡ true
    → load_loop (suc n) inserted sp ≡ load_loop n (suc inserted) (load_one sp)
unfolding load_loop
loop_room n inserted sp e = rw (e, load_loop)

pub loop_full :
    (n inserted : ℕ) (sp : ServerPool)
    → can_grow sp ≡ false
    → load_loop (suc n) inserted sp ≡ (sp, inserted)
unfolding load_loop
loop_full n inserted sp e = rw (e, load_loop)

module _ (t : ℕ) (pos_t : 0 < t) where
  module _ (ip : Bytes) (sys : System) (h : Inv t sys) (room : can_grow sys.pool ≡ true) where
    abbrev pub loaded : ServerContext
    loaded = new_server_context ip sys.pool.template sys.pool.max_attempts

    abbrev pub larger : ServerPool
    larger = record (sys.pool) {
      dequeue_idx = suc sys.pool.dequeue_idx;
      pool = put sys.pool.next_slot loaded sys.pool.pool;
      next_slot = suc sys.pool.next_slot;
    }

    free_slot : find sys.pool.next_slot sys.pool.pool ≡ none
    free_slot = h.pool_ok.fresh sys.pool.next_slot (omega arith)

    one_more : length larger.pool ≡ length sys.pool.pool + 1
    one_more = omega (
      arith,
      total-put_new (λ _. 1) sys.pool.next_slot loaded sys.pool.pool free_slot,
      total-one larger.pool,
      total-one sys.pool.pool,
    )

    one_fewer : num_pending sys.pool ≡ suc (num_pending larger)
    one_fewer = omega (arith, (can_grow-room sys.pool room).1)

    opened : open_checks t loaded ≡ t
    opened = unfold new_server_context in omega arith

    new_jobs : jobs_of sys.pool.next_slot sys.running sys.results ≡ 0
    new_jobs = h.pipeline.fresh_jobs sys.pool.next_slot (omega arith)

    same_work : open_work t sys.pool ≡ open_work t larger
    same_work = omega (
      arith,
      total-put_new (open_checks t) sys.pool.next_slot loaded sys.pool.pool free_slot,
      opened,
      times_suc (num_pending sys.pool) (num_pending larger) t one_fewer,
    )

    pub load-Inv : Inv t (record sys { pool = larger })
    load-Inv = record {
      pool_ok = record {
        unique = Unique-put sys.pool.next_slot loaded sys.pool.pool h.pool_ok.unique;
        fresh = λ k lt. still_fresh k lt;
        in_size = omega (arith, one_more, h.pool_ok.in_size, (can_grow-room sys.pool room).0);
        in_queue = omega (arith, one_fewer);
        checks = h.pool_ok.checks;
      };
      active = λ k x e. elim (Bool-cases (sys.pool.next_slot == k)) [
        | inl same ↦
            let k_eq : sys.pool.next_slot ≡ k = (==_iff sys.pool.next_slot k).0 same in
            subst (λ y. IsActive t (jobs_of k sys.running sys.results) y) (own k x same e)
              (subst (λ j. IsActive t (jobs_of j sys.running sys.results) loaded) k_eq
                (subst (λ n. IsActive t n loaded) (sym new_jobs)
                  (new_server_context-IsActive t ip sys.pool.template sys.pool.max_attempts
                    h.pool_ok.checks pos_t)))
        | inr differs ↦ h.active k x (other k x differs e)
      ];
      pipeline = record {
        slots = h.pipeline.slots;
        room = h.pipeline.room;
        channel = h.pipeline.channel;
        running_in_range = h.pipeline.running_in_range;
        results_in_range = h.pipeline.results_in_range;
        fresh_jobs = λ k lt. h.pipeline.fresh_jobs k (omega arith);
        counted = h.pipeline.counted;
      };
      bucket = h.bucket;
      accounted = record {
        checks_left = h.accounted.checks_left ∙ ap (λ n. sys.status.done_checks +ℤ pos n) same_work;
        servers_left = omega (arith, h.accounted.servers_left, one_more, one_fewer);
      };
    }
      where
        still_fresh : (k : ℕ) → suc sys.pool.next_slot ≤ k → find k larger.pool ≡ none
        still_fresh k lt = ground (
          arith,
          find-put sys.pool.next_slot k loaded sys.pool.pool,
          h.pool_ok.fresh k,
          ==_iff sys.pool.next_slot k,
        )

        own :
            (k : ℕ) (x : ServerContext)
            → (sys.pool.next_slot == k) ≡ true
            → find k larger.pool ≡ some x
            → loaded ≡ x
        own k x same e = ground (arith, find-put sys.pool.next_slot k loaded sys.pool.pool)

        other :
            (k : ℕ) (x : ServerContext)
            → (sys.pool.next_slot == k) ≡ false
            → find k larger.pool ≡ some x
            → find k sys.pool.pool ≡ some x
        other k x differs e = ground (arith, find-put sys.pool.next_slot k loaded sys.pool.pool)

  pub load_one-Inv :
      (sys : System)
      → Inv t sys
      → can_grow sys.pool ≡ true
      → Inv t (record sys { pool = load_one sys.pool })
  unfolding load_one
  load_one-Inv sys h room = elim (Option-cases (get_elem? sys.pool.queue sys.pool.dequeue_idx)) [
    | inl e ↦ rw e h
    | inr (ip, e) ↦ rw e (load-Inv ip sys h room)
  ]

  load_loop-Inv :
      (n inserted : ℕ) (sys : System)
      → Inv t sys
      → Inv t (record sys { pool = (load_loop n inserted sys.pool).0 })
  load_loop-Inv zero inserted sys h = unfold load_loop in h
  load_loop-Inv (suc n) inserted sys h = elim (Bool-cases (can_grow sys.pool)) [
    | inl room ↦ rw (loop_room n inserted sys.pool room) (
        load_loop-Inv n (suc inserted) (record sys { pool = load_one sys.pool })
          (load_one-Inv sys h room))
    | inr full ↦ rw (loop_full n inserted sys.pool full) h
  ]

  -- With at least one check, loading up to `n` servers from the queue keeps the invariant.
  pub load_n-Inv :
      (n : ℕ) (sys : System) → Inv t sys → Inv t (record sys { pool = (load_n n sys.pool).0 })
  unfolding load_n
  load_n-Inv n sys h = load_loop-Inv n 0 sys h

-- ===== src/Dnsanitize/Invariant/Collected.antt =====
-- internal/dnsanitize/dnsanitize.go, `collectLoop`: the invariant over the loop of receives.
use dnsanity.Common.{ℕ, suc, ◌≡◌, refl, inl, inr, List, [], ◌∷◌, length, List-cases, zero}
use dnsanity.Dnsanitize.Slots.{find}
use dnsanity.Dnsanitize.Pool.{get}
use dnsanity.Dnsanitize.System.{WorkerResult, System, Setup, Event, happen_all}
use dnsanity.Dnsanitize.Collect.{land, collect_one, drain, collect_loop}
use dnsanity.Dnsanitize.Invariant.{Inv}
use dnsanity.Dnsanitize.Invariant.Events.{happen_all-Inv}
use dnsanity.Dnsanitize.Invariant.Received.{receive-IsReceived}
use dnsanity.Dnsanitize.Invariant.Delivered.{deliver-Inv}

module _ (setup : Setup) (t : ℕ) where
  -- Receiving the first result of the channel keeps the invariant: one request less is in flight, the
  -- result is applied to its server if that is still in the pool, and a finished server is reported and
  -- leaves the pool.
  pub collect_one-Inv :
      (res : WorkerResult) (rest : List WorkerResult) (sys : System)
      → sys.results ≡ res ∷ rest
      → Inv t sys
      → Inv t (collect_one setup res (record sys { results = rest }))
  unfolding collect_one get
  collect_one-Inv res rest sys e h =
      deliver-Inv setup t res
        (record sys { results = rest; in_flight = land res.srv_id sys.in_flight })
        (receive-IsReceived t res rest sys e h) (find res.srv_id sys.pool.pool) refl

  pub drain-nil : (n : ℕ) (sys : System) → sys.results ≡ [] → drain setup (suc n) sys ≡ sys
  unfolding drain
  drain-nil n sys e = simp (e, drain)

  pub drain-cons :
      (n : ℕ) (sys : System) (res : WorkerResult) (rest : List WorkerResult)
      → sys.results ≡ res ∷ rest
      → drain setup (suc n) sys
        ≡ drain setup n (collect_one setup res (record sys { results = rest }))
  unfolding drain
  drain-cons n sys res rest e = rw (e, drain)

  drain-Inv : (n : ℕ) (sys : System) → Inv t sys → Inv t (drain setup n sys)
  drain-Inv zero sys h = unfold drain in h
  drain-Inv (suc n) sys h = elim (List-cases sys.results) [
    | inl e ↦ rw (drain-nil n sys e) h
    | inr (res, rest, e) ↦ rw (drain-cons n sys res rest e) (
        drain-Inv n (collect_one setup res (record sys { results = rest }))
          (collect_one-Inv res rest sys e h))
  ]

  pub loop-nil :
      (es : List Event) (more : List (List Event)) (sys : System)
      → (happen_all setup es sys).results ≡ []
      → collect_loop setup (es ∷ more) sys ≡ happen_all setup es sys
  unfolding collect_loop
  loop-nil es more sys e = rw (e, collect_loop)

  pub loop-cons :
      (es : List Event) (more : List (List Event)) (sys : System) (res : WorkerResult)
      (rest : List WorkerResult)
      → (happen_all setup es sys).results ≡ res ∷ rest
      → collect_loop setup (es ∷ more) sys
        ≡ collect_loop setup more
            (collect_one setup res (record (happen_all setup es sys) { results = rest }))
  unfolding collect_loop
  loop-cons es more sys res rest e = rw (e, collect_loop)

  -- The loop of receives keeps the invariant, whatever happens between two receives.
  pub collect_loop-Inv :
      (before : List (List Event)) (sys : System)
      → Inv t sys
      → Inv t (collect_loop setup before sys)
  collect_loop-Inv [] sys h = unfold collect_loop in drain-Inv (length sys.results) sys h
  collect_loop-Inv (es ∷ more) sys h =
      let sys' = happen_all setup es sys in
      let h' : Inv t sys' = happen_all-Inv setup t es sys h in
      elim (List-cases sys'.results) [
        | inl e ↦ rw (loop-nil es more sys e) h'
        | inr (res, rest, e) ↦ rw (loop-cons es more sys res rest e) (
            collect_loop-Inv more (collect_one setup res (record sys' { results = rest }))
              (collect_one-Inv res rest sys' e h'))
      ]

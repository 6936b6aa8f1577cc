-- ===== src/Router/ArpCache/Sweep.antt =====
-- The retransmission of ARP requests, and the end of a request that was sent five times.
use computer_networks.Prelude.{
  ℕ, ◌+◌, ◌≤◌, ◌<◌, ◌≡◌, ◌≢◌, ◌⊎◌, inl, inr, List, [], ◌∷◌, arith, All, Any, refl, map, returns,
  undefined,
}
use computer_networks.Router.ArpCache.{
  Cache, Request, handle_arpreq, sweep, expire, sr_arpcache_timeout,
}

-- The request reaches its fifth transmission in a sweep at the given time, or is past it.
abbrev pub IsDue : ℕ → Request → Type 0
IsDue now r = (5 ≤ r.times_sent) ⊎ ((r.times_sent ≡ 4) × (r.sent ≢ 0) × (r.sent + 1 < now))

sweep_returns :
    (now : ℕ) (rs : List Request)
    → All (λ r. ¬ IsDue now r) rs
    → sweep now rs ≡ returns (map (handle_arpreq now) rs)
unfolding sweep
sweep_returns now [] h = refl
sweep_returns now (r ∷ rest) h = ground (arith, sweep_returns now rest h.1, h.0)

sweep_undefined : (now : ℕ) (rs : List Request) → Any (IsDue now) rs → sweep now rs ≡ undefined
unfolding sweep
sweep_undefined now [] h = absurd h
sweep_undefined now (r ∷ rest) (inl h) = ground arith
sweep_undefined now (r ∷ rest) (inr h) = ground (arith, sweep_undefined now rest h)

-- A round of the timeout thread completes if no request is due for its fifth transmission, and then
-- handles each request once, in its place. If one is due, the round reads the link of the request
-- that it has just freed: its behaviour is undefined.
pub timeout-requests :
    (cache : Cache) (now : ℕ)
    → (All (λ r. ¬ IsDue now r) cache.requests
        → sr_arpcache_timeout now cache
          ≡ returns (record {
            entries = map (expire now) cache.entries;
            requests = map (handle_arpreq now) cache.requests;
          }))
      × (Any (IsDue now) cache.requests → sr_arpcache_timeout now cache ≡ undefined)
unfolding sr_arpcache_timeout
timeout-requests cache now = (
  (λ h. rw (sweep_returns now cache.requests h)),
  (λ h. rw (sweep_undefined now cache.requests h)),
)

-- Handling a request sends it at most once: if more than a second has passed since it was last sent
-- and it was sent less than five times, the time is noted and it counts as sent once more (or once,
-- if it never was); otherwise nothing changes. What waits for it stays in any case.
pub handle_arpreq_lem :
    (now : ℕ) (r : Request)
    → let r' = handle_arpreq now r in
      (r.sent + 1 < now
        → r.times_sent < 5
        → (r'.sent ≡ now)
          × (r.sent ≢ 0 → r'.times_sent ≡ r.times_sent + 1)
          × (r.sent ≡ 0 → r'.times_sent ≡ 1))
      × ((now ≤ r.sent + 1) ⊎ (5 ≤ r.times_sent) → r' ≡ r)
      × (r'.packets ≡ r.packets)
      × (r'.ip ≡ r.ip)
unfolding handle_arpreq
handle_arpreq_lem now r = (
  (λ a b. (ground arith, ground arith, ground arith)),
  (λ h. ground arith),
  ground arith,
  ground arith,
)

-- ===== src/Network/Connection/Backoff.antt =====
-- The delay between two attempts to connect.
use nero_consensus.Prelude.{
  ℕ, suc, ◌≡◌, refl, ap, ◌∙◌, ◌+◌, ◌*◌, ◌^◌, ◌%◌, min, List, [], ◌∷◌, length, map, arith,
}
use nero_consensus.Network.Connection.{
  Drained, on_timer, on_drained, wait, Retry, accepted, refused, attempt, run, on_connected, Turn,
}

wait-delay :
    (r : Retry) (drained : List Drained) → (wait r drained).delay ≡ min (2 * r.delay) 60_000
unfolding wait on_timer on_drained
wait-delay r [] = refl
wait-delay r (d ∷ rest) = wait-delay (on_drained d.closed d.message r) rest

wait-retry : (r : Retry) (drained : List Drained) → (wait r drained).retry ≡ (r.retry + 1) % 2 ^ 16
unfolding wait on_timer on_drained
wait-retry r [] = refl
wait-retry r (d ∷ rest) = wait-retry (on_drained d.closed d.message r) rest

doubled : (k : ℕ) → min (2 * min (200 * 2 ^ k) 60_000) 60_000 ≡ min (200 * 2 ^ (suc k)) 60_000
doubled k = omega arith

refusals_from :
    (r : Retry) (k : ℕ) (waits : List (List Drained))
    → r.delay ≡ min (200 * 2 ^ k) 60_000
    → r.retry ≡ k % 2 ^ 16
    → let r' = run r (map refused waits) in
      (r'.delay ≡ min (200 * 2 ^ (length waits + k)) 60_000)
      × (r'.retry ≡ (length waits + k) % 2 ^ 16)
unfolding run attempt
refusals_from r k [] hd hr =
    let shift : k ≡ 0 + k = omega arith in
    (hd ∙ ap (λ n. min (200 * 2 ^ n) 60_000) shift, hr ∙ ap (λ n. n % 2 ^ 16) shift)
refusals_from r k (w ∷ waits) hd hr =
    let (delay, retry) =
      refusals_from (wait r w) (suc k) waits
        (wait-delay r w ∙ ap (λ d. min (2 * d) 60_000) hd ∙ doubled k)
        (wait-retry r w ∙ omega (arith, hr)) in
    let shift : length waits + suc k ≡ suc (length waits) + k = omega arith in
    (delay ∙ ap (λ n. min (200 * 2 ^ n) 60_000) shift, retry ∙ ap (λ n. n % 2 ^ 16) shift)

-- Once a connection has been established, however it ended and whatever the task had been through before,
-- the delay after that many refused attempts in a row is 200 ms doubled that many times but never above
-- 60 s, whatever messages arrived in the meantime, and the counter of attempts is their number modulo 2^16.
pub run-backoff :
    (r : Retry) (script : List Turn) (waits : List (List Drained))
    → let r' = run r (accepted script ∷ map refused waits) in
      (r'.delay ≡ min (200 * 2 ^ length waits) 60_000) × (r'.retry ≡ length waits % 2 ^ 16)
unfolding run attempt on_connected
run-backoff r script waits =
    let (delay, retry) = refusals_from (on_connected r script).0 0 waits refl refl in
    let shift : length waits + 0 ≡ length waits = omega arith in
    (delay ∙ ap (λ n. min (200 * 2 ^ n) 60_000) shift, retry ∙ ap (λ n. n % 2 ^ 16) shift)

-- ===== src/Adapters/Syslog/Attempts.antt =====
-- What `retry_exp` does: it acts again after a longer and longer pause, until it succeeds or the
-- tries are used up.
use logspout.Prelude.{ℕ, zero, suc, ◌*◌, ◌^◌, ◌≤◌, ◌<◌, ◌≡◌, refl, Option, none, some, arith}
use logspout.Prelude.Int.{ℤ, pos, negsuc}
use native.Mathlib.Nat.{pow-le-pow_right}
use logspout.Transport.{NetError}
use logspout.Adapters.Syslog.Retry.{delay, retry_from, retry_exp}

module _ {S : Type 0} (fun : S → Option NetError × S) (sleep : ℤ → S → S) where
  -- The state in which the i-th further try is made, after a failure and a pause before each.
  unfoldable pub state_at : ℕ → ℕ → S → S
  state_at zero try s = s
  state_at (suc i) try s = state_at i (suc try) (sleep (delay try) (fun s).1)

  abbrev pub FailsBefore : ℕ → ℕ → S → Type 0
  FailsBefore k try s = (i : ℕ) → i < k → (e : NetError) × ((fun (state_at i try s)).0 ≡ some e)

  retry_from_success :
      (left k try : ℕ) (s : S)
      → k ≤ left
      → FailsBefore k try s
      → (fun (state_at k try s)).0 ≡ none
      → retry_from fun sleep left try s ≡ (none, (fun (state_at k try s)).1)
  unfolding retry_from state_at
  retry_from_success zero zero try s h f e = ground arith
  retry_from_success zero (suc k) try s h f e = elim h [ ]
  retry_from_success (suc left) zero try s h f e = ground arith
  retry_from_success (suc left) (suc k) try s h f e =
      let (x, q) = f 0 (omega arith) in
      ground (
        arith,
        retry_from_success left k (suc try) (sleep (delay try) (fun s).1) (omega arith)
            (λ i lt. f (suc i) (omega arith)) e,
      )

  retry_from_failure :
      (left try : ℕ) (s : S)
      → FailsBefore (suc left) try s
      → retry_from fun sleep left try s ≡ fun (state_at left try s)
  unfolding retry_from state_at
  retry_from_failure zero try s f = refl
  retry_from_failure (suc left) try s f =
      let (x, q) = f 0 (omega arith) in
      ground (
        arith,
        retry_from_failure left (suc try) (sleep (delay try) (fun s).1)
            (λ i lt. f (suc i) (omega arith)),
      )

  -- If the first try to succeed is one of the first `tries + 1`, it is the last one made, and the
  -- result is its success.
  pub retry_exp_success :
      (tries k : ℕ) (s : S)
      → k ≤ tries
      → FailsBefore k 1 s
      → (fun (state_at k 1 s)).0 ≡ none
      → retry_exp fun sleep tries s ≡ (none, (fun (state_at k 1 s)).1)
  unfolding retry_exp
  retry_exp_success tries k s h f e = retry_from_success tries k 1 s h f e

  -- If the first `tries + 1` tries fail, no further one is made, and the error is that of the last.
  pub retry_exp_failure :
      (tries : ℕ) (s : S)
      → FailsBefore (suc tries) 1 s
      → retry_exp fun sleep tries s ≡ fun (state_at tries 1 s)
  unfolding retry_exp
  retry_exp_failure tries s f = retry_from_failure tries 1 s f

-- Up to 39 tries the pauses are what they are meant to be, 10 ms times 2 to the number of the try:
-- the product does not wrap around in 64 bits.
pub delay_exact : (try : ℕ) → try ≤ 39 → delay try ≡ pos (2 ^ try * 10_000_000)
unfolding delay
delay_exact try h = ground (arith, pow-le-pow_right {n = 2} (omega arith) h)

-- The 40th pause is negative, so there is none.
delay_wraps : delay 40 ≡ negsuc 7451627795949551615
unfolding delay
delay_wraps = refl

-- ===== src/Adapters/Syslog/Retry.antt =====
-- `Stream` of adapters/syslog/syslog.go, and the retries behind a failed write.
use logspout.Prelude.{
  refl, sym, ap, ◌∙◌, ◌≤◌, true, false, lt→ltb, Option-cases, inl, inr, ltb, ◌+◌, ◌-◌, ◌<◌, ◌≡◌,
  arith, ℕ, zero, suc, ◌*◌, ◌%◌, ◌^◌, Bool, not, ◌&&◌, ◌||◌, List, [], ◌∷◌, Option, none, some,
  Text, if◌then◌else◌, ok, err,
}
use logspout.Prelude.Int.{signed64, ℤ}
use logspout.Router.Message.{Message}
use logspout.Transport.{Net, NetError, Dialed, connected, refused}
use logspout.Adapters.Syslog.{Adapter}
use logspout.Adapters.Syslog.Render.{render}
use logspout.Adapters.Syslog.Framing.{framed}

-- (1 << try) * 10 * time.Millisecond, in nanoseconds
unfoldable pub delay : ℕ → ℤ
delay try = signed64 (2 ^ try * 10_000_000 % 2 ^ 64)

ltb-false : (a b : ℕ) → b ≤ a → ltb a b ≡ false
ltb-false a b h = ground arith

-- The loop of `retryExp` over the state `S` that `fun` acts on: `left` tries may still follow this
-- one, and the next failure is the one that makes `try`.
module _ {S : Type 0} (fun : S → Option NetError × S) (sleep : ℤ → S → S) where
  unfoldable pub retry_from : ℕ → ℕ → S → Option NetError × S
  retry_from zero try s = fun s
  retry_from (suc left) try s =
      let (e, s') = fun s in
      elim e [ none ↦ (none, s') | some x ↦ retry_from left (suc try) (sleep (delay try) s') ]

  pub retry_from_done :
      (left try : ℕ) (s : S) → (fun s).0 ≡ none → retry_from (suc left) try s ≡ fun s
  unfolding retry_from
  retry_from_done left try s e = ground arith

  pub retry_from_again :
      (left try : ℕ) (s : S) {x : NetError}
      → (fun s).0 ≡ some x
      → retry_from (suc left) try s ≡ retry_from left (suc try) (sleep (delay try) (fun s).1)
  unfolding retry_from
  retry_from_again left try s e = ground arith

  -- The loop of `retryExp(fun, tries)` as it counts, in a word of 64 bits: `try` tries have failed, and
  -- `fuel` more are made at most. There is no result if it goes on after them.
  unfoldable pub retry_loop : (fuel tries try : ℕ) → S → Option (Option NetError × S)
  retry_loop zero tries try s = none
  retry_loop (suc fuel) tries try s =
      let (e, s') = fun s in
      let next = suc try % 2 ^ 64 in
      let rest = retry_loop fuel tries next (sleep (delay next) s') in
      elim e [
        | none ↦ some (none, s')
        | some x ↦ if ltb tries next then some (some x, s') else rest
      ]

  -- retryExp(fun, tries), for a limit that `try` can go beyond: one of less than 2 ^ 64 - 1
  unfoldable pub retry_exp : ℕ → S → Option NetError × S
  unfolding retry_from
  retry_exp tries s = retry_from tries 1 s

  retry_loop_again :
      (fuel tries try : ℕ) (s : S) {x : NetError}
      → (fun s).0 ≡ some x
      → ltb tries (suc try % 2 ^ 64) ≡ false
      → retry_loop (suc fuel) tries try s
        ≡ retry_loop fuel tries (suc try % 2 ^ 64) (sleep (delay (suc try % 2 ^ 64)) (fun s).1)
  unfolding retry_loop
  retry_loop_again fuel tries try s q h = ground (arith, q, h)

  retry_loop-retry_from :
      (left tries try : ℕ) (s : S)
      → left + try ≡ tries
      → suc tries < 2 ^ 64
      → retry_loop (suc left) tries try s ≡ some (retry_from left (suc try) s)
  unfolding retry_loop retry_from
  retry_loop-retry_from zero tries try s e h =
      let next : suc try % 2 ^ 64 ≡ suc try = omega (arith, e, h) in
      let past : ltb tries (suc try % 2 ^ 64) ≡ true =
        ap (ltb tries) next ∙ lt→ltb tries (suc try) (omega (arith, e)) in
      elim (Option-cases (fun s).0) [
        | inl q ↦ ground (arith, q)
        | inr (x, q) ↦ ground (arith, q, past)
      ]
  retry_loop-retry_from (suc left) tries try s e h =
      let next : suc try % 2 ^ 64 ≡ suc try = omega (arith, e, h) in
      let past : ltb tries (suc try % 2 ^ 64) ≡ false =
        ap (ltb tries) next ∙ ltb-false tries (suc try) (omega (arith, e)) in
      elim (Option-cases (fun s).0) [
        | inl q ↦ ground (arith, q)
        | inr (x, q) ↦
            retry_loop_again (suc left) tries try s q past
            ∙ (ap (λ n. retry_loop (suc left) tries n (sleep (delay n) (fun s).1)) next
                ∙ (retry_loop-retry_from left tries (suc try) (sleep (delay (suc try)) (fun s).1)
                      (omega (arith, e)) h
                    ∙ ap some (sym (retry_from_again left (suc try) s q))))
      ]

  -- The loop makes `tries + 1` tries at most, and comes to this result.
  pub retry_loop-retry_exp :
      (tries : ℕ) (s : S)
      → suc tries < 2 ^ 64
      → retry_loop (suc tries) tries 0 s ≡ some (retry_exp tries s)
  unfolding retry_exp
  retry_loop-retry_exp tries s h = retry_loop-retry_from tries tries 0 s (omega arith) h

  -- With the greatest limit there is, as RETRY_COUNT=-1 makes it, the loop goes on for as long as `fun`
  -- fails.
  retry_loop-endless :
      ((t : S) → (e : NetError) × ((fun t).0 ≡ some e))
      → (fuel try : ℕ) (s : S) → retry_loop fuel (2 ^ 64 - 1) try s ≡ none
  retry_loop-endless f zero try s = unfold retry_loop in refl
  retry_loop-endless f (suc fuel) try s =
      let (x, q) = f s in
      let next = suc try % 2 ^ 64 in
      retry_loop_again fuel (2 ^ 64 - 1) try s q (ltb-false (2 ^ 64 - 1) next (omega arith))
      ∙ retry_loop-endless f fuel next (sleep (delay next) (fun s).1)

module _ {W : Type 0} (net : Net W) where
  -- The adapter and the network.
  abbrev pub State : Type 0
  State = Adapter × W

  unfoldable pub pause : ℤ → State → State
  pause d (a, w) = (a, net.sleep d w)

  unfoldable pub write_once : Text → State → Option NetError × State
  write_once buf (a, w) = let (e, w') = net.write a.conn buf w in (e, (a, w'))

  abbrev pub dialed : Adapter → Dialed × W → Option NetError × State
  dialed a (connected c, w) = (none, (record a { conn = c }, w))
  dialed a (refused e, w) = (some e, (a, w))

  unfoldable pub dial_once : State → Option NetError × State
  dial_once (a, w) = dialed a (net.dial a.route.address a.route.options w)

  -- retryTemporary
  unfoldable pub retry_temporary : Text → State → Option NetError × State
  retry_temporary buf (a, w) = retry_exp (write_once buf) pause a.retry_count (a, w)

  -- reconnect
  unfoldable pub reconnect : State → Option NetError × State
  reconnect (a, w) = retry_exp dial_once pause a.retry_count (a, w)

  -- Is the failed write worth another try on the same connection?
  unfoldable pub worth_retrying : NetError → Bool
  worth_retrying e = e.op_error && ((e.temporary && not e.conn_reset) || e.timeout)

  abbrev pub after_reconnect : Text → Option NetError × State → Option NetError × State
  after_reconnect buf (some e, s) = (some e, s)
  after_reconnect buf (none, s) = write_once buf s

  abbrev pub after_temporary : Text → Option NetError × State → Option NetError × State
  after_temporary buf (none, s) = (none, s)
  after_temporary buf (some e, s) = after_reconnect buf (reconnect s)

  -- retry
  unfoldable pub retry : Text → NetError → State → Option NetError × State
  retry buf e s =
      if worth_retrying e
      then after_temporary buf (retry_temporary buf s)
      else after_reconnect buf (reconnect s)

  abbrev pub after_write : Text → Option NetError × State → Option NetError × State
  after_write buf (none, s) = (none, s)
  after_write buf (some e, (a, w)) = if a.conn_is_tcp then retry buf e (a, w) else (none, (a, w))

  -- One message of `Stream`, rendered and framed; `some e` is the panic.
  unfoldable pub send : Text → State → Option NetError × State
  send buf s = after_write buf (write_once buf s)

-- How `Stream` ends: the channel is closed, a message cannot be rendered, or it panics.
pub data End : Type 0 where
  closed : End
  unrendered : Text → End
  panicked : NetError → End

module _ {W : Type 0} (net : Net W) where
  -- Stream, over the messages that come before the channel is closed
  unfoldable pub stream : List Message → State net → End × State net
  stream [] s = (closed, s)
  stream (m ∷ ms) (a, w) = elim (render a.format a.tmpl m) [
    | err e ↦ (unrendered e, (a, w))
    | ok buf ↦
        let (e, s') = send net (framed a.conn_is_tcp a.tcp_framing buf) (a, w) in
        elim e [ none ↦ stream ms s' | some x ↦ (panicked x, s') ]
  ]

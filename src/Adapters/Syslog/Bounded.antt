-- ===== src/Adapters/Syslog/Bounded.antt =====
-- How often `Stream` of adapters/syslog/syslog.go calls the network, whatever the network answers.
use logspout.Prelude.{
  ◌<◌, ◌^◌, ◌≡◌, refl, ap, ◌∙◌, ℕ, zero, suc, ◌+◌, ◌*◌, ◌≤◌, Bool, true, false, List, [], ◌∷◌,
  Option, none, some, Text, arith, length, if◌then◌else◌, Result-cases, inl, inr, Option-cases,
}
use logspout.Prelude.Int.{ℤ}
use logspout.Router.Message.{Message}
use logspout.Transport.{Net, NetError, Dialed, connected, refused}
use logspout.Adapters.Syslog.{Adapter}
use logspout.Adapters.Syslog.Render.{render}
use logspout.Adapters.Syslog.Framing.{framed}
use logspout.Adapters.Syslog.Delivery.{after_send, stream-send, stream-unrendered}
use logspout.Adapters.Syslog.Retry.{
  retry_loop, retry_loop-retry_exp, retry_from, retry_from_done, retry_from_again, delay, retry_exp,
  State, pause, write_once, dialed, dial_once, retry_temporary, reconnect, worth_retrying,
  after_reconnect, after_temporary, retry, after_write, send, stream,
}

-- The network with a count of its writes and dials.
abbrev pub counted : {W : Type 0} → Net W → Net (W × ℕ)
counted net = record {
  dial = λ address options s. let (d, w) = net.dial address options s.0 in (d, (w, suc s.1));
  write = λ c buf s. let (e, w) = net.write c buf s.0 in (e, (w, suc s.1));
  sleep = λ d s. (net.sleep d s.0, s.1);
  is_tcp = net.is_tcp;
  is_udp = net.is_udp;
}

module _ {W : Type 0} (net : Net W) where
  -- From `s` to `s'` there are `n` calls at most, and the limit on tries stays.
  record Within (n : ℕ) (s s' : State (counted net)) : Type 0 where
    pub same : s'.0.retry_count ≡ s.0.retry_count
    pub calls : s'.1.1 ≤ s.1.1 + n

  Within-trans :
      (n m k : ℕ) (s s' s'' : State (counted net))
      → n + m ≤ k
      → Within n s s'
      → Within m s' s''
      → Within k s s''
  Within-trans n m k s s' s'' le u v = record {
    same = v.same ∙ u.same;
    calls = omega (arith, u.calls, v.calls, le);
  }

  Within-refl : (n : ℕ) (s : State (counted net)) → Within n s s
  Within-refl n s = record { same = refl; calls = omega arith }

  write_once-Within :
      (buf : Text) (s : State (counted net)) → Within 1 s (write_once (counted net) buf s).1
  unfolding write_once
  write_once-Within buf (a, (w, n)) = record { same = refl; calls = omega arith }

  dialed-Within :
      (a : Adapter) (s : W × ℕ) (r : Dialed × W)
      → Within 1 (a, s) (dialed (counted net) a (r.0, (r.1, suc s.1))).1
  dialed-Within a s (connected c, w) = record { same = refl; calls = omega arith }
  dialed-Within a s (refused e, w) = record { same = refl; calls = omega arith }

  dial_once-Within : (s : State (counted net)) → Within 1 s (dial_once (counted net) s).1
  unfolding dial_once
  dial_once-Within (a, s) = dialed-Within a s (net.dial a.route.address a.route.options s.0)

  pause-Within : (d : ℤ) (s : State (counted net)) → Within 0 s (pause (counted net) d s)
  unfolding pause
  pause-Within d (a, s) = record { same = refl; calls = omega arith }

  Within-weaken : (n k : ℕ) (s s' : State (counted net)) → n ≤ k → Within n s s' → Within k s s'
  Within-weaken n k s s' le u = Within-trans n 0 k s s' s' (omega (arith, le)) u (Within-refl 0 s')

  retry_from-Within :
      (fun : State (counted net) → Option NetError × State (counted net))
      → ((s : State (counted net)) → Within 1 s (fun s).1)
      → (left try : ℕ) (s : State (counted net))
      → Within (suc left) s (retry_from fun (pause (counted net)) left try s).1
  retry_from-Within fun h zero try s = unfold retry_from in h s
  retry_from-Within fun h (suc left) try s = elim (Option-cases (fun s).0) [
    | inl e ↦
        rw (retry_from_done fun (pause (counted net)) left try s e)
          (Within-weaken 1 (suc (suc left)) s (fun s).1 (omega arith) (h s))
    | inr (x, e) ↦ rw (retry_from_again fun (pause (counted net)) left try s e) (
        Within-trans 1 (suc left) (suc (suc left)) s (fun s).1 _ (omega arith) (h s) (
          Within-trans 0 (suc left) (suc left) (fun s).1 (pause (counted net) (delay try) (fun s).1)
            _ (omega arith) (pause-Within (delay try) (fun s).1)
            (retry_from-Within fun h left (suc try) (pause (counted net) (delay try) (fun s).1))))
  ]

  Within-if :
      (k : ℕ) (s : State (counted net)) (b : Bool) (x y : Option NetError × State (counted net))
      → Within k s x.1
      → Within k s y.1
      → Within k s (if b then x else y).1
  Within-if k s true x y u v = u
  Within-if k s false x y u v = v

  reconnect-Within :
      (s : State (counted net)) → Within (s.0.retry_count + 1) s (reconnect (counted net) s).1
  unfolding reconnect retry_exp
  reconnect-Within (a, s) =
      Within-weaken (suc a.retry_count) (a.retry_count + 1) (a, s) _ (omega arith)
        (retry_from-Within (dial_once (counted net)) dial_once-Within a.retry_count 1 (a, s))

  retry_temporary-Within :
      (buf : Text) (s : State (counted net))
      → Within (s.0.retry_count + 1) s (retry_temporary (counted net) buf s).1
  unfolding retry_temporary retry_exp
  retry_temporary-Within buf (a, s) =
      Within-weaken (suc a.retry_count) (a.retry_count + 1) (a, s) _ (omega arith)
        (retry_from-Within (write_once (counted net) buf) (write_once-Within buf) a.retry_count 1
          (a, s))

  after_reconnect-Within :
      (buf : Text) (n : ℕ) (s : State (counted net)) (r : Option NetError × State (counted net))
      → Within n s r.1
      → Within (n + 1) s (after_reconnect (counted net) buf r).1
  after_reconnect-Within buf n s (some e, s') u = Within-weaken n (n + 1) s s' (omega arith) u
  after_reconnect-Within buf n s (none, s') u =
      Within-trans n 1 (n + 1) s s' _ (omega arith) u (write_once-Within buf s')

  reconnected-Within :
      (buf : Text) (s : State (counted net))
      → Within
          (s.0.retry_count + 2)
          s
          (after_reconnect (counted net) buf (reconnect (counted net) s)).1
  reconnected-Within buf s =
      Within-weaken (s.0.retry_count + 1 + 1) (s.0.retry_count + 2) s _ (omega arith) (
        after_reconnect-Within buf (s.0.retry_count + 1) s (reconnect (counted net) s)
          (reconnect-Within s))

  after_temporary-Within :
      (buf : Text) (s : State (counted net)) (r : Option NetError × State (counted net))
      → Within (s.0.retry_count + 1) s r.1
      → Within (2 * s.0.retry_count + 3) s (after_temporary (counted net) buf r).1
  after_temporary-Within buf s (none, s') u =
      Within-weaken (s.0.retry_count + 1) (2 * s.0.retry_count + 3) s s' (omega arith) u
  after_temporary-Within buf s (some e, s') u =
      Within-trans (s.0.retry_count + 1) (s'.0.retry_count + 2) (2 * s.0.retry_count + 3) s s' _
        (omega (arith, u.same)) u (reconnected-Within buf s')

  retry-Within :
      (buf : Text) (e : NetError) (s : State (counted net))
      → Within (2 * s.0.retry_count + 3) s (retry (counted net) buf e s).1
  unfolding retry
  retry-Within buf e s =
      Within-if (2 * s.0.retry_count + 3) s (worth_retrying (counted net) e) _ _
        (after_temporary-Within buf s (retry_temporary (counted net) buf s)
          (retry_temporary-Within buf s))
        (Within-weaken (s.0.retry_count + 2) (2 * s.0.retry_count + 3) s _ (omega arith)
          (reconnected-Within buf s))

  after_write-Within :
      (buf : Text) (s : State (counted net)) (r : Option NetError × State (counted net))
      → Within 1 s r.1
      → Within (2 * s.0.retry_count + 4) s (after_write (counted net) buf r).1
  after_write-Within buf s (none, s') u =
      Within-weaken 1 (2 * s.0.retry_count + 4) s s' (omega arith) u
  after_write-Within buf s (some e, (a, w)) u =
      Within-if (2 * s.0.retry_count + 4) s a.conn_is_tcp (retry (counted net) buf e (a, w))
        (none, (a, w))
        (Within-trans 1 (2 * a.retry_count + 3) (2 * s.0.retry_count + 4) s (a, w) _
          (omega (arith, u.same)) u (retry-Within buf e (a, w)))
        (Within-weaken 1 (2 * s.0.retry_count + 4) s (a, w) (omega arith) u)

  send-Within :
      (buf : Text) (s : State (counted net))
      → Within (2 * s.0.retry_count + 4) s (send (counted net) buf s).1
  unfolding send
  send-Within buf s =
      after_write-Within buf s (write_once (counted net) buf s) (write_once-Within buf s)

  -- The calls that may be made for these messages.
  abbrev budget : ℕ → List Message → ℕ
  budget k [] = 0
  budget k (m ∷ ms) = 2 * k + 4 + budget k ms

  budget-length : (k : ℕ) (ms : List Message) → budget k ms ≡ length ms * (2 * k + 4)
  budget-length k [] = omega arith
  budget-length k (m ∷ ms) = grind (arith, budget-length k ms)

  after_send-Within :
      (n : ℕ) (ms : List Message) (s : State (counted net))
      (r : Option NetError × State (counted net))
      → ((s' : State (counted net))
          → Within (budget s'.0.retry_count ms) s' (stream (counted net) ms s').1)
      → Within n s r.1
      → Within (n + budget s.0.retry_count ms) s (after_send (counted net) ms r).1
  after_send-Within n ms s (none, s') h u =
      Within-trans n (budget s'.0.retry_count ms) (n + budget s.0.retry_count ms) s s' _
        (omega (arith, ap (λ k. budget k ms) u.same)) u (h s')
  after_send-Within n ms s (some x, s') h u =
      Within-weaken n (n + budget s.0.retry_count ms) s s' (omega arith) u

  stream-Within :
      (ms : List Message) (s : State (counted net))
      → Within (budget s.0.retry_count ms) s (stream (counted net) ms s).1
  stream-Within [] s = unfold stream in Within-refl 0 s
  stream-Within (m ∷ ms) (a, w) = elim (Result-cases (render a.format a.tmpl m)) [
    | inl (e, q) ↦
        rw (stream-unrendered (counted net) m ms a w e q)
          (Within-refl (budget a.retry_count (m ∷ ms)) (a, w))
    | inr (buf, q) ↦
        let bytes = framed a.conn_is_tcp a.tcp_framing buf in
        rw (stream-send (counted net) m ms a w buf q) (
          after_send-Within (2 * a.retry_count + 4) ms (a, w) (send (counted net) bytes (a, w))
            (λ s'. stream-Within ms s') (send-Within bytes (a, w)))
  ]

-- The retries come to an end, if the limit on them is less than 2 ^ 64 - 1, which RETRY_COUNT=-1 makes it
-- and which the counter never goes beyond: the loop of `retryExp` makes one try more than the limit at
-- most, and whatever the network answers, for each message the adapter calls it
-- `2 * retry_count + 4` times at most, writes and dials together, and then goes on to the next one or
-- ends.
pub stream_bounded :
    {W : Type 0} (net : Net W) (ms : List Message) (a : Adapter) (w : W)
    → suc a.retry_count < 2 ^ 64
    → ((stream (counted net) ms (a, (w, 0))).1.1.1 ≤ length ms * (2 * a.retry_count + 4))
      × ((fun : State (counted net) → Option NetError × State (counted net))
            (s : State (counted net))
          → retry_loop fun (pause (counted net)) (suc a.retry_count) a.retry_count 0 s
            ≡ some (retry_exp fun (pause (counted net)) a.retry_count s))
stream_bounded net ms a w few = (
  omega (arith, (stream-Within net ms (a, (w, 0))).calls, budget-length net a.retry_count ms),
  λ fun s. retry_loop-retry_exp fun (pause (counted net)) a.retry_count s few,
)

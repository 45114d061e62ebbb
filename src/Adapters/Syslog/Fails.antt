-- ===== src/Adapters/Syslog/Fails.antt =====
-- What a `send` of adapters/syslog/syslog.go fails with, when its retries are at an end.
use logspout.Prelude.{
  ℕ, zero, suc, ◌≡◌, ap, ◌∙◌, sym, arith, Bool, true, false, Option, none, some, Option-cases, inl,
  inr, ◌⊎◌, Text, if◌then◌else◌,
}
use logspout.Prelude.Int.{ℤ}
use logspout.Map.{Map}
use logspout.Transport.{Net, NetError, Dialed, connected, refused}
use logspout.Adapters.Syslog.{Adapter}
use logspout.Adapters.Syslog.Retry.{
  State, pause, write_once, dialed, dial_once, retry_from, retry_exp, retry_from_done,
  retry_from_again, retry_temporary, reconnect, after_reconnect, after_temporary, retry,
  worth_retrying, after_write, send, delay,
}

-- A write of the text or a dial fails with the error, in some state of the network.
abbrev pub CanFail : {W : Type 0} → Net W → Text → NetError → Type 0
CanFail {W} net buf x =
    ((c : ℕ) × ((w : W) × ((net.write c buf w).0 ≡ some x)))
    ⊎ ((address : Text) × ((options : Map Text Text) × ((w : W) × ((net.dial address options w).0
              ≡ refused x))))

-- The error that the tries end with is one of a try.
retry_from-error :
    {S C : Type 0} (fun : S → Option NetError × S) (sleep : ℤ → S → S) (x : NetError)
    → ((s : S) → (fun s).0 ≡ some x → C)
    → (left try : ℕ) (s : S) → (retry_from fun sleep left try s).0 ≡ some x
    → C
unfolding retry_from
retry_from-error fun sleep x h zero try s q = h s q
retry_from-error fun sleep x h (suc left) try s q = elim (Option-cases (fun s).0) [
  | inl e ↦ h s (ap (λ r. r.0) (sym (retry_from_done fun sleep left try s e)) ∙ q)
  | inr (y, e) ↦
      retry_from-error fun sleep x h left (suc try) (sleep (delay try) (fun s).1)
        (ap (λ r. r.0) (sym (retry_from_again fun sleep left try s e)) ∙ q)
]

module _ {W : Type 0} (net : Net W) (buf : Text) (x : NetError) where
  write_once-error : (s : State net) → (write_once net buf s).0 ≡ some x → CanFail net buf x
  unfolding write_once
  write_once-error (a, w) q = inl (a.conn, (w, q))

  dialed-error : (a : Adapter) (d : Dialed × W) → (dialed net a d).0 ≡ some x → d.0 ≡ refused x
  dialed-error a (connected c, w) q = absurd (ground (arith, q))
  dialed-error a (refused e, w) q = cc

  dial_once-error : (s : State net) → (dial_once net s).0 ≡ some x → CanFail net buf x
  unfolding dial_once
  dial_once-error (a, w) q = inr (
    a.route.address,
    (a.route.options, (w, dialed-error a (net.dial a.route.address a.route.options w) q)),
  )

  reconnect-error : (s : State net) → (reconnect net s).0 ≡ some x → CanFail net buf x
  unfolding reconnect retry_exp
  reconnect-error (a, w) q =
      retry_from-error (dial_once net) (pause net) x dial_once-error a.retry_count 1 (a, w) q

  after_reconnect-error :
      (r : Option NetError × State net)
      → (r.0 ≡ some x → CanFail net buf x)
      → (after_reconnect net buf r).0 ≡ some x
      → CanFail net buf x
  after_reconnect-error (some e, s) h q = h q
  after_reconnect-error (none, s) h q = write_once-error s q

  after_temporary-error :
      (r : Option NetError × State net) → (after_temporary net buf r).0 ≡ some x → CanFail net buf x
  after_temporary-error (none, s) q = absurd (ground (arith, q))
  after_temporary-error (some e, s) q =
      after_reconnect-error (reconnect net s) (reconnect-error s) q

  retry-error :
      (b : Bool) (r : Option NetError × State net) (s : State net)
      → (if b then after_temporary net buf r else after_reconnect net buf (reconnect net s)).0
        ≡ some x
      → CanFail net buf x
  retry-error true r s q = after_temporary-error r q
  retry-error false r s q = after_reconnect-error (reconnect net s) (reconnect-error s) q

  tried-error :
      (b : Bool) (e : NetError) (s : State net)
      → (if b then retry net buf e s else (none, s)).0 ≡ some x
      → CanFail net buf x
  unfolding retry
  tried-error true e s q = retry-error (worth_retrying net e) (retry_temporary net buf s) s q
  tried-error false e s q = absurd (ground (arith, q))

  after_write-error :
      (r : Option NetError × State net) → (after_write net buf r).0 ≡ some x → CanFail net buf x
  after_write-error (none, s) q = absurd (ground (arith, q))
  after_write-error (some e, (a, w)) q = tried-error a.conn_is_tcp e (a, w) q

  -- A message that cannot be sent has met a failure of the network.
  pub send-error : (s : State net) → (send net buf s).0 ≡ some x → CanFail net buf x
  unfolding send
  send-error s q = after_write-error (write_once net buf s) q

-- ===== src/Adapters/Syslog/Wire.antt =====
-- What one `send` over TCP does to the wire: what the network has taken, in order, seen from
-- outside as `sent`.
use logspout.Prelude.{
  ℕ, zero, suc, ◌≡◌, refl, sym, ap, ◌∙◌, Bool, true, false, List, [], All, All-append, append_assoc,
  ◌++◌, append-nil, Option, none, some, Text, if◌then◌else◌, Option-cases, Bool-cases, inl, inr,
}
use logspout.Prelude.Int.{ℤ}
use logspout.Text.Runes.{Begins}
use logspout.Transport.{Delivers, taken, Net, NetError, Dialed, connected, refused}
use logspout.Adapters.Syslog.{Adapter}
use logspout.Adapters.Syslog.Retry.{
  delay, retry_from, retry_exp, State, pause, write_once, dial_once, retry_temporary, reconnect,
  worth_retrying, retry, send, dialed, retry_from_done, after_reconnect, after_temporary,
  after_write, retry_from_again,
}

module _ {W : Type 0} (net : Net W) (sent : W → List Text) (law : Delivers net sent) where
  -- An action puts `buf` on the wire if it succeeds, behind beginnings of it that failed writes have
  -- left, and leaves the settings.
  pub record Acts (buf : Text) (s : State net) (r : Option NetError × State net) : Type 0 where
    pub parts : List Text
    pub begin : All (λ p. Begins p buf) parts
    pub wire : sent r.1.1 ≡ sent s.1 ++ (parts ++ taken r.0 buf)
    pub settings : r.1.0 ≡ record s.0 { conn = r.1.0.conn }

  -- The same for an action that writes nothing.
  pub record Keeps (s t : State net) : Type 0 where
    pub wire : sent t.1 ≡ sent s.1
    pub settings : t.0 ≡ record s.0 { conn = t.0.conn }

  -- The same for one that has written beginnings of `buf`.
  record Tried (buf : Text) (s t : State net) : Type 0 where
    pub parts : List Text
    pub begin : All (λ p. Begins p buf) parts
    pub wire : sent t.1 ≡ sent s.1 ++ parts
    pub settings : t.0 ≡ record s.0 { conn = t.0.conn }

  Keeps-Tried : (buf : Text) (s t : State net) → Keeps s t → Tried buf s t
  Keeps-Tried buf s t k = record {
    parts = [];
    begin = tt;
    wire = k.wire ∙ sym (append-nil (sent s.1));
    settings = k.settings;
  }

  Acts-after :
      (buf : Text) (s t : State net) (r : Option NetError × State net)
      → Tried buf s t
      → Acts buf t r
      → Acts buf s r
  Acts-after buf s t r k h = record {
    parts = k.parts ++ h.parts;
    begin = All-append (λ p. Begins p buf) k.parts h.parts k.begin h.begin;
    wire =
        h.wire
        ∙ (ap (λ x. x ++ (h.parts ++ taken r.0 buf)) k.wire
            ∙ (append_assoc (sent s.1) k.parts (h.parts ++ taken r.0 buf)
                ∙ ap (λ x. sent s.1 ++ x) (sym (append_assoc k.parts h.parts (taken r.0 buf)))));
    settings = h.settings ∙ ap {A = Adapter} (λ x. record x { conn = r.1.0.conn }) k.settings;
  }

  Keeps-after : (s t u : State net) → Keeps s t → Keeps t u → Keeps s u
  Keeps-after s t u k h = record {
    wire = h.wire ∙ k.wire;
    settings = h.settings ∙ ap {A = Adapter} (λ x. record x { conn = u.0.conn }) k.settings;
  }

  Tried-after : (buf : Text) (s t u : State net) → Tried buf s t → Keeps t u → Tried buf s u
  Tried-after buf s t u k h = record {
    parts = k.parts;
    begin = k.begin;
    wire = h.wire ∙ k.wire;
    settings = h.settings ∙ ap {A = Adapter} (λ x. record x { conn = u.0.conn }) k.settings;
  }

  -- A failed action has written beginnings only.
  failed-Tried :
      (buf : Text) (s : State net) (e : NetError) (r : Option NetError × State net)
      → r.0 ≡ some e
      → Acts buf s r
      → Tried buf s r.1
  failed-Tried buf s e r q h = record {
    parts = h.parts;
    begin = h.begin;
    wire =
        h.wire ∙ ap (λ x. sent s.1 ++ x) (ap (λ o. h.parts ++ taken o buf) q ∙ append-nil h.parts);
    settings = h.settings;
  }

  pause-Keeps : (d : ℤ) (s : State net) → Keeps s (pause net d s)
  unfolding pause
  pause-Keeps d (a, w) = record { wire = law.sleep_sent d w; settings = refl }

  write_once-Acts : (buf : Text) (s : State net) → Acts buf s (write_once net buf s)
  unfolding write_once
  write_once-Acts buf (a, w) = elim (Option-cases (net.write a.conn buf w).0) [
    | inl q ↦ record {
      parts = [];
      begin = tt;
      wire = law.write_ok a.conn buf w q ∙ ap (λ o. sent w ++ taken o buf) (sym q);
      settings = refl;
    }
    | inr (e, q) ↦
        let (parts, (begin, wire)) = law.write_failed a.conn buf w e q in
        record {
          parts = parts;
          begin = begin;
          wire =
              wire
              ∙ ap (λ x. sent w ++ x)
                  (sym (append-nil parts) ∙ ap (λ o. parts ++ taken o buf) (sym q));
          settings = refl;
        }
  ]

  dialed-Keeps :
      (a : Adapter) (w : W) (d : Dialed × W) → sent d.1 ≡ sent w → Keeps (a, w) (dialed net a d).1
  dialed-Keeps a w (connected c, w') e = record { wire = e; settings = refl }
  dialed-Keeps a w (refused x, w') e = record { wire = e; settings = refl }

  dial_once-Keeps : (s : State net) → Keeps s (dial_once net s).1
  unfolding dial_once
  dial_once-Keeps (a, w) =
      dialed-Keeps a w (net.dial a.route.address a.route.options w)
        (law.dial_sent a.route.address a.route.options w)

  retry_from-Acts :
      (buf : Text) (left try : ℕ) (s : State net)
      → Acts buf s (retry_from (write_once net buf) (pause net) left try s)
  retry_from-Acts buf zero try s = unfold retry_from in write_once-Acts buf s
  retry_from-Acts buf (suc left) try s = elim (Option-cases (write_once net buf s).0) [
    | inl q ↦
        rw (retry_from_done (write_once net buf) (pause net) left try s q) (write_once-Acts buf s)
    | inr (x, q) ↦
        let s₁ : State net = (write_once net buf s).1 in
        let s₂ : State net = pause net (delay try) s₁ in
        rw (retry_from_again (write_once net buf) (pause net) left try s q) (
          Acts-after buf s s₂ _
            (Tried-after buf s s₁ s₂
              (failed-Tried buf s x (write_once net buf s) q (write_once-Acts buf s))
              (pause-Keeps (delay try) s₁))
            (retry_from-Acts buf left (suc try) s₂))
  ]

  retry_from-Keeps :
      (left try : ℕ) (s : State net) → Keeps s (retry_from (dial_once net) (pause net) left try s).1
  retry_from-Keeps zero try s = unfold retry_from in dial_once-Keeps s
  retry_from-Keeps (suc left) try s = elim (Option-cases (dial_once net s).0) [
    | inl q ↦ rw (retry_from_done (dial_once net) (pause net) left try s q) (dial_once-Keeps s)
    | inr (x, q) ↦
        let s₁ : State net = (dial_once net s).1 in
        let s₂ : State net = pause net (delay try) s₁ in
        rw (retry_from_again (dial_once net) (pause net) left try s q) (
          Keeps-after s s₂ _ (Keeps-after s s₁ s₂ (dial_once-Keeps s) (pause-Keeps (delay try) s₁))
            (retry_from-Keeps left (suc try) s₂))
  ]

  after_reconnect-Acts :
      (buf : Text) (s : State net) (r : Option NetError × State net)
      → Keeps s r.1
      → Acts buf s (after_reconnect net buf r)
  after_reconnect-Acts buf s (some e, t) k = record {
    parts = [];
    begin = tt;
    wire = k.wire ∙ sym (append-nil (sent s.1));
    settings = k.settings;
  }
  after_reconnect-Acts buf s (none, t) k =
      Acts-after buf s t _ (Keeps-Tried buf s t k) (write_once-Acts buf t)

  reconnect-Keeps : (s : State net) → Keeps s (reconnect net s).1
  unfolding reconnect retry_exp
  reconnect-Keeps (a, w) = retry_from-Keeps a.retry_count 1 (a, w)

  after_temporary-Acts :
      (buf : Text) (s : State net) (r : Option NetError × State net)
      → Acts buf s r
      → Acts buf s (after_temporary net buf r)
  after_temporary-Acts buf s (none, t) h = h
  after_temporary-Acts buf s (some e, t) h =
      let k : Tried buf s t = failed-Tried buf s e (some e, t) refl h in
      Acts-after buf s t _ k (after_reconnect-Acts buf t (reconnect net t) (reconnect-Keeps t))

  retry-Acts : (buf : Text) (e : NetError) (s : State net) → Acts buf s (retry net buf e s)
  unfolding retry retry_temporary retry_exp
  retry-Acts buf e (a, w) = elim (Bool-cases (worth_retrying net e)) [
    | inl q ↦ rw q (after_temporary-Acts buf (a, w) _ (retry_from-Acts buf a.retry_count 1 (a, w)))
    | inr q ↦ rw q (after_reconnect-Acts buf (a, w) _ (reconnect-Keeps (a, w)))
  ]

  tcp-Acts :
      (b : Bool) (buf : Text) (e : NetError) (s t : State net)
      → b ≡ true
      → Tried buf s t
      → Acts buf s (if b then retry net buf e t else (none, t))
  tcp-Acts true buf e s t q k = Acts-after buf s t _ k (retry-Acts buf e t)
  tcp-Acts false buf e s t q k = cc

  after_write-Acts :
      (buf : Text) (s : State net) (r : Option NetError × State net)
      → s.0.conn_is_tcp ≡ true
      → Acts buf s r
      → Acts buf s (after_write net buf r)
  after_write-Acts buf s (none, t) tcp h = h
  after_write-Acts buf s (some e, (a, w)) tcp h =
      tcp-Acts a.conn_is_tcp buf e s (a, w) (ap (λ x. x.conn_is_tcp) h.settings ∙ tcp)
        (failed-Tried buf s e (some e, (a, w)) refl h)

  -- Over TCP a message that is sent is on the wire whole once, behind beginnings of it at most; of one
  -- that is not there are beginnings at most.
  pub send-Acts :
      (buf : Text) (s : State net) → s.0.conn_is_tcp ≡ true → Acts buf s (send net buf s)
  unfolding send
  send-Acts buf s tcp = after_write-Acts buf s (write_once net buf s) tcp (write_once-Acts buf s)

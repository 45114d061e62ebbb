-- ===== src/Tests/Network.antt =====
-- A network whose connection fails for a while.
use logspout.Prelude.{
  arith, All, take, drop, take-append-drop, ℕ, zero, suc, ◌≡◌, refl, Bool, not, true, false, List,
  [], ◌∷◌, ◌++◌, Option, none, some, Text, codes,
}
use logspout.Text.Runes.{Begins}
use logspout.Transport.{Net, NetError, connected, Delivers}

-- The number of writes that still fail, each after its first byte, and the wire.
abbrev pub Wire : Type 0
Wire = ℕ × List Text

abbrev pub reset : NetError
reset = record {
  op_error = true;
  temporary = true;
  conn_reset = true;
  timeout = false;
  text = codes "reset";
}

abbrev pub write_wire : ℕ → Text → Wire → Option NetError × Wire
write_wire c buf (zero, out) = (none, (0, out ++ (buf ∷ [])))
write_wire c buf (suc n, out) = (some reset, (n, out ++ (take 1 buf ∷ [])))

abbrev pub flaky : Bool → Net Wire
flaky tcp = record {
  dial = λ addr options w. (connected 2, w);
  write = write_wire;
  sleep = λ d w. w;
  is_tcp = λ c. tcp;
  is_udp = λ c. not tcp;
}

write_wire-ok :
    (c : ℕ) (buf : Text) (w : Wire)
    → (write_wire c buf w).0 ≡ none
    → (write_wire c buf w).1.1 ≡ w.1 ++ buf ∷ []
write_wire-ok c buf (zero, out) q = refl
write_wire-ok c buf (suc n, out) q = absurd (ground (arith, q))

write_wire-failed :
    (c : ℕ) (buf : Text) (w : Wire) (e : NetError)
    → (write_wire c buf w).0 ≡ some e
    → (parts : List Text) × (All (λ p. Begins p buf) parts
        × ((write_wire c buf w).1.1 ≡ w.1 ++ parts))
write_wire-failed c buf (zero, out) e q = absurd (ground (arith, q))
write_wire-failed c buf (suc n, out) e q =
    (take 1 buf ∷ [], (((drop 1 buf, take-append-drop 1 buf), tt), refl))

pub flaky-Delivers : (tcp : Bool) → Delivers (flaky tcp) (λ w. w.1)
flaky-Delivers tcp = record {
  write_ok = λ c buf w. write_wire-ok c buf w;
  write_failed = λ c buf w e. write_wire-failed c buf w e;
  dial_sent = λ a o w. refl;
  sleep_sent = λ d w. refl;
}

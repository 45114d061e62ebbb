-- ===== src/Transport.antt =====
-- The transports of transports/ as the adapters see them: `Net`, over the state of a network that
-- they cannot look into. Transport/Sockets.antt has what TCP and UDP add to the sockets of Go, which
-- are a parameter.
pub mod Tls
pub mod Sockets
use logspout.Prelude.{ℕ, All, ◌≡◌, Bool, List, [], ◌∷◌, ◌++◌, Option, none, some, Text}
use logspout.Prelude.Int.{ℤ}
use logspout.Map.{Map}
use logspout.Text.Runes.{Begins}

-- What the adapters read of a `net.OpError`; any other error is no `op_error`.
pub record NetError : Type 0 where
  pub op_error : Bool
  pub temporary : Bool
  pub conn_reset : Bool
  pub timeout : Bool
  pub text : Text

pub data Dialed : Type 0 where
  connected : ℕ → Dialed
  refused : NetError → Dialed

-- The connections of a transport, and the time: `W` is the state of the network. A connection is
-- known by a number; `is_tcp` and `is_udp` are the tests of its type that the adapters make.
pub record Net (W : Type 0) : Type 0 where
  pub dial : Text → Map Text Text → W → Dialed × W
  pub write : ℕ → Text → W → Option NetError × W
  pub sleep : ℤ → W → W
  pub is_tcp : ℕ → Bool
  pub is_udp : ℕ → Bool

-- What a write has taken, by its result.
abbrev pub taken : Option NetError → Text → List Text
taken none buf = buf ∷ []
taken (some e) buf = []

-- A write that succeeds puts its text on the wire, and one that fails may have put a beginning of it
-- there, or nothing; nothing else does. `sent` is the wire, in order, seen from outside: what the
-- network has taken, whether or not it arrives.
pub record Delivers {W : Type 0} (net : Net W) (sent : W → List Text) : Type 0 where
  pub write_ok :
      (c : ℕ) (buf : Text) (w : W)
      → (net.write c buf w).0 ≡ none
      → sent (net.write c buf w).1 ≡ sent w ++ buf ∷ []
  pub write_failed :
      (c : ℕ) (buf : Text) (w : W) (e : NetError)
      → (net.write c buf w).0 ≡ some e
      → (parts : List Text) × (All (λ p. Begins p buf) parts
          × (sent (net.write c buf w).1 ≡ sent w ++ parts))
  pub dial_sent :
      (addr : Text) (options : Map Text Text) (w : W) → sent (net.dial addr options w).1 ≡ sent w
  pub sleep_sent : (d : ℤ) (w : W) → sent (net.sleep d w) ≡ sent w

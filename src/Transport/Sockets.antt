-- ===== src/Transport/Sockets.antt =====
-- transports/tcp/tcp.go and transports/udp/udp.go: how they dial, over sockets that are a parameter, and
-- `isTCPConnection` of adapters/syslog/syslog.go.
use mathlib.Core.Path.{subst}
use logspout.Prelude.{
  ◌≡◌, refl, ℕ, ◌*◌, Bool, true, false, Option, none, some, Text, codes, arith, ap,
}
use logspout.Prelude.Int.{ℤ}
use logspout.Map.{Map}
use logspout.Transport.{Net, NetError, Dialed, connected, refused}

-- The types of connections.
pub data Kind : Type 0 where
  tcp_conn : Kind
  udp_conn : Kind
  tls_conn : Kind
  other_conn : Kind

pub data Resolved : Type 0 where
  resolved : Text → Resolved
  unresolved : NetError → Resolved

-- What the package `net` does: it resolves an address of a network, connects to it, sets the size of
-- the buffer of a connection, writes, and knows the type of a connection.
pub record Sockets (W : Type 0) : Type 0 where
  pub resolve : Text → Text → W → Resolved × W
  pub connect : Text → Text → W → Dialed × W
  pub set_write_buffer : ℕ → ℕ → W → Option NetError × W
  pub write : ℕ → Text → W → Option NetError × W
  pub sleep : ℤ → W → W
  pub kind : ℕ → Kind

abbrev pub is_tcp_connection : Kind → Bool
is_tcp_connection tcp_conn = true
is_tcp_connection tls_conn = true
is_tcp_connection udp_conn = false
is_tcp_connection other_conn = false

abbrev is_udp_conn : Kind → Bool
is_udp_conn udp_conn = true
is_udp_conn tcp_conn = false
is_udp_conn tls_conn = false
is_udp_conn other_conn = false

abbrev pub write_buffer : ℕ
write_buffer = 1024 * 1024

module _ {W : Type 0} (sockets : Sockets W) where
  abbrev tcp_resolved : Resolved × W → Dialed × W
  tcp_resolved (unresolved e, w) = (refused e, w)
  tcp_resolved (resolved raddr, w) = sockets.connect (codes "tcp") raddr w

  -- tcpTransport.Dial
  unfoldable pub tcp_dial : Text → Map Text Text → W → Dialed × W
  tcp_dial addr options w = tcp_resolved (sockets.resolve (codes "tcp") addr w)

  abbrev buffered : ℕ → Option NetError × W → Dialed × W
  buffered c (some e, w) = (refused e, w)
  buffered c (none, w) = (connected c, w)

  abbrev udp_connected : Dialed × W → Dialed × W
  udp_connected (refused e, w) = (refused e, w)
  udp_connected (connected c, w) = buffered c (sockets.set_write_buffer c write_buffer w)

  abbrev udp_resolved : Resolved × W → Dialed × W
  udp_resolved (unresolved e, w) = (refused e, w)
  udp_resolved (resolved raddr, w) = udp_connected (sockets.connect (codes "udp") raddr w)

  -- udpTransport.Dial: larger packets, for large lines
  unfoldable pub udp_dial : Text → Map Text Text → W → Dialed × W
  udp_dial addr options w = udp_resolved (sockets.resolve (codes "udp") addr w)

  abbrev net_of : (Text → Map Text Text → W → Dialed × W) → Net W
  net_of dial = record {
    dial = dial;
    write = sockets.write;
    sleep = sockets.sleep;
    is_tcp = λ c. is_tcp_connection (sockets.kind c);
    is_udp = λ c. is_udp_conn (sockets.kind c);
  }

  -- The two transports, as the adapters have them.
  abbrev pub tcp_transport : Net W
  tcp_transport = net_of tcp_dial

  abbrev pub udp_transport : Net W
  udp_transport = net_of udp_dial

  -- A connection of a network is of its type.
  pub record Kinds : Type 0 where
    pub of_tcp :
        (raddr : Text) (w w' : W) (c : ℕ)
        → sockets.connect (codes "tcp") raddr w ≡ (connected c, w')
        → sockets.kind c ≡ tcp_conn
    pub of_udp :
        (raddr : Text) (w w' : W) (c : ℕ)
        → sockets.connect (codes "udp") raddr w ≡ (connected c, w')
        → sockets.kind c ≡ udp_conn

  module _ (law : Kinds) where
    tcp_resolved-kind :
        (r : Resolved × W) (w' : W) (c : ℕ)
        → tcp_resolved r ≡ (connected c, w')
        → sockets.kind c ≡ tcp_conn
    tcp_resolved-kind (unresolved e, w) w' c h = absurd (ground (arith, h))
    tcp_resolved-kind (resolved raddr, w) w' c h = law.of_tcp raddr w w' c h

    buffered-conn :
        (d : ℕ) (r : Option NetError × W) (w' : W) (c : ℕ)
        → buffered d r ≡ (connected c, w')
        → d ≡ c
    buffered-conn d (some e, w) w' c h = absurd (ground (arith, h))
    buffered-conn d (none, w) w' c h = ground (arith, h)

    udp_connected-kind :
        (raddr : Text) (w v : W) (r : Dialed) (w' : W) (c : ℕ)
        → sockets.connect (codes "udp") raddr w ≡ (r, v)
        → udp_connected (r, v) ≡ (connected c, w')
        → sockets.kind c ≡ udp_conn
    udp_connected-kind raddr w v (refused e) w' c q h = absurd (ground (arith, h))
    udp_connected-kind raddr w v (connected d) w' c q h =
        subst (λ i. sockets.kind i ≡ udp_conn)
          (buffered-conn d (sockets.set_write_buffer d write_buffer v) w' c h)
          (law.of_udp raddr w v d q)

    udp_resolved-kind :
        (r : Resolved × W) (w' : W) (c : ℕ)
        → udp_resolved r ≡ (connected c, w')
        → sockets.kind c ≡ udp_conn
    udp_resolved-kind (unresolved e, w) w' c h = absurd (ground (arith, h))
    udp_resolved-kind (resolved raddr, w) w' c h =
        let r = sockets.connect (codes "udp") raddr w in
        udp_connected-kind raddr w r.1 r.0 w' c refl h

    -- A connection that the TCP transport dials is one that the syslog adapter writes again on after a
    -- failure, and one of the UDP transport is not.
    pub dial-is_tcp :
        (addr : Text) (options : Map Text Text) (w w' : W) (c : ℕ)
        → (tcp_dial addr options w ≡ (connected c, w') → tcp_transport.is_tcp c ≡ true)
          × (udp_dial addr options w ≡ (connected c, w') → udp_transport.is_tcp c ≡ false)
    unfolding tcp_dial udp_dial
    dial-is_tcp addr options w w' c = (
      λ h. ap is_tcp_connection (tcp_resolved-kind (sockets.resolve (codes "tcp") addr w) w' c h),
      λ h. ap is_tcp_connection (udp_resolved-kind (sockets.resolve (codes "udp") addr w) w' c h),
    )

-- ===== src/Tests/Raws.antt =====
-- Runs and witnesses for the raw adapter.
use logspout.Prelude.{◌≡◌, refl, true, false, List, [], ◌∷◌, ◌++◌, Text, codes, ok}
use logspout.Adapters.Raw.{Adapter, stream, unwritten, closed}
use logspout.Adapters.Raw.Delivery.{WriteFails, Reaches, stream-Reaches}
use logspout.Tests.Network.{flaky, flaky-Delivers, reset}
use logspout.Tests.Data.{line, plain_route}

abbrev plain : Adapter
plain = record { conn = 1; route = plain_route; tmpl = λ m. ok m.text }

-- Over TCP the first failure ends the stream; over UDP it costs one message.
failures :
    (stream (flaky true) plain (line (codes "a") 1 ∷ line (codes "b") 2 ∷ []) (1, [])
      ≡ (unwritten reset, (0, codes "a" ∷ [])))
    × (stream (flaky false) plain (line (codes "a") 1 ∷ line (codes "b") 2 ∷ []) (1, [])
        ≡ (closed, (0, codes "a" ∷ codes "b" ∷ [])))
unfolding stream
failures = (refl, refl)

stream-Reaches_example :
    (done : List Text) × (((stream
          (flaky false)
          plain
          (line (codes "a") 1 ∷ line (codes "b") 2 ∷ [])
          (1, [])).1.1
        ≡ [] ++ done)
      × Reaches plain.tmpl true
          (WriteFails (flaky false) 1)
          (line (codes "a") 1 ∷ line (codes "b") 2 ∷ [])
          (stream (flaky false) plain (line (codes "a") 1 ∷ line (codes "b") 2 ∷ []) (1, [])).0
          done)
stream-Reaches_example =
    stream-Reaches (flaky false) (λ w. w.1) (flaky-Delivers false) plain
      (line (codes "a") 1 ∷ line (codes "b") 2 ∷ []) (1, [])

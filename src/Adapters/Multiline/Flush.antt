-- ===== src/Adapters/Multiline/Flush.antt =====
-- What the timer of `Stream` sends and keeps.
use logspout.Prelude.{
  ◌≡◌, refl, ◌↔◌, List, [], ◌∷◌, Option, none, some, Text, text_key, arith, All, map, Bool, eq_iff,
  if◌then◌else◌, Bool-cases, inl, inr,
}
use logspout.Prelude.Int.{ℤ, ◌+ℤ◌, ◌≤ℤ◌}
use logspout.Map.{Map, lookup}
use logspout.Map.Lookup.{Distinct}
use logspout.Router.Message.{Message}
use logspout.Adapters.Multiline.{Adapter, flush, flushes, on_timer, timer, step, run, false}
use logspout.Adapters.Multiline.Buffered.{flush-absent, Distinct-flush, lookup-flush}

abbrev keep : (Message → Bool) → Option Message → Option Message
keep due none = none
keep due (some m) = if due m then none else some m

lookup-flush_lem :
    (due : Message → Bool) (c : Text) (b : Map Text Message)
    → Distinct b
    → lookup c (flush due b).0 ≡ keep due (lookup c b)
unfolding flush lookup
lookup-flush_lem due c [] d = refl
lookup-flush_lem due c ((k, m) ∷ b) (h, d) =
    ground (arith, lookup-flush_lem due c b d, flush-absent (λ _. false) due k b h, eq_iff k c)

flushes_iff :
    (a : Adapter) (now : ℤ) (m : Message)
    → (flushes a now m ≡ false) ↔ (m.time +ℤ a.flush_after ≤ℤ now)
unfolding flushes
flushes_iff a now m = ground arith

kept_iff :
    (a : Adapter) (now : ℤ) (c : Text) (m : Message)
    → Distinct a.buffers
    → (lookup c (on_timer a now).0.buffers ≡ some m)
      ↔ ((lookup c a.buffers ≡ some m) × (m.time +ℤ a.flush_after ≤ℤ now))
unfolding on_timer
kept_iff a now c m d = (
  λ h. (
    lookup-flush (λ _. false) (flushes a now) c m a.buffers d h,
    (flushes_iff a now m).0 (
        ground (
          arith,
          lookup-flush_lem (flushes a now) c a.buffers d,
          lookup-flush (λ _. false) (flushes a now) c m a.buffers d h,
        )),
  ),
  λ (h, k).
      ground (arith, lookup-flush_lem (flushes a now) c a.buffers d, (flushes_iff a now m).1 k),
)

-- The buffers are parted into what is kept and what is sent, each in the order of the buffers: what is
-- `old` is kept, and the rest sent once.
pub data Parted (old : Message → Type 0)
    : Map Text Message → Map Text Message → List Message → Type 0 where
  nothing : Parted old [] [] []
  kept :
      {b k : Map Text Message} {sent : List Message} (id : Text) (m : Message)
      → old m
      → Parted old b k sent
      → Parted old ((id, m) ∷ b) ((id, m) ∷ k) sent
  flushed :
      {b k : Map Text Message} {sent : List Message} (id : Text) (m : Message)
      → (old m → ⊥)
      → Parted old b k sent
      → Parted old ((id, m) ∷ b) k (m ∷ sent)

abbrev pub IsOld : Adapter → ℤ → Message → Type 0
IsOld a now m = m.time +ℤ a.flush_after ≤ℤ now

flush-Parted :
    (a : Adapter) (now : ℤ) (b : Map Text Message)
    → Parted (IsOld a now) b (flush (flushes a now) b).0 (flush (flushes a now) b).1
unfolding flush
flush-Parted a now [] = nothing
flush-Parted a now ((id, m) ∷ b) = elim (Bool-cases (flushes a now m)) [
  | inl q ↦ rw q (
      flushed id m (λ h. absurd (ground (arith, q, (flushes_iff a now m).1 h)))
        (flush-Parted a now b))
  | inr q ↦ rw q (kept id m ((flushes_iff a now m).0 q) (flush-Parted a now b))
]

-- A timer leaves a message buffered exactly if it was buffered and its time plus `flush_after` is
-- not after the time of the timer; every other buffered message is sent, once and in the order of the
-- buffers, and nothing else is. So it sends the young entries and keeps the old ones.
pub on_timer_iff :
    (a : Adapter) (now : ℤ) (c : Text) (m : Message)
    → Distinct a.buffers
    → ((lookup c (on_timer a now).0.buffers ≡ some m)
        ↔ ((lookup c a.buffers ≡ some m) × (m.time +ℤ a.flush_after ≤ℤ now)))
      × Parted (IsOld a now) a.buffers (on_timer a now).0.buffers (on_timer a now).1
unfolding on_timer
on_timer_iff a now c m d = (kept_iff a now c m d, flush-Parted a now a.buffers)

timer-Distinct : (a : Adapter) (now : ℤ) → Distinct a.buffers → Distinct (on_timer a now).0.buffers
unfolding on_timer
timer-Distinct a now d = Distinct-flush (λ _. false) (flushes a now) a.buffers d

-- Once a timer has found an entry too old to be sent, no later timer sends it either: it stays
-- buffered until another line of its container comes or the stream ends.
pub old_entry_stays :
    (a : Adapter) (c : Text) (m : Message) (nows : List ℤ)
    → Distinct a.buffers
    → lookup c a.buffers ≡ some m
    → All (λ now. m.time +ℤ a.flush_after ≤ℤ now) nows
    → lookup c (run a (map timer nows)).0.buffers ≡ some m
unfolding run step on_timer
old_entry_stays a c m [] d l h = l
old_entry_stays a c m (now ∷ nows) d l (h, hs) =
    old_entry_stays (on_timer a now).0 c m nows (timer-Distinct a now d)
      ((kept_iff a now c m d).1 (l, h)) hs

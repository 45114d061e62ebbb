-- ===== src/Adapters/Syslog/Framing.antt =====
-- The framing of messages over TCP, and the way back of a reader of octet-counted frames (RFC 6587).
use logspout.Prelude.{
  ℕ, zero, suc, ◌+◌, ◌-◌, ◌*◌, ◌≡◌, refl, ap, ◌∙◌, Bool, true, false, List, [], ◌∷◌, ◌++◌,
  append_assoc, Option, none, some, Text, nat_key, ◌==◌, if◌then◌else◌, arith, length, take, drop,
  All,
}
use logspout.Text.Number.{itoa, itoa-spelt, itoa-IsDigit, spelt, IsDigit, is_digit}
use logspout.Adapters.Syslog.{TcpFraming, traditional, octet_counted}

-- fmt.Sprintf("%d ", len(buf)) before the message
unfoldable pub octets : Text → Text
octets buf = itoa (length buf) ++ (32 ∷ buf)

-- The bytes that `Stream` writes for a rendered message.
unfoldable pub framed : Bool → TcpFraming → Text → Text
framed true octet_counted buf = octets buf
framed true traditional buf = buf
framed false _ buf = buf

-- A reader: digits up to a blank, then as many bytes. It has fuel for the frames.
unfoldable pub read_count : ℕ → Text → Option (ℕ × Text)
read_count n [] = none
read_count n (c ∷ s) =
    let more = read_count (n * 10 + (c - b'0')) s in
    if c == 32 then some (n, s) else if is_digit c then more else none

pub read_frames : ℕ → Text → Option (List Text)
read_frames f [] = some []
read_frames zero (c ∷ s) = none
read_frames (suc f) (c ∷ s) = elim (read_count 0 (c ∷ s)) [
  | none ↦ none
  | some (n, rest) ↦ elim (read_frames f (drop n rest)) [
    | none ↦ none
    | some bufs ↦ some (take n rest ∷ bufs)
  ]
]

abbrev pub stream_of : List Text → Text
stream_of [] = []
stream_of (b ∷ bs) = octets b ++ stream_of bs

read_count-digits :
    (ds rest : Text) (n : ℕ)
    → All IsDigit ds
    → read_count n (ds ++ 32 ∷ rest) ≡ some (spelt n ds, rest)
unfolding read_count
read_count-digits [] rest n a = refl
read_count-digits (d ∷ ds) rest n ((lo, hi), a) =
    ground (arith, read_count-digits ds rest (n * 10 + (d - b'0')) a)

take-append {ℓ} : {A : Type ℓ} (xs ys : List A) → take (length xs) (xs ++ ys) ≡ xs
take-append [] ys = refl
take-append (x ∷ xs) ys = ap (λ z. x ∷ z) (take-append xs ys)

drop-append {ℓ} : {A : Type ℓ} (xs ys : List A) → drop (length xs) (xs ++ ys) ≡ ys
drop-append [] ys = refl
drop-append (x ∷ xs) ys = drop-append xs ys

read_count-octets : (b rest : Text) → read_count 0 (octets b ++ rest) ≡ some (length b, b ++ rest)
unfolding octets
read_count-octets b rest =
    rw append_assoc (read_count-digits (itoa (length b)) (b ++ rest) 0 (itoa-IsDigit (length b)))
    ∙ ap (λ n. some (n, b ++ rest)) (itoa-spelt (length b))

abbrev before : Text → Option (List Text) → Option (List Text)
before b none = none
before b (some bufs) = some (b ∷ bufs)

read_frames_step :
    (f n : ℕ) (s rest : Text)
    → read_count 0 s ≡ some (n, rest)
    → read_frames (suc f) s ≡ before (take n rest) (read_frames f (drop n rest))
unfolding read_frames
read_frames_step f n [] rest h = unfold read_count in cc
read_frames_step f n (c ∷ s) rest h = ground arith

-- A reader of octet-counted frames gets back the messages that were written, whatever bytes they
-- hold, line feeds among them.
pub read_frames-stream_of :
    (bufs : List Text) → read_frames (length bufs) (stream_of bufs) ≡ some bufs
read_frames-stream_of [] = unfold read_frames in refl
read_frames-stream_of (b ∷ bufs) =
    read_frames_step (length bufs) (length b) _ _ (read_count-octets b (stream_of bufs))
    ∙ rw
        (take-append b (stream_of bufs), drop-append b (stream_of bufs), read_frames-stream_of bufs)
        refl

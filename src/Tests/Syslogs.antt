-- ===== src/Tests/Syslogs.antt =====
-- Runs and witnesses for the syslog adapter: a network whose connection fails for a while.
use logspout.Prelude.{
  ◌<◌, ℕ, zero, suc, ◌≡◌, refl, Bool, true, false, [], ◌∷◌, ◌++◌, ◌≤◌, ◌*◌, ◌^◌, length, Option,
  none, some, Text, codes, ok, arith, ◌+◌,
}
use logspout.Prelude.Int.{pos}
use logspout.Text.Runes.{Cut, truncate, decode_rune}
use logspout.Text.Number.{itoa}
use logspout.Adapters.Syslog.Delivery.{frames, udp_goes_on, ending, written}
use logspout.Adapters.Syslog.Retry.{
  State, pause, retry_loop, send, write_once, retry, worth_retrying, reconnect, dial_once, stream,
  retry_exp, delay,
}
use logspout.Adapters.Syslog.Bounded.{counted, stream_bounded}
use logspout.Adapters.Syslog.Framing.{framed, octets, read_frames, stream_of, read_frames-stream_of}
use logspout.Adapters.Syslog.Render.{execute, layout, Fields, render, render_rfc5424}
use logspout.Adapters.Syslog.Attempts.{state_at, FailsBefore, retry_exp_success, delay_exact}
use logspout.Tests.Network.{reset, flaky}
use logspout.Tests.Data.{line, plain_route}
use logspout.Transport.{NetError}
use logspout.Adapters.Syslog.{Adapter, rfc5424, FieldTemplates, octet_counted}

abbrev pub text_template : FieldTemplates
text_template = record {
  priority = λ m. ok (codes "14");
  timestamp = λ m. ok (codes "now");
  hostname = λ m. ok (codes "web");
  tag = λ m. ok m.container.name;
  pid = λ m. ok (codes "7");
  structured_data = λ m. ok (codes "-");
  content = λ m. ok m.text;
}

abbrev pub over_tcp : Bool → Adapter
over_tcp tcp = record {
  route = plain_route;
  conn = 1;
  conn_is_tcp = tcp;
  format = rfc5424;
  tmpl = text_template;
  tcp_framing = octet_counted;
  retry_count = 2;
}

-- The first write fails after a byte, the adapter dials again, and both messages arrive.
delivered :
    (stream
      (flaky true)
      (line (codes "up") 1 ∷ line (codes "ok") 2 ∷ [])
      (over_tcp true, (1, []))).1.1.1
    ≡ codes "3"
      ∷ codes "31 <14>1 now web /web_db 7 - - up\n"
      ∷ codes "31 <14>1 now web /web_db 7 - - ok\n"
      ∷ []
unfolding stream render execute send write_once retry worth_retrying reconnect retry_exp dial_once
    framed octets itoa layout truncate decode_rune
delivered = refl

few_retries : suc 2 < 2 ^ 64
few_retries = omega arith

stream_bounded_example :
    ((stream (counted (flaky true)) (line (codes "up") 1 ∷ []) (over_tcp true, ((1, []), 0))).1.1.1
      ≤ 1 * (2 * 2 + 4))
    × ((fun : State (counted (flaky true)) → Option NetError × State (counted (flaky true)))
          (s : State (counted (flaky true)))
        → retry_loop fun (pause (counted (flaky true))) 3 2 0 s
          ≡ some (retry_exp fun (pause (counted (flaky true))) 2 s))
stream_bounded_example =
    stream_bounded (flaky true) (line (codes "up") 1 ∷ []) (over_tcp true) (1, []) few_retries

udp_goes_on_example : stream (flaky false) (line (codes "up") 1 ∷ []) (over_tcp false, (1, [])) ≡ (
  ending (over_tcp false) (line (codes "up") 1 ∷ []),
  (
    over_tcp false,
    written (flaky false) 1 (frames (over_tcp false) (line (codes "up") 1 ∷ [])) (1, []),
  ),
)
udp_goes_on_example =
    udp_goes_on (flaky false) (line (codes "up") 1 ∷ []) (over_tcp false) (1, []) refl

read_frames-stream_of_example :
    read_frames 2 (stream_of (codes "a\nb" ∷ codes "c" ∷ [])) ≡ some (codes "a\nb" ∷ codes "c" ∷ [])
read_frames-stream_of_example = read_frames-stream_of (codes "a\nb" ∷ codes "c" ∷ [])

abbrev line_fields : Fields
line_fields = record {
  priority = codes "14";
  timestamp = codes "now";
  hostname = codes "web";
  tag = codes "/web_db";
  pid = codes "7";
  structured_data = codes "-";
  content = codes "up";
}

render_rfc5424_example :
    (h tag pid : Text) × (render rfc5424 text_template (line (codes "up") 1)
      ≡ ok (
          codes "<"
          ++ (codes "14"
              ++ (codes ">1 "
                  ++ (codes "now"
                      ++ (codes " "
                          ++ (h
                              ++ (codes " "
                                  ++ (tag
                                      ++ (codes " "
                                          ++ (pid
                                              ++ (codes " - "
                                                  ++ (codes "-"
                                                      ++ (codes " "
                                                          ++ (codes "up"
                                                            ++ codes "\n")))))))))))))))
    × (Cut 255 (codes "web") h × (length h ≤ 4 * 255))
    × (Cut 48 (codes "/web_db") tag × (length tag ≤ 4 * 48))
    × (Cut 128 (codes "7") pid × (length pid ≤ 4 * 128))
unfolding execute
render_rfc5424_example = render_rfc5424 text_template (line (codes "up") 1) line_fields refl

-- A function that fails as often as its state says.
abbrev count_down : ℕ → Option NetError × ℕ
count_down zero = (none, 0)
count_down (suc n) = (some reset, n)

first_fails : FailsBefore count_down (λ d n. n) 1 1 1
unfolding state_at
first_fails zero h = (reset, refl)
first_fails (suc i) h = let e : ⊥ = omega arith in elim e [ ]

retry_exp_success_example : retry_exp count_down (λ d n. n) 3 1 ≡ (none, 0)
unfolding state_at
retry_exp_success_example =
    retry_exp_success count_down (λ d n. n) 3 1 1 (omega arith) first_fails refl

delay_exact_example : delay 3 ≡ pos (2 ^ 3 * 10_000_000)
delay_exact_example = delay_exact 3 (omega arith)

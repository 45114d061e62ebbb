-- ===== src/Tests/Streams.antt =====
-- Runs and witnesses for the logs over HTTP.
use logspout.Text.Runes.{rune_count, decode_rune}
use logspout.Text.Number.{itoa}
use logspout.Prelude.{
  ◌≡◌, ◌≢◌, ◌↔◌, refl, Bool, true, false, List, [], ◌∷◌, ◌++◌, Text, codes, text_key, text_beq,
}
use logspout.Map.{lookup}
use logspout.Router.Message.{Message}
use logspout.Router.Route.{match_container}
use logspout.HttpStream.{
  Request, Settings, requested, logs_handler, not_found, Colorizer, color_of, get, stream_all,
  http_streamer, start, written, pad,
}
use logspout.HttpStream.Colors.{get_all, Reached, fresh, asked}
use logspout.HttpStream.Requests.{asks_for, requested-match_container, logs_handler-not_found_iff}
use logspout.HttpStream.Shown.{ShownBy, stream_all-ShownBy}
use logspout.Tests.Data.{web, line}

abbrev by_id : Text → Request
by_id id = record {
  predicate = codes "id";
  value = id;
  upgrade = [];
  accept = [];
  query = λ key. [];
}

abbrev two_lines : List Message
two_lines = line (codes "up") 1 ∷ line (codes "ok") 2 ∷ []

colored :
    http_streamer (λ m. []) (by_id []) true (line (codes "up") 1 ∷ [])
    ≡ (((27 ∷ codes "[1;37m") ++ (codes "          web_db|up" ++ 27 ∷ codes "[0m\n")) ∷ [], true)
unfolding http_streamer written text_beq get lookup color_of itoa pad rune_count decode_rune
colored = refl

abbrev two_keys : Colorizer
two_keys = (codes "a", 0) ∷ (codes "bb", 1) ∷ []

two_asked : Reached (get_all [] (codes "a" ∷ codes "bb" ∷ []))
two_asked = asked (codes "bb") (asked (codes "a") fresh)

requested-match_container_example :
    match_container (requested (by_id (codes "8df"))) web.id (codes "web_db") web.labels
    ≡ asks_for (by_id (codes "8df")) web.id (codes "web_db")
requested-match_container_example =
    requested-match_container (by_id (codes "8df")) web.id (codes "web_db") web.labels

logs_handler-not_found_iff_example :
    (logs_handler (λ id. false) 1 2 (by_id (codes "8df")) ≡ not_found)
    ↔ ((codes "8df" ≢ []) × (codes "id" ≡ codes "id") × (◌≡◌ {A = Bool} false false))
logs_handler-not_found_iff_example =
    logs_handler-not_found_iff (λ id. false) 1 2 (by_id (codes "8df"))

abbrev full_id : Text
full_id = codes "8dfafdbc3a40ff"

abbrev plain_settings : Settings
plain_settings = record { usecolor = true; usejson = false; multi = true; sources = codes "stdout" }

stream_all-ShownBy_example :
    ShownBy
      (λ m. [])
      plain_settings
      two_lines
      (stream_all (λ m. []) plain_settings start two_lines).0
    × ((stream_all (λ m. []) plain_settings start two_lines).1 ≡ true)
stream_all-ShownBy_example =
    stream_all-ShownBy (λ m. []) plain_settings start two_lines ((λ e. cc), ((λ e. cc), tt))

-- ===== src/Main.antt =====
-- logspout.go: the start of the program. Its output is a list of lines, without the log's time; the
-- table of routes is given before `tabwriter` aligns it. A job is what `Jobs` has of it, over the state
-- `W` of the program.
pub mod Failure
use logspout.Prelude.{
  Bool, false, List, [], ◌∷◌, ◌++◌, Option, none, some, Text, codes, text_key, ◌==◌, if◌then◌else◌,
}
use logspout.Cfg.{Env, get_env_default}
use logspout.Map.{Map}
use logspout.Text.{join}
use logspout.Router.Route.{Route}

-- `Job` of router/types.go; its `Run` is started last, and only how it ends is part of this.
pub record Job (W : Type 0) : Type 0 where
  pub name : Text
  pub setup : W → Option Text × W

-- How the start ends: with the version, with a job's error, or with all jobs running.
pub data Started : Type 0 where
  exit_version : Started
  exit_failed : Text → Started
  running : List Text → Started

-- os.Args[1] == "--version", of two arguments
abbrev pub asks_version : List Text → Bool
asks_version (_ ∷ a ∷ []) = a == codes "--version"
asks_version _ = false

abbrev pub option_line : Text → Text → List Text
option_line label [] = []
option_line label (c ∷ s) = (label ++ (c ∷ s)) ∷ []

-- The lines before the jobs.
unfoldable pub banner : Text → List Text → Env → List Text
banner version adapters env =
    (codes "# logspout " ++ (version ++ codes " by gliderlabs"))
      ∷ (codes "# adapters: " ++ join adapters (codes " "))
      ∷ codes "# options : "
      ∷ option_line (codes "debug:") (get_env_default env (codes "DEBUG") [])
    ++ (option_line (codes "backlog:") (get_env_default env (codes "BACKLOG") [])
        ++ (codes "persist:" ++ get_env_default env (codes "ROUTESPATH") (codes "/mnt/routes"))
          ∷ [])

abbrev pub with_name : Text → List Text → List Text
with_name [] names = names
with_name (c ∷ s) names = (c ∷ s) ∷ names

module _ {W : Type 0} where
  -- The loop over the jobs: the first error, or the names of the jobs that have one.
  unfoldable pub setup_jobs : List (Job W) → W → (Option Text × List Text) × W
  setup_jobs [] w = ((none, []), w)
  setup_jobs (job ∷ jobs) w =
      let (e, w') = job.setup w in
      let ((e', names), w'') = setup_jobs jobs w' in
      elim e [ some x ↦ ((some x, []), w') | none ↦ ((e', with_name job.name names), w'') ]

module _ (options_text : Map Text Text → Text) where
  -- A row of the table of routes.
  unfoldable pub route_row : Route → Text
  route_row r =
      codes "#   "
      ++ (r.adapter
          ++ (codes "\t"
              ++ (r.address
                  ++ (codes "\t"
                      ++ ((r.filter_id ++ (r.filter_name ++ join r.filter_labels (codes ",")))
                          ++ (codes "\t"
                              ++ (join r.filter_sources (codes ",")
                                  ++ (codes "\t" ++ options_text r.options))))))))

  abbrev rows : List Route → List Text
  rows [] = []
  rows (r ∷ rs) = route_row r ∷ rows rs

  -- The lines about the routes.
  unfoldable pub route_lines : List Route → List Text
  route_lines [] = codes "# routes  : none" ∷ []
  route_lines (r ∷ rs) =
      codes "# routes  :"
      ∷ codes "#   ADAPTER\tADDRESS\tCONTAINERS\tSOURCES\tOPTIONS"
      ∷ rows (r ∷ rs)

  module _ {W : Type 0} (routes_of : W → List Route) where
    abbrev pub after_setup : List Text → (Option Text × List Text) × W → List Text × Started × W
    after_setup lines ((some e, names), w) = (lines ++ (codes "!! " ++ e) ∷ [], exit_failed e, w)
    after_setup lines ((none, names), w) = (
      lines ++ ((codes "# jobs    : " ++ join names (codes " ")) ∷ route_lines (routes_of w)),
      running names,
      w,
    )

    -- main, up to the start of the jobs
    unfoldable pub main :
        List Text → Text → List Text → Env → List (Job W) → W → List Text × Started × W
    unfolding banner setup_jobs
    main args version adapters env jobs w =
        if asks_version args
        then (version ∷ [], exit_version, w)
        else after_setup (banner version adapters env) (setup_jobs jobs w)

-- log.Fatalf("%s ended: %s", job.Name(), job.Run()), where `fmt` has its own text for a nil error
abbrev pub ended_line : Text → Option Text → Text
ended_line name e = name ++ (codes " ended: " ++ elim e [ none ↦ codes "%!s(<nil>)" | some x ↦ x ])

-- The goroutines of the jobs, and the wait: of the jobs that end, in their order, the first one ends
-- the program.
abbrev pub jobs_end : List (Text × Option Text) → Option Text
jobs_end [] = none
jobs_end ((name, e) ∷ later) = some (ended_line name e)

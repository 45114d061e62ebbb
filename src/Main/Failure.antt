-- ===== src/Main/Failure.antt =====
-- A start of the program at which a job cannot be set up.
use logspout.Prelude.{◌≡◌, refl, ap, ◌∙◌, false, List, [], ◌∷◌, ◌++◌, none, some, Text, codes}
use logspout.Cfg.{Env}
use logspout.Map.{Map}
use logspout.Router.Route.{Route}
use logspout.Main.{Job, exit_failed, asks_version, banner, with_name, setup_jobs, after_setup, main}

module _ {W : Type 0} where
  -- These jobs are set up one after the other, from `w` to `w'`.
  pub data SetUp : List (Job W) → W → W → Type 0 where
    all_set : (w : W) → SetUp [] w w
    then_set :
        {job : Job W} {jobs : List (Job W)} {w w' w'' : W}
        → job.setup w ≡ (none, w')
        → SetUp jobs w' w''
        → SetUp (job ∷ jobs) w w''

  setup_jobs-fails :
      (job : Job W) (rest : List (Job W)) (w w' : W) (e : Text)
      → job.setup w ≡ (some e, w')
      → setup_jobs (job ∷ rest) w ≡ ((some e, []), w')
  unfolding setup_jobs
  setup_jobs-fails job rest w w' e h = rw (ap (λ x. x.0) h, ap (λ x. x.1) h) refl

  setup_jobs-set :
      (job : Job W) (jobs : List (Job W)) (w w' w'' : W) (e : Text) (names : List Text)
      → job.setup w ≡ (none, w')
      → setup_jobs jobs w' ≡ ((some e, names), w'')
      → (names' : List Text) × (setup_jobs (job ∷ jobs) w ≡ ((some e, names'), w''))
  unfolding setup_jobs
  setup_jobs-set job jobs w w' w'' e names h k = (
    with_name job.name names,
    rw (ap (λ x. x.0) h) (
        ap (λ s. ((s.0.0, with_name job.name s.0.1), s.1))
          (ap (setup_jobs jobs) (ap (λ x. x.1) h) ∙ k)),
  )

  setup_jobs-SetUp :
      {done : List (Job W)} (job : Job W) (rest : List (Job W)) {w w' w'' : W} (e : Text)
      → SetUp done w w'
      → job.setup w' ≡ (some e, w'')
      → (names : List Text) × (setup_jobs (done ++ job ∷ rest) w ≡ ((some e, names), w''))
  setup_jobs-SetUp job rest {w'' = w''} e (all_set w) h = ([], setup_jobs-fails job rest w w'' e h)
  setup_jobs-SetUp job rest {w'' = w''} e
        (then_set {job = job'} {jobs = jobs} {w = w} {w' = w1} q s) h =
      let (names, k) = setup_jobs-SetUp job rest e s h in
      setup_jobs-set job' (jobs ++ job ∷ rest) w w1 w'' e names q k

  module _ (options_text : Map Text Text → Text) (routes_of : W → List Route) where
    -- When a job cannot be set up, the program writes the job's error after the lines of its start, and
    -- ends: the jobs before that one are set up, and of those after it none is.
    pub main_fails :
        (args : List Text) (version : Text) (adapters : List Text) (env : Env) {done : List (Job W)}
        (job : Job W) (rest : List (Job W)) {w w' w'' : W} (e : Text)
        → asks_version args ≡ false
        → SetUp done w w'
        → job.setup w' ≡ (some e, w'')
        → main options_text routes_of args version adapters env (done ++ job ∷ rest) w
          ≡ (banner version adapters env ++ (codes "!! " ++ e) ∷ [], exit_failed e, w'')
    main_fails args version adapters env job rest e a s h =
        let (names, k) = setup_jobs-SetUp job rest e s h in
        unfold main in
        rw a (ap (after_setup options_text routes_of (banner version adapters env)) k)

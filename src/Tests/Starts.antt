-- ===== src/Tests/Starts.antt =====
-- Starts of the program: a job of three that cannot be set up.
use logspout.Prelude.{◌≡◌, refl, ℕ, suc, [], ◌∷◌, none, some, Text, codes, ◌++◌}
use logspout.Main.{Job, main, banner, exit_failed}
use logspout.Main.Failure.{then_set, all_set, main_fails}

-- The state counts the jobs that were set up.
abbrev sets_up : Text → Job ℕ
sets_up name = record { name = name; setup = λ n. (none, suc n) }

abbrev fails : Job ℕ
fails = record { name = codes "pump"; setup = λ n. (some (codes "no docker"), n) }

main_fails_example :
    main
      (λ o. [])
      (λ n. [])
      (codes "logspout" ∷ [])
      (codes "v3")
      []
      (λ n. [])
      (sets_up (codes "http") ∷ fails ∷ sets_up (codes "routes") ∷ [])
      0
    ≡ (
      banner (codes "v3") [] (λ n. []) ++ codes "!! no docker" ∷ [],
      exit_failed (codes "no docker"),
      1,
    )
main_fails_example =
    main_fails (λ o. []) (λ n. []) (codes "logspout" ∷ []) (codes "v3") [] (λ n. []) fails
      (sets_up (codes "routes") ∷ []) (codes "no docker") refl
      (then_set {job = sets_up (codes "http")} refl (all_set 1)) refl

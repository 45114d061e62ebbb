-- ===== src/Tests/Linked.antt =====
-- The registries of the program that modules.go links.
use logspout.Prelude.{◌≡◌, refl, [], ◌∷◌, some, codes, text_beq, inl, inr, text_key}
use logspout.Map.{lookup, insert, has, keys}
use logspout.Router.Extensions.{register}
use logspout.Modules.{linked, no_registries, init_all, raw_tls, tls}
use logspout.Modules.Order.{In, factories_found}

tls_linked : In tls linked
tls_linked = inr (inr (inr (inr (inr (inr (inr (inr (inr (inr (inr (inr (inl refl))))))))))))

factories_found_example :
    lookup (codes "tls") (init_all linked no_registries).factories ≡ some raw_tls
factories_found_example = factories_found linked tls (codes "tls") raw_tls tls_linked refl

handlers_and_jobs :
    (keys (init_all linked no_registries).handlers
      ≡ codes "health" ∷ codes "logs" ∷ codes "routes" ∷ [])
    × (keys (init_all linked no_registries).jobs
        ≡ codes "http" ∷ codes "pump" ∷ codes "routes" ∷ [])
unfolding init_all register insert has lookup text_beq
handlers_and_jobs = (refl, refl)

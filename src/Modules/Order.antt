-- ===== src/Modules/Order.antt =====
-- The registries after the `init` functions, in any order.
use mathlib.Core.Path.{subst}
use logspout.Prelude.{
  ◌≡◌, refl, sym, ap, ◌∙◌, List, [], ◌∷◌, ◌++◌, Option, none, some, Text, codes, text_key, ◌==◌,
  if◌then◌else◌, ◌⊎◌, inl, inr, text_beq,
}
use logspout.Map.{lookup}
use logspout.Router.Extensions.{name_of}
use logspout.Router.Extensions.Registered.{register_each, Among, Owned, lookup-any_order}
use logspout.Modules.{
  Factory, new_raw, new_syslog, new_gelf, new_loki, new_multiline, raw_tcp, raw_udp, raw_tls,
  Registries, no_registries, unnamed, Package, init, init_all, raw, syslog, gelf, loki, multiline,
  tcp, udp, tls, httpstream, routesapi, healthcheck, router_http, router_pump, router_routes,
}

-- The adapter factory of a package, with its name.
abbrev pub factory_of : Package → List (Text × Factory)
factory_of raw = (codes "raw", new_raw) ∷ []
factory_of syslog = (codes "syslog", new_syslog) ∷ []
factory_of gelf = (codes "gelf", new_gelf) ∷ []
factory_of loki = (codes "loki", new_loki) ∷ []
factory_of multiline = (codes "multiline", new_multiline) ∷ []
factory_of tcp = (codes "tcp", raw_tcp) ∷ []
factory_of udp = (codes "udp", raw_udp) ∷ []
factory_of tls = (codes "tls", raw_tls) ∷ []
factory_of httpstream = []
factory_of routesapi = []
factory_of healthcheck = []
factory_of router_http = []
factory_of router_pump = []
factory_of router_routes = []

abbrev all_factories : List Package → List (Text × Factory)
all_factories [] = []
all_factories (p ∷ ps) = factory_of p ++ all_factories ps

-- The factory that a name means.
abbrev owner : Text → Option Factory
owner name =
    if name == codes "raw"
    then some new_raw
    else if name == codes "syslog"
    then some new_syslog
    else if name == codes "gelf"
    then some new_gelf
    else if name == codes "loki"
    then some new_loki
    else if name == codes "multiline"
    then some new_multiline
    else if name == codes "tcp"
    then some raw_tcp
    else if name == codes "udp"
    then some raw_udp
    else if name == codes "tls"
    then some raw_tls
    else none

-- Is the package among these?
abbrev pub In : Package → List Package → Type 0
In p [] = ⊥
In p (q ∷ ps) = (p ≡ q) ⊎ In p ps

factories-init :
    (p : Package) (ps : List Package) (reg : Registries)
    → register_each unnamed (all_factories ps) (init p reg).factories
      ≡ register_each unnamed (factory_of p ++ all_factories ps) reg.factories
unfolding init register_each
factories-init raw ps reg = refl
factories-init syslog ps reg = refl
factories-init gelf ps reg = refl
factories-init loki ps reg = refl
factories-init multiline ps reg = refl
factories-init tcp ps reg = refl
factories-init udp ps reg = refl
factories-init tls ps reg = refl
factories-init httpstream ps reg = refl
factories-init routesapi ps reg = refl
factories-init healthcheck ps reg = refl
factories-init router_http ps reg = refl
factories-init router_pump ps reg = refl
factories-init router_routes ps reg = refl

factories-init_all :
    (ps : List Package) (reg : Registries)
    → (init_all ps reg).factories ≡ register_each unnamed (all_factories ps) reg.factories
unfolding init_all
factories-init_all [] reg = unfold register_each in refl
factories-init_all (p ∷ ps) reg = factories-init_all ps (init p reg) ∙ factories-init p ps reg

all_factories-Owned : (ps : List Package) → Owned unnamed owner (all_factories ps)
unfolding text_beq
all_factories-Owned [] = tt
all_factories-Owned (raw ∷ ps) = (refl, all_factories-Owned ps)
all_factories-Owned (syslog ∷ ps) = (refl, all_factories-Owned ps)
all_factories-Owned (gelf ∷ ps) = (refl, all_factories-Owned ps)
all_factories-Owned (loki ∷ ps) = (refl, all_factories-Owned ps)
all_factories-Owned (multiline ∷ ps) = (refl, all_factories-Owned ps)
all_factories-Owned (tcp ∷ ps) = (refl, all_factories-Owned ps)
all_factories-Owned (udp ∷ ps) = (refl, all_factories-Owned ps)
all_factories-Owned (tls ∷ ps) = (refl, all_factories-Owned ps)
all_factories-Owned (httpstream ∷ ps) = all_factories-Owned ps
all_factories-Owned (routesapi ∷ ps) = all_factories-Owned ps
all_factories-Owned (healthcheck ∷ ps) = all_factories-Owned ps
all_factories-Owned (router_http ∷ ps) = all_factories-Owned ps
all_factories-Owned (router_pump ∷ ps) = all_factories-Owned ps
all_factories-Owned (router_routes ∷ ps) = all_factories-Owned ps

name_unnamed : (c : Factory) (k : Text) → name_of unnamed c k ≡ k
name_unnamed c [] = refl
name_unnamed c (b ∷ k) = refl

Among-append :
    (k : Text) (c : Factory) (xs ys : List (Text × Factory))
    → Among unnamed k c ys
    → Among unnamed k c (xs ++ ys)
Among-append k c [] ys a = a
Among-append k c (x ∷ xs) ys a = inr (Among-append k c xs ys a)

In-Among :
    (p : Package) (ps : List Package) (k : Text) (c : Factory)
    → In p ps
    → factory_of p ≡ (k, c) ∷ []
    → Among unnamed k c (all_factories ps)
In-Among p [] k c a e = absurd a
In-Among p (q ∷ ps) k c (inl h) e =
    subst (λ fs. Among unnamed k c (fs ++ all_factories ps)) (sym (ap factory_of (sym h) ∙ e))
      (inl (name_unnamed c k, refl))
In-Among p (q ∷ ps) k c (inr a) e =
    Among-append k c (factory_of q) (all_factories ps) (In-Among p ps k c a e)

-- In whatever order the packages are initialised, and whichever of them are linked in, the name of an
-- adapter means the factory of the linked package that registers it.
pub factories_found :
    (order : List Package) (p : Package) (k : Text) (c : Factory)
    → In p order
    → factory_of p ≡ (k, c) ∷ []
    → lookup k (init_all order no_registries).factories ≡ some c
factories_found order p k c a e =
    ap (lookup k) (factories-init_all order no_registries)
    ∙ lookup-any_order unnamed owner (all_factories order) k c (all_factories-Owned order)
        (In-Among p order k c a e)

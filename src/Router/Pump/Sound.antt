-- ===== src/Router/Pump/Sound.antt =====
-- The table of pumps in every state that the pumps' steps lead to.
use logspout.Prelude.{
  ℕ, suc, ◌≡◌, ◌<◌, refl, sym, ap, ◌∙◌, false, [], none, some, Text, text_key, nat_key, ◌==◌,
  eq_iff, arith, Bool-cases, Option-cases, inl, inr,
}
use logspout.Cfg.{Env}
use logspout.Map.{lookup, insert, has}
use logspout.Map.Lookup.{lookup-insert_inv, lookup-delete_inv}
use logspout.Router.Message.{Container}
use logspout.Router.Pump.{
  normal_id, left_out, ContainerPump, new_container_pump, add, remove, ignore_container,
  ignore_container_tty, log_driver_supported,
}
use logspout.Router.Pump.Table.{
  LogsPump, put, pump_logs, dead, rename, PumpStep, pumped, died_out, renamed, joined, left,
  pump_step,
}

abbrev pub empty_pump : LogsPump
empty_pump = record {
  pumps = [];
  store = λ i. new_container_pump (record {
    id = [];
    name = [];
    image = [];
    created = [];
    node = none;
    running = false;
    log_driver = [];
    tty = false;
    env = [];
    labels = [];
    config_image = [];
    cmd = [];
  });
  next = 0;
  routes = [];
}

-- The ids of the table have pumps of their own, made before, of containers that are not left out.
pub record Sound (env : Env) (p : LogsPump) : Type 0 where
  pub below : (id : Text) (i : ℕ) → lookup id p.pumps ≡ some i → i < p.next
  pub apart : (a b : Text) (i : ℕ) → lookup a p.pumps ≡ some i → lookup b p.pumps ≡ some i → a ≡ b
  pub kept :
      (id : Text) (i : ℕ) → lookup id p.pumps ≡ some i → left_out env (p.store i).container ≡ false

-- What is left out does not depend on the name.
left_out-name :
    (env : Env) (c : Container) (name : Text)
    → left_out env (record c { name = name }) ≡ left_out env c
unfolding left_out ignore_container ignore_container_tty log_driver_supported
left_out-name env c name = refl

module _ (env : Env) where
  put-kept :
      (i j : ℕ) (cp : ContainerPump) (p : LogsPump)
      → left_out env cp.container ≡ left_out env (p.store i).container
      → left_out env (p.store j).container ≡ false
      → left_out env ((put i cp p).store j).container ≡ false
  unfolding put
  put-kept i j cp p e h = elim (Bool-cases (i == j)) [
    | inl q ↦ rw q (e ∙ ap (λ k. left_out env (p.store k).container) ((eq_iff i j).0 q) ∙ h)
    | inr q ↦ rw q h
  ]

  put-Sound :
      (i : ℕ) (cp : ContainerPump) (p : LogsPump)
      → left_out env cp.container ≡ left_out env (p.store i).container
      → Sound env p
      → Sound env (put i cp p)
  unfolding put
  put-Sound i cp p e s = record {
    below = s.below;
    apart = s.apart;
    kept = λ id j h. put-kept i j cp p e (s.kept id j h);
  }

  dead-Sound : (id : Text) (p : LogsPump) → Sound env p → Sound env (dead id p)
  unfolding dead
  dead-Sound id p s = record {
    below = λ a i h. s.below a i (lookup-delete_inv (normal_id id) a i p.pumps h).1;
    apart = λ a b i h k.
        s.apart a b i (lookup-delete_inv (normal_id id) a i p.pumps h).1
          (lookup-delete_inv (normal_id id) b i p.pumps k).1;
    kept = λ a i h. s.kept a i (lookup-delete_inv (normal_id id) a i p.pumps h).1;
  }

  rename-Sound : (id name : Text) (p : LogsPump) → Sound env p → Sound env (rename id name p)
  unfolding rename
  rename-Sound id name p s = elim (Option-cases (lookup (normal_id id) p.pumps)) [
    | inl e ↦ rw (e, rename) s
    | inr (i, e) ↦ rw (e, rename) (put-Sound i _ p (left_out-name env (p.store i).container name) s)
  ]

  -- The table with a pump more, for an id that has none.
  abbrev made : Text → Container → LogsPump → LogsPump
  made id c p =
      put p.next (new_container_pump c)
        (record p { pumps = insert id p.next p.pumps; next = suc p.next })

  made-Sound :
      (id : Text) (c : Container) (p : LogsPump)
      → left_out env c ≡ false
      → Sound env p
      → Sound env (made id c p)
  unfolding put new_container_pump
  made-Sound id c p out s = record {
    below = λ a i h. elim (lookup-insert_inv id a p.next i p.pumps h) [
      | inl (_, q) ↦ omega arith
      | inr (_, q) ↦ omega (arith, s.below a i q)
    ];
    apart = λ a b i h k. elim (lookup-insert_inv id a p.next i p.pumps h) [
      | inl (pa, qa) ↦ elim (lookup-insert_inv id b p.next i p.pumps k) [
        | inl (pb, qb) ↦ sym pa ∙ pb
        | inr (pb, qb) ↦ absurd (omega (arith, s.below b i qb))
      ]
      | inr (pa, qa) ↦ elim (lookup-insert_inv id b p.next i p.pumps k) [
        | inl (pb, qb) ↦ absurd (omega (arith, s.below a i qa))
        | inr (pb, qb) ↦ s.apart a b i qa qb
      ]
    ];
    kept = λ a i h. elim (lookup-insert_inv id a p.next i p.pumps h) [
      | inl (_, q) ↦ ground (arith, eq_iff p.next i)
      | inr (_, q) ↦ ground (arith, s.kept a i q, eq_iff p.next i)
    ];
  }

  pump_logs-Sound :
      (id : Text) (c : Container) (p : LogsPump) → Sound env p → Sound env (pump_logs env id c p)
  unfolding pump_logs
  pump_logs-Sound id c p s = elim (Bool-cases (left_out env c)) [
    | inl q ↦ rw (q, pump_logs) s
    | inr q ↦ elim (Bool-cases (has (normal_id id) p.pumps)) [
      | inl t ↦ rw (q, t, pump_logs) s
      | inr t ↦ rw (q, t, pump_logs) (made-Sound (normal_id id) c p q s)
    ]
  ]

  pump_step-Sound : (e : PumpStep) (p : LogsPump) → Sound env p → Sound env (pump_step env e p)
  unfolding pump_step add remove
  pump_step-Sound (pumped id c) p s = pump_logs-Sound id c p s
  pump_step-Sound (died_out id) p s = dead-Sound id p s
  pump_step-Sound (renamed id name) p s = rename-Sound id name p s
  pump_step-Sound (joined i c r) p s = put-Sound i _ p refl s
  pump_step-Sound (left i c) p s = put-Sound i _ p refl s

  -- The tables that the steps of the pumps and routes lead to.
  pub data Reach : LogsPump → Type 0 where
    none_yet : Reach empty_pump
    stepped : {p : LogsPump} (e : PumpStep) → Reach p → Reach (pump_step env e p)

  -- In whatever order containers start, die and are renamed and routes come and go, no container that
  -- is to be left out has a pump in the table, and no two ids share one.
  pub Reach-Sound : {p : LogsPump} → Reach p → Sound env p
  unfolding lookup
  Reach-Sound none_yet = record {
    below = λ id i h. cc;
    apart = λ a b i h k. cc;
    kept = λ id i h. cc;
  }
  Reach-Sound (stepped {p} e r) = pump_step-Sound e p (Reach-Sound r)

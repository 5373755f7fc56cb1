-- ===== src/Startup/Order.antt =====
-- The order of the calls at start-up, and how the program ends.
use fyp.Common.{[], ◌∷◌, ◌++◌, refl, sym, ap, subst}
use fyp.Exec.{ok, ◌>>=◌}
use fyp.Trace.{Obeys, silent, call, Before, there}
use fyp.Startup.{
  Packages, main_flags, controller_build, scheme_builder, reconciler_of, manager_options, init,
  set_up_with_manager, run_manager, main, program,
}
use fyp.Startup.Calls.{
  Trace, Oracle, tracing, Calm, panics, added_client_go, added_to_scheme, parsed, set_logger,
  got_config, made_manager, completed, added_healthz_check, added_readyz_check, logged_info,
  handled_signals,
}
use fyp.Startup.Rules.{
  Before-last, lift_assoc, Ending, Due, plain, starts, Sound, checked-Sound, must-Sound, exit-Sound,
  last-Sound,
}

module _ {E : Type 0} {types : Packages} (o : Oracle E types) where
  module _ (config : types.Config) (values : types.Values) (m : types.Manager) where
    -- What is behind the manager when `run_manager` begins.
    record IsMade (t : Trace E types) : Type 0 where
      calm : Calm t
      due : Obeys (Due o) t
      known : Before (added_client_go o.new_scheme (ok tt)) t
      own : Before (added_to_scheme (scheme_builder (tracing o)) o.new_scheme (ok tt)) t
      made : Before (made_manager config (manager_options (tracing o) values) (ok m)) t

    run_manager-Sound :
        (t : Trace E types) → IsMade t → Sound o (run_manager (tracing o) values m t)
    unfolding run_manager set_up_with_manager ◌>>=◌
    run_manager-Sound t b =
        let rec = reconciler_of (tracing o) m values in
        let r₁ = o.complete t m controller_build rec in
        let t₁ : Trace E types = completed m controller_build rec r₁ ∷ t in
        let d₁ = call (plain refl b.calm) b.due in
        checked-Sound o refl b.calm d₁ _ _ r₁ _ refl λ a₁ e₁ c₁.
          let r₂ = o.add_healthz_check t₁ m "healthz" o.ping in
          let t₂ : Trace E types = added_healthz_check m "healthz" o.ping r₂ ∷ t₁ in
          let d₂ = call (plain refl c₁) d₁ in
          checked-Sound o refl c₁ d₂ _ _ r₂ _ refl λ a₂ e₂ c₂.
            let r₃ = o.add_readyz_check t₂ m "readyz" o.ping in
            let t₃ : Trace E types = added_readyz_check m "readyz" o.ping r₃ ∷ t₂ in
            let d₃ = call (plain refl c₂) d₂ in
            checked-Sound o refl c₂ d₃ _ _ r₃ _ refl λ a₃ e₃ c₃.
              let t₄ : Trace E types = logged_info "starting manager" ∷ t₃ in
              let d₄ = call (plain refl c₃) d₃ in
              let c₄ : Calm t₄ = (refl, refl, c₃) in
              let ctx = o.setup_signal_handler t₄ in
              let t₅ : Trace E types = handled_signals ctx ∷ t₄ in
              let d₅ = call (plain refl c₄) d₄ in
              let c₅ : Calm t₅ = (refl, refl, c₄) in
              last-Sound o _ _ m ctx (o.start t₅ m ctx) t₅ c₅ (
                call
                  (starts c₅ (record {
                    config = config;
                    values = values;
                    known = there (there (there (there (there b.known))));
                    own = there (there (there (there (there b.own))));
                    made = there (there (there (there (there b.made))));
                    watched = there (
                        there (
                          there (
                            there (Before-last (ap (completed m controller_build rec) (sym e₁))))));
                    healthz = there (
                        there (
                          there
                            (Before-last (ap (added_healthz_check m "healthz" o.ping) (sym e₂)))));
                    readyz =
                        there (
                          there (Before-last (ap (added_readyz_check m "readyz" o.ping) (sym e₃))));
                  }))
                  d₅)

  record IsKnown (t : Trace E types) : Type 0 where
    calm : Calm t
    due : Obeys (Due o) t
    known : Before (added_client_go o.new_scheme (ok tt)) t
    own : Before (added_to_scheme (scheme_builder (tracing o)) o.new_scheme (ok tt)) t

  main-Sound : (t : Trace E types) → IsKnown t → Sound o (main (tracing o) t)
  unfolding main ◌>>=◌
  main-Sound t b =
      let flags = main_flags ++ o.zap_flags in
      let r₁ = o.parse t flags in
      let t₁ : Trace E types = parsed flags r₁ ∷ t in
      let d₁ = call (plain refl b.calm) b.due in
      exit-Sound o refl b.calm d₁ r₁ _ refl λ values c₁.
        let t₂ : Trace E types = set_logger values ∷ t₁ in
        let d₂ = call (plain refl c₁) d₁ in
        let c₂ : Calm t₂ = (refl, refl, c₁) in
        let r₃ = o.get_config t₂ in
        let t₃ : Trace E types = got_config r₃ ∷ t₂ in
        let d₃ = call (plain refl c₂) d₂ in
        exit-Sound o refl c₂ d₃ r₃ _ refl λ config c₃.
          let opts = manager_options (tracing o) values in
          let r₄ = o.new_manager t₃ config opts in
          let d₄ = call (plain refl c₃) d₃ in
          checked-Sound o refl c₃ d₄ _ _ r₄ _ refl λ m e c₄.
            run_manager-Sound config values m _ (record {
              calm = c₄;
              due = d₄;
              known = there (there (there (there b.known)));
              own = there (there (there (there b.own)));
              made = Before-last (ap (made_manager config opts) (sym e));
            })

  program-Sound : Sound o (program (tracing o) [])
  unfolding program init ◌>>=◌
  program-Sound =
      let r₁ = o.add_client_go [] o.new_scheme in
      let t₁ : Trace E types = added_client_go o.new_scheme r₁ ∷ [] in
      let d₁ = call (plain refl tt) silent in
      subst (Sound o) (sym (lift_assoc (panics r₁) _ _ t₁)) (
        must-Sound o refl tt d₁ r₁ _ refl λ e₁ c₁.
          let builder = scheme_builder (tracing o) in
          let r₂ = o.add_to_scheme t₁ builder o.new_scheme in
          let d₂ = call (plain refl c₁) d₁ in
          must-Sound o refl c₁ d₂ r₂ _ refl λ e₂ c₂. main-Sound _ (record {
            calm = c₂;
            due = d₂;
            known = there (Before-last (ap (added_client_go o.new_scheme) (sym e₁)));
            own = Before-last (ap (added_to_scheme builder o.new_scheme) (sym e₂));
          }))

  -- In every environment in which utilruntime.Must panics on an error: no call follows one that has
  -- failed, but that which logs its error; and a manager is started only when the types of client-go
  -- and the four types of the group mlplatform.fyp.io, version v1alpha1, have been added to its
  -- scheme, it has been made with that scheme and the settings of the flags, and its controller, for
  -- TrainingJobs and their Workflows, and its two probes have been registered.
  pub program-Obeys : Obeys (Due o) (program (tracing o) []).1
  program-Obeys = program-Sound.due

  -- In every environment in which utilruntime.Must panics on an error: the program returns only after
  -- a manager that it started has stopped without an error, and if no call has failed. Else it has
  -- panicked with the error of its last call, which failed; or it has logged the error of the last
  -- call but one, which failed, and exited with the status 1; or the reading of the flags or of the
  -- configuration has ended it.
  pub program_end : Ending (program (tracing o) [])
  program_end = program-Sound.ending

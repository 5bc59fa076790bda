-- ===== src/Cron.antt =====
-- internal/cron and cmd/cron/main.go: the commands of the cron jobs. cobra, the cron server and the
-- printing belong to the libraries.
use platform_idp_demo.Base.{String, Option, none, List, [], ◌∷◌}
use platform_idp_demo.Go.{M, pure, ◌>>=◌}
use platform_idp_demo.Platform.{Platform, Err}
use platform_idp_demo.Config.{Config, load}
use platform_idp_demo.Registry.{Parts, WorkerContext, new_cron_context}

-- `cobra.Command`, by the fields that are set; its run takes the command, of the type `Cobra`, and the
-- arguments.
pub record Command (P : Platform) (W Cobra : Type 0) : Type 0 where
  pub use_line : String
  pub short : String
  pub run_e : Cobra → List String → M W (Err P)

-- The interface `CronHandler` of the cron server.
pub record CronHandler (P : Platform) (W Cobra : Type 0) : Type 0 where
  pub command : Command P W Cobra

-- `helloSvc`
pub record HelloSvc {W : Type 0} (K : Parts W) : Type 0 where
  pub app_context : WorkerContext K

module _ (P : Platform) {W : Type 0} (Cobra : Type 0) (K : Parts W)
    (println : String → M W (Unit {0})) where
  abbrev pub handle : HelloSvc K → Cobra → List String → M W (Err P)
  handle s cmd args = do _ ← println "hello word"; pure none

  abbrev pub hello_command : HelloSvc K → Command P W Cobra
  hello_command s = record { use_line = "hello"; short = "hello word"; run_e = handle s }

  abbrev pub new_hello_cron : WorkerContext K → CronHandler P W Cobra
  new_hello_cron app_context = record {
    command = hello_command (record { app_context = app_context });
  }

  unfoldable pub register_commands : WorkerContext K → List (CronHandler P W Cobra)
  register_commands reg = new_hello_cron reg ∷ []

  -- `parse` and `must_load` are those of the configuration, `cron_job` is `GetCronJob` of the server's
  -- settings, `new_cron` is `server.NewCron`, and `register` its `Register`, which runs the jobs.
  module _ (parse : M W (Unit {0})) (must_load : String → M W (Config K.settings))
      {CronJob Server : Type 0} (cron_job : K.settings.Server → CronJob)
      (new_cron : CronJob → M W Server)
      (register : Server → List (CronHandler P W Cobra) → M W (Unit {0})) where
    unfoldable pub main : Option String → M W (Unit {0})
    unfolding load new_cron_context register_commands
    main file = do
      c ← load K.settings parse must_load file
      cron ← new_cron (cron_job c.server)
      reg ← new_cron_context K c
      register cron (register_commands reg)

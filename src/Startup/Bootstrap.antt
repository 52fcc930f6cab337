-- ===== src/Startup/Bootstrap.antt =====
-- The bootstrap configuration of main at work in the resolver.
use postulate.Base.{not, ◌≡◌, String, false, none, ◌==◌, text_Eq, if◌then◌else◌, arith, eq_iff}
use postulate.Base.Result.{ok}
use postulate.Domain.{role_platform_admin, role_platform_member}
use postulate.Config.{Config}
use postulate.Auth.Resolver.{UserResolver, is_bootstrap_email, resolve_role_for_new_user}
use postulate.Startup.{bootstrap_config, warns_no_admin}

-- In production, with the bootstrap configuration that main makes, a new user on an empty table whose
-- email is not the configured one is given the role of an admin if an admin email is configured, and
-- that of a member if none is.
pub production_role :
    {S : Type 0} (r : UserResolver S) (cfg : Config) (email : String) (s : S)
    → cfg.server.environment ≡ "production"
    → r.bootstrap ≡ bootstrap_config cfg
    → is_bootstrap_email r email ≡ false
    → (r.user_repo.count_all s).error ≡ none
    → (r.user_repo.count_all s).value ≡ 0
    → resolve_role_for_new_user r email s ≡ (
      ok (
          if cfg.auth.bootstrap_admin_email == ""
          then role_platform_member
          else role_platform_admin),
      s,
    )
unfolding resolve_role_for_new_user bootstrap_config
production_role r cfg email s production wired other counted empty =
    ground (arith, eq_iff cfg.server.environment "production")

-- main warns that nobody will be an admin exactly when the dev fallback is disabled, and so where no
-- admin email is configured.
pub warns-fallback :
    (cfg : Config) → (bootstrap_config cfg).dev_fallback_enabled ≡ not (warns_no_admin cfg)
unfolding bootstrap_config warns_no_admin
warns-fallback cfg = ground arith

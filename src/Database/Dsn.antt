-- ===== src/Database/Dsn.antt =====
-- What the connection string tells apart.
use Prim.Native.String.{◌++◌}
use text.Mathlib.TextLemmas.{append_assoc}
use postulate.Base.{◌≡◌, String}
use postulate.Config.{ℤ, DatabaseConfig}
use postulate.Database.{build_dsn}

-- The connection string does not tell who logs in: a user's name that comes after a blank and
-- "user=" in the configured name of the database reads like one that is configured as the user.
pub dsn_ambiguous :
    (show : ℤ → String) (cfg : DatabaseConfig) (name user other : String)
    → build_dsn show (record cfg { name = name ++ " user=" ++ user; user = other })
      ≡ build_dsn show (record cfg { name = name; user = user ++ " user=" ++ other })
unfolding build_dsn
dsn_ambiguous show cfg name user other = simp append_assoc

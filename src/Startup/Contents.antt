-- ===== src/Startup/Contents.antt =====
-- What startup puts into the state: the counters, the error series and the token provider.
use sturnus.Prelude.{ℕ, Bool, true, false, Option, none, some, string_eq, list_eq}
use sturnus.Prelude.Dict.{Dict}
use sturnus.F64.{F64}
use sturnus.Http.{Http}
use sturnus.Config.{Config}

-- A counter that is there, or else one at zero for an alias to register.
abbrev kept_or_zero : Bool → Option ℕ → Option ℕ
kept_or_zero new (some n) = some n
kept_or_zero true none = some 0
kept_or_zero false none = none

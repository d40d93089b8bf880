-- ===== src/Execution/Language.antt =====
-- internal/execution/language/language.go: the registry of languages. The fields on which no code of
-- the execution subsystem decides (names, versions, compilers) and the seeded table are left out.
use collaborative_programmin.Base.{ℕ, Bool, true, false, Option, none, some, ◌==◌, if◌then◌else◌}
use collaborative_programmin.Base.Dict.{Dict, lookup, insert, delete}
use collaborative_programmin.Execution.Job.{ResourceProfile}

pub data Status : Type 0 where
  stable beta deprecated disabled : Status

pub record Language : Type 0 where
  pub id : ℕ
  pub profile : ResourceProfile
  pub limits : ResourceProfile
  pub default_timeout : ℕ
  pub status : Status

-- `Language.Runnable`.
unfoldable pub is_runnable : Status → Bool
is_runnable stable = true
is_runnable beta = true
is_runnable deprecated = true
is_runnable disabled = false

abbrev pub Languages : Type 0
Languages = Dict Language

pub data Error : Type 0 where
  empty_id already_registered : Error

unfoldable pub register_as : Language → Languages → Option Language → Option Error × Languages
register_as l ls none = (none, insert l.id l ls)
register_as l ls (some old) = (some already_registered, ls)

unfoldable pub register : Language → Languages → Option Error × Languages
unfolding register_as
register l ls = if l.id == 0 then (some empty_id, ls) else register_as l ls (lookup l.id ls)

unfoldable pub upsert : Language → Languages → Languages
upsert l ls = insert l.id l ls

unfoldable pub runnable_of : Option Language → Option Language
unfolding is_runnable
runnable_of none = none
runnable_of (some l) = if is_runnable l.status then some l else none

-- `Registry.Runnable`: `none` is the error.
unfoldable pub runnable : ℕ → Languages → Option Language
unfolding runnable_of
runnable id ls = runnable_of (lookup id ls)

unfoldable pub remove : ℕ → Languages → Languages
remove id ls = delete id ls

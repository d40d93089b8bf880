-- ===== src/Execution/Validation.antt =====
-- internal/execution/validation: the pipeline and the built-in validators. `size` is the length of a
-- string in bytes; the request's context is a parameter, `ended i` being whether it has ended when the
-- validator at place i is about to run. The limits but those of the priority are not negative, since
-- the configuration replaces such a limit by its default. The texts of the errors and the metrics are
-- left out.
pub mod Acceptance
use collaborative_programmin.Base.{
  ℕ, ℤ, pos, ltb_ℤ, suc, ◌+◌, Bool, true, false, not, ◌&&◌, ◌||◌, List, [], ◌∷◌, ◌++◌, Option, none,
  some, ◌==◌, ltb, leb, if◌then◌else◌, length,
}
use collaborative_programmin.Base.Dict.{Dict, lookup}
use collaborative_programmin.Execution.Job.{Request, ResourceProfile, is_zero}
use collaborative_programmin.Execution.Language.{Language, Languages, runnable}

pub data Fault : Type 0 where
  invalid_request unauthenticated unauthorized unsupported_language code_too_large : Fault
  stdin_too_large invalid_timeout invalid_resource_profile invalid_priority invalid_metadata : Fault
  context_ended : Fault

pub record Limits : Type 0 where
  pub max_code_size : ℕ
  pub max_stdin_size : ℕ
  pub max_metadata_entries : ℕ
  pub max_metadata_key_len : ℕ
  pub max_metadata_value_len : ℕ
  pub max_timeout : ℕ
  pub max_memory_bytes : ℕ
  pub min_priority : ℤ
  pub max_priority : ℤ
  pub require_authentication : Bool
  pub enable_authorization : Bool

-- A check reports the fault that it finds.
abbrev pub Check : Type 0
Check = Request → Option Fault

-- An authorizer's reply; `none` is its error.
abbrev pub Authorizer : Type 0
Authorizer = Request → Option Bool

unfoldable pub authentication : Bool → Check
authentication required req =
    if required && not req.authenticated then some unauthenticated else none

unfoldable pub judged : Option Bool → Option Fault
judged none = some unauthorized
judged (some true) = none
judged (some false) = some unauthorized

-- Without an authorizer, everything is allowed.
unfoldable pub authorized_by : Option Authorizer → Check
unfolding judged
authorized_by none req = judged (some true)
authorized_by (some authz) req = judged (authz req)

unfoldable pub authorization : Bool → Option Authorizer → Check
unfolding authorized_by
authorization enabled authz req = if not enabled then none else authorized_by authz req

unfoldable pub found_language : Option Language → Option Fault
found_language none = some unsupported_language
found_language (some l) = none

unfoldable pub language_check : Languages → Check
unfolding found_language
language_check langs req =
    if req.language == 0
    then some unsupported_language
    else found_language (runnable req.language langs)

module _ (size : ℕ → ℕ) where
  unfoldable pub code_size : ℕ → Check
  code_size limit req =
      if req.source == 0
      then some invalid_request
      else if ltb limit (size req.source)
      then some code_too_large
      else none

  unfoldable pub input_size : ℕ → Check
  input_size limit req = if ltb limit (size req.stdin) then some stdin_too_large else none

  unfoldable pub metadata_loop : ℕ → ℕ → Dict ℕ → Option Fault
  metadata_loop key_len value_len [] = none
  metadata_loop key_len value_len ((key, val) ∷ rest) =
      let next = metadata_loop key_len value_len rest in
      if key == 0
      then some invalid_metadata
      else if ltb key_len (size key)
      then some invalid_metadata
      else if ltb value_len (size val)
      then some invalid_metadata
      else next

  unfoldable pub metadata_check : ℕ → ℕ → ℕ → Check
  unfolding metadata_loop
  metadata_check entries key_len value_len req =
      if ltb entries (length req.metadata)
      then some invalid_metadata
      else metadata_loop key_len value_len req.metadata

unfoldable pub timeout_check : ℕ → Check
timeout_check limit req =
    if ltb_ℤ req.timeout (pos 0)
    then some invalid_timeout
    else if ltb_ℤ (pos limit) req.timeout
    then some invalid_timeout
    else none

unfoldable pub within_limits : ResourceProfile → Option Language → Option Fault
within_limits r none = none
within_limits r (some l) =
    if is_zero l.limits
    then none
    else if ltb_ℤ l.limits.memory_bytes r.memory_bytes && ltb_ℤ (pos 0) l.limits.memory_bytes
    then some invalid_resource_profile
    else if ltb_ℤ l.limits.cpu_millicores r.cpu_millicores && ltb_ℤ (pos 0) l.limits.cpu_millicores
    then some invalid_resource_profile
    else none

unfoldable pub is_negative : ResourceProfile → Bool
is_negative r =
    ltb_ℤ r.memory_bytes (pos 0)
    || ltb_ℤ r.cpu_millicores (pos 0)
    || ltb_ℤ r.pids_limit (pos 0)
    || ltb_ℤ r.tmpfs_bytes (pos 0)

unfoldable pub profile_check : ℕ → Languages → ℕ → Option ResourceProfile → Option Fault
unfolding within_limits is_negative
profile_check limit langs language none = none
profile_check limit langs language (some r) =
    if is_negative r
    then some invalid_resource_profile
    else if ltb_ℤ (pos limit) r.memory_bytes
    then some invalid_resource_profile
    else within_limits r (lookup language langs)

unfoldable pub memory_profile : ℕ → Languages → Check
unfolding profile_check
memory_profile limit langs req = profile_check limit langs req.language req.resources

unfoldable pub priority_check : ℤ → ℤ → Check
priority_check low high req =
    if ltb_ℤ req.priority low || ltb_ℤ high req.priority then some invalid_priority else none

-- `DefaultValidators`.
unfoldable pub default_validators :
    (ℕ → ℕ) → Limits → Languages → Option Authorizer → List Check → List Check
default_validators size l langs authz custom =
    (authentication l.require_authentication
      ∷ authorization l.enable_authorization authz
      ∷ language_check langs
      ∷ code_size size l.max_code_size
      ∷ input_size size l.max_stdin_size
      ∷ timeout_check l.max_timeout
      ∷ memory_profile l.max_memory_bytes langs
      ∷ priority_check l.min_priority l.max_priority
      ∷ metadata_check size l.max_metadata_entries l.max_metadata_key_len l.max_metadata_value_len
      ∷ [])
    ++ custom

unfoldable pub noted : Bool → Option Fault → List Fault → List Fault
noted stop none rest = rest
noted stop (some f) rest = if stop then f ∷ [] else f ∷ rest

-- The loop of `Pipeline.Validate`; `stop` is `stopOnFirst`.
unfoldable pub validate_loop : (ℕ → Bool) → Bool → ℕ → List Check → Request → List Fault
unfolding noted
validate_loop ended stop i [] req = []
validate_loop ended stop i (v ∷ vs) req =
    let rest = validate_loop ended stop (suc i) vs req in
    if ended i then context_ended ∷ [] else noted stop (v req) rest

-- `Pipeline.Validate`; no request is the nil pointer.
unfoldable pub validate : (ℕ → Bool) → Bool → List Check → Option Request → List Fault
unfolding validate_loop
validate ended stop vs none = invalid_request ∷ []
validate ended stop vs (some req) = validate_loop ended stop 0 vs req

-- ===== src/Execution/Validation/Acceptance.antt =====
-- Which requests the pipeline lets pass.
use collaborative_programmin.Base.{
  ℕ, pos, ◌≤ℤ◌, suc, ◌≤◌, ◌<◌, ◌≡◌, ◌↔◌, ◌⊎◌, inl, inr, refl, Bool, true, false, List, [], ◌∷◌,
  Option, none, some, arith, if◌then◌else◌, length, All, Bool-cases,
}
use collaborative_programmin.Base.Dict.{Dict, lookup}
use collaborative_programmin.Execution.Job.{Request, ResourceProfile, is_zero}
use collaborative_programmin.Execution.Language.{Language, Languages, runnable}
use collaborative_programmin.Execution.Validation.{
  Fault, context_ended, Limits, Check, Authorizer, authentication, authorized_by, authorization,
  found_language, language_check, code_size, input_size, metadata_loop, metadata_check,
  timeout_check, within_limits, is_negative, profile_check, memory_profile, priority_check,
  default_validators, noted, validate_loop, validate, judged,
}

-- What the first failure is, if there is one.
abbrev pub first_of : List Fault → List Fault
first_of [] = []
first_of (f ∷ fs) = f ∷ []

first-noted :
    (o : Option Fault) (a b : List Fault)
    → a ≡ first_of b
    → noted true o a ≡ first_of (noted false o b)
unfolding noted
first-noted none a b h = h
first-noted (some f) a b h = refl

validate_loop_first :
    (ended : ℕ → Bool) (i : ℕ) (vs : List Check) (req : Request)
    → validate_loop ended true i vs req ≡ first_of (validate_loop ended false i vs req)
unfolding validate_loop
validate_loop_first ended i [] req = refl
validate_loop_first ended i (v ∷ vs) req =
    first_if (ended i) context_ended (noted true (v req) (validate_loop ended true (suc i) vs req))
      (noted false (v req) (validate_loop ended false (suc i) vs req)) []
      (first-noted (v req) _ _ (validate_loop_first ended (suc i) vs req))
  where
    first_if :
        (b : Bool) (f : Fault) (x y : List Fault) (fs : List Fault)
        → x ≡ first_of y
        → (if b then f ∷ [] else x) ≡ first_of (if b then f ∷ [] else y)
    first_if true f x y fs h = refl
    first_if false f x y fs h = h

-- The pipeline that stops at the first failure reports exactly the first of the failures that the
-- pipeline that collects them all reports, and passes the same requests, whenever the request's
-- context ends.
pub validate_first :
    (ended : ℕ → Bool) (vs : List Check) (req : Option Request)
    → validate ended true vs req ≡ first_of (validate ended false vs req)
unfolding validate
validate_first ended vs none = refl
validate_first ended vs (some req) = validate_loop_first ended 0 vs req

noted-none :
    (stop : Bool) (o : Option Fault) (rest : List Fault)
    → (noted stop o rest ≡ []) ↔ ((o ≡ none) × (rest ≡ []))
unfolding noted
noted-none stop none rest = ((λ e. (refl, e)), λ h. h.1)
noted-none true (some f) rest = ((λ e. cc), λ h. cc)
noted-none false (some f) rest = ((λ e. cc), λ h. cc)

validate_loop_ok :
    (stop : Bool) (i : ℕ) (vs : List Check) (req : Request)
    → (validate_loop (λ i. false) stop i vs req ≡ []) ↔ All (λ v. v req ≡ none) vs
unfolding validate_loop
validate_loop_ok stop i [] req = ((λ e. tt), λ h. refl)
validate_loop_ok stop i (v ∷ vs) req =
    let here = noted-none stop (v req) (validate_loop (λ i. false) stop (suc i) vs req) in
    let rest = validate_loop_ok stop (suc i) vs req in
    ((λ e. ((here.0 e).0, rest.0 (here.0 e).1)), λ h. here.1 (h.0, rest.1 h.1))

module _ (size : ℕ → ℕ) (l : Limits) (langs : Languages) (authz : Option Authorizer) where
  abbrev pub IsAuthorized : Option Authorizer → Request → Type 0
  IsAuthorized none req = Unit
  IsAuthorized (some a) req = a req ≡ some true

  abbrev pub FitsLanguage : ResourceProfile → Option Language → Type 0
  FitsLanguage r none = Unit
  FitsLanguage r (some lang) =
      (is_zero lang.limits ≡ true)
      ⊎ (((lang.limits.memory_bytes ≤ℤ pos 0) ⊎ (r.memory_bytes ≤ℤ lang.limits.memory_bytes))
          × ((lang.limits.cpu_millicores ≤ℤ pos 0)
              ⊎ (r.cpu_millicores ≤ℤ lang.limits.cpu_millicores)))

  abbrev pub FitsLimits : ℕ → Option ResourceProfile → Type 0
  FitsLimits language none = Unit
  FitsLimits language (some r) =
      ((pos 0 ≤ℤ r.memory_bytes)
        × (pos 0 ≤ℤ r.cpu_millicores)
        × (pos 0 ≤ℤ r.pids_limit)
        × (pos 0 ≤ℤ r.tmpfs_bytes)
        × (r.memory_bytes ≤ℤ pos l.max_memory_bytes))
      × FitsLanguage r (lookup language langs)

  -- What the platform accepts.
  pub record IsAcceptable (req : Request) : Type 0 where
    pub authenticated : (l.require_authentication ≡ false) ⊎ (req.authenticated ≡ true)
    pub authorized : (l.enable_authorization ≡ false) ⊎ IsAuthorized authz req
    pub language :
        (0 < req.language) × (lang : Language) × (runnable req.language langs ≡ some lang)
    pub source : (0 < req.source) × (size req.source ≤ l.max_code_size)
    pub stdin : size req.stdin ≤ l.max_stdin_size
    pub timeout : (pos 0 ≤ℤ req.timeout) × (req.timeout ≤ℤ pos l.max_timeout)
    pub resources : FitsLimits req.language req.resources
    pub priority : (l.min_priority ≤ℤ req.priority) × (req.priority ≤ℤ l.max_priority)
    pub entries : length req.metadata ≤ l.max_metadata_entries
    pub metadata :
        All
          (λ (kv : ℕ × ℕ).
            (0 < kv.0)
            × (size kv.0 ≤ l.max_metadata_key_len)
            × (size kv.1 ≤ l.max_metadata_value_len))
          req.metadata

  metadata_loop_ok :
      (key_len value_len : ℕ) (m : Dict ℕ)
      → (metadata_loop size key_len value_len m ≡ none)
        ↔ All (λ (kv : ℕ × ℕ). (0 < kv.0) × (size kv.0 ≤ key_len) × (size kv.1 ≤ value_len)) m
  unfolding metadata_loop
  metadata_loop_ok key_len value_len [] = ((λ e. tt), λ h. refl)
  metadata_loop_ok key_len value_len ((k, v) ∷ m) =
      let rest = metadata_loop_ok key_len value_len m in
      (
        (λ e. (
          (ground (arith, e), ground (arith, e), ground (arith, e)),
          rest.0 (ground (arith, e)),
        )),
        λ h. ground (arith, h.0, rest.1 h.1),
      )

  fits_language :
      (r : ResourceProfile) (o : Option Language) → (within_limits r o ≡ none) ↔ FitsLanguage r o
  unfolding within_limits
  fits_language r none = ((λ e. tt), λ h. refl)
  fits_language r (some lang) = ground arith

  fits_limits :
      (language : ℕ) (o : Option ResourceProfile)
      → (profile_check l.max_memory_bytes langs language o ≡ none) ↔ FitsLimits language o
  unfolding profile_check is_negative
  fits_limits language none = ((λ e. tt), λ h. refl)
  fits_limits language (some r) =
      let (to, from) = fits_language r (lookup language langs) in
      ((λ e. (ground (arith, e), to (ground (arith, e)))), λ h. ground (arith, h.0, from h.1))

  IsAuthorized-ok :
      (req : Request) (o : Option Authorizer) → (authorized_by o req ≡ none) ↔ IsAuthorized o req
  unfolding authorized_by judged
  IsAuthorized-ok req none = ((λ e. tt), λ h. refl)
  IsAuthorized-ok req (some a) = ground arith

  language_ok :
      (language : ℕ) (o : Option Language)
      → (found_language o ≡ none) ↔ ((lang : Language) × (o ≡ some lang))
  unfolding found_language
  language_ok language none = ((λ e. cc), λ h. cc)
  language_ok language (some lang) = ((λ e. (lang, refl)), λ h. refl)

  -- With the default validators and a context that does not end, a request passes the pipeline, in
  -- either mode, exactly if it is acceptable and every custom validator passes it.
  pub validate_ok :
      (stop : Bool) (custom : List Check) (req : Request)
      → (validate (λ i. false) stop (default_validators size l langs authz custom) (some req) ≡ [])
        ↔ (IsAcceptable req × All (λ v. v req ≡ none) custom)
  unfolding validate default_validators authentication authorization language_check code_size
      input_size timeout_check memory_profile priority_check metadata_check
  validate_ok stop custom req =
      let all = validate_loop_ok stop 0 (default_validators size l langs authz custom) req in
      let (auth, unauth) = IsAuthorized-ok req authz in
      let (lang, unlang) = language_ok req.language (runnable req.language langs) in
      let (fits, unfits) = fits_limits req.language req.resources in
      let (meta, unmeta) =
        metadata_loop_ok l.max_metadata_key_len l.max_metadata_value_len req.metadata in
      (
        (λ e.
            let h = all.0 e in
            (
              record {
                authenticated = ground (arith, h.0);
                authorized = elim (Bool-cases l.enable_authorization) [
                  | inl on ↦ inr (auth (ground (arith, on, h.1.0)))
                  | inr off ↦ inl off
                ];
                language =
                    let (spoken, known) = lang (ground (arith, h.1.1.0)) in
                    (ground (arith, h.1.1.0), spoken, known);
                source = (ground (arith, h.1.1.1.0), ground (arith, h.1.1.1.0));
                stdin = ground (arith, h.1.1.1.1.0);
                timeout = (ground (arith, h.1.1.1.1.1.0), ground (arith, h.1.1.1.1.1.0));
                resources = fits h.1.1.1.1.1.1.0;
                priority = (ground (arith, h.1.1.1.1.1.1.1.0), ground (arith, h.1.1.1.1.1.1.1.0));
                entries = ground (arith, h.1.1.1.1.1.1.1.1.0);
                metadata = meta (ground (arith, h.1.1.1.1.1.1.1.1.0));
              },
              h.1.1.1.1.1.1.1.1.1,
            )),
        λ h.
            let a = h.0 in
            all.1 (
              ground (arith, a.authenticated),
              (
                elim a.authorized [
                  | inl off ↦ ground (arith, off)
                  | inr granted ↦ ground (arith, unauth granted)
                ],
                (
                  ground (arith, a.language.0, unlang (a.language.1, a.language.2)),
                  (
                    ground (arith, a.source),
                    (
                      ground (arith, a.stdin),
                      (
                        ground (arith, a.timeout),
                        (
                          unfits a.resources,
                          (
                            ground (arith, a.priority),
                            (ground (arith, a.entries, unmeta a.metadata), h.1),
                          ),
                        ),
                      ),
                    ),
                  ),
                ),
              ),
            ),
      )

-- ===== src/Guild/Meeting.antt =====
-- `GuildMeetingService` of engine/guild/meeting.py. The two rates of a meeting are floats: how
-- they are printed, and whether one is above 75, are parameters.
pub mod Totals
use conductor_engine.Base.{
  ℕ, zero, suc, ◌+◌, ◌*◌, String, List, [], ◌∷◌, ◌++◌, Option, none, some, Bool, true, false, not,
  ◌&&◌, any, keep, map, take, length, leb, ltb, str_eq, str_lt, show, fstring, sorted, Assoc,
  or_text, if◌then◌else◌,
}
use conductor_engine.Base.Groups.{append_to, by_key, sum}
use conductor_engine.Json.{Json, str, int, object, fields, opt_str}
use conductor_engine.Interfaces.Guild.{GuildRecord, GuildConfig}

pub record CapabilityProfile : Type 0 where
  pub capability : String
  pub total_successes : ℕ
  pub total_failures : ℕ
  pub distinct_error_types : List String
  pub roles : List String
  pub top_failures : List Json
  pub top_successes : List Json

pub record RoleKnowledgeDigest : Type 0 where
  pub role : String
  pub total_records : ℕ
  pub capabilities_encountered : List String
  pub top_failure_patterns : List Json
  pub top_success_patterns : List Json

pub record CrossRoleInsight : Type 0 where
  pub description : String
  pub capabilities : List String
  pub roles : List String
  pub severity : String

pub record GuildMeetingReport : Type 0 where
  pub meeting_id : String
  pub held_at : ℕ
  pub total_records : ℕ
  pub roles_present : List String
  pub capability_profiles : List CapabilityProfile
  pub role_digests : List RoleKnowledgeDigest
  pub cross_role_insights : List CrossRoleInsight
  pub summary : String

abbrev pub is_success : GuildRecord → Bool
is_success r = str_eq r.fingerprint.error_type "_success"

-- The values of a set, each once.
abbrev pub distinct : List String → List String
distinct [] = []
distinct (x ∷ rest) =
    let others = distinct rest in if any (λ y. str_eq y x) others then others else x ∷ others

-- `{r.role for r in records if r.role}`
abbrev pub named_roles : List GuildRecord → List String
named_roles [] = []
named_roles (r ∷ rest) =
    let others = named_roles rest in
    if str_eq (or_text r.role "") "" then others else or_text r.role "" ∷ others

abbrev pub roles_of : List GuildRecord → List String
roles_of records = sorted str_lt (distinct (named_roles records))

-- The grouping by role and by capability.
unfoldable pub group_by :
    (GuildRecord → String) → List GuildRecord → Assoc (List GuildRecord) → Assoc (List GuildRecord)
group_by key [] groups = groups
group_by key (r ∷ rest) groups = group_by key rest (append_to (key r) r groups)

abbrev pub role_key : GuildRecord → String
role_key r = or_text r.role "unassigned"

abbrev pub capability_key : GuildRecord → String
capability_key r = r.fingerprint.capability

abbrev pub successes_of : List GuildRecord → ℕ
successes_of = sum (λ r. r.success_count)

abbrev pub failures_of : List GuildRecord → ℕ
failures_of = sum (λ r. r.failure_count)

-- The failures with the greatest counts, and the successes.
abbrev pub top_failing : ℕ → List GuildRecord → List GuildRecord
top_failing n records =
    take n
      (sorted (λ a b. ltb b.failure_count a.failure_count) (keep (λ r. not (is_success r)) records))

abbrev pub top_succeeding : ℕ → List GuildRecord → List GuildRecord
top_succeeding n records =
    take n (sorted (λ a b. ltb b.success_count a.success_count) (keep is_success records))

unfoldable pub profile : String → List GuildRecord → CapabilityProfile
profile cap records = record {
  capability = cap;
  total_successes = successes_of records;
  total_failures = failures_of records;
  distinct_error_types =
      sorted str_lt
        (distinct (map (λ r. r.fingerprint.error_type) (keep (λ r. not (is_success r)) records)));
  roles = roles_of records;
  top_failures =
      map
        (λ r.
          ("error_type", str r.fingerprint.error_type)
          ∷ ("input_fingerprint", str r.fingerprint.input_fingerprint)
          ∷ ("count", int r.failure_count)
          ∷ ("hint", opt_str r.resolution_hint)
          ∷ [])
        (top_failing 3 records);
  top_successes =
      map
        (λ r.
          ("input_fingerprint", str r.fingerprint.input_fingerprint)
          ∷ ("count", int r.success_count)
          ∷ ("adjustment", object (fields r.approach_adjustment))
          ∷ [])
        (top_succeeding 3 records);
}

abbrev pub profiles : Assoc (List GuildRecord) → List CapabilityProfile
profiles [] = []
profiles ((cap, records) ∷ rest) = profile cap records ∷ profiles rest

unfoldable pub digest : String → List GuildRecord → RoleKnowledgeDigest
digest role records = record {
  role = role;
  total_records = length records;
  capabilities_encountered = sorted str_lt (distinct (map capability_key records));
  top_failure_patterns =
      map
        (λ r.
          ("capability", str r.fingerprint.capability)
          ∷ ("error_type", str r.fingerprint.error_type)
          ∷ ("count", int r.failure_count)
          ∷ ("hint", opt_str r.resolution_hint)
          ∷ [])
        (top_failing 5 records);
  top_success_patterns =
      map
        (λ r.
          ("capability", str r.fingerprint.capability)
          ∷ ("input_fingerprint", str r.fingerprint.input_fingerprint)
          ∷ ("count", int r.success_count)
          ∷ [])
        (top_succeeding 5 records);
}

abbrev pub digests : Assoc (List GuildRecord) → List RoleKnowledgeDigest
digests [] = []
digests ((role, records) ∷ rest) =
    if str_eq role "unassigned" then digests rest else digest role records ∷ digests rest

-- `sep.join(parts)`
abbrev pub joined : (sep : String) → List String → String
joined sep [] = ""
joined sep (a ∷ []) = a
joined sep (a ∷ b ∷ rest) = fstring (a ∷ sep ∷ joined sep (b ∷ rest) ∷ [])

-- The first insight, about the capability that the most roles use.
unfoldable pub widest : Assoc (List GuildRecord) → List CrossRoleInsight
widest [] = []
widest ((cap, records) ∷ rest) =
    let roles = roles_of records in
    if ltb 1 (length roles)
    then record {
      description = fstring (
          "Capability '"
          ∷ cap
          ∷ "' is used across "
          ∷ show (length roles)
          ∷ " roles: "
          ∷ joined ", " roles
          ∷ ". Knowledge about this capability benefits the widest audience."
          ∷ []);
      capabilities = cap ∷ [];
      roles = roles;
      severity = "info";
    }
      ∷ []
    else []

abbrev pub most_roles : Assoc (List GuildRecord) → Assoc (List GuildRecord)
most_roles groups = sorted (λ a b. ltb (length (roles_of b.1)) (length (roles_of a.1))) groups

module _ (percent : (part whole : ℕ) → String) (above_75 : (part whole : ℕ) → Bool) where
  -- The second insight, of a capability that mostly fails.
  unfoldable pub worst : Assoc (List GuildRecord) → List CrossRoleInsight
  worst [] = []
  worst ((cap, records) ∷ rest) =
      let successes = successes_of records in
      let failures = failures_of records in
      let whole = successes + failures in
      let others = worst rest in
      if leb 5 whole && ltb successes failures
      then record {
        description = fstring (
            "Capability '"
            ∷ cap
            ∷ "' has a "
            ∷ percent failures whole
            ∷ "% failure rate ("
            ∷ show failures
            ∷ " failures in "
            ∷ show whole
            ∷ " attempts). Consider reviewing inputs or approach adjustments."
            ∷ []);
        capabilities = cap ∷ [];
        roles = roles_of records;
        severity = if above_75 failures whole then "warning" else "info";
      }
        ∷ others
      else others

  -- The third insight, of a capability that mostly succeeds.
  unfoldable pub best : Assoc (List GuildRecord) → List CrossRoleInsight
  best [] = []
  best ((cap, records) ∷ rest) =
      let successes = successes_of records in
      let failures = failures_of records in
      let whole = successes + failures in
      let others = best rest in
      if leb 5 whole && ltb (failures * 3) successes
      then record {
        description = fstring (
            "Capability '"
            ∷ cap
            ∷ "' has a "
            ∷ percent successes whole
            ∷ "% success rate ("
            ∷ show successes
            ∷ " successes in "
            ∷ show whole
            ∷ " attempts). Approach adjustments for this capability are well-established."
            ∷ []);
        capabilities = cap ∷ [];
        roles = roles_of records;
        severity = "info";
      }
        ∷ others
      else others

  abbrev pub insights : Assoc (List GuildRecord) → List CrossRoleInsight
  insights groups = widest (most_roles groups) ++ worst groups ++ best groups

  abbrev pub group_names : Assoc (List GuildRecord) → List String
  group_names [] = []
  group_names ((role, records) ∷ rest) =
      if str_eq role "unassigned" then group_names rest else role ∷ group_names rest

  abbrev pub warnings : List CrossRoleInsight → ℕ
  warnings l = length (keep (λ i. str_eq i.severity "warning") l)

  abbrev pub warned : ℕ → List String
  warned zero = []
  warned (suc n) =
      fstring (show (suc n) ∷ " warning(s) detected — see cross-role insights." ∷ []) ∷ []

  unfoldable pub summary_of :
      (now : String) → List GuildRecord → (roles : List String) → List CrossRoleInsight → String
  summary_of now records roles found = joined " " (
      fstring ("Guild meeting held at " ∷ now ∷ "." ∷ [])
        ∷ fstring (
            "Reviewed "
            ∷ show (length records)
            ∷ " knowledge records across "
            ∷ show (length roles)
            ∷ " role(s)."
            ∷ [])
        ∷ fstring (
            "Total tracked: "
            ∷ show (successes_of records)
            ∷ " successes, "
            ∷ show (failures_of records)
            ∷ " failures."
            ∷ [])
        ∷ warned (warnings found)
      ++ "Next meeting: run 'cond guild meet' or schedule via cron trigger." ∷ [])

  -- The report on some records; the times are those that the clock gives for the summary, for the
  -- id and for the default of `held_at`.
  unfoldable pub report : (now id : String) → (held_at : ℕ) → List GuildRecord → GuildMeetingReport
  report now id held_at [] = record {
    meeting_id = id;
    held_at = held_at;
    total_records = 0;
    roles_present = [];
    capability_profiles = [];
    role_digests = [];
    cross_role_insights = [];
    summary = "No guild records to review. The guild is empty.";
  }
  report now id held_at (r ∷ rest) =
      let records = r ∷ rest in
      let by_role = group_by role_key records [] in
      let by_capability = group_by capability_key records [] in
      let roles = sorted str_lt (group_names by_role) in
      let found = insights by_capability in
      record {
        meeting_id = id;
        held_at = held_at;
        total_records = length records;
        roles_present = roles;
        capability_profiles = profiles (sorted by_key by_capability);
        role_digests = digests (sorted by_key by_role);
        cross_role_insights = found;
        summary = summary_of now records roles found;
      }

  -- `hold_meeting`, where `records` is what the store lists.
  unfoldable pub hold_meeting :
      GuildConfig
      → (now id : String) → (held_at : ℕ) → (records : List GuildRecord) → Option GuildMeetingReport
  hold_meeting config now id held_at records =
      if config.enabled then some (report now id held_at records) else none

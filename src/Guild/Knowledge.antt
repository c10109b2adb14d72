-- ===== src/Guild/Knowledge.antt =====
-- engine/guild/knowledge.py: `FailureKnowledgeBase` over a `MemoryGuildStore`, and
-- engine/guild/peer.py: `DefaultPeerSuggestionEngine`.
use conductor_engine.Base.{
  ℕ, suc, ◌+◌, ◌-◌, String, List, [], ◌∷◌, ◌++◌, Option, none, some, Assoc, any, take, length, leb,
  ltb, str_eq, sorted, or_else, or_text, if◌then◌else◌, ◌==◌,
}
use conductor_engine.Base.Exec.{Result, ok, err}
use conductor_engine.Json.{Json}
use conductor_engine.Interfaces.Retry.{FailureContext}
use conductor_engine.Interfaces.Guild.{
  FailureFingerprint, to_key, GuildRecord, GuildSuggestion, GuildConfig, KnowledgeBase,
}
use conductor_engine.Guild.{save, get, list_records, delete, same_role}
use conductor_engine.Supervisor.Gate.{update}

-- `reads` counts the readings of the clock.
pub record GuildState : Type 0 where
  pub records : Assoc GuildRecord
  pub reads : ℕ

-- `wall` is the nth reading of the clock and `fingerprint_of` is `_compute_input_fingerprint` of a
-- dictionary that `json.dumps` can write.
module _ (config : GuildConfig) (wall : ℕ → ℕ) (fingerprint_of : Json → String) where
  unfoldable pub now : GuildState → ℕ × GuildState
  now s = (wall s.reads, record s { reads = suc s.reads })

  unfoldable pub put : GuildRecord → GuildState → GuildState
  put r s = record s { records = save r s.records }

  -- `if x is not None: ... = x`
  abbrev replaced : Option String → Option String → Option String
  replaced none old = old
  replaced (some new) old = some new

  abbrev merged : Option Json → Json → Json
  merged none old = old
  merged (some new) old = update old new

  -- The arguments of `publish` besides the failures.
  pub record Report : Type 0 where
    pub capability : String
    pub role : Option String
    pub resolution_hint : Option String
    pub approach_adjustment : Option Json
    pub metadata : Option Json

  unfoldable pub fingerprint_for : Report → FailureContext → FailureFingerprint
  fingerprint_for report ctx = record {
    capability = if str_eq report.capability "" then ctx.capability else report.capability;
    error_type = ctx.error_type;
    input_fingerprint = or_text ctx.input_fingerprint (fingerprint_of []);
  }

  -- The update of the published records of a key that was seen before.
  unfoldable pub count_again :
      (key : String) → List GuildRecord → GuildState → List GuildRecord × GuildState
  count_again key [] s = ([], s)
  count_again key (r ∷ rest) s =
      let (t, s') = now s in
      let bumped = record r { failure_count = suc r.failure_count; updated_at = t } in
      let (others, u) = count_again key rest (put bumped s') in
      let (others_, u_) = count_again key rest s in
      if str_eq (to_key r.fingerprint) key then (bumped ∷ others, u) else (r ∷ others_, u_)

  -- A key that is new to this call: the record of the store with one failure more, or a new one.
  unfoldable pub publish_first : Report → FailureFingerprint → GuildState → GuildRecord × GuildState
  publish_first report fingerprint s = elim (get fingerprint s.records) [
    | some existing ↦
        let (t, s) = now s in
        let r = record existing {
          failure_count = suc existing.failure_count;
          updated_at = t;
          resolution_hint = replaced report.resolution_hint existing.resolution_hint;
          approach_adjustment = merged report.approach_adjustment existing.approach_adjustment;
          role = replaced report.role existing.role;
          project = replaced config.project_name existing.project;
        } in
        (r, put r s)
    | none ↦
        let (created, s) = now s in
        let (updated, s) = now s in
        let r : GuildRecord = record {
          fingerprint = fingerprint;
          resolution_hint = report.resolution_hint;
          approach_adjustment = or_else report.approach_adjustment [];
          role = report.role;
          project = config.project_name;
          success_count = 0;
          failure_count = 1;
          created_at = created;
          updated_at = updated;
          metadata = or_else report.metadata [];
        } in
        (r, put r s)
  ]

  -- The loop over the failures, with the records published so far and the keys seen.
  unfoldable pub publish_each :
      Report
      → List FailureContext
      → (published : List GuildRecord) → (seen : List String) → GuildState
      → List GuildRecord × GuildState
  publish_each report [] published seen s = (published, s)
  publish_each report (ctx ∷ rest) published seen s =
      let fingerprint = fingerprint_for report ctx in
      let key = to_key fingerprint in
      let (counted, u) = count_again key published s in
      let (r, v) = publish_first report fingerprint s in
      let again = publish_each report rest counted seen u in
      let first = publish_each report rest (published ++ r ∷ []) (key ∷ seen) v in
      if any (λ k. str_eq k key) seen then again else first

  -- `for record in sorted_records[:to_remove]: self._store.delete(record.fingerprint)`
  unfoldable pub delete_all : List GuildRecord → Assoc GuildRecord → Assoc GuildRecord
  delete_all [] records = records
  delete_all (r ∷ rest) records = delete_all rest (delete r.fingerprint records).1

  -- `_enforce_limit`, where a limit of 0 is none.
  unfoldable pub enforce_limit : GuildState → GuildState
  enforce_limit s =
      let all_records = list_records none none none none 0 s.records in
      if config.max_records == 0
      then s
      else if leb (length all_records) config.max_records
      then s
      else record s {
        records =
            delete_all
              (take (length all_records - config.max_records)
                (sorted (λ a b. ltb a.created_at b.created_at) all_records))
              s.records;
      }

  unfoldable pub publish : Report → List FailureContext → GuildState → List GuildRecord × GuildState
  publish report failures s =
      let (published, u) = publish_each report failures [] [] s in
      if config.enabled then (published, enforce_limit u) else ([], s)

  abbrev pub success_fingerprint : (capability : String) → Json → FailureFingerprint
  success_fingerprint capability input_data = record {
    capability = capability;
    error_type = "_success";
    input_fingerprint = fingerprint_of input_data;
  }

  -- The record that a success writes, where `existing` is the one that the store has.
  unfoldable pub count_success :
      (role : Option String)
      → (metadata : Option Json) → FailureFingerprint
      → (existing : Option GuildRecord) → GuildState
      → GuildRecord × GuildState
  count_success role metadata fingerprint (some existing) s =
      let (t, s) = now s in
      (
        record existing {
          success_count = suc existing.success_count;
          updated_at = t;
          role = replaced role existing.role;
          project = replaced config.project_name existing.project;
        },
        s,
      )
  count_success role metadata fingerprint none s =
      let (created, s) = now s in
      let (updated, s) = now s in
      (
        record {
          fingerprint = fingerprint;
          resolution_hint = none;
          approach_adjustment = [];
          role = role;
          project = config.project_name;
          success_count = 1;
          failure_count = 0;
          created_at = created;
          updated_at = updated;
          metadata = or_else metadata [];
        },
        s,
      )

  unfoldable pub publish_success :
      (capability : String)
      → (input_data : Json) → (role : Option String) → (metadata : Option Json) → GuildState
      → Option GuildRecord × GuildState
  publish_success capability input_data role metadata s =
      let (r, u) =
        count_success role metadata (success_fingerprint capability input_data)
          (get (success_fingerprint capability input_data) s.records) s in
      if config.enabled then (some r, enforce_limit (put r u)) else (none, s)

  abbrev first_of : List GuildRecord → Option GuildRecord
  first_of [] = none
  first_of (r ∷ rest) = some r

  unfoldable pub publish_failure :
      Report → FailureContext → GuildState → Option GuildRecord × GuildState
  publish_failure report failure s =
      let (published, u) = publish report (failure ∷ []) s in (first_of published, u)

  -- `FailureKnowledgeBase.lookup`, which does not read its `input_data`.
  unfoldable pub lookup_records :
      (capability : String) → (error_type : Option String) → GuildState → List GuildRecord
  lookup_records capability error_type s =
      if config.enabled then list_records (some capability) error_type none none 0 s.records else []

  -- The confidence of a suggestion, in tenths.
  abbrev pub role_bonus : Option String → GuildRecord → ℕ
  role_bonus none r = 0
  role_bonus (some role) r = if same_role r.role role then 2 else 0

  unfoldable pub confidence_of : (input_fp : String) → (role : Option String) → GuildRecord → ℕ
  confidence_of input_fp role r =
      5 + (if str_eq r.fingerprint.input_fingerprint input_fp then 3 else 0) + role_bonus role r

  unfoldable pub suggestion_of :
      (input_fp : String) → (role : Option String) → GuildRecord → GuildSuggestion
  suggestion_of input_fp role r = record {
    fingerprint = r.fingerprint;
    resolution_hint = r.resolution_hint;
    approach_adjustment = r.approach_adjustment;
    source_role = r.role;
    source_project = r.project;
    confidence = let c = confidence_of input_fp role r in if leb c 10 then c else 10;
  }

  unfoldable pub suggestions_of :
      (input_fp : String) → (role : Option String) → List GuildRecord → List GuildSuggestion
  suggestions_of input_fp role [] = []
  suggestions_of input_fp role (r ∷ rest) =
      suggestion_of input_fp role r ∷ suggestions_of input_fp role rest

  -- `DefaultPeerSuggestionEngine.suggest`
  unfoldable pub suggest :
      (capability : String)
      → (input_data : Json) → (role : Option String) → GuildState
      → List GuildSuggestion
  suggest capability input_data role s =
      if config.enabled
      then sorted (λ a b. ltb b.confidence a.confidence)
          (suggestions_of (fingerprint_of input_data) role
            (list_records (some capability) none none none 0 s.records))
      else []

  -- `publish_success` as the supervisor calls it: `dumped` is what `json.dumps` of the input comes
  -- to, and an input that it cannot write raises its TypeError before anything is stored.
  unfoldable pub report_success :
      (dumped : Result (Unit {0}))
      → (capability : String) → (input_data : Json) → GuildState
      → Result (Unit {0}) × GuildState
  report_success (ok u) capability input_data s =
      (ok tt, (publish_success capability input_data none none s).1)
  report_success (err e) capability input_data s = if config.enabled then (err e, s) else (ok tt, s)

  -- The knowledge base with the arguments that the supervisor gives. `publish` of failures has only
  -- the empty dictionary to write, and a store in memory does not raise.
  unfoldable pub knowledge_base : (dumps : Json → Result (Unit {0})) → KnowledgeBase GuildState
  knowledge_base dumps = record {
    enabled = config.enabled;
    publish = λ capability failures hint s. (
      ok tt,
      (publish
          (record {
            capability = capability;
            role = none;
            resolution_hint = some hint;
            approach_adjustment = none;
            metadata = none;
          })
          failures s).1,
    );
    publish_success =
        λ capability input_data s. report_success (dumps input_data) capability input_data s;
  }

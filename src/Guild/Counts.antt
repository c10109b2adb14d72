-- ===== src/Guild/Counts.antt =====
-- What `publish_success` of engine/guild/knowledge.py counts, and when the guild over a memory
-- store raises nothing.
use conductor_engine.Base.{
  ℕ, suc, String, ◌≡◌, refl, ap, sym, ◌∙◌, Option, none, some, true, lookup, lookup-insert, str_eq,
  if◌then◌else◌, Assoc,
}
use conductor_engine.Base.Exec.{Result, ok}
use conductor_engine.Json.{Json}
use conductor_engine.Interfaces.Guild.{
  FailureFingerprint, to_key, GuildRecord, GuildConfig, KnowledgeBase,
}
use conductor_engine.Guild.{save, get}
use conductor_engine.Guild.Knowledge.{
  GuildState, now, put, count_success, success_fingerprint, enforce_limit, publish_success,
  report_success, knowledge_base,
}
use conductor_engine.Supervisor.State.{Config}
use conductor_engine.Supervisor.Soundness.{IsQuiet}

-- The successes and the failures that a record counts; there are none where there is no record.
abbrev pub counts : Option GuildRecord → ℕ × ℕ
counts none = (0, 0)
counts (some r) = (r.success_count, r.failure_count)

under :
    (key : String) (r : GuildRecord) {k j : String} {m l : Assoc GuildRecord}
    → k ≡ j
    → m ≡ l
    → (if str_eq k key then some r else lookup key m)
      ≡ (if str_eq j key then some r else lookup key l)
under key r {k} {j} {m} {l} e f =
    ap (λ x. if str_eq x key then some r else lookup key m) e
    ∙ ap (λ x. if str_eq j key then some r else lookup key x) f

module _ (config : GuildConfig) (wall : ℕ → ℕ) (fingerprint_of : Json → String) where
  counted :
      (role : Option String) (m : Option Json) (f : FailureFingerprint) (o : Option GuildRecord)
      (s : GuildState)
      → let (r, u) = count_success config wall fingerprint_of role m f o s in
        (r.success_count ≡ suc (counts o).0)
        × (r.failure_count ≡ (counts o).1)
        × (u.records ≡ s.records)
  unfolding count_success now
  counted role m f none s = (refl, refl, refl)
  counted role m f (some r) s = (refl, refl, refl)

  -- The record that a store has under a key is a record of that key.
  abbrev pub IsKeyed : FailureFingerprint → Option GuildRecord → Type 0
  IsKeyed f none = Unit {0}
  IsKeyed f (some r) = to_key r.fingerprint ≡ to_key f

  count_success-IsKeyed :
      (role : Option String) (m : Option Json) (f : FailureFingerprint) (o : Option GuildRecord)
      (s : GuildState)
      → IsKeyed f o
      → to_key (count_success config wall fingerprint_of role m f o s).0.fingerprint ≡ to_key f
  unfolding count_success now
  count_success-IsKeyed role m f none s e = refl
  count_success-IsKeyed role m f (some r) s e = e

  -- With a guild that is enabled and has no limit of records, and whose record under the key of the
  -- capability and input, if it has one, is of that key: a report of success adds one success, and
  -- no failure, to that record, or starts it with one success; the record is returned and is in the
  -- store, and those of other keys stay as they are.
  pub publish_success-counts :
      (capability : String) (input_data : Json) (role : Option String) (m : Option Json)
      (s : GuildState) (key : String)
      → config.enabled ≡ true
      → config.max_records ≡ 0
      → IsKeyed
          (success_fingerprint config wall fingerprint_of capability input_data)
          (get (success_fingerprint config wall fingerprint_of capability input_data) s.records)
      → let f = success_fingerprint config wall fingerprint_of capability input_data in
        let after = publish_success config wall fingerprint_of capability input_data role m s in
        (r : GuildRecord) × (after.0 ≡ some r)
        × (r.success_count ≡ suc (counts (get f s.records)).0)
        × (r.failure_count ≡ (counts (get f s.records)).1)
        × (lookup key after.1.records
            ≡ (if str_eq (to_key f) key then some r else lookup key s.records))
  unfolding publish_success enforce_limit put save
  publish_success-counts capability input_data role m s key on unlimited keyed =
      let f = success_fingerprint config wall fingerprint_of capability input_data in
      let (r, u) = count_success config wall fingerprint_of role m f (get f s.records) s in
      let (one, same, kept) = counted role m f (get f s.records) s in
      simp (on, unlimited)
        (
          r,
          refl,
          one,
          same,
          lookup-insert (to_key r.fingerprint) key r u.records
              ∙ under key r (count_success-IsKeyed role m f (get f s.records) s keyed) kept,
        )

-- What a knowledge base, if there is one, answers to a report of a success.
outcome : String → Json → GuildState → Option (KnowledgeBase GuildState) → Result (Unit {0})
outcome c i g none = ok tt
outcome c i g (some kb) = (kb.publish_success c i g).0

-- If `json.dumps` can write every input, a supervisor with the knowledge base over a memory store
-- has a guild that takes each report of a success, as the theorems about the life cycle want it.
knowledge_base-IsQuiet :
    {S : Type 0} (config : Config S GuildState) (guild : GuildConfig) (wall : ℕ → ℕ)
    (fingerprint_of : Json → String) (dumps : Json → Result (Unit {0}))
    → config.guild_knowledge ≡ some (knowledge_base guild wall fingerprint_of dumps)
    → ((i : Json) → dumps i ≡ ok tt)
    → IsQuiet config
unfolding knowledge_base report_success outcome
knowledge_base-IsQuiet config guild wall fingerprint_of dumps e writes kb c i g same =
    ap (λ o. outcome c i g o) (sym same ∙ e) ∙ rw (outcome, writes i) refl

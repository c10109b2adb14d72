-- ===== src/Interfaces/Guild.antt =====
-- engine/guild/interface.py, and the two guild services as the supervisor uses them. Both work on
-- one guild store, whose state is `G`; a method that writes to it may raise.
use conductor_engine.Base.{ℕ, String, Bool, List, Option, fstring, [], ◌∷◌}
use conductor_engine.Base.Exec.{Result}
use conductor_engine.Json.{Json}
use conductor_engine.Interfaces.Retry.{FailureContext}

pub record FailureFingerprint : Type 0 where
  pub capability : String
  pub error_type : String
  pub input_fingerprint : String

unfoldable pub to_key : FailureFingerprint → String
to_key f = fstring (f.capability ∷ ":" ∷ f.error_type ∷ ":" ∷ f.input_fingerprint ∷ [])

pub record GuildRecord : Type 0 where
  pub fingerprint : FailureFingerprint
  pub resolution_hint : Option String
  pub approach_adjustment : Json
  pub role : Option String
  pub project : Option String
  pub success_count : ℕ
  pub failure_count : ℕ
  pub created_at : ℕ
  pub updated_at : ℕ
  pub metadata : Json

pub record GuildSuggestion : Type 0 where
  pub fingerprint : FailureFingerprint
  pub resolution_hint : Option String
  pub approach_adjustment : Json
  pub source_role : Option String
  pub source_project : Option String
  pub confidence : ℕ

-- `max_records` 0 stands for every number that is not positive.
pub record GuildConfig : Type 0 where
  pub enabled : Bool
  pub project_name : Option String
  pub max_records : ℕ

-- `FailureKnowledgeBase`, with the arguments that the supervisor gives.
pub record KnowledgeBase (G : Type 0) : Type 0 where
  pub enabled : Bool
  pub publish :
      (capability : String)
      → List FailureContext
      → (resolution_hint : String) → G
      → Result (Unit {0}) × G
  pub publish_success : (capability : String) → (input_data : Json) → G → Result (Unit {0}) × G

-- `DefaultPeerSuggestionEngine`
pub record PeerSuggestions (G : Type 0) : Type 0 where
  pub enabled : Bool
  pub suggest : (capability : String) → (input_data : Json) → G → List GuildSuggestion

-- ===== src/Guild/Ranking.antt =====
-- The suggestions of the peer engine of engine/guild/peer.py: what they are about, and their order.
use conductor_engine.Base.{
  ℕ, String, ◌≡◌, refl, List, [], ◌∷◌, Option, Bool, true, false, ◌&&◌, all, keep, arith, leb, ltb,
  str_eq, if◌then◌else◌, sorted, values,
}
use conductor_engine.Base.Ranked.{IsDescending, sorted-IsDescending, all-sorted}
use conductor_engine.Json.{Json}
use conductor_engine.Interfaces.Guild.{GuildRecord, GuildSuggestion, GuildConfig}
use conductor_engine.Guild.{filter_records, list_records}
use conductor_engine.Guild.Knowledge.{
  GuildState, confidence_of, suggestion_of, suggestions_of, suggest,
}

-- Each suggestion is no less confident than all that follow it.
abbrev pub IsRanked : List GuildSuggestion → Type 0
IsRanked = IsDescending (λ s. s.confidence)

abbrev before : GuildSuggestion → GuildSuggestion → Bool
before a b = ltb b.confidence a.confidence

-- A suggestion that is about a capability and has a confidence between 0.5 and 1.0.
abbrev pub is_for : String → GuildSuggestion → Bool
is_for capability s =
    str_eq s.fingerprint.capability capability && leb 5 s.confidence && leb s.confidence 10

shown :
    (enabled : Bool) (p : GuildSuggestion → Bool) (l : List GuildSuggestion)
    → all p l ≡ true
    → IsRanked (if enabled then sorted before l else [])
      × (all p (if enabled then sorted before l else []) ≡ true)
shown true p l e = (sorted-IsDescending (λ s. s.confidence) l, all-sorted before p l e)
shown false p l e = (tt, refl)

module _ (config : GuildConfig) (wall : ℕ → ℕ) (fingerprint_of : Json → String) where
  suggestions_of-is_for :
      (capability fp : String) (role : Option String) (l : List GuildRecord)
      → all (is_for capability) (
          suggestions_of config wall fingerprint_of fp role
            (keep (λ r. str_eq r.fingerprint.capability capability) l))
        ≡ true
  unfolding suggestions_of suggestion_of confidence_of
  suggestions_of-is_for capability fp role [] = refl
  suggestions_of-is_for capability fp role (r ∷ rest) =
      ground (arith, suggestions_of-is_for capability fp role rest)

  -- What the peer engine suggests for a capability is about that capability, with confidences
  -- between 0.5 and 1.0, and the most confident suggestions come first.
  pub suggest-IsRanked :
      (capability : String) (input_data : Json) (role : Option String) (s : GuildState)
      → IsRanked (suggest config wall fingerprint_of capability input_data role s)
        × (all (is_for capability) (suggest config wall fingerprint_of capability input_data role s)
            ≡ true)
  unfolding suggest list_records filter_records
  suggest-IsRanked capability input_data role s =
      shown config.enabled (is_for capability) _
        (suggestions_of-is_for capability (fingerprint_of input_data) role (values s.records))

-- ===== src/Guild/Tests.antt =====
-- The theorems about engine/guild applied to a small guild.
use conductor_engine.Base.{
  ℕ, String, ◌≡◌, refl, [], ◌∷◌, none, some, true, Bool, List, all, show, leb, ◌*◌, lookup, fstring,
}
use conductor_engine.Json.{Json}
use conductor_engine.Interfaces.Guild.{to_key, GuildRecord, GuildConfig}
use conductor_engine.Guild.{get}
use conductor_engine.Guild.Knowledge.{GuildState, publish_success, suggest}
use conductor_engine.Guild.Ranking.{IsRanked, is_for, suggest-IsRanked}
use conductor_engine.Guild.Counts.{publish_success-counts}
use conductor_engine.Guild.Meeting.{GuildMeetingReport, hold_meeting}
use conductor_engine.Guild.Meeting.Totals.{Adds, hold_meeting-Adds}

abbrev open_guild : GuildConfig
open_guild = record { enabled = true; project_name = none; max_records = 0 }

abbrev wall : ℕ → ℕ
wall n = n

abbrev print_of : Json → String
print_of i = "00"

abbrev known : String → String → GuildRecord
known error_type input = record {
  fingerprint = record { capability = "echo"; error_type = error_type; input_fingerprint = input };
  resolution_hint = none;
  approach_adjustment = [];
  role = some "tester";
  project = none;
  success_count = 2;
  failure_count = 1;
  created_at = 0;
  updated_at = 0;
  metadata = [];
}

abbrev guild : GuildState
guild = record {
  records =
      ("echo:ValueError:11", known "ValueError" "11")
      ∷ ("echo:_success:00", known "_success" "00")
      ∷ [];
  reads = 0;
}

suggest-IsRanked_example :
    IsRanked (suggest open_guild wall print_of "echo" [] (some "tester") guild)
    × (all (is_for "echo") (suggest open_guild wall print_of "echo" [] (some "tester") guild)
        ≡ true)
suggest-IsRanked_example = suggest-IsRanked open_guild wall print_of "echo" [] (some "tester") guild

publish_success-counts_example :
    (r : GuildRecord) × ((publish_success open_guild wall print_of "echo" [] none none guild).0
      ≡ some r)
    × (r.success_count ≡ 3)
    × (r.failure_count ≡ 1)
    × (lookup "echo:ValueError:11"
          (publish_success open_guild wall print_of "echo" [] none none guild).1.records
        ≡ some (known "ValueError" "11"))
unfolding get lookup to_key fstring
publish_success-counts_example =
    publish_success-counts open_guild wall print_of "echo" [] none none guild "echo:ValueError:11"
      refl refl refl

abbrev shares : ℕ → ℕ → String
shares part whole = show part

abbrev mostly : ℕ → ℕ → Bool
mostly part whole = leb (3 * whole) (4 * part)

abbrev members : List GuildRecord
members = known "ValueError" "aa" ∷ known "_success" "bb" ∷ []

hold_meeting-Adds_example :
    (r : GuildMeetingReport) × (hold_meeting shares mostly open_guild "monday" "monday" 3 members
      ≡ some r)
    × Adds shares mostly members r
hold_meeting-Adds_example =
    hold_meeting-Adds shares mostly open_guild "monday" "monday" 3 members refl

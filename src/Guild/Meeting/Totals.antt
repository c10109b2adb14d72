-- ===== src/Guild/Meeting/Totals.antt =====
-- What the report of a meeting of engine/guild/meeting.py adds up to.
use conductor_engine.Base.{
  ℕ, ◌+◌, String, ◌≡◌, refl, List, [], ◌∷◌, some, Bool, true, arith, length, Assoc, sorted,
}
use conductor_engine.Base.Groups.{sum, total, by_key, total-append_to, total-sorted}
use conductor_engine.Interfaces.Guild.{GuildRecord, GuildConfig}
use conductor_engine.Guild.Meeting.{
  GuildMeetingReport, group_by, capability_key, successes_of, failures_of, profile, profiles,
  report, hold_meeting,
}

total-group_by :
    (f : GuildRecord → ℕ) (key : GuildRecord → String) (l : List GuildRecord)
    (g : Assoc (List GuildRecord))
    → total f (group_by key l g) ≡ sum f l + total f g
unfolding group_by
total-group_by f key [] g = omega arith
total-group_by f key (r ∷ rest) g =
    omega (arith, total-append_to f (key r) r g, total-group_by f key rest _)

sum-profiles_success :
    (g : Assoc (List GuildRecord))
    → sum (λ p. p.total_successes) (profiles g) ≡ total (λ r. r.success_count) g
unfolding profile
sum-profiles_success [] = refl
sum-profiles_success ((cap, l) ∷ rest) = omega (arith, sum-profiles_success rest)

sum-profiles_failure :
    (g : Assoc (List GuildRecord))
    → sum (λ p. p.total_failures) (profiles g) ≡ total (λ r. r.failure_count) g
unfolding profile
sum-profiles_failure [] = refl
sum-profiles_failure ((cap, l) ∷ rest) = omega (arith, sum-profiles_failure rest)

module _ (percent : (part whole : ℕ) → String) (above_75 : (part whole : ℕ) → Bool) where
  abbrev pub Adds : List GuildRecord → GuildMeetingReport → Type 0
  Adds records r =
      (r.total_records ≡ length records)
      × (sum (λ p. p.total_successes) r.capability_profiles ≡ successes_of records)
      × (sum (λ p. p.total_failures) r.capability_profiles ≡ failures_of records)

  report-Adds :
      (now id : String) (held_at : ℕ) (records : List GuildRecord)
      → Adds records (report percent above_75 now id held_at records)
  unfolding report
  report-Adds now id held_at [] = (refl, refl, refl)
  report-Adds now id held_at (r ∷ rest) =
      let groups = group_by capability_key (r ∷ rest) [] in
      (
        refl,
        omega (
          arith,
          sum-profiles_success (sorted by_key groups),
          total-sorted (λ (x : GuildRecord). x.success_count) groups,
          total-group_by (λ x. x.success_count) capability_key (r ∷ rest) [],
        ),
        omega (
          arith,
          sum-profiles_failure (sorted by_key groups),
          total-sorted (λ (x : GuildRecord). x.failure_count) groups,
          total-group_by (λ x. x.failure_count) capability_key (r ∷ rest) [],
        ),
      )

  -- A guild that is enabled holds its meeting, and the report adds up: it counts all the records,
  -- and the successes and the failures of its capability profiles sum to those of all the records,
  -- so that no record is lost by the grouping or counted twice.
  pub hold_meeting-Adds :
      (config : GuildConfig) (now id : String) (held_at : ℕ) (records : List GuildRecord)
      → config.enabled ≡ true
      → (r : GuildMeetingReport) × (hold_meeting percent above_75 config now id held_at records
          ≡ some r)
        × Adds records r
  unfolding hold_meeting
  hold_meeting-Adds config now id held_at records open_ = (
    report percent above_75 now id held_at records,
    rw open_ refl,
    report-Adds now id held_at records,
  )

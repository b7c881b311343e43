-- ===== src/Tests/Histories.antt =====
-- Histories of changes of umbrella.xml and of runs of the zone serial number.
use umbrella_linux.Base.{
  ℕ, ◌+◌, ◌*◌, ◌≡◌, refl, inl, inr, [], ◌∷◌, Text, arith, ltb, if◌then◌else◌, All, text_eq,
  text_discrete, ℕ_discrete,
}
use umbrella_linux.Text.{codes, value, decimal}
use umbrella_linux.Timestamp.{two_digits, stored, stored_at, zone_timestamp}
use umbrella_linux.Timestamp.History.{
  World, start, edit, run, Reach, here, next, IsSerial, Reach-IsSerial,
}
use umbrella_linux.Timestamp.Counter.{
  Counter, run_all, count_all, file_of, IsIncreasing, run_all-count_all, run_all-IsIncreasing,
}

abbrev day : ℕ → Text
day t = if ltb t 86400 then codes "20240101" else codes "20240102"

-- A run, a change, and a run of which only the write went well.
abbrev first : World
first = record {
  changed = 500;
  file = (zone_timestamp day 500 (start 500).file stored).file;
  issued = (zone_timestamp day 500 (start 500).file stored).serial ∷ [];
}

abbrev second : World
second = record {
  changed = 600;
  file = (zone_timestamp day 600 first.file (stored_at 900)).file;
  issued = (zone_timestamp day 600 first.file (stored_at 900)).serial ∷ first.issued;
}

reached : Reach day (start 500) second
reached =
    next (next (next here (run (start 500) stored _ refl)) (edit first 600 (omega arith)))
      (run (record first { changed = 600 }) (stored_at 900) _ refl)

Reach-IsSerial_example : All (IsSerial day) second.issued
Reach-IsSerial_example = Reach-IsSerial day 500 second reached

abbrev counter : Counter
counter = record { at = 500; number = 7 }

run_all-count_all_example : run_all day (file_of day counter) (600 ∷ 86500 ∷ []) ≡ (
  (count_all day counter (600 ∷ 86500 ∷ [])).0,
  file_of day (count_all day counter (600 ∷ 86500 ∷ [])).1,
)
run_all-count_all_example = run_all-count_all day counter (600 ∷ 86500 ∷ [])

counted :
    (count_all day counter (600 ∷ 86500 ∷ [])).0 ≡ codes "2024010108" ∷ codes "2024010200" ∷ []
unfolding count_all text_eq text_discrete ℕ_discrete two_digits decimal
counted = refl

run_all-IsIncreasing_example :
    IsIncreasing day
      (value 0 (day 500) * 100 + 7)
      (run_all day (file_of day counter) (600 ∷ 86500 ∷ [])).0
run_all-IsIncreasing_example =
    run_all-IsIncreasing day counter (600 ∷ 86500 ∷ [])
      (omega arith, inl refl, (omega arith, inr (omega arith), tt)) (omega arith)

-- ===== src/Tests/Serials.antt =====
-- Runs of the zone serial number and of the password files.
use umbrella_linux.Base.{
  ℕ, ◌+◌, ◌≡◌, refl, [], ◌∷◌, none, some, Text, arith, ltb, if◌then◌else◌, pos, here, length, All,
}
use umbrella_linux.Text.{codes, value}
use umbrella_linux.Timestamp.{stored, stored_at, zone_timestamp}
use umbrella_linux.Timestamp.Serial.{written, zone_timestamp_idempotent, zone_timestamp_wraps}
use umbrella_linux.Passfiles.{PassFile, read_password, stored_password, or_generate, is_fresh}
use umbrella_linux.Passfiles.Reuse.{IsChoice, IsFresh, read_password_again}
use umbrella_linux.Passfiles.Generated.{IsCapitalOrDigit, read_password_generated}

abbrev day : ℕ → Text
day t = if ltb t 86400 then codes "20240101" else codes "20240102"

zone_timestamp_idempotent_example :
    zone_timestamp day 500 (zone_timestamp day 500 none stored).file (stored_at 900)
    ≡ zone_timestamp day 500 none stored
zone_timestamp_idempotent_example = zone_timestamp_idempotent day 500 none (stored_at 900)

zone_timestamp_wraps_example :
    value 0 (zone_timestamp day 600 (some (written 99 500)) stored).serial + 99
    ≡ value 0 (zone_timestamp day 500 (some (written 99 500)) stored).serial
zone_timestamp_wraps_example = zone_timestamp_wraps day 500 600 stored stored (omega arith) refl

-- Every choice is the first element, which is A.
abbrev all_a : ℕ → Text → ℕ
all_a i [] = 0
all_a i (c ∷ s) = c

all_a-IsChoice : IsChoice all_a
all_a-IsChoice i [] ne = absurd (ne refl)
all_a-IsChoice i (c ∷ s) ne = here refl

IsFresh-day_later : IsFresh (pos 2) 86500 (read_password all_a (pos 2) 12 100 none).file
unfolding read_password or_generate stored_password is_fresh
IsFresh-day_later = refl

read_password_again_example :
    read_password all_a (pos 2) 12 86500 (read_password all_a (pos 2) 12 100 none).file
    ≡ read_password all_a (pos 2) 12 100 none
read_password_again_example =
    read_password_again all_a all_a (pos 2) 12 12 100 86500 none all_a-IsChoice (omega arith)
      IsFresh-day_later

-- A password of a day ago that lasts for no day.
abbrev old_file : PassFile
old_file = record { content = codes "SECRET"; mtime = 100 }

expired : stored_password (pos 0) 86500 (some old_file) ≡ []
unfolding stored_password is_fresh
expired = refl

read_password_generated_example :
    (length (read_password all_a (pos 0) 12 86500 (some old_file)).password ≡ 12)
    × All IsCapitalOrDigit (read_password all_a (pos 0) 12 86500 (some old_file)).password
    × ((read_password all_a (pos 0) 12 86500 (some old_file)).file
        ≡ some (record {
          content = (read_password all_a (pos 0) 12 86500 (some old_file)).password;
          mtime = 86500;
        }))
    × ((p : Text)
        → All IsCapitalOrDigit p
        → length p ≡ 12
        → (other : ℕ → Text → ℕ) × IsChoice other
          × ((read_password other (pos 0) 12 86500 (some old_file)).password ≡ p))
read_password_generated_example =
    read_password_generated all_a (pos 0) 12 86500 (some old_file) all_a-IsChoice expired

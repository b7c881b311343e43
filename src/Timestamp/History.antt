-- ===== src/Timestamp/History.antt =====
-- Changes of umbrella.xml and runs of 32_zone_timestamp.py in any order, as steps.
use umbrella_linux.Base.{
  ℕ, ◌+◌, ◌-◌, ◌*◌, ◌<◌, ◌≡◌, refl, List, [], ◌∷◌, ◌++◌, Option, some, none, Text, arith, ltb, inl,
  inr, pos, All, subst, Bool-cases,
}
use umbrella_linux.Text.{value, strip}
use umbrella_linux.Timestamp.{
  two_digits, parse_int, SeqFile, Outcome, stored, stored_at, emptied_at, not_stored, stored_file,
  read_number, Zone, zone_timestamp, modified, next_number,
}
use umbrella_linux.Timestamp.Serial.{read_number-written, serial_value}

-- The modification time of umbrella.xml, the sequence file, and the serials that were given so far.
pub record World : Type 0 where
  pub changed : ℕ
  pub file : Option SeqFile
  pub issued : List Text

-- Before the first run.
abbrev pub start : ℕ → World
start t = record { changed = t; file = none; issued = [] }

module _ (day : ℕ → Text) where
  -- umbrella.xml is changed, or the script runs, whatever becomes of its attempt to write the file.
  pub data Step : World → World → Type 0 where
    edit : (w : World) (t : ℕ) → w.changed < t → Step w (record w { changed = t })
    run :
        (w : World) (o : Outcome) (z : Zone)
        → zone_timestamp day w.changed w.file o ≡ z
        → Step w (record { changed = w.changed; file = z.file; issued = z.serial ∷ w.issued })

  pub data Reach (s : World) : World → Type 0 where
    here : Reach s s
    next : {t u : World} → Reach s t → Step t u → Reach s u

  -- A day and a number of two digits.
  abbrev pub IsSerial : Text → Type 0
  IsSerial s =
      (t : ℕ) × (n : ℕ) × (n < 100)
      × (s ≡ day t ++ two_digits (pos n))
      × (value 0 s ≡ value 0 (day t) * 100 + n)

  -- The file, if it is there, has a number below 100.
  abbrev HasNumber : Option SeqFile → Type 0
  HasNumber none = Unit
  HasNumber (some f) = (n : ℕ) × (n < 100) × (read_number f ≡ pos n)

  two-IsSerial : (t n : ℕ) → n < 100 → IsSerial (day t ++ two_digits (pos n))
  two-IsSerial t n h = (t, n, h, refl, serial_value (day t) n h)

  next_number-lt : (t s : ℕ) (n : ℕ) → next_number day t s (pos n) < 100
  unfolding next_number
  next_number-lt t s n = ground arith

  -- An empty file counts as the number 0.
  read_number-empty : (now : ℕ) → read_number (record { first_line = some []; mtime = now }) ≡ pos 0
  unfolding read_number parse_int strip
  read_number-empty now = refl

  stored-HasNumber :
      (n t : ℕ) (o : Outcome) (old : Option SeqFile)
      → n < 100
      → HasNumber old
      → HasNumber (stored_file n t o old)
  stored-HasNumber n t stored old h k = (n, h, read_number-written n t)
  stored-HasNumber n t (stored_at now) old h k = (n, h, read_number-written n now)
  stored-HasNumber n t (emptied_at now) old h k = (0, omega arith, read_number-empty now)
  stored-HasNumber n t not_stored old h k = k

  -- One run.
  run_keeps :
      (t : ℕ) (old : Option SeqFile) (o : Outcome)
      → HasNumber old
      → IsSerial (zone_timestamp day t old o).serial × HasNumber (zone_timestamp day t old o).file
  unfolding zone_timestamp modified
  run_keeps t none o h =
      let small = next_number-lt t (t - 1) 0 in
      (two-IsSerial t _ small, stored-HasNumber _ t o none small tt)
  run_keeps t (some f) o (n, h, e) = elim (Bool-cases (ltb f.mtime t)) [
    | inl later ↦
        rw (later, e)
          (
            two-IsSerial t _ (next_number-lt t f.mtime n),
            stored-HasNumber _ t o (some f) (next_number-lt t f.mtime n) (n, h, e),
          )
    | inr same ↦ rw (same, e) (two-IsSerial t n h, (n, h, refl))
  ]

  Reach-keeps : {t : ℕ} {w : World} → Reach (start t) w → All IsSerial w.issued × HasNumber w.file
  Reach-keeps here = (tt, tt)
  Reach-keeps (next r (edit w t later)) = Reach-keeps r
  Reach-keeps (next r (run w o z e)) =
      let (all, number) = Reach-keeps r in
      let (serial, file) = run_keeps w.changed w.file o number in
      ((subst (λ y. IsSerial y.serial) e serial, all), subst (λ y. HasNumber y.file) e file)

  -- However often umbrella.xml is changed and the script runs, in whatever order and whatever fails
  -- of the opening of the sequence file for writing, the write and the setting of its time, if there
  -- was no sequence file at first, then every serial number it gives is a day followed by a number of
  -- two digits.
  pub Reach-IsSerial : (t : ℕ) (w : World) → Reach (start t) w → All IsSerial w.issued
  Reach-IsSerial t w r = (Reach-keeps r).0

-- ===== src/Timestamp/Serial.antt =====
-- What the serial number does from one run of 32_zone_timestamp.py to the next.
use umbrella_linux.Base.{
  ℕ, ◌+◌, ◌-◌, ◌*◌, ◌%◌, ◌<◌, ◌≡◌, refl, ap, [], ◌∷◌, ◌++◌, Option, some, none, Text, arith, sym,
  ◌∙◌, text_eq, ==_refl, ==_iff, ◌≢◌, ◌⊎◌, inl, inr, pos,
}
use umbrella_linux.Text.{decimal, value, decimal_of_lt_thousand}
use umbrella_linux.Timestamp.{
  two_digits, SeqFile, Outcome, stored, read_number, zone_timestamp, modified, next_number,
}
use umbrella_linux.Timestamp.Reading.{parse_int-decimal}

lt-ne : {m n : ℕ} → m < n → m ≢ n
lt-ne h e = omega arith

-- The file after the number `n` was stored for a change at the time `t`.
abbrev pub written : ℕ → ℕ → SeqFile
written n t = record { first_line = some (decimal n); mtime = t }

pub read_number-written : (n t : ℕ) → read_number (written n t) ≡ pos n
unfolding read_number
read_number-written n t = ap (λ o. elim o [ none ↦ pos 0 | some z ↦ z ]) (parse_int-decimal n)

value-append : (s t : Text) (n : ℕ) → value n (s ++ t) ≡ value (value n s) t
value-append [] t n = refl
value-append (c ∷ s) t n = value-append s t (n * 10 + (c - b'0'))

value-two_digits : (n m : ℕ) → n < 100 → value m (two_digits (pos n)) ≡ m * 100 + n
unfolding two_digits
value-two_digits n m h = ground (arith, decimal_of_lt_thousand n)

-- The serial is the day followed by the number.
pub serial_value :
    (s : Text) (n : ℕ) → n < 100 → value 0 (s ++ two_digits (pos n)) ≡ value 0 s * 100 + n
serial_value s n h = value-append s (two_digits (pos n)) 0 ∙ value-two_digits n (value 0 s) h

module _ (day : ℕ → Text) where
  -- A run after the file was stored for the same change.
  again :
      (t n : ℕ) (o : Outcome)
      → zone_timestamp day t (some (written n t)) o
        ≡ record { serial = day t ++ two_digits (pos n); file = some (written n t) }
  unfolding zone_timestamp
  again t n o = ground (arith, read_number-written n t)

  -- Once a run has stored its number, further runs give the same serial and leave the file as it is,
  -- until umbrella.xml is modified again.
  pub zone_timestamp_idempotent :
      (t : ℕ) (old : Option SeqFile) (o : Outcome)
      → zone_timestamp day t (zone_timestamp day t old stored).file o
        ≡ zone_timestamp day t old stored
  unfolding zone_timestamp modified
  zone_timestamp_idempotent t none o = again t _ o
  zone_timestamp_idempotent t (some f) o =
      ground (arith, again t (next_number day t f.mtime (read_number f)) o)

  -- Another change on the same day.
  next_same_day :
      (s t n : ℕ) (o : Outcome)
      → s < t
      → day t ≡ day s
      → (zone_timestamp day t (some (written n s)) o).serial
        ≡ day s ++ two_digits (pos ((n + 1) % 100))
  unfolding zone_timestamp modified next_number
  next_same_day s t n o later same =
      ground (arith, read_number-written n s, ==_refl (day s), ==_refl (day t))

  -- A change on another day.
  next_other_day :
      (s t n : ℕ) (o : Outcome)
      → s < t
      → day t ≢ day s
      → (zone_timestamp day t (some (written n s)) o).serial ≡ day t ++ two_digits (pos 0)
  unfolding zone_timestamp modified next_number
  next_other_day s t n o later other = ground (arith, ==_iff (day t) (day s))

  serial_number :
      (t n : ℕ) (o : Outcome)
      → n < 100
      → value 0 (zone_timestamp day t (some (written n t)) o).serial ≡ value 0 (day t) * 100 + n
  serial_number t n o h = ap (λ z. value 0 z.serial) (again t n o) ∙ serial_value (day t) n h

  -- If the file has the number of the last change, below 99, the serial after a later change is
  -- greater than the one before, where the later change is on the same day or on a day that is a
  -- greater number.
  pub zone_timestamp_increases :
      (s t n : ℕ) (o p : Outcome)
      → s < t
      → n < 99
      → (day t ≡ day s) ⊎ (value 0 (day s) < value 0 (day t))
      → value 0 (zone_timestamp day s (some (written n s)) o).serial
        < value 0 (zone_timestamp day t (some (written n s)) p).serial
  zone_timestamp_increases s t n o p later few (inl same) =
      let before = serial_number s n o (omega arith) in
      let after =
        ap (value 0) (next_same_day s t n p later same)
        ∙ serial_value (day s) ((n + 1) % 100) (omega arith) in
      omega arith
  zone_timestamp_increases s t n o p later few (inr greater) =
      let before = serial_number s n o (omega arith) in
      let after =
        ap (value 0) (next_other_day s t n p later (λ e. lt-ne greater (ap (value 0) (sym e))))
        ∙ serial_value (day t) 0 (omega arith) in
      omega arith

  -- If the file has the number 99 of the last change, a later change on the same day gets a
  -- serial that is 99 less.
  pub zone_timestamp_wraps :
      (s t : ℕ) (o p : Outcome)
      → s < t
      → day t ≡ day s
      → value 0 (zone_timestamp day t (some (written 99 s)) p).serial + 99
        ≡ value 0 (zone_timestamp day s (some (written 99 s)) o).serial
  zone_timestamp_wraps s t o p later same =
      let before = serial_number s 99 o (omega arith) in
      let after =
        ap (value 0) (next_same_day s t 99 p later same) ∙ serial_value (day s) 0 (omega arith) in
      omega arith

-- ===== src/Timestamp.antt =====
-- Python/32_zone_timestamp.py: the serial number of the DNS zones, from the modification time of
-- umbrella.xml and the file that keeps the number of the change within the day.
pub mod Reading
pub mod Serial
pub mod History
pub mod Counter
use umbrella_linux.Base.{
  ℕ, zero, suc, ◌+◌, ◌-◌, ◌*◌, ◌%◌, Bool, true, false, ◌&&◌, List, [], ◌∷◌, ◌++◌, Option, none,
  some, Text, ◌==◌, nat_eq, text_eq, ltb, if◌then◌else◌, ℤ, pos, negsuc,
}
use umbrella_linux.Text.{strip, decimal, is_digit}

-- `z + 1`
abbrev pub add_one : ℤ → ℤ
add_one (pos n) = pos (n + 1)
add_one (negsuc zero) = pos 0
add_one (negsuc (suc n)) = negsuc n

-- `z % 100`, which is never negative.
abbrev pub mod_hundred : ℤ → ℕ
mod_hundred (pos n) = n % 100
mod_hundred (negsuc n) = 99 - n % 100

negate : ℕ → ℤ
negate zero = pos 0
negate (suc n) = negsuc n

-- Digits, with single underscores between them; the flag says whether a digit came last.
digits_after : Bool → ℕ → Text → Option ℕ
digits_after last n [] = if last then some n else none
digits_after last n (c ∷ s) =
    let more = digits_after true (n * 10 + (c - b'0')) s in
    let skip = digits_after false n s in
    if is_digit c then more else if c == b'_' && last then skip else none

signed : Text → Option ℤ
unfolding digits_after negate
signed [] = none
signed (c ∷ s) =
    if c == b'-'
    then (elim (digits_after false 0 s) [ none ↦ none | some n ↦ some (negate n) ])
    else if c == b'+'
    then (elim (digits_after false 0 s) [ none ↦ none | some n ↦ some (pos n) ])
    else (elim (digits_after false 0 (c ∷ s)) [ none ↦ none | some n ↦ some (pos n) ])

-- `int(s)`; `none` is its `ValueError`.
unfoldable pub parse_int : Text → Option ℤ
unfolding signed
parse_int s = signed (strip s)

-- `'{0:02d}'.format(z)`
unfoldable pub two_digits : ℤ → Text
two_digits (pos n) = if ltb n 10 then b'0' ∷ decimal n else decimal n
two_digits (negsuc n) = b'-' ∷ decimal (n + 1)

-- The sequence file: its first line, `none` if it cannot be read, and its modification time.
pub record SeqFile : Type 0 where
  pub first_line : Option Text
  pub mtime : ℕ

-- What became of the attempt to write the file and to set its time: both went well, or only the
-- write (the file then has the current time), or only the opening, which empties the file, or
-- nothing. The at most two characters are written at once.
pub data Outcome : Type 0 where
  stored : Outcome
  stored_at : ℕ → Outcome
  emptied_at : ℕ → Outcome
  not_stored : Outcome

-- `seq_number` as it is read from the file.
abbrev number_of : Option ℤ → ℤ
number_of none = pos 0
number_of (some z) = z

unfoldable pub read_number : SeqFile → ℤ
read_number f = elim f.first_line [ none ↦ pos 0 | some line ↦ number_of (parse_int line) ]

abbrev stored_file : ℕ → ℕ → Outcome → Option SeqFile → Option SeqFile
stored_file number timestamp stored old =
    some (record { first_line = some (decimal number); mtime = timestamp })
stored_file number timestamp (stored_at now) old =
    some (record { first_line = some (decimal number); mtime = now })
stored_file number timestamp (emptied_at now) old =
    some (record { first_line = some []; mtime = now })
stored_file number timestamp not_stored old = old

-- The serial number, and the sequence file that is left.
pub record Zone : Type 0 where
  pub serial : Text
  pub file : Option SeqFile

-- `day t` is the local date at the time `t` as %Y%m%d; the time zone is the machine's.
module _ (day : ℕ → Text) where
  -- umbrella.xml was modified at `timestamp`, after the file was written at `seq_timestamp`.
  next_number : ℕ → ℕ → ℤ → ℕ
  next_number timestamp seq_timestamp number =
      mod_hundred (if day timestamp == day seq_timestamp then add_one number else pos 0)

  modified : ℕ → ℕ → ℤ → Option SeqFile → Outcome → Zone
  unfolding next_number
  modified timestamp seq_timestamp number old outcome =
      let n = next_number timestamp seq_timestamp number in
      record {
        serial = day timestamp ++ two_digits (pos n);
        file = stored_file n timestamp outcome old;
      }

  -- The whole script. Without a file the last generation counts as a second before the change.
  unfoldable pub zone_timestamp : ℕ → Option SeqFile → Outcome → Zone
  unfolding modified
  zone_timestamp timestamp none outcome = modified timestamp (timestamp - 1) (pos 0) none outcome
  zone_timestamp timestamp (some f) outcome =
      if ltb f.mtime timestamp
      then modified timestamp f.mtime (read_number f) (some f) outcome
      else record { serial = day timestamp ++ two_digits (read_number f); file = some f }

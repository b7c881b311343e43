-- ===== src/Timestamp/Counter.antt =====
-- The serial numbers of 32_zone_timestamp.py over a history, against a counter of the changes of a day.
use umbrella_linux.Base.{
  ℕ, ◌+◌, ◌*◌, ◌%◌, ◌≤◌, ◌<◌, ◌≡◌, refl, ap, false, List, [], ◌∷◌, ◌++◌, Option, some, Text,
  text_eq, ◌==◌, ==_iff, arith, sym, ltb, ltb_iff, if◌then◌else◌, length, ◌∙◌, ◌⊎◌, inl, inr, pos,
  subst, Bool-cases,
}
use umbrella_linux.Text.{value}
use umbrella_linux.Timestamp.{two_digits, SeqFile, stored, zone_timestamp, modified, next_number}
use umbrella_linux.Timestamp.Serial.{written, read_number-written, serial_value}

-- The time of the last change that counted, and its number within the day.
pub record Counter : Type 0 where
  pub at : ℕ
  pub number : ℕ

differ : (s t : Text) → value 0 s < value 0 t → (t == s) ≡ false
differ s t h = elim (Bool-cases (t == s)) [
  | inl e ↦
      (let same : value 0 t ≡ value 0 s = ap (value 0) ((==_iff t s).0 e) in absurd (omega arith))
  | inr e ↦ e
]

module _ (day : ℕ → Text) where
  -- A change counts if it is later: on the same day it has the next number, on another day it is 0.
  unfoldable pub advance : Counter → ℕ → Counter
  advance c t =
      if ltb c.at t
      then record { at = t; number = (if day t == day c.at then (c.number + 1) % 100 else 0) }
      else c

  -- The numbers of a history of times, and where the counter ends.
  unfoldable pub count_all : Counter → List ℕ → List Text × Counter
  unfolding advance
  count_all c [] = ([], c)
  count_all c (t ∷ times) =
      let c' = advance c t in
      let (serials, last) = count_all c' times in
      ((day t ++ two_digits (pos c'.number)) ∷ serials, last)

  -- The runs of the script at a history of modification times, where its writes go well.
  unfoldable pub run_all : Option SeqFile → List ℕ → List Text × Option SeqFile
  run_all file [] = ([], file)
  run_all file (t ∷ times) =
      let z = zone_timestamp day t file stored in
      let (serials, last) = run_all z.file times in (z.serial ∷ serials, last)

  -- The file that stands for a counter.
  abbrev pub file_of : Counter → Option SeqFile
  file_of c = some (written c.number c.at)

  one_run :
      (c : Counter) (t : ℕ)
      → zone_timestamp day t (file_of c) stored ≡ record {
        serial = day t ++ two_digits (pos (advance c t).number);
        file = file_of (advance c t);
      }
  unfolding zone_timestamp modified next_number advance
  one_run c t = elim (Bool-cases (ltb c.at t)) [
    | inl later ↦
        rw (later, read_number-written c.number c.at)
          (elim (Bool-cases (day t == day c.at)) [
            | inl today ↦ rw today refl
            | inr other ↦ rw other refl
          ])
    | inr same ↦ rw (same, read_number-written c.number c.at) refl
  ]

  -- The script keeps a counter in its file: from a file that stands for a counter, the runs at any
  -- modification times give the serial numbers that the counter gives at these times, and leave the
  -- file that stands for the counter at the end.
  pub run_all-count_all :
      (c : Counter) (times : List ℕ)
      → run_all (file_of c) times ≡ ((count_all c times).0, file_of (count_all c times).1)
  unfolding run_all count_all
  run_all-count_all c [] = refl
  run_all-count_all c (t ∷ times) = rw (one_run c t) (
      ap (λ p. ((day t ++ two_digits (pos (advance c t).number)) ∷ p.0, p.1))
        (run_all-count_all (advance c t) times))

  -- Times of changes, each later than the one before and on the same day or on a day that is a
  -- greater number.
  abbrev pub IsHistory : ℕ → List ℕ → Type 0
  IsHistory s [] = Unit
  IsHistory s (t ∷ times) =
      (s < t) × ((day t ≡ day s) ⊎ (value 0 (day s) < value 0 (day t))) × IsHistory t times

  -- Serial numbers that grow, from one that was given before.
  abbrev pub IsIncreasing : ℕ → List Text → Type 0
  IsIncreasing before [] = Unit
  IsIncreasing before (s ∷ serials) = (before < value 0 s) × IsIncreasing (value 0 s) serials

  -- What a later change does to the counter.
  advance_later :
      (c : Counter) (t : ℕ)
      → c.at < t
      → c.number < 99
      → (day t ≡ day c.at) ⊎ (value 0 (day c.at) < value 0 (day t))
      → ((advance c t).at ≡ t)
        × ((advance c t).number ≤ c.number + 1)
        × (value 0 (day c.at) * 100 + c.number < value 0 (day t) * 100 + (advance c t).number)
  unfolding advance
  advance_later c t later few (inl same) =
      let at_day : value 0 (day t) ≡ value 0 (day c.at) = ap (value 0) same in
      rw ((ltb_iff c.at t).1 later, (==_iff (day t) (day c.at)).1 same)
        (refl, omega arith, omega arith)
  advance_later c t later few (inr greater) =
      rw ((ltb_iff c.at t).1 later, differ (day c.at) (day t) greater)
        (refl, omega arith, omega arith)

  count_all-IsIncreasing :
      (c : Counter) (times : List ℕ)
      → IsHistory c.at times
      → c.number + length times < 100
      → IsIncreasing (value 0 (day c.at) * 100 + c.number) (count_all c times).0
  unfolding count_all
  count_all-IsIncreasing c [] h few = tt
  count_all-IsIncreasing c (t ∷ times) (later, days, h) few =
      let (now, small, grows) = advance_later c t later (omega arith) days in
      let is = serial_value (day t) (advance c t).number (omega arith) in
      (
        omega arith,
        subst (λ z. IsIncreasing z (count_all (advance c t) times).0)
            (ap (λ z. value 0 (day z) * 100 + (advance c t).number) now ∙ sym is)
            (count_all-IsIncreasing (advance c t) times (subst (λ z. IsHistory z times) (sym now) h)
              (omega arith)),
      )

  -- Over any history of changes, each later than the one before and on the same day or on a day that
  -- is a greater number, the serial numbers strictly increase, starting above the one that stands for
  -- the counter in the file, if that counter's number and the changes are fewer than 100 together.
  pub run_all-IsIncreasing :
      (c : Counter) (times : List ℕ)
      → IsHistory c.at times
      → c.number + length times < 100
      → IsIncreasing (value 0 (day c.at) * 100 + c.number) (run_all (file_of c) times).0
  run_all-IsIncreasing c times h few =
      rw (run_all-count_all c times) (count_all-IsIncreasing c times h few)

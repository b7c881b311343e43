-- ===== src/Passfiles.antt =====
-- Python/12_passfiles.py: a password that is kept in a file and made anew when the file is too old.
pub mod Reuse
pub mod Generated
use umbrella_linux.Base.{
  ℕ, zero, suc, ◌+◌, ◌*◌, Bool, true, false, List, [], ◌∷◌, ◌++◌, Option, none, some, Text, ◌==◌,
  nat_eq, ltb, if◌then◌else◌, ℤ, pos, negsuc,
}
use umbrella_linux.Text.{codes}

-- A file of the server: all of its text, and its modification time in seconds.
pub record PassFile : Type 0 where
  pub content : Text
  pub mtime : ℕ

-- `f.readline()` on a file just opened: the text up to the first line end, that one included.
unfoldable pub readline : Text → Text
readline [] = []
readline (c ∷ s) = let rest = readline s in if c == 10 then c ∷ [] else c ∷ rest

-- `string.ascii_uppercase + string.digits`
abbrev pub alphabet : Text
alphabet = codes "ABCDEFGHIJKLMNOPQRSTUVWXYZ" ++ codes "0123456789"

-- `lifetime_days<0 or (time.time() - os.path.getmtime(fname)) < (lifetime_days*24*60*60)`
unfoldable pub is_fresh : ℤ → ℕ → ℕ → Bool
is_fresh (negsuc _) now mtime = true
is_fresh (pos days) now mtime = ltb now (mtime + days * 24 * 60 * 60)

-- What is read from the file, empty if there is none or it is too old.
unfoldable pub stored_password : ℤ → ℕ → Option PassFile → Text
stored_password lifetime_days now none = []
stored_password lifetime_days now (some f) =
    if is_fresh lifetime_days now f.mtime then readline f.content else []

-- The password, and the file that is left.
pub record Answer : Type 0 where
  pub password : Text
  pub file : Option PassFile

-- `choice i s` is what the i-th call of `random.choice`, with the argument `s`, returns.
module _ (choice : ℕ → Text → ℕ) where
  -- `password_length` calls, behind those made before.
  unfoldable pub random_from : ℕ → ℕ → Text
  random_from i zero = []
  random_from i (suc n) = choice i alphabet ∷ random_from (suc i) n

  -- The text read, or a new password where that is empty.
  unfoldable pub or_generate : ℕ → ℕ → Option PassFile → Text → Answer
  or_generate now password_length old [] =
      let password = random_from 0 password_length in
      record { password = password; file = some (record { content = password; mtime = now }) }
  or_generate now password_length old (c ∷ s) = record { password = c ∷ s; file = old }

  -- `read_password`, at the time `now`, on the file `old`.
  unfoldable pub read_password : ℤ → ℕ → ℕ → Option PassFile → Answer
  read_password lifetime_days password_length now old =
      or_generate now password_length old (stored_password lifetime_days now old)

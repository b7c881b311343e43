-- ===== src/Ossec.antt =====
-- Python/45_ossec.py: the files that the OSSEC checks are to leave alone, because bcfg2 manages them.
-- The Python stack, in which the script looks for `structures`, is the list of its callers.
pub mod Ignored
pub mod Callers
use umbrella_linux.Base.{
  Bool, true, false, List, [], ◌∷◌, ◌++◌, Option, none, some, Text, if◌then◌else◌, Result, ok, err,
  attribute_error, fold_result, ◌>>=◌,
}
use umbrella_linux.Text.{codes, starts_with}
use umbrella_linux.Text.Order.{sorted}
use umbrella_linux.Xml.{Dom}

-- `dir_list`, and `path_list` before the loop.
abbrev pub dir_list : List Text
dir_list = codes "/etc" ∷ []

abbrev pub always_ignored : List Text
always_ignored =
    codes "/etc/mtab"
    ∷ codes "/etc/hosts.deny"
    ∷ codes "/etc/adjtime"
    ∷ codes "/var/ossec/etc/ossec.conf"
    ∷ codes "/var/ossec/etc/internal_options.conf"
    ∷ []

-- The path once for each of the directories that it starts with.
unfoldable pub note_path : Text → List Text → List Text → List Text
note_path path [] found = found
note_path path (dir ∷ dirs) found =
    note_path path dirs (if starts_with path dir then found ++ (path ∷ []) else found)

-- The local `structures` of a caller: `none` where it has no such variable, `some none` where it is
-- `None`.
abbrev pub Frame : Dom → Type 0
Frame d = Option (Option (List d.Element))

module _ (d : Dom) where
  -- The walk over the callers, the nearest first; past the last `_getframe` raises.
  unfoldable pub find_structures : List (Frame d) → Option (List d.Element)
  find_structures [] = none
  find_structures (none ∷ frames) = find_structures frames
  find_structures (some none ∷ frames) = find_structures frames
  find_structures (some (some structures) ∷ frames) = some structures

  -- One `Path` element; an element with no name raises in `startswith`.
  unfoldable pub read_path : List Text → d.Element → Result (List Text)
  unfolding note_path
  read_path found e = elim (d.attribute e (codes "name")) [
    | none ↦ err attribute_error
    | some path ↦ ok (note_path path dir_list found)
  ]

  unfoldable pub read_structure : List Text → d.Element → Result (List Text)
  unfolding read_path
  read_structure found struct = fold_result read_path found (d.iter struct (codes "Path"))

  unfoldable pub collect_paths : Option (List d.Element) → Result (List Text)
  unfolding read_structure
  collect_paths none = ok always_ignored
  collect_paths (some structures) = fold_result read_structure always_ignored structures

  -- `path_list`, sorted.
  unfoldable pub ignored_paths : Option (List d.Element) → Result (List Text)
  unfolding collect_paths
  ignored_paths structures = do found ← collect_paths structures; ok (sorted found)

  -- The whole script, below its callers.
  unfoldable pub ossec_paths : List (Frame d) → Result (List Text)
  unfolding find_structures ignored_paths
  ossec_paths frames = ignored_paths (find_structures frames)

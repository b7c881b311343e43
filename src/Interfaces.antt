-- ===== src/Interfaces.antt =====
-- The names of the interface types, which are the tags of their elements and the keys of the dicts
-- that the scripts keep by interface.
use umbrella_linux.Base.{List, [], ◌∷◌, Text}
use umbrella_linux.Text.{codes}

abbrev pub extif : Text
extif = codes "extif"

abbrev pub intif : Text
intif = codes "intif"

abbrev pub pubif : Text
pubif = codes "pubif"

abbrev pub secif : Text
secif = codes "secif"

abbrev pub dmz_if : Text
dmz_if = codes "DMZif"

abbrev pub vpnif : Text
vpnif = codes "vpnif"

abbrev pub winif : Text
winif = codes "winif"

-- `iftypes` of 30_networking.py
abbrev pub iftypes : List Text
iftypes = extif ∷ intif ∷ pubif ∷ secif ∷ dmz_if ∷ vpnif ∷ winif ∷ []

-- `name[:-2]`, the name of an interface type without its "if".
unfoldable pub drop_last_two : Text → Text
drop_last_two [] = []
drop_last_two (a ∷ []) = []
drop_last_two (a ∷ b ∷ []) = []
drop_last_two (a ∷ b ∷ c ∷ s) = a ∷ drop_last_two (b ∷ c ∷ s)

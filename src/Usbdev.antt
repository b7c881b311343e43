-- ===== src/Usbdev.antt =====
-- Python/40_usbdev.py: the USB devices that are blacklisted and whitelisted for a host. The script
-- has the same loop twice, for the elements `blacklist` and `whitelist` of usbdev.xml.
pub mod Devices
use umbrella_linux.Base.{
  Bool, true, false, not, ◌&&◌, ◌||◌, List, [], ◌∷◌, ◌++◌, Option, none, some, Text, ◌==◌, text_eq,
  contains, if◌then◌else◌, foldl,
}
use umbrella_linux.Text.{codes}
use umbrella_linux.Xml.{Dom, has_child, child_text}

-- `text == x.text` and `x.text in list`, for an element that may be missing.
is_named : Text → Option Text → Bool
is_named hostname none = false
is_named hostname (some t) = hostname == t

is_member : List Text → Option Text → Bool
is_member groups none = false
is_member groups (some t) = contains groups t

module _ (d : Dom) (hostname : Text) (groups : List Text) where
  -- The condition under which a list of usbdev.xml counts for the host.
  unfoldable pub applies : d.Element → Bool
  unfolding is_named is_member has_child child_text
  applies e =
      (not (has_child d e (codes "host")) && not (has_child d e (codes "group")))
      || is_named hostname (child_text d e (codes "host"))
      || is_member groups (child_text d e (codes "group"))

  -- `blacklistdevices`, `hasblacklist` and `wildcardblasklist`, or those of the whitelist.
  pub record Listed : Type 0 where
    pub devices : List d.Element
    pub has_list : Bool
    pub wildcard : Bool

  -- `next(e.iter('device'), None) is None`
  abbrev pub names_none : List d.Element → Bool
  names_none [] = true
  names_none (_ ∷ _) = false

  abbrev pub nothing_listed : Listed
  nothing_listed = record { devices = []; has_list = false; wildcard = false }

  -- One round of the loop.
  unfoldable pub note_list : Listed → d.Element → Listed
  unfolding applies
  note_list s e =
      if applies e
      then record {
        devices = s.devices ++ d.iter e (codes "device");
        has_list = true;
        wildcard = s.wildcard || names_none (d.iter e (codes "device"));
      }
      else s

  -- The list is emptied if one of those that count names no device.
  unfoldable pub reset : Listed → Listed
  reset s = record {
    devices = (if s.wildcard then [] else s.devices);
    has_list = s.has_list;
    wildcard = s.wildcard;
  }

  -- `name` is "blacklist" or "whitelist", `root` the root element of usbdev.xml.
  unfoldable pub usb_list : d.Element → Text → Listed
  unfolding note_list reset
  usb_list root name = reset (foldl note_list nothing_listed (d.findall root name))

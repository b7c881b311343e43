-- ===== src/Usbdev/Devices.antt =====
-- Which devices 40_usbdev.py lists.
use mathlib.Core.List.{append-nil, append_assoc}
use umbrella_linux.Base.{
  ◌≡◌, refl, ◌↔◌, inl, inr, Bool, true, false, ◌&&◌, ◌||◌, List, [], ◌∷◌, ◌++◌, Text, if◌then◌else◌,
  foldl, some_of, subst, here, there, arith, In, ◌∙◌, ap, In-append, In-append_left,
  In-append_right,
}
use umbrella_linux.Text.{codes}
use umbrella_linux.Xml.{Dom}
use umbrella_linux.Usbdev.{applies, Listed, names_none, nothing_listed, note_list, reset, usb_list}

module _ (d : Dom) (hostname : Text) (groups : List Text) where
  -- A list that counts for the host and names no device.
  abbrev pub is_wildcard : d.Element → Bool
  is_wildcard e =
      applies d hostname groups e && names_none d hostname groups (d.iter e (codes "device"))

  -- The devices of all the lists that count for the host.
  abbrev pub all_devices : List d.Element → List d.Element
  all_devices [] = []
  all_devices (e ∷ l) =
      if applies d hostname groups e
      then d.iter e (codes "device") ++ all_devices l
      else all_devices l

  abbrev listed_behind : Listed d hostname groups → List d.Element → Listed d hostname groups
  listed_behind s l = record {
    devices = s.devices ++ all_devices l;
    has_list = s.has_list || some_of (applies d hostname groups) l;
    wildcard = s.wildcard || some_of is_wildcard l;
  }

  listed_cons :
      (s : Listed d hostname groups) (e : d.Element) (l : List d.Element)
      → listed_behind (note_list d hostname groups s e) l ≡ listed_behind s (e ∷ l)
  unfolding note_list
  listed_cons s e l =
      ground (arith, append_assoc s.devices (d.iter e (codes "device")) (all_devices l))

  note_list_all :
      (l : List d.Element) (s : Listed d hostname groups)
      → foldl (note_list d hostname groups) s l ≡ listed_behind s l
  note_list_all [] s = ground (arith, append-nil s.devices)
  note_list_all (e ∷ l) s = note_list_all l (note_list d hostname groups s e) ∙ listed_cons s e l

  -- A list that counts for the host and names the device.
  abbrev pub Names : d.Element → List d.Element → Type 0
  Names x l =
      (e : d.Element) × In e l
      × (applies d hostname groups e ≡ true)
      × In x (d.iter e (codes "device"))

  Names-later : (x e : d.Element) (l : List d.Element) → Names x l → Names x (e ∷ l)
  Names-later x e l (y, i, t, j) = (y, there i, t, j)

  Names-cons :
      (x e : d.Element) (l : List d.Element) (b : Bool)
      → applies d hostname groups e ≡ b
      → (In x (all_devices l) → Names x l)
      → In x (if b then d.iter e (codes "device") ++ all_devices l else all_devices l)
      → Names x (e ∷ l)
  Names-cons x e l true t ih h = elim (In-append x (d.iter e (codes "device")) (all_devices l) h) [
    | inl i ↦ (e, here refl, t, i)
    | inr j ↦ Names-later x e l (ih j)
  ]
  Names-cons x e l false t ih h = Names-later x e l (ih h)

  In-all_devices : (x : d.Element) (l : List d.Element) → In x (all_devices l) → Names x l
  In-all_devices x [] h = elim h [ ]
  In-all_devices x (e ∷ l) h =
      Names-cons x e l (applies d hostname groups e) refl (In-all_devices x l) h

  all_devices-first :
      (x e y : d.Element) (l : List d.Element)
      → e ≡ y
      → applies d hostname groups e ≡ true
      → In x (d.iter e (codes "device"))
      → In x (all_devices (y ∷ l))
  all_devices-first x e y l q t h =
      subst (λ z. In x (all_devices (z ∷ l))) q
        (rw t (In-append_left x (d.iter e (codes "device")) (all_devices l) h))

  all_devices-later :
      (x y : d.Element) (l : List d.Element) → In x (all_devices l) → In x (all_devices (y ∷ l))
  all_devices-later x y l h =
      elim (applies d hostname groups y)
        as (λ b. In x (if b then d.iter y (codes "device") ++ all_devices l else all_devices l)) [
          | true ↦ In-append_right x (d.iter y (codes "device")) (all_devices l) h
          | false ↦ h
        ]

  all_devices-In :
      (x e : d.Element) (l : List d.Element)
      → In e l
      → applies d hostname groups e ≡ true
      → In x (d.iter e (codes "device"))
      → In x (all_devices l)
  all_devices-In x e [] i t h = elim i [ ]
  all_devices-In x e (y ∷ l) (here q) t h = all_devices-first x e y l q t h
  all_devices-In x e (y ∷ l) (there i) t h = all_devices-later x y l (all_devices-In x e l i t h)

  usb_list-all :
      (root : d.Element) (name : Text)
      → usb_list d hostname groups root name
        ≡ reset d hostname groups
            (listed_behind (nothing_listed d hostname groups) (d.findall root name))
  unfolding usb_list
  usb_list-all root name = ap (reset d hostname groups) (note_list_all (d.findall root name) _)

  unless_In :
      (x : d.Element) (b : Bool) (k : List d.Element)
      → In x (if b then [] else k) ↔ ((b ≡ false) × In x k)
  unless_In x true k = (λ h. elim h [ ], λ h. cc)
  unless_In x false k = (λ h. (refl, h), λ h. h.1)

  all_devices_iff : (x : d.Element) (l : List d.Element) → In x (all_devices l) ↔ Names x l
  all_devices_iff x l =
      (In-all_devices x l, λ h. let (e, i, t, j) = h in all_devices-In x e l i t j)

  -- The host has a list exactly when one of the file's lists applies to it.
  usb_list_has :
      (root : d.Element) (name : Text)
      → (usb_list d hostname groups root name).has_list
        ≡ some_of (applies d hostname groups) (d.findall root name)
  unfolding reset
  usb_list_has root name = ap (λ z. z.has_list) (usb_list-all root name)

  -- A device is listed exactly when a list of the file that applies to the host names it, and no list
  -- that applies is without devices.
  pub usb_list-Names :
      (root : d.Element) (name : Text) (x : d.Element)
      → In x (usb_list d hostname groups root name).devices
        ↔ ((some_of is_wildcard (d.findall root name) ≡ false) × Names x (d.findall root name))
  unfolding reset
  usb_list-Names root name x =
      let l = d.findall root name in
      rw (usb_list-all root name) (
        λ h.
            let (none_wild, i) = (unless_In x (some_of is_wildcard l) (all_devices l)).0 h in
            (none_wild, (all_devices_iff x l).0 i),
        λ h.
            (unless_In x (some_of is_wildcard l) (all_devices l)).1
              (h.0, (all_devices_iff x l).1 h.1),
      )

-- ===== src/Addresses/OfHost.antt =====
-- Python/30_networking.py: the addresses and devices of the host.
use umbrella_linux.Base.{
  ℕ, ◌≡◌, refl, ◌↔◌, Text, text_eq, some, ok, In, >>=-eq-ok, ok-injective, subst, ap,
}
use umbrella_linux.Base.Dict.{lookup}
use umbrella_linux.Text.{codes}
use umbrella_linux.Interfaces.{iftypes}
use umbrella_linux.Xml.{Dom}
use umbrella_linux.Addresses.{HostIfs, note_address, interface_text, note_host_if, read_host_ifs}
use umbrella_linux.Addresses.Texts.{HasText, HasAddress, Gives-HasAddress, interface_text_iff}
use umbrella_linux.Addresses.Read.{
  Gives, Gives-unique, Round, note_address-Round, note_text-Round, noted_iff,
}

module _ (d : Dom) (entry : d.Element) where
  host_ifs-Round :
      (s s' : HostIfs) (i : Text)
      → note_host_if d entry s i ≡ ok s'
      → Round (Gives (interface_text d entry i (codes "ip"))) i s.ifs s'.ifs
  unfolding note_host_if
  host_ifs-Round s s' i h =
      let (ifs, is, rest) =
        >>=-eq-ok (note_address i (interface_text d entry i (codes "ip")) s.ifs) _ h in
      subst (λ z. Round (Gives (interface_text d entry i (codes "ip"))) i s.ifs z)
        (ap (λ z. z.ifs) (ok-injective _ s' rest)) (note_address-Round i _ s.ifs ifs is)

  host_ifdevs-Round :
      (s s' : HostIfs) (i : Text)
      → note_host_if d entry s i ≡ ok s'
      → Round (λ x. interface_text d entry i (codes "dev") ≡ some x) i s.ifdevs s'.ifdevs
  unfolding note_host_if
  host_ifdevs-Round s s' i h =
      let (ifs, is, rest) =
        >>=-eq-ok (note_address i (interface_text d entry i (codes "ip")) s.ifs) _ h in
      subst (λ z. Round (λ x. interface_text d entry i (codes "dev") ≡ some x) i s.ifdevs z)
        (ap (λ z. z.ifdevs) (ok-injective _ s' rest)) (note_text-Round i _ s.ifdevs)

  some_unique :
      (t v w : Text)
      → interface_text d entry t (codes "dev") ≡ some v
      → interface_text d entry t (codes "dev") ≡ some w
      → v ≡ w
  some_unique t v w h k = cc

-- Where the addresses of a host are read, an interface has an address exactly if it is one of the
-- interface types and the host's entry has an element for it, this has an ip with a text that is not
-- blank, and the address is the one that this text stands for without the blanks around it; the
-- devices likewise are the dev texts that are not blank, without the blanks around them.
pub read_host_ifs_iff :
    (d : Dom) (entry : d.Element) (r : HostIfs)
    → read_host_ifs d entry ≡ ok r
    → (t : Text)
    → ((v : ℕ) → (lookup t r.ifs ≡ some v) ↔ (In t iftypes × HasAddress d entry t v))
      × ((x : Text)
          → (lookup t r.ifdevs ≡ some x) ↔ (In t iftypes × HasText d entry t (codes "dev") x))
unfolding read_host_ifs
read_host_ifs_iff d entry r h t = (
  (λ v.
      let noted =
        noted_iff (note_host_if d entry) (λ s. s.ifs)
          (λ i v. Gives (interface_text d entry i (codes "ip")) v) (host_ifs-Round d entry)
          (λ i v w p q. Gives-unique (interface_text d entry i (codes "ip")) v w p q) iftypes _ r
          refl h t v in
      let texts = Gives-HasAddress d entry t v in
      (λ at. (let (i, g) = noted.0 at in (i, texts.0 g)), λ (i, has). noted.1 (i, texts.1 has))),
  (λ x.
      let noted =
        noted_iff (note_host_if d entry) (λ s. s.ifdevs)
          (λ i x. interface_text d entry i (codes "dev") ≡ some x) (host_ifdevs-Round d entry)
          (some_unique d entry) iftypes _ r refl h t x in
      let texts = interface_text_iff d entry t (codes "dev") x in
      (λ at. (let (i, g) = noted.0 at in (i, texts.0 g)), λ (i, has). noted.1 (i, texts.1 has))),
)

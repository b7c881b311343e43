-- ===== src/Firewall/Robots.antt =====
-- The numbers of the robot servers.
use umbrella_linux.Base.{
  ℕ, ◌+◌, ◌<◌, ◌≤◌, ◌≡◌, refl, Bool, true, false, List, [], ◌∷◌, ◌++◌, Option, none, some, Text,
  arith, ◌==◌, nat_eq, text_eq, if◌then◌else◌, ok, type_error, or_raise, fold_result, >>=-eq-ok,
  ok-injective, length, replicate, get_elem?, length-replicate, subst,
}
use umbrella_linux.Base.Dict.{Dict, insert, lookup, lookup-insert}
use umbrella_linux.Text.{codes}
use umbrella_linux.Net.{ip_address}
use umbrella_linux.Xml.{Dom, strip_text, find_text}
use umbrella_linux.Firewall.{
  Numbering, no_robots, flows, register, note_flows, noteaddr, ml_suffixes, note_suffixes,
  robot_servers, note_names, note_robot, read_robots_of, read_robots,
}
use umbrella_linux.Firewall.Places.{
  Counted, insert-Counted, place_all-lookup, place_all-filled, lookup-Counted,
}

abbrev Below : Option ℕ → ℕ → Type 0
Below none num = Unit
Below (some n) num = n < num

Below-later : (o : Option ℕ) (m n : ℕ) → m ≤ n → Below o m → Below o n
Below-later none m n h b = tt
Below-later (some i) m n h b = omega arith

-- The numbers given are 0, 1, 2, ... in order, and the name has numbers that were given.
record IsNumbered (name : Text) (s : Numbering) : Type 0 where
  counted : Counted 0 s.address_numbering
  count : s.num ≡ length s.address_numbering
  out : Below (lookup name s.robot_out_addrs) s.num
  inc : Below (lookup name s.robot_inc_addrs) s.num

module _ (name : Text) where
  registered-IsNumbered :
      (addr : ℕ) (s : Numbering) (o : Option ℕ)
      → lookup addr s.address_numbering ≡ o
      → IsNumbered name s
      → IsNumbered name (register addr s).1 × ((register addr s).0 < (register addr s).1.num)
  unfolding register
  registered-IsNumbered addr s (some rnum) found h =
      let below = lookup-Counted s.address_numbering 0 addr rnum h.counted found in
      rw (found, register) (h, omega (arith, h.count))
  registered-IsNumbered addr s none new h =
      let (counted, longer) =
        insert-Counted 0 addr s.num s.address_numbering (omega (arith, h.count)) h.counted new in
      rw (new, register)
        (
          record {
            counted = counted;
            count = omega (arith, h.count);
            out = Below-later (lookup name s.robot_out_addrs) s.num (s.num + 1) (omega arith) h.out;
            inc = Below-later (lookup name s.robot_inc_addrs) s.num (s.num + 1) (omega arith) h.inc;
          },
          omega arith,
        )

  insert-Below :
      (b : Bool) (x : Text) (rnum num : ℕ) (d : Dict Text ℕ)
      → rnum < num
      → Below (lookup name d) num
      → Below (lookup name (if b then insert x rnum d else d)) num
  insert-Below false x rnum num d lt h = h
  insert-Below true x rnum num d lt h =
      rw (lookup-insert name x rnum d)
        (elim (name == x) as (λ b. Below (if b then some rnum else lookup name d) num) [
          | true ↦ lt
          | false ↦ h
        ])

  note_flows-IsNumbered :
      (x : Text) (flow : Option Text) (rnum : ℕ) (s : Numbering)
      → rnum < s.num
      → IsNumbered name s
      → IsNumbered name (note_flows x flow rnum s)
  unfolding note_flows
  note_flows-IsNumbered x flow rnum s lt h = record {
    counted = h.counted;
    count = h.count;
    out = insert-Below (flows (codes "sendonly") flow) x rnum s.num s.robot_out_addrs lt h.out;
    inc = insert-Below (flows (codes "recvonly") flow) x rnum s.num s.robot_inc_addrs lt h.inc;
  }

  noteaddr-IsNumbered :
      (x : Text) (addr : ℕ) (flow : Option Text) (s : Numbering)
      → IsNumbered name s
      → IsNumbered name (noteaddr x addr flow s)
  unfolding noteaddr
  noteaddr-IsNumbered x addr flow s h =
      let (h', lt) = registered-IsNumbered addr s (lookup addr s.address_numbering) refl h in
      note_flows-IsNumbered x flow (register addr s).0 (register addr s).1 lt h'

  note_suffixes-IsNumbered :
      (list_name : Text) (addr : ℕ) (flow : Option Text) (l : List Text) (s : Numbering)
      → IsNumbered name s
      → IsNumbered name (note_suffixes list_name addr flow l s)
  unfolding note_suffixes
  note_suffixes-IsNumbered list_name addr flow [] s h = h
  note_suffixes-IsNumbered list_name addr flow (x ∷ l) s h =
      note_suffixes-IsNumbered list_name addr flow l _
        (noteaddr-IsNumbered (list_name ++ codes "-" ++ x) addr flow s h)

module _ (d : Dom) (name : Text) where
  note_names-IsNumbered :
      (o : Option d.Element) (robot : d.Element) (addr : ℕ) (flow : Option Text) (s s' : Numbering)
      → note_names d o robot addr flow s ≡ ok s'
      → IsNumbered name s
      → IsNumbered name s'
  unfolding note_names
  note_names-IsNumbered none robot addr flow s s' run h =
      let (t, e1, h1) = >>=-eq-ok (find_text d robot (codes "name")) _ run in
      let (x, e2, h2) = >>=-eq-ok (strip_text t) _ h1 in
      subst (IsNumbered name) (ok-injective _ s' h2) (noteaddr-IsNumbered name x addr flow s h)
  note_names-IsNumbered (some e) robot addr flow s s' run h =
      let (x, e1, h1) = >>=-eq-ok (or_raise type_error (d.text e)) _ run in
      subst (IsNumbered name) (ok-injective _ s' h1) (
        note_suffixes-IsNumbered name x addr flow ml_suffixes _
          (noteaddr-IsNumbered name x addr flow s h))

  note_robot-IsNumbered :
      (s s' : Numbering) (robot : d.Element)
      → note_robot d s robot ≡ ok s'
      → IsNumbered name s
      → IsNumbered name s'
  unfolding note_robot
  note_robot-IsNumbered s s' robot run h =
      let (t, e1, h1) = >>=-eq-ok (find_text d robot (codes "ip")) _ run in
      let (x, e2, h2) = >>=-eq-ok (strip_text t) _ h1 in
      let (addr, e3, h3) = >>=-eq-ok (ip_address x) _ h2 in
      note_names-IsNumbered _ robot addr _ s s' h3 h

  all-IsNumbered :
      (l : List d.Element) (s s' : Numbering)
      → fold_result (note_robot d) s l ≡ ok s'
      → IsNumbered name s
      → IsNumbered name s'
  all-IsNumbered [] s s' run h = subst (IsNumbered name) (ok-injective s s' run) h
  all-IsNumbered (robot ∷ l) s s' run h =
      let (t, first, rest) = >>=-eq-ok (note_robot d s robot) _ run in
      all-IsNumbered l t s' rest (note_robot-IsNumbered s t robot first h)

  none-IsNumbered : IsNumbered name no_robots
  unfolding lookup
  none-IsNumbered = record { counted = tt; count = refl; out = tt; inc = tt }

  read-IsNumbered :
      (root : d.Element) (o : Option d.Element) (s : Numbering)
      → read_robots_of d o ≡ ok s
      → IsNumbered name s
  unfolding read_robots_of
  read-IsNumbered root none s run =
      subst (IsNumbered name) (ok-injective no_robots s run) none-IsNumbered
  read-IsNumbered root (some e) s run =
      all-IsNumbered (d.findall e (codes "robot")) no_robots s run none-IsNumbered

fits :
    (s : Numbering)
    → 0 + length s.address_numbering
      ≤ length (replicate {A = Option ℕ} (length s.address_numbering) none)
fits s = omega (arith, length-replicate {A = Option ℕ} (length s.address_numbering) none)

-- The server that a name's number stands for.
abbrev pub HasServer : Numbering → Option ℕ → Type 0
HasServer s none = Unit
HasServer s (some n) = (addr : ℕ) × (get_elem? (robot_servers s) n ≡ some (some addr))

Below-HasServer :
    (s : Numbering) (o : Option ℕ)
    → Counted 0 s.address_numbering
    → s.num ≡ length s.address_numbering
    → Below o s.num
    → HasServer s o
unfolding robot_servers
Below-HasServer s none counted count below = tt
Below-HasServer s (some n) counted count below =
    place_all-filled s.address_numbering 0 n _ counted (fits s) (omega arith) (omega arith)

-- Once the robots are read, the number of a robot's address is its place in the list of robot
-- servers, and the numbers that a name has for its outgoing and its incoming mail are places of
-- that list that hold a server.
pub read_robots-HasServer :
    (d : Dom) (root : d.Element) (s : Numbering) (name : Text) (addr n : ℕ)
    → read_robots d root ≡ ok s
    → lookup addr s.address_numbering ≡ some n
    → (get_elem? (robot_servers s) n ≡ some (some addr))
      × HasServer s (lookup name s.robot_out_addrs)
      × HasServer s (lookup name s.robot_inc_addrs)
unfolding read_robots robot_servers
read_robots-HasServer d root s name addr n run found =
    let h = read-IsNumbered d name root (d.find root (codes "mail_in_DMZ")) s run in
    (
      place_all-lookup s.address_numbering 0 addr n _ h.counted (fits s) found,
      Below-HasServer s (lookup name s.robot_out_addrs) h.counted h.count h.out,
      Below-HasServer s (lookup name s.robot_inc_addrs) h.counted h.count h.inc,
    )

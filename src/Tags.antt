-- ===== src/Tags.antt =====
-- `accumulate_tags` of Python/30_networking.py, and what the script takes from it for a workstation.
pub mod Walk
pub mod Hosts
use umbrella_linux.Base.{
  ℕ, zero, suc, Bool, true, false, List, [], ◌∷◌, ◌++◌, Option, none, some, Text, Result, ok, err,
  attribute_error, index_error, recursion_error, ◌>>=◌,
}
use umbrella_linux.Text.{codes}
use umbrella_linux.Net.{Network, has_address}
use umbrella_linux.Xml.{Dom, child_text}
use umbrella_linux.Organization.{subunits, unit_network}

-- The pair that `accumulate_tags` returns: the tags, innermost first, and whether a unit matched.
abbrev pub Tags : Type 0
Tags = List Text × Bool

-- `ip in network` where `network` may be missing; `None in network` asks `None` for its version.
unfoldable pub matches : Option ℕ → Option Network → Result Bool
matches ip none = ok false
matches none (some n) = err attribute_error
matches (some a) (some n) = ok (has_address n a)

-- The tag of the unit itself, behind those of the units below it.
abbrev pub own_tag : Option Text → List Text
own_tag none = []
own_tag (some val) = val ∷ []

module _ (d : Dom) (ip : Option ℕ) (name : Text) where
  -- The loop over the units below: the first that matches ends it.
  first_match : (d.Element → Result Tags) → Option Text → List d.Element → Result Tags
  first_match walk val [] = ok ([], false)
  first_match walk val (s ∷ units) = walk s >>= λ (vals, matched).
      let rest = first_match walk val units in
      elim matched [ true ↦ ok (vals ++ own_tag val, true) | false ↦ rest ]

  -- `accumulate_tags(element, ip, name)`; the fuel is the interpreter's recursion limit.
  unfoldable pub accumulate_tags : ℕ → d.Element → Result Tags
  unfolding first_match
  accumulate_tags zero e = err recursion_error
  accumulate_tags (suc limit) e = do
    network ← unit_network d e
    here ← matches ip network
    let below = first_match (accumulate_tags limit) (child_text d e name) (subunits d e)
    elim here [ true ↦ ok (own_tag (child_text d e name), true) | false ↦ below ]

-- `t[0][0]` of a pair that matched.
unfoldable pub innermost : List Text → Result Text
innermost [] = err index_error
innermost (val ∷ vals) = ok val

-- What the script keeps of the network and the gateway: the pair itself if nothing matched.
pub data Found : Type 0 where
  unmatched : Found
  matched : Text → Found

pub record Workstation : Type 0 where
  pub organization_host : Bool
  pub network : Found
  pub gateway : Found
  pub users_group : Option Text
  pub admin_group : List Text

keep_pair : Tags → Result Found
keep_pair (vals, false) = ok unmatched
keep_pair (vals, true) = do val ← innermost vals; ok (matched val)

or_none : Tags → Result (Option Text)
or_none (vals, false) = ok none
or_none (vals, true) = do val ← innermost vals; ok (some val)

or_empty : Tags → List Text
or_empty (vals, false) = []
or_empty (vals, true) = vals

-- The network parameters of a host that has no entry in umbrella.xml.
unfoldable pub read_workstation : (d : Dom) → Option ℕ → ℕ → d.Element → Result Workstation
unfolding keep_pair or_none or_empty
read_workstation d ip limit root = do
  net_tags ← accumulate_tags d ip (codes "network") limit root
  network ← keep_pair net_tags
  gateway_tags ← accumulate_tags d ip (codes "gateway") limit root
  gateway ← keep_pair gateway_tags
  users_tags ← accumulate_tags d ip (codes "users_group") limit root
  users_group ← or_none users_tags
  admin_tags ← accumulate_tags d ip (codes "admin_group") limit root
  ok (record {
    organization_host = net_tags.1;
    network = network;
    gateway = gateway;
    users_group = users_group;
    admin_group = or_empty admin_tags;
  })

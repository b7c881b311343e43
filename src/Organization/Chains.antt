-- ===== src/Organization/Chains.antt =====
-- Chains of units, from one unit down to one below it.
use umbrella_linux.Base.{List, [], ◌∷◌, In}
use umbrella_linux.Xml.{Dom}
use umbrella_linux.Organization.{subunits}

module _ (d : Dom) where
  -- `Chain e l u`: the units of `l` lead from `e` down to `u`, both included.
  pub data Chain : d.Element → List d.Element → d.Element → Type 0 where
    stop : (e : d.Element) → Chain e (e ∷ []) e
    down :
        {e s u : d.Element} {l : List d.Element}
        → In s (subunits d e)
        → Chain s l u
        → Chain e (e ∷ l) u

-- ===== src/MainZone/Lines.antt =====
-- What the lines are that each part of the zone of the main domain consists of.
use umbrella_linux.Base.{
  ℕ, ◌≡◌, refl, subst, Bool, true, false, not, ◌&&◌, ◌||◌, ◌⊎◌, inl, inr, List, ◌∷◌, ◌++◌, Option,
  none, some, Text, ok, ◌==◌, text_eq, option_eq, key_error, or_raise, or_raise-some, after_bind,
  after_known, ok-injective, All, All-append, In, here, map_result,
}
use mathlib.Core.List.{flatten}
use umbrella_linux.Base.Dict.{lookup, keys}
use umbrella_linux.Text.{codes}
use umbrella_linux.FuncHosts.{host_of, has_host}
use umbrella_linux.BaseParams.{realm_name}
use umbrella_linux.ReverseZones.{Setting, sorted_functions}
use umbrella_linux.MainZone.{
  Extras, Line, server, origin, address, mailer, remark, alias, service, config_lines, lines_if,
  function_lines, server_lines, mail_lines, main_lines,
}

-- The name that a line refers to.
abbrev pub target_of : Line → Option Text
target_of (server name) = some name
target_of (origin _) = none
target_of (address _ _) = none
target_of (mailer name) = some name
target_of (remark _ _) = none
target_of (alias _ name) = some name
target_of (service _ _ name) = some name

-- A line that refers to nothing or to this name.
abbrev pub Aims : Text → Line → Type 0
Aims short line = (target_of line ≡ none) ⊎ (target_of line ≡ some short)

module _ (short : Text) where
  lines_if-Aims : (b : Bool) (l : List Line) → All (Aims short) l → All (Aims short) (lines_if b l)
  lines_if-Aims true l h = h
  lines_if-Aims false l h = tt

  config_lines-Aims : (realm : Text) → All (Aims short) (config_lines realm short)
  unfolding config_lines
  config_lines-Aims realm = (
    inr refl,
    (
      inr refl,
      (
        inr refl,
        (
          inr refl,
          (
            inr refl,
            (
              inr refl,
              (
                inr refl,
                (inl refl, (inr refl, (inr refl, (inr refl, (inr refl, (inr refl, tt)))))),
              ),
            ),
          ),
        ),
      ),
    ),
  )

  function_lines-Aims :
      (s : Setting) (x : Extras) (host : Option Text)
      → All (Aims short) (function_lines s x host short)
  unfolding function_lines
  function_lines-Aims s x host =
      All-append (Aims short) (lines_if (host == some (codes "router")) _) _
        (lines_if-Aims (host == some (codes "router")) _ (inr refl, tt))
        (All-append (Aims short) (lines_if (host == some (codes "config")) _) _
          (lines_if-Aims (host == some (codes "config")) _
            (config_lines-Aims (realm_name s.domain_name)))
          (All-append (Aims short)
            (lines_if (host == some (codes "ltsp") && x.forward_ssh_to_ltsp) _) _
            (lines_if-Aims (host == some (codes "ltsp") && x.forward_ssh_to_ltsp) _ (inr refl, tt))
            (All-append (Aims short) (lines_if (host == some (codes "proxy")) _) _
              (lines_if-Aims (host == some (codes "proxy")) _
                (inr refl, (inr refl, (inr refl, tt))))
              (All-append (Aims short)
                (lines_if
                  ((host == some (codes "proxy") && not (has_host (codes "DMZxmpp") s.hosts))
                    || host == some (codes "DMZxmpp"))
                  _)
                _
                (lines_if-Aims
                  ((host == some (codes "proxy") && not (has_host (codes "DMZxmpp") s.hosts))
                    || host == some (codes "DMZxmpp"))
                  _ (inr refl, tt))
                (lines_if-Aims (host == some (codes "DMZxmpp")) _ (inr refl, (inr refl, tt)))))))

-- What the lines of a server are.
pub record IsServer (s : Setting) (host : Option Text) (part : List Line) : Type 0 where
  pub short : Text
  pub at : ℕ
  pub named : lookup host s.hosts.funchostsshort ≡ some short
  pub placed : lookup host s.funcifs ≡ some at
  pub listed : In (address short at) part
  pub aims : All (Aims short) part

pub server_lines-IsServer :
    (s : Setting) (x : Extras) (host : Option Text) (part : List Line)
    → server_lines s x host ≡ ok part
    → IsServer s host part
unfolding server_lines
server_lines-IsServer s x host part h =
    after_known (or_raise key_error (lookup host s.hosts.funchostsshort)) _ part
      (λ short named h1.
        after_known (or_raise key_error (lookup host s.funcifs)) _ part
          (λ a placed last. subst (IsServer s host) (ok-injective _ part last) (record {
            short = short;
            at = a;
            named = or_raise-some key_error _ short named;
            placed = or_raise-some key_error _ a placed;
            listed = here refl;
            aims = (inl refl, function_lines-Aims short s x host);
          }))
          h1)
      h

-- What the lines of the zone are.
pub record IsMade (s : Setting) (x : Extras) (lines : List Line) : Type 0 where
  pub router : Text
  pub mail : List Line
  pub functions : List (Option Text)
  pub servers : List (List Line)
  pub named : lookup (some (codes "router")) s.hosts.funchostsshort ≡ some router
  pub mail_made : mail_lines s x ≡ ok mail
  pub sorted : sorted_functions (keys s.hosts.funchosts) ≡ ok functions
  pub each : map_result (server_lines s x) functions ≡ ok servers
  pub all : server router ∷ origin x.ip_address ∷ (mail ++ flatten servers) ≡ lines

pub main_lines-IsMade :
    (s : Setting) (x : Extras) (lines : List Line) → main_lines s x ≡ ok lines → IsMade s x lines
unfolding main_lines
main_lines-IsMade s x lines h =
    after_bind (host_of (codes "router") s.hosts) _ lines
      (λ _.
        after_known (or_raise key_error (lookup (some (codes "router")) s.hosts.funchostsshort)) _
          lines
          (λ short named. after_known (mail_lines s x) _ lines (λ mail made.
            after_known (sorted_functions (keys s.hosts.funchosts)) _ lines (λ functions sorted.
              after_known (map_result (server_lines s x) functions) _ lines (λ servers each last.
                record {
                  router = short;
                  mail = mail;
                  functions = functions;
                  servers = servers;
                  named = or_raise-some key_error _ short named;
                  mail_made = made;
                  sorted = sorted;
                  each = each;
                  all = ok-injective _ lines last;
                })))))
      h

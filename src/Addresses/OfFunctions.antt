-- ===== src/Addresses/OfFunctions.antt =====
-- Python/30_networking.py: the main addresses of the servers by their function.
use umbrella_linux.Base.{
  ℕ, ◌≡◌, ◌⊎◌, inl, inr, Text, text_eq, option_eq, Option, some, ok, fold_source, fold_reaches,
  fold_visits, In, after_bind, after_known, ok-injective, subst, sym, ap, ◌∙◌, arith, ==_iff, ◌↔◌,
  Bool-cases, List, [], ◌∷◌, true, refl, ◌==◌,
}
use umbrella_linux.Base.Dict.{lookup, insert, lookup-insert, lookup-nil}
use umbrella_linux.Text.{codes}
use umbrella_linux.Xml.{Dom, find_text}
use umbrella_linux.Addresses.{
  FunctionIfs, is_public, interface_text, main_value, read_server_ifs, note_function,
  read_functions,
}
use umbrella_linux.Addresses.Texts.{HasText, HasAddress, Gives-HasAddress, interface_text-none}
use umbrella_linux.Interfaces.{iftypes, pubif}
use umbrella_linux.Addresses.First.{FirstGives, IsServerAddress, main_value-IsServerAddress}

-- A router, a vmhost or a backdoor.
abbrev pub IsPublic : Option Text → Type 0
IsPublic f =
    (f ≡ some (codes "router")) ⊎ (f ≡ some (codes "vmhost")) ⊎ (f ≡ some (codes "backdoor"))

is_public_iff : (f : Option Text) → (is_public f ≡ true) ↔ IsPublic f
unfolding is_public
is_public_iff f =
    let r = ==_iff f (some (codes "router")) in
    let v = ==_iff f (some (codes "vmhost")) in
    let b = ==_iff f (some (codes "backdoor")) in
    (
      λ h. elim (Bool-cases (f == some (codes "router"))) [
        | inl is ↦ inl (r.0 is)
        | inr no_router ↦ elim (Bool-cases (f == some (codes "vmhost"))) [
          | inl is ↦ inr (inl (v.0 is))
          | inr no_vmhost ↦ inr (inr (b.0 (rw no_vmhost at (rw no_router at h))))
        ]
      ],
      λ h. elim h [
        | inl e ↦ rw (r.1 e) refl
        | inr (inl e) ↦ ground (arith, v.1 e)
        | inr (inr e) ↦ ground (arith, b.1 e)
      ],
    )

module _ (d : Dom) where
  -- The address of the first of the interfaces that has one, where those before it have no text.
  abbrev pub FirstHas : d.Element → List Text → ℕ → Type 0
  FirstHas server [] a = ⊥
  FirstHas server (t ∷ l) a =
      HasAddress d server t a
      ⊎ (((x : Text) → ¬ HasText d server t (codes "ip") x) × FirstHas server l a)

  FirstGives→FirstHas :
      (server : d.Element) (l : List Text) (a : ℕ)
      → FirstGives (λ i. interface_text d server i (codes "ip")) l a
      → FirstHas server l a
  FirstGives→FirstHas server [] a h = h
  FirstGives→FirstHas server (t ∷ l) a (inl gives) = inl ((Gives-HasAddress d server t a).0 gives)
  FirstGives→FirstHas server (t ∷ l) a (inr (missing, later)) =
      inr
        (interface_text-none d server t (codes "ip") missing, FirstGives→FirstHas server l a later)

  -- A server with this function and this main address.
  abbrev pub Serves : Option Text → ℕ → d.Element → Type 0
  Serves function a server =
      (find_text d server (codes "function") ≡ ok function)
      × ((IsPublic function × HasAddress d server pubif a)
          ⊎ ((¬ IsPublic function) × FirstHas server iftypes a))

  -- The same by the tests of the code.
  abbrev IsFound : Option Text → ℕ → d.Element → Type 0
  IsFound function a server =
      (find_text d server (codes "function") ≡ ok function)
      × IsServerAddress d server (is_public function) a

  -- What a round does: note the main address of the server.
  Noted : FunctionIfs → d.Element → FunctionIfs → Type 0
  Noted s server s' =
      (function : Option Text) × (a : ℕ) × IsFound function a server
      × (insert function a s.funcifs ≡ s'.funcifs)

  note_function-Noted :
      (s s' : FunctionIfs) (server : d.Element)
      → note_function d s server ≡ ok s'
      → Noted s server s'
  unfolding note_function main_value Noted
  note_function-Noted s s' server h =
      after_bind (find_text d server (codes "name")) _ s'
        (λ _. after_known (find_text d server (codes "function")) _ s' (λ f is.
          after_known (read_server_ifs d server) _ s' (λ own read.
            after_known (main_value f own.srvifs) _ s' (λ ifaddr main.
              after_bind (main_value f own.srvmacs) _ s' (λ ifmac last. (
                f,
                ifaddr,
                (is, main_value-IsServerAddress d server (is_public f) own ifaddr read main),
                ap (λ z. z.funcifs) (ok-injective _ s' last),
              ))))))
        h

  funcifs_source :
      (f : Option Text) (a : ℕ) (s s' : FunctionIfs) (server : d.Element)
      → note_function d s server ≡ ok s'
      → lookup f s'.funcifs ≡ some a
      → (lookup f s.funcifs ≡ some a) ⊎ IsFound f a server
  unfolding Noted
  funcifs_source f a s s' server h at_f =
      let (g, b, serves, new) = note_function-Noted s s' server h in
      elim (option_eq.dec f g) [
        | yes e ↦ inr (
            subst (λ k. IsFound k a server) (sym e)
              (subst (λ v. IsFound g v server)
                (ground (arith, ==_iff f g, lookup-insert f g b s.funcifs)) serves))
        | no e ↦ inl (ground (arith, ==_iff f g, lookup-insert f g b s.funcifs))
      ]

  funcifs_reach :
      (f : Option Text) (s s' : FunctionIfs) (server : d.Element)
      → note_function d s server ≡ ok s'
      → ((b : ℕ) × (lookup f s.funcifs ≡ some b)) ⊎ (find_text d server (codes "function") ≡ ok f)
      → (b : ℕ) × (lookup f s'.funcifs ≡ some b)
  unfolding Noted
  funcifs_reach f s s' server h old =
      let (g, a, serves, new) = note_function-Noted s s' server h in
      elim (option_eq.dec f g) [
        | yes e ↦ (a, ground (arith, ==_iff f g, lookup-insert f g a s.funcifs))
        | no e ↦ elim old [
          | inl (b, at_f) ↦ (b, ground (arith, ==_iff f g, lookup-insert f g a s.funcifs))
          | inr is ↦ absurd (e (ok-injective f g (sym is ∙ serves.0)))
        ]
      ]

  IsFound→Serves :
      (f : Option Text) (a : ℕ) (server : d.Element) → IsFound f a server → Serves f a server
  IsFound→Serves f a server (is, found) = (
    is,
    elim (Bool-cases (is_public f)) [
      | inl public ↦ inl (
        (is_public_iff f).0 public,
        (Gives-HasAddress d server pubif a).0
            (subst (λ b. IsServerAddress d server b a) public found),
      )
      | inr other ↦ inr (
        (λ p. cc (other, (is_public_iff f).1 p)),
        FirstGives→FirstHas server iftypes a
            (subst (λ b. IsServerAddress d server b a) other found),
      )
    ],
  )

  -- Where the addresses of the functions are read, each of them is the main address of a server
  -- with that function, and every server has a function, a main address, and an entry for its
  -- function; the main address is that of the public interface for a router, a vmhost and a
  -- backdoor, and for the others that of the first interface, in the order of the types, that has an
  -- address.
  pub read_functions-Serves :
      (root : d.Element) (s : FunctionIfs)
      → read_functions d root ≡ ok s
      → ((f : Option Text) (a : ℕ)
          → lookup f s.funcifs ≡ some a
          → (server : d.Element) × In server (d.findall root (codes "server")) × Serves f a server)
        × ((server : d.Element)
            → In server (d.findall root (codes "server"))
            → (f : Option Text) × (a : ℕ) × (b : ℕ) × Serves f a server
              × (lookup f s.funcifs ≡ some b))
  unfolding read_functions Noted
  read_functions-Serves root s h = (
    λ f a at_f.
        elim (fold_source (note_function d) (λ z. lookup f z.funcifs ≡ some a) (IsFound f a)
          (funcifs_source f a) (d.findall root (codes "server")) _ s h at_f) [
            | inl old ↦ absurd (cc (lookup-nil f))
            | inr (server, i, found) ↦ (server, i, IsFound→Serves f a server found)
          ],
    λ server i.
        let (t, t', at_server) =
          fold_visits (note_function d) (d.findall root (codes "server")) _ s h server i in
        let (f, a, serves, _) = note_function-Noted t t' server at_server in
        let (b, at_f) =
          fold_reaches (note_function d) (λ z. (b : ℕ) × (lookup f z.funcifs ≡ some b))
            (λ x. find_text d x (codes "function") ≡ ok f) (funcifs_reach f)
            (d.findall root (codes "server")) _ s h (inr (server, i, serves.0)) in
        (f, a, b, IsFound→Serves f a server serves, at_f),
  )

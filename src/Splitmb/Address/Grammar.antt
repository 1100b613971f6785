-- ===== src/Splitmb/Address/Grammar.antt =====
-- The addresses that is_valid_addr_spec accepts, as a grammar.
use trivia.Prelude.{
  ℕ, ◌≡◌, refl, sym, ap, ◌∙◌, ◌↔◌, Bool, true, false, Option, none, some, List, [], ◌∷◌, ◌++◌, ◌==◌,
  arith, append-nil, ◌⊎◌, inl, inr, ap₂, Bool-cases,
}
use mathlib.Core.Path.{subst}
use trivia.Splitmb.Address.{
  is_rfc822_atext, dot_atom, is_dot_atom, is_valid_host, is_valid_addr_spec, after_local, at_top,
}

-- 1*atext
pub data Atom : List ℕ → Type 0 where
  last : {c : ℕ} → is_rfc822_atext c ≡ true → Atom (c ∷ [])
  char : {c : ℕ} {cs : List ℕ} → is_rfc822_atext c ≡ true → Atom cs → Atom (c ∷ cs)

-- 1*atext *("." 1*atext)
pub data DotAtom : List ℕ → Type 0 where
  atom : {a : List ℕ} → Atom a → DotAtom a
  dotted : {a d : List ℕ} → Atom a → DotAtom d → DotAtom (a ++ 46 ∷ d)

-- dot-atom ["@" dot-atom]
pub data AddrSpec : List ℕ → Type 0 where
  plain : {l : List ℕ} → DotAtom l → AddrSpec l
  full : {l h : List ℕ} → DotAtom l → DotAtom h → AddrSpec (l ++ 64 ∷ h)

-- What is left of a dot-atom, behind an atext or where one is due.
data Rest : Bool → List ℕ → Type 0 where
  ends : Rest true []
  more :
      {seen : Bool} {c : ℕ} {cs : List ℕ}
      → is_rfc822_atext c ≡ true
      → Rest true cs
      → Rest seen (c ∷ cs)
  dot : {cs : List ℕ} → Rest false cs → Rest true (46 ∷ cs)

-- is_dot_atom cannot go on here.
data Stops : List ℕ → Type 0 where
  top : Stops []
  other : {c : ℕ} {cs : List ℕ} → is_rfc822_atext c ≡ false → (c == 46) ≡ false → Stops (c ∷ cs)

is_dot_atom-Rest :
    {seen : Bool} {l rest : List ℕ}
    → Rest seen l
    → Stops rest
    → dot_atom seen (l ++ rest) ≡ some rest
unfolding dot_atom is_rfc822_atext
is_dot_atom-Rest ends top = refl
is_dot_atom-Rest ends (other a d) = ground (arith, a, d)
is_dot_atom-Rest (more a r) s = ground (arith, a, is_dot_atom-Rest r s)
is_dot_atom-Rest (dot r) s = is_dot_atom-Rest r s

abbrev Found : Bool → List ℕ → List ℕ → Type 0
Found seen cs rest = (l : List ℕ) × (cs ≡ l ++ rest) × Rest seen l × Stops rest

some_same : {a b : List ℕ} → some a ≡ some b → a ≡ b
some_same e = cc

-- A character, when what follows it is known.
Found-char :
    (c : ℕ) (cs : List ℕ) {rest : List ℕ}
    → ((seen : Bool) → dot_atom seen cs ≡ some rest → Found seen cs rest)
    → (seen : Bool) → dot_atom seen (c ∷ cs) ≡ some rest
    → (is_rfc822_atext c ≡ true) ⊎ (is_rfc822_atext c ≡ false)
    → ((c == 46) ≡ true) ⊎ ((c == 46) ≡ false)
    → Found seen (c ∷ cs) rest
unfolding dot_atom
Found-char c cs further seen e (inl a) d =
    let (l, p, r, s) = further true (rw a at e) in (c ∷ l, ap (λ q. c ∷ q) p, more a r, s)
Found-char c cs further false e (inr n) d = cc
Found-char c cs further true e (inr n) (inl d) =
    let (l, p, r, s) = further false (rw (n, d) at e) in
    (46 ∷ l, ap₂ (λ x q. x ∷ q) (ground (arith, d)) p, dot r, s)
Found-char c cs {rest} further true e (inr n) (inr d) =
    let same : (c ∷ cs) ≡ rest = some_same (rw (n, d) at e) in
    ([], same, ends, subst Stops same (other n d))

found :
    (seen : Bool) (cs : List ℕ) {rest : List ℕ} → dot_atom seen cs ≡ some rest → Found seen cs rest
unfolding dot_atom
found false [] e = cc
found true [] e = ([], some_same e, ends, subst Stops (some_same e) top)
found seen (c ∷ cs) e =
    Found-char c cs (λ seen e'. found seen cs e') seen e (Bool-cases (is_rfc822_atext c))
      (Bool-cases (c == 46))

Atom-Rest : {seen : Bool} {a t : List ℕ} → Atom a → Rest true t → Rest seen (a ++ t)
Atom-Rest (last h) r = more h r
Atom-Rest (char h a) r = more h (Atom-Rest a r)

DotAtom-Rest : {d : List ℕ} → DotAtom d → Rest false d
DotAtom-Rest (atom {a} h) = subst (Rest false) (append-nil a) (Atom-Rest h ends)
DotAtom-Rest (dotted h d) = Atom-Rest h (dot (DotAtom-Rest d))

prepend : {c : ℕ} {d : List ℕ} → is_rfc822_atext c ≡ true → DotAtom d → DotAtom (c ∷ d)
prepend h (atom a) = atom (char h a)
prepend h (dotted a d) = dotted (char h a) d

mutual
  Rest-DotAtom : {d : List ℕ} → Rest false d → DotAtom d
  Rest-DotAtom (more h r) = behind-DotAtom h r

  behind-DotAtom : {c : ℕ} {t : List ℕ} → is_rfc822_atext c ≡ true → Rest true t → DotAtom (c ∷ t)
  behind-DotAtom h ends = atom (last h)
  behind-DotAtom h (more h' r) = prepend h (behind-DotAtom h' r)
  behind-DotAtom h (dot r) = dotted (last h) (Rest-DotAtom r)

is_dot_atom-DotAtom :
    {l rest : List ℕ} → DotAtom l → Stops rest → is_dot_atom (l ++ rest) ≡ some rest
is_dot_atom-DotAtom d s = is_dot_atom-Rest (DotAtom-Rest d) s

host-DotAtom : (h : List ℕ) → is_valid_host h ≡ true → DotAtom h
host-DotAtom h e = parsed (is_dot_atom h) refl e
  where
    parsed : (o : Option (List ℕ)) → is_dot_atom h ≡ o → at_top o ≡ true → DotAtom h
    parsed none e t = cc
    parsed (some (c ∷ cs)) e t = cc
    parsed (some []) e t =
        let (l, p, r, s) = found false h e in
        subst DotAtom (sym (p ∙ append-nil l)) (Rest-DotAtom r)

DotAtom-host : {h : List ℕ} → DotAtom h → is_valid_host h ≡ true
DotAtom-host {h} d = ap at_top (ap is_dot_atom (sym (append-nil h)) ∙ is_dot_atom-DotAtom d top)

spec-AddrSpec : (addr : List ℕ) → is_valid_addr_spec addr ≡ true → AddrSpec addr
spec-AddrSpec addr e = parsed (is_dot_atom addr) refl e
  where
    parsed : (o : Option (List ℕ)) → is_dot_atom addr ≡ o → after_local o ≡ true → AddrSpec addr
    parsed none e t = cc
    parsed (some []) e t =
        let (l, p, r, s) = found false addr e in
        subst AddrSpec (sym (p ∙ append-nil l)) (plain (Rest-DotAtom r))
    parsed (some (c ∷ h)) e t =
        let (l, p, r, s) = found false addr e in
        let sign : c ≡ 64 = ground arith in
        subst AddrSpec (sym (p ∙ ap (λ x. l ++ x ∷ h) sign))
          (full (Rest-DotAtom r) (host-DotAtom h (ground arith)))

AddrSpec-spec : {addr : List ℕ} → AddrSpec addr → is_valid_addr_spec addr ≡ true
unfolding is_rfc822_atext
AddrSpec-spec (plain {l} d) =
    ap after_local (ap is_dot_atom (sym (append-nil l)) ∙ is_dot_atom-DotAtom d top)
AddrSpec-spec (full {l} {h} d d') = ap after_local (is_dot_atom-DotAtom d sign) ∙ DotAtom-host d'
  where
    sign : Stops (64 ∷ h)
    sign = other refl refl

-- is_valid_addr_spec accepts exactly the addresses of the grammar: a dot-atom, or two with an @
-- between them.
pub is_valid_addr_spec-AddrSpec : (addr : List ℕ) → (is_valid_addr_spec addr ≡ true) ↔ AddrSpec addr
is_valid_addr_spec-AddrSpec addr = (spec-AddrSpec addr, AddrSpec-spec)

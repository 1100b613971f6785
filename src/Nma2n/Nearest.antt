-- ===== src/Nma2n/Nearest.antt =====
-- find_symbol finds the nearest symbol at or below the address.
use trivia.Prelude.{
  ℕ, ◌-◌, ◌≤◌, ◌<◌, ◌≡◌, refl, ap, ◌∙◌, ◌⊎◌, inl, inr, Bool, Option, none, some, List, [], ◌∷◌,
  ◌++◌, arith, Option-cases, dec_lt,
}
use mathlib.Core.Path.{subst}
use trivia.Nma2n.{Found, symbol_of, printed, symbol_loop, find_symbol}

module _ (hex : List ℕ → ℕ) (addr : ℕ) where
  abbrev Within : ℕ → Option (ℕ × List ℕ) → Type 0
  Within bound none = Unit
  Within bound (some (caddr, tsym)) = (addr < caddr) ⊎ (caddr ≤ bound)

  -- No symbol of these lines stands above the bound and at or below the address.
  abbrev pub NoneAbove : ℕ → List (List ℕ) → Type 0
  NoneAbove bound [] = Unit
  NoneAbove bound (ln ∷ lns) = Within bound (symbol_of hex ln) × NoneAbove bound lns

  module _ (no_offset : Bool) where
    -- The line that is found, among those before and behind it.
    pub record Nearest (low : ℕ) (lns : List (List ℕ)) (result : ℕ × Option Found) : Type 0 where
      pub before : List (List ℕ)
      pub line : List ℕ
      pub after : List (List ℕ)
      pub caddr : ℕ
      pub tsym : List ℕ
      pub cut : lns ≡ before ++ (line ∷ after)
      pub symbol : symbol_of hex line ≡ some (caddr, tsym)
      pub above : low < caddr
      pub below : caddr ≤ addr
      pub first : NoneAbove (caddr - 1) before
      pub nearest : NoneAbove caddr after
      pub same : result ≡ (caddr, some (printed hex addr no_offset caddr tsym))

    abbrev Outcome : ℕ → Option Found → List (List ℕ) → Type 0
    Outcome saddr csym lns =
        ((symbol_loop hex addr no_offset saddr csym lns ≡ (saddr, csym)) × NoneAbove saddr lns)
        ⊎ Nearest saddr lns (symbol_loop hex addr no_offset saddr csym lns)

    -- A line that changes nothing.
    passed :
        (saddr : ℕ) (csym : Option Found) (ln : List ℕ) (lns : List (List ℕ))
        → symbol_loop hex addr no_offset saddr csym (ln ∷ lns)
          ≡ symbol_loop hex addr no_offset saddr csym lns
        → ((bound : ℕ) → saddr ≤ bound → Within bound (symbol_of hex ln))
        → Outcome saddr csym lns
        → Outcome saddr csym (ln ∷ lns)
    passed saddr csym ln lns e w (inl (e', n)) = inl (e ∙ e', (w saddr (omega arith), n))
    passed saddr csym ln lns e w (inr n) = inr (record {
      before = ln ∷ n.before;
      line = n.line;
      after = n.after;
      caddr = n.caddr;
      tsym = n.tsym;
      cut = ap (λ q. ln ∷ q) n.cut;
      symbol = n.symbol;
      above = n.above;
      below = n.below;
      first = (w (n.caddr - 1) (omega (arith, n.above)), n.first);
      nearest = n.nearest;
      same = e ∙ n.same;
    })

    -- A line whose symbol is taken.
    taken :
        (saddr : ℕ) (csym : Option Found) (ln : List ℕ) (lns : List (List ℕ)) (c : ℕ) (t : List ℕ)
        → symbol_of hex ln ≡ some (c, t)
        → saddr < c
        → c ≤ addr
        → symbol_loop hex addr no_offset saddr csym (ln ∷ lns)
          ≡ symbol_loop hex addr no_offset c (some (printed hex addr no_offset c t)) lns
        → Outcome c (some (printed hex addr no_offset c t)) lns
        → Nearest saddr (ln ∷ lns) (symbol_loop hex addr no_offset saddr csym (ln ∷ lns))
    taken saddr csym ln lns c t s above below e (inl (e', n)) = record {
      before = [];
      line = ln;
      after = lns;
      caddr = c;
      tsym = t;
      cut = refl;
      symbol = s;
      above = above;
      below = below;
      first = tt;
      nearest = n;
      same = e ∙ e';
    }
    taken saddr csym ln lns c t s above below e (inr n) = record {
      before = ln ∷ n.before;
      line = n.line;
      after = n.after;
      caddr = n.caddr;
      tsym = n.tsym;
      cut = ap (λ q. ln ∷ q) n.cut;
      symbol = n.symbol;
      above = omega (arith, above, n.above);
      below = n.below;
      first = (rw s (inr (omega (arith, n.above))), n.first);
      nearest = n.nearest;
      same = e ∙ n.same;
    }

    outcome : (saddr : ℕ) (csym : Option Found) (lns : List (List ℕ)) → Outcome saddr csym lns
    unfolding symbol_loop
    outcome saddr csym [] = inl (refl, tt)
    outcome saddr csym (ln ∷ lns) =
        cases (Option-cases (symbol_of hex ln)) (outcome saddr csym lns)
          (λ c t. outcome c (some (printed hex addr no_offset c t)) lns)
      where
        cases :
            (symbol_of hex ln ≡ none) ⊎ ((p : ℕ × List ℕ) × (symbol_of hex ln ≡ some p))
            → Outcome saddr csym lns
            → ((c : ℕ) (t : List ℕ) → Outcome c (some (printed hex addr no_offset c t)) lns)
            → Outcome saddr csym (ln ∷ lns)
        cases (inl e) o f = passed saddr csym ln lns (ground (arith, e)) (λ b le. rw e tt) o
        cases (inr ((c, t), e)) o f = elim (dec_lt addr c) [
          | yes high ↦ passed saddr csym ln lns (ground (arith, e)) (λ b le. rw e (inl high)) o
          | no within ↦ elim (dec_lt saddr c) [
            | yes above ↦ inr (
                taken saddr csym ln lns c t e above (omega (arith, within)) (ground (arith, e))
                  (f c t))
            | no low ↦
                passed saddr csym ln lns (ground (arith, e))
                  (λ b le. rw e (inr (omega (arith, low)))) o
          ]
        ]

    -- If find_symbol finds nothing, no line has a symbol with an address from 1 up to the given one.
    -- Otherwise it prints the symbol of a line, with the offset to the given address, whose
    -- address is positive and not above the given one; of the other lines none has an address
    -- between them, and none of those before has the same address.
    pub find_symbol-Nearest :
        (lns : List (List ℕ))
        → ((find_symbol hex addr no_offset lns ≡ none) × NoneAbove 0 lns)
          ⊎ ((caddr : ℕ) × (tsym : List ℕ) × Nearest 0 lns
                (caddr, some (printed hex addr no_offset caddr tsym))
              × (find_symbol hex addr no_offset lns ≡ some (printed hex addr no_offset caddr tsym)))
    find_symbol-Nearest lns = elim (outcome 0 none lns) [
      | inl (e, n) ↦ inl (rw e refl, n)
      | inr n ↦
          inr (n.caddr, n.tsym, subst (Nearest 0 lns) n.same n, ground (arith, n.same, n.above))
    ]

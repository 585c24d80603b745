-- ===== src/Rules/Loading.antt =====
-- internal/aclrules/aclrules.go: the rules of a file that LoadFile accepts.
use an_b.Base.{
  ◌⊎◌, map, ◌∙◌, ℕ, suc, not, ◌*◌, Bool, true, false, ◌||◌, List, [], ◌∷◌, Bytes, Option, none,
  some, ◌≡◌, refl, ap, arith, All, Result, ok, err, bind-eq-ok, Bool-cases, inl, inr, split,
  trim_space, beq_refl, All-map, ◌==◌, bytes_eq, leb, length, contents, list_beq,
}
use mathlib.Core.Path.{transport}
use an_b.Rules.{Rule, cli, mcp, is_known_surface, applies_to, contains}
use an_b.Rules.Parse.{
  RuleError, field, parse_line, parse_scope_column, surfaces, loaded, load_file, first_trivial,
  is_trivial_match_everything, parse, admit, refuse, scan_lines, scan_line, with_line, is_skipped,
  drop_return,
}

abbrev Known : Bytes → Type 0
Known s = is_known_surface s ≡ true

surfaces-cons :
    (n : ℕ) (p : Bytes) (parts names : List Bytes)
    → surfaces n (p ∷ parts) ≡ ok names
    → (ns : List Bytes) × (surfaces n parts ≡ ok ns)
      × (names ≡ trim_space p ∷ ns)
      × Known (trim_space p)
unfolding surfaces
surfaces-cons n p parts names h = elim (Bool-cases (trim_space p == [])) [
  | inl e ↦ absurd (ground arith)
  | inr e ↦ elim (Bool-cases (is_known_surface (trim_space p))) [
    | inl k ↦
        let (ns, e1, e2) =
          bind-eq-ok (surfaces n parts) (λ ns. ok (trim_space p ∷ ns)) {answer = names}
            (ground arith) in
        (ns, e1, cc, k)
    | inr k ↦ absurd (ground arith)
  ]
]

surfaces-Known : (n : ℕ) (parts names : List Bytes) → surfaces n parts ≡ ok names → All Known names
surfaces-Known n [] names h = let e : names ≡ [] = unfold surfaces in cc in rw e tt
surfaces-Known n (p ∷ parts) names h =
    let (ns, e1, e2, k) = surfaces-cons n p parts names h in rw e2 (k, surfaces-Known n parts ns e1)

surfaces-named :
    (n : ℕ) (parts names : List Bytes) → surfaces n parts ≡ ok names → names ≡ map trim_space parts
surfaces-named n [] names h = unfold surfaces in cc
surfaces-named n (p ∷ parts) names h =
    let (ns, e1, e2, k) = surfaces-cons n p parts names h in
    e2 ∙ ap (λ t. trim_space p ∷ t) (surfaces-named n parts ns e1)

-- the surfaces that a scope column stands for: those it names, with a comma between two, and `cli`
-- where it is blank
abbrev pub NamedBy : Bytes → List Bytes → Type 0
NamedBy col names =
    ((trim_space col == []) ≡ true) × (names ≡ cli ∷ [])
    ⊎ (((trim_space col == []) ≡ false) × (names ≡ map trim_space (split b',' (trim_space col))))

scope-named :
    (col : Bytes) (n : ℕ) (names : List Bytes)
    → parse_scope_column col n ≡ ok names
    → NamedBy col names
unfolding parse_scope_column
scope-named col n names h = elim (Bool-cases (trim_space col == [])) [
  | inl e ↦ inl (e, ground arith)
  | inr e ↦ inr (e, surfaces-named n (split b',' (trim_space col)) names (ground arith))
]

scope-Known :
    (col : Bytes) (n : ℕ) (names : List Bytes)
    → parse_scope_column col n ≡ ok names
    → All Known names
unfolding parse_scope_column list_beq
scope-Known col n names h = elim (Bool-cases (trim_space col == [])) [
  | inl e ↦ let e' : names ≡ cli ∷ [] = ground arith in rw e' (refl, tt)
  | inr e ↦ surfaces-Known n (split b',' (trim_space col)) names (ground arith)
]

cli_only : contains mcp (cli ∷ []) ≡ false
unfolding contains list_beq
cli_only = refl

module _ (compile : Bytes → Option (Bytes → Bool)) where
  line_scope :
      (line : Bytes) (n : ℕ) (r : Rule)
      → parse_line compile line n ≡ ok r
      → parse_scope_column (field 3 (split b'\t' line)) n ≡ ok r.scope
  unfolding parse_line
  line_scope line n r h = ground arith

  mcp_named :
      (col : Bytes) (r : Rule)
      → NamedBy col r.scope
      → (not (applies_to r mcp) || contains mcp (map trim_space (split b',' (trim_space col))))
        ≡ true
  unfolding applies_to
  mcp_named col r (inl (blank, e)) = rw (e, cli_only) refl
  mcp_named col r (inr (given, e)) = rw e (ground arith)

  -- The rule comes from one of the lines, which parses. Its surfaces are known ones, and just those
  -- that the line's fourth field names. It is for agents only where `mcp` is one of the names.
  abbrev pub Sound : List Bytes → Rule → Type 0
  Sound ls r =
      (p : Bytes) × (n : ℕ) × (contains p ls ≡ true)
      × (parse_line compile (drop_return p) n ≡ ok r)
      × All Known r.scope
      × NamedBy (field 3 (split b'\t' (drop_return p))) r.scope
      × ((not (applies_to r mcp)
            || contains mcp
                (map trim_space (split b',' (trim_space (field 3 (split b'\t' (drop_return p)))))))
          ≡ true)

  line-Sound :
      (p : Bytes) (ls : List Bytes) (n : ℕ) (r : Rule)
      → parse_line compile (drop_return p) n ≡ ok r
      → Sound (p ∷ ls) r
  unfolding contains
  line-Sound p ls n r h =
      let line : Bytes = drop_return p in
      let scope = line_scope line n r h in
      let named = scope-named (field 3 (split b'\t' line)) n r.scope scope in
      (
        p,
        n,
        rw (beq_refl p) refl,
        h,
        scope-Known (field 3 (split b'\t' line)) n r.scope scope,
        named,
        mcp_named (field 3 (split b'\t' line)) r named,
      )

  Sound-later : (q : Bytes) (ls : List Bytes) (r : Rule) → Sound ls r → Sound (q ∷ ls) r
  unfolding contains
  Sound-later q ls r (p, n, there, parsed, known, named, agents) =
      (p, n, ground (arith, there), parsed, known, named, agents)

  with_line-Sound :
      (ls : List Bytes) (m : Result RuleError Rule) (rest : List Rule × List RuleError)
      → ((r : Rule) → m ≡ ok r → Sound ls r)
      → All (Sound ls) rest.0
      → All (Sound ls) (with_line m rest).0
  with_line-Sound ls (ok r) rest h hs = (h r refl, hs)
  with_line-Sound ls (err e) rest h hs = hs

  scan_line-Sound :
      (p : Bytes) (ls : List Bytes) (n : ℕ) (rest : List Rule × List RuleError)
      → All (Sound ls) rest.0
      → All (Sound (p ∷ ls)) (scan_line compile p n rest).0
  unfolding scan_line
  scan_line-Sound p ls n rest hs =
      let h = All-map (Sound ls) (Sound (p ∷ ls)) (Sound-later p ls) rest.0 hs in
      elim (Bool-cases (leb (4 * 1024) (length p))) [
        | inl long ↦ rw long tt
        | inr fits ↦ elim (Bool-cases (is_skipped (drop_return p))) [
          | inl skipped ↦ rw (fits, skipped) h
          | inr rule ↦
              rw (fits, rule)
                (with_line-Sound (p ∷ ls) (parse_line compile (drop_return p) n) rest
                  (line-Sound p ls n) h)
        ]
      ]

  scan-Sound : (pieces : List Bytes) (n : ℕ) → All (Sound pieces) (scan_lines compile pieces n).0
  unfolding scan_lines
  scan-Sound [] n = tt
  scan-Sound ([] ∷ []) n = tt
  scan-Sound ([] ∷ q ∷ pieces) n =
      scan_line-Sound [] (q ∷ pieces) (suc n) _ (scan-Sound (q ∷ pieces) (suc n))
  scan-Sound ((c ∷ p) ∷ pieces) n =
      scan_line-Sound (c ∷ p) pieces (suc n) _ (scan-Sound pieces (suc n))

  nontrivial :
      (rules : List Rule)
      → first_trivial rules ≡ none
      → All (λ r. is_trivial_match_everything r.regex ≡ false) rules
  unfolding first_trivial
  nontrivial [] h = tt
  nontrivial (r ∷ rules) h = (ground arith, nontrivial rules (ground arith))

  refuse-loaded :
      (o : Option Rule) (rs rules : List Rule)
      → refuse o rs ≡ loaded rules
      → (o ≡ none) × (rs ≡ rules)
  refuse-loaded none rs rules h = (refl, cc)
  refuse-loaded (some r) rs rules h = cc

  admit-loaded :
      (both : List Rule × List RuleError) (rules : List Rule)
      → admit both ≡ loaded rules
      → (both ≡ (rules, [])) × (first_trivial rules ≡ none)
  admit-loaded (rs, []) rules h =
      let (o, e) = refuse-loaded (first_trivial rs) rs rules h in (ap (λ t. (t, [])) e, rw⁻¹ e o)
  admit-loaded (rs, e ∷ errs) rules h = cc

  -- Where a file loads, all of it parsed without an error and these are the rules read. Every rule
  -- comes from a line of the file, which parses; its surfaces are known ones, and they are just the names, without
  -- the white space around them, between the commas of the line's fourth field, or `cli` alone where
  -- that field is blank; so the rule is for `mcp` only where the field names it. No rule matches all
  -- three probes.
  pub load_file-Sound :
      (text : Bytes) (rules : List Rule)
      → load_file compile (contents text) ≡ loaded rules
      → (parse compile text ≡ (rules, []))
        × All (Sound (split b'\n' text)) rules
        × All (λ r. is_trivial_match_everything r.regex ≡ false) rules
  unfolding load_file
  load_file-Sound text rules h =
      let (whole, trivial) = admit-loaded (parse compile text) rules h in
      let all : All (Sound (split b'\n' text)) (parse compile text).0 =
        unfold parse in scan-Sound (split b'\n' text) 0 in
      (
        whole,
        transport (ap (λ t. All (Sound (split b'\n' text)) t.0) whole) all,
        nontrivial rules trivial,
      )

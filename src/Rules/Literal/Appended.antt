-- ===== src/Rules/Literal/Appended.antt =====
-- cmd/alice/exec.go and internal/aclrules/aclrules.go: a line appended to a file of rules, and the file
-- read back.
use an_b.Base.{
  ℕ, suc, ◌*◌, ◌<◌, Bool, false, List, [], ◌∷◌, ◌++◌, Bytes, Lacks, ◌≡◌, refl, ap, sym, ◌∙◌, arith,
  All, split, bytes_eq, nat_eq, leb, length, Result, ok, err, Bool-cases, inl, inr, append_assoc,
  append-nil, has_prefix, Option,
}
use an_b.Base.Trim.{trim_space-first}
use an_b.Base.Split.{split-first}
use an_b.Base.{list_beq}
use an_b.Rules.{Rule}
use an_b.Rules.Parse.{
  RuleError, parse, parse_line, scan_lines, scan_line, with_line, is_skipped, drop_return,
}

-- the text of a file whose lines all have their ends
abbrev pub text_of_lines : List Bytes → Bytes
text_of_lines [] = []
text_of_lines (l ∷ ls) = l ++ (b'\n' ∷ text_of_lines ls)

split-lines :
    (ls : List Bytes) (s : Bytes)
    → All (Lacks b'\n') ls
    → split b'\n' (text_of_lines ls ++ s) ≡ ls ++ split b'\n' s
split-lines [] s h = refl
split-lines (l ∷ ls) s (hl, h) =
    ap (split b'\n') (append_assoc l (b'\n' ∷ text_of_lines ls) s)
    ∙ split-first b'\n' l (text_of_lines ls ++ s) hl
    ∙ ap (λ t. l ∷ t) (split-lines ls s h)

split-nil : (b : ℕ) → split b [] ≡ [] ∷ []
unfolding split
split-nil b = refl

drop_return-Lacks : (s : Bytes) → Lacks b'\r' s → drop_return s ≡ s
unfolding drop_return
drop_return-Lacks [] h = refl
drop_return-Lacks (c ∷ []) (hc, h) = ground arith
drop_return-Lacks (c ∷ d ∷ s) (hc, h) = ap (λ t. c ∷ t) (drop_return-Lacks (d ∷ s) h)

-- a line that starts with the anchor is neither empty nor a comment
caret-kept : (s : Bytes) → is_skipped (b'^' ∷ s) ≡ false
unfolding is_skipped list_beq has_prefix
caret-kept s = let (rest, e) = trim_space-first b'^' (omega arith, omega arith) s in rw e refl

module _ (compile : Bytes → Option (Bytes → Bool)) where
  abbrev pub Scanned : Type 0
  Scanned = List Rule × List RuleError

  scan-cons :
      (p q : Bytes) (ls ps : List Bytes) (n : ℕ)
      → scan_lines compile (p ∷ (ls ++ (q ∷ ps))) n
        ≡ scan_line compile p (suc n) (scan_lines compile (ls ++ (q ∷ ps)) (suc n))
  unfolding scan_lines
  scan-cons [] q [] ps n = refl
  scan-cons (c ∷ p) q [] ps n = refl
  scan-cons [] q (l ∷ ls) ps n = refl
  scan-cons (c ∷ p) q (l ∷ ls) ps n = refl

  scan-end : (n : ℕ) → scan_lines compile ([] ∷ []) n ≡ ([], [])
  unfolding scan_lines
  scan-end n = refl

  -- what a line that gives no error makes of the rest: it adds a rule, or nothing
  with_line-front :
      (m : Result RuleError Rule) (rest : Scanned) (rules : List Rule)
      → with_line m rest ≡ (rules, [])
      → (rs : List Rule) × (rest ≡ (rs, []))
        × (front : List Rule) × (rules ≡ front ++ rs)
        × ((more : List Rule) → with_line m (more, []) ≡ (front ++ more, []))
  with_line-front (ok r) (rs, []) rules h = (rs, refl, r ∷ [], cc, λ more. refl)
  with_line-front (ok r) (rs, e ∷ es) rules h = absurd (cc)
  with_line-front (err e) rest rules h = absurd (cc)

  scan_line-front :
      (p : Bytes) (n : ℕ) (rest : Scanned) (rules : List Rule)
      → scan_line compile p n rest ≡ (rules, [])
      → (rs : List Rule) × (rest ≡ (rs, []))
        × (front : List Rule) × (rules ≡ front ++ rs)
        × ((more : List Rule) → scan_line compile p n (more, []) ≡ (front ++ more, []))
  unfolding scan_line
  scan_line-front p n rest rules h = elim (Bool-cases (leb (4 * 1024) (length p))) [
    | inl long ↦ absurd (cc (rw long at h))
    | inr fits ↦ elim (Bool-cases (is_skipped (drop_return p))) [
      | inl skipped ↦ (rules, rw (fits, skipped) at h, [], refl, λ more. rw (fits, skipped) refl)
      | inr rule ↦
          let (rs, e, front, whole, same) =
            with_line-front (parse_line compile (drop_return p) n) rest rules
              (rw (fits, rule) at h) in
          (rs, e, front, whole, λ more. rw (fits, rule) (same more))
    ]
  ]

  module _ (line : Bytes) (r : ℕ → Rule)
      (gives : (n : ℕ) → scan_line compile line n ([], []) ≡ (r n ∷ [], [])) where
    -- lines that are scanned without an error, and behind them a line that gives one rule
    scan-behind :
        (ls : List Bytes) (n : ℕ) (rules : List Rule)
        → scan_lines compile (ls ++ ([] ∷ [])) n ≡ (rules, [])
        → (m : ℕ) × (scan_lines compile (ls ++ (line ∷ [] ∷ [])) n ≡ (rules ++ (r m ∷ []), []))
    scan-behind [] n rules h =
        let e : rules ≡ [] = unfold scan_lines in cc in
        (
          suc n,
          rw e (
              scan-cons line [] [] [] n
              ∙ ap (scan_line compile line (suc n)) (scan-end (suc n))
              ∙ gives (suc n)),
        )
    scan-behind (l ∷ ls) n rules h =
        let (rs, e, front, whole, same) =
          scan_line-front l (suc n) (scan_lines compile (ls ++ ([] ∷ [])) (suc n)) rules
            (sym (scan-cons l [] ls [] n) ∙ h) in
        let (m, ih) = scan-behind ls (suc n) rs e in
        (
          m,
          scan-cons l line ls ([] ∷ []) n
              ∙ ap (scan_line compile l (suc n)) ih
              ∙ same (rs ++ (r m ∷ []))
              ∙ ap (λ t. (t, []))
                  (sym (append_assoc front rs (r m ∷ [])) ∙ ap (λ t. t ++ (r m ∷ [])) (sym whole)),
        )

    -- The file gives its rules and, as the last one, that of the line.
    pub parse-appended :
        (ls : List Bytes) (rules : List Rule)
        → All (Lacks b'\n') ls
        → Lacks b'\n' line
        → parse compile (text_of_lines ls) ≡ (rules, [])
        → (m : ℕ) × (parse compile (text_of_lines ls ++ (line ++ (b'\n' ∷ [])))
            ≡ (rules ++ (r m ∷ []), []))
    unfolding parse
    parse-appended ls rules hs hl h =
        let before =
          ap (split b'\n') (sym (append-nil (text_of_lines ls)))
          ∙ split-lines ls [] hs
          ∙ ap (λ t. ls ++ t) (split-nil b'\n') in
        let behind =
          split-lines ls (line ++ (b'\n' ∷ [])) hs
          ∙ ap (λ t. ls ++ t)
              (split-first b'\n' line [] hl ∙ ap (λ t. line ∷ t) (split-nil b'\n')) in
        let (m, e) = scan-behind ls 0 rules (ap (λ t. scan_lines compile t 0) (sym before) ∙ h) in
        (m, ap (λ t. scan_lines compile t 0) behind ∙ e)

  -- a line that starts with the anchor, with neither of the two bytes of a line's end, of less than
  -- 4096 bytes
  pub scan_line-kept :
      (s : Bytes) (n : ℕ) (r : Rule)
      → length (b'^' ∷ s) < 4096
      → Lacks b'\r' (b'^' ∷ s)
      → parse_line compile (b'^' ∷ s) n ≡ ok r
      → scan_line compile (b'^' ∷ s) n ([], []) ≡ (r ∷ [], [])
  unfolding scan_line
  scan_line-kept s n r short clean h =
      let fits : leb (4 * 1024) (length (b'^' ∷ s)) ≡ false = ground arith in
      rw fits (rw (drop_return-Lacks (b'^' ∷ s) clean, caret-kept s, h) refl)

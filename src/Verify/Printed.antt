-- ===== src/Verify/Printed.antt =====
-- internal/verify/verify.go: `Report.String`, the report as it is printed.
use netcage.Base.{
  arith, ℕ, ◌==◌, Bool, true, false, Option, none, some, List, [], List-cases, ◌∷◌, ◌++◌,
  if◌then◌else◌, ◌≡◌, ◌≢◌, refl, Bool-cases, inl, inr, All,
}
use netcage.Text.{Text, codes, cons_head, has_prefix, is_empty, split}
use netcage.Cli.Command.{ProxyConfig, ProxySource, unset, flag, env, config, address}
use netcage.Verify.{Assertion, exit_code}
use netcage.Verify.Verdicts.{exit_code_iff}

-- An assertion with the texts of its detail and of its error.
pub record Line : Type 0 where
  pub assertion : Assertion
  pub detail : Text
  pub error : Option Text

-- The text of a `ProxySource`.
abbrev pub source_text : ProxySource → Text
source_text unset = []
source_text flag = codes "flag"
source_text env = codes "env"
source_text config = codes "config"

abbrev source_part : Text → Text
source_part [] = []
source_part (c ∷ s) = codes " (source: " ++ ((c ∷ s) ++ codes ")")

abbrev detail_part : Text → Text
detail_part [] = []
detail_part (c ∷ s) = codes ": " ++ (c ∷ s)

abbrev error_part : Option Text → Text
error_part none = []
error_part (some e) = codes " (error: " ++ (e ++ codes ")")

-- The header without its newline.
unfoldable pub header_text : ProxyConfig → ProxySource → Text
header_text proxy source =
    codes "proxy: socks5h://" ++ (address proxy ++ source_part (source_text source))

-- A line of an assertion without its newline.
unfoldable pub line_text : Line → Text
line_text l =
    (if l.assertion.ok then codes "[PASS] " else codes "[FAIL] ")
    ++ (l.assertion.name ++ (detail_part l.detail ++ error_part l.error))

unfoldable pub line_texts : List Line → Text
line_texts [] = []
line_texts (l ∷ ls) = line_text l ++ (b'\n' ∷ line_texts ls)

-- `Report.String`.
unfoldable pub report_string : ProxyConfig → ProxySource → List Line → Text
report_string proxy source lines =
    if is_empty proxy.host
    then line_texts lines
    else header_text proxy source ++ (b'\n' ∷ line_texts lines)

abbrev pub assertions : List Line → List Assertion
assertions [] = []
assertions (l ∷ ls) = l.assertion ∷ assertions ls

abbrev pub is_fail_line : Text → Bool
is_fail_line s = has_prefix (codes "[FAIL]") s

-- No line of the text begins with the mark of a failure.
abbrev pub NoFailLine : Text → Type 0
NoFailLine s = All (λ l. is_fail_line l ≡ false) (split b'\n' s)

cons_head-append :
    (c : ℕ) (ls ms : List Text) → ls ≢ [] → cons_head c (ls ++ ms) ≡ cons_head c ls ++ ms
cons_head-append c [] ms some' = absurd (some' refl)
cons_head-append c (l ∷ ls) ms some' = refl

cons_head-some : (c : ℕ) (ls : List Text) → cons_head c ls ≢ []
cons_head-some c [] = λ e. cc
cons_head-some c (l ∷ ls) = λ e. cc

split-some : (b : ℕ) (s : Text) → split b s ≢ []
unfolding split
split-some b [] = λ e. cc
split-some b (c ∷ s) = elim (Bool-cases (c == b)) [
  | inl e ↦ rw (e) (λ k. cc)
  | inr e ↦ rw (e) (cons_head-some c (split b s))
]

-- A newline parts the lines before it from those behind it.
split-newline : (b : ℕ) (s t : Text) → split b (s ++ (b ∷ t)) ≡ split b s ++ split b t
unfolding split
split-newline b [] t = ground arith
split-newline b (c ∷ s) t = elim (Bool-cases (c == b)) [
  | inl e ↦ rw (e, split-newline b s t) refl
  | inr e ↦
      rw (e, split-newline b s t) (cons_head-append c (split b s) (split b t) (split-some b s))
]

All-parts :
    (xs ys : List Text)
    → All (λ l. is_fail_line l ≡ false) (xs ++ ys)
    → All (λ l. is_fail_line l ≡ false) xs × All (λ l. is_fail_line l ≡ false) ys
All-parts [] ys h = (tt, h)
All-parts (x ∷ xs) ys (h, hs) = let (k, ks) = All-parts xs ys hs in ((h, k), ks)

NoFailLine-parts : (s t : Text) → NoFailLine (s ++ (b'\n' ∷ t)) → NoFailLine s × NoFailLine t
NoFailLine-parts s t h =
    All-parts (split b'\n' s) (split b'\n' t) (rw (split-newline b'\n' s t) at h)

fail_line-marked : (s : Text) → NoFailLine (codes "[FAIL] " ++ s) → true ≡ false
unfolding codes split has_prefix
fail_line-marked s h = elim (List-cases (split b'\n' s)) [
  | inl e ↦ (rw (e) at h).0
  | inr (l, ls, e) ↦ (rw (e) at h).0
]

line_text-passes : (l : Line) → NoFailLine (line_text l) → l.assertion.ok ≡ true
unfolding line_text
line_text-passes l h = elim (Bool-cases l.assertion.ok) [
  | inl e ↦ e
  | inr e ↦ absurd (ground (arith, fail_line-marked _ (rw (e) at h)))
]

line_texts-pass :
    (lines : List Line) → NoFailLine (line_texts lines) → All (λ a. a.ok ≡ true) (assertions lines)
unfolding line_texts
line_texts-pass [] h = tt
line_texts-pass (l ∷ ls) h =
    let (first, others) = NoFailLine-parts (line_text l) (line_texts ls) h in
    (line_text-passes l first, line_texts-pass ls others)

report_lines :
    (proxy : ProxyConfig) (source : ProxySource) (lines : List Line)
    → NoFailLine (report_string proxy source lines)
    → NoFailLine (line_texts lines)
unfolding report_string
report_lines proxy source lines h = elim (Bool-cases (is_empty proxy.host)) [
  | inl e ↦ rw (e) at h
  | inr e ↦ (NoFailLine-parts (header_text proxy source) (line_texts lines) (rw (e) at h)).1
]

some_assertion : (lines : List Line) → lines ≢ [] → assertions lines ≢ []
some_assertion [] h = λ _. h refl
some_assertion (l ∷ ls) h = cc

-- Whatever the texts of the proxy and of the checks are, with newlines in them or not: a verification
-- that has checks and whose exit code is not 0 shows it, for a printed report of which no line begins
-- with [FAIL] is one of the exit code 0.
pub report_string-exit_code :
    (proxy : ProxyConfig) (source : ProxySource) (lines : List Line)
    → lines ≢ []
    → NoFailLine (report_string proxy source lines)
    → exit_code (assertions lines) ≡ 0
report_string-exit_code proxy source lines some_line h =
    (exit_code_iff (assertions lines)).1
      (some_assertion lines some_line, line_texts-pass lines (report_lines proxy source lines h))

-- ===== src/Chat/Ask/Printed.antt =====
-- What the pattern makes of one citation that is printed as in the prompt.
use Prim.Native.Char.{code}
use text.Mathlib.TextLemmas.{append_assoc, cons-append, nil-append}
use code_trace.Prelude.{
  ℕ, suc, ◌+◌, String, ◌≡◌, ◌≢◌, refl, ◌∙◌, ap, false, some, ◌∷◌, arith, nat_eq, show, ◌+++◌,
  text_eq,
}
use code_trace.Chat.Citations.{citation_key}
use code_trace.Chat.Pattern.{CitationMatch, span_name, literal, match_citation, match_all}
use code_trace.Chat.Pattern.Skips.{skip-span_name, skip-number, skip-char}
use code_trace.Chat.Pattern.Numbers.{push, number-show, nat_eq-suc}

-- No character of the text is a closing bracket or a colon, as in most paths.
unfoldable pub IsName : String → Type 0
IsName String.[] = Unit
IsName (String.◌∷◌ c s) = (nat_eq (code c) b']' ≡ false) × (nat_eq (code c) b':' ≡ false) × IsName s

-- No citation begins in the text.
unfoldable pub HasNoBracket : String → Type 0
HasNoBracket String.[] = Unit
HasNoBracket (String.◌∷◌ c s) = (nat_eq (code c) b'[' ≡ false) × HasNoBracket s

span_name-stops : (s : String) → span_name (String.◌∷◌ ":" s) ≡ ("", 0, String.◌∷◌ ":" s)
unfolding span_name
span_name-stops s = refl

span_name_lem :
    (file s : String)
    → IsName file
    → (k : ℕ) × (span_name (file +++ String.◌∷◌ ":" s) ≡ (file, k, String.◌∷◌ ":" s))
      × (file ≢ "" → nat_eq k 0 ≡ false)
unfolding IsName span_name
span_name_lem String.[] s h =
    (0, ap span_name (nil-append (String.◌∷◌ ":" s)) ∙ span_name-stops s, λ e. absurd (e refl))
span_name_lem (String.◌∷◌ c file) s (no_bracket, no_colon, hs) =
    let (k, spanned, some_read) = span_name_lem file s hs in
    (suc k, ap span_name (cons-append c file _) ∙ step k spanned, λ e. nat_eq-suc k)
  where
    step :
        (k : ℕ)
        → span_name (file +++ String.◌∷◌ ":" s) ≡ (file, k, String.◌∷◌ ":" s)
        → span_name (String.◌∷◌ c (file +++ String.◌∷◌ ":" s))
          ≡ (String.◌∷◌ c file, suc k, String.◌∷◌ ":" s)
    step k e = rw (e, no_bracket, no_colon) refl

-- What stands behind the `[` of a citation.
abbrev pub printed : String → ℕ → ℕ → String → String
printed file start_line end_line rest =
    file
    +++ String.◌∷◌ ":" (show start_line +++ String.◌∷◌ "-" (show end_line +++ String.◌∷◌ "]" rest))

abbrev pub matched : String → ℕ → ℕ → ℕ → CitationMatch
matched file start_line end_line k = record {
  file = file;
  start_line = start_line;
  end_line = end_line;
  count = k;
}

match_citation-printed :
    (file : String) (start_line end_line : ℕ) (rest : String)
    → IsName file
    → file ≢ ""
    → (k : ℕ) × (match_citation (printed file start_line end_line rest)
        ≡ some (matched file start_line end_line k))
      × (match_all k (printed file start_line end_line rest) ≡ match_all 0 rest)
unfolding match_citation literal
match_citation-printed file start_line end_line rest name some_file =
    let second_text = show end_line +++ String.◌∷◌ "]" rest in
    let first_text = show start_line +++ String.◌∷◌ "-" second_text in
    let text = printed file start_line end_line rest in
    let (j, spanned, some_read) = span_name_lem file first_text name in
    let (first, read_start) = number-show start_line "-" second_text refl in
    let (second, read_end) = number-show end_line "]" rest refl in
    let count = j + suc first + suc second + 3 in
    let split : count ≡ j + (suc first + (suc second + 1 + 1) + 1) = omega arith in
    (
      count,
      rw (spanned, some_read some_file, read_start, read_end) refl,
      ap (λ n. match_all n text) split
          ∙ skip-span_name text file (String.◌∷◌ ":" first_text) j _ spanned
          ∙ skip-char ":" first_text (suc first + (suc second + 1 + 1))
          ∙ skip-number first_text _ (suc second + 1 + 1) read_start
          ∙ skip-char "-" second_text (suc second + 1)
          ∙ skip-number second_text _ 1 read_end
          ∙ ap (λ n. match_all n (String.◌∷◌ "]" rest)) one
          ∙ skip-char "]" rest 0,
    )
  where
    one : 1 ≡ 0 + 1
    one = omega arith

pub match_all-plain :
    (before text : String) → HasNoBracket before → match_all 0 (before +++ text) ≡ match_all 0 text
unfolding match_all HasNoBracket
match_all-plain String.[] text h = ap (match_all 0) (nil-append text)
match_all-plain (String.◌∷◌ c before) text (h, hs) =
    let skipped : match_all 0 (String.◌∷◌ c (before +++ text)) ≡ match_all 0 (before +++ text) =
      rw h refl in
    ap (match_all 0) (cons-append c before text) ∙ skipped ∙ match_all-plain before text hs

pub match_all-printed :
    (file : String) (start_line end_line : ℕ) (rest : String)
    → IsName file
    → file ≢ ""
    → (k : ℕ) × (match_all 0 (String.◌∷◌ "[" (printed file start_line end_line rest))
        ≡ matched file start_line end_line k ∷ match_all 0 rest)
unfolding match_all
match_all-printed file start_line end_line rest name some_file =
    let (k, found, skipped) = match_citation-printed file start_line end_line rest name some_file in
    (k, rw found (ap (λ ms. matched file start_line end_line k ∷ ms) skipped))

append_assoc_four :
    (a b c d e r : String) → (a +++ b +++ c +++ d +++ e) +++ r ≡ a +++ b +++ c +++ d +++ e +++ r
append_assoc_four a b c d e r =
    append_assoc a (b +++ c +++ d +++ e) r
    ∙ ap (λ t. a +++ t)
        (append_assoc b (c +++ d +++ e) r
          ∙ ap (λ t. b +++ t) (append_assoc c (d +++ e) r ∙ ap (λ t. c +++ t) (append_assoc d e r)))

pub printed-citation_key :
    (file : String) (start_line end_line : ℕ) (rest : String)
    → ("[" +++ citation_key file start_line end_line +++ "]") +++ rest
      ≡ String.◌∷◌ "[" (printed file start_line end_line rest)
unfolding citation_key
printed-citation_key file start_line end_line rest =
    let key = citation_key file start_line end_line in
    append_assoc "[" (key +++ "]") rest
    ∙ ap (λ t. "[" +++ t) (append_assoc key "]" rest)
    ∙ push "[" (key +++ "]" +++ rest)
    ∙ ap (String.◌∷◌ "[") (
        append_assoc_four file ":" (show start_line) "-" (show end_line) ("]" +++ rest)
        ∙ ap (λ t. file +++ t)
            (push ":" _
              ∙ ap (λ t. String.◌∷◌ ":" (show start_line +++ t))
                  (push "-" _ ∙ ap (λ t. String.◌∷◌ "-" (show end_line +++ t)) (push "]" rest))))

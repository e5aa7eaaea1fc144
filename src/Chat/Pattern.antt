-- ===== src/Chat/Pattern.antt =====
-- The pattern /\[([^\]:]+):(\d+)-(\d+)\]/g of chat.service.ts. A line number is read exactly, which
-- `Number` does below 2^53.
pub mod Numbers
pub mod Skips
use Prim.Native.Char.{code}
use Prim.Native.String
use code_trace.Prelude.{
  ℕ, zero, suc, ◌+◌, ◌-◌, ◌*◌, String, Bool, true, false, ◌||◌, not, Option, none, some, List, [],
  ◌∷◌, nat_eq, is_digit, if◌then◌else◌,
}

-- `[^\]:]`
abbrev pub is_name_char : ℕ → Bool
is_name_char c = not (nat_eq c b']' || nat_eq c b':')

-- The longest run of the class, the number of its characters, and the rest.
unfoldable pub span_name : String → String × ℕ × String
span_name String.[] = (String.[], 0, String.[])
span_name (String.◌∷◌ c s) =
    let (name, count, rest) = span_name s in
    if is_name_char (code c)
    then (String.◌∷◌ c name, suc count, rest)
    else (String.[], 0, String.◌∷◌ c s)

pub record Digits : Type 0 where
  pub value : ℕ
  pub count : ℕ
  pub rest : String

-- `\d*` behind the digits read so far, with their value and number
unfoldable pub span_number : ℕ → ℕ → String → Digits
span_number value count String.[] = record { value = value; count = count; rest = String.[] }
span_number value count (String.◌∷◌ c s) =
    let rest = span_number (value * 10 + (code c - b'0')) (suc count) s in
    if is_digit (code c)
    then rest
    else record { value = value; count = count; rest = String.◌∷◌ c s }

-- `\d+`
unfoldable pub number : String → Option Digits
number s = let digits = span_number 0 0 s in if nat_eq digits.count 0 then none else some digits

unfoldable pub literal : ℕ → String → Option String
literal c String.[] = none
literal c (String.◌∷◌ d s) = if nat_eq c (code d) then some s else none

-- What a match of the pattern holds: its three groups, and how long it is behind the `[`.
pub record CitationMatch : Type 0 where
  pub file : String
  pub start_line : ℕ
  pub end_line : ℕ
  pub count : ℕ

infixl 5 ◌>>=◌
abbrev ◌>>=◌ : {A B : Type 0} → Option A → (A → Option B) → Option B
none >>= k = none
some a >>= k = k a

-- `([^\]:]+):(\d+)-(\d+)\]`. No class has the character that must follow it, so a shorter run never
-- matches where the longest does not.
unfoldable pub match_citation : String → Option CitationMatch
match_citation s =
    let (file, file_count, after_file) = span_name s in
    if nat_eq file_count 0 then none else do
      first ← literal b':' after_file
      start ← number first
      second ← literal b'-' start.rest
      end ← number second
      rest ← literal b']' end.rest
      some (record {
        file = file;
        start_line = start.value;
        end_line = end.value;
        count = file_count + start.count + end.count + 3;
      })

-- `answer.matchAll(…)`: a match behind each `[` that no match before it has taken in. The first
-- argument is how much of the text the last match still covers.
unfoldable pub match_all : ℕ → String → List CitationMatch
match_all skip String.[] = []
match_all (suc skip) (String.◌∷◌ c s) = match_all skip s
match_all zero (String.◌∷◌ c s) =
    if nat_eq (code c) b'['
    then elim (match_citation s) [ none ↦ match_all 0 s | some m ↦ m ∷ match_all m.count s ]
    else match_all 0 s

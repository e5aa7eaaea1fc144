-- ===== src/Review/Findings.antt =====
-- The reply of the language model in pr-review.service.ts: `parseRawFindings`, and the findings that
-- are kept of it.
pub mod Citations
pub mod Tests
use code_trace.Prelude.{
  ℕ, suc, zero, String, ◌≡◌, refl, Bool, true, false, ◌&&◌, ◌||◌, Option, none, some, List, [], ◌∷◌,
  map, Text, codes, strip_prefix, starts_with, if◌then◌else◌, leb, nat_eq, ◌+++◌, Map, lookup,
  text_eq, ◌==◌,
}
use code_trace.Errors.{Result, ok, err}
use code_trace.Review.Types.{Category, Citation, PrFinding}
use code_trace.Retrieval.Types.{RetrievedChunk}
use code_trace.Chat.Citations.{validate_citation, citation_key, chunk_by_file_and_lines}

pub record RawLlmFinding : Type 0 where
  pub category : Category
  pub file : String
  pub line : ℕ
  pub explanation : String
  pub related_symbol : Option String
  pub citation_file : String
  pub citation_start_line : ℕ
  pub citation_end_line : ℕ

abbrev fence : Text
fence = codes "```"

-- `\s`
is_space : ℕ → Bool
is_space c =
    (leb 9 c && leb c 13)
    || nat_eq c 32
    || nat_eq c 0xa0
    || nat_eq c 0x1680
    || (leb 0x2000 c && leb c 0x200a)
    || nat_eq c 0x2028
    || nat_eq c 0x2029
    || nat_eq c 0x202f
    || nat_eq c 0x205f
    || nat_eq c 0x3000
    || nat_eq c 0xfeff

-- what follows the first fence
after_fence : Text → Option Text
after_fence [] = none
after_fence (c ∷ text) =
    let later = after_fence text in
    if starts_with fence (c ∷ text) then strip_prefix fence (c ∷ text) else later

-- `(?:json)?`
skip_json : Text → Text
skip_json text = elim (strip_prefix (codes "json") text) [ none ↦ text | some rest ↦ rest ]

skip_spaces : Text → Text
unfolding is_space
skip_spaces [] = []
skip_spaces (c ∷ text) = let rest = skip_spaces text in if is_space c then rest else c ∷ text

-- Whether the text is `\s*` and a fence.
closes : Text → Bool
unfolding skip_spaces
closes text = starts_with fence (skip_spaces text)

grow : ℕ → Option Text → Option Text
grow c none = none
grow c (some text) = some (c ∷ text)

-- `([\s\S]*?)\s*` up to the next fence: as little as can be
up_to_fence : Text → Option Text
unfolding closes grow
up_to_fence [] = none
up_to_fence (c ∷ text) =
    let more = grow c (up_to_fence text) in if closes (c ∷ text) then some [] else more

opened : Option Text → Option Text
unfolding skip_json skip_spaces up_to_fence
opened none = none
opened (some text) = up_to_fence (skip_spaces (skip_json text))

-- The group of `/```(?:json)?\s*([\s\S]*?)\s*```/`.
pub fence_match : Text → Option Text
unfolding after_fence opened
fence_match text = opened (after_fence text)

unfoldable pub json_text : Text → Option Text → Text
json_text raw none = raw
json_text raw (some inner) = inner

-- a failed parse, and a value that is no array, are no findings
unfoldable pub findings_or_none : Result (Option (List RawLlmFinding)) → List RawLlmFinding
findings_or_none (ok (some findings)) = findings
findings_or_none (ok none) = []
findings_or_none (err _) = []

-- `JSON.parse` is a parameter: `none` is a value that is not an array. The items of an array are
-- read as `RawLlmFinding`s, as the source casts them.
unfoldable pub parse_raw_findings :
    (Text → Result (Option (List RawLlmFinding))) → Text → List RawLlmFinding
unfolding json_text findings_or_none fence_match
parse_raw_findings parse_json raw = findings_or_none (parse_json (json_text raw (fence_match raw)))

-- `chunkId ? {…} : null`, where "" is falsy too
unfoldable pub citation_for : RawLlmFinding → Option String → Option Citation
citation_for f none = none
citation_for f (some chunk_id) =
    if chunk_id == ""
    then none
    else some (record {
      file = f.citation_file;
      start_line = f.citation_start_line;
      end_line = f.citation_end_line;
      chunk_id = chunk_id;
    })

-- `citation && validateCitation(…) ? citation : null`
unfoldable pub if_valid : List RetrievedChunk → Option Citation → Option Citation
if_valid citable none = none
if_valid citable (some citation) =
    if validate_citation citation citable then some citation else none

unfoldable pub checked_citation :
    Map String String → List RetrievedChunk → RawLlmFinding → Option Citation
unfolding citation_for if_valid
checked_citation chunk_ids citable f = if_valid citable (
    citation_for f
      (lookup (citation_key f.citation_file f.citation_start_line f.citation_end_line) chunk_ids))

unfoldable pub finding_of : Map String String → List RetrievedChunk → RawLlmFinding → PrFinding
unfolding checked_citation
finding_of chunk_ids citable f = record {
  category = f.category;
  file = f.file;
  line = f.line;
  explanation = f.explanation;
  related_symbol = f.related_symbol;
  citation = checked_citation chunk_ids citable f;
}

unfoldable pub findings_of : List RetrievedChunk → List RawLlmFinding → List PrFinding
unfolding finding_of
findings_of citable raw = map (finding_of (chunk_by_file_and_lines citable) citable) raw

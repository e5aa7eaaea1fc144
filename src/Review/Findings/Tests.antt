-- ===== src/Review/Findings/Tests.antt =====
-- A reply with a fence, and findings of which one cites a known chunk.
use code_trace.Prelude.{
  String, ◌≡◌, refl, Option, some, none, [], ◌∷◌, codes, lookup, insert, insert_all, show,
}
use code_trace.Review.Types.{bug, Citation, PrFinding}
use code_trace.Retrieval.Types.{RetrievedChunk}
use code_trace.Chat.Citations.{
  chunk_by_file_and_lines, citation_key, key_entries, validate_citation, agrees,
}
use code_trace.Review.Findings.{
  RawLlmFinding, fence_match, findings_of, finding_of, checked_citation, citation_for, if_valid,
}

fence_match_test : fence_match (codes "Here:\n```json\n[1] \n``` bye") ≡ some (codes "[1]")
unfolding fence_match
fence_match_test = refl

abbrev chunk_k : RetrievedChunk
chunk_k = record {
  id = "k";
  repository_id = "repo";
  file_id = "f";
  symbol = "login";
  symbol_type = "function";
  parent_symbol = none;
  language = "ts";
  start_line = 1;
  end_line = 9;
  content = "";
  file_path = "a.ts";
}

abbrev raw_finding : String → RawLlmFinding
raw_finding file = record {
  category = bug;
  file = file;
  line = 5;
  explanation = "wrong";
  related_symbol = none;
  citation_file = file;
  citation_start_line = 1;
  citation_end_line = 9;
}

abbrev citation_k : Citation
citation_k = record { file = "a.ts"; start_line = 1; end_line = 9; chunk_id = "k" }

abbrev finding_with : String → Option Citation → PrFinding
finding_with file citation = record {
  category = bug;
  file = file;
  line = 5;
  explanation = "wrong";
  related_symbol = none;
  citation = citation;
}

findings_test :
    findings_of (chunk_k ∷ []) (raw_finding "a.ts" ∷ raw_finding "made-up.ts" ∷ [])
    ≡ finding_with "a.ts" (some citation_k) ∷ finding_with "made-up.ts" none ∷ []
unfolding findings_of finding_of checked_citation citation_for if_valid chunk_by_file_and_lines
    citation_key key_entries validate_citation agrees lookup insert insert_all show
findings_test = refl

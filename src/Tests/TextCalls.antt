-- ===== src/Tests/TextCalls.antt =====
-- Tool calls that a model wrote as text.
use sandbar.Base.{Str, codes, none, some, false, [], ◌∷◌, ◌≡◌, ◌≢◌, arith, All, length, suc}
use sandbar.Agent.TextTools.{
  TextHost, wrapper, element, plain_parameter, parse_function_calls_invoke,
}
use sandbar.Agent.TextTools.Scan.{collect, collect_from, pieces_from}
use sandbar.Agent.TextTools.Invoke.{Registered, parse_function_calls_invoke-Registered}
use sandbar.Agent.TextTools.Steps.{collect-enough}
use sandbar.Agent.TextTools.Ids.{unique_text_call_id}
use sandbar.Agent.TextTools.Ids.Unique.{unique_text_call_id-distinct}

-- Texts as they stand, and the first argument as the encoding of all.
abbrev plain : TextHost
plain = record {
  trim = λ s. s;
  unescape = λ s. s;
  parse_bool = λ s. none;
  atoi = λ s. none;
  parse_float = λ s. none;
  marshal = λ params. elim params [ [] ↦ none | (name, v) ∷ rest ↦ some name ];
  xml_calls = λ late s. [];
}

abbrev listing : Str
listing =
    codes
      "<function_calls><invoke name=\"bash\"><parameter name=\"tool\">bash</parameter><parameter name=\"arguments\"><parameter name=\"command\">ls</parameter></invoke></function_calls>"

abbrev equals_listing : Str
equals_listing = codes "<function=bash><parameter=command>ls</parameter></function>"

parse_function_calls_invoke-Registered_example :
    All (Registered plain) (parse_function_calls_invoke plain listing)
parse_function_calls_invoke-Registered_example =
    parse_function_calls_invoke-Registered plain listing

collect-enough_example :
    (collect_from wrapper 9 (codes "<a>b</a>") ≡ collect wrapper (codes "<a>b</a>"))
    × (collect_from (element plain (codes "<a") (codes "</a>")) 9 (codes "<a>b</a>")
        ≡ collect (element plain (codes "<a") (codes "</a>")) (codes "<a>b</a>"))
    × (collect_from (plain_parameter plain (codes "<a") (codes "</a>") false) 9 (codes "<a>b</a>")
        ≡ collect (plain_parameter plain (codes "<a") (codes "</a>") false) (codes "<a>b</a>"))
    × (pieces_from 9 (codes "<a") (codes "<a>b</a>")
        ≡ pieces_from (suc (length (codes "<a>b</a>"))) (codes "<a") (codes "<a>b</a>"))
collect-enough_example =
    collect-enough plain (codes "<a") (codes "</a>") false 9 (codes "<a>b</a>") (omega arith)
      (omega arith)

unique_text_call_id-distinct_example :
    (unique_text_call_id (codes "todo") 0 3).1 ≢ (unique_text_call_id (codes "todo") 0 4).1
unique_text_call_id-distinct_example =
    unique_text_call_id-distinct (codes "todo") (codes "todo") 0 0 3 4 (omega arith) (omega arith)
      (omega arith)

-- ===== src/Tests/TextCases.antt =====
-- The counter and the version token at concrete texts.
use Prim.Native.String.{◌++◌ as append_text, String}
use attention_sink.Prelude.{◌≤◌, ◌≡◌, refl}
use attention_sink.Prelude.Text.{is_space}
use attention_sink.Domain.Errors.{ok}
use attention_sink.Domain.Tokens.{heuristic_count, split_behind}
use attention_sink.Domain.Tokens.Counting.{heuristic_count_mono}
use attention_sink.Domain.Identifiers.{version_token}
use attention_sink.Domain.Identifiers.Tokens.{IsToken, version_token-IsToken, version_token-eq-ok}

counted : heuristic_count "a quotation of eleven  words" ≡ 9
unfolding heuristic_count split_behind is_space
counted = refl

heuristic_count_mono_example :
    (heuristic_count "two words" ≤ heuristic_count (append_text "two words" " more"))
    × (heuristic_count " more" ≤ heuristic_count (append_text "two words" " more"))
heuristic_count_mono_example = heuristic_count_mono "two words" " more"

tokenized : version_token "/amazon.nova-lite-v1:0" ≡ ok "amazon.nova-lite-v1-0"
unfolding version_token
tokenized = refl

-- A token may start with a character that a version does not.
starts_with_dot : version_token ".5" ≡ ok ".5"
unfolding version_token
starts_with_dot = refl

version_token-IsToken_example : IsToken "amazon.nova-lite-v1-0"
version_token-IsToken_example =
    version_token-IsToken "/amazon.nova-lite-v1:0" "amazon.nova-lite-v1-0" tokenized

version_token-eq-ok_example :
    (v : String) × (version_token "/nova:1" ≡ ok v) × IsToken v × (version_token v ≡ ok v)
version_token-eq-ok_example = version_token-eq-ok "/nova:1" refl

-- ===== src/Workload/Prompt.antt =====
-- `validatePromptMessage` and `validatePromptOptions` of server/workloads/workload_protocol.js.
use slaif_connect.Base.{
  ℕ, ◌+◌, Bool, false, ◌||◌, ◌&&◌, not, List, [], ◌∷◌, Text, lit, ltb, ◌==◌, Result, ok, err, ◌>>=◌,
  ◌>>◌, reject, includes, if◌then◌else◌,
}
use slaif_connect.Base.Value.{
  Value, Items, undef, null, bool, num, str, arr, obj, nil, cons, end, get_field, int, pos, nan,
}
use slaif_connect.Workload.Bytes.{byte_length}
use slaif_connect.Workload.Forbidden.{assert_no_forbidden}
use slaif_connect.Workload.Fields.{
  Limits, Check, is_undefined, is_integer_in, is_number_up_to, assert_type_and_version,
  validate_session_id, validate_prompt_id, assert_bounded_string, allowed_prompt_roles,
}

-- The options that were given.
pub record Options : Type 0 where
  pub max_tokens : Value
  pub temperature : Value
  pub top_p : Value

-- An option is undefined or passes its test.
abbrev option_check : (Value → Bool) → Text → Value → Check
option_check test code v = reject (not (is_undefined v) && not (test v)) code

abbrev no_options : Options
no_options = record { max_tokens = undef; temperature = undef; top_p = undef }

unfoldable pub validate_prompt_options : Limits → Value → Result Text Options
validate_prompt_options limits undef = ok no_options
validate_prompt_options limits (obj fs) =
    assert_no_forbidden (obj fs)
    >> option_check (is_integer_in 1 limits.max_tokens) (lit "invalid_max_tokens")
        (get_field (lit "maxTokens") fs)
    >> option_check (is_number_up_to 2) (lit "invalid_temperature")
        (get_field (lit "temperature") fs)
    >> option_check (is_number_up_to 1) (lit "invalid_top_p") (get_field (lit "topP") fs)
    >> ok (record {
      max_tokens = get_field (lit "maxTokens") fs;
      temperature = get_field (lit "temperature") fs;
      top_p = get_field (lit "topP") fs;
    })
validate_prompt_options limits _ = err (lit "invalid_options")

pub record Entry : Type 0 where
  pub role : Text
  pub content : Text

unfoldable pub validate_role : Value → Result Text Text
validate_role (str s) = reject (not (includes allowed_prompt_roles s)) (lit "invalid_role") >> ok s
validate_role _ = err (lit "invalid_role")

-- One entry of the messages, with the bytes of the entries before it.
unfoldable pub validate_entry : Limits → ℕ → Value → Result Text Entry
validate_entry limits total (obj fs) =
    assert_no_forbidden (obj fs) >> validate_role (get_field (lit "role") fs) >>= λ role.
    assert_bounded_string (lit "content") limits.max_prompt_bytes (get_field (lit "content") fs)
    >>= λ content.
        reject (ltb limits.max_prompt_bytes (total + byte_length content)) (lit "prompt_too_large")
        >> ok (record { role = role; content = content })
validate_entry limits total _ = err (lit "invalid_prompt_message")

-- `message.messages.map`, from a total on
unfoldable pub validate_entries : Limits → ℕ → Items → Result Text (List Entry)
validate_entries limits total nil = ok []
validate_entries limits total (cons v xs) = validate_entry limits total v >>= λ e.
    validate_entries limits (total + byte_length e.content) xs >>= λ es. ok (e ∷ es)

abbrev pub items_length : Items → ℕ
items_length nil = 0
items_length (cons v xs) = 1 + items_length xs

unfoldable pub validate_messages : Limits → Value → Result Text (List Entry)
validate_messages limits (arr xs) =
    reject (ltb (items_length xs) 1 || ltb limits.max_messages (items_length xs))
      (lit "invalid_messages")
    >> validate_entries limits 0 xs
validate_messages limits _ = err (lit "invalid_messages")

-- `message.options || {}`
abbrev pub options_or_empty : Value → Value
options_or_empty undef = obj end
options_or_empty null = obj end
options_or_empty (bool false) = obj end
options_or_empty (num nan) = obj end
options_or_empty (num (int (pos n))) = if n == 0 then obj end else num (int (pos n))
options_or_empty (str []) = obj end
options_or_empty v = v

pub record Prompt : Type 0 where
  pub session_id : Value
  pub prompt_id : Value
  pub messages : List Entry
  pub options : Options

unfoldable pub validate_prompt_message : Limits → Value → Result Text Prompt
validate_prompt_message limits message =
    assert_type_and_version (lit "slaif.prompt") message >>= λ fs.
    validate_session_id (get_field (lit "sessionId") fs)
    >> validate_prompt_id (get_field (lit "promptId") fs)
    >> validate_messages limits (get_field (lit "messages") fs)
    >>= λ messages.
        validate_prompt_options limits (options_or_empty (get_field (lit "options") fs))
        >>= λ options. ok (record {
          session_id = get_field (lit "sessionId") fs;
          prompt_id = get_field (lit "promptId") fs;
          messages = messages;
          options = options;
        })

-- ===== src/Supervisor/Waits.antt =====
-- The conditions of waits in src/daemon/supervisor.ts. A regular expression of JavaScript is an
-- argument: whether the pattern is one, and its first match.
use Prim.Native.Char.{code}
use Prim.Native.String.{◌++◌ as str_append}
use opencode_pty.Prelude.{
  ℕ, zero, suc, ◌-◌, String, str_eq, Bool, true, false, ◌&&◌, ◌||◌, Option, none, some,
  get_or_default, ltb, leb, ◌==◌, bool_eq, if◌then◌else◌,
}
use opencode_pty.Session.{SessionRecord, LifecycleView, WaitResult, WaitReason}
use opencode_pty.Rpc.Payload.{utf16_length}
use opencode_pty.Journal.Bytes.{byte_length, char_bytes}
use opencode_pty.Journal.Lines.{text_includes}
use opencode_pty.Supervisor.Cleanup.{active_status}
use opencode_pty.Supervisor.Snapshot.{is_present}

pub record OutputCondition : Type 0 where
  pub literal : Option String
  pub regex : Option String
  pub after_sequence : Option ℕ

pub data WaitCondition : Type 0 where
  exit : WaitCondition
  output : OutputCondition → WaitCondition

pub record RegularExpressions : Type 0 where
  pub valid : String → Bool
  pub exec : String → String → Option String

-- `MAX_EXEC_RUNTIME_SECONDS`
abbrev pub max_exec_runtime_seconds : ℕ
max_exec_runtime_seconds = 3600

pub data WaitError : Type 0 where
  timeout_out_of_range not_one_pattern literal_too_long unsafe_regex invalid_regex : WaitError

pub data Checked : Type 0 where
  accepted : Checked
  refused : WaitError → Checked

-- `/[()*+?{|}]/`
abbrev is_operator : ℕ → Bool
is_operator n =
    (n == 40)
    || ((n == 41)
        || ((n == 42) || ((n == 43) || ((n == 63) || ((n == 123) || ((n == 124) || (n == 125)))))))

unfoldable pub has_operator : String → Bool
has_operator String.[] = false
has_operator (String.◌∷◌ c s) = if is_operator (code c) then true else has_operator s

abbrev starts_with_digit : String → Bool
starts_with_digit String.[] = false
starts_with_digit (String.◌∷◌ c s) = leb 49 (code c) && leb (code c) 57

-- `/\\[1-9]/`
unfoldable pub has_back_reference : String → Bool
has_back_reference String.[] = false
has_back_reference (String.◌∷◌ c s) =
    if (code c == 92) && starts_with_digit s then true else has_back_reference s

unfoldable pub safe_regex : RegularExpressions → String → Checked
safe_regex re pattern' =
    if ltb 512 (utf16_length pattern') || (has_operator pattern' || has_back_reference pattern')
    then Checked.refused WaitError.unsafe_regex
    else if re.valid pattern'
    then Checked.accepted
    else Checked.refused WaitError.invalid_regex

-- `if (condition.regex) safeRegex(condition.regex)`
abbrev check_regex : RegularExpressions → Option String → Checked
check_regex re none = Checked.accepted
check_regex re (some pattern') =
    if str_eq pattern' "" then Checked.accepted else safe_regex re pattern'

abbrev too_long : Option String → Bool
too_long none = false
too_long (some literal) = ltb 4096 (byte_length literal)

unfoldable pub check_output : RegularExpressions → OutputCondition → Checked
check_output re condition =
    if bool_eq (is_present condition.literal) (is_present condition.regex)
    then Checked.refused WaitError.not_one_pattern
    else if too_long condition.literal
    then Checked.refused WaitError.literal_too_long
    else check_regex re condition.regex

abbrev check_condition : RegularExpressions → WaitCondition → Checked
check_condition re WaitCondition.exit = Checked.accepted
check_condition re (WaitCondition.output condition) = check_output re condition

-- A timeout that is no natural number is `none`.
abbrev timeout_in_range : Option ℕ → Bool
timeout_in_range none = false
timeout_in_range (some seconds) = ltb 0 seconds && leb seconds max_exec_runtime_seconds

unfoldable pub validate_wait : RegularExpressions → WaitCondition → Option ℕ → Checked
validate_wait re condition timeout =
    if timeout_in_range timeout
    then check_condition re condition
    else Checked.refused WaitError.timeout_out_of_range

-- A byte that begins no character is read as U+FFFD.
unfoldable pub stray_bytes : ℕ → String → String
stray_bytes zero s = s
stray_bytes (suc n) s = str_append "�" (stray_bytes n s)

-- `Buffer.from(output).subarray(n).toString('utf8')`
unfoldable pub drop_bytes : ℕ → String → String
unfolding stray_bytes
drop_bytes n String.[] = ""
drop_bytes n (String.◌∷◌ c s) =
    let rest = drop_bytes (n - char_bytes c) s in
    if n == 0
    then String.◌∷◌ c s
    else if ltb n (char_bytes c)
    then stray_bytes (char_bytes c - n) s
    else rest

unfoldable pub scoped_output : ℕ → Option ℕ → String → String
scoped_output first after text =
    let start = get_or_default after first in
    if leb start first then text else drop_bytes (start - first) text

unfoldable pub matched_text : RegularExpressions → OutputCondition → String → Option String
matched_text re condition text = elim condition.literal [
  | none ↦ re.exec (get_or_default condition.regex "") text
  | some literal ↦
      if str_eq literal ""
      then re.exec (get_or_default condition.regex "") text
      else if text_includes text literal
      then some literal
      else none
]

abbrev pub exit_wait : SessionRecord → WaitResult
exit_wait r =
    let view : LifecycleView = r.view in
    record {
      satisfied = true;
      reason = WaitReason.exit;
      observed_at = get_or_default view.exited_at r.updated_at;
      matched = none;
      exit_code = view.exit_code;
      exit_signal = view.exit_signal;
      output_truncated = r.output_truncated;
      containment = view.containment;
      termination = view.termination;
    }

unfoldable pub wait_ended : SessionRecord → WaitCondition → WaitResult
wait_ended r WaitCondition.exit = exit_wait r
wait_ended r (WaitCondition.output condition) = record (exit_wait r) { satisfied = false }

abbrev pub output_match : SessionRecord → String → String → WaitResult
output_match r now matched = record {
  satisfied = true;
  reason = WaitReason.output;
  observed_at = now;
  matched = some matched;
  exit_code = none;
  exit_signal = none;
  output_truncated = r.output_truncated;
  containment = none;
  termination = none;
}

abbrev match_result : SessionRecord → String → Option String → Option WaitResult
match_result r now none = none
match_result r now (some matched) = some (output_match r now matched)

-- `waitMatch`, with the session's output and the time.
unfoldable pub wait_match :
    RegularExpressions → SessionRecord → String → String → WaitCondition → Option WaitResult
wait_match re r text now WaitCondition.exit =
    if active_status r.status then none else some (exit_wait r)
wait_match re r text now (WaitCondition.output condition) = match_result r now (
    matched_text re condition
      (scoped_output r.first_retained_sequence condition.after_sequence text))

-- The result that `finishWait` answers and records.
unfoldable pub finish_wait : SessionRecord → WaitResult → WaitResult
finish_wait r result =
    let view : LifecycleView = r.view in
    record result { containment = view.containment; termination = view.termination }

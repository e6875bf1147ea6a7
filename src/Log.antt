-- ===== src/Log.antt =====
-- log.go: what goes to the log of the platform, and with which priority. A text is ASCII bytes; each write is one
-- call of `__android_log_write`, given by its arguments.
pub mod Tagged
mod Tests
use lib_sager_net_core.Common.{
  ℕ, Bool, true, false, ◌&&◌, ◌||◌, Option, none, some, List, [], ◌∷◌, length, drop, map, ◌==◌,
  if◌then◌else◌,
}
use lib_sager_net_core.Common.Text.{codes, is_space}

-- `ANDROID_LOG_DEBUG` to `ANDROID_LOG_FATAL`; `log_unknown` is the zero that a `C.int` starts with.
pub data Priority : Type 0 where
  log_unknown log_debug log_info log_warn log_error log_fatal : Priority

-- `tag` and `tagV2Ray`
pub data Tag : Type 0 where
  libcore v2ray_core : Tag

pub record Line : Type 0 where
  pub priority : Priority
  pub tag : Tag
  pub text : List ℕ

unfoldable pub is_prefix : List ℕ → List ℕ → Bool
is_prefix [] s = true
is_prefix (a ∷ as') [] = false
is_prefix (a ∷ as') (b ∷ s) = a == b && is_prefix as' s

-- `strings.Contains(s, sub)`
unfoldable pub contains : (s sub : List ℕ) → Bool
contains [] sub = is_prefix sub []
contains (c ∷ s) sub = is_prefix sub (c ∷ s) || contains s sub

-- `strings.Replace(s, sub, "", 1)`
unfoldable pub remove_first : (s sub : List ℕ) → List ℕ
remove_first [] sub = []
remove_first (c ∷ s) sub =
    let rest = remove_first s sub in
    if is_prefix sub (c ∷ s) then drop (length sub) (c ∷ s) else c ∷ rest

-- `strings.TrimSpace`
unfoldable pub trim_left : List ℕ → List ℕ
trim_left [] = []
trim_left (c ∷ s) = let rest = trim_left s in if is_space c then rest else c ∷ s

unfoldable pub trim_right : List ℕ → List ℕ
trim_right [] = []
trim_right (c ∷ s) = elim (trim_right s) [
  | [] ↦ if is_space c then [] else c ∷ []
  | d ∷ r ↦ c ∷ d ∷ r
]

abbrev pub trim_space : List ℕ → List ℕ
trim_space s = trim_right (trim_left s)

abbrev pub debug_tag : List ℕ
debug_tag = codes "[Debug]"

abbrev pub info_tag : List ℕ
info_tag = codes "[Info]"

abbrev pub warning_tag : List ℕ
warning_tag = codes "[Warning]"

abbrev pub error_tag : List ℕ
error_tag = codes "[Error]"

-- The chain of tests in `(*v2rayLogWriter).Write`: the priority, and the text without the tag that was found.
unfoldable pub classify : List ℕ → Priority × List ℕ
classify s =
    if contains s debug_tag
    then (log_debug, remove_first s debug_tag)
    else if contains s info_tag
    then (log_info, remove_first s info_tag)
    else if contains s warning_tag
    then (log_warn, remove_first s warning_tag)
    else if contains s error_tag
    then (log_error, remove_first s error_tag)
    else (log_debug, s)

-- `(*v2rayLogWriter).Write`
unfoldable pub write_v2ray : List ℕ → Line
unfolding classify
write_v2ray s =
    let (priority, text) = classify s in
    record { priority = priority; tag = v2ray_core; text = trim_space text }

-- The levels of logrus.
pub data Level : Type 0 where
  panic_level fatal_level error_level warn_level info_level debug_level trace_level : Level

-- `levels`, for which `Levels` registers the hook.
abbrev pub levels : List Level
levels = panic_level ∷ fatal_level ∷ error_level ∷ warn_level ∷ info_level ∷ debug_level ∷ []

unfoldable pub priority_of : Level → Priority
priority_of panic_level = log_fatal
priority_of fatal_level = log_fatal
priority_of error_level = log_error
priority_of warn_level = log_warn
priority_of info_level = log_info
priority_of debug_level = log_debug
priority_of trace_level = log_unknown

-- `(*androidHook).Fire`: what is written, or the formatter's error, for which there is `none`.
unfoldable pub fire : (formatted : Option (List ℕ)) → Level → Option Line
unfolding priority_of
fire none level = none
fire (some text) level = some (record { priority = priority_of level; tag = libcore; text = text })

-- `(stdLogWriter).Write`: what is written, and the count that is returned.
unfoldable pub write_std : List ℕ → Line × ℕ
write_std p = (record { priority = log_info; tag = libcore; text = p }, length p)

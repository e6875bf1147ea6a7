-- ===== src/Log/Tagged.antt =====
-- The messages of v2ray-core, which begin with their severity in brackets.
use lib_sager_net_core.Common.{ℕ, ◌≡◌, ◌≢◌, refl, ap, ◌∙◌, true, false, List, [], ◌∷◌, ◌++◌, arith}
use lib_sager_net_core.Common.Text.{codes}
use lib_sager_net_core.Log.{
  Priority, log_debug, log_info, log_warn, log_error, v2ray_core, is_prefix, contains, remove_first,
  trim_space, debug_tag, info_tag, warning_tag, error_tag, classify, write_v2ray,
}

pub data Severity : Type 0 where
  debug info warning error : Severity

abbrev pub tag_of : Severity → List ℕ
tag_of debug = debug_tag
tag_of info = info_tag
tag_of warning = warning_tag
tag_of error = error_tag

abbrev pub priority_for : Severity → Priority
priority_for debug = log_debug
priority_for info = log_info
priority_for warning = log_warn
priority_for error = log_error

-- The severities that are tested before one.
abbrev pub IsUntagged : Severity → List ℕ → Type 0
IsUntagged debug s = Unit {0}
IsUntagged info s = contains s debug_tag ≡ false
IsUntagged warning s = (contains s debug_tag ≡ false) × (contains s info_tag ≡ false)
IsUntagged error s =
    (contains s debug_tag ≡ false)
    × (contains s info_tag ≡ false)
    × (contains s warning_tag ≡ false)

-- A text with no bracket.
abbrev pub IsPlain : List ℕ → Type 0
IsPlain [] = Unit {0}
IsPlain (c ∷ s) = (c ≢ b'[') × IsPlain s

contains-plain :
    (before s rest : List ℕ)
    → IsPlain before
    → contains (before ++ s) (b'[' ∷ rest) ≡ contains s (b'[' ∷ rest)
unfolding contains is_prefix
contains-plain [] s rest h = refl
contains-plain (c ∷ before) s rest (ne, h) = ground (arith, ne, contains-plain before s rest h)

remove_first-plain :
    (before s rest : List ℕ)
    → IsPlain before
    → remove_first (before ++ s) (b'[' ∷ rest) ≡ before ++ remove_first s (b'[' ∷ rest)
unfolding remove_first is_prefix
remove_first-plain [] s rest h = refl
remove_first-plain (c ∷ before) s rest (ne, h) =
    ground (arith, ne, remove_first-plain before s rest h)

classify-plain :
    (before s : List ℕ)
    → IsPlain before
    → classify (before ++ s) ≡ ((classify s).0, before ++ (classify s).1)
unfolding classify
classify-plain before s h = ground (
  arith,
  contains-plain before s (codes "Debug]") h,
  contains-plain before s (codes "Info]") h,
  contains-plain before s (codes "Warning]") h,
  contains-plain before s (codes "Error]") h,
  remove_first-plain before s (codes "Debug]") h,
  remove_first-plain before s (codes "Info]") h,
  remove_first-plain before s (codes "Warning]") h,
  remove_first-plain before s (codes "Error]") h,
)

classify-tag :
    (v : Severity) (content : List ℕ)
    → IsUntagged v content
    → classify (tag_of v ++ content) ≡ (priority_for v, content)
unfolding classify contains remove_first is_prefix
classify-tag debug content h = refl
classify-tag info content h = ground (arith, h)
classify-tag warning content (h, i) = ground (arith, h, i)
classify-tag error content (h, i, w) = ground (arith, h, i, w)

-- A message that has its severity in brackets after a text with no bracket, and whose content has none of the tags
-- that are tested before that of its severity: it is written with the priority of its severity, as the text and
-- the content, without that tag and without the white space around it.
pub write_v2ray_tagged :
    (v : Severity) (before content : List ℕ)
    → IsPlain before
    → IsUntagged v content
    → write_v2ray (before ++ (tag_of v ++ content)) ≡ record {
      priority = priority_for v;
      tag = v2ray_core;
      text = trim_space (before ++ content);
    }
unfolding write_v2ray
write_v2ray_tagged v before content plain untagged =
    rw (classify-plain before (tag_of v ++ content) plain, classify-tag v content untagged) refl

contains-debug : (s : List ℕ) → contains (debug_tag ++ s) debug_tag ≡ true
unfolding contains is_prefix
contains-debug s = refl

remove_first-debug : (s : List ℕ) → remove_first (debug_tag ++ s) debug_tag ≡ s
unfolding remove_first is_prefix
remove_first-debug s = refl

misled :
    (s : List ℕ)
    → contains s debug_tag ≡ true
    → classify (error_tag ++ s) ≡ (log_debug, error_tag ++ remove_first s debug_tag)
unfolding classify contains remove_first is_prefix
misled s h = ground (arith, h)

-- An error whose content quotes the tag of a debug message is written as a debug message: its own tag stays in
-- the text, and the quoted one is taken out.
pub write_v2ray_misled :
    (content rest : List ℕ)
    → IsPlain content
    → write_v2ray (error_tag ++ (content ++ (debug_tag ++ rest))) ≡ record {
      priority = log_debug;
      tag = v2ray_core;
      text = trim_space (error_tag ++ (content ++ rest));
    }
unfolding write_v2ray
write_v2ray_misled content rest plain =
    let quoted = debug_tag ++ rest in
    let found : contains (content ++ quoted) debug_tag ≡ true =
      contains-plain content quoted (codes "Debug]") plain ∙ contains-debug rest in
    let left : remove_first (content ++ quoted) debug_tag ≡ content ++ rest =
      remove_first-plain content quoted (codes "Debug]") plain
      ∙ ap (λ s. content ++ s) (remove_first-debug rest) in
    rw (misled (content ++ quoted) found, left) refl

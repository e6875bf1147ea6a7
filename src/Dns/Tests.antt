-- ===== src/Dns/Tests.antt =====
-- Runs of the decoder and of a lookup.
use lib_sager_net_core.Common.{ℕ, ◌≡◌, refl, Bool, true, false, Option, none, some, List, [], ◌∷◌}
use lib_sager_net_core.Common.Text.{codes}
use lib_sager_net_core.Dns.{
  a_answer, aaaa_answer, other_answer, Response, decode_response, success, lookup, reports, report,
  split_lines, filter,
}
use lib_sager_net_core.Dns.Answers.{decode_response_addresses}

-- Every name is taken as it is.
abbrev as_is : List ℕ → Option (List ℕ)
as_is s = some s

abbrev is_not_blank : List ℕ → Bool
is_not_blank [] = false
is_not_blank (c ∷ s) = true

abbrev three_answers : Response
three_answers = record {
  rcode = some 0;
  questions_skip = true;
  answers =
      other_answer true
      ∷ a_answer (some (codes "10.0.0.1"))
      ∷ aaaa_answer (some (codes "fd00::1"))
      ∷ [];
  section_done = true;
}

decode_response_addresses_example :
    decode_response three_answers ≡ (codes " 10.0.0.1 fd00::1", none)
decode_response_addresses_example =
    decode_response_addresses three_answers refl refl (refl, (refl, (refl, tt))) refl

lookup_gives_one : (lookup is_not_blank as_is (success (codes "10.0.0.1") ∷ []) none).1 ≡ none
unfolding lookup reports report split_lines filter
lookup_gives_one = refl

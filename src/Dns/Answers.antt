-- ===== src/Dns/Answers.antt =====
-- The text that a response is decoded to, and the questions of a query.
use lib_sager_net_core.Common.{
  ℕ, ◌≡◌, ap, sym, ◌∙◌, Bool, true, false, Option, none, some, List, [], ◌∷◌, ◌++◌, arith, ◌<◌, ◌≤◌,
  length,
}
use mathlib.Core.List.{append-nil, append_assoc}
use lib_sager_net_core.Common.Int.{ℤ}
use lib_sager_net_core.Dns.{
  Query, ends_in_dot, qualified, questions_of, encode_query, Answer, a_answer, aaaa_answer,
  other_answer, DecodeError, a_failed, aaaa_failed, skip_failed, Response, decode_answers,
  decode_response,
}

-- Whether the parser reads an answer to its end, and the error if not.
abbrev pub answer_error : Answer → Option DecodeError
answer_error (a_answer none) = some a_failed
answer_error (aaaa_answer none) = some aaaa_failed
answer_error (other_answer false) = some skip_failed
answer_error _ = none

abbrev pub AllRead : List Answer → Type 0
AllRead [] = Unit
AllRead (a ∷ as') = (answer_error a ≡ none) × AllRead as'

-- The addresses of the answers, each after a space, and nothing of the others.
abbrev pub spaced : List Answer → List ℕ
spaced [] = []
spaced (a_answer (some ip) ∷ rest) = (b' ' ∷ ip) ++ spaced rest
spaced (aaaa_answer (some ip) ∷ rest) = (b' ' ∷ ip) ++ spaced rest
spaced (_ ∷ rest) = spaced rest

decode_answers-append :
    (done : Bool) (text : List ℕ) (good rest : List Answer)
    → AllRead good
    → decode_answers done text (good ++ rest) ≡ decode_answers done (text ++ spaced good) rest
unfolding decode_answers
decode_answers-append done text [] rest h =
    ap (λ t. decode_answers done t rest) (sym (append-nil text))
decode_answers-append done text (a_answer none ∷ good) rest h = absurd (cc h.0)
decode_answers-append done text (aaaa_answer none ∷ good) rest h = absurd (cc h.0)
decode_answers-append done text (other_answer false ∷ good) rest h = absurd (cc h.0)
decode_answers-append done text (other_answer true ∷ good) rest h =
    decode_answers-append done text good rest h.1
decode_answers-append done text (a_answer (some ip) ∷ good) rest h =
    decode_answers-append done (text ++ b' ' ∷ ip) good rest h.1
    ∙ ap (λ t. decode_answers done t rest) (append_assoc text (b' ' ∷ ip) (spaced good))
decode_answers-append done text (aaaa_answer (some ip) ∷ good) rest h =
    decode_answers-append done (text ++ b' ' ∷ ip) good rest h.1
    ∙ ap (λ t. decode_answers done t rest) (append_assoc text (b' ' ∷ ip) (spaced good))

-- A response with the code for success, whose questions and answers the parser reads to the end of the
-- section, decodes to the addresses of its A and AAAA answers, in their order, each after a space;
-- answers of other types are passed over.
pub decode_response_addresses :
    (r : Response)
    → r.rcode ≡ some 0
    → r.questions_skip ≡ true
    → AllRead r.answers
    → r.section_done ≡ true
    → decode_response r ≡ (spaced r.answers, none)
unfolding decode_response decode_answers
decode_response_addresses r code skips read end =
    ground (arith, decode_answers-append r.section_done [] r.answers [] read, append-nil r.answers)

-- At the first answer that cannot be read, the response decodes to the error for it, together with the
-- addresses before it; what follows is not looked at.
pub decode_response_fails :
    (r : Response) (good rest : List Answer) (bad : Answer) (e : DecodeError)
    → r.rcode ≡ some 0
    → r.questions_skip ≡ true
    → r.answers ≡ good ++ bad ∷ rest
    → AllRead good
    → answer_error bad ≡ some e
    → decode_response r ≡ (spaced good, some e)
unfolding decode_response decode_answers
decode_response_fails r good rest bad e code skips split read fails =
    ground (arith, decode_answers-append r.section_done [] good (bad ∷ rest) read)

ends_in_dot-append : (d : List ℕ) → ends_in_dot (d ++ b'.' ∷ []) ≡ true
unfolding ends_in_dot
ends_in_dot-append [] = ground arith
ends_in_dot-append (c ∷ []) = ground arith
ends_in_dot-append (c ∷ e ∷ d) = ends_in_dot-append (e ∷ d)

qualified_again : (d : List ℕ) → qualified (qualified d) ≡ qualified d
unfolding qualified
qualified_again d = ground (arith, ends_in_dot-append d)

-- A query asks for one or two types, all of the name with a dot at its end: whether the domain is given
-- with that dot or without makes no difference. Its id fits 16 bits.
pub encode_query_asks :
    {Name : Type 0} (new_name : List ℕ → Option Name) (id : ℤ) (domain : List ℕ) (mode : ℕ)
    (name : Name) (q : Query Name)
    → new_name (qualified domain) ≡ some name
    → encode_query new_name id domain mode ≡ some q
    → (encode_query new_name id (qualified domain) mode ≡ some q)
      × (q.id < 65536)
      × (0 < length q.questions)
      × (length q.questions ≤ 2)
unfolding encode_query questions_of
encode_query_asks new_name id domain mode name q h e = ground (arith, qualified_again domain)

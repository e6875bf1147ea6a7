-- ===== src/Url/Parsing/Query.antt =====
-- url.go: what `parse` takes off as the query, and how the text is put together again.
use lib_sager_net_core.Common.{
  ℕ, suc, ◌+◌, ◌-◌, ◌≤◌, ◌≡◌, refl, sym, ap, ◌∙◌, Bool, true, false, ◌&&◌, [], ◌∷◌, ◌++◌, ◌⊎◌, inl,
  inr, length, take, ◌==◌, Bool-cases, length-append, arith,
}
use mathlib.Core.List.{append-nil}
use lib_sager_net_core.Url.{Bytes}
use lib_sager_net_core.Url.Parsing.{
  contains, count_of, ends_in, starts_in, cut, span_until, split_query,
}

-- The query as `url.URL.String` prints it.
abbrev pub query_text : (force : Bool) → Bytes → Bytes
query_text true q = b'?' ∷ q
query_text false [] = []
query_text false (c ∷ q) = b'?' ∷ c ∷ q

-- Only an empty query has `ForceQuery`.
abbrev pub IsQuery : (force : Bool) → Bytes → Type 0
IsQuery true q = q ≡ []
IsQuery false q = Unit {0}

pub cut-append :
    (sep : ℕ) (xs ys : Bytes) → contains sep xs ≡ false → cut sep (xs ++ (sep ∷ ys)) ≡ (xs, ys)
unfolding cut
cut-append sep [] ys h = ground arith
cut-append sep (x ∷ xs) ys h = ground (arith, cut-append sep xs ys)

pub cut-without : (sep : ℕ) (xs : Bytes) → contains sep xs ≡ false → cut sep xs ≡ (xs, [])
unfolding cut
cut-without sep [] h = refl
cut-without sep (x ∷ xs) h = ground (arith, cut-without sep xs)

count_of-without : (c : ℕ) (xs : Bytes) → contains c xs ≡ false → count_of c xs ≡ 0
count_of-without c [] h = refl
count_of-without c (x ∷ xs) h = ground (arith, count_of-without c xs)

count_of-append : (c : ℕ) (xs ys : Bytes) → count_of c (xs ++ ys) ≡ count_of c xs + count_of c ys
count_of-append c [] ys = omega arith
count_of-append c (x ∷ xs) ys = omega (arith, count_of-append c xs ys)

ends_in-append : (c x : ℕ) (xs ys : Bytes) → ends_in c (xs ++ (x ∷ ys)) ≡ ends_in c (x ∷ ys)
ends_in-append c x [] ys = refl
ends_in-append c x (y ∷ []) ys = refl
ends_in-append c x (y ∷ z ∷ xs) ys = ends_in-append c x (z ∷ xs) ys

ends_in-counted : (c : ℕ) (xs : Bytes) → ends_in c xs ≡ true → 1 ≤ count_of c xs
ends_in-counted c [] h = absurd (cc h)
ends_in-counted c (x ∷ []) h = ground arith
ends_in-counted c (x ∷ y ∷ xs) h = omega (arith, ends_in-counted c (y ∷ xs) h)

ends_in-without : (c : ℕ) (xs : Bytes) → contains c xs ≡ false → ends_in c xs ≡ false
ends_in-without c xs h = ground (arith, ends_in-counted c xs, count_of-without c xs h)

take-length-append : (xs ys : Bytes) → take (length xs) (xs ++ ys) ≡ xs
take-length-append [] ys = refl
take-length-append (x ∷ xs) ys = ap (λ (t : Bytes). x ∷ t) (take-length-append xs ys)

take-all_but_last : (xs : Bytes) (x : ℕ) → take (length (xs ++ (x ∷ [])) - 1) (xs ++ (x ∷ [])) ≡ xs
take-all_but_last xs x =
    ap (λ (n : ℕ). take n (xs ++ (x ∷ []))) (omega (arith, length-append xs (x ∷ [])))
    ∙ take-length-append xs (x ∷ [])

split_query-force :
    (rest : Bytes)
    → ends_in b'?' rest ≡ true
    → count_of b'?' rest ≡ 1
    → split_query rest ≡ (take (length rest - 1) rest, [], true)
unfolding split_query
split_query-force rest h k = ground arith

split_query-cut :
    (rest : Bytes)
    → ends_in b'?' rest && count_of b'?' rest == 1 ≡ false
    → split_query rest ≡ ((cut b'?' rest).0, (cut b'?' rest).1, false)
unfolding split_query
split_query-cut rest h = rw h refl

-- A text with no question mark, and a query, are taken apart again.
pub split_query-join :
    (body q : Bytes) (force : Bool)
    → contains b'?' body ≡ false
    → IsQuery force q
    → split_query (body ++ query_text force q) ≡ (body, q, force)
split_query-join body q true h e =
    ap (λ (t : Bytes). split_query (body ++ (b'?' ∷ t))) e
    ∙ split_query-force (body ++ (b'?' ∷ [])) (ends_in-append b'?' b'?' body [])
        (count_of-append b'?' body (b'?' ∷ []) ∙ omega (arith, count_of-without b'?' body h))
    ∙ ap (λ (t : Bytes). (t, [], true)) (take-all_but_last body b'?')
    ∙ ap (λ (t : Bytes). (body, t, true)) (sym e)
split_query-join body [] false h e = rw (append-nil body) (
    split_query-cut body (ground (arith, ends_in-without b'?' body h))
    ∙ ap (λ (r : Bytes × Bytes). (r.0, r.1, false)) (cut-without b'?' body h))
split_query-join body (c ∷ q) false h e =
    split_query-cut (body ++ (b'?' ∷ c ∷ q)) (
      ground (
        arith,
        ends_in-append b'?' b'?' body (c ∷ q),
        count_of-append b'?' body (b'?' ∷ c ∷ q),
        ends_in-counted b'?' (c ∷ q),
      ))
    ∙ ap (λ (r : Bytes × Bytes). (r.0, r.1, false)) (cut-append b'?' body (c ∷ q) h)

-- A part before the first question mark.
cut-before : (sep : ℕ) (xs : Bytes) → contains sep (cut sep xs).0 ≡ false
unfolding cut
cut-before sep [] = refl
cut-before sep (x ∷ xs) = ground (arith, cut-before sep xs)

-- The text is what was cut, with the separator where it stood.
cut-reassembled :
    (sep : ℕ) (xs : Bytes) → contains sep xs ≡ true → xs ≡ (cut sep xs).0 ++ (sep ∷ (cut sep xs).1)
unfolding cut
cut-reassembled sep [] h = absurd (cc h)
cut-reassembled sep (x ∷ xs) h = ground (arith, cut-reassembled sep xs)

contains-of_count : (c : ℕ) (xs : Bytes) → count_of c xs ≡ 0 → contains c xs ≡ false
contains-of_count c [] h = refl
contains-of_count c (x ∷ xs) h = ground (arith, contains-of_count c xs)

ends_in-last : (c : ℕ) (xs : Bytes) → ends_in c xs ≡ true → xs ≡ take (length xs - 1) xs ++ (c ∷ [])
ends_in-last c [] h = absurd (cc h)
ends_in-last c (x ∷ []) h = ground arith
ends_in-last c (x ∷ y ∷ xs) h =
    ap (λ (t : Bytes). x ∷ t) (ends_in-last c (y ∷ xs) h)
    ∙ ap (λ (n : ℕ). take n (x ∷ y ∷ xs) ++ (c ∷ [])) {x = suc (length (y ∷ xs) - 1)}
        {y = length (x ∷ y ∷ xs) - 1} (omega arith)

-- What a query of the text promises.
abbrev pub IsSplit : (rest : Bytes) → Bytes × Bytes × Bool → Type 0
IsSplit rest (body, q, force) =
    (rest ≡ body ++ query_text force q) × (contains b'?' body ≡ false) × IsQuery force q

IsSplit-force :
    (rest : Bytes)
    → ends_in b'?' rest ≡ true
    → count_of b'?' rest ≡ 1
    → IsSplit rest (take (length rest - 1) rest, [], true)
IsSplit-force rest h k = (
  ends_in-last b'?' rest h,
  contains-of_count b'?' (take (length rest - 1) rest) (
      omega (
        arith,
        k,
        ap (count_of b'?') (ends_in-last b'?' rest h),
        count_of-append b'?' (take (length rest - 1) rest) (b'?' ∷ []),
      )),
  refl,
)

IsSplit-parts :
    (rest body q : Bytes)
    → rest ≡ body ++ (b'?' ∷ q)
    → contains b'?' body ≡ false
    → ends_in b'?' rest && count_of b'?' rest == 1 ≡ false
    → IsSplit rest (body, q, false)
IsSplit-parts rest body [] e h k = absurd (
    ground (
      arith,
      ap (ends_in b'?') e,
      ap (count_of b'?') e,
      ends_in-append b'?' b'?' body [],
      count_of-append b'?' body (b'?' ∷ []),
      count_of-without b'?' body h,
    ))
IsSplit-parts rest body (c ∷ q) e h k = (e, h, tt)

IsSplit-cut :
    (rest : Bytes)
    → ends_in b'?' rest && count_of b'?' rest == 1 ≡ false
    → IsSplit rest ((cut b'?' rest).0, (cut b'?' rest).1, false)
IsSplit-cut rest k = elim (Bool-cases (contains b'?' rest)) [
  | inl e ↦
      IsSplit-parts rest (cut b'?' rest).0 (cut b'?' rest).1 (cut-reassembled b'?' rest e)
        (cut-before b'?' rest) k
  | inr e ↦ rw (cut-without b'?' rest e) (sym (append-nil rest), e, tt)
]

pub split_query-IsSplit : (rest : Bytes) → IsSplit rest (split_query rest)
split_query-IsSplit rest = elim (Bool-cases (ends_in b'?' rest && count_of b'?' rest == 1)) [
  | inl e ↦
      let h : ends_in b'?' rest ≡ true = ground arith in
      let k : count_of b'?' rest ≡ 1 = ground arith in
      rw (split_query-force rest h k) (IsSplit-force rest h k)
  | inr e ↦ rw (split_query-cut rest e) (IsSplit-cut rest e)
]

pub span_until-append :
    (sep : ℕ) (xs ys : Bytes)
    → contains sep xs ≡ false
    → ys ≡ [] ⊎ starts_in sep ys ≡ true
    → span_until sep (xs ++ ys) ≡ (xs, ys)
unfolding span_until
span_until-append sep [] [] h k = refl
span_until-append sep [] (y ∷ ys) h k = ground arith
span_until-append sep (x ∷ xs) ys h k = ground (arith, span_until-append sep xs ys)

-- The two parts of a text, of which the second is empty or begins with the separator.
pub span_until-IsSpan :
    (sep : ℕ) (xs : Bytes)
    → (xs ≡ (span_until sep xs).0 ++ (span_until sep xs).1)
      × (contains sep (span_until sep xs).0 ≡ false)
      × (((span_until sep xs).1 ≡ []) ⊎ (starts_in sep (span_until sep xs).1 ≡ true))
unfolding span_until
span_until-IsSpan sep [] = (refl, refl, inl refl)
span_until-IsSpan sep (x ∷ xs) = ground (arith, span_until-IsSpan sep xs)

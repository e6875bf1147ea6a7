-- ===== src/Icmp/Samples.antt =====
-- IP headers and ICMP messages with the accessors written out, for the runs.
use lib_sager_net_core.Common.{
  ℕ, ◌+◌, ◌-◌, ◌*◌, ◌/◌, ◌%◌, ◌^◌, ◌≤◌, ◌≡◌, refl, sym, ◌∙◌, [], ◌∷◌, ◌++◌, if◌then◌else◌, length,
  replicate, take, drop, ltb, arith,
}
use lib_sager_net_core.Common.Bytes.{overlay, length-overlay}
use lib_sager_net_core.Icmp.{Bytes, IpFields, IpHeaders, Checksums, IcmpMessages}

-- A header of 20 bytes: its addresses, length and checksum, and the sum of its other words.
pub record Plain : Type 0 where
  pub plain_source : Bytes
  pub plain_destination : Bytes
  pub plain_length : ℕ
  pub plain_checksum : ℕ

abbrev pub plain_fields : Plain → IpFields
plain_fields h = record {
  source = h.plain_source;
  destination = h.plain_destination;
  length_field = h.plain_length % 2 ^ 16;
}

pub same_length :
    (a b : Bytes) → length (overlay (replicate 20 0) a) ≡ length (overlay (replicate 20 0) b)
same_length a b = length-overlay (replicate 20 0) a ∙ sym (length-overlay (replicate 20 0) b)

abbrev pub plain_headers : IpHeaders
plain_headers = record {
  Header = Plain;
  fields = plain_fields;
  header_bytes = λ h. overlay (replicate 20 0) (h.plain_source ++ h.plain_destination);
  set_source = λ a h. record h { plain_source = a };
  set_destination = λ a h. record h { plain_destination = a };
  set_length = λ n h. record h { plain_length = n };
  fields-set_source = λ a h. refl;
  fields-set_destination = λ a h. refl;
  fields-set_length = λ n h. refl;
  length-set_source =
      λ a h. same_length (a ++ h.plain_destination) (h.plain_source ++ h.plain_destination);
  length-set_destination =
      λ a h. same_length (h.plain_source ++ a) (h.plain_source ++ h.plain_destination);
  length-set_length = λ n h. refl;
}

-- A sum with the carries added again, from 1 to 0xffff.
abbrev pub carried : ℕ → ℕ
carried n = (n + 0xfffe) % 0xffff + 1

abbrev pub plain_combine : ℕ → ℕ → ℕ
plain_combine a b = if ltb (a + b) (2 ^ 16) then a + b else a + b - 0xffff

pub plain_combine-bound : (a b : ℕ) → a ≤ 0xffff → b ≤ 0xffff → plain_combine a b ≤ 0xffff
plain_combine-bound a b h k = ground arith

pub plain_combine-residue :
    (a b : ℕ) → a ≤ 0xffff → b ≤ 0xffff → plain_combine a b % 0xffff ≡ (a + b) % 0xffff
plain_combine-residue a b h k = ground arith

abbrev pub plain_sum : Plain → ℕ
plain_sum h = carried (0x4500 + h.plain_length % 2 ^ 16 + h.plain_checksum % 2 ^ 16)

abbrev pub plain_checksums : Checksums plain_headers
plain_checksums = record {
  checksum = λ h. h.plain_checksum % 2 ^ 16;
  set_checksum = λ c h. record h { plain_checksum = c };
  calculate = plain_sum;
  checksum_combine = plain_combine;
  fields-set_checksum = λ c h. refl;
  length-set_checksum = λ c h. refl;
  checksum-set_length = λ n h. refl;
  checksum-bound = λ h. omega arith;
  checksum-set_checksum = λ c h b. omega arith;
  length_field-bound = λ h. omega arith;
  calculate-bound = λ h. omega arith;
  calculate-set_checksum = λ c h b. omega arith;
  calculate-set_length = λ n h. omega arith;
  combine-bound = plain_combine-bound;
  combine-residue = plain_combine-residue;
}

-- Messages: the type and code are the first bytes, the checksum the next two.
abbrev pub with_type : ℕ → Bytes → Bytes
with_type t [] = []
with_type t (_ ∷ m) = t ∷ m

abbrev pub with_sum : ℕ → Bytes → Bytes
with_sum c (t ∷ k ∷ _ ∷ _ ∷ m) = t ∷ k ∷ c / 256 ∷ c % 256 ∷ m
with_sum c m = m

abbrev pub first : Bytes → ℕ
first [] = 0
first (t ∷ _) = t

abbrev pub second : Bytes → ℕ
second [] = 0
second (_ ∷ m) = first m

abbrev pub words : Bytes → ℕ
words [] = 0
words (a ∷ []) = a * 256
words (a ∷ b ∷ m) = a * 256 + b + words m

pub first-with_sum : (c : ℕ) (m : Bytes) → first (with_sum c m) ≡ first m
first-with_sum c [] = refl
first-with_sum c (a ∷ []) = refl
first-with_sum c (a ∷ b ∷ []) = refl
first-with_sum c (a ∷ b ∷ d ∷ []) = refl
first-with_sum c (a ∷ b ∷ d ∷ e ∷ m) = refl

pub length-with_sum : (c : ℕ) (m : Bytes) → length (with_sum c m) ≡ length m
length-with_sum c [] = refl
length-with_sum c (a ∷ []) = refl
length-with_sum c (a ∷ b ∷ []) = refl
length-with_sum c (a ∷ b ∷ d ∷ []) = refl
length-with_sum c (a ∷ b ∷ d ∷ e ∷ m) = refl

pub take-with_sum : (c : ℕ) (m : Bytes) → take 2 (with_sum c m) ≡ take 2 m
take-with_sum c [] = refl
take-with_sum c (a ∷ []) = refl
take-with_sum c (a ∷ b ∷ []) = refl
take-with_sum c (a ∷ b ∷ d ∷ []) = refl
take-with_sum c (a ∷ b ∷ d ∷ e ∷ m) = refl

pub drop-with_sum : (c : ℕ) (m : Bytes) → drop 4 (with_sum c m) ≡ drop 4 m
drop-with_sum c [] = refl
drop-with_sum c (a ∷ []) = refl
drop-with_sum c (a ∷ b ∷ []) = refl
drop-with_sum c (a ∷ b ∷ d ∷ []) = refl
drop-with_sum c (a ∷ b ∷ d ∷ e ∷ m) = refl

pub length-with_type : (t : ℕ) (m : Bytes) → length (with_type t m) ≡ length m
length-with_type t [] = refl
length-with_type t (a ∷ m) = refl

pub first-with_type : (t : ℕ) (m : Bytes) → 8 ≤ length m → first (with_type t m) ≡ t
first-with_type t [] h = absurd (omega arith)
first-with_type t (a ∷ m) h = refl

pub words-complement :
    (s d m : Bytes)
    → 8 ≤ length m
    → let q = with_sum 0 m in carried (words (with_sum (0xffff - carried (words q)) q)) ≡ 0xffff
words-complement s d [] h = absurd (omega arith)
words-complement s d (a ∷ []) h = absurd (omega arith)
words-complement s d (a ∷ b ∷ []) h = absurd (omega arith)
words-complement s d (a ∷ b ∷ e ∷ []) h = absurd (omega arith)
words-complement s d (a ∷ b ∷ e ∷ g ∷ m) h = omega arith

abbrev pub plain_messages : IcmpMessages
plain_messages = record {
  type_of = first;
  code_of = second;
  set_type = with_type;
  set_icmp_checksum = with_sum;
  calculate_icmp = λ s d m. carried (words m);
  dst_unreachable = 3;
  echo = 8;
  echo_reply = 0;
  error_header_size = 8;
  type_of-set_type = first-with_type;
  type_of-set_icmp_checksum = first-with_sum;
  length-set_type = length-with_type;
  length-set_icmp_checksum = length-with_sum;
  take-set_icmp_checksum = take-with_sum;
  drop-set_icmp_checksum = drop-with_sum;
  calculate-complement = words-complement;
}

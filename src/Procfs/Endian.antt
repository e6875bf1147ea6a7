-- ===== src/Procfs/Endian.antt =====
-- `nativeEndianIP` and the text of a socket in the table.
use lib_sager_net_core.Common.{
  ℕ, ◌≡◌, ap, List, [], ◌∷◌, ◌++◌, arith, ◌/◌, ◌%◌, ◌<◌, none, some, Option,
}
use lib_sager_net_core.Common.Text.{hex_digit}
use lib_sager_net_core.Procfs.{
  ByteOrder, big_endian, little_endian, be_uint32, put_uint32, native_endian_ip, hex_encode,
  local_key,
}

abbrev pub AllBytes : List ℕ → Type 0
AllBytes [] = Unit
AllBytes (b ∷ bs) = (b < 256) × AllBytes bs

-- What `native_endian_ip` does, said without numbers: on a little-endian machine each group of four
-- bytes is reversed, on a big-endian one nothing changes.
abbrev pub reordered : ByteOrder → List ℕ → Option (List ℕ)
reordered order [] = some []
reordered big_endian (a ∷ b ∷ c ∷ d ∷ rest) = elim (reordered big_endian rest) [
  | some r ↦ some (a ∷ b ∷ c ∷ d ∷ r)
  | none ↦ none
]
reordered little_endian (a ∷ b ∷ c ∷ d ∷ rest) = elim (reordered little_endian rest) [
  | some r ↦ some (d ∷ c ∷ b ∷ a ∷ r)
  | none ↦ none
]
reordered order _ = none

pub put_uint32_little :
    (a b c d : ℕ)
    → a < 256
    → b < 256
    → c < 256
    → d < 256
    → put_uint32 little_endian (be_uint32 a b c d) ≡ d ∷ c ∷ b ∷ a ∷ []
unfolding put_uint32 be_uint32
put_uint32_little a b c d ha hb hc hd = ground arith

pub put_uint32_big :
    (a b c d : ℕ)
    → a < 256
    → b < 256
    → c < 256
    → d < 256
    → put_uint32 big_endian (be_uint32 a b c d) ≡ a ∷ b ∷ c ∷ d ∷ []
unfolding put_uint32 be_uint32
put_uint32_big a b c d ha hb hc hd = ground arith

-- On bytes, `nativeEndianIP` reverses each group of four on a little-endian machine and changes nothing
-- on a big-endian one, and it panics exactly for a length that is no multiple of four.
pub native_endian_ip-reordered :
    (order : ByteOrder) (ip : List ℕ) → AllBytes ip → native_endian_ip order ip ≡ reordered order ip
unfolding native_endian_ip
native_endian_ip-reordered order [] h = ground arith
native_endian_ip-reordered order (a ∷ []) h = ground arith
native_endian_ip-reordered order (a ∷ b ∷ []) h = ground arith
native_endian_ip-reordered order (a ∷ b ∷ c ∷ []) h = ground arith
native_endian_ip-reordered big_endian (a ∷ b ∷ c ∷ d ∷ rest) (ha, (hb, (hc, (hd, h)))) = λ i.
    elim (native_endian_ip-reordered big_endian rest h i) [
      | some bytes ↦ some (put_uint32_big a b c d ha hb hc hd i ++ bytes)
      | none ↦ none
    ]
native_endian_ip-reordered little_endian (a ∷ b ∷ c ∷ d ∷ rest) (ha, (hb, (hc, (hd, h)))) = λ i.
    elim (native_endian_ip-reordered little_endian rest h i) [
      | some bytes ↦ some (put_uint32_little a b c d ha hb hc hd i ++ bytes)
      | none ↦ none
    ]

-- A hexadecimal digit determines its value.
hex_digit_injective : (m n : ℕ) → m < 16 → n < 16 → hex_digit m ≡ hex_digit n → m ≡ n
hex_digit_injective m n hm hn h = ground arith

pub hex_encode_injective :
    (xs ys : List ℕ) (zs ws : List ℕ)
    → AllBytes xs
    → AllBytes ys
    → hex_encode xs ++ b':' ∷ zs ≡ hex_encode ys ++ b':' ∷ ws
    → (xs ≡ ys) × (zs ≡ ws)
unfolding hex_encode
hex_encode_injective [] [] zs ws hx hy h = ground arith
hex_encode_injective [] (y ∷ ys) zs ws hx hy h = ground arith
hex_encode_injective (x ∷ xs) [] zs ws hx hy h = ground arith
hex_encode_injective (x ∷ xs) (y ∷ ys) zs ws hx hy h =
    ground (arith, hex_encode_injective xs ys zs ws hx.1 hy.1)

-- Different sockets have different texts in the table: two addresses in native order and two ports
-- that give the same text are the same.
pub local_key_injective :
    (xs ys : List ℕ) (m n : ℕ)
    → AllBytes xs
    → AllBytes ys
    → m < 65536
    → n < 65536
    → local_key xs m ≡ local_key ys n
    → (xs ≡ ys) × (m ≡ n)
unfolding local_key
local_key_injective xs ys m n hx hy hm hn h =
    let (same, ports) = hex_encode_injective xs ys _ _ hx hy h in
    let (bytes, _) =
      hex_encode_injective (m / 256 ∷ m % 256 ∷ []) (n / 256 ∷ n % 256 ∷ []) [] [] (omega arith)
        (omega arith) (ap (λ x. x ++ b':' ∷ []) ports) in
    let high : m / 256 ≡ n / 256 = cc bytes in
    let low : m % 256 ≡ n % 256 = cc bytes in (same, omega arith)

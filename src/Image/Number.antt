-- ===== src/Image/Number.antt =====
-- Numbers as text: `strtoul` of the C library at base 0, as the viewer uses it, and `parse_ulong`
-- (hw_bringup/userspace/image_viewer/zx32_image_viewer.c). An `unsigned long` has 32 bits.
use zynq_cpu.Base.{
  ℕ, ◌+◌, ◌-◌, ◌*◌, ◌<◌, ◌≡◌, ◌≢◌, refl, ◌∙◌, word, sub32, ltb, leb, ◌==◌, not, ◌&&◌, ◌||◌,
  if◌then◌else◌, Bool, true, false, List, [], ◌∷◌, length, Option, none, some, arith,
}
use zynq_cpu.Console.Writer.Digits.{read_dec, IsDigits, NoLeadingZero}

-- The value of a digit of any base, 36 for what is none.
unfoldable pub digit_value : ℕ → ℕ
digit_value c =
    if leb b'0' c && leb c b'9'
    then c - b'0'
    else if leb b'a' c && leb c b'z'
    then c - b'a' + 10
    else if leb b'A' c && leb c b'Z'
    then c - b'A' + 10
    else 36

-- The digits of a base, from the left: the value without a bound, whether there was a digit, and the
-- rest.
unfoldable pub read_digits : ℕ → ℕ → Bool → List ℕ → ℕ × Bool × List ℕ
read_digits base acc any [] = (acc, any, [])
read_digits base acc any (c ∷ cs) =
    let rest = read_digits base (acc * base + digit_value c) true cs in
    if ltb (digit_value c) base then rest else (acc, any, c ∷ cs)

unfoldable pub is_space : ℕ → Bool
is_space c = c == 32 || leb 9 c && leb c 13

unfoldable pub skip_spaces : List ℕ → List ℕ
skip_spaces [] = []
skip_spaces (c ∷ cs) = let rest = skip_spaces cs in if is_space c then rest else c ∷ cs

unfoldable pub is_hex : List ℕ → Bool
is_hex [] = false
is_hex (c ∷ cs) = ltb (digit_value c) 16

-- At base 0 the prefix gives the base.
unfoldable pub read_number : List ℕ → ℕ × Bool × List ℕ
read_number [] = (0, false, [])
read_number (c ∷ []) = read_digits (if c == b'0' then 8 else 10) 0 false (c ∷ [])
read_number (c ∷ d ∷ cs) =
    if (c == b'0' && (d == b'x' || d == b'X')) && is_hex cs
    then read_digits 16 0 false cs
    else read_digits (if c == b'0' then 8 else 10) 0 false (c ∷ d ∷ cs)

-- The sign; the value is negated after its range is checked.
unfoldable pub read_signed : List ℕ → Bool × (ℕ × Bool × List ℕ)
read_signed [] = (false, read_number [])
read_signed (c ∷ cs) =
    if c == b'-'
    then (true, read_number cs)
    else if c == b'+'
    then (false, read_number cs)
    else (false, read_number (c ∷ cs))

-- The value, or none where the program exits: without digits, past the range, or with text behind.
unfoldable pub parse_ulong : List ℕ → Option ℕ
parse_ulong s =
    let (negative, number) = read_signed (skip_spaces s) in
    let (value, any, rest) = number in
    if not any || not (ltb value word)
    then none
    else if not (length rest == 0)
    then none
    else some (if negative then sub32 0 value else value)

-- Decimal digits are read to their end.
read_digits-dec :
    (acc : ℕ) (any : Bool) (ds : List ℕ)
    → IsDigits ds
    → ds ≢ []
    → read_digits 10 acc any ds ≡ (read_dec acc ds, true, [])
unfolding read_digits read_dec digit_value
read_digits-dec acc any [] h ne = absurd (ne refl)
read_digits-dec acc any (d ∷ []) h ne = ground arith
read_digits-dec acc any (d ∷ e ∷ ds) h ne =
    ground (arith, read_digits-dec (acc * 10 + (d - b'0')) true (e ∷ ds) h.2)

read_number-dec :
    (d : ℕ) (ds : List ℕ) → d ≢ b'0' → read_number (d ∷ ds) ≡ read_digits 10 0 false (d ∷ ds)
unfolding read_number
read_number-dec d [] nz = let t : (d == b'0') ≡ false = ground arith in rw t refl
read_number-dec d (e ∷ ds) nz = let t : (d == b'0') ≡ false = ground arith in rw t refl

read_signed-dec :
    (d : ℕ) (ds : List ℕ)
    → IsDigits (d ∷ ds)
    → d ≢ b'0'
    → read_signed (skip_spaces (d ∷ ds)) ≡ (false, (read_dec 0 (d ∷ ds), true, []))
unfolding skip_spaces is_space read_signed
read_signed-dec d ds h nz =
    let space : (d == 32 || leb 9 d && leb d 13) ≡ false = ground arith in
    let minus : (d == b'-') ≡ false = ground arith in
    let plus : (d == b'+') ≡ false = ground arith in
    let number = read_number-dec d ds nz ∙ read_digits-dec 0 false (d ∷ ds) h (λ e. cc) in
    rw (space, minus, plus, number) refl

-- The text of a 32-bit number without a leading zero is read as the number.
pub parse_ulong-dec :
    (ds : List ℕ)
    → IsDigits ds
    → NoLeadingZero ds
    → read_dec 0 ds < word
    → parse_ulong ds ≡ some (read_dec 0 ds)
unfolding parse_ulong
parse_ulong-dec [] h nz small = absurd nz
parse_ulong-dec (d ∷ ds) h nz small =
    let inside : ltb (read_dec 0 (d ∷ ds)) word ≡ true = ground arith in
    rw (read_signed-dec d ds h nz, inside) refl

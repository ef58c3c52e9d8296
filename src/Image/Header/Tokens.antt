-- ===== src/Image/Header/Tokens.antt =====
-- Reading back a header as `write_ppm` writes it
-- (hw_bringup/userspace/image_viewer/zx32_image_viewer.c).
use zynq_cpu.Base.{
  ℕ, zero, suc, ◌+◌, ◌/◌, ◌%◌, ◌^◌, ◌≤◌, ◌<◌, ◌≡◌, ◌≢◌, refl, ap, ◌∙◌, word, ◌==◌, true, false,
  List, [], ◌∷◌, ◌++◌, codes, length, some, arith,
}
use zynq_cpu.Console.Writer.{digit_loop}
use zynq_cpu.Console.Writer.Digits.{dec_digits, dec_digits_lem, read_dec, IsDigits, NoLeadingZero}
use zynq_cpu.Image.{ppm_header}
use zynq_cpu.Image.Number.{parse_ulong, parse_ulong-dec}
use zynq_cpu.Image.Header.{
  is_blank, skip_blanks, take_token, start_token, read_token, c_string, same_text, ok, ◌>>=◌, found,
  token, converted, number, read_ppm_header,
}

abbrev IsPlain : List ℕ → Type 0
IsPlain [] = Unit {0}
IsPlain (c ∷ cs) = (is_blank c ≡ false) × (c ≢ b'#') × (c ≢ 0) × IsPlain cs

IsDigits-IsPlain : (ds : List ℕ) → IsDigits ds → IsPlain ds
IsDigits-IsPlain [] h = tt
IsDigits-IsPlain (d ∷ ds) h = (ground arith, omega arith, omega arith, IsDigits-IsPlain ds h.2)

take_token-plain :
    (room : ℕ) (t : List ℕ) (sep : ℕ) (rest : List ℕ)
    → IsPlain t
    → length t ≤ room
    → is_blank sep ≡ true
    → take_token room (t ++ (sep ∷ rest)) ≡ some (t, rest)
unfolding take_token
take_token-plain zero [] sep rest plain fits blank = rw blank refl
take_token-plain (suc room) [] sep rest plain fits blank = rw blank refl
take_token-plain zero (c ∷ cs) sep rest plain fits blank = absurd (omega arith)
take_token-plain (suc room) (c ∷ cs) sep rest plain fits blank =
    let hash : (c == b'#') ≡ false = ground arith in
    let later = take_token-plain room cs sep rest plain.3 (omega arith) blank in
    rw (plain.0, hash, later) refl

c_string-plain : (t : List ℕ) → IsPlain t → c_string t ≡ t
unfolding c_string
c_string-plain [] plain = refl
c_string-plain (c ∷ cs) plain =
    let nul : (c == 0) ≡ false = ground arith in rw (nul, c_string-plain cs plain.3) refl

skip_blanks-plain :
    (c : ℕ) (cs : List ℕ) → is_blank c ≡ false → c ≢ b'#' → skip_blanks false (c ∷ cs) ≡ c ∷ cs
unfolding skip_blanks
skip_blanks-plain c cs ink code =
    let hash : (c == b'#') ≡ false = ground arith in rw (hash, ink) refl

token-plain :
    (c : ℕ) (cs : List ℕ) (sep : ℕ) (rest : List ℕ)
    → IsPlain (c ∷ cs)
    → length (c ∷ cs) ≤ 31
    → is_blank sep ≡ true
    → token (c ∷ cs ++ (sep ∷ rest)) ≡ ok (c ∷ cs) rest
unfolding token read_token start_token
token-plain c cs sep rest plain fits blank =
    let starts = skip_blanks-plain c (cs ++ (sep ∷ rest)) plain.0 plain.1 in
    ap (λ t. found (start_token t)) starts
    ∙ ap found (take_token-plain 31 (c ∷ cs) sep rest plain fits blank)
    ∙ ap (λ t. ok t rest) (c_string-plain (c ∷ cs) plain)

digit_loop-length :
    (room value : ℕ) (buf : List ℕ) → length (digit_loop room value buf) ≤ room + length buf
unfolding digit_loop
digit_loop-length zero value buf = omega arith
digit_loop-length (suc room) value buf =
    ground (arith, digit_loop-length room (value / 10) ((b'0' + value % 10) ∷ buf))

digits-number :
    (ds : List ℕ) (sep : ℕ) (rest : List ℕ)
    → IsDigits ds
    → NoLeadingZero ds
    → read_dec 0 ds < word
    → length ds ≤ 31
    → is_blank sep ≡ true
    → number (ds ++ (sep ∷ rest)) ≡ ok (read_dec 0 ds) rest
unfolding number
digits-number [] sep rest h nz small fits blank = absurd nz
digits-number (d ∷ ds) sep rest h nz small fits blank =
    let whole : read_dec 0 (d ∷ ds) % 2 ^ 32 ≡ read_dec 0 (d ∷ ds) = omega arith in
    ap (λ t. t >>= λ text rest'. converted (parse_ulong text) rest')
      (token-plain d ds sep rest (IsDigits-IsPlain (d ∷ ds) h) fits blank)
    ∙ ap (λ t. converted t rest) (parse_ulong-dec (d ∷ ds) h nz small)
    ∙ ap (λ v. ok v rest) whole

number-dec :
    (value sep : ℕ) (rest : List ℕ)
    → 0 < value
    → value < word
    → is_blank sep ≡ true
    → number (dec_digits value ++ (sep ∷ rest)) ≡ ok value rest
number-dec value sep rest pos small blank =
    let (reads, digits, leading) = dec_digits_lem value small in
    let more : (value == 0) ≡ false = ground arith in
    let fits : length (dec_digits value) ≤ 31 =
      rw more (omega (arith, digit_loop-length 10 value [])) in
    digits-number (dec_digits value) sep rest digits (leading (omega arith)) (omega (arith, reads))
      fits blank
    ∙ ap (λ v. ok v rest) reads

pub read_ppm_header-ppm_header :
    (width height : ℕ) (file : List ℕ)
    → 0 < width
    → width < word
    → 0 < height
    → height < word
    → read_ppm_header (ppm_header width height file) ≡ ok (width, height) file
unfolding read_ppm_header ppm_header same_text digit_loop
read_ppm_header-ppm_header width height file w0 w h0 h =
    let magic =
      token-plain b'P' (b'6' ∷ []) 10
        ((dec_digits width) ++ (32 ∷ dec_digits height ++ (10 ∷ codes "255" ++ (10 ∷ file))))
        (refl, omega arith, omega arith, (refl, omega arith, omega arith, tt)) (omega arith) refl in
    let whole = number-dec 255 10 file (omega arith) (omega arith) refl in
    let maxval : number (codes "255" ++ (10 ∷ file)) ≡ ok 255 file = whole in
    rw
      (
        magic,
        number-dec width 32 (dec_digits height ++ (10 ∷ codes "255" ++ (10 ∷ file))) w0 w refl,
        number-dec height 10 (codes "255" ++ (10 ∷ file)) h0 h refl,
        maxval,
      )
      refl

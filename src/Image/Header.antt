-- ===== src/Image/Header.antt =====
-- The header of a PPM file (hw_bringup/userspace/image_viewer/zx32_image_viewer.c, `read_token`,
-- `read_ppm_header`), and the viewer's mode `ppm` as far as the framebuffer.
pub mod Tokens
use zynq_cpu.Base.{
  ℕ, zero, suc, ◌+◌, ◌-◌, ◌%◌, ◌^◌, Store, ◌==◌, not, ◌&&◌, ◌||◌, if◌then◌else◌, Bool, true, false,
  List, [], ◌∷◌, codes, Option, none, some,
}
use mathlib.Core.Option
use zynq_cpu.Image.{checked_fb_bytes, load_ppm}
use zynq_cpu.Image.Number.{parse_ulong}

abbrev pub is_blank : ℕ → Bool
is_blank c = c == 32 || (c == 9 || (c == 13 || c == 10))

-- After the line feed that ends a comment.
unfoldable pub skip_comment : List ℕ → List ℕ
skip_comment [] = []
skip_comment (c ∷ cs) = let rest = skip_comment cs in if c == 10 then cs else rest

-- The file from the first character of a token on: blanks are skipped, and comments to their line feed;
-- `inside` a comment.
unfoldable pub skip_blanks : Bool → List ℕ → List ℕ
skip_blanks inside [] = []
skip_blanks inside (c ∷ cs) =
    let rest = skip_blanks (if inside then not (c == 10) else c == b'#') cs in
    if inside || (c == b'#' || is_blank c) then rest else c ∷ cs

-- The token, with `room` for its characters, and what follows the blank or the comment behind it.
unfoldable pub take_token : ℕ → List ℕ → Option (List ℕ × List ℕ)
take_token room [] = some ([], [])
take_token zero (c ∷ cs) =
    if is_blank c then some ([], cs) else if c == b'#' then some ([], skip_comment cs) else none
take_token (suc room) (c ∷ cs) =
    let rest = Option.map (λ (r : List ℕ × List ℕ). (c ∷ r.0, r.1)) (take_token room cs) in
    if is_blank c then some ([], cs) else if c == b'#' then some ([], skip_comment cs) else rest

-- With a buffer of 32 characters, one of them for the NUL.
unfoldable pub start_token : List ℕ → Option (List ℕ × List ℕ)
start_token [] = none
start_token (c ∷ cs) = take_token 31 (c ∷ cs)

unfoldable pub read_token : List ℕ → Option (List ℕ × List ℕ)
read_token file = start_token (skip_blanks false file)

-- The string in a buffer ends at a NUL.
unfoldable pub c_string : List ℕ → List ℕ
c_string [] = []
c_string (c ∷ cs) = let rest = c_string cs in if c == 0 then [] else c ∷ rest

unfoldable pub same_text : List ℕ → List ℕ → Bool
same_text [] [] = true
same_text (x ∷ xs) (y ∷ ys) = x == y && same_text xs ys
same_text _ _ = false

-- A value and the rest of the file; `failed` is the result -1, and `exits` the exit of the program.
pub data Parsed (A : Type 0) : Type 0 where
  ok : A → List ℕ → Parsed A
  failed : Parsed A
  exits : Parsed A

infixl 5 ◌>>=◌
abbrev pub ◌>>=◌ : {A B : Type 0} → Parsed A → (A → List ℕ → Parsed B) → Parsed B
ok a rest >>= f = f a rest
failed >>= f = failed
exits >>= f = exits

abbrev pub found : Option (List ℕ × List ℕ) → Parsed (List ℕ)
found none = failed
found (some (text, rest)) = ok (c_string text) rest

unfoldable pub token : List ℕ → Parsed (List ℕ)
token file = found (read_token file)

abbrev pub converted : Option ℕ → List ℕ → Parsed ℕ
converted none rest = exits
converted (some value) rest = ok (value % 2 ^ 32) rest

unfoldable pub number : List ℕ → Parsed ℕ
number file = token file >>= λ text rest. converted (parse_ulong text) rest

unfoldable pub read_ppm_header : List ℕ → Parsed (ℕ × ℕ)
read_ppm_header file = token file >>= λ magic file1.
    if not (same_text magic (codes "P6"))
    then failed
    else (number file1 >>= λ width file2. number file2 >>= λ height file3.
        number file3 >>= λ maxval file4. if maxval == 255 then ok (width, height) file4 else failed)

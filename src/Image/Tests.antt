-- ===== src/Image/Tests.antt =====
-- Runs of the image viewer (hw_bringup/userspace/image_viewer/zx32_image_viewer.c) on small pictures.
use zynq_cpu.Base.{
  ◌*◌, ◌+◌, ◌≡◌, refl, Store, ltb, leb, ◌&&◌, not, if◌then◌else◌, true, false, [], ◌∷◌, ◌++◌, codes,
  none, some, arith,
}
use zynq_cpu.Loader.Tests.{zeros}
use zynq_cpu.Console.Writer.Digits.{dec_digits}
use zynq_cpu.Image.{vram_bytes, checked_fb_bytes}
use zynq_cpu.Image.Number.{
  parse_ulong, read_signed, skip_spaces, is_space, read_number, read_digits, digit_value, is_hex,
}
use zynq_cpu.Image.Header.{
  same_text, ok, failed, read_ppm_header, number, token, read_token, start_token, skip_blanks,
  take_token, skip_comment, c_string,
}
use zynq_cpu.Image.Size.{checked_fb_bytes_lem}
use zynq_cpu.Image.Show.{after, with_file}
use zynq_cpu.Image.Show.Dump.{setup-dump}
use zynq_cpu.Image.Show.Again.{dump_args, sized_args, main-dump-ppm, main-dump_sized-ppm}
use zynq_cpu.Image.Closing.{is_null, can_map, main-is_null}
use zynq_cpu.Image.Viewer.{Host, Text, stop, fb_base_default, setup, main, job_with, Job, no_file}

abbrev host : Host
host = record {
  files = λ path. none;
  mem_opens = true;
  maps = λ base bytes. true;
  writes = λ path. true;
}

-- A host without /dev/mem.
abbrev closed_host : Host
closed_host = record {
  files = λ path. none;
  mem_opens = false;
  maps = λ base bytes. true;
  writes = λ path. true;
}

abbrev path : Text
path = codes "a.ppm"

abbrev picture : Store
picture a = 0xFF102030 + a

hex_number : parse_ulong (codes " 0x1fF") ≡ some 511
unfolding parse_ulong read_signed skip_spaces is_space read_number read_digits digit_value is_hex
hex_number = refl

negative_number : parse_ulong (codes "-1") ≡ some 0xFFFF_FFFF
unfolding parse_ulong read_signed skip_spaces is_space read_number read_digits digit_value is_hex
negative_number = refl

text_behind : parse_ulong (codes "12x") ≡ none
unfolding parse_ulong read_signed skip_spaces is_space read_number read_digits digit_value is_hex
text_behind = refl

commented_header :
    read_ppm_header
      (codes "# by hand" ++ (10 ∷ codes "P6 2#wide" ++ (10 ∷ codes " 3 255" ++ (10 ∷ 7 ∷ []))))
    ≡ ok (2, 3) (7 ∷ [])
unfolding read_ppm_header number token read_token start_token skip_blanks take_token skip_comment
    c_string same_text parse_ulong read_signed skip_spaces is_space read_number read_digits
    digit_value is_hex
commented_header = refl

wrong_magic : read_ppm_header (codes "P5 2 3 255 ") ≡ failed
unfolding read_ppm_header number token read_token start_token skip_blanks take_token skip_comment
    c_string same_text parse_ulong read_signed skip_spaces is_space read_number read_digits
    digit_value is_hex
wrong_magic = refl

no_arguments : setup host (codes "dump" ∷ []) ≡ stop 2
unfolding setup
no_arguments = refl

checked_fb_bytes_lem_example : checked_fb_bytes 4096 4097 ≡ (
    if (ltb 0 4096 && ltb 0 4097) && leb (4096 * 4 * 4097) vram_bytes
    then some (4096 * 4 * 4097)
    else none)
checked_fb_bytes_lem_example = checked_fb_bytes_lem 4096 4097 (omega arith) (omega arith)

main-dump-ppm_example :
    after 3 (
      main
        (with_file (main host (dump_args path 2 2) picture) host)
        (codes "ppm" ∷ path ∷ [])
        zeros)
    ≡ some (0, 0x102033)
unfolding same_text
main-dump-ppm_example =
    main-dump-ppm host path 2 2 picture
      ((omega arith, omega arith, omega arith), (refl, refl), refl, refl) zeros 3

main-dump_sized-ppm_example :
    after 5 (
      main
        (with_file (main host (sized_args path 2 2 3 3) picture) host)
        (codes "ppm" ∷ path ∷ [])
        zeros)
    ≡ some (0, 0x102031)
unfolding same_text
main-dump_sized-ppm_example =
    main-dump_sized-ppm host path 2 2 3 3 picture zeros 5
      ((omega arith, omega arith, omega arith), (refl, refl), refl, refl)
      (omega arith, omega arith, omega arith) (refl, refl)

abbrev small_job : Job
small_job = job_with no_file 2 2 (some path) fb_base_default 2 2

main-is_null_example :
    is_null (main closed_host (dump_args path 2 2) picture)
    ≡ (same_text (codes "dump") (codes "dump") && not (can_map closed_host small_job))
main-is_null_example =
    main-is_null closed_host (codes "dump") (dec_digits 2 ∷ dec_digits 2 ∷ path ∷ []) small_job
      picture (setup-dump closed_host path 2 2 picture (omega arith, omega arith, omega arith))
